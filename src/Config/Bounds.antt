-- ===== src/Config/Bounds.antt =====
-- What holds of a configuration that `Load` of internal/config/config.go returns.
use llm_file_gateway.Prelude.{◌^◌, ◌≡◌, refl, subst, true, false, Option, some, inr}
use llm_file_gateway.Prelude.Int.{ℤ, pos, pos_part, ◌*ℤ◌, ◌≤ℤ◌, wrap64}
use llm_file_gateway.Prelude.Text.{String, ◌=ˢ◌, decimal}
use llm_file_gateway.Config.Env.{Env, Seconds, env_string, env_bool, env_uint64}
use llm_file_gateway.Config.Load.{BaseUrl, Config, trim_slashes, join_host_port, load}
use llm_file_gateway.Config.Rules.{
  IsSetting, IsDuration, Ensures, bind_rule, at_least-inr, bounded-inr, not_negative-inr,
  seconds_of-inr, read_model-inr, read_base_url-inr, check_keys_rule,
}

pub record IsLoaded (parse_url : String → Option BaseUrl) (parse_float : String → Option Seconds)
    (env : Env) (config : Config) : Type 0 where
  pub model : (config.vllm_model ≡ env "VLLM_MODEL") × ((config.vllm_model =ˢ "") ≡ false)
  pub base_url :
      (parse_url (env "VLLM_BASE_URL") ≡ some config.vllm_base_url)
      × ((config.vllm_base_url.scheme =ˢ "") ≡ false)
      × ((config.vllm_base_url.host =ˢ "") ≡ false)
      × ((trim_slashes config.vllm_base_url.path =ˢ "/v1") ≡ true)
  pub auth_required : env_bool env "GATEWAY_AUTH_REQUIRED" false ≡ inr config.gateway_auth_required
  pub api_keys :
      (config.vllm_api_key ≡ env "VLLM_API_KEY")
      × (config.gateway_api_key ≡ env "GATEWAY_API_KEY")
      × ((config.vllm_api_key =ˢ "") ≡ false)
      × ((config.gateway_auth_required ≡ true) → (config.gateway_api_key =ˢ "") ≡ false)
  pub address :
      (port : ℤ) × IsSetting env "GATEWAY_PORT" (pos 8080) (pos 1) port
      × (port ≤ℤ pos 65535)
      × (config.address
          ≡ join_host_port (env_string env "GATEWAY_HOST" "127.0.0.1") (decimal (pos_part port)))
  pub data_dir : config.data_dir ≡ env_string env "GATEWAY_DATA_DIR" "gateway-data"
  pub file_ttl :
      (s : ℤ) × IsSetting env "FILE_TTL_SECONDS" (pos 300) (pos 0) s
      × (config.file_ttl ≡ wrap64 (s *ℤ pos (10 ^ 9)))
  pub max_file_bytes : IsSetting env "MAX_FILE_BYTES" (pos 52428800) (pos 0) config.max_file_bytes
  pub max_request_body_bytes :
      IsSetting env "MAX_REQUEST_BODY_BYTES"
        (wrap64 (pos 4 *ℤ config.max_file_bytes))
        (pos 0)
        config.max_request_body_bytes
  pub max_pages : IsSetting env "MAX_DOCUMENT_PAGES" (pos 50) (pos 0) config.max_document_pages
  pub max_text_chars :
      IsSetting env "MAX_DOCUMENT_TEXT_CHARS" (pos 500000) (pos 0) config.max_document_text_chars
  pub max_page_width :
      IsSetting env "MAX_DOCUMENT_PAGE_WIDTH" (pos 20000) (pos 0) config.max_document_page_width
  pub max_page_height :
      IsSetting env "MAX_DOCUMENT_PAGE_HEIGHT" (pos 20000) (pos 0) config.max_document_page_height
  pub max_ooxml_members :
      IsSetting env "MAX_DOCUMENT_OOXML_MEMBERS"
        (pos 10000)
        (pos 0)
        config.max_document_ooxml_members
  pub document_dpi :
      IsSetting env "DOCUMENT_DPI" (pos 300) (pos 1) config.document_dpi
      × (config.document_dpi ≤ℤ pos 1200)
  pub max_pdf_bytes :
      env_uint64 env "MAX_DOCUMENT_PDF_BYTES" 134217728 ≡ inr config.max_document_pdf_bytes
  pub max_page_pixels :
      env_uint64 env "MAX_DOCUMENT_PAGE_PIXELS" 200000000 ≡ inr config.max_document_page_pixels
  pub max_pixels : env_uint64 env "MAX_DOCUMENT_PIXELS" 1000000000 ≡ inr config.max_document_pixels
  pub max_ooxml_member_bytes :
      env_uint64 env "MAX_DOCUMENT_OOXML_MEMBER_BYTES" 268435456
      ≡ inr config.max_document_ooxml_member_bytes
  pub max_ooxml_total_bytes :
      env_uint64 env "MAX_DOCUMENT_OOXML_TOTAL_BYTES" 1073741824
      ≡ inr config.max_document_ooxml_total_bytes
  pub text_extraction :
      env_bool env "DOCUMENT_TEXT_EXTRACTION_ENABLED" true ≡ inr config.text_extraction_enabled
  pub render_timeout :
      IsDuration parse_float env "DOCUMENT_RENDER_TIMEOUT_SECONDS" config.document_render_timeout
  pub libre_office_timeout :
      IsDuration parse_float env "DOCUMENT_LIBREOFFICE_TIMEOUT_SECONDS" config.libre_office_timeout
  pub workers : IsSetting env "CONVERSION_WORKERS" (pos 2) (pos 1) config.workers
  pub queue_capacity :
      IsSetting env "CONVERSION_QUEUE_CAPACITY" (pos 0) (pos 0) config.conversion_queue_capacity
  pub max_concurrent_requests :
      IsSetting env "MAX_CONCURRENT_REQUESTS" (pos 0) (pos 0) config.max_concurrent_requests
  pub request_timeout : IsDuration parse_float env "REQUEST_TIMEOUT_SECONDS" config.request_timeout
  pub log_verbosity :
      IsSetting env "LOGLEVEL" (pos 0) (pos 0) config.log_verbosity
      × (config.log_verbosity ≤ℤ pos 2)

module _ (parse_url : String → Option BaseUrl) (parse_float : String → Option Seconds)
    (env : Env) where
  abbrev P : Config → Type 0
  P = IsLoaded parse_url parse_float env

  load-Ensures : Ensures P (load parse_url parse_float env)
  unfolding load
  load-Ensures = bind_rule P _ _ λ model e_model. bind_rule P _ _ λ base_url e_base_url.
      bind_rule P _ _ λ auth e_auth. bind_rule P _ _ λ port e_port. bind_rule P _ _ λ ttl e_ttl.
        bind_rule P _ _ λ file_bytes e_file_bytes. bind_rule P _ _ λ body e_body.
          bind_rule P _ _ λ pages e_pages. bind_rule P _ _ λ chars e_chars.
            bind_rule P _ _ λ pdf e_pdf. bind_rule P _ _ λ width e_width.
              bind_rule P _ _ λ height e_height. bind_rule P _ _ λ page_pixels e_page_pixels.
                bind_rule P _ _ λ pixels e_pixels. bind_rule P _ _ λ members e_members.
                  bind_rule P _ _ λ member_bytes e_member_bytes.
                    bind_rule P _ _ λ total_bytes e_total_bytes. bind_rule P _ _ λ dpi e_dpi.
                      bind_rule P _ _ λ render e_render. bind_rule P _ _ λ libre e_libre.
                        bind_rule P _ _ λ text e_text. bind_rule P _ _ λ workers e_workers.
                          bind_rule P _ _ λ queue e_queue.
                            bind_rule P _ _ λ concurrent e_concurrent.
                              bind_rule P _ _ λ timeout e_timeout. bind_rule P _ _ λ log e_log.
                                check_keys_rule P _ λ key auth_key. record {
                                  model = read_model-inr env model e_model;
                                  base_url = read_base_url-inr parse_url env base_url e_base_url;
                                  auth_required = e_auth;
                                  api_keys = (refl, refl, key, auth_key);
                                  data_dir = refl;
                                  address =
                                      let (setting, high) = bounded-inr _ _ _ env _ _ port e_port in
                                      (port, setting, high, refl);
                                  file_ttl = (ttl, not_negative-inr _ env _ _ ttl e_ttl, refl);
                                  max_file_bytes =
                                      not_negative-inr _ env _ _ file_bytes e_file_bytes;
                                  max_request_body_bytes = not_negative-inr _ env _ _ body e_body;
                                  max_pages = not_negative-inr _ env _ _ pages e_pages;
                                  max_text_chars = not_negative-inr _ env _ _ chars e_chars;
                                  max_page_width = not_negative-inr _ env _ _ width e_width;
                                  max_page_height = not_negative-inr _ env _ _ height e_height;
                                  max_ooxml_members = not_negative-inr _ env _ _ members e_members;
                                  document_dpi = bounded-inr _ _ _ env _ _ dpi e_dpi;
                                  max_pdf_bytes = e_pdf;
                                  max_page_pixels = e_page_pixels;
                                  max_pixels = e_pixels;
                                  max_ooxml_member_bytes = e_member_bytes;
                                  max_ooxml_total_bytes = e_total_bytes;
                                  text_extraction = e_text;
                                  render_timeout =
                                      seconds_of-inr parse_float env _ _ render e_render;
                                  libre_office_timeout =
                                      seconds_of-inr parse_float env _ _ libre e_libre;
                                  workers = at_least-inr _ _ env _ _ workers e_workers;
                                  queue_capacity = not_negative-inr _ env _ _ queue e_queue;
                                  max_concurrent_requests =
                                      not_negative-inr _ env _ _ concurrent e_concurrent;
                                  request_timeout =
                                      seconds_of-inr parse_float env _ _ timeout e_timeout;
                                  log_verbosity = bounded-inr _ _ _ env _ _ log e_log;
                                }

  pub load_sound :
      (config : Config)
      → load parse_url parse_float env ≡ inr config
      → IsLoaded parse_url parse_float env config
  load_sound config e = subst (Ensures P) e load-Ensures
