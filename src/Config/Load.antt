-- ===== src/Config/Load.antt =====
-- `Load` of internal/config/config.go. The parser of net/url is a parameter: what it reads of a text is
-- the scheme, the host and the path.
use llm_file_gateway.Prelude.{
  ℕ, ◌*◌, ◌^◌, Bool, true, false, not, ◌&&◌, ◌||◌, Option, none, some, inl, inr, ◌==◌,
  if◌then◌else◌,
}
use llm_file_gateway.Prelude.Int.{ℤ, pos, pos_part, ltb_ℤ, ◌*ℤ◌, wrap64}
use llm_file_gateway.Prelude.Text.{String, code, ◌=ˢ◌, ◌+ˢ◌, decimal}
use llm_file_gateway.Config.Env.{
  Env, Result, ◌>>=◌, Seconds, env_string, env_bool, env_int64, env_uint64, env_float,
}

pub record BaseUrl : Type 0 where
  pub scheme : String
  pub host : String
  pub path : String

pub record Config : Type 0 where
  pub address : String
  pub vllm_model : String
  pub vllm_base_url : BaseUrl
  pub gateway_auth_required : Bool
  pub gateway_api_key : String
  pub vllm_api_key : String
  pub data_dir : String
  -- Durations are nanoseconds.
  pub file_ttl : ℤ
  pub max_file_bytes : ℤ
  pub max_request_body_bytes : ℤ
  pub max_document_pages : ℤ
  pub max_document_text_chars : ℤ
  pub max_document_pdf_bytes : ℕ
  pub max_document_page_width : ℤ
  pub max_document_page_height : ℤ
  pub max_document_page_pixels : ℕ
  pub max_document_pixels : ℕ
  pub max_document_ooxml_members : ℤ
  pub max_document_ooxml_member_bytes : ℕ
  pub max_document_ooxml_total_bytes : ℕ
  pub document_dpi : ℤ
  pub document_render_timeout : ℤ
  pub libre_office_timeout : ℤ
  pub text_extraction_enabled : Bool
  pub workers : ℤ
  pub conversion_queue_capacity : ℤ
  pub max_concurrent_requests : ℤ
  pub request_timeout : ℤ
  pub log_verbosity : ℤ

-- strings.TrimRight(s, "/"); 47 is '/'.
abbrev pub trim_slashes : String → String
trim_slashes String.[] = String.[]
trim_slashes (String.◌∷◌ c s) =
    let rest = trim_slashes s in if rest =ˢ "" && code c == 47 then String.[] else String.◌∷◌ c rest

-- 58 is ':'.
abbrev has_colon : String → Bool
has_colon String.[] = false
has_colon (String.◌∷◌ c s) = code c == 58 || has_colon s

-- net.JoinHostPort
abbrev pub join_host_port : String → String → String
join_host_port host port =
    if has_colon host then "[" +ˢ host +ˢ "]:" +ˢ port else host +ˢ ":" +ˢ port

abbrev pub below : ℤ → ℤ → Bool
below a b = ltb_ℤ a b

-- `if err != nil || bad(value) { return Config{}, fmt.Errorf(message) }`
unfoldable pub checked : {A : Type 0} → String → (A → Bool) → Result A → Result A
checked message bad (inl text) = inl message
checked message bad (inr value) = if bad value then inl message else inr value

-- An integer within bounds, one that is not negative and one that is positive.
unfoldable pub bounded : String → ℤ → ℤ → Result ℤ → Result ℤ
unfolding checked
bounded message low high = checked message (λ n. below n low || below high n)

unfoldable pub at_least : String → ℤ → Result ℤ → Result ℤ
unfolding checked
at_least message low = checked message (λ n. below n low)

unfoldable pub not_negative : String → Env → String → ℤ → Result ℤ
unfolding at_least
not_negative message env name fallback = at_least message (pos 0) (env_int64 env name fallback)

unfoldable pub seconds_of : (String → Option Seconds) → Env → String → String → Result Seconds
unfolding checked
seconds_of parse_float env name message =
    checked message (λ s. s.below_zero)
      (env_float parse_float env name
        (record { below_zero = false; duration = pos (300 * 10 ^ 9) }))

unfoldable pub read_model : Env → Result String
read_model env =
    if env "VLLM_MODEL" =ˢ "" then inl "VLLM_MODEL is required" else inr (env "VLLM_MODEL")

unfoldable pub read_base_url : (String → Option BaseUrl) → Env → Result BaseUrl
read_base_url parse_url env =
    let message : String = "VLLM_BASE_URL must be an absolute URL ending with /v1" in
    elim (parse_url (env "VLLM_BASE_URL")) [
      | none ↦ inl message
      | some url ↦
          if url.scheme =ˢ "" || (url.host =ˢ "" || not (trim_slashes url.path =ˢ "/v1"))
          then inl message
          else inr url
    ]

-- The checks after the configuration is put together.
unfoldable pub check_keys : Config → Result Config
check_keys config =
    if config.vllm_api_key =ˢ ""
    then inl "VLLM_API_KEY is required"
    else if config.gateway_auth_required && config.gateway_api_key =ˢ ""
    then inl "GATEWAY_API_KEY is required when GATEWAY_AUTH_REQUIRED=true"
    else inr config

unfoldable pub load : (String → Option BaseUrl) → (String → Option Seconds) → Env → Result Config
load parse_url parse_float env = do
  model ← read_model env
  base_url ← read_base_url parse_url env
  auth_required ← env_bool env "GATEWAY_AUTH_REQUIRED" false
  let gateway_host = env_string env "GATEWAY_HOST" "127.0.0.1"
  gateway_port ←
      bounded "GATEWAY_PORT must be an integer between 1 and 65535" (pos 1) (pos 65535)
        (env_int64 env "GATEWAY_PORT" (pos 8080))
  file_ttl_seconds ←
      not_negative "FILE_TTL_SECONDS must be a non-negative integer" env "FILE_TTL_SECONDS"
        (pos 300)
  max_file_bytes ←
      not_negative "MAX_FILE_BYTES must be a non-negative integer" env "MAX_FILE_BYTES"
        (pos (50 * 1024 * 1024))
  max_request_body_bytes ←
      not_negative "MAX_REQUEST_BODY_BYTES must be a non-negative integer" env
        "MAX_REQUEST_BODY_BYTES" (wrap64 (pos 4 *ℤ max_file_bytes))
  max_pages ←
      not_negative "MAX_DOCUMENT_PAGES must be a non-negative integer" env "MAX_DOCUMENT_PAGES"
        (pos 50)
  max_text_chars ←
      not_negative "MAX_DOCUMENT_TEXT_CHARS must be a non-negative integer" env
        "MAX_DOCUMENT_TEXT_CHARS" (pos 500000)
  max_pdf_bytes ← env_uint64 env "MAX_DOCUMENT_PDF_BYTES" (128 * 2 ^ 20)
  max_page_width ←
      not_negative "MAX_DOCUMENT_PAGE_WIDTH must be a non-negative integer" env
        "MAX_DOCUMENT_PAGE_WIDTH" (pos 20000)
  max_page_height ←
      not_negative "MAX_DOCUMENT_PAGE_HEIGHT must be a non-negative integer" env
        "MAX_DOCUMENT_PAGE_HEIGHT" (pos 20000)
  max_page_pixels ← env_uint64 env "MAX_DOCUMENT_PAGE_PIXELS" 200000000
  max_document_pixels ← env_uint64 env "MAX_DOCUMENT_PIXELS" 1000000000
  max_ooxml_members ←
      not_negative "MAX_DOCUMENT_OOXML_MEMBERS must be a non-negative integer" env
        "MAX_DOCUMENT_OOXML_MEMBERS" (pos 10000)
  max_ooxml_member_bytes ← env_uint64 env "MAX_DOCUMENT_OOXML_MEMBER_BYTES" (256 * 2 ^ 20)
  max_ooxml_total_bytes ← env_uint64 env "MAX_DOCUMENT_OOXML_TOTAL_BYTES" (2 ^ 30)
  document_dpi ←
      bounded "DOCUMENT_DPI must be an integer between 1 and 1200" (pos 1) (pos 1200)
        (env_int64 env "DOCUMENT_DPI" (pos 300))
  render_timeout ←
      seconds_of parse_float env "DOCUMENT_RENDER_TIMEOUT_SECONDS"
        "DOCUMENT_RENDER_TIMEOUT_SECONDS must be non-negative"
  libre_office_timeout ←
      seconds_of parse_float env "DOCUMENT_LIBREOFFICE_TIMEOUT_SECONDS"
        "DOCUMENT_LIBREOFFICE_TIMEOUT_SECONDS must be non-negative"
  text_extraction_enabled ← env_bool env "DOCUMENT_TEXT_EXTRACTION_ENABLED" true
  workers ←
      at_least "CONVERSION_WORKERS must be a positive integer" (pos 1)
        (env_int64 env "CONVERSION_WORKERS" (pos 2))
  queue_capacity ←
      not_negative "CONVERSION_QUEUE_CAPACITY must be a non-negative integer" env
        "CONVERSION_QUEUE_CAPACITY" (pos 0)
  max_concurrent_requests ←
      not_negative "MAX_CONCURRENT_REQUESTS must be a non-negative integer" env
        "MAX_CONCURRENT_REQUESTS" (pos 0)
  timeout ←
      seconds_of parse_float env "REQUEST_TIMEOUT_SECONDS"
        "REQUEST_TIMEOUT_SECONDS must be non-negative"
  log_verbosity ←
      bounded "LOGLEVEL must be an integer between 0 and 2" (pos 0) (pos 2)
        (env_int64 env "LOGLEVEL" (pos 0))
  check_keys (record {
    address = join_host_port gateway_host (decimal (pos_part gateway_port));
    vllm_model = model;
    vllm_base_url = base_url;
    gateway_auth_required = auth_required;
    gateway_api_key = env "GATEWAY_API_KEY";
    vllm_api_key = env "VLLM_API_KEY";
    data_dir = env_string env "GATEWAY_DATA_DIR" "gateway-data";
    file_ttl = wrap64 (file_ttl_seconds *ℤ pos (10 ^ 9));
    max_file_bytes = max_file_bytes;
    max_request_body_bytes = max_request_body_bytes;
    max_document_pages = max_pages;
    max_document_text_chars = max_text_chars;
    max_document_pdf_bytes = max_pdf_bytes;
    max_document_page_width = max_page_width;
    max_document_page_height = max_page_height;
    max_document_page_pixels = max_page_pixels;
    max_document_pixels = max_document_pixels;
    max_document_ooxml_members = max_ooxml_members;
    max_document_ooxml_member_bytes = max_ooxml_member_bytes;
    max_document_ooxml_total_bytes = max_ooxml_total_bytes;
    document_dpi = document_dpi;
    document_render_timeout = render_timeout.duration;
    libre_office_timeout = libre_office_timeout.duration;
    text_extraction_enabled = text_extraction_enabled;
    workers = workers;
    conversion_queue_capacity = queue_capacity;
    max_concurrent_requests = max_concurrent_requests;
    request_timeout = timeout.duration;
    log_verbosity = log_verbosity;
  })
