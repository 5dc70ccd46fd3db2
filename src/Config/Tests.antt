-- ===== src/Config/Tests.antt =====
-- Environments that the gateway of internal/config/config.go is started with.
use llm_file_gateway.Prelude.{
  ◌≡◌, refl, Option, none, some, inl, inr, if◌then◌else◌, ◌*◌, ◌^◌, ◌≤◌, true, false, arith,
}
use llm_file_gateway.Prelude.Int.{ℤ, pos, negsuc, ◌*ℤ◌, ◌≤ℤ◌, wrap64}
use llm_file_gateway.Prelude.Text.{String, ◌=ˢ◌}
use llm_file_gateway.Config.Env.{
  Env, Result, ◌>>=◌, Seconds, env_string, env_bool, env_int64, env_uint64, env_float,
}
use llm_file_gateway.Config.Load.{
  BaseUrl, Config, load, read_model, read_base_url, bounded, not_negative, at_least, seconds_of,
  check_keys,
}
use llm_file_gateway.Config.Wraps.{file_ttl_wraps}
use llm_file_gateway.Config.Written.{format_int, env_int64-format}

abbrev no_variables : Env
no_variables name = ""

abbrev with_variable : Env → String → String → Env
with_variable env name value other = if other =ˢ name then value else env other

abbrev required : Env
required =
    with_variable
      (with_variable (with_variable no_variables "VLLM_MODEL" "model") "VLLM_BASE_URL"
        "http://vllm:8000/v1/")
      "VLLM_API_KEY" "key"

abbrev any_url : String → Option BaseUrl
any_url text = some (record { scheme = "http"; host = "vllm:8000"; path = "/v1/" })

abbrev no_floats : String → Option Seconds
no_floats text = none

abbrev shown : Result Config → String × ℤ × ℤ × ℤ
shown (inl text) = (text, pos 0, pos 0, pos 0)
shown (inr config) =
    (config.address, config.file_ttl, config.max_request_body_bytes, config.workers)

required_loads :
    shown (load any_url no_floats required)
    ≡ ("127.0.0.1:8080", pos 300000000000, pos 209715200, pos 2)
unfolding load ◌>>=◌ read_model read_base_url bounded not_negative at_least seconds_of check_keys
    env_string env_bool env_int64 env_uint64 env_float wrap64 ◌*ℤ◌
required_loads = refl

load_wrapped_ttl :
    shown (load any_url no_floats (with_variable required "FILE_TTL_SECONDS" "10000000000"))
    ≡ ("127.0.0.1:8080", negsuc 8446744073709551615, pos 209715200, pos 2)
unfolding load ◌>>=◌ read_model read_base_url bounded not_negative at_least seconds_of check_keys
    env_string env_bool env_int64 env_uint64 env_float wrap64 ◌*ℤ◌
load_wrapped_ttl = refl

load_wrapped_body :
    shown (load any_url no_floats (with_variable required "MAX_FILE_BYTES" "2305843009213693952"))
    ≡ ("MAX_REQUEST_BODY_BYTES must be a non-negative integer", pos 0, pos 0, pos 0)
unfolding load ◌>>=◌ read_model read_base_url bounded not_negative at_least seconds_of check_keys
    env_string env_bool env_int64 env_uint64 env_float wrap64 ◌*ℤ◌
load_wrapped_body = refl

load_unlimited_body :
    shown (load any_url no_floats (with_variable required "MAX_FILE_BYTES" "4611686018427387904"))
    ≡ ("127.0.0.1:8080", pos 300000000000, pos 0, pos 2)
unfolding load ◌>>=◌ read_model read_base_url bounded not_negative at_least seconds_of check_keys
    env_string env_bool env_int64 env_uint64 env_float wrap64 ◌*ℤ◌
load_unlimited_body = refl

abbrev never_expires : Config
never_expires = record {
  address = "127.0.0.1:8080";
  vllm_model = "model";
  vllm_base_url = record { scheme = "http"; host = "vllm:8000"; path = "/v1/" };
  gateway_auth_required = false;
  gateway_api_key = "";
  vllm_api_key = "key";
  data_dir = "gateway-data";
  file_ttl = negsuc 8446744073709551615;
  max_file_bytes = pos 52428800;
  max_request_body_bytes = pos 209715200;
  max_document_pages = pos 50;
  max_document_text_chars = pos 500000;
  max_document_pdf_bytes = 134217728;
  max_document_page_width = pos 20000;
  max_document_page_height = pos 20000;
  max_document_page_pixels = 200000000;
  max_document_pixels = 1000000000;
  max_document_ooxml_members = pos 10000;
  max_document_ooxml_member_bytes = 268435456;
  max_document_ooxml_total_bytes = 1073741824;
  document_dpi = pos 300;
  document_render_timeout = pos 300000000000;
  libre_office_timeout = pos 300000000000;
  text_extraction_enabled = true;
  workers = pos 2;
  conversion_queue_capacity = pos 0;
  max_concurrent_requests = pos 0;
  request_timeout = pos 300000000000;
  log_verbosity = pos 0;
}

abbrev long_lived : Env
long_lived = with_variable required "FILE_TTL_SECONDS" "10000000000"

long_lived_loads : load any_url no_floats long_lived ≡ inr never_expires
unfolding load ◌>>=◌ read_model read_base_url bounded not_negative at_least seconds_of check_keys
    env_string env_bool env_int64 env_uint64 env_float wrap64 ◌*ℤ◌
long_lived_loads = refl

read_long_ttl : env_int64 long_lived "FILE_TTL_SECONDS" (pos 300) ≡ inr (pos 10000000000)
unfolding env_int64
read_long_ttl = refl

file_ttl_wraps_example :
    (10000000000 ≤ 9223372036 → never_expires.file_ttl ≡ pos (10000000000 * 10 ^ 9))
    × (9223372037 ≤ 10000000000 → 10000000000 ≤ 18446744073 → never_expires.file_ttl ≤ℤ negsuc 0)
file_ttl_wraps_example =
    file_ttl_wraps any_url no_floats long_lived never_expires 10000000000 long_lived_loads
      read_long_ttl

env_int64-format_example :
    env_int64 (with_variable no_variables "LOGLEVEL" (format_int (negsuc 41))) "LOGLEVEL" (pos 0)
    ≡ inr (negsuc 41)
env_int64-format_example =
    env_int64-format (with_variable no_variables "LOGLEVEL" (format_int (negsuc 41))) "LOGLEVEL"
      (pos 0) (negsuc 41) (omega arith) refl
