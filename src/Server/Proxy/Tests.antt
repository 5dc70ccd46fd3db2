-- ===== src/Server/Proxy/Tests.antt =====
-- The headers of a request that internal/server/proxy.go passes on.
use llm_file_gateway.Prelude.{◌≡◌, refl, [], ◌∷◌}
use llm_file_gateway.Prelude.Text.{String}
use llm_file_gateway.Server.Proxy.{Header, copy_headers, upstream_headers}

abbrev same : String → String
same s = s

abbrev request : Header
request =
    ("Authorization", "Bearer client" ∷ [])
    ∷ ("Connection", "x-trace,close" ∷ [])
    ∷ ("te", "trailers" ∷ [])
    ∷ ("x-trace", "1" ∷ [])
    ∷ ("Accept", "text/plain" ∷ [])
    ∷ []

passed_on :
    upstream_headers same same same "key" request
    ≡ ("Authorization", "Bearer key" ∷ [])
      ∷ ("Connection", "x-trace,close" ∷ [])
      ∷ ("Accept", "text/plain" ∷ [])
      ∷ []
unfolding upstream_headers copy_headers
passed_on = refl
