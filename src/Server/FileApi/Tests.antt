-- ===== src/Server/FileApi/Tests.antt =====
-- Runs of the handlers of the Files API of internal/server/server.go.
use llm_file_gateway.Prelude.{◌≡◌, refl, inl, true, some}
use llm_file_gateway.Prelude.Int.{pos, negsuc, ◌*ℤ◌, wrap64}
use llm_file_gateway.Prelude.Text.{String}
use llm_file_gateway.ApiError.{new}
use llm_file_gateway.Files.Upload.{expiry}
use llm_file_gateway.Server.FileApi.{tenant_id, expires_after}

abbrev digest : String → String
digest token = "d1"

wrong_key :
    tenant_id digest true "key" "Bearer kez" ≡ inl (new 401 "invalid_api_key" "Invalid API key." "")
unfolding tenant_id
wrong_key = refl

-- Where the gateway sets no limit, a large number of seconds wraps: this file expires at once, and the
-- next one never.
wraps_short : expires_after (pos 0) (some ("created_at", pos 18446744074)) ≡ some (pos 290448384)
unfolding expires_after ◌*ℤ◌ wrap64
wraps_short = refl

expires_at_once : expiry 1000 (pos 290448384) ≡ 1000
expires_at_once = refl

wraps_negative :
    expires_after (pos 0) (some ("created_at", pos 10000000000)) ≡ some (negsuc 8446744073709551615)
unfolding expires_after ◌*ℤ◌ wrap64
wraps_negative = refl
