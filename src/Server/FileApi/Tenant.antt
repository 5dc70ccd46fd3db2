-- ===== src/Server/FileApi/Tenant.antt =====
-- Whose files a request of internal/server/server.go may see.
use llm_file_gateway.Prelude.{◌≡◌, inr, true, false, arith}
use llm_file_gateway.Prelude.Text.{String, ◌=ˢ◌, has_prefix, drop_str, eq_iff}
use llm_file_gateway.Server.FileApi.{bearer, tenant_id}

-- With authentication, a request has a tenant only if it carries the gateway's own key as its bearer
-- token, which is not empty, and the tenant is the digest of that key.
tenant_id_authenticated :
    (digest : String → String) (api_key authorization tenant : String)
    → tenant_id digest true api_key authorization ≡ inr tenant
    → (has_prefix authorization bearer ≡ true)
      × (drop_str 7 authorization ≡ api_key)
      × ((api_key =ˢ "") ≡ false)
      × (tenant ≡ digest api_key)
unfolding tenant_id
tenant_id_authenticated digest api_key authorization tenant h =
    ground (arith, h, eq_iff (drop_str 7 authorization) api_key)
