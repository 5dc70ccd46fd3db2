-- ===== src/Server/FileApi/Expiry.antt =====
-- The time to live that a client of internal/server/server.go may ask for.
use llm_file_gateway.Prelude.{
  ℕ, ◌*◌, ◌≤◌, ◌<◌, ◌≡◌, refl, ◌∙◌, Bool, true, false, none, some, arith, if◌then◌else◌,
}
use llm_file_gateway.Prelude.Int.{ℤ, pos, negsuc, ◌*ℤ◌, wrap64, wrap64_in_range, two63, mul_pos}
use llm_file_gateway.Prelude.Text.{String}
use llm_file_gateway.Server.FileApi.{second, expires_after}

unless_refused : (b : Bool) (t ttl : ℤ) → (if b then none else some t) ≡ some ttl → ttl ≡ t
unless_refused true t ttl h = absurd (cc h)
unless_refused false t ttl h = cc h

-- Where the gateway's own time to live is at least a second, a client gets what it asks for, and that
-- is at least a second and not longer than the gateway's own.
expires_after_bounded :
    (file_ttl : ℕ) (anchor : String) (seconds ttl : ℤ)
    → second ≤ file_ttl
    → file_ttl < two63
    → expires_after (pos file_ttl) (some (anchor, seconds)) ≡ some ttl
    → (n : ℕ) × (seconds ≡ pos n) × (ttl ≡ pos (n * second)) × (1 ≤ n) × (n * second ≤ file_ttl)
unfolding expires_after
expires_after_bounded file_ttl anchor (negsuc k) ttl low high h = absurd (ground (arith, h))
expires_after_bounded file_ttl anchor (pos n) ttl low high h =
    (n, refl, unless_refused _ _ ttl h ∙ in_range, at_least, at_most)
  where
    at_least : 1 ≤ n
    at_least = ground (arith, h)

    at_most : n * second ≤ file_ttl
    at_most = ground (arith, h)

    in_range : wrap64 (pos n *ℤ pos second) ≡ pos (n * second)
    in_range =
        rw (mul_pos n second)
          (wrap64_in_range (pos (n * second)) (omega (arith, at_most, high), omega arith))
