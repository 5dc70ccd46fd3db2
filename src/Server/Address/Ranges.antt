-- ===== src/Server/Address/Ranges.antt =====
-- The IPv4 addresses that internal/server/file_url.go takes for public, by their ranges.
use llm_file_gateway.Prelude.{ℕ, ◌≤◌, ◌<◌, ◌≡◌, ◌≢◌, ◌⊎◌, [], ◌∷◌, true, arith}
use llm_file_gateway.Server.Address.{is_public_ip}

-- A public IPv4 address lies outside the ranges of RFC 1918, the loopback and link-local ranges, the
-- shared space of carriers, and everything from the multicast range on.
is_public_ip-outside :
    (a b c d : ℕ)
    → a < 256
    → is_public_ip (a ∷ b ∷ c ∷ d ∷ []) ≡ true
    → (a ≢ 0)
      × (a ≢ 10)
      × (a ≢ 127)
      × (a < 224)
      × ((a ≢ 172) ⊎ ((b < 16) ⊎ (32 ≤ b)))
      × ((a ≢ 192) ⊎ (b ≢ 168))
      × ((a ≢ 169) ⊎ (b ≢ 254))
      × ((a ≢ 100) ⊎ ((b < 64) ⊎ (128 ≤ b)))
unfolding is_public_ip
is_public_ip-outside a b c d h public = ground arith
