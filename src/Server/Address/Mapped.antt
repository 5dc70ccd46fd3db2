-- ===== src/Server/Address/Mapped.antt =====
-- The test for public addresses of internal/server/file_url.go on the two forms of an IPv4 address.
use llm_file_gateway.Prelude.{ℕ, ◌≡◌, refl, [], ◌∷◌, ◌++◌, true, false}
use llm_file_gateway.Server.Address.{zeros, is_public_ip}

-- An IPv4 address written as an IPv6 address is public exactly if it is public as it is, so that the
-- mapped form gets around no test.
is_public_ip-mapped :
    (a b c d : ℕ)
    → is_public_ip (zeros 10 ++ 255 ∷ 255 ∷ a ∷ b ∷ c ∷ d ∷ []) ≡ is_public_ip (a ∷ b ∷ c ∷ d ∷ [])
unfolding is_public_ip
is_public_ip-mapped a b c d = refl

loopback_v6 : is_public_ip (zeros 15 ++ 1 ∷ []) ≡ false
unfolding is_public_ip
loopback_v6 = refl

metadata : is_public_ip (169 ∷ 254 ∷ 169 ∷ 254 ∷ []) ≡ false
unfolding is_public_ip
metadata = refl

shared_space : is_public_ip (100 ∷ 127 ∷ 0 ∷ 1 ∷ []) ≡ false
unfolding is_public_ip
shared_space = refl

beside_shared : is_public_ip (100 ∷ 128 ∷ 0 ∷ 1 ∷ []) ≡ true
unfolding is_public_ip
beside_shared = refl

nat64 : is_public_ip (0 ∷ 100 ∷ 255 ∷ 155 ∷ zeros 8 ++ 10 ∷ 0 ∷ 0 ∷ 1 ∷ []) ≡ false
unfolding is_public_ip
nat64 = refl

public_v6 : is_public_ip (42 ∷ 0 ∷ zeros 13 ++ 1 ∷ []) ≡ true
unfolding is_public_ip
public_v6 = refl
