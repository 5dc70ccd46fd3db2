-- ===== src/Server/FileUrl/Pinned.antt =====
-- The dialer of internal/server/file_url.go connects to public addresses only.
use llm_file_gateway.Prelude.{
  ◌≡◌, inl, inr, Bool, true, false, Option, none, some, List, [], ◌∷◌, all, arith, All, Bool-cases,
  if◌then◌else◌,
}
use llm_file_gateway.Server.Address.{Ip, is_public_ip}
use llm_file_gateway.Server.FileUrl.{Lookup, dial_in_order, dial_context}

-- What is known of the dials: the addresses are public, and so is the one that is connected to.
abbrev pub IsPublicDial : List Ip × Option Ip → Type 0
IsPublicDial (dialled, none) = All (λ ip. is_public_ip ip ≡ true) dialled
IsPublicDial (dialled, some pinned) =
    All (λ ip. is_public_ip ip ≡ true) dialled × (is_public_ip pinned ≡ true)

all-All : (p : Ip → Bool) (ips : List Ip) → all p ips ≡ true → All (λ ip. p ip ≡ true) ips
all-All p [] h = tt
all-All p (ip ∷ ips) h = (ground arith, all-All p ips (ground arith))

module _ (reached : Ip → Bool) where
  dial_in_order-IsPublicDial :
      (ips : List Ip)
      → All (λ ip. is_public_ip ip ≡ true) ips
      → IsPublicDial (dial_in_order reached ips)
  unfolding dial_in_order
  dial_in_order-IsPublicDial [] h = tt
  dial_in_order-IsPublicDial (ip ∷ ips) h =
      by_reached (reached ip) (dial_in_order reached ips) (dial_in_order-IsPublicDial ips h.1)
    where
      by_reached :
          (b : Bool) (rest : List Ip × Option Ip)
          → IsPublicDial rest
          → IsPublicDial (if b then (ip ∷ [], some ip) else (ip ∷ rest.0, rest.1))
      by_reached true rest k = ((h.0, tt), h.0)
      by_reached false (dialled, none) k = (h.0, k)
      by_reached false (dialled, some pinned) k = ((h.0, k.0), k.1)

  -- Whatever the resolver answers at the time of the connection, every address that is dialled is
  -- public, and so is the address of the connection, if one is made.
  pub dial_context_public : (addresses : Lookup) → IsPublicDial (dial_context reached addresses)
  unfolding dial_context
  dial_context_public none = tt
  dial_context_public (some []) = tt
  dial_context_public (some (ip ∷ ips)) = elim (Bool-cases (all is_public_ip (ip ∷ ips))) [
    | inl e ↦ rw e (dial_in_order-IsPublicDial (ip ∷ ips) (all-All is_public_ip (ip ∷ ips) e))
    | inr e ↦ rw e tt
  ]
