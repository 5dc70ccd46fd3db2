-- ===== src/Server/FileUrl/Redirects.antt =====
-- Which URLs a download of internal/server/file_url.go requests.
use llm_file_gateway.Prelude.{
  ℕ, ◌+◌, ◌≤◌, ◌<◌, ◌≡◌, ◌⊎◌, inl, inr, Bool, true, false, not, ◌&&◌, ◌||◌, Option, none, some,
  List, [], ◌∷◌, arith, All, length, leb, leb-lt, all, Bool-cases, if◌then◌else◌,
}
use llm_file_gateway.Prelude.Text.{String, ◌=ˢ◌}
use llm_file_gateway.ApiError.{Fault}
use llm_file_gateway.Server.Address.{is_public_ip}
use llm_file_gateway.Server.FileUrl.{
  Lookup, Url, Reply, broken, redirect, response, invalid, validate_public_https, download_from,
  download_public_https,
}

-- An HTTPS URL on port 443 without user info.
abbrev pub IsSecure : Url → Type 0
IsSecure url =
    ((url.scheme =ˢ "https") ≡ true)
    × ((url.hostname =ˢ "") ≡ false)
    × (url.has_user ≡ false)
    × ((url.port =ˢ "" || url.port =ˢ "443") ≡ true)

abbrev Validated : Fault ⊎ Url → Type 0
Validated (inl fault) = Unit
Validated (inr url) = IsSecure url

-- The test that refuses a URL.
abbrev refused : Url → Bool
refused url =
    not (url.scheme =ˢ "https")
    || (url.hostname =ˢ "" || (url.has_user || (not (url.port =ˢ "") && not (url.port =ˢ "443"))))

validate-Validated :
    (url : Option Url) (addresses : Lookup) (param : String)
    → Validated (validate_public_https url addresses param)
unfolding validate_public_https
validate-Validated none addresses param = tt
validate-Validated (some url) addresses param = elim (Bool-cases (refused url)) [
  | inl e ↦ rw (e, validate_public_https) tt
  | inr e ↦ rw (e, validate_public_https) (by_lookup (ground (arith, e)) addresses)
]
  where
    by_lookup :
        IsSecure url
        → (l : Lookup)
        → Validated (elim l [
          | none ↦ inl (invalid "File URL hostname cannot be resolved." param)
          | some [] ↦ inl (invalid "File URL hostname cannot be resolved." param)
          | some (ip ∷ ips) ↦
              if all is_public_ip (ip ∷ ips)
              then inr url
              else inl (invalid "File URL must resolve to a public address." param)
        ])
    by_lookup secure none = tt
    by_lookup secure (some []) = tt
    by_lookup secure (some (ip ∷ ips)) = elim (Bool-cases (all is_public_ip (ip ∷ ips))) [
      | inl e ↦ rw e secure
      | inr e ↦ rw e tt
    ]

abbrev IsLimited : ℕ → List Url × Option (Fault ⊎ (List ℕ × String)) → Type 0
IsLimited redirects (requested, result) =
    All IsSecure requested × (redirects + length requested ≤ 5)

module _ (limit : ℕ) (param : String) where
  -- A redirect that is followed.
  follows :
      (redirects : ℕ) (current : Url) (replies : List Reply)
      → IsSecure current
      → redirects < 4
      → ((url : Url)
          → IsSecure url
          → IsLimited (redirects + 1) (download_from limit param (redirects + 1) url replies))
      → (v : Fault ⊎ Url) → Validated v
      → IsLimited redirects (elim v as (λ _. List Url × Option (Fault ⊎ (List ℕ × String))) [
        | inl fault ↦ (current ∷ [], some (inl fault))
        | inr url ↦
            let rest = download_from limit param (redirects + 1) url replies in
            (current ∷ rest.0, rest.1)
      ])
  follows redirects current replies secure fewer continues (inl fault) valid =
      ((secure, tt), omega (arith, fewer))
  follows redirects current replies secure fewer continues (inr url) valid =
      let (all_secure, bound) = continues url valid in ((secure, all_secure), omega (arith, bound))

  download_from-IsLimited :
      (redirects : ℕ) (current : Url) (replies : List Reply)
      → redirects ≤ 4
      → IsSecure current
      → IsLimited redirects (download_from limit param redirects current replies)
  unfolding download_from
  download_from-IsLimited redirects current [] few secure = (tt, omega (arith, few))
  download_from-IsLimited redirects current (broken bad ∷ replies) few secure =
      ((secure, tt), omega (arith, few))
  download_from-IsLimited redirects current (redirect none ∷ replies) few secure =
      ((secure, tt), omega (arith, few))
  download_from-IsLimited redirects current (redirect (some (next, addresses)) ∷ replies) few
        secure =
      elim (Bool-cases (leb 4 redirects)) [
        | inl e ↦ rw e ((secure, tt), omega (arith, few))
        | inr e ↦ rw e (
            follows redirects current replies secure (leb-lt 4 redirects e)
              (λ url.
                download_from-IsLimited (redirects + 1) url replies
                  (omega (arith, leb-lt 4 redirects e)))
              (validate_public_https next addresses param)
              (validate-Validated next addresses param))
      ]
  download_from-IsLimited redirects current (response status content ∷ replies) few secure =
      elim (Bool-cases (not (leb 200 status) || leb 300 status)) [
        | inl e ↦ rw e ((secure, tt), omega (arith, few))
        | inr e ↦ rw e ((secure, tt), omega (arith, few))
      ]

  -- A download requests at most five URLs, the first one and four redirects, whatever the servers
  -- reply and whatever the resolver answers; and each of them is an HTTPS URL on port 443 without user
  -- info.
  pub download_limited :
      (url : Option Url) (addresses : Lookup) (replies : List Reply)
      → let requested : List Url = (download_public_https limit param url addresses replies).0 in
        All IsSecure requested × (length requested ≤ 5)
  unfolding download_public_https
  download_limited url addresses replies =
      let (secure, bound) =
        by_validation (validate_public_https url addresses param)
          (validate-Validated url addresses param) in
      (secure, omega (arith, bound))
    where
      by_validation :
          (v : Fault ⊎ Url)
          → Validated v
          → IsLimited 0 (elim v as (λ _. List Url × Option (Fault ⊎ (List ℕ × String))) [
            | inl fault ↦ ([], some (inl fault))
            | inr current ↦ download_from limit param 0 current replies
          ])
      by_validation (inl fault) valid = (tt, omega arith)
      by_validation (inr current) valid =
          download_from-IsLimited 0 current replies (omega arith) valid
