-- ===== src/Server/FileUrl.antt =====
-- Downloading a file that an inference request names by its URL (internal/server/file_url.go). The
-- resolver, the network and the parser of URLs are outside: each lookup, dial and reply of a run is
-- given, and may be different every time. A URL is what the gateway reads of it.
pub mod Pinned
pub mod Redirects
pub mod Tests
use llm_file_gateway.Prelude.{
  ℕ, zero, suc, ◌+◌, Bool, true, false, not, ◌&&◌, ◌||◌, Option, none, some, List, [], ◌∷◌, ◌⊎◌,
  inl, inr, all, take, leb, ltb, is_some, if◌then◌else◌,
}
use llm_file_gateway.Prelude.Text.{String, ◌=ˢ◌, base}
use llm_file_gateway.ApiError.{Fault, gateway, failed, new}
use llm_file_gateway.Server.Address.{Ip, is_public_ip}

-- A lookup may fail.
abbrev pub Lookup : Type 0
Lookup = Option (List Ip)

-- The dials in order: each address may be reached or not.
unfoldable pub dial_in_order : (Ip → Bool) → List Ip → List Ip × Option Ip
dial_in_order reached [] = ([], none)
dial_in_order reached (ip ∷ ips) =
    let rest = dial_in_order reached ips in
    if reached ip then (ip ∷ [], some ip) else (ip ∷ rest.0, rest.1)

-- The addresses that are dialled, and the one that a connection is pinned to, if there is one.
unfoldable pub dial_context : (Ip → Bool) → Lookup → List Ip × Option Ip
unfolding dial_in_order
dial_context reached none = ([], none)
dial_context reached (some []) = ([], none)
dial_context reached (some (ip ∷ ips)) =
    if all is_public_ip (ip ∷ ips) then dial_in_order reached (ip ∷ ips) else ([], none)

pub record Url : Type 0 where
  pub scheme : String
  pub hostname : String
  pub has_user : Bool
  pub port : String
  pub path : String

abbrev pub invalid : String → String → Fault
invalid message param = gateway (new 400 "invalid_file_url" message param)

-- The parsed URL, or `none` for a URL that cannot be parsed.
unfoldable pub validate_public_https : Option Url → Lookup → String → Fault ⊎ Url
validate_public_https none addresses param =
    inl (invalid "Only public HTTPS URLs on port 443 are allowed." param)
validate_public_https (some url) addresses param =
    if not (url.scheme =ˢ "https")
      || (url.hostname =ˢ "" || (url.has_user || (not (url.port =ˢ "") && not (url.port =ˢ "443"))))
    then inl (invalid "Only public HTTPS URLs on port 443 are allowed." param)
    else elim addresses [
      | none ↦ inl (invalid "File URL hostname cannot be resolved." param)
      | some [] ↦ inl (invalid "File URL hostname cannot be resolved." param)
      | some (ip ∷ ips) ↦
          if all is_public_ip (ip ∷ ips)
          then inr url
          else inl (invalid "File URL must resolve to a public address." param)
    ]

-- What a request for the current URL comes to.
pub data Reply : Type 0 where
  -- The client fails; the flag says that it could not parse the Location header.
  broken : Bool → Reply
  -- A redirect. Its Location, joined to the current URL, is no URL reference (`none`), or a text that
  -- is parsed again, which may fail, and whose host is looked up.
  redirect : Option (Option Url × Lookup) → Reply
  -- Any other status, with the body, unless reading it fails.
  response : ℕ → Option (List ℕ) → Reply

-- At most `limit + 1` bytes of a body are read; 0 is no limit.
abbrev pub read_limited : ℕ → List ℕ → List ℕ
read_limited limit content = if ltb 0 limit then take (limit + 1) content else content

-- The URLs that are requested, and the result. `redirects` are those followed so far.
unfoldable pub download_from :
    ℕ → String → ℕ → Url → List Reply → List Url × Option (Fault ⊎ (List ℕ × String))
download_from limit param redirects current [] = ([], none)
download_from limit param redirects current (broken bad_location ∷ replies) = (
  current ∷ [],
  some (
      inl (
        invalid
          (if bad_location then "Redirect location is invalid." else "Unable to download file URL.")
          param)),
)
download_from limit param redirects current (redirect none ∷ replies) = (
  current ∷ [],
  some (
      inl (
        invalid (if leb 4 redirects then "Too many redirects." else "Redirect location is invalid.")
          param)),
)
download_from limit param redirects current (redirect (some (next, addresses)) ∷ replies) =
    if leb 4 redirects
    then (current ∷ [], some (inl (invalid "Too many redirects." param)))
    else elim (validate_public_https next addresses param)
        as (λ _. List Url × Option (Fault ⊎ (List ℕ × String))) [
          | inl fault ↦ (current ∷ [], some (inl fault))
          | inr url ↦
              let rest = download_from limit param (redirects + 1) url replies in
              (current ∷ rest.0, rest.1)
        ]
download_from limit param redirects current (response status content ∷ replies) =
    if not (leb 200 status) || leb 300 status
    then (current ∷ [], some (inl (invalid "Unable to download file URL." param)))
    else (
      current ∷ [],
      some (elim content [
        | none ↦ inl (failed "response read")
        | some bytes ↦ inr (read_limited limit bytes, base current.path)
      ]),
    )

unfoldable pub download_public_https :
    ℕ → String → Option Url → Lookup → List Reply → List Url × Option (Fault ⊎ (List ℕ × String))
download_public_https limit param url addresses replies =
    elim (validate_public_https url addresses param) [
      | inl fault ↦ ([], some (inl fault))
      | inr current ↦ download_from limit param 0 current replies
    ]
