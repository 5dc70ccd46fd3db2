-- ===== src/Server/FileUrl/Tests.antt =====
-- Runs of the download of internal/server/file_url.go.
use llm_file_gateway.Prelude.{
  ◌≤◌, ◌≡◌, refl, inr, true, false, none, some, List, [], ◌∷◌, All, length, ◌==◌, not,
}
use llm_file_gateway.Prelude.Text.{String}
use llm_file_gateway.Server.Address.{Ip, byte, is_public_ip}
use llm_file_gateway.Server.FileUrl.{
  Lookup, Url, Reply, redirect, response, validate_public_https, dial_in_order, dial_context,
  download_from, download_public_https,
}
use llm_file_gateway.Server.FileUrl.Pinned.{IsPublicDial, dial_context_public}
use llm_file_gateway.Server.FileUrl.Redirects.{IsSecure, download_limited}

abbrev public_host : Ip
public_host = 8 ∷ 8 ∷ 4 ∷ 4 ∷ []

abbrev inner_host : Ip
inner_host = 10 ∷ 0 ∷ 0 ∷ 1 ∷ []

abbrev url_of : String → Url
url_of path = record {
  scheme = "https";
  hostname = "files.example";
  has_user = false;
  port = "";
  path = path;
}

abbrev found : Lookup
found = some (public_host ∷ [])

abbrev moves : Reply
moves = redirect (some (some (url_of "/b/report.pdf"), found))

abbrev endless : List Reply
endless = moves ∷ moves ∷ moves ∷ moves ∷ moves ∷ moves ∷ []

two_requests :
    download_public_https 3 "p"
      (some (url_of "/a"))
      found
      (moves ∷ response 200 (some (1 ∷ 2 ∷ 3 ∷ 4 ∷ 5 ∷ [])) ∷ [])
    ≡ (url_of "/a" ∷ url_of "/b/report.pdf" ∷ [], some (inr (1 ∷ 2 ∷ 3 ∷ 4 ∷ [], "report.pdf")))
unfolding download_public_https validate_public_https download_from is_public_ip
two_requests = refl

five_requests : length (download_public_https 3 "p" (some (url_of "/a")) found endless).0 ≡ 5
unfolding download_public_https validate_public_https download_from is_public_ip
five_requests = refl

second_dial :
    dial_context (λ ip. not (byte 3 ip == 4)) (some (public_host ∷ (8 ∷ 8 ∷ 8 ∷ 8 ∷ []) ∷ []))
    ≡ (public_host ∷ (8 ∷ 8 ∷ 8 ∷ 8 ∷ []) ∷ [], some (8 ∷ 8 ∷ 8 ∷ 8 ∷ []))
unfolding dial_context dial_in_order is_public_ip
second_dial = refl

no_dial : dial_context (λ ip. true) (some (public_host ∷ inner_host ∷ [])) ≡ ([], none)
unfolding dial_context is_public_ip
no_dial = refl

-- The first of two public addresses cannot be reached, the second one is connected to.
dial_context_public_example :
    IsPublicDial
      (dial_context (λ ip. not (byte 3 ip == 4)) (some (public_host ∷ (8 ∷ 8 ∷ 8 ∷ 8 ∷ []) ∷ [])))
dial_context_public_example =
    dial_context_public (λ ip. not (byte 3 ip == 4))
      (some (public_host ∷ (8 ∷ 8 ∷ 8 ∷ 8 ∷ []) ∷ []))

download_limited_example :
    let requested : List Url = (download_public_https 3 "p" (some (url_of "/a")) found endless).0 in
    All IsSecure requested × (length requested ≤ 5)
download_limited_example = download_limited 3 "p" (some (url_of "/a")) found endless
