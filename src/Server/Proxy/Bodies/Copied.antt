-- ===== src/Server/Proxy/Bodies/Copied.antt =====
-- What the client gets of a body that internal/server/proxy.go copies.
use llm_file_gateway.Prelude.{
  ℕ, ◌+◌, ◌-◌, ◌≡◌, refl, sym, ap, ◌∙◌, Bool, true, List, [], ◌∷◌, ◌++◌, Option, inl, inr, take,
  drop, length, leb, take-append-drop, Bool-cases, ltb,
}
use mathlib.Core.List.{append_assoc}
use llm_file_gateway.Prelude.Text.{String}
use llm_file_gateway.Files.Disk.{Bytes}
use llm_file_gateway.Server.Proxy.Bodies.{
  Upstream, Write, Sent, chunk, flushed, write, copy, read_up_to, log_upstream_error_response,
  upstream_error_preview_bytes,
}

-- The bytes of a body.
abbrev pub joined : List Bytes → Bytes
joined [] = []
joined (piece ∷ pieces) = piece ++ joined pieces

-- The bytes that the client gets.
abbrev pub received : List Sent → Bytes
received [] = []
received (chunk bytes ∷ sent) = bytes ++ received sent
received (flushed ∷ sent) = received sent

-- Every write goes through, and is flushed.
abbrev pub IsWritable : (ℕ → Write) → Type 0
IsWritable writes = (n : ℕ) → ((writes n).ok ≡ true) × ((writes n).flush_ok ≡ true)

-- A text, up to some place, at which it ends if `whole` holds.
abbrev pub IsPart : Type 0 → Bytes → Bytes → Type 0
IsPart whole part text = (rest : Bytes) × (part ++ rest ≡ text) × (whole → rest ≡ [])

write-IsPart :
    (whole : Type 0) (flush : Bool) (w : Write) (piece : Bytes) (rest : List Sent) (text : Bytes)
    → (whole → (w.ok ≡ true) × (w.flush_ok ≡ true))
    → IsPart whole (received rest) text
    → IsPart whole (received (write flush w piece rest)) (piece ++ text)
write-IsPart whole flush w piece rest text h (left, e, all) = elim (Bool-cases w.ok) [
  | inr o ↦ rw o (
    drop w.taken piece ++ text,
    append_assoc (take w.taken piece) [] (drop w.taken piece ++ text)
        ∙ sym (append_assoc (take w.taken piece) (drop w.taken piece) text)
        ∙ ap (λ p. p ++ text) (take-append-drop w.taken piece),
    λ k. absurd (cc (o, (h k).0)),
  )
  | inl o ↦ elim (Bool-cases flush) [
    | inr f ↦ rw (o, f) (left, goes_on, all)
    | inl f ↦ elim (Bool-cases w.flush_ok) [
      | inr k ↦ rw (o, f, k) (text, append_assoc piece [] text, λ j. absurd (cc (k, (h j).1)))
      | inl k ↦ rw (o, f, k) (left, goes_on, all)
    ]
  ]
]
  where
    goes_on : (piece ++ received rest) ++ left ≡ piece ++ text
    goes_on = append_assoc piece (received rest) left ∙ ap (λ t. piece ++ t) e

-- Copying gives the client the bytes of the reader, from the first one on; all of them if the client takes them.
pub copy-IsPart :
    (flush : Bool) (writes : ℕ → Write) (n : ℕ) (pieces : List Bytes)
    → IsPart (IsWritable writes) (received (copy flush writes n pieces)) (joined pieces)
copy-IsPart flush writes n [] = ([], refl, λ k. refl)
copy-IsPart flush writes n ([] ∷ pieces) = copy-IsPart flush writes n pieces
copy-IsPart flush writes n ((b ∷ piece) ∷ pieces) =
    write-IsPart (IsWritable writes) flush (writes n) (b ∷ piece) _ (joined pieces) (λ h. h n)
      (copy-IsPart flush writes (n + 1) pieces)

read_up_to-joined :
    (n : ℕ) (pieces : List Bytes)
    → joined ((read_up_to n pieces).0 ∷ (read_up_to n pieces).1) ≡ joined pieces
read_up_to-joined n [] = refl
read_up_to-joined n (piece ∷ pieces) = elim (Bool-cases (leb (length piece) n)) [
  | inl e ↦ rw e (
      append_assoc piece (read_up_to (n - length piece) pieces).0
        (joined (read_up_to (n - length piece) pieces).1)
      ∙ ap (λ t. piece ++ t) (read_up_to-joined (n - length piece) pieces))
  | inr e ↦ rw e (
      sym (append_assoc (take n piece) (drop n piece) (joined pieces))
      ∙ ap (λ t. t ++ joined pieces) (take-append-drop n piece))
]

-- The preview of an error loses nothing of the body.
pub replay-joined :
    (unmarshal : Bytes → Option (List String)) (upstream : Upstream)
    → joined (log_upstream_error_response unmarshal upstream).0.pieces ≡ joined upstream.body.pieces
unfolding log_upstream_error_response
replay-joined unmarshal upstream = elim (Bool-cases (ltb upstream.status 400)) [
  | inl e ↦ rw e refl
  | inr e ↦ rw e (read_up_to-joined (upstream_error_preview_bytes + 1) upstream.body.pieces)
]
