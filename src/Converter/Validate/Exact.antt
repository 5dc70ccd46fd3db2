-- ===== src/Converter/Validate/Exact.antt =====
-- Which files of the renderer's formats are accepted (internal/converter/validation.go).
use llm_file_gateway.Prelude.{
  ℕ, zero, suc, ◌≤◌, ◌≡◌, refl, ap, ◌↔◌, true, none, some, List, [], ◌∷◌, ◌++◌, inl, inr, ◌⊎◌,
  arith, ==_refl, ==→eq, Bool-cases, length, take, All,
}
use llm_file_gateway.Files.Disk.{Bytes}
use llm_file_gateway.Converter.Validate.{begins_with, any_signature, validate_signature}

abbrev pub IsSignature : Bytes → Type 0
IsSignature signature = (1 ≤ length signature) × (length signature ≤ 8)

abbrev pub StartsWith : Bytes → Bytes → Type 0
StartsWith content signature = (rest : Bytes) × (content ≡ signature ++ rest)

abbrev pub StartsWithOne : List Bytes → Bytes → Type 0
StartsWithOne [] content = ⊥
StartsWithOne (signature ∷ signatures) content =
    StartsWith content signature ⊎ StartsWithOne signatures content

begins_with→StartsWith :
    (n : ℕ) (content signature : Bytes)
    → begins_with (take n content) signature ≡ true
    → StartsWith content signature
begins_with→StartsWith n content [] h = (content, refl)
begins_with→StartsWith zero content (s ∷ signature) h = absurd (cc h)
begins_with→StartsWith (suc n) [] (s ∷ signature) h = absurd (cc h)
begins_with→StartsWith (suc n) (b ∷ content) (s ∷ signature) h =
    let (rest, e) = begins_with→StartsWith n content signature (ground (arith, h)) in
    (rest, rw (==→eq b s (ground (arith, h))) (ap (λ bytes. s ∷ bytes) e))

StartsWith→begins_with :
    (n : ℕ) (rest signature : Bytes)
    → length signature ≤ n
    → begins_with (take n (signature ++ rest)) signature ≡ true
StartsWith→begins_with n rest [] h = refl
StartsWith→begins_with zero rest (s ∷ signature) h = absurd (omega (arith, h))
StartsWith→begins_with (suc n) rest (s ∷ signature) h =
    rw (==_refl s) (StartsWith→begins_with n rest signature (omega (arith, h)))

any→StartsWithOne :
    (signatures : List Bytes) (content : Bytes)
    → any_signature (take 8 content) signatures ≡ true
    → StartsWithOne signatures content
any→StartsWithOne [] content h = absurd (cc h)
any→StartsWithOne (signature ∷ signatures) content h =
    elim (Bool-cases (begins_with (take 8 content) signature)) [
      | inl e ↦ inl (begins_with→StartsWith 8 content signature e)
      | inr e ↦ inr (any→StartsWithOne signatures content (ground (arith, h, e)))
    ]

StartsWithOne→any :
    (signatures : List Bytes) (content : Bytes)
    → All IsSignature signatures
    → StartsWithOne signatures content
    → any_signature (take 8 content) signatures ≡ true
StartsWithOne→any [] content h one = absurd one
StartsWithOne→any (signature ∷ signatures) content (h, hs) (inl (rest, e)) =
    let begins : begins_with (take 8 content) signature ≡ true =
      rw e (StartsWith→begins_with 8 rest signature (h.1)) in
    rw begins refl
StartsWithOne→any (signature ∷ signatures) content (h, hs) (inr one) =
    let others : any_signature (take 8 content) signatures ≡ true =
      StartsWithOne→any signatures content hs one in
    ground (arith, others)

empty_starts_with_none :
    (signatures : List Bytes) → All IsSignature signatures → StartsWithOne signatures [] → ⊥
empty_starts_with_none [] h one = one
empty_starts_with_none (signature ∷ signatures) (h, hs) (inr one) =
    empty_starts_with_none signatures hs one
empty_starts_with_none ([] ∷ signatures) (h, hs) (inl e) = omega (arith, h.0)
empty_starts_with_none ((s ∷ signature) ∷ signatures) (h, hs) (inl (rest, e)) = absurd (cc e)

-- For signatures of one to eight bytes: a file that can be read is accepted if and only if its content starts with
-- one of the signatures.
pub validate_signature_exact :
    (signatures : List Bytes)
    → All IsSignature signatures
    → (content : Bytes)
    → (validate_signature signatures (some content) ≡ none) ↔ StartsWithOne signatures content
unfolding validate_signature
validate_signature_exact signatures h [] =
    (λ e. absurd (cc e), λ one. absurd (empty_starts_with_none signatures h one))
validate_signature_exact signatures h (b ∷ content) = (
  λ e. any→StartsWithOne signatures (b ∷ content) (ground (arith, e)),
  λ one. rw (StartsWithOne→any signatures (b ∷ content) h one) refl,
)
