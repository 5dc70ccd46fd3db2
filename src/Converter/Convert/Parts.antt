-- ===== src/Converter/Convert/Parts.antt =====
-- The parts that the conversions of internal/converter record, and the triples of their steps.
use llm_file_gateway.Prelude.{ℕ, ◌+◌, ◌≡◌, refl, Option, none, some, List, [], ◌∷◌, inr}
use llm_file_gateway.Store.{FilePath}
use llm_file_gateway.Files.Disk.{Disk, Bytes, read_file}
use llm_file_gateway.Files.Retry.{Failure}
use llm_file_gateway.Converter.Calls.{Action, ◌>>=◌, check_context, result_of, from}
use llm_file_gateway.Converter.Calls.Triples.{
  Triple, pure_lem, fail_lem, bind_lem, attempt_lem, write_lem, read_lem, result_of_lem, from_lem,
}
use llm_file_gateway.Converter.Output.{ManifestPart, Manifest, Encoding}
use llm_file_gateway.Converter.Output.Written.{clean_up_lem}
use llm_file_gateway.Converter.Convert.{clean_if_canceled, hash_file, write_blocks, unless}

-- The parts have consecutive numbers, from the given one on.
abbrev pub IsNumbered : ℕ → List ManifestPart → Type 0
IsNumbered n [] = Unit
IsNumbered n (part ∷ parts) = (part.part_number ≡ n) × IsNumbered (n + 1) parts

abbrev pub Anything : Disk → Type 0
Anything disk = Unit

module _ {P : Disk → Type 0} where
  pub clean_if_canceled_lem :
      (output_dir : FilePath) → Triple P (clean_if_canceled output_dir) (λ _. P)
  unfolding clean_if_canceled
  clean_if_canceled_lem output_dir = clean_up_lem output_dir (attempt_lem "context canceled")

  pub hash_file_lem :
      (encoding : Encoding) (path : FilePath)
      → Triple P (hash_file encoding path) (λ digest disk.
        P disk
        × (content : Bytes) × (read_file path disk ≡ some content)
        × (digest ≡ encoding.digest content))
  unfolding hash_file
  hash_file_lem encoding path =
      bind_lem (read_lem path)
        λ content. pure_lem (encoding.digest content) λ disk p. (p.0, content, p.1, refl)

-- What comes after an action whose error is looked at only after the context.
module _ {A : Type 0} {P : Disk → Type 0} {Q : A → Disk → Type 0} where
  pub then_check_lem :
      {m : Action A} (output_dir : FilePath)
      → Triple P m Q
      → Triple P (result_of m >>= λ result. clean_if_canceled output_dir >>= λ _. from result) Q
  then_check_lem output_dir h = bind_lem (result_of_lem h) λ result.
      bind_lem {Q = λ _ disk. (a : A) → result ≡ inr a → Q a disk}
        (clean_if_canceled_lem output_dir) λ _. from_lem result λ disk p. p

  pub check_then_lem : {m : Action A} → Triple P m Q → Triple P (check_context >>= λ _. m) Q
  check_then_lem h = bind_lem {Q = λ _. P} (attempt_lem "context canceled") λ _. h

pub write_blocks_lem :
    (output_dir : FilePath) (index : ℕ) (texts : List Bytes)
    → Triple Anything
        (write_blocks output_dir index texts)
        (λ parts _. IsNumbered (index + 1) parts)
unfolding write_blocks
write_blocks_lem output_dir index [] = pure_lem [] λ disk p. tt
write_blocks_lem output_dir index (text ∷ texts) =
    bind_lem {Q = λ _. Anything} (write_lem _ _ λ disk p. tt) λ _.
      bind_lem (write_blocks_lem output_dir (index + 1) texts)
        λ parts. pure_lem _ λ disk p. (refl, p)

pub unless_lem :
    {P : Disk → Type 0} {Q : Manifest → Disk → Type 0} {m : Action Manifest}
    (early : Option Failure)
    → (early ≡ none → Triple P m Q)
    → Triple P (unless early m) Q
unfolding unless
unless_lem (some failure) h = fail_lem failure
unless_lem none h = h refl
