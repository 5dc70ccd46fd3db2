-- ===== src/Converter/Calls.antt =====
-- What the conversions of internal/converter do to the disk: actions that may fail. Every call that can fail, and
-- every look at the context, takes the next outcome; where the list of outcomes has ended, calls succeed.
pub mod Triples
pub mod Outcomes
use llm_file_gateway.Prelude.{
  select, not, Bool, true, false, Option, none, some, List, [], ◌∷◌, ◌++◌, ◌⊎◌, inl, inr,
  if◌then◌else◌,
}
use llm_file_gateway.Prelude.Text.{String}
use llm_file_gateway.Store.{FilePath}
use llm_file_gateway.Files.Disk.{Disk, Bytes, same_path, remove_all, read_file, write_file, parent}
use llm_file_gateway.Files.Retry.{Failure, other}

-- `stuck` records that a removal failed; what such a removal has removed by then is not modelled.
pub record World : Type 0 where
  pub disk : Disk
  pub outcomes : List Bool
  pub stuck : Bool

abbrev pub Action : Type 0 → Type 0
Action A = World → (Failure ⊎ A) × World

module _ {A : Type 0} where
  abbrev pub pure : A → Action A
  pure a w = (inr a, w)

  abbrev pub fail : Failure → Action A
  fail failure w = (inl failure, w)

module _ {A B : Type 0} where
  abbrev pub continue : (A → Action B) → (Failure ⊎ A) × World → (Failure ⊎ B) × World
  continue f (inl failure, w) = (inl failure, w)
  continue f (inr a, w) = f a w

  infixl 5 ◌>>=◌ ◌>>◌
  unfoldable pub ◌>>=◌ : Action A → (A → Action B) → Action B
  ◌>>=◌ m f w = continue f (m w)

  abbrev pub ◌>>◌ : Action A → Action B → Action B
  m >> n = m >>= λ _. n

abbrev pub next : List Bool → Bool × List Bool
next [] = (true, [])
next (outcome ∷ outcomes) = (outcome, outcomes)

-- A call that may fail with an error of its own.
unfoldable pub attempt : String → Action (Unit {0})
attempt text w =
    let (outcome, rest) = next w.outcomes in
    let w' : World = record w { outcomes = rest } in
    if outcome then (inr tt, w') else (inl (other text), w')

-- A call that removes something.
unfoldable pub attempt_removal : String → (Disk → Disk) → Action (Unit {0})
attempt_removal text change w =
    let (outcome, rest) = next w.outcomes in
    if outcome
    then (inr tt, record w { outcomes = rest; disk = change w.disk })
    else (inl (other text), record w { outcomes = rest; stuck = true })

-- ctx.Err()
abbrev pub check_context : Action (Unit {0})
check_context = attempt "context canceled"

unfoldable pub modify : (Disk → Disk) → Action (Unit {0})
modify change w = (inr tt, record w { disk = change w.disk })

unfoldable pub gets : {A : Type 0} → (Disk → A) → Action A
gets f w = (inr (f w.disk), w)

-- os.WriteFile, with a flag that truncates the file when it is opened: where the writing fails after that, the
-- file is there without content.
unfoldable pub write : FilePath → Bytes → Action (Unit {0})
unfolding ◌>>=◌ attempt modify
write path content = do
  attempt "open file"
  modify (write_file path [])
  attempt "write file"
  modify (write_file path content)

abbrev pub found : Option Bytes → Action Bytes
found none = fail (other "no such file")
found (some content) = pure content

-- Reading a file: it is there and no call fails.
unfoldable pub read : FilePath → Action Bytes
unfolding ◌>>=◌ attempt gets
read path = do attempt "read file"; content ← gets (read_file path); found content

-- os.Remove, where a missing file is no error.
abbrev pub remove_file : FilePath → Disk → Disk
remove_file path = select λ entry. not (same_path path entry.0)

-- The error of an action as a value, and back.
unfoldable pub result_of : {A : Type 0} → Action A → Action (Failure ⊎ A)
result_of m w = let (result, w') = m w in (inr result, w')

abbrev pub from : {A : Type 0} → Failure ⊎ A → Action A
from result w = (result, w)
