-- ===== src/Converter/Calls/Outcomes.antt =====
-- Reasoning on the actions of internal/converter that also says what holds after a failure.
use llm_file_gateway.Prelude.{◌≡◌, Option, none, some, ◌⊎◌, inl, inr}
use llm_file_gateway.Prelude.Text.{String}
use llm_file_gateway.Store.{FilePath}
use llm_file_gateway.Files.Disk.{Disk, Bytes, read_file}
use llm_file_gateway.Files.Retry.{Failure}
use llm_file_gateway.Converter.Calls.{
  World, Action, continue, ◌>>=◌, attempt, gets, read, found, result_of, from,
}
use llm_file_gateway.Converter.Calls.Triples.{attempt_keeps}

-- What a result promises, or what a failure promises.
abbrev pub Outcome :
    {A : Type 0} → (A → World → Type 0) → (World → Type 0) → (Failure ⊎ A) × World → Type 0
Outcome S F (inl failure, w) = F w
Outcome S F (inr a, w) = S a w

pub record Ends {A : Type 0} (P : World → Type 0) (m : Action A) (S : A → World → Type 0)
    (F : World → Type 0) : Type 0 where
  pub run : (w : World) → P w → Outcome S F (m w)

module _ {A : Type 0} {P F : World → Type 0} {S : A → World → Type 0} where
  pub from_ends :
      (result : Failure ⊎ A)
      → ((w : World) → P w → Outcome S F (result, w))
      → Ends P (from result) S F
  from_ends result h = record { run = h }

module _ {A B : Type 0} {F : World → Type 0} {S : A → World → Type 0} {R : B → World → Type 0} where
  continued :
      (f : A → Action B)
      → ((a : A) → Ends (S a) (f a) R F)
      → (r : (Failure ⊎ A) × World) → Outcome S F r
      → Outcome R F (continue f r)
  continued f k (inl failure, w) h = h
  continued f k (inr a, w) h = (k a).run w h

  pub bind_ends :
      {P : World → Type 0} {m : Action A} {f : A → Action B}
      → Ends P m S F
      → ((a : A) → Ends (S a) (f a) R F)
      → Ends P (m >>= f) R F
  unfolding ◌>>=◌
  bind_ends {m} {f} h k = record { run = λ w p. continued f k (m w) (h.run w p) }

-- The disk as it was.
abbrev pub IsSame : Disk → World → Type 0
IsSame disk w = w.disk ≡ disk

module _ {A : Type 0} (F : World → Type 0) where
  either_way : (r : (Failure ⊎ A) × World) → F r.1 → Outcome (λ _. F) F r
  either_way (inl failure, w) h = h
  either_way (inr a, w) h = h

  after : (r : (Failure ⊎ A) × World) → Outcome (λ _. F) F r → F r.1
  after (inl failure, w) h = h
  after (inr a, w) h = h

module _ {disk : Disk} where
  pub attempt_ends :
      (reason : String) → Ends (IsSame disk) (attempt reason) (λ _. IsSame disk) (IsSame disk)
  attempt_ends reason = record {
    run = λ w p.
        either_way (IsSame disk) (attempt reason w)
          (attempt_keeps (λ d. d ≡ disk) reason w.disk w.outcomes w.stuck p);
  }

  gets_ends :
      {A : Type 0} (f : Disk → A) → Ends (IsSame disk) (gets f) (λ _. IsSame disk) (IsSame disk)
  unfolding gets
  gets_ends f = record { run = λ w p. p }

  found_ends :
      (content : Option Bytes) → Ends (IsSame disk) (found content) (λ _. IsSame disk) (IsSame disk)
  found_ends none = record { run = λ w p. p }
  found_ends (some content) = record { run = λ w p. p }

  pub read_ends :
      (path : FilePath) → Ends (IsSame disk) (read path) (λ _. IsSame disk) (IsSame disk)
  unfolding read
  read_ends path =
      bind_ends (attempt_ends "read file") λ _. bind_ends (gets_ends (read_file path)) found_ends

module _ {A : Type 0} {P F : World → Type 0} {S : A → World → Type 0} where
  -- A failure as a value is a success that promises what the failure does.
  pub result_of_ends :
      {G : World → Type 0} {m : Action A}
      → Ends P m S F
      → Ends P (result_of m) (λ result w. Outcome S F (result, w)) G
  unfolding result_of
  result_of_ends {m} h = record { run = λ w p. h.run w p }

module _ {A : Type 0} {F G : World → Type 0} (S : A → World → Type 0)
    (h : (w : World) → F w → G w) where
  weakened : (r : (Failure ⊎ A) × World) → Outcome S F r → Outcome S G r
  weakened (inl failure, w) k = h w k
  weakened (inr a, w) k = k

module _ {A : Type 0} {P F G : World → Type 0} {S : A → World → Type 0} where
  pub weaken_ends : {m : Action A} → ((w : World) → F w → G w) → Ends P m S F → Ends P m S G
  weaken_ends {m} h k = record { run = λ w p. weakened S h (m w) (k.run w p) }

-- What keeps the disk keeps it with its error as a value.
pub result_of-IsSame :
    {A : Type 0} {disk : Disk} {F : World → Type 0} {m : Action A}
    → Ends (IsSame disk) m (λ _. IsSame disk) (IsSame disk)
    → Ends (IsSame disk) (result_of m) (λ _. IsSame disk) F
unfolding result_of
result_of-IsSame {A} {disk} {F} {m} h = record {
  run = λ w p. after (IsSame disk) (m w) (h.run w p);
}

pub from-IsSame :
    {A : Type 0} {disk : Disk} (result : Failure ⊎ A)
    → Ends (IsSame disk) (from result) (λ _. IsSame disk) (IsSame disk)
from-IsSame {A} {disk} result = record { run = λ w p. either_way (IsSame disk) (result, w) p }
