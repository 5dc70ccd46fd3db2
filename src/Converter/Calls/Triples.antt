-- ===== src/Converter/Calls/Triples.antt =====
-- Reasoning on the actions of internal/converter by what holds of the disk before and after them. An action that
-- fails promises nothing here.
use llm_file_gateway.Prelude.{
  ◌≡◌, refl, subst, Bool, true, false, Option, none, some, List, [], ◌∷◌, ◌⊎◌, inl, inr,
}
use llm_file_gateway.Prelude.Text.{String}
use llm_file_gateway.Store.{FilePath}
use llm_file_gateway.Files.Disk.{Disk, Bytes, read_file, write_file}
use llm_file_gateway.Files.Retry.{Failure}
use llm_file_gateway.Converter.Calls.{
  World, Action, pure, fail, continue, ◌>>=◌, attempt, attempt_removal, modify, gets, write, read,
  found, result_of, from,
}

-- From a disk with the first property, a result has the second one together with the disk that it leaves.
pub record Triple {A : Type 0} (P : Disk → Type 0) (m : Action A) (Q : A → Disk → Type 0)
    : Type 0 where
  pub run : (w : World) → P w.disk → (a : A) → (m w).0 ≡ inr a → Q a (m w).1.disk

module _ {A : Type 0} {P : Disk → Type 0} {Q : A → Disk → Type 0} where
  pub pure_lem : (a : A) → ((disk : Disk) → P disk → Q a disk) → Triple P (pure a) Q
  pure_lem a h = record { run = λ w p b e. subst (λ b. Q b w.disk) (cc e) (h w.disk p) }

  pub fail_lem : (failure : Failure) → Triple P (fail failure) Q
  fail_lem failure = record { run = λ w p b e. absurd (cc e) }

module _ {A B : Type 0} {Q : A → Disk → Type 0} {R : B → Disk → Type 0} where
  continued :
      (f : A → Action B)
      → ((a : A) → Triple (Q a) (f a) R)
      → (r : (Failure ⊎ A) × World) → ((a : A) → r.0 ≡ inr a → Q a r.1.disk)
      → (b : B) → (continue f r).0 ≡ inr b
      → R b (continue f r).1.disk
  continued f k (inl failure, w) q b e = absurd (cc e)
  continued f k (inr a, w) q b e = (k a).run w (q a refl) b e

  pub bind_lem :
      {P : Disk → Type 0} {m : Action A} {f : A → Action B}
      → Triple P m Q
      → ((a : A) → Triple (Q a) (f a) R)
      → Triple P (m >>= f) R
  unfolding ◌>>=◌
  bind_lem {m} {f} h k = record { run = λ w p. continued f k (m w) (h.run w p) }

-- A call that may fail keeps the disk.
pub attempt_keeps :
    (P : Disk → Type 0) (reason : String) (disk : Disk) (outcomes : List Bool) (stuck : Bool)
    → P disk
    → P (attempt reason (record { disk = disk; outcomes = outcomes; stuck = stuck })).1.disk
unfolding attempt
attempt_keeps P reason disk [] stuck p = p
attempt_keeps P reason disk (true ∷ outcomes) stuck p = p
attempt_keeps P reason disk (false ∷ outcomes) stuck p = p

pub attempt_lem : {P : Disk → Type 0} (reason : String) → Triple P (attempt reason) (λ _. P)
attempt_lem {P} reason = record {
  run = λ w p t e. attempt_keeps P reason w.disk w.outcomes w.stuck p;
}

removal_does :
    (Q : Disk → Type 0) (reason : String) (change : Disk → Disk) (disk : Disk)
    (outcomes : List Bool) (stuck : Bool)
    → Q (change disk)
    → (t : Unit {0})
    → (attempt_removal reason change (record { disk = disk; outcomes = outcomes; stuck = stuck })).0
      ≡ inr t
    → Q
        (attempt_removal reason change
          (record { disk = disk; outcomes = outcomes; stuck = stuck })).1.disk
unfolding attempt_removal
removal_does Q reason change disk [] stuck q t e = q
removal_does Q reason change disk (true ∷ outcomes) stuck q t e = q
removal_does Q reason change disk (false ∷ outcomes) stuck q t e = absurd (cc e)

module _ {P Q : Disk → Type 0} where
  pub removal_lem :
      (reason : String) (change : Disk → Disk)
      → ((disk : Disk) → P disk → Q (change disk))
      → Triple P (attempt_removal reason change) (λ _. Q)
  removal_lem reason change h = record {
    run = λ w p. removal_does Q reason change w.disk w.outcomes w.stuck (h w.disk p);
  }

  pub modify_lem :
      (change : Disk → Disk)
      → ((disk : Disk) → P disk → Q (change disk))
      → Triple P (modify change) (λ _. Q)
  unfolding modify
  modify_lem change h = record { run = λ w p t e. h w.disk p }

module _ {P R : Disk → Type 0} where
  -- A file is written twice: at first without content.
  pub write_lem :
      (path : FilePath) (content : Bytes)
      → ((disk : Disk) → P disk → R (write_file path content (write_file path [] disk)))
      → Triple P (write path content) (λ _. R)
  unfolding write
  write_lem path content h = bind_lem (attempt_lem "open file") λ _.
      bind_lem (modify_lem {Q = λ disk. R (write_file path content disk)} (write_file path []) h)
        λ _.
          bind_lem (attempt_lem "write file") λ _. modify_lem (write_file path content) λ disk r. r

module _ {P : Disk → Type 0} where
  gets_lem :
      (path : FilePath)
      → Triple P (gets (read_file path)) (λ content disk. P disk × (read_file path disk ≡ content))
  unfolding gets
  gets_lem path = record { run = λ w p a e. (p, cc e) }

  found_lem :
      (path : FilePath) (content : Option Bytes)
      → Triple
          (λ disk. P disk × (read_file path disk ≡ content))
          (found content)
          (λ content disk. P disk × (read_file path disk ≡ some content))
  found_lem path none = fail_lem _
  found_lem path (some content) = pure_lem content λ disk p. p

  -- What is read is what the disk holds.
  pub read_lem :
      (path : FilePath)
      → Triple P (read path) (λ content disk. P disk × (read_file path disk ≡ some content))
  unfolding read
  read_lem path = bind_lem (attempt_lem "read file") λ _. bind_lem (gets_lem path) (found_lem path)

module _ {A : Type 0} {P : Disk → Type 0} {Q : A → Disk → Type 0} where
  -- An error as a value promises nothing.
  pub result_of_lem :
      {m : Action A}
      → Triple P m Q
      → Triple P (result_of m) (λ result disk. (a : A) → result ≡ inr a → Q a disk)
  unfolding result_of
  result_of_lem h = record { run = λ w p result e a r. h.run w p a (cc (e, r)) }

  pub from_lem :
      (result : Failure ⊎ A)
      → ((disk : Disk) → P disk → (a : A) → result ≡ inr a → Q a disk)
      → Triple P (from result) Q
  from_lem result h = record { run = λ w p a e. h w.disk p a e }

module _ {A : Type 0} {P : Disk → Type 0} {Q R : A → Disk → Type 0} where
  pub weaken_lem :
      {m : Action A} → ((a : A) (disk : Disk) → Q a disk → R a disk) → Triple P m Q → Triple P m R
  weaken_lem {m} h k = record { run = λ w p a e. h a (m w).1.disk (k.run w p a e) }
