-- ===== src/Files/Threads/Counting.antt =====
-- What a step at one place of the list of threads does to sums and predicates over the list.
use mathlib.Core.List.{append_assoc}
use llm_file_gateway.Prelude.{
  ℕ, zero, suc, ◌+◌, ◌≡◌, refl, sym, subst, Option, none, some, List, [], ◌∷◌, ◌++◌, arith, All,
}
use llm_file_gateway.Files.Disk.{Bytes}
use llm_file_gateway.Files.Threads.{Thread, World, step, step_at, run}

abbrev pub sum_over {ℓ} : {A : Type ℓ} → (A → ℕ) → List A → ℕ
sum_over f [] = 0
sum_over f (x ∷ xs) = f x + sum_over f xs

pub sum_over-split {ℓ} :
    {A : Type ℓ} (f : A → ℕ) (before : List A) (x : A) (behind : List A)
    → sum_over f (before ++ x ∷ behind) ≡ f x + sum_over f (before ++ behind)
sum_over-split f [] x behind = refl
sum_over-split f (y ∷ before) x behind = omega (arith, sum_over-split f before x behind)

pub All-split {ℓ κ} :
    {A : Type ℓ} (P : A → Type κ) (before : List A) (x : A) (behind : List A)
    → All P (before ++ x ∷ behind)
    → P x × All P (before ++ behind)
All-split P [] x behind h = h
All-split P (y ∷ before) x behind h =
    let (px, rest) = All-split P before x behind h.1 in (px, (h.0, rest))

pub All-join {ℓ κ} :
    {A : Type ℓ} (P : A → Type κ) (before : List A) (x : A) (behind : List A)
    → P x
    → All P (before ++ behind)
    → All P (before ++ x ∷ behind)
All-join P [] x behind px h = (px, h)
All-join P (y ∷ before) x behind px h = (h.0, All-join P before x behind px h.1)

-- A predicate on the threads and the world that every move of one thread and the clock keep.
module _ (I : List Thread → World → Type 0)
    (keeps : (outcome : Option Bytes) (before behind : List Thread) (t t' : Thread) (w w' : World)
      → step outcome t w ≡ some (t', w')
      → I (before ++ t ∷ behind) w
      → I (before ++ t' ∷ behind) w')
    (ticks : (ts : List Thread) (w : World) → I ts w → I ts (record w { now = w.now + 1 })) where
  keeps_in_place :
      (outcome : Option Bytes) (before behind : List Thread) (t : Thread) (w : World)
      (next : Option (Thread × World))
      → step outcome t w ≡ next
      → I (before ++ t ∷ behind) w
      → let (ts, w') : List Thread × World = elim next [
        | none ↦ (t ∷ behind, w)
        | some (t', w') ↦ (t' ∷ behind, w')
      ] in
        I (before ++ ts) w'
  keeps_in_place outcome before behind t w none e h = h
  keeps_in_place outcome before behind t w (some (t', w')) e h =
      keeps outcome before behind t t' w w' e h

  step_at_keeps :
      (outcome : Option Bytes) (n : ℕ) (before ts : List Thread) (w : World)
      → I (before ++ ts) w
      → I (before ++ (step_at outcome n ts w).0) (step_at outcome n ts w).1
  unfolding step_at
  step_at_keeps outcome n before [] w h = ticks (before ++ []) w h
  step_at_keeps outcome zero before (t ∷ ts) w h =
      keeps_in_place outcome before ts t w (step outcome t w) refl h
  step_at_keeps outcome (suc n) before (t ∷ ts) w h =
      subst (λ all. I all (step_at outcome n ts w).1)
        (append_assoc before (t ∷ []) (step_at outcome n ts w).0)
        (step_at_keeps outcome n (before ++ t ∷ []) ts w
          (subst (λ all. I all w) (sym (append_assoc before (t ∷ []) ts)) h))

  -- So it holds after every schedule.
  pub run_keeps :
      (schedule : List (Option Bytes × ℕ)) (ts : List Thread) (w : World)
      → I ts w
      → I (run schedule ts w).0 (run schedule ts w).1
  unfolding run
  run_keeps [] ts w h = h
  run_keeps ((outcome, n) ∷ schedule) ts w h =
      run_keeps schedule _ _ (step_at_keeps outcome n [] ts w h)
