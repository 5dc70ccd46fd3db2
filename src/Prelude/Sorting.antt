-- ===== src/Prelude/Sorting.antt =====
-- Insertion sort by a Boolean order, with the laws that a query's ORDER BY needs.
use mathlib.Core.Path.{◌≡◌, refl, ap}
use mathlib.Core.Bool.{Bool, true, false}
use mathlib.Core.List.{List, [], ◌∷◌, ◌++◌, Perm}
use mathlib.Core.List.Perm
use native.Mathlib.Omega.{arith}
use llm_file_gateway.Prelude.Tests.{if◌then◌else◌, Bool-cases}
use llm_file_gateway.Prelude.Lists.{All, All-append_right, select}
use mathlib.Core.Logic.{inl, inr}

-- A strict order whose "not below" is transitive too.
pub record StrictOrder {ℓ} {A : Type ℓ} (lt : A → A → Bool) : Type ℓ where
  pub irrefl : (a : A) → lt a a ≡ false
  pub trans : (a b c : A) → lt a b ≡ true → lt b c ≡ true → lt a c ≡ true
  pub neg_trans : (a b c : A) → lt a b ≡ false → lt b c ≡ false → lt a c ≡ false

module _ {ℓ} {A : Type ℓ} (lt : A → A → Bool) where
  -- Before the first item that is not below.
  unfoldable pub insert : A → List A → List A
  insert x [] = x ∷ []
  insert x (y ∷ ys) = if lt y x then y ∷ insert x ys else x ∷ y ∷ ys

  unfoldable pub sort : List A → List A
  sort [] = []
  sort (x ∷ xs) = insert x (sort xs)

  -- No item is below one that stands before it.
  abbrev pub IsSorted : List A → Type 0
  IsSorted [] = Unit
  IsSorted (x ∷ xs) = All (λ y. lt y x ≡ false) xs × IsSorted xs

  -- Every item is below all that stand after it.
  abbrev pub IsIncreasing : List A → Type 0
  IsIncreasing [] = Unit
  IsIncreasing (x ∷ xs) = All (λ y. lt x y ≡ true) xs × IsIncreasing xs

module _ {ℓ} {A : Type ℓ} (lt : A → A → Bool) where
  pub insert-perm : (x : A) (xs : List A) → Perm (insert lt x xs) (x ∷ xs)
  unfolding insert
  insert-perm x [] = Perm.refl (x ∷ [])
  insert-perm x (y ∷ ys) = elim (Bool-cases (lt y x)) [
    | inl e ↦ rw e (Perm.trans (Perm.cons y (insert-perm x ys)) (Perm.swap x y ys))
    | inr e ↦ rw e (Perm.refl (x ∷ y ∷ ys))
  ]

  pub sort-perm : (xs : List A) → Perm (sort lt xs) xs
  unfolding sort
  sort-perm [] = Perm.refl []
  sort-perm (x ∷ xs) = Perm.trans (insert-perm x (sort lt xs)) (Perm.cons x (sort-perm xs))

module _ {ℓ} {A : Type ℓ} {lt : A → A → Bool} (o : StrictOrder lt) where
  insert-All : (P : A → Type 0) (x : A) (xs : List A) → P x → All P xs → All P (insert lt x xs)
  unfolding insert
  insert-All P x [] h k = (h, tt)
  insert-All P x (y ∷ ys) h k = ground (arith, insert-All P x ys h k.1)

  not_below :
      (x y : A) (zs : List A)
      → lt y x ≡ false
      → All (λ z. lt z y ≡ false) zs
      → All (λ z. lt z x ≡ false) zs
  not_below x y [] e h = tt
  not_below x y (z ∷ zs) e h = (o.neg_trans z y x h.0 e, not_below x y zs e h.1)

  asym : (a b : A) → lt a b ≡ true → lt b a ≡ false
  asym a b h = elim (Bool-cases (lt b a)) [ inl e ↦ cc (o.trans a b a h e, o.irrefl a) | inr e ↦ e ]

  insert-IsSorted : (x : A) (xs : List A) → IsSorted lt xs → IsSorted lt (insert lt x xs)
  unfolding insert
  insert-IsSorted x [] h = (tt, tt)
  insert-IsSorted x (y ∷ ys) h = elim (Bool-cases (lt y x)) [
    | inl e ↦
        rw e (insert-All (λ z. lt z y ≡ false) x ys (asym y x e) h.0, insert-IsSorted x ys h.1)
    | inr e ↦ rw e ((e, not_below x y ys e h.0), h)
  ]

  pub sort-IsSorted : (xs : List A) → IsSorted lt (sort lt xs)
  unfolding sort
  sort-IsSorted [] = tt
  sort-IsSorted (x ∷ xs) = insert-IsSorted x (sort lt xs) (sort-IsSorted xs)

  insert_front :
      (p : A → Bool) (x : A) (xs : List A)
      → All (λ z. lt z x ≡ false) xs
      → insert lt x (select p xs) ≡ x ∷ select p xs
  unfolding insert
  insert_front p x [] h = refl
  insert_front p x (y ∷ ys) h = ground (arith, insert_front p x ys h.1)

  select-insert :
      (p : A → Bool) (x : A) (xs : List A)
      → IsSorted lt xs
      → select p (insert lt x xs) ≡ (if p x then insert lt x (select p xs) else select p xs)
  unfolding insert
  select-insert p x [] h = ground arith
  select-insert p x (y ∷ ys) h = elim (Bool-cases (lt y x)) [
    | inl e ↦ ground (arith, select-insert p x ys h.1)
    | inr e ↦ ground (arith, insert_front p x ys (not_below x y ys e h.0))
  ]

  -- A selection may be made before or after the sort.
  pub select-sort : (p : A → Bool) (xs : List A) → select p (sort lt xs) ≡ sort lt (select p xs)
  unfolding sort
  select-sort p [] = refl
  select-sort p (x ∷ xs) =
      ground (arith, select-insert p x (sort lt xs) (sort-IsSorted xs), select-sort p xs)

-- Any two items are related, one way or the other.
abbrev pub Pairs {ℓ} : {A : Type ℓ} → (A → A → Type 0) → List A → Type 0
Pairs R [] = Unit
Pairs R (x ∷ xs) = All (R x) xs × Pairs R xs

module _ {ℓ} {A : Type ℓ} (lt : A → A → Bool) (R : A → A → Type 0)
    (R_sym : (a b : A) → R a b → R b a) where
  All-insert : (P : A → Type 0) (x : A) (xs : List A) → P x → All P xs → All P (insert lt x xs)
  unfolding insert
  All-insert P x [] h k = (h, tt)
  All-insert P x (y ∷ ys) h k = ground (arith, All-insert P x ys h k.1)

  insert-Pairs : (x : A) (xs : List A) → All (R x) xs → Pairs R xs → Pairs R (insert lt x xs)
  unfolding insert
  insert-Pairs x [] h k = (tt, tt)
  insert-Pairs x (y ∷ ys) h k = elim (Bool-cases (lt y x)) [
    | inl e ↦ rw e (All-insert (R y) x ys (R_sym x y h.0) k.0, insert-Pairs x ys h.1 k.1)
    | inr e ↦ rw e (h, k)
  ]

  pub All-sort : (P : A → Type 0) (xs : List A) → All P xs → All P (sort lt xs)
  unfolding sort
  All-sort P [] h = tt
  All-sort P (x ∷ xs) h = All-insert P x (sort lt xs) h.0 (All-sort P xs h.1)

  pub sort-Pairs : (xs : List A) → Pairs R xs → Pairs R (sort lt xs)
  unfolding sort
  sort-Pairs [] h = tt
  sort-Pairs (x ∷ xs) h = insert-Pairs x (sort lt xs) (All-sort (R x) xs h.0) (sort-Pairs xs h.1)

  both :
      (total : (a b : A) → R a b → lt b a ≡ false → lt a b ≡ true)
      → (x : A) (xs : List A) → All (R x) xs
      → All (λ y. lt y x ≡ false) xs
      → All (λ y. lt x y ≡ true) xs
  both total x [] h k = tt
  both total x (y ∷ ys) h k = (total x y h.0 k.0, both total x ys h.1 k.1)

  -- Items that differ pairwise are strictly in order once they are sorted.
  pub IsSorted-IsIncreasing :
      (total : (a b : A) → R a b → lt b a ≡ false → lt a b ≡ true)
      → (xs : List A) → Pairs R xs
      → IsSorted lt xs
      → IsIncreasing lt xs
  IsSorted-IsIncreasing total [] h k = tt
  IsSorted-IsIncreasing total (x ∷ xs) h k =
      (both total x xs h.0 k.0, IsSorted-IsIncreasing total xs h.1 k.1)

module _ {ℓ} {A : Type ℓ} {lt : A → A → Bool} (o : StrictOrder lt) where
  select-All_eq : (c : A) (zs : List A) → All (λ z. lt c z ≡ true) zs → select (lt c) zs ≡ zs
  select-All_eq c [] h = refl
  select-All_eq c (z ∷ zs) h = rw h.0 (ap (◌∷◌ z) (select-All_eq c zs h.1))

  -- What stands behind an item of an increasing list is what is above that item.
  pub select_above :
      (xs : List A) (c : A) (zs : List A)
      → IsIncreasing lt (xs ++ c ∷ zs)
      → select (lt c) (xs ++ c ∷ zs) ≡ zs
  select_above [] c zs h = rw (o.irrefl c) (select-All_eq c zs h.0)
  select_above (x ∷ xs) c zs h =
      rw (asym o x c (All-append_right (λ y. lt x y ≡ true) xs (c ∷ zs) h.0).0)
        (select_above xs c zs h.1)
