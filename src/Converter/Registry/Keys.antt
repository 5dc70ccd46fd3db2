-- ===== src/Converter/Registry/Keys.antt =====
-- Lookups in the map of internal/converter/registry.go after its changes.
use llm_file_gateway.Prelude.{
  ◌≡◌, refl, subst, true, false, Option, none, some, [], ◌∷◌, inl, inr, arith, All, Bool-cases,
  if◌then◌else◌,
}
use llm_file_gateway.Prelude.Text.{String, ◌=ˢ◌, eq_iff}
use llm_file_gateway.Converter.Registry.{Factory, Registry, find, assign, assign_all}

-- A map has each key once.
abbrev pub IsKeyed : {C : Type 0} → Registry C → Type 0
IsKeyed [] = Unit
IsKeyed (entry ∷ registry) = All (λ other. (other.0 =ˢ entry.0) ≡ false) registry × IsKeyed registry

abbrev pub or_else : {A : Type 0} → Option A → Option A → Option A
or_else none other = other
or_else (some a) other = some a

pub or_else-none : {A : Type 0} (o : Option A) → or_else o none ≡ o
or_else-none none = refl
or_else-none (some a) = refl

pub or_else_again :
    {A : Type 0} (o other : Option A) → or_else (or_else o other) o ≡ or_else o other
or_else_again none none = refl
or_else_again none (some a) = refl
or_else_again (some a) other = refl

module _ {C : Type 0} where
  pub find-assign :
      (key other : String) (factory : Option (Factory C)) (registry : Registry C)
      → find key (assign other factory registry)
        ≡ (if other =ˢ key then some factory else find key registry)
  unfolding find assign
  find-assign key other factory [] = refl
  find-assign key other factory ((k, f) ∷ registry) = ground (
    arith,
    find-assign key other factory registry,
    eq_iff k other,
    eq_iff k key,
    eq_iff other key,
  )

  pub find-none :
      (key : String) (registry : Registry C)
      → All (λ other. (other.0 =ˢ key) ≡ false) registry
      → find key registry ≡ none
  unfolding find
  find-none key [] h = refl
  find-none key ((k, f) ∷ registry) h = rw h.0 (find-none key registry h.1)

  pub assign-All :
      (P : String → Type 0) (key : String) (factory : Option (Factory C)) (registry : Registry C)
      → P key
      → All (λ other. P other.0) registry
      → All (λ other. P other.0) (assign key factory registry)
  unfolding assign
  assign-All P key factory [] p h = (p, tt)
  assign-All P key factory ((k, f) ∷ registry) p h = elim (Bool-cases (k =ˢ key)) [
    | inl e ↦ rw e h
    | inr e ↦ rw e (h.0, assign-All P key factory registry p h.1)
  ]

  pub assign-IsKeyed :
      (key : String) (factory : Option (Factory C)) (registry : Registry C)
      → IsKeyed registry
      → IsKeyed (assign key factory registry)
  unfolding assign
  assign-IsKeyed key factory [] h = (tt, tt)
  assign-IsKeyed key factory ((k, f) ∷ registry) h = elim (Bool-cases (k =ˢ key)) [
    | inl e ↦ rw e h
    | inr e ↦ rw e (
      assign-All (λ o. (o =ˢ k) ≡ false) key factory registry
          (ground (arith, e, eq_iff k key, eq_iff key k)) h.0,
      assign-IsKeyed key factory registry h.1,
    )
  ]

  pub find-assign_all :
      (key : String) (entries registry : Registry C)
      → IsKeyed entries
      → find key (assign_all entries registry) ≡ or_else (find key entries) (find key registry)
  unfolding assign_all find
  find-assign_all key [] registry h = refl
  find-assign_all key ((k, f) ∷ entries) registry h = elim (Bool-cases (k =ˢ key)) [
    | inl e ↦ ground (
      arith,
      find-assign_all key entries (assign k f registry) h.1,
      find-assign key k f registry,
      find-none key entries (same_key e h.0),
    )
    | inr e ↦
        ground (
          arith,
          find-assign_all key entries (assign k f registry) h.1,
          find-assign key k f registry,
        )
  ]
    where
      same_key :
          (k =ˢ key) ≡ true
          → All (λ other. (other.0 =ˢ k) ≡ false) entries
          → All (λ other. (other.0 =ˢ key) ≡ false) entries
      same_key e h =
          subst (λ x. All (λ other. (other.0 =ˢ x) ≡ false) entries) ((eq_iff k key).0 e) h

  pub assign_all-IsKeyed :
      (entries registry : Registry C) → IsKeyed registry → IsKeyed (assign_all entries registry)
  unfolding assign_all
  assign_all-IsKeyed [] registry h = h
  assign_all-IsKeyed ((k, f) ∷ entries) registry h =
      assign_all-IsKeyed entries (assign k f registry) (assign-IsKeyed k f registry h)
