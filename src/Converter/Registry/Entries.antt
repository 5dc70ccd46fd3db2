-- ===== src/Converter/Registry/Entries.antt =====
-- Which entries `Register` of internal/converter/registry.go takes, one by one and in a loop.
use llm_file_gateway.Prelude.{
  ◌≡◌, refl, sym, ap, ◌∙◌, true, false, Option, none, some, [], ◌∷◌, map, ◌⊎◌, inl, inr, arith, All,
  Bool-cases, Option-cases, is_some, if◌then◌else◌,
}
use llm_file_gateway.Prelude.Text.{String, ◌=ˢ◌, eq_iff}
use llm_file_gateway.Converter.Registry.{
  Failure, Factory, Registry, find, assign, is_extension, register, register_all,
}
use llm_file_gateway.Converter.Registry.Keys.{IsKeyed, or_else, or_else-none, find-assign}

-- The entries with their extensions in lower case.
abbrev pub lowered : {C : Type 0} → (String → String) → Registry C → Registry C
lowered lower = map λ entry. (lower entry.0, entry.1)

-- An entry that a registry takes, and entries that do not get in each other's way.
abbrev pub Fits : {C : Type 0} → Registry C → String × Option (Factory C) → Type 0
Fits registry entry =
    (is_extension entry.0 ≡ true)
    × (is_some entry.1 ≡ true)
    × (is_some (find entry.0 registry) ≡ false)

abbrev pub CanMerge : {C : Type 0} → Registry C → Registry C → Type 0
CanMerge registry entries = All (Fits registry) entries × IsKeyed entries

module _ {C : Type 0} (lower : String → String) where
  -- After one more entry.
  pub later :
      (key : String) (factory : Option (Factory C)) (registry entries : Registry C)
      → All (λ entry. (entry.0 =ˢ key) ≡ false) entries
      → All (Fits registry) entries
      → All (Fits (assign key factory registry)) entries
  later key factory registry [] apart fits = tt
  later key factory registry (entry ∷ entries) apart fits = (
    (
      fits.0.0,
      fits.0.1,
      ground (
        arith,
        find-assign entry.0 key factory registry,
        fits.0.2,
        apart.0,
        eq_iff entry.0 key,
        eq_iff key entry.0,
      ),
    ),
    later key factory registry entries apart.1 fits.1,
  )

  pub earlier :
      (key : String) (factory : Option (Factory C)) (registry entries : Registry C)
      → All (Fits (assign key factory registry)) entries
      → All (λ entry. (entry.0 =ˢ key) ≡ false) entries × All (Fits registry) entries
  earlier key factory registry [] fits = (tt, tt)
  earlier key factory registry (entry ∷ entries) fits =
      let (apart, rest) = earlier key factory registry entries fits.1 in
      let (other, free) = parted entry fits.0.2 in
      ((other, apart), ((fits.0.0, fits.0.1, free), rest))
    where
      parted :
          (entry : String × Option (Factory C))
          → is_some (find entry.0 (assign key factory registry)) ≡ false
          → ((entry.0 =ˢ key) ≡ false) × (is_some (find entry.0 registry) ≡ false)
      parted entry h = ground (
        arith,
        find-assign entry.0 key factory registry,
        h,
        eq_iff entry.0 key,
        eq_iff key entry.0,
      )

  -- `Register` takes exactly the entries that fit.
  pub register-cases :
      (extension : String) (factory : Option (Factory C)) (registry : Registry C)
      → (Fits registry (lower extension, factory)
          × (register lower extension factory registry
              ≡ (none, assign (lower extension) factory registry)))
        ⊎ ((Fits registry (lower extension, factory) → ⊥)
            × ((register lower extension factory registry).0 ≡ none → ⊥)
            × ((register lower extension factory registry).1 ≡ registry))
  unfolding register
  register-cases extension factory registry = elim (Bool-cases (is_extension (lower extension))) [
    | inr e ↦ inr (λ fits. cc (e, fits.0), rw e (λ h. cc h), rw e refl)
    | inl e ↦ elim (Bool-cases (is_some factory)) [
      | inr k ↦ inr (λ fits. cc (k, fits.1), rw (e, k) (λ h. cc h), rw (e, k) refl)
      | inl k ↦ elim (Bool-cases (is_some (find (lower extension) registry))) [
        | inl j ↦ inr (λ fits. cc (j, fits.2), rw (e, k, j) (λ h. cc h), rw (e, k, j) refl)
        | inr j ↦ inl ((e, k, j), rw (e, k, j) refl)
      ]
    ]
  ]

  pub step_on :
      (extension : String) (factory : Option (Factory C)) (entries registry : Registry C)
      → register lower extension factory registry
        ≡ (none, assign (lower extension) factory registry)
      → register_all lower ((extension, factory) ∷ entries) registry
        ≡ register_all lower entries (assign (lower extension) factory registry)
  unfolding register_all
  step_on extension factory entries registry e = rw e refl

  pub stopped :
      (extension : String) (factory : Option (Factory C)) (entries registry : Registry C)
      → ((register lower extension factory registry).0 ≡ none → ⊥)
      → (register_all lower ((extension, factory) ∷ entries) registry).0 ≡ none
      → ⊥
  unfolding register_all
  stopped extension factory entries registry fails h =
      elim (Option-cases (register lower extension factory registry).0) [
        | inl e ↦ fails e
        | inr (failure, e) ↦ cc (
            sym (
              ap
                (λ (o : Option Failure).
                  (if is_some o
                    then (o, (register lower extension factory registry).1)
                    else register_all lower entries
                        (register lower extension factory registry).1).0)
                e)
            ∙ h)
      ]

  pub register_all-CanMerge :
      (entries registry : Registry C)
      → (register_all lower entries registry).0 ≡ none
      → CanMerge registry (lowered lower entries)
  register_all-CanMerge [] registry h = (tt, tt)
  register_all-CanMerge ((extension, factory) ∷ entries) registry h =
      elim (register-cases extension factory registry) [
        | inl (fits, e) ↦
            let (later_fit, keyed) =
              register_all-CanMerge entries (assign (lower extension) factory registry) (
                sym (
                  ap (λ (r : Option Failure × Registry C). r.0)
                    (step_on extension factory entries registry e))
                ∙ h) in
            let (apart, rest) =
              earlier (lower extension) factory registry (lowered lower entries) later_fit in
            ((fits, rest), (apart, keyed))
        | inr (misfit, fails, same) ↦ absurd (stopped extension factory entries registry fails h)
      ]

  pub found :
      (key other : String) (factory : Option (Factory C)) (registry : Registry C)
      (rest : Option (Option (Factory C)))
      → is_some (find other registry) ≡ false
      → or_else (find key (assign other factory registry)) rest
        ≡ or_else (find key registry) (if other =ˢ key then some factory else rest)
  found key other factory registry rest free = elim (Bool-cases (other =ˢ key)) [
    | inr e ↦ rw (find-assign key other factory registry, e) refl
    | inl e ↦
        rw (find-assign key other factory registry, e)
          (sym (ap (λ o. or_else o (some factory)) (none_there ((eq_iff other key).0 e))))
  ]
    where
      none_there : other ≡ key → find key registry ≡ none
      none_there e = elim (Option-cases (find key registry)) [
        | inl k ↦ k
        | inr (f, k) ↦
            absurd (cc (sym (ap (λ o. is_some (find o registry)) e) ∙ free, ap is_some k))
      ]

  pub register_all-find :
      (key : String) (entries registry : Registry C)
      → CanMerge registry (lowered lower entries)
      → ((register_all lower entries registry).0 ≡ none)
        × (find key (register_all lower entries registry).1
            ≡ or_else (find key registry) (find key (lowered lower entries)))
  unfolding find register_all
  register_all-find key [] registry h = (refl, sym (or_else-none (find key registry)))
  register_all-find key ((extension, factory) ∷ entries) registry h =
      elim (register-cases extension factory registry) [
        | inl (fits, e) ↦
            let (fine, content) =
              register_all-find key entries (assign (lower extension) factory registry) (
                later (lower extension) factory registry (lowered lower entries) h.1.0 h.0.1,
                h.1.1,
              ) in
            rw e (
              fine,
              content
                  ∙ found key (lower extension) factory registry (find key (lowered lower entries))
                      fits.2,
            )
        | inr (misfit, fails, same) ↦ absurd (misfit h.0.0)
      ]
