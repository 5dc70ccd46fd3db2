-- ===== src/Converter/Registry/Merged.antt =====
-- `Merge` of internal/converter/registry.go takes all entries or none.
use llm_file_gateway.Prelude.{
  ◌≡◌, refl, sym, ap, ◌∙◌, false, Option, none, some, [], ◌∷◌, inl, inr, arith, All, All-map,
  Option-cases, is_some, if◌then◌else◌,
}
use llm_file_gateway.Prelude.Text.{String, ◌=ˢ◌, eq_iff}
use llm_file_gateway.Converter.Registry.{
  Failure, Factory, Registry, find, assign, register_all, assign_all, merge,
}
use llm_file_gateway.Converter.Registry.Keys.{
  IsKeyed, or_else, or_else-none, or_else_again, assign-IsKeyed, find-assign_all,
  assign_all-IsKeyed,
}
use llm_file_gateway.Converter.Registry.Entries.{
  lowered, Fits, CanMerge, register_all-CanMerge, register_all-find, register-cases, later,
}

module _ {C : Type 0} (lower : String → String) where
  abbrev fresh : Registry C → Registry C
  fresh registry = assign_all registry []

  fresh-find :
      (key : String) (registry : Registry C)
      → IsKeyed registry
      → find key (fresh registry) ≡ find key registry
  unfolding find
  fresh-find key registry keyed =
      find-assign_all key registry [] keyed ∙ or_else-none (find key registry)

  refit :
      (registry entries : Registry C) (other : Registry C)
      → ((key : String) → find key registry ≡ find key other)
      → All (Fits registry) entries
      → All (Fits other) entries
  refit registry entries other same =
      All-map (Fits registry) (Fits other)
        (λ entry h. (h.0, h.1, sym (ap is_some (same entry.0)) ∙ h.2)) entries

  register_all-IsKeyed :
      (entries registry : Registry C)
      → CanMerge registry (lowered lower entries)
      → IsKeyed registry
      → IsKeyed (register_all lower entries registry).1
  unfolding register_all
  register_all-IsKeyed [] registry h keyed = keyed
  register_all-IsKeyed ((extension, factory) ∷ entries) registry h keyed =
      elim (register-cases lower extension factory registry) [
        | inr (misfit, fails, same) ↦ absurd (misfit h.0.0)
        | inl (fits, e) ↦ rw e (
            register_all-IsKeyed entries (assign (lower extension) factory registry)
              (
                later lower (lower extension) factory registry (lowered lower entries) h.1.0 h.0.1,
                h.1.1,
              )
              (assign-IsKeyed (lower extension) factory registry keyed))
      ]

  merge_ok :
      (entries registry : Registry C)
      → (register_all lower entries (fresh registry)).0 ≡ none
      → merge lower entries registry
        ≡ (none, assign_all (register_all lower entries (fresh registry)).1 registry)
  unfolding merge
  merge_ok entries registry e = rw e refl

  merge_failed :
      (entries registry : Registry C) (failure : Failure)
      → (register_all lower entries (fresh registry)).0 ≡ some failure
      → merge lower entries registry ≡ (some failure, registry)
  unfolding merge
  merge_failed entries registry failure e = rw e refl

  merge-CanMerge :
      (entries registry : Registry C)
      → IsKeyed registry
      → (merge lower entries registry).0 ≡ none
      → CanMerge registry (lowered lower entries)
  merge-CanMerge entries registry keyed h =
      elim (Option-cases (register_all lower entries (fresh registry)).0) [
        | inr (failure, e) ↦ absurd (cc (merge_failed entries registry failure e, h))
        | inl e ↦
            let (fits, apart) = register_all-CanMerge lower entries (fresh registry) e in
            (
              refit (fresh registry) (lowered lower entries) registry
                  (λ key. fresh-find key registry keyed) fits,
              apart,
            )
      ]

  CanMerge-merge :
      (entries registry : Registry C)
      → IsKeyed registry
      → CanMerge registry (lowered lower entries)
      → ((merge lower entries registry).0 ≡ none)
        × ((key : String)
            → find key (merge lower entries registry).1
              ≡ or_else (find key registry) (find key (lowered lower entries)))
  CanMerge-merge entries registry keyed h = (
    ap (λ (r : Option Failure × Registry C). r.0) (merge_ok entries registry (content "").0),
    λ key.
        ap (λ (r : Option Failure × Registry C). find key r.1)
          (merge_ok entries registry (content "").0)
        ∙ find-assign_all key (register_all lower entries (fresh registry)).1 registry (
            register_all-IsKeyed entries (fresh registry) fitting
              (assign_all-IsKeyed registry [] tt))
        ∙ ap (λ o. or_else o (find key registry))
            ((content key).1
              ∙ ap (λ o. or_else o (find key (lowered lower entries)))
                  (fresh-find key registry keyed))
        ∙ or_else_again (find key registry) (find key (lowered lower entries)),
  )
    where
      fitting : CanMerge (fresh registry) (lowered lower entries)
      fitting = (
        refit registry (lowered lower entries) (fresh registry)
            (λ key. sym (fresh-find key registry keyed)) h.0,
        h.1,
      )

      content :
          (key : String)
          → ((register_all lower entries (fresh registry)).0 ≡ none)
            × (find key (register_all lower entries (fresh registry)).1
                ≡ or_else (find key (fresh registry)) (find key (lowered lower entries)))
      content key = register_all-find lower key entries (fresh registry) fitting

-- The same entries, met in another order.
pub data Shuffle {C : Type 0} : Registry C → Registry C → Type 0 where
  done : Shuffle [] []
  keep :
      (entry : String × Option (Factory C)) {entries others : Registry C}
      → Shuffle entries others
      → Shuffle (entry ∷ entries) (entry ∷ others)
  swap :
      (first second : String × Option (Factory C)) (entries : Registry C)
      → Shuffle (first ∷ second ∷ entries) (second ∷ first ∷ entries)
  through : {a b c : Registry C} → Shuffle a b → Shuffle b c → Shuffle a c

module _ {C : Type 0} (lower : String → String) where
  All-Shuffle :
      (P : String × Option (Factory C) → Type 0) {entries others : Registry C}
      → Shuffle entries others
      → All P (lowered lower entries)
      → All P (lowered lower others)
  All-Shuffle P done h = h
  All-Shuffle P (keep entry s) h = (h.0, All-Shuffle P s h.1)
  All-Shuffle P (swap first second entries) h = (h.1.0, (h.0, h.1.1))
  All-Shuffle P (through s t) h = All-Shuffle P t (All-Shuffle P s h)

  IsKeyed-Shuffle :
      {entries others : Registry C}
      → Shuffle entries others
      → IsKeyed (lowered lower entries)
      → IsKeyed (lowered lower others)
  IsKeyed-Shuffle done h = h
  IsKeyed-Shuffle (keep entry s) h =
      (All-Shuffle (λ other. (other.0 =ˢ lower entry.0) ≡ false) s h.0, IsKeyed-Shuffle s h.1)
  IsKeyed-Shuffle (swap first second entries) h = (
    (
      ground (
        arith,
        h.0.0,
        eq_iff (lower first.0) (lower second.0),
        eq_iff (lower second.0) (lower first.0),
      ),
      h.1.0,
    ),
    (h.0.1, h.1.1),
  )
  IsKeyed-Shuffle (through s t) h = IsKeyed-Shuffle t (IsKeyed-Shuffle s h)

  find-Shuffle :
      (key : String) {entries others : Registry C}
      → Shuffle entries others
      → IsKeyed (lowered lower entries)
      → find key (lowered lower entries) ≡ find key (lowered lower others)
  unfolding find
  find-Shuffle key done h = refl
  find-Shuffle key (keep entry s) h =
      ap (λ o. if lower entry.0 =ˢ key then some entry.1 else o) (find-Shuffle key s h.1)
  find-Shuffle key (swap first second entries) h = ground (
    arith,
    h.0.0,
    eq_iff (lower first.0) key,
    eq_iff (lower second.0) key,
    eq_iff (lower second.0) (lower first.0),
  )
  find-Shuffle key (through s t) h = find-Shuffle key s h ∙ find-Shuffle key t (IsKeyed-Shuffle s h)

  -- `Merge` succeeds exactly when every entry has a valid extension and a factory and is new, in lower
  -- case, to the registry and to the other entries; then each extension has the factory that one of
  -- the two maps gives it. If it fails, the registry is as it was.
  pub merge_exact :
      (entries registry : Registry C)
      → IsKeyed registry
      → ((merge lower entries registry).0 ≡ none → CanMerge registry (lowered lower entries))
        × (CanMerge registry (lowered lower entries)
            → ((merge lower entries registry).0 ≡ none)
              × ((key : String)
                  → find key (merge lower entries registry).1
                    ≡ or_else (find key registry) (find key (lowered lower entries))))
        × ((failure : Failure)
            → (merge lower entries registry).0 ≡ some failure
            → (merge lower entries registry).1 ≡ registry)
  merge_exact entries registry keyed = (
    merge-CanMerge lower entries registry keyed,
    CanMerge-merge lower entries registry keyed,
    λ failure h. elim (Option-cases (register_all lower entries (assign_all registry [])).0) [
      | inl e ↦ absurd (cc (merge_ok lower entries registry e, h))
      | inr (other, e) ↦
          ap (λ (r : Option Failure × Registry C). r.1)
            (merge_failed lower entries registry other e)
    ],
  )

  -- Go loops over a map in any order. The order in which `Merge` meets the entries makes no difference to
  -- whether it succeeds, nor to what is found afterwards.
  pub merge_any_order :
      (entries others registry : Registry C)
      → IsKeyed registry
      → Shuffle entries others
      → (merge lower entries registry).0 ≡ none
      → ((merge lower others registry).0 ≡ none)
        × ((key : String)
            → find key (merge lower others registry).1 ≡ find key (merge lower entries registry).1)
  merge_any_order entries others registry keyed s e =
      let can : CanMerge registry (lowered lower entries) =
        merge-CanMerge lower entries registry keyed e in
      let (ok, there) =
        CanMerge-merge lower others registry keyed
          (All-Shuffle (Fits registry) s can.0, IsKeyed-Shuffle s can.1) in
      (
        ok,
        λ key.
            there key
            ∙ ap (or_else (find key registry)) (sym (find-Shuffle key s can.1))
            ∙ sym ((CanMerge-merge lower entries registry keyed can).1 key),
      )
