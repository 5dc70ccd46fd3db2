-- ===== src/Converter/Registry/Undone.antt =====
-- `Unregister` of internal/converter/registry.go takes back what `Register` did.
use llm_file_gateway.Prelude.{
  ◌≡◌, refl, sym, ap, ◌∙◌, true, false, Option, none, some, [], ◌∷◌, inl, inr, Bool-cases, is_some,
  if◌then◌else◌,
}
use llm_file_gateway.Prelude.Text.{String, ◌=ˢ◌, eq_refl}
use llm_file_gateway.Converter.Registry.{
  Factory, Registry, find, assign, delete_key, register, unregister,
}
use llm_file_gateway.Converter.Registry.Entries.{register-cases}

module _ {C : Type 0} where
  delete_key-assign :
      (key : String) (factory : Option (Factory C)) (registry : Registry C)
      → is_some (find key registry) ≡ false
      → delete_key key (assign key factory registry) ≡ registry
  unfolding delete_key assign find
  delete_key-assign key factory [] h = rw (eq_refl key) refl
  delete_key-assign key factory ((k, f) ∷ registry) h = elim (Bool-cases (k =ˢ key)) [
    | inl e ↦ absurd (cc (sym (ap (λ b. is_some (if b then some f else find key registry)) e) ∙ h))
    | inr e ↦
        rw (e, e)
          (ap (◌∷◌ (k, f)) (
            delete_key-assign key factory registry
              (sym (ap (λ b. is_some (if b then some f else find key registry)) e) ∙ h)))
  ]

  assign_there :
      (key : String) (factory : Option (Factory C)) (registry : Registry C)
      → is_some (find key (assign key factory registry)) ≡ true
  unfolding assign find
  assign_there key factory [] = rw (eq_refl key) refl
  assign_there key factory ((k, f) ∷ registry) = elim (Bool-cases (k =ˢ key)) [
    | inl e ↦ rw (e, e) refl
    | inr e ↦ rw (e, e) (assign_there key factory registry)
  ]

  -- Unregistering an extension that was just registered succeeds and gives the registry back.
  unregister-register :
      (lower : String → String) (extension : String) (factory : Option (Factory C))
      (registry : Registry C)
      → (register lower extension factory registry).0 ≡ none
      → unregister lower extension (register lower extension factory registry).1 ≡ (none, registry)
  unfolding unregister
  unregister-register lower extension factory registry h =
      elim (register-cases lower extension factory registry) [
        | inr (misfit, fails, same) ↦ absurd (fails h)
        | inl (fits, e) ↦ rw e (
            rw (assign_there (lower extension) factory registry)
              (ap (λ r. (none, r)) (delete_key-assign (lower extension) factory registry fits.2)))
      ]
