-- ===== src/Converter/Registry.antt =====
-- The registry and the dispatcher of internal/converter/registry.go and dispatcher.go, over any type of
-- converters. The map is the list of its entries in the order in which a loop happens to meet them; a
-- factory that is nil is `none`. strings.ToLower is a parameter.
pub mod Keys
pub mod Entries
pub mod Merged
pub mod Undone
pub mod Tests
use Prim.Native.String
use llm_file_gateway.Prelude.{
  Bool, true, false, not, ◌&&◌, ◌||◌, Option, none, some, List, [], ◌∷◌, ◌++◌, ◌⊎◌, inl, inr,
  if◌then◌else◌, is_some,
}
use llm_file_gateway.Prelude.Text.{String, ◌=ˢ◌, ◌+ˢ◌, has_prefix, ext}

-- An error; `not_found` says that it is or wraps ErrConverterNotFound.
pub record Failure : Type 0 where
  pub text : String
  pub not_found : Bool

abbrev failed : String → Failure
failed text = record { text = text; not_found = false }

-- A factory with its configuration and its handle: a converter or an error.
abbrev pub Factory : Type 0 → Type 0
Factory C = Failure ⊎ C

abbrev pub Registry : Type 0 → Type 0
Registry C = List (String × Option (Factory C))

module _ {C : Type 0} where
  -- registry[key], with whether it is there.
  unfoldable pub find : String → Registry C → Option (Option (Factory C))
  find key [] = none
  find key ((other, factory) ∷ registry) = if other =ˢ key then some factory else find key registry

  -- registry[key] = factory
  unfoldable pub assign : String → Option (Factory C) → Registry C → Registry C
  assign key factory [] = (key, factory) ∷ []
  assign key factory ((other, old) ∷ registry) =
      if other =ˢ key
      then (other, factory) ∷ registry
      else (other, old) ∷ assign key factory registry

  -- delete(registry, key)
  unfoldable pub delete_key : String → Registry C → Registry C
  delete_key key [] = []
  delete_key key ((other, factory) ∷ registry) =
      if other =ˢ key then registry else (other, factory) ∷ delete_key key registry

  -- The loop that copies a map into the registry.
  unfoldable pub assign_all : Registry C → Registry C → Registry C
  assign_all [] registry = registry
  assign_all ((extension, factory) ∷ entries) registry =
      assign_all entries (assign extension factory registry)

abbrev pub is_extension : String → Bool
is_extension normalized = not (normalized =ˢ "" || not (has_prefix normalized "."))

module _ {C : Type 0} (lower : String → String) where
  -- The error and the registry afterwards.
  unfoldable pub register : String → Option (Factory C) → Registry C → Option Failure × Registry C
  register extension factory registry =
      if not (is_extension (lower extension))
      then (some (failed ("invalid converter extension: " +ˢ extension)), registry)
      else if not (is_some factory)
      then (some (failed "converter factory must not be nil"), registry)
      else if is_some (find (lower extension) registry)
      then (some (failed ("converter already registered for " +ˢ lower extension)), registry)
      else (none, assign (lower extension) factory registry)

  unfoldable pub unregister : String → Registry C → Option Failure × Registry C
  unregister extension registry =
      if not (is_some (find (lower extension) registry))
      then (some (failed ("converter not registered for " +ˢ lower extension)), registry)
      else (none, delete_key (lower extension) registry)

  -- The loop that registers the entries of the other map, up to the first error.
  unfoldable pub register_all : Registry C → Registry C → Option Failure × Registry C
  register_all [] merged = (none, merged)
  register_all ((extension, factory) ∷ entries) merged =
      let (error, next) = register extension factory merged in
      let rest = register_all entries next in if is_some error then (error, next) else rest

  unfoldable pub merge : Registry C → Registry C → Option Failure × Registry C
  merge entries registry =
      let (error, merged) = register_all entries (assign_all registry []) in
      if is_some error then (error, registry) else (none, assign_all merged registry)

  -- A factory that is nil would panic; `Register` lets none in.
  unfoldable pub converter : String → Registry C → Factory C
  converter extension registry = elim (find (lower extension) registry) [
    | none ↦ inl (record {
      text =
          "converter not found: " +ˢ (if lower extension =ˢ "" then "(none)" else lower extension);
      not_found = true;
    })
    | some none ↦ inl (failed "nil pointer dereference")
    | some (some factory) ↦ factory
  ]

  unfoldable pub for_path : String → Registry C → Factory C
  unfolding converter
  for_path path registry = converter (ext path) registry

  -- `ResolveConverter`, with the fallback that `NewDispatcher` sets.
  unfoldable pub resolve_converter : C → Registry C → String → Factory C
  resolve_converter fallback registry path = elim (for_path path registry) [
    | inr found ↦ inr found
    | inl failure ↦ if failure.not_found then inr fallback else inl failure
  ]
