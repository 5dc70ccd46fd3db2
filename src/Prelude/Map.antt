-- ===== src/Prelude/Map.antt =====
-- Go maps as functions from the key to the value, if there is one, and arrays of shared objects as
-- functions from the address.
use llm_file_gateway.Prelude.Tests.{◌==◌, if◌then◌else◌}
use llm_file_gateway.Prelude.Text.{String, ◌=ˢ◌}
use Prim.Native.Nat.{ℕ}
use mathlib.Core.Option.{Option, none, some}

abbrev pub Map {ℓ} : Type ℓ → Type ℓ
Map V = String → Option V

abbrev pub Heap {ℓ} : Type ℓ → Type ℓ
Heap V = ℕ → V

module _ {ℓ} {V : Type ℓ} where
  abbrev pub no_entries : Map V
  no_entries key = none

  -- m[key] = value
  abbrev pub put : Map V → String → V → Map V
  put m key value other = if other =ˢ key then some value else m other

  -- delete(m, key)
  abbrev pub remove : Map V → String → Map V
  remove m key other = if other =ˢ key then none else m other

  -- *address = value
  abbrev pub store : Heap V → ℕ → V → Heap V
  store h address value other = if other == address then value else h other
