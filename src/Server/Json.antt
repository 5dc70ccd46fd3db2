-- ===== src/Server/Json.antt =====
-- JSON as package encoding/json decodes it into values of type any: a key that is missing reads as
-- nil, like null.
use llm_file_gateway.Prelude.{Bool, true, false, ◌≡◌, arith, if◌then◌else◌}
use llm_file_gateway.Prelude.Text.{String, ◌=ˢ◌, eq_iff, eq_refl}

mutual
  pub data Json : Type 0 where
    null : Json
    boolean : Bool → Json
    -- A number is its literal, as with UseNumber.
    number text : String → Json
    array : Items → Json
    object : Fields → Json

  pub data Items : Type 0 where
    end : Items
    item : Json → Items → Items

  pub data Fields : Type 0 where
    no_fields : Fields
    field : String → Json → Fields → Fields

-- fields[key]
abbrev pub lookup : String → Fields → Json
lookup key no_fields = null
lookup key (field name value fields) = if key =ˢ name then value else lookup key fields

-- fields[key] = value
abbrev pub set : String → Json → Fields → Fields
set key value no_fields = field key value no_fields
set key value (field name old fields) =
    if key =ˢ name then field name value fields else field name old (set key value fields)

abbrev pub append : Items → Items → Items
append end ys = ys
append (item x xs) ys = item x (append xs ys)

abbrev pub any_item : (Json → Bool) → Items → Bool
any_item p end = false
any_item p (item x xs) = if p x then true else any_item p xs

-- The text that a value must be, or the empty one: `value.(string)`.
abbrev pub text_of : Json → String
text_of (text s) = s
text_of _ = ""

abbrev pub is_text : String → Json → Bool
is_text s (text t) = t =ˢ s
is_text s _ = false

-- The items of an array, and of anything else none: `value.([]any)`.
abbrev pub items_of : Json → Items
items_of (array xs) = xs
items_of _ = end

abbrev pub is_null : Json → Bool
is_null null = true
is_null _ = false

pub lookup-set :
    (key : String) (value : Json) (fields : Fields) → lookup key (set key value fields) ≡ value
lookup-set key value no_fields = ground (arith, eq_refl key)
lookup-set key value (field name old fields) = ground (arith, lookup-set key value fields)

pub lookup-set_other :
    (key other : String) (value : Json) (fields : Fields)
    → (other =ˢ key) ≡ false
    → lookup other (set key value fields) ≡ lookup other fields
lookup-set_other key other value no_fields h = ground arith
lookup-set_other key other value (field name old fields) h =
    ground (arith, lookup-set_other key other value fields, eq_iff key name)
