-- ===== src/Config/Env.antt =====
-- The readers of single variables in internal/config/config.go, with the functions of strconv that they
-- call. The environment gives each variable its text, and "" to one that is not set. `strconv.ParseFloat`
-- and the arithmetic of float64 are a parameter: of a number of seconds the gateway asks only whether it
-- is below 0 and which duration it stands for.
use llm_file_gateway.Prelude.{
  ℕ, ◌+◌, ◌-◌, ◌*◌, Bool, true, false, ◌&&◌, ◌||◌, Option, none, some, ◌⊎◌, inl, inr, leb, ltb,
  ◌==◌, if◌then◌else◌,
}
use llm_file_gateway.Prelude.Int.{ℤ, pos, negsuc, two63, two64}
use llm_file_gateway.Prelude.Text.{String, code, ◌=ˢ◌, ◌+ˢ◌}

abbrev pub Env : Type 0
Env = String → String

-- An error with its text, or a value.
abbrev pub Result : Type 0 → Type 0
Result A = String ⊎ A

infixl 5 ◌>>=◌
unfoldable pub ◌>>=◌ : {A B : Type 0} → Result A → (A → Result B) → Result B
inl text >>= f = inl text
inr a >>= f = f a

-- The digits of a number in base 10, from the left.
unfoldable pub parse_digits : String → ℕ → Option ℕ
parse_digits String.[] value = some value
parse_digits (String.◌∷◌ c s) value =
    let rest = parse_digits s (value * 10 + (code c - 48)) in
    if leb 48 (code c) && leb (code c) 57 then rest else none

unfoldable pub parse_number : String → Option ℕ
unfolding parse_digits
parse_number String.[] = none
parse_number (String.◌∷◌ c s) = parse_digits (String.◌∷◌ c s) 0

-- strconv.ParseUint(s, 10, 64)
unfoldable pub parse_uint64 : String → Option ℕ
unfolding parse_number
parse_uint64 s = elim (parse_number s) [
  | none ↦ none
  | some n ↦ if ltb n two64 then some n else none
]

abbrev in_range : Bool → Option ℕ → Option ℤ
in_range negative none = none
in_range false (some n) = if ltb n two63 then some (pos n) else none
in_range true (some n) =
    if leb n two63 then some (if n == 0 then pos 0 else negsuc (n - 1)) else none

-- strconv.ParseInt(s, 10, 64): 43 is '+' and 45 is '-'.
unfoldable pub parse_int64 : String → Option ℤ
unfolding parse_number
parse_int64 String.[] = none
parse_int64 (String.◌∷◌ c s) =
    if code c == 45
    then in_range true (parse_number s)
    else if code c == 43
    then in_range false (parse_number s)
    else in_range false (parse_number (String.◌∷◌ c s))

-- strconv.ParseBool
unfoldable pub parse_bool : String → Option Bool
parse_bool s =
    if s =ˢ "1" || (s =ˢ "t" || (s =ˢ "T" || (s =ˢ "true" || (s =ˢ "TRUE" || s =ˢ "True"))))
    then some true
    else if s =ˢ "0" || (s =ˢ "f" || (s =ˢ "F" || (s =ˢ "false" || (s =ˢ "FALSE" || s =ˢ "False"))))
    then some false
    else none

unfoldable pub env_string : Env → String → String → String
env_string env name fallback = if env name =ˢ "" then fallback else env name

-- What the readers of numbers and of truth values have in common.
abbrev read : {A : Type 0} → (String → Option A) → String → Env → String → A → Result A
read parse kind env name fallback =
    if env name =ˢ ""
    then inr fallback
    else elim (parse (env name)) [ none ↦ inl (name +ˢ kind) | some value ↦ inr value ]

unfoldable pub env_bool : Env → String → Bool → Result Bool
unfolding parse_bool
env_bool = read parse_bool " must be a boolean"

-- An int has 64 bits.
unfoldable pub env_int64 : Env → String → ℤ → Result ℤ
unfolding parse_int64
env_int64 = read parse_int64 " must be an integer"

unfoldable pub env_uint64 : Env → String → ℕ → Result ℕ
unfolding parse_uint64
env_uint64 = read parse_uint64 " must be a non-negative integer"

-- A float64 that stands for seconds: whether it is below 0, and as a duration in nanoseconds.
pub record Seconds : Type 0 where
  pub below_zero : Bool
  pub duration : ℤ

unfoldable pub env_float : (String → Option Seconds) → Env → String → Seconds → Result Seconds
env_float parse_float = read parse_float " must be a number"
