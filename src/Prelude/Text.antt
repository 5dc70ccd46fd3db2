-- ===== src/Prelude/Text.antt =====
-- Texts: a Go string is a sequence of bytes, and a text here is the sequence of its bytes, one
-- character for each. The equality test under an operator of its own, the order of SQLite's BINARY
-- collation, which compares bytes, and the functions of the package strings that the gateway calls.
use mathlib.Core.Path.{◌≡◌, refl, ap}
use mathlib.Core.Logic.{inl, inr}
use mathlib.Core.Bool.{Bool, true, false, ◌&&◌, ◌||◌, not}
use mathlib.Core.List.{List, [], ◌∷◌}
use native.Mathlib.Omega.{arith}
use text.Mathlib.Text.{◌==◌}
use text.Mathlib.TextEquality.{Char-path}
use Prim.Native.Nat.{ℕ, zero, suc, ◌/◌, ◌%◌}
use Prim.Native.String
use Prim.Native.String.append
use llm_file_gateway.Prelude.Tests.{Bool-cases, ltb, ◌==◌ as ◌=ℕ◌, if◌then◌else◌}
pub use Prim.Native.String.{String}
pub use Prim.Native.Char.{Char, code}
pub use text.Mathlib.TextEquality.{eq_iff}
pub use text.Mathlib.TextPositions.{eq_refl}
pub use text.Mathlib.TextLemmas.{append-nil}

infix 50 ◌=ˢ◌
abbrev pub ◌=ˢ◌ : String → String → Bool
s =ˢ t = s == t

-- The bytes of a text.
abbrev pub codes : String → List ℕ
codes String.[] = []
codes (String.◌∷◌ c s) = code c ∷ codes s

-- The first bytes of a text, up to a number.
abbrev pub take_str : ℕ → String → String
take_str zero s = String.[]
take_str (suc n) String.[] = String.[]
take_str (suc n) (String.◌∷◌ c s) = String.◌∷◌ c (take_str n s)

-- The bytes of a text from a position on.
abbrev pub drop_str : ℕ → String → String
drop_str zero s = s
drop_str (suc n) String.[] = String.[]
drop_str (suc n) (String.◌∷◌ c s) = drop_str n s

-- s + t
infixr 65 ◌+ˢ◌
abbrev pub ◌+ˢ◌ : String → String → String
s +ˢ t = Prim.Native.String.◌++◌ s t

pub nil-append : (t : String) → "" +ˢ t ≡ t
nil-append t i = Prim.Native.String.append.nil t i

pub cons-append : (c : Char) (s t : String) → String.◌∷◌ c s +ˢ t ≡ String.◌∷◌ c (s +ˢ t)
cons-append c s t i = Prim.Native.String.append.cons c s t i

-- strings.HasPrefix
abbrev pub has_prefix : String → String → Bool
has_prefix s String.[] = true
has_prefix String.[] (String.◌∷◌ d t) = false
has_prefix (String.◌∷◌ c s) (String.◌∷◌ d t) = code c =ℕ code d && has_prefix s t

abbrev pub is_empty : String → Bool
is_empty String.[] = true
is_empty (String.◌∷◌ c s) = false

pub cons-ne-nil : (c : Char) (s : String) → (String.◌∷◌ c s =ˢ "") ≡ false
cons-ne-nil c s = elim (Bool-cases (String.◌∷◌ c s =ˢ "")) [
  | inr e ↦ e
  | inl e ↦ absurd (cc (ap is_empty ((eq_iff (String.◌∷◌ c s) "").0 e)))
]

-- The last element of a path that is not empty: the elements are cut at '/', which is 47.
abbrev last_element : String → String → String → String
last_element String.[] current last = if is_empty current then last else current
last_element (String.◌∷◌ c s) current last =
    if code c =ℕ 47
    then last_element s String.[] (if is_empty current then last else current)
    else last_element s (current +ˢ String.◌∷◌ c String.[]) last

-- filepath.Base
abbrev pub base : String → String
base String.[] = "."
base (String.◌∷◌ c s) = last_element (String.◌∷◌ c s) String.[] "/"

abbrev has_slash : String → Bool
has_slash String.[] = false
has_slash (String.◌∷◌ c s) = code c =ℕ 47 || has_slash s

-- filepath.Ext: from the last '.', which is 46, of the last element on.
abbrev pub ext : String → String
ext String.[] = String.[]
ext (String.◌∷◌ c s) =
    let rest = ext s in
    if not (is_empty rest)
    then rest
    else if code c =ℕ 46 && not (has_slash s)
    then String.◌∷◌ c s
    else String.[]

abbrev digit_at : List String → ℕ → String
digit_at [] n = ""
digit_at (d ∷ ds) zero = d
digit_at (d ∷ ds) (suc n) = digit_at ds n

abbrev pub digit : ℕ → String
digit = digit_at ("0" ∷ "1" ∷ "2" ∷ "3" ∷ "4" ∷ "5" ∷ "6" ∷ "7" ∷ "8" ∷ "9" ∷ [])

abbrev pub decimal_fuel : ℕ → ℕ → String
decimal_fuel zero n = digit n
decimal_fuel (suc fuel) n =
    let front = decimal_fuel fuel (n / 10) in if ltb n 10 then digit n else front +ˢ digit (n % 10)

-- %d, for a number that is not negative. A number has fewer digits than its value.
abbrev pub decimal : ℕ → String
decimal n = decimal_fuel n n

-- s < t, compared from the left.
unfoldable pub str_lt : String → String → Bool
str_lt String.[] String.[] = false
str_lt String.[] (String.◌∷◌ d t) = true
str_lt (String.◌∷◌ c s) String.[] = false
str_lt (String.◌∷◌ c s) (String.◌∷◌ d t) =
    if ltb (code c) (code d) then true else if ltb (code d) (code c) then false else str_lt s t

pub str_lt_irrefl : (s : String) → str_lt s s ≡ false
unfolding str_lt
str_lt_irrefl String.[] = refl
str_lt_irrefl (String.◌∷◌ c s) = ground (arith, str_lt_irrefl s)

pub str_lt_trans : (s t u : String) → str_lt s t ≡ true → str_lt t u ≡ true → str_lt s u ≡ true
unfolding str_lt
str_lt_trans String.[] String.[] u h k = cc
str_lt_trans String.[] (String.◌∷◌ d t) String.[] h k = cc
str_lt_trans String.[] (String.◌∷◌ d t) (String.◌∷◌ e u) h k = refl
str_lt_trans (String.◌∷◌ c s) String.[] u h k = cc
str_lt_trans (String.◌∷◌ c s) (String.◌∷◌ d t) String.[] h k = cc
str_lt_trans (String.◌∷◌ c s) (String.◌∷◌ d t) (String.◌∷◌ e u) h k =
    ground (arith, str_lt_trans s t u)

pub str_lt_total : (s t : String) → str_lt s t ≡ false → str_lt t s ≡ false → s ≡ t
unfolding str_lt
str_lt_total String.[] String.[] h k = refl
str_lt_total String.[] (String.◌∷◌ d t) h k = cc
str_lt_total (String.◌∷◌ c s) String.[] h k = cc
str_lt_total (String.◌∷◌ c s) (String.◌∷◌ d t) h k = ground (arith, str_lt_total s t, Char-path c d)
