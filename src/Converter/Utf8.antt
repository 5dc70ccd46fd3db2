-- ===== src/Converter/Utf8.antt =====
-- unicode/utf8 and unicode.IsSpace as internal/converter uses them, on the bytes of a text.
use llm_file_gateway.Prelude.{
  ℕ, zero, suc, ◌-◌, Bool, true, not, ◌&&◌, ◌||◌, [], ◌∷◌, leb, ltb, ◌==◌, if◌then◌else◌,
}
use llm_file_gateway.Files.Disk.{Bytes}

abbrev within : ℕ → ℕ → ℕ → Bool
within low high b = leb low b && leb b high

abbrev continues : ℕ → Bool
continues b = within 128 191 b

abbrev two_bytes : Bytes → ℕ
two_bytes [] = 0
two_bytes (b ∷ rest) = if continues b then 2 else 0

-- The second byte is restricted after 0xE0 and 0xED, and after 0xF0 and 0xF4.
abbrev three_bytes : ℕ → Bytes → ℕ
three_bytes a (b ∷ c ∷ rest) =
    if within (if a == 224 then 160 else 128) (if a == 237 then 159 else 191) b && continues c
    then 3
    else 0
three_bytes a (b ∷ []) = 0
three_bytes a [] = 0

abbrev four_bytes : ℕ → Bytes → ℕ
four_bytes a (b ∷ c ∷ d ∷ rest) =
    if within (if a == 240 then 144 else 128) (if a == 244 then 143 else 191) b
      && (continues c && continues d)
    then 4
    else 0
four_bytes a (b ∷ c ∷ []) = 0
four_bytes a (b ∷ []) = 0
four_bytes a [] = 0

-- How many bytes the first rune has; 0 if the bytes begin with no valid encoding.
unfoldable pub rune_width : Bytes → ℕ
rune_width [] = 0
rune_width (a ∷ rest) =
    if ltb a 128
    then 1
    else if within 194 223 a
    then two_bytes rest
    else if within 224 239 a
    then three_bytes a rest
    else if within 240 244 a
    then four_bytes a rest
    else 0

-- utf8.Valid; the number is what is left of the current rune.
unfoldable pub valid_from : ℕ → Bytes → Bool
unfolding rune_width
valid_from n [] = true
valid_from (suc n) (b ∷ bytes) = valid_from n bytes
valid_from zero (b ∷ bytes) =
    let width = rune_width (b ∷ bytes) in not (width == 0) && valid_from (width - 1) bytes

-- len([]rune(s)): a byte that begins no valid encoding is a rune of its own.
unfoldable pub runes_from : ℕ → Bytes → ℕ
unfolding rune_width
runes_from n [] = 0
runes_from (suc n) (b ∷ bytes) = runes_from n bytes
runes_from zero (b ∷ bytes) = suc (runes_from (rune_width (b ∷ bytes) - 1) bytes)

-- unicode.IsSpace of the first rune of a text in UTF-8: its number of bytes, or 0 for any other rune.
unfoldable pub space_width : Bytes → ℕ
space_width [] = 0
space_width (a ∷ []) = if within 9 13 a || a == 32 then 1 else 0
space_width (a ∷ b ∷ []) =
    if within 9 13 a || a == 32 then 1 else if a == 194 && (b == 133 || b == 160) then 2 else 0
space_width (a ∷ b ∷ c ∷ rest) =
    if within 9 13 a || a == 32
    then 1
    else if a == 194 && (b == 133 || b == 160)
    then 2
    else if (a == 225 && (b == 154 && c == 128))
        || ((a == 226 && (b == 128 && (within 128 138 c || (c == 168 || (c == 169 || c == 175)))))
            || ((a == 226 && (b == 129 && c == 159)) || (a == 227 && (b == 128 && c == 128))))
    then 3
    else 0
