-- ===== src/Config/Written.antt =====
-- What internal/config/config.go reads of an integer that was written in decimal.
use llm_file_gateway.Prelude.{
  ℕ, zero, suc, ◌+◌, ◌-◌, ◌*◌, ◌/◌, ◌%◌, ◌^◌, ◌≤◌, ◌<◌, ◌≡◌, refl, subst, ◌∙◌, false, some, inl,
  inr, arith, Bool-cases, ltb,
}
use llm_file_gateway.Prelude.Int.{ℤ, pos, negsuc, IsInt64}
use llm_file_gateway.Prelude.Text.{
  String, Char, code, ◌=ˢ◌, ◌+ˢ◌, digit, decimal, decimal_fuel, nil-append, cons-append,
  cons-ne-nil,
}
use llm_file_gateway.Config.Env.{Env, parse_digits, parse_int64, env_int64}

-- An integer in decimal, as strconv.Itoa and a person write it.
abbrev pub format_int : ℤ → String
format_int (pos n) = decimal n
format_int (negsuc n) = "-" +ˢ decimal (suc n)

digit_read : (d value : ℕ) → d < 10 → parse_digits (digit d) value ≡ some (value * 10 + d)
unfolding parse_digits
digit_read zero value h = ground arith
digit_read (suc zero) value h = ground arith
digit_read (suc (suc zero)) value h = ground arith
digit_read (suc (suc (suc zero))) value h = ground arith
digit_read (suc (suc (suc (suc zero)))) value h = ground arith
digit_read (suc (suc (suc (suc (suc zero))))) value h = ground arith
digit_read (suc (suc (suc (suc (suc (suc zero)))))) value h = ground arith
digit_read (suc (suc (suc (suc (suc (suc (suc zero))))))) value h = ground arith
digit_read (suc (suc (suc (suc (suc (suc (suc (suc zero)))))))) value h = ground arith
digit_read (suc (suc (suc (suc (suc (suc (suc (suc (suc zero))))))))) value h = ground arith
digit_read (suc (suc (suc (suc (suc (suc (suc (suc (suc (suc d)))))))))) value h =
    absurd (omega arith)

parse_digits-append :
    (s t : String) (value read : ℕ)
    → parse_digits s value ≡ some read
    → parse_digits (s +ˢ t) value ≡ parse_digits t read
unfolding parse_digits
parse_digits-append String.[] t value read h = rw (nil-append t) (cc h)
parse_digits-append (String.◌∷◌ c s) t value read h =
    rw (cons-append c s t)
      (ground (arith, h, parse_digits-append s t (value * 10 + (code c - 48)) read))

decimal_read : (fuel n : ℕ) → n ≤ fuel → parse_digits (decimal_fuel fuel n) 0 ≡ some n
decimal_read zero n h = digit_read n 0 (omega arith) ∙ ground arith
decimal_read (suc fuel) n h = elim (Bool-cases (ltb n 10)) [
  | inl e ↦ rw e (digit_read n 0 (ground (arith, e)) ∙ ground arith)
  | inr e ↦ rw e (
      parse_digits-append (decimal_fuel fuel (n / 10)) (digit (n % 10)) 0 (n / 10)
        (decimal_read fuel (n / 10) (ground (arith, e)))
      ∙ digit_read (n % 10) (n / 10) (omega arith)
      ∙ ground arith)
]

-- A number in decimal has a first digit.
abbrev HasHead : String → Type 0
HasHead s = (c : Char) × (rest : String) × (s ≡ String.◌∷◌ c rest)

HasHead-append : (s t : String) → HasHead s → HasHead (s +ˢ t)
HasHead-append s t (c, rest, e) = (c, rest +ˢ t, rw e (cons-append c rest t))

digit-HasHead : (d : ℕ) → d < 10 → HasHead (digit d)
digit-HasHead zero h = (_, _, refl)
digit-HasHead (suc zero) h = (_, _, refl)
digit-HasHead (suc (suc zero)) h = (_, _, refl)
digit-HasHead (suc (suc (suc zero))) h = (_, _, refl)
digit-HasHead (suc (suc (suc (suc zero)))) h = (_, _, refl)
digit-HasHead (suc (suc (suc (suc (suc zero))))) h = (_, _, refl)
digit-HasHead (suc (suc (suc (suc (suc (suc zero)))))) h = (_, _, refl)
digit-HasHead (suc (suc (suc (suc (suc (suc (suc zero))))))) h = (_, _, refl)
digit-HasHead (suc (suc (suc (suc (suc (suc (suc (suc zero)))))))) h = (_, _, refl)
digit-HasHead (suc (suc (suc (suc (suc (suc (suc (suc (suc zero))))))))) h = (_, _, refl)
digit-HasHead (suc (suc (suc (suc (suc (suc (suc (suc (suc (suc d)))))))))) h = absurd (omega arith)

decimal-HasHead : (fuel n : ℕ) → n ≤ fuel → HasHead (decimal_fuel fuel n)
decimal-HasHead zero n h = digit-HasHead n (omega arith)
decimal-HasHead (suc fuel) n h = elim (Bool-cases (ltb n 10)) [
  | inl e ↦ rw e (digit-HasHead n (ground (arith, e)))
  | inr e ↦ rw e (
      HasHead-append (decimal_fuel fuel (n / 10)) (digit (n % 10))
        (decimal-HasHead fuel (n / 10) (ground (arith, e))))
]

-- A text that begins with a digit has no sign.
unsigned :
    (c : Char) (rest : String) (n : ℕ)
    → n < 2 ^ 63
    → parse_digits (String.◌∷◌ c rest) 0 ≡ some n
    → parse_int64 (String.◌∷◌ c rest) ≡ some (pos n)
unfolding parse_int64 parse_digits
unsigned c rest n h e = ground (arith, e, h)

negative :
    (c : Char) (rest : String) (n : ℕ)
    → n < 2 ^ 63
    → parse_digits (String.◌∷◌ c rest) 0 ≡ some (suc n)
    → parse_int64 ("-" +ˢ String.◌∷◌ c rest) ≡ some (negsuc n)
unfolding parse_int64
negative c rest n h e =
    rw (cons-append _ "" (String.◌∷◌ c rest), nil-append (String.◌∷◌ c rest)) (ground (arith, e, h))

parse_int64-format : (n : ℤ) → IsInt64 n → parse_int64 (format_int n) ≡ some n
parse_int64-format (pos n) h =
    let (c, rest, e) = decimal-HasHead n n (omega arith) in
    rw e (
      unsigned c rest n h.0
        (subst (λ s. parse_digits s 0 ≡ some n) e (decimal_read n n (omega arith))))
parse_int64-format (negsuc n) h =
    let (c, rest, e) = decimal-HasHead (suc n) (suc n) (omega arith) in
    rw e (
      negative c rest n (omega arith) (
        subst (λ s. parse_digits s 0 ≡ some (suc n)) e
          (decimal_read (suc n) (suc n) (omega arith))))

format_int-ne-nil : (n : ℤ) → (format_int n =ˢ "") ≡ false
format_int-ne-nil (pos n) =
    let (c, rest, e) = decimal-HasHead n n (omega arith) in rw e (cons-ne-nil c rest)
format_int-ne-nil (negsuc n) = rw (cons-append _ "" (decimal (suc n))) (cons-ne-nil _ _)

-- A variable that holds an int64 in decimal is read as that number, whatever its default is.
pub env_int64-format :
    (env : Env) (name : String) (fallback n : ℤ)
    → IsInt64 n
    → env name ≡ format_int n
    → env_int64 env name fallback ≡ inr n
unfolding env_int64
env_int64-format env name fallback n h e = rw (e, format_int-ne-nil n, parse_int64-format n h) refl
