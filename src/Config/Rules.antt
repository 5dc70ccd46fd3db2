-- ===== src/Config/Rules.antt =====
-- One rule for each step of `Load` of internal/config/config.go.
use llm_file_gateway.Prelude.{
  ◌*◌, ◌^◌, ◌≡◌, refl, Bool, true, false, ◌&&◌, ◌||◌, Option, some, inl, inr, arith, Bool-cases,
  if◌then◌else◌,
}
use llm_file_gateway.Prelude.Int.{ℤ, pos, ltb_ℤ, ◌≤ℤ◌}
use llm_file_gateway.Prelude.Text.{String, ◌=ˢ◌}
use llm_file_gateway.Config.Env.{Env, Result, ◌>>=◌, Seconds, env_int64, env_float}
use llm_file_gateway.Config.Load.{
  BaseUrl, Config, trim_slashes, checked, bounded, at_least, not_negative, seconds_of, read_model,
  read_base_url, check_keys,
}

-- A setting is what its reader gives, and lies at or above its least value.
abbrev pub IsSetting : Env → String → ℤ → ℤ → ℤ → Type 0
IsSetting env name fallback low value = (env_int64 env name fallback ≡ inr value) × (low ≤ℤ value)

abbrev pub IsDuration : (String → Option Seconds) → Env → String → ℤ → Type 0
IsDuration parse_float env name value =
    (s : Seconds) × (env_float parse_float env name
        (record { below_zero = false; duration = pos (300 * 10 ^ 9) })
      ≡ inr s)
    × (s.below_zero ≡ false)
    × (value ≡ s.duration)

-- A result that is no error has a property.
abbrev pub Ensures : {A : Type 0} → (A → Type 0) → Result A → Type 0
Ensures P (inl text) = Unit
Ensures P (inr a) = P a

pub bind_rule :
    {A B : Type 0} (P : B → Type 0) (m : Result A) (f : A → Result B)
    → ((a : A) → m ≡ inr a → Ensures P (f a))
    → Ensures P (m >>= f)
unfolding ◌>>=◌
bind_rule P (inl text) f h = tt
bind_rule P (inr a) f h = h a refl

pub checked_test :
    {A : Type 0} (message : String) (bad : A → Bool) (b a : A) (test : Bool)
    → bad b ≡ test
    → (if test then inl message else inr b) ≡ (let r : Result A = inr a in r)
    → (let r : Result A = inr b in r ≡ inr a) × (bad a ≡ false)
checked_test message bad b a true e h = absurd (cc h)
checked_test message bad b a false e h = (h, cc (e, h))

pub checked-inr :
    {A : Type 0} (message : String) (bad : A → Bool) (m : Result A) (a : A)
    → checked message bad m ≡ inr a
    → (m ≡ inr a) × (bad a ≡ false)
unfolding checked
checked-inr message bad (inl text) a h = absurd (cc h)
checked-inr message bad (inr b) a h = checked_test message bad b a (bad b) refl h

pub le_of_test : (low n : ℤ) → ltb_ℤ n low ≡ false → low ≤ℤ n
le_of_test low n h = ground arith

pub at_least-inr :
    (message : String) (low : ℤ) (env : Env) (name : String) (fallback n : ℤ)
    → at_least message low (env_int64 env name fallback) ≡ inr n
    → IsSetting env name fallback low n
unfolding at_least
at_least-inr message low env name fallback n h =
    let (e, k) = checked-inr message (λ m. ltb_ℤ m low) (env_int64 env name fallback) n h in
    (e, le_of_test low n k)

pub bounded-inr :
    (message : String) (low high : ℤ) (env : Env) (name : String) (fallback n : ℤ)
    → bounded message low high (env_int64 env name fallback) ≡ inr n
    → IsSetting env name fallback low n × (n ≤ℤ high)
unfolding bounded
bounded-inr message low high env name fallback n h =
    let (e, k) =
      checked-inr message (λ m. ltb_ℤ m low || ltb_ℤ high m) (env_int64 env name fallback) n h in
    ((e, le_of_test low n (ground (arith, k))), le_of_test n high (ground (arith, k)))

pub not_negative-inr :
    (message : String) (env : Env) (name : String) (fallback n : ℤ)
    → not_negative message env name fallback ≡ inr n
    → IsSetting env name fallback (pos 0) n
unfolding not_negative
not_negative-inr message env name fallback n h = at_least-inr message (pos 0) env name fallback n h

pub seconds_of-inr :
    (parse_float : String → Option Seconds) (env : Env) (name message : String) (s : Seconds)
    → seconds_of parse_float env name message ≡ inr s
    → IsDuration parse_float env name s.duration
unfolding seconds_of
seconds_of-inr parse_float env name message s h =
    let (e, k) = checked-inr message (λ (r : Seconds). r.below_zero) _ s h in (s, e, k, refl)

pub read_model-inr :
    (env : Env) (model : String)
    → read_model env ≡ inr model
    → (model ≡ env "VLLM_MODEL") × ((model =ˢ "") ≡ false)
unfolding read_model
read_model-inr env model h = (ground (arith, h), ground (arith, h))

pub read_base_url-inr :
    (parse_url : String → Option BaseUrl) (env : Env) (url : BaseUrl)
    → read_base_url parse_url env ≡ inr url
    → (parse_url (env "VLLM_BASE_URL") ≡ some url)
      × ((url.scheme =ˢ "") ≡ false)
      × ((url.host =ˢ "") ≡ false)
      × ((trim_slashes url.path =ˢ "/v1") ≡ true)
unfolding read_base_url
read_base_url-inr parse_url env url h = ground (arith, h)

pub check_keys_rule :
    (P : Config → Type 0) (config : Config)
    → ((config.vllm_api_key =ˢ "") ≡ false
        → ((config.gateway_auth_required ≡ true) → (config.gateway_api_key =ˢ "") ≡ false)
        → P config)
    → Ensures P (check_keys config)
unfolding check_keys
check_keys_rule P config h = elim (Bool-cases (config.vllm_api_key =ˢ "")) [
  | inl e ↦ rw (Ensures, e) tt
  | inr e ↦ elim (Bool-cases (config.gateway_auth_required && config.gateway_api_key =ˢ "")) [
    | inl k ↦ rw (Ensures, e, k) tt
    | inr k ↦ rw (Ensures, e, k) (h e (λ required. ground (arith, k, required)))
  ]
]
