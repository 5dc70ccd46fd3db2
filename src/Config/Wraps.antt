-- ===== src/Config/Wraps.antt =====
-- The products of settings that wrap in 64 bits in `Load` of internal/config/config.go.
use llm_file_gateway.Prelude.{
  ℕ, ◌*◌, ◌^◌, ◌≤◌, ◌<◌, ◌≡◌, refl, ap, ◌∙◌, Option, ◌⊎◌, inl, inr, arith, Bool-cases, ltb, leb,
  ltb→lt, leb→le, leb-lt,
}
use llm_file_gateway.Prelude.Int.{ℤ, pos, negsuc, ◌*ℤ◌, ◌≤ℤ◌, wrap64, mul_pos}
use llm_file_gateway.Prelude.Text.{String}
use llm_file_gateway.Config.Env.{Env, Seconds, env_int64}
use llm_file_gateway.Config.Load.{BaseUrl, Config, load}
use llm_file_gateway.Config.Bounds.{load_sound}

wrapped_ttl :
    (s : ℕ) (ttl : ℤ)
    → ttl ≡ wrap64 (pos (s * 10 ^ 9))
    → (s ≤ 9223372036 → ttl ≡ pos (s * 10 ^ 9))
      × (9223372037 ≤ s → s ≤ 18446744073 → ttl ≤ℤ negsuc 0)
unfolding wrap64
wrapped_ttl s ttl e = (λ h. e ∙ ground arith, λ h k. rw e (ground arith))

wrapped_limit :
    (m : ℕ) (limit : ℤ)
    → limit ≡ wrap64 (pos (4 * m))
    → pos 0 ≤ℤ limit
    → (m < 2 ^ 61 → limit ≡ pos (4 * m))
      × ((m < 2 ^ 61) ⊎ (2 ^ 62 ≤ m))
      × (m ≡ 2 ^ 62 → limit ≡ pos 0)
unfolding wrap64
wrapped_limit m limit e low = (λ h. e ∙ ground arith, sides, λ h. e ∙ ground arith)
  where
    negative : 2 ^ 61 ≤ m → m < 2 ^ 62 → ⊥
    negative h k = ground (arith, e, low)

    sides : (m < 2 ^ 61) ⊎ (2 ^ 62 ≤ m)
    sides = elim (Bool-cases (ltb m (2 ^ 61))) [
      | inl h ↦ inl (ltb→lt m (2 ^ 61) h)
      | inr h ↦ elim (Bool-cases (leb (2 ^ 62) m)) [
        | inl k ↦ inr (leb→le (2 ^ 62) m k)
        | inr k ↦ absurd (negative (ground (arith, h)) (leb-lt (2 ^ 62) m k))
      ]
    ]

env_int64_unset :
    (env : Env) (name : String) (fallback : ℤ)
    → env name ≡ ""
    → env_int64 env name fallback ≡ inr fallback
unfolding env_int64
env_int64_unset env name fallback e = rw e refl

module _ (parse_url : String → Option BaseUrl) (parse_float : String → Option Seconds)
    (env : Env) where
  -- Up to 9223372036 seconds the time to live of files is FILE_TTL_SECONDS in nanoseconds. From 9223372037
  -- to 18446744073 seconds the product wraps and is negative, which means that files never expire.
  pub file_ttl_wraps :
      (config : Config) (s : ℕ)
      → load parse_url parse_float env ≡ inr config
      → env_int64 env "FILE_TTL_SECONDS" (pos 300) ≡ inr (pos s)
      → (s ≤ 9223372036 → config.file_ttl ≡ pos (s * 10 ^ 9))
        × (9223372037 ≤ s → s ≤ 18446744073 → config.file_ttl ≤ℤ negsuc 0)
  file_ttl_wraps config s e k =
      let (r, setting, ttl) = (load_sound parse_url parse_float env config e).file_ttl in
      wrapped_ttl s config.file_ttl
        (ttl ∙ ap wrap64 (ap (λ n. n *ℤ pos (10 ^ 9)) (same r setting.0) ∙ mul_pos s (10 ^ 9)))
    where
      same : (r : ℤ) → env_int64 env "FILE_TTL_SECONDS" (pos 300) ≡ inr r → r ≡ pos s
      same r h = cc (h, k)

  -- Where MAX_REQUEST_BODY_BYTES is not set, four times MAX_FILE_BYTES wraps: below 2^61 bytes it is the limit
  -- that is meant; from there up to 2^62 the gateway does not start; and at 2^62 there is no limit.
  derived_body_limit :
      (config : Config) (m : ℕ)
      → load parse_url parse_float env ≡ inr config
      → env "MAX_REQUEST_BODY_BYTES" ≡ ""
      → config.max_file_bytes ≡ pos m
      → (m < 2 ^ 61 → config.max_request_body_bytes ≡ pos (4 * m))
        × ((m < 2 ^ 61) ⊎ (2 ^ 62 ≤ m))
        × (m ≡ 2 ^ 62 → config.max_request_body_bytes ≡ pos 0)
  derived_body_limit config m e unset k =
      let (setting, low) = (load_sound parse_url parse_float env config e).max_request_body_bytes in
      wrapped_limit m config.max_request_body_bytes
        (cc (
          setting,
          env_int64_unset env "MAX_REQUEST_BODY_BYTES" (wrap64 (pos 4 *ℤ config.max_file_bytes))
              unset,
        )
          ∙ ap wrap64 (ap (λ n. pos 4 *ℤ n) k ∙ mul_pos 4 m))
        low
