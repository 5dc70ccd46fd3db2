-- ===== src/Files/Threads/Conversions/Moves.antt =====
-- The kinds of moves of internal/files/service.go's threads, and what they keep guarded.
use llm_file_gateway.Prelude.{
  ℕ, ◌≤◌, ◌<◌, ◌≡◌, refl, sym, ap, ◌∙◌, inl, inr, false, some, List, [], ◌∷◌, ◌==◌, ==→eq, arith,
  All, All-map, Bool-cases,
}
use llm_file_gateway.Prelude.Text.{String, ◌=ˢ◌, eq_iff, eq_refl}
use llm_file_gateway.Store.Rows.{IsKeyed}
use llm_file_gateway.Store.Gone.{IsGone}
use llm_file_gateway.Files.Locks.{Locks, begin_conversion, end_conversion}
use llm_file_gateway.Files.Threads.{
  World, Thread, Phase, cleanup, worker, looking_up, ending_conversion,
}
use llm_file_gateway.Files.Threads.Conversions.{works, IsRegistered, Fact, Clear, Respects, Guarded}
use llm_file_gateway.Files.Threads.Conversions.Facts.{Fact-kept, others_idle}

-- Nobody minds a thread that neither runs nor records a conversion.
abbrev pub IsIdle : Thread → Type 0
IsIdle t = (phase : Phase) (id : String) → Clear phase id t

idle-Respects : (t : Thread) → IsIdle t → (u : Thread) → Respects u t
idle-Respects t idle (cleanup origin row channel phase) = idle phase row.id
idle-Respects t idle _ = tt

pub everyone : (P : Thread → Type 0) → ((u : Thread) → P u) → (us : List Thread) → All P us
everyone P h [] = tt
everyone P h (u ∷ us) = (h u, everyone P h us)

pub unminded : (t : Thread) → IsIdle t → (us : List Thread) → All (λ u. Respects u t) us
unminded t idle us = everyone (λ u. Respects u t) (idle-Respects t idle) us

-- A move that leaves the conversions alone.
module _ (w w' : World) (t t' : Thread) (others : List Thread) (h : Guarded w t others) where
  pub moved :
      IsKeyed w'.table
      → ((id : String) → IsGone id w.table → IsGone id w'.table)
      → w'.locks.conversions ≡ w.locks.conversions
      → w'.locks.conversion_at ≡ w.locks.conversion_at
      → w.locks.next ≤ w'.locks.next
      → ((id : String) → works id t' ≤ works id t)
      → Fact w' t'
      → All (Respects t') others
      → All (λ u. Respects u t') others
      → Guarded w' t' others
  moved keyed gone convs states next fewer fact respects respected = record {
    keyed = keyed;
    bound = λ id a k. omega (arith, h.bound id a (sym (ap (λ m. m id) convs) ∙ k), next);
    separate = λ id other a j k.
        h.separate id other a (sym (ap (λ m. m id) convs) ∙ j) (sym (ap (λ m. m other) convs) ∙ k);
    alone = λ id. omega (arith, h.alone id, fewer id);
    fact = fact;
    facts =
        All-map (Fact w) (Fact w')
          (λ u. Fact-kept w w' gone u λ id a one (r : IsRegistered w.locks id a). (
            ap (λ m. m id) convs ∙ r.0,
            ap (λ s. (s a).active) states ∙ r.1,
            ap (λ s. (s a).done) states ∙ r.2,
          ))
          others h.facts;
    respects = respects;
    respected = respected;
  }

-- A move that registers, waits for or ends a conversion.
module _ (w : World) (locks : Locks) (t t' : Thread) (others : List Thread)
    (h : Guarded w t others) where
  pub moved_locks :
      ((id : String) (a : ℕ) → locks.conversions id ≡ some a → a < locks.next)
      → ((id other : String) (a : ℕ)
          → locks.conversions id ≡ some a
          → locks.conversions other ≡ some a
          → id ≡ other)
      → ((id : String) → works id t' ≤ works id t)
      → ((id : String) (a : ℕ)
          → (works id t ≡ 1 → ⊥)
          → IsRegistered w.locks id a
          → IsRegistered locks id a)
      → Fact (record w { locks = locks }) t'
      → All (Respects t') others
      → All (λ u. Respects u t') others
      → Guarded (record w { locks = locks }) t' others
  moved_locks bound separate fewer kept fact respects respected = record {
    keyed = h.keyed;
    bound = bound;
    separate = separate;
    alone = λ id. omega (arith, h.alone id, fewer id);
    fact = fact;
    facts =
        facts_of others h.facts (λ id one. others_idle id others (omega (arith, h.alone id, one)));
    respects = respects;
    respected = respected;
  }
    where
      facts_of :
          (us : List Thread)
          → All (Fact w) us
          → ((id : String) → works id t ≡ 1 → All (λ u. works id u ≡ 0) us)
          → All (Fact (record w { locks = locks })) us
      facts_of [] k idle = tt
      facts_of (u ∷ us) k idle = (
        Fact-kept w (record w { locks = locks }) (λ id gone. gone) u
            (λ id a one r. kept id a (λ mine. omega (arith, (idle id mine).0, one)) r) k.0,
        facts_of us k.1 (λ id mine. (idle id mine).1),
      )

differs : (id other : String) → (works other (worker id) ≡ 1 → ⊥) → (other =ˢ id) ≡ false
differs id other not_mine = elim (Bool-cases (id =ˢ other)) [
  | inl e ↦ absurd (not_mine (rw e refl))
  | inr e ↦ ground (arith, eq_iff id other, eq_iff other id, e)
]

module _ (w : World) (others : List Thread) where
  pub start_job-Guarded :
      (id : String)
      → Guarded w (worker id) others
      → Guarded
          (record w { locks = (begin_conversion id w.locks).1 })
          (looking_up id (begin_conversion id w.locks).0)
          others
  unfolding begin_conversion
  start_job-Guarded id h =
      moved_locks w _ (worker id) _ others h (λ other a k. ground (arith, h.bound other a, k))
        (λ one other a j k. ground (
          arith,
          h.separate one other a,
          h.bound one a,
          h.bound other a,
          eq_iff one id,
          eq_iff other id,
          j,
          k,
        ))
        (λ other. omega arith)
        (λ other a not_mine r. (
          ground (arith, differs id other not_mine, r.0),
          ground (arith, r.1, h.bound other a r.0),
          ground (arith, r.2, h.bound other a r.0),
        ))
        (ground (arith, eq_refl id), ground arith, ground arith) (everyone _ (λ u. tt) others)
        (unminded _ (λ phase i. tt) others)

  pub finish_job-Guarded :
      (id : String) (address : ℕ) (next : Thread)
      → IsIdle next
      → ((u : Thread) → Respects next u)
      → ((other : String) → works other next ≤ works other (ending_conversion id address))
      → Fact (record w { locks = end_conversion id address w.locks }) next
      → Guarded w (ending_conversion id address) others
      → Guarded (record w { locks = end_conversion id address w.locks }) next others
  unfolding end_conversion
  finish_job-Guarded id address next idle respects fewer fact h =
      moved_locks w _ (ending_conversion id address) next others h
        (λ other a k. ground (arith, h.bound other a, k))
        (λ one other a j k. ground (arith, h.separate one other a, j, k)) fewer
        (λ other a not_mine r. (
          ground (arith, differs id other not_mine, r.0),
          ground (arith, r.1, apart other a not_mine r.0),
          ground (arith, r.2, apart other a not_mine r.0),
        ))
        fact (everyone _ respects others) (unminded _ idle others)
    where
      apart :
          (other : String) (a : ℕ)
          → (works other (worker id) ≡ 1 → ⊥)
          → w.locks.conversions other ≡ some a
          → (a == address) ≡ false
      apart other a not_mine r = elim (Bool-cases (a == address)) [
        | inr e ↦ e
        | inl e ↦ absurd (
            not_mine (
              rw
                (
                  h.separate id other address h.fact.0 (r ∙ ap some (==→eq a address e)),
                  eq_refl other,
                )
                refl))
      ]
