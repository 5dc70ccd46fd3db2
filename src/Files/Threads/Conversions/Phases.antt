-- ===== src/Files/Threads/Conversions/Phases.antt =====
-- The other phases of a cleanup in internal/files/service.go: its mark, its wait for the readers, the
-- removal of the directory and of the row, and its end.
use llm_file_gateway.Prelude.{
  ℕ, ◌≤◌, ◌≡◌, refl, ap, inl, inr, Bool, true, false, Option, none, some, List, arith, All, All-map,
  Bool-cases, Option-cases, if◌then◌else◌,
}
use llm_file_gateway.Prelude.Text.{String}
use llm_file_gateway.Store
use llm_file_gateway.Store.{File, Table}
use llm_file_gateway.Store.Rows.{IsKeyed, delete-IsKeyed}
use llm_file_gateway.Store.Status.{mark_deleted-IsKeyed}
use llm_file_gateway.Store.Gone.{IsGone, mark_deleted-IsGone, delete-IsGone, marked-IsGone}
use llm_file_gateway.Files.Disk.{Bytes}
use llm_file_gateway.Files.Locks.{Locks, lease_to_await, end_deletion, holds}
use llm_file_gateway.Files.Threads.{
  World, Thread, Phase, Origin, cleanup, marking, handler, janitor, checking_conversion,
  checking_lease, removing, erasing, ending, awaiting_conversion, awaiting_lease, skips_mark,
  after_deletion, step, step_cleanup,
}
use llm_file_gateway.Files.Threads.Conversions.{
  works, KnowsGone, AreStale, SkipsRightly, Fact, ClearFor, Clear, Respects, Guarded,
}
use llm_file_gateway.Files.Threads.Conversions.Facts.{Fact-kept}
use llm_file_gateway.Files.Threads.Conversions.Moves.{everyone, unminded, moved}
use llm_file_gateway.Files.Threads.Conversions.Waits.{
  Leads, by_conversion, at, checking_conversion-Leads, awaiting_conversion-Leads,
}

skips_rightly :
    (table : Table) (origin : Origin) (row : File)
    → skips_mark origin row ≡ true
    → SkipsRightly table origin row
    → IsGone row.id table
unfolding skips_mark
skips_rightly table handler row e h = absurd (cc e)
skips_rightly table (janitor rows) row e h = h e

end_deletion-conversions :
    (id : String) (channel : ℕ) (locks : Locks)
    → ((end_deletion id channel locks).conversions ≡ locks.conversions)
      × ((end_deletion id channel locks).conversion_at ≡ locks.conversion_at)
      × ((end_deletion id channel locks).next ≡ locks.next)
unfolding end_deletion
end_deletion-conversions id channel locks = elim (Bool-cases (holds (locks.deleting id) channel)) [
  | inl e ↦ rw e (refl, refl, refl)
  | inr e ↦ rw e (refl, refl, refl)
]

module _ (w : World) (others : List Thread) (origin : Origin) (row : File) (channel : ℕ) where
  -- The next phase, in a world with the same locks.
  to_phase :
      (w' : World) (phase behind : Phase)
      → Guarded w (at w others origin row channel phase) others
      → IsKeyed w'.table
      → ((id : String) → IsGone id w.table → IsGone id w'.table)
      → w'.locks ≡ w.locks
      → KnowsGone w'.table row.id behind
      → All (λ u. Clear behind row.id u) others
      → Guarded w' (at w others origin row channel behind) others
  to_phase w' phase behind h keyed gone locks knows clear =
      moved w w' (at w others origin row channel phase) (at w others origin row channel behind)
        others h keyed gone (ap (λ (l : Locks). l.conversions) locks)
        (ap (λ (l : Locks). l.conversion_at) locks) (rw locks (omega arith)) (λ id. omega arith)
        (stays.0, stays.1, knows) clear
        (unminded (at w others origin row channel behind) (λ p id. tt) others)
    where
      stays : Fact w' (at w others origin row channel phase)
      stays =
          Fact-kept w w' gone (at w others origin row channel phase)
            (λ id a one. absurd (omega (arith, one))) h.fact

  carry :
      (phase behind : Phase)
      → ((other : File) (a : ℕ) → ClearFor phase row.id other a → ClearFor behind row.id other a)
      → All (Respects (at w others origin row channel phase)) others
      → All (λ u. Clear behind row.id u) others
  carry phase behind k =
      All-map (λ u. Clear phase row.id u) (λ u. Clear behind row.id u)
        (by_conversion (λ u. Clear phase row.id u) behind row.id k k) others

  -- An end asks for nothing, and a cleanup that begins its waits asks only that its file is gone.
  ends :
      (w' : World) (phase : Phase)
      → Guarded w (at w others origin row channel phase) others
      → IsKeyed w'.table
      → ((id : String) → IsGone id w.table → IsGone id w'.table)
      → w'.locks ≡ w.locks
      → Guarded w' (at w others origin row channel ending) others
  ends w' phase h keyed gone locks =
      to_phase w' phase ending h keyed gone locks tt (carry phase ending (λ r a k. tt) h.respects)

  marked_Guarded :
      (marked : Bool)
      → (Store.mark_deleted w.now row.id row.tenant_id w.table).0 ≡ marked
      → Guarded w (at w others origin row channel marking) others
      → Guarded
          (record w { table = (Store.mark_deleted w.now row.id row.tenant_id w.table).1 })
          (if marked
            then cleanup origin row channel checking_conversion
            else cleanup origin row channel ending)
          others
  marked_Guarded true e h =
      to_phase (record w { table = (Store.mark_deleted w.now row.id row.tenant_id w.table).1 })
        marking checking_conversion h
        (mark_deleted-IsKeyed w.now row.id row.tenant_id w.table h.keyed)
        (λ id. mark_deleted-IsGone id w.now row.id row.tenant_id w.table) refl
        (marked-IsGone row.id w.now row.tenant_id w.table h.keyed e)
        (carry marking checking_conversion (λ r a k. tt) h.respects)
  marked_Guarded false e h =
      ends (record w { table = (Store.mark_deleted w.now row.id row.tenant_id w.table).1 }) marking
        h (mark_deleted-IsKeyed w.now row.id row.tenant_id w.table h.keyed)
        (λ id. mark_deleted-IsGone id w.now row.id row.tenant_id w.table) refl

  marking-Leads :
      (outcome : Option Bytes) (skips : Bool)
      → skips_mark origin row ≡ skips
      → Guarded w (at w others origin row channel marking) others
      → Leads others (step outcome (at w others origin row channel marking) w)
  unfolding step step_cleanup
  marking-Leads outcome true e h =
      rw (Leads, e)
        (to_phase w marking checking_conversion h h.keyed (λ id k. k) refl
          (skips_rightly w.table origin row e h.fact.1)
          (carry marking checking_conversion (λ r a k. tt) h.respects))
  marking-Leads none false e h = rw (Leads, e) (ends w marking h h.keyed (λ id k. k) refl)
  marking-Leads (some content) false e h = rw (Leads, e) (marked_Guarded _ refl h)

  ending_Guarded :
      (locks : Locks)
      → locks.conversions ≡ w.locks.conversions
      → locks.conversion_at ≡ w.locks.conversion_at
      → locks.next ≡ w.locks.next
      → Guarded w (at w others origin row channel ending) others
      → Guarded (record w { locks = locks }) (after_deletion origin) others
  unfolding after_deletion
  ending_Guarded locks e k n h =
      moved w (record w { locks = locks }) (at w others origin row channel ending)
        (after_deletion origin) others h h.keyed (λ id gone. gone) e k (omega (arith, n))
        (ended_works origin) (ended_fact origin h.fact.0)
        (everyone _ (ended_Respects origin) others)
        (unminded (after_deletion origin) (ended_idle origin) others)
    where
      ended_works : (o : Origin) (id : String) → works id (after_deletion o) ≤ 0
      ended_works handler id = omega arith
      ended_works (janitor rows) id = omega arith

      ended_fact :
          (o : Origin) → AreStale w.table o → Fact (record w { locks = locks }) (after_deletion o)
      ended_fact handler h = tt
      ended_fact (janitor rows) h = h

      ended_Respects : (o : Origin) (u : Thread) → Respects (after_deletion o) u
      ended_Respects handler u = tt
      ended_Respects (janitor rows) u = tt

      ended_idle : (o : Origin) (phase : Phase) (id : String) → Clear phase id (after_deletion o)
      ended_idle handler phase id = tt
      ended_idle (janitor rows) phase id = tt

  pub cleanup-Leads :
      (outcome : Option Bytes) (phase : Phase)
      → Guarded w (at w others origin row channel phase) others
      → Leads others (step outcome (at w others origin row channel phase) w)
  unfolding step step_cleanup
  cleanup-Leads outcome marking h = marking-Leads outcome (skips_mark origin row) refl h
  cleanup-Leads outcome checking_conversion h =
      checking_conversion-Leads w others origin row channel outcome h
  cleanup-Leads outcome (awaiting_conversion a) h =
      awaiting_conversion-Leads w others origin row channel outcome a h
  cleanup-Leads outcome checking_lease h = elim (Option-cases (lease_to_await row.id w.locks)) [
    | inl e ↦
        rw (Leads, e)
          (to_phase w checking_lease removing h h.keyed (λ id k. k) refl h.fact.2
            (carry checking_lease removing (λ r a k. k) h.respects))
    | inr (a, e) ↦
        rw (Leads, e)
          (to_phase w checking_lease (awaiting_lease a) h h.keyed (λ id k. k) refl h.fact.2
            (carry checking_lease (awaiting_lease a) (λ r a k. k) h.respects))
  ]
  cleanup-Leads outcome (awaiting_lease a) h = elim (Bool-cases (w.locks.lease_at a).closed) [
    | inl e ↦
        rw (Leads, e)
          (to_phase w (awaiting_lease a) removing h h.keyed (λ id k. k) refl h.fact.2
            (carry (awaiting_lease a) removing (λ r a k. k) h.respects))
    | inr e ↦ rw (Leads, e) tt
  ]
  cleanup-Leads none removing h = ends w removing h h.keyed (λ id k. k) refl
  cleanup-Leads (some content) removing h =
      to_phase _ removing erasing h h.keyed (λ id k. k) refl h.fact.2
        (carry removing erasing (λ r a k. k) h.respects)
  cleanup-Leads none erasing h = ends w erasing h h.keyed (λ id k. k) refl
  cleanup-Leads (some content) erasing h =
      ends _ erasing h (delete-IsKeyed row.id row.tenant_id w.table h.keyed)
        (λ id. delete-IsGone id row.id row.tenant_id w.table) refl
  cleanup-Leads outcome ending h =
      ending_Guarded (end_deletion row.id channel w.locks) kept.0 kept.1 kept.2 h
    where
      kept :
          ((end_deletion row.id channel w.locks).conversions ≡ w.locks.conversions)
          × ((end_deletion row.id channel w.locks).conversion_at ≡ w.locks.conversion_at)
          × ((end_deletion row.id channel w.locks).next ≡ w.locks.next)
      kept = end_deletion-conversions row.id channel w.locks
