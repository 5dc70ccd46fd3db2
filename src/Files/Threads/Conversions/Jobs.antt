-- ===== src/Files/Threads/Conversions/Jobs.antt =====
-- The steps of a worker of internal/files/service.go: the lookup of its job, the updates of the status and
-- the run of the converter.
use llm_file_gateway.Prelude.{
  ℕ, ◌≤◌, ◌≡◌, refl, sym, inl, inr, Bool, true, false, subst, Option, none, some, List, [], ◌∷◌,
  arith, All-map, is_some, Bool-cases, Option-cases, if◌then◌else◌,
}
use llm_file_gateway.Prelude.Text.{String, ◌=ˢ◌, eq_iff}
use llm_file_gateway.Store
use llm_file_gateway.Store.{File, Table, get_internal}
use llm_file_gateway.Store.Status.{update_status-IsKeyed}
use llm_file_gateway.Store.Gone.{IsGone, update_status-IsGone, update_status_refused}
use llm_file_gateway.Files.Disk.{Bytes}
use llm_file_gateway.Files.Locks.{Locks}
use llm_file_gateway.Files.Threads.{
  World, Thread, cleanup, looking_up, starting, converting, recording, ending_conversion, dropping,
  finished, marking, checking_conversion, checking_lease, removing, erasing, ending,
  awaiting_conversion, awaiting_lease, step,
}
use llm_file_gateway.Files.Threads.Conversions.{works, IsRegistered, Fact, Respects, Guarded}
use llm_file_gateway.Files.Threads.Conversions.Moves.{IsIdle, everyone, unminded, moved}
use llm_file_gateway.Files.Threads.Conversions.Waits.{Leads}

-- The leases and the claims leave the conversions alone.
abbrev pub SameConversions : Locks → Locks → Type 0
SameConversions locks locks' =
    (locks'.conversions ≡ locks.conversions)
    × (locks'.conversion_at ≡ locks.conversion_at)
    × (locks.next ≤ locks'.next)

get_internal-id :
    (id : String) (table : Table) (row : File)
    → Store.get_internal id table ≡ some row
    → row.id ≡ id
unfolding get_internal
get_internal-id id [] row e = absurd (cc e)
get_internal-id id (first ∷ rows) row e = elim (Bool-cases (first.id =ˢ id)) [
  | inl k ↦ ground (arith, e, k, eq_iff first.id id)
  | inr k ↦ get_internal-id id rows row (ground (arith, e, k))
]

module _ (w : World) (others : List Thread) where
  -- A move to a thread that minds nobody and that nobody minds.
  pub plain :
      (t t' : Thread) (locks : Locks)
      → SameConversions w.locks locks
      → IsIdle t'
      → ((u : Thread) → Respects t' u)
      → ((id : String) → works id t' ≤ works id t)
      → Fact (record w { locks = locks }) t'
      → Guarded w t others
      → Guarded (record w { locks = locks }) t' others
  plain t t' locks same idle respects fewer fact h =
      moved w (record w { locks = locks }) t t' others h h.keyed (λ id k. k) same.0 same.1 same.2
        fewer fact (everyone (Respects t') respects others) (unminded t' idle others)

  pub same : SameConversions w.locks w.locks
  same = (refl, refl, omega arith)

  pub to_finished : (t : Thread) → Guarded w t others → Guarded w finished others
  to_finished t h = plain t finished w.locks same (λ p i. tt) (λ u. tt) (λ id. omega arith) tt h

  to_end :
      (t : Thread) (id : String) (address : ℕ)
      → ((i : String) → works i (ending_conversion id address) ≤ works i t)
      → IsRegistered w.locks id address
      → Guarded w t others
      → Guarded w (ending_conversion id address) others
  to_end t id address fewer r h =
      plain t (ending_conversion id address) w.locks same (λ p i. tt) (λ u. tt) fewer r h

  -- The last row of `convert`'s lookup is registered still.
  pub looking_up-Leads :
      (outcome : Option Bytes) (id : String) (address : ℕ)
      → Guarded w (looking_up id address) others
      → Leads others (step outcome (looking_up id address) w)
  unfolding step
  looking_up-Leads none id address h =
      to_end (looking_up id address) id address (λ i. omega arith) h.fact h
  looking_up-Leads (some content) id address h =
      elim (Option-cases (Store.get_internal id w.table)) [
        | inl e ↦
            rw (Leads, e) (to_end (looking_up id address) id address (λ i. omega arith) h.fact h)
        | inr (row, e) ↦ elim (Bool-cases (is_some row.deleted_at)) [
          | inl k ↦
              rw (Leads, e, k)
                (to_end (looking_up id address) id address (λ i. omega arith) h.fact h)
          | inr k ↦ rw (Leads, e, k) (to_starting row (get_internal-id id w.table row e))
        ]
      ]
    where
      to_starting : (row : File) → row.id ≡ id → Guarded w (starting row address) others
      to_starting row e =
          plain (looking_up id address) (starting row address) w.locks same (λ p i. tt) (λ u. tt)
            (λ i. rw e (omega arith)) (rw e h.fact) h

  -- A cleanup past its mark knows that its file is gone, and so minds no conversion that starts.
  another :
      (row other : File)
      → (IsGone row.id w.table → ⊥)
      → IsGone other.id w.table
      → (row.id =ˢ other.id) ≡ false
  another row other there gone = elim (Bool-cases (row.id =ˢ other.id)) [
    | inl e ↦
        absurd (there (subst (λ id. IsGone id w.table) (sym ((eq_iff row.id other.id).0 e)) gone))
    | inr e ↦ e
  ]

  starts_unminded :
      (row : File) (address : ℕ)
      → (IsGone row.id w.table → ⊥)
      → (u : Thread) → Fact w u
      → Respects u (converting row address)
  starts_unminded row address there (cleanup origin other channel marking) f = tt
  starts_unminded row address there (cleanup origin other channel ending) f = tt
  starts_unminded row address there (cleanup origin other channel checking_conversion) f = tt
  starts_unminded row address there (cleanup origin other channel (awaiting_conversion a)) f =
      λ e. absurd (cc (e, another row other there f.2))
  starts_unminded row address there (cleanup origin other channel checking_lease) f =
      another row other there f.2
  starts_unminded row address there (cleanup origin other channel (awaiting_lease a)) f =
      another row other there f.2
  starts_unminded row address there (cleanup origin other channel removing) f =
      another row other there f.2
  starts_unminded row address there (cleanup origin other channel erasing) f =
      another row other there f.2
  starts_unminded row address there _ f = tt

  updated_Guarded :
      (row : File) (address : ℕ) (updated : Bool)
      → (Store.update_status row.id "processing" [] "" w.table).0 ≡ updated
      → Guarded w (starting row address) others
      → Guarded
          (record w { table = (Store.update_status row.id "processing" [] "" w.table).1 })
          (if updated then converting row address else ending_conversion row.id address)
          others
  updated_Guarded row address true e h =
      moved w _ (starting row address) (converting row address) others h
        (update_status-IsKeyed "processing" [] "" row.id w.table h.keyed)
        (λ id. update_status-IsGone id row.id "processing" [] "" w.table) refl refl (omega arith)
        (λ id. omega arith) h.fact (everyone (Respects (converting row address)) (λ u. tt) others)
        (All-map (Fact w) (λ u. Respects u (converting row address))
          (starts_unminded row address there) others h.facts)
    where
      there : IsGone row.id w.table → ⊥
      there gone = absurd (cc (e, update_status_refused row.id "processing" [] "" w.table gone))
  updated_Guarded row address false e h =
      moved w _ (starting row address) (ending_conversion row.id address) others h
        (update_status-IsKeyed "processing" [] "" row.id w.table h.keyed)
        (λ id. update_status-IsGone id row.id "processing" [] "" w.table) refl refl (omega arith)
        (λ id. omega arith) h.fact
        (everyone (Respects (ending_conversion row.id address)) (λ u. tt) others)
        (unminded (ending_conversion row.id address) (λ p i. tt) others)

  pub starting-Leads :
      (outcome : Option Bytes) (row : File) (address : ℕ)
      → Guarded w (starting row address) others
      → Leads others (step outcome (starting row address) w)
  unfolding step
  starting-Leads none row address h =
      to_end (starting row address) row.id address (λ i. omega arith) h.fact h
  starting-Leads (some content) row address h = updated_Guarded row address _ refl h

  -- A thread that recorded or failed is minded no more.
  minds_recording :
      (row : File) (a : ℕ) (u : Thread)
      → Respects u (converting row a)
      → Respects u (recording row a)
  minds_recording row a (cleanup origin other channel phase) r = r
  minds_recording row a _ r = tt

  pub converting-Leads :
      (outcome : Option Bytes) (row : File) (address : ℕ)
      → Guarded w (converting row address) others
      → Leads others (step outcome (converting row address) w)
  unfolding step
  converting-Leads none row address h =
      to_end (converting row address) row.id address (λ i. omega arith) h.fact h
  converting-Leads (some content) row address h =
      moved w _ (converting row address) (recording row address) others h h.keyed (λ id k. k) refl
        refl (omega arith) (λ id. omega arith) h.fact
        (everyone (Respects (recording row address)) (λ u. tt) others)
        (All-map (λ u. Respects u (converting row address))
          (λ u. Respects u (recording row address)) (minds_recording row address) others
          h.respected)

  pub recording-Leads :
      (outcome : Option Bytes) (row : File) (address : ℕ)
      → Guarded w (recording row address) others
      → Leads others (step outcome (recording row address) w)
  unfolding step
  recording-Leads none row address h =
      to_end (recording row address) row.id address (λ i. omega arith) h.fact h
  recording-Leads (some content) row address h =
      moved w _ (recording row address) (ending_conversion row.id address) others h
        (update_status-IsKeyed "processed" _ "" row.id w.table h.keyed)
        (λ id. update_status-IsGone id row.id "processed" _ "" w.table) refl refl (omega arith)
        (λ id. omega arith) h.fact
        (everyone (Respects (ending_conversion row.id address)) (λ u. tt) others)
        (unminded (ending_conversion row.id address) (λ p i. tt) others)

  -- `markFailed` of a dropped job.
  pub failing-Guarded :
      (id : String)
      → Guarded w (dropping id) others
      → Guarded
          (record w { table = (Store.update_status id "failed" [] "" w.table).1 })
          finished
          others
  failing-Guarded id h =
      moved w _ (dropping id) finished others h
        (update_status-IsKeyed "failed" [] "" id w.table h.keyed)
        (λ other. update_status-IsGone other id "failed" [] "" w.table) refl refl (omega arith)
        (λ other. omega arith) tt (everyone (Respects finished) (λ u. tt) others)
        (unminded finished (λ p i. tt) others)
