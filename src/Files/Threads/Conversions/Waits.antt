-- ===== src/Files/Threads/Conversions/Waits.antt =====
-- The phases of a cleanup in internal/files/service.go, and what it may rely on after each of them.
use llm_file_gateway.Prelude.{
  ℕ, ==→eq, ◌≡◌, refl, ◌⊎◌, inl, inr, true, false, Option, none, some, List, arith, All, All-map,
  All-both, Bool-cases, Option-cases,
}
use llm_file_gateway.Prelude.Text.{String, ◌=ˢ◌, eq_iff}
use llm_file_gateway.Prelude.Map.{store}
use llm_file_gateway.Store.{File}
use llm_file_gateway.Store.Gone.{IsGone}
use llm_file_gateway.Files.Disk.{Bytes}
use llm_file_gateway.Files.Locks.{Locks, conversion_to_await}
use llm_file_gateway.Files.Threads.{
  World, Thread, Phase, Origin, cleanup, converting, recording, checking_conversion, checking_lease,
  ending, awaiting_conversion, step, step_cleanup,
}
use llm_file_gateway.Files.Threads.Conversions.{
  IsRegistered, KnowsGone, Fact, ClearFor, Clear, Guarded,
}
use llm_file_gateway.Files.Threads.Conversions.Moves.{everyone, unminded, moved, moved_locks}

-- A step leads to a guarded state, or is none.
abbrev pub Leads : List Thread → Option (Thread × World) → Type 0
Leads others none = Unit
Leads others (some (t', w')) = Guarded w' t' others

-- What the phase asks of one thread, from what is known of that thread.
pub by_conversion :
    (P : Thread → Type 0) (phase : Phase) (id : String)
    → ((row : File) (a : ℕ) → P (converting row a) → ClearFor phase id row a)
    → ((row : File) (a : ℕ) → P (recording row a) → ClearFor phase id row a)
    → (u : Thread) → P u
    → Clear phase id u
by_conversion P phase id c r (converting row a) h = c row a h
by_conversion P phase id c r (recording row a) h = r row a h
by_conversion P phase id c r _ h = tt

abbrev cancelled : ℕ → Locks → Locks
cancelled address locks = record locks {
  conversion_at =
      store locks.conversion_at address (record (locks.conversion_at address) { cancelled = true });
}

conversion_to_await-cases :
    (id : String) (locks : Locks)
    → ((conversion_to_await id locks ≡ none)
        × ((a : ℕ) → locks.conversions id ≡ some a → (locks.conversion_at a).active ≡ false))
      ⊎ ((a : ℕ) × (locks.conversions id ≡ some a)
          × (conversion_to_await id locks ≡ some (a, cancelled a locks)))
unfolding conversion_to_await
conversion_to_await-cases id locks = elim (Option-cases (locks.conversions id)) [
  | inl e ↦ inl (ground (arith, e), λ a k. absurd (cc (e, k)))
  | inr (a, e) ↦ elim (Bool-cases (locks.conversion_at a).active) [
    | inl k ↦ inr (a, e, ground (arith, e, k))
    | inr k ↦ inl (ground (arith, e, k), λ b j. ground (arith, e, j, k))
  ]
]

module _ (w : World) (others : List Thread) (origin : Origin) (row : File) (channel : ℕ) where
  abbrev pub at : Phase → Thread
  at phase = cleanup origin row channel phase

  -- The next phase in the same world.
  next_phase :
      (phase behind : Phase)
      → Guarded w (at phase) others
      → KnowsGone w.table row.id behind
      → All (λ u. Clear behind row.id u) others
      → Guarded w (at behind) others
  next_phase phase behind h knows clear =
      moved w w (at phase) (at behind) others h h.keyed (λ id gone. gone) refl refl (omega arith)
        (λ id. omega arith) (h.fact.0, h.fact.1, knows) clear
        (unminded (at behind) (λ p id. tt) others)

  -- The end of a cleanup asks for nothing.
  pub to_ending : (phase : Phase) → Guarded w (at phase) others → Guarded w (at ending) others
  to_ending phase h = next_phase phase ending h tt (
      everyone _ (λ u. by_conversion (λ v. Unit) ending row.id (λ r a k. tt) (λ r a k. tt) u tt)
        others)

  pub to_checking :
      (phase : Phase)
      → Guarded w (at phase) others
      → IsGone row.id w.table
      → Guarded w (at checking_conversion) others
  to_checking phase h gone = next_phase phase checking_conversion h gone (
      everyone _
        (λ u. by_conversion (λ v. Unit) checking_conversion row.id (λ r a k. tt) (λ r a k. tt) u tt)
        others)

  -- A registered conversion of the file is the one under its id.
  registered_is :
      (other : File) (a : ℕ) (value : Option ℕ)
      → w.locks.conversions row.id ≡ value
      → IsRegistered w.locks other.id a
      → (other.id =ˢ row.id) ≡ true
      → value ≡ some a
  registered_is other a value e r same = ground (arith, e, r.0, eq_iff other.id row.id)

  -- Nobody converts the file: what is under its id is not running.
  none_running :
      ((a : ℕ) → w.locks.conversions row.id ≡ some a → (w.locks.conversion_at a).active ≡ false)
      → (other : File) (a : ℕ) → IsRegistered w.locks other.id a
      → (other.id =ˢ row.id) ≡ false
  none_running still other a r = elim (Bool-cases (other.id =ˢ row.id)) [
    | inr e ↦ e
    | inl e ↦
        absurd (cc (r.1, still a (registered_is other a (w.locks.conversions row.id) refl r e)))
  ]

  -- Waiting for the running conversion of the file cancels it and keeps its registration.
  to_awaiting :
      (address : ℕ)
      → w.locks.conversions row.id ≡ some address
      → Guarded w (at checking_conversion) others
      → Guarded
          (record w { locks = cancelled address w.locks })
          (at (awaiting_conversion address))
          others
  to_awaiting address e h =
      moved_locks w _ (at checking_conversion) (at (awaiting_conversion address)) others h h.bound
        h.separate (λ id. omega arith)
        (λ id a k r.
          (r.0, ground (arith, r.1, ==→eq a address), ground (arith, r.2, ==→eq a address)))
        h.fact
        (All-map (Fact w) _
          (by_conversion (Fact w) (awaiting_conversion address) row.id
            (λ other a r k. the_one other a r k) (λ other a r k. the_one other a r k))
          others h.facts)
        (unminded _ (λ p id. tt) others)
    where
      the_one :
          (other : File) (a : ℕ)
          → IsRegistered w.locks other.id a
          → (other.id =ˢ row.id) ≡ true
          → a ≡ address
      the_one other a r k = ground (arith, registered_is other a (some address) e r k)

  pub checking_conversion-Leads :
      (outcome : Option Bytes)
      → Guarded w (at checking_conversion) others
      → Leads others (step outcome (at checking_conversion) w)
  unfolding step step_cleanup
  checking_conversion-Leads outcome h = elim (conversion_to_await-cases row.id w.locks) [
    | inl (e, still) ↦
        rw (Leads, e)
          (next_phase checking_conversion checking_lease h h.fact.2 (
            All-map (Fact w) _
              (by_conversion (Fact w) checking_lease row.id
                (λ other a r. none_running still other a r)
                (λ other a r. none_running still other a r))
              others h.facts))
    | inr (address, found, e) ↦ rw (Leads, e) (to_awaiting address found h)
  ]

  pub awaiting_conversion-Leads :
      (outcome : Option Bytes) (address : ℕ)
      → Guarded w (at (awaiting_conversion address)) others
      → Leads others (step outcome (at (awaiting_conversion address)) w)
  unfolding step step_cleanup
  awaiting_conversion-Leads outcome address h =
      elim (Bool-cases (w.locks.conversion_at address).done) [
        | inr e ↦ rw e tt
        | inl e ↦
            rw (Leads, e)
              (next_phase (awaiting_conversion address) checking_lease h h.fact.2 (
                All-map (λ u. Clear (awaiting_conversion address) row.id u × Fact w u) _
                  (by_conversion (λ u. Clear (awaiting_conversion address) row.id u × Fact w u)
                    checking_lease row.id (λ other a k. ended address e other a k.0 k.1)
                    (λ other a k. ended address e other a k.0 k.1))
                  others (All-both _ (Fact w) others h.respects h.facts)))
      ]
    where
      ended :
          (address : ℕ)
          → (w.locks.conversion_at address).done ≡ true
          → (other : File) (a : ℕ) → ((other.id =ˢ row.id) ≡ true → a ≡ address)
          → IsRegistered w.locks other.id a
          → (other.id =ˢ row.id) ≡ false
      ended address e other a only r = elim (Bool-cases (other.id =ˢ row.id)) [
        | inr k ↦ k
        | inl k ↦ absurd (cc (e, r.2, only k))
      ]
