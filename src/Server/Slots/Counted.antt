-- ===== src/Server/Slots/Counted.antt =====
-- The tokens of internal/server/server.go are the requests that have not given theirs back.
use llm_file_gateway.Prelude.{
  ℕ, zero, suc, ◌+◌, ◌≤◌, ◌<◌, ◌≡◌, refl, sym, ap, subst, inl, inr, ◌∙◌, Bool, true, false, All,
  All-append, not, ◌&&◌, List, [], ◌∷◌, ◌++◌, arith, ltb, leb, Bool-cases, if◌then◌else◌,
}
use llm_file_gateway.Server.Slots.{
  SlotResponseWriter, admitted, Slots, Event, arrive, write_header, write, finish, release,
  set_wrote_header, has_written, release_slot, on_header, step, free, run,
}

-- What the requests have done, by the order of their admission: a request is pending until its final header or a part
-- of its body is written, or its handler returns. A request arrives in vain if as many as allowed are pending.
pub record History : Type 0 where
  pub pending : List Bool
  pub turned_away : ℕ

abbrev pub count_pending : List Bool → ℕ
count_pending [] = 0
count_pending (is_pending ∷ rest) = (if is_pending then 1 else 0) + count_pending rest

abbrev pub close : ℕ → List Bool → List Bool
close n [] = []
close zero (is_pending ∷ rest) = false ∷ rest
close (suc n) (is_pending ∷ rest) = is_pending ∷ close n rest

abbrev pub follow : ℕ → Event → History → History
follow limit arrive h =
    if leb limit (count_pending h.pending)
    then record h { turned_away = h.turned_away + 1 }
    else record h { pending = h.pending ++ true ∷ [] }
follow limit (write_header n status) h =
    if leb 200 status then record h { pending = close n h.pending } else h
follow limit (write n) h = record h { pending = close n h.pending }
follow limit (finish n) h = record h { pending = close n h.pending }

abbrev pub history : ℕ → List Event → History → History
history limit [] h = h
history limit (event ∷ events) h = history limit events (follow limit event h)

abbrev pub no_requests : History
no_requests = record { pending = []; turned_away = 0 }

-- The writers whose token is still in the channel.
abbrev unreleased : List SlotResponseWriter → List Bool
unreleased [] = []
unreleased (writer ∷ writers) = not writer.released ∷ unreleased writers

-- A writer that has written its header has released.
abbrev AreDone : List SlotResponseWriter → Type 0
AreDone = All λ writer. writer.wrote_header ≡ true → writer.released ≡ true

unreleased-append :
    (writers more : List SlotResponseWriter)
    → unreleased (writers ++ more) ≡ unreleased writers ++ unreleased more
unreleased-append [] more = refl
unreleased-append (writer ∷ writers) more =
    ap (◌∷◌ (not writer.released)) (unreleased-append writers more)

count_pending-append :
    (xs ys : List Bool) → count_pending (xs ++ ys) ≡ count_pending xs + count_pending ys
count_pending-append [] ys = omega arith
count_pending-append (x ∷ xs) ys = omega (arith, count_pending-append xs ys)

-- One release of a token.
release-unreleased :
    (n used : ℕ) (writers : List SlotResponseWriter)
    → unreleased (release n used writers).1 ≡ close n (unreleased writers)
release-unreleased n used [] = refl
release-unreleased zero used (writer ∷ writers) = elim (Bool-cases writer.released) [
  | inl e ↦ rw e refl
  | inr e ↦ rw e refl
]
release-unreleased (suc n) used (writer ∷ writers) =
    ap (◌∷◌ (not writer.released)) (release-unreleased n used writers)

release-used :
    (n used others : ℕ) (writers : List SlotResponseWriter)
    → used ≡ others + count_pending (unreleased writers)
    → (release n used writers).0 ≡ others + count_pending (close n (unreleased writers))
release-used n used others [] h = h
release-used zero used others (writer ∷ writers) h = ground (arith, h)
release-used (suc n) used others (writer ∷ writers) h = omega (
  arith,
  release-used n used (others + (if not writer.released then 1 else 0)) writers (omega (arith, h)),
)

release-AreDone :
    (n used : ℕ) (writers : List SlotResponseWriter)
    → AreDone writers
    → AreDone (release n used writers).1
release-AreDone n used [] h = tt
release-AreDone zero used (writer ∷ writers) h = elim (Bool-cases writer.released) [
  | inl e ↦ rw e ((λ k. refl), h.1)
  | inr e ↦ rw e ((λ k. refl), h.1)
]
release-AreDone (suc n) used (writer ∷ writers) h = (h.0, release-AreDone n used writers h.1)

-- The header and the release belong together.
header-AreDone :
    (n used : ℕ) (writers : List SlotResponseWriter)
    → AreDone writers
    → AreDone (release n used (set_wrote_header n writers)).1
header-AreDone n used [] h = tt
header-AreDone zero used (writer ∷ writers) h = elim (Bool-cases writer.released) [
  | inl e ↦ rw e ((λ k. refl), h.1)
  | inr e ↦ rw e ((λ k. refl), h.1)
]
header-AreDone (suc n) used (writer ∷ writers) h = (h.0, header-AreDone n used writers h.1)

unreleased-set_wrote_header :
    (n : ℕ) (writers : List SlotResponseWriter)
    → unreleased (set_wrote_header n writers) ≡ unreleased writers
unreleased-set_wrote_header n [] = refl
unreleased-set_wrote_header zero (writer ∷ writers) = refl
unreleased-set_wrote_header (suc n) (writer ∷ writers) =
    ap (◌∷◌ (not writer.released)) (unreleased-set_wrote_header n writers)

close-count : (n : ℕ) (xs : List Bool) → count_pending (close n xs) ≤ count_pending xs
close-count n [] = omega arith
close-count zero (x ∷ xs) = ground arith
close-count (suc n) (x ∷ xs) = omega (arith, close-count n xs)

-- What has written is closed already.
close-written :
    (n : ℕ) (writers : List SlotResponseWriter)
    → AreDone writers
    → has_written n writers ≡ true
    → close n (unreleased writers) ≡ unreleased writers
close-written n [] h k = absurd (cc k)
close-written zero (writer ∷ writers) h k = rw (h.0 k) refl
close-written (suc n) (writer ∷ writers) h k =
    ap (◌∷◌ (not writer.released)) (close-written n writers h.1 k)

-- The channel and the writers agree with the history.
record Agrees (limit : ℕ) (h : History) (slots : Slots) : Type 0 where
  used : slots.used ≡ count_pending h.pending
  within : slots.used ≤ limit
  pending : unreleased slots.writers ≡ h.pending
  refused : slots.refused ≡ h.turned_away
  done : AreDone slots.writers

module _ (limit : ℕ) (positive : 0 < limit) where
  release-Agrees :
      (n : ℕ) (h : History) (slots : Slots)
      → Agrees limit h slots
      → (writers : List SlotResponseWriter) → unreleased writers ≡ unreleased slots.writers
      → AreDone (release n slots.used writers).1
      → Agrees limit
          (record h { pending = close n h.pending })
          (release_slot n (record slots { writers = writers }))
  release-Agrees n h slots a writers same done =
      let kept : unreleased writers ≡ h.pending = same ∙ a.pending in
      let before : slots.used ≡ count_pending (unreleased writers) =
        a.used ∙ ap count_pending (sym kept) in
      let released : (release n slots.used writers).0
          ≡ 0 + count_pending (close n (unreleased writers)) =
        release-used n slots.used 0 writers (omega (arith, before)) in
      let used : (release n slots.used writers).0 ≡ count_pending (close n h.pending) =
        omega (arith, released, ap (λ p. count_pending (close n p)) kept) in
      record {
        used = used;
        within = omega (arith, used, close-count n h.pending, a.used, a.within);
        pending = release-unreleased n slots.used writers ∙ ap (close n) kept;
        refused = a.refused;
        done = done;
      }

  header-Agrees :
      (n : ℕ) (h : History) (slots : Slots)
      → Agrees limit h slots
      → Agrees limit
          (record h { pending = close n h.pending })
          (release_slot n (record slots { writers = set_wrote_header n slots.writers }))
  header-Agrees n h slots a =
      release-Agrees n h slots a (set_wrote_header n slots.writers)
        (unreleased-set_wrote_header n slots.writers)
        (header-AreDone n slots.used slots.writers a.done)

  step-Agrees :
      (event : Event) (h : History) (slots : Slots)
      → Agrees limit h slots
      → Agrees limit (follow limit event h) (step limit event slots)
  unfolding step on_header
  step-Agrees arrive h slots a = elim (Bool-cases (leb limit (count_pending h.pending))) [
    | inl e ↦
        rw (e, full true e)
          (record {
            used = a.used;
            within = a.within;
            pending = a.pending;
            refused = ap (λ n. n + 1) a.refused;
            done = a.done;
          })
    | inr e ↦
        rw (e, full false e)
          (record {
            used = omega (arith, a.used, count_pending-append h.pending (true ∷ []));
            within = ground (arith, e, a.used);
            pending =
                unreleased-append slots.writers (admitted ∷ [])
                ∙ ap (λ p. p ++ true ∷ []) a.pending;
            refused = a.refused;
            done =
                All-append (λ writer. writer.wrote_header ≡ true → writer.released ≡ true)
                  slots.writers (admitted ∷ []) a.done ((λ k. absurd (cc k)), tt);
          })
  ]
    where
      full :
          (b : Bool)
          → leb limit (count_pending h.pending) ≡ b
          → (ltb 0 limit && not (ltb slots.used limit)) ≡ b
      full b e = ground (arith, e, a.used, positive)
  step-Agrees (write_header n status) h slots a = elim (Bool-cases (leb 200 status)) [
    | inl e ↦ rw e (header-Agrees n h slots a)
    | inr e ↦ rw e a
  ]
  step-Agrees (write n) h slots a = elim (Bool-cases (has_written n slots.writers)) [
    | inl e ↦ rw e (
        subst (λ p. Agrees limit (record h { pending = p }) slots)
          (sym (ap (close n) (sym a.pending) ∙ close-written n slots.writers a.done e ∙ a.pending))
          a)
    | inr e ↦ rw e (header-Agrees n h slots a)
  ]
  step-Agrees (finish n) h slots a =
      release-Agrees n h slots a slots.writers refl
        (release-AreDone n slots.used slots.writers a.done)

  run-Agrees :
      (events : List Event) (h : History) (slots : Slots)
      → Agrees limit h slots
      → Agrees limit (history limit events h) (run limit events slots)
  unfolding run
  run-Agrees [] h slots a = a
  run-Agrees (event ∷ events) h slots a =
      run-Agrees events (follow limit event h) (step limit event slots)
        (step-Agrees event h slots a)

  -- With a positive limit, whatever the requests do and in whatever order: the number of tokens in the channel is
  -- that of the admitted requests for which neither a final header nor a part of the body has been written and
  -- whose handler has not returned. It never exceeds the limit, and the requests that are turned away are those
  -- that arrive while as many as allowed are in this state. So no token is lost, and none is given back twice.
  pub slots_counted :
      (events : List Event)
      → let slots : Slots = run limit events free in
        let past : History = history limit events no_requests in
        (slots.used ≡ count_pending past.pending)
        × (slots.used ≤ limit)
        × (slots.refused ≡ past.turned_away)
  slots_counted events =
      let a =
        run-Agrees events no_requests free (record {
          used = refl;
          within = omega arith;
          pending = refl;
          refused = refl;
          done = tt;
        }) in
      (a.used, a.within, a.refused)
