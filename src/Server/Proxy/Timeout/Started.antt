-- ===== src/Server/Proxy/Timeout/Started.antt =====
-- What the timeout of a request can end (internal/server/proxy.go, `responseContext`).
use llm_file_gateway.Prelude.{
  ◌≡◌, refl, sym, subst, ap, ◌∙◌, Bool, true, false, not, ◌&&◌, ◌||◌, List, [], ◌∷◌, arith,
  Bool-cases, inl, inr,
}
use llm_file_gateway.ApiError.{Ended, deadline_passed, client_gone}
use llm_file_gateway.Server.Proxy.Timeout.{
  Stage, waiting, stopped, started, refused, finished, Contexts, Event, leave, expire, fire, stop,
  check, cleanup, is_running, call_ended, end_request, check_request, on_stop, on_check, step, run,
}

-- What holds at each place of the handler, by whether the request's context runs, and by the client, `armed`,
-- `firing`, `canceled` and `limited`.
abbrev holds : Stage → Bool → Bool → Bool → Bool → Bool → Bool → Bool
holds waiting true g a f c l = not g && (a && (not f && not c))
holds waiting false g a f c l = not a && (f || c)
holds stopped true g a f c l = not g && (not a && (not f && not c))
holds stopped false g a f c l = not a
holds started true g a f c l = not g && (not a && (not f && (not c && not l)))
holds started false g a f c l = not a && (not f && (not c && not l))
holds refused true g a f c l = false
holds refused false g a f c l = not a
holds finished r g a f c l = c && not a

abbrev AllHold : Contexts → Type 0
AllHold s = holds s.stage (is_running s.request) s.gone s.armed s.firing s.canceled s.limited ≡ true

ends :
    (stage : Stage) (g h a f c l : Bool)
    → holds stage true g a f c l ≡ true
    → holds stage false h false a c l ≡ true
ends waiting g h a f c l k = ground (arith, k)
ends stopped g h a f c l k = ground (arith, k)
ends started g h a f c l k = ground (arith, k)
ends refused g h a f c l k = ground (arith, k)
ends finished g h a f c l k = ground (arith, k)

goes :
    (stage : Stage) (g a f c l : Bool)
    → holds stage false g a f c l ≡ true
    → holds stage false true a f c l ≡ true
goes waiting g a f c l k = k
goes stopped g a f c l k = k
goes started g a f c l k = k
goes refused g a f c l k = k
goes finished g a f c l k = k

fires :
    (stage : Stage) (r g a c l : Bool)
    → holds stage r g a true c l ≡ true
    → holds stage r g a false true l ≡ true
fires waiting true g a c l k = ground (arith, k)
fires waiting false g a c l k = ground (arith, k)
fires stopped true g a c l k = ground (arith, k)
fires stopped false g a c l k = ground (arith, k)
fires started true g a c l k = ground (arith, k)
fires started false g a c l k = ground (arith, k)
fires refused true g a c l k = ground (arith, k)
fires refused false g a c l k = ground (arith, k)
fires finished r g a c l k = ground (arith, k)

stops :
    (r g a f c l : Bool) → holds waiting r g a f c l ≡ true → holds stopped r g false f c l ≡ true
stops true g a f c l k = ground (arith, k)
stops false g a f c l k = refl

on_stop-AllHold :
    (stage : Stage) (s : Contexts) → s.stage ≡ stage → AllHold s → AllHold (on_stop stage s)
on_stop-AllHold waiting s e h =
    stops (is_running s.request) s.gone s.armed s.firing s.canceled s.limited (rw⁻¹ e h)
on_stop-AllHold stopped s e h = h
on_stop-AllHold started s e h = h
on_stop-AllHold refused s e h = h
on_stop-AllHold finished s e h = h

checks :
    (s : Contexts)
    → holds stopped (is_running s.request) s.gone s.armed s.firing s.canceled s.limited ≡ true
    → AllHold (check_request s)
checks s h = elim (Bool-cases (is_running s.request)) [
  | inl r ↦ rw r (ground (arith, h, r))
  | inr r ↦ rw r (ground (arith, h, r))
]

on_check-AllHold :
    (stage : Stage) (s : Contexts) → s.stage ≡ stage → AllHold s → AllHold (on_check stage s)
on_check-AllHold stopped s e h = checks s (rw⁻¹ e h)
on_check-AllHold waiting s e h = h
on_check-AllHold started s e h = h
on_check-AllHold refused s e h = h
on_check-AllHold finished s e h = h

holds-running :
    (s : Contexts) (r : Bool)
    → is_running s.request ≡ r
    → AllHold s
    → holds s.stage r s.gone s.armed s.firing s.canceled s.limited ≡ true
holds-running s r e h =
    subst (λ b. holds s.stage b s.gone s.armed s.firing s.canceled s.limited ≡ true) e h

end_request-AllHold :
    (cause : Ended) (g : Bool) (s : Contexts)
    → is_running cause ≡ false
    → AllHold s
    → is_running s.request ≡ true
    → AllHold (end_request cause (record s { gone = g }))
unfolding end_request
end_request-AllHold cause g s c h r =
    rw (r, c)
      (ends s.stage s.gone g s.armed s.firing s.canceled s.limited (holds-running s true r h))

step-AllHold :
    (timeout : Bool) (event : Event) (s : Contexts) → AllHold s → AllHold (step timeout event s)
unfolding step end_request
step-AllHold timeout leave s h = elim (Bool-cases (is_running s.request)) [
  | inl r ↦ end_request-AllHold client_gone true s refl h r
  | inr r ↦ rw r (
      subst (λ b. holds s.stage b true s.armed s.firing s.canceled s.limited ≡ true) (sym r)
        (goes s.stage s.gone s.armed s.firing s.canceled s.limited (holds-running s false r h)))
]
step-AllHold true expire s h = elim (Bool-cases (is_running s.request)) [
  | inl r ↦ end_request-AllHold deadline_passed s.gone s refl h r
  | inr r ↦ rw r h
]
step-AllHold false expire s h = h
step-AllHold timeout fire s h = elim (Bool-cases s.firing) [
  | inl f ↦ rw f (
      fires s.stage (is_running s.request) s.gone s.armed s.canceled s.limited (
        subst
          (λ b. holds s.stage (is_running s.request) s.gone s.armed b s.canceled s.limited ≡ true) f
          h))
  | inr f ↦ rw f (
      subst (λ b. holds s.stage (is_running s.request) s.gone s.armed b s.canceled s.limited ≡ true)
        f h)
]
step-AllHold timeout stop s h = on_stop-AllHold s.stage s refl h
step-AllHold timeout check s h = on_check-AllHold s.stage s refl h
step-AllHold timeout cleanup s h = refl

run-AllHold : (timeout : Bool) (events : List Event) → AllHold (run timeout events)
unfolding run
run-AllHold timeout [] = refl
run-AllHold timeout (event ∷ events) =
    step-AllHold timeout event (run timeout events) (run-AllHold timeout events)

-- What a handler's place says of its contexts.
abbrev pub IsSound : Bool → Contexts → Type 0
IsSound timeout s =
    (s.stage ≡ started
      → (call_ended s ≡ s.gone) × (s.limited ≡ false) × (s.armed ≡ false) × (s.firing ≡ false))
    × (s.stage ≡ waiting → is_running s.request ≡ false → call_ended (step timeout fire s) ≡ true)
    × (s.stage ≡ stopped → is_running s.request ≡ false → (step timeout check s).stage ≡ refused)
    × (call_ended (step timeout cleanup s) ≡ true)
    × (s.stage ≡ refused → is_running s.request ≡ false)

started_facts :
    (r g a f c l : Bool)
    → holds started r g a f c l ≡ true
    → ((g || c) ≡ g) × (l ≡ false) × (a ≡ false) × (f ≡ false)
started_facts true g a f c l h =
    (ground (arith, h), ground (arith, h), ground (arith, h), ground (arith, h))
started_facts false g a f c l h =
    (ground (arith, h), ground (arith, h), ground (arith, h), ground (arith, h))

waiting_fires :
    (s : Contexts) (timeout : Bool)
    → (s.firing || s.canceled) ≡ true
    → call_ended (step timeout fire s) ≡ true
unfolding step
waiting_fires s timeout h = ground (arith, h)

not_refused : (r g a f c l : Bool) → holds refused r g a f c l ≡ true → r ≡ false
not_refused true g a f c l h = absurd (cc h)
not_refused false g a f c l h = refl

holds-at :
    (stage : Stage) (s : Contexts)
    → s.stage ≡ stage
    → AllHold s
    → holds stage (is_running s.request) s.gone s.armed s.firing s.canceled s.limited ≡ true
holds-at stage s e h =
    subst (λ t. holds t (is_running s.request) s.gone s.armed s.firing s.canceled s.limited ≡ true)
      e h

ended_waiting : (g a f c l : Bool) → holds waiting false g a f c l ≡ true → (f || c) ≡ true
ended_waiting g a f c l h = ground (arith, h)

check_refuses :
    (timeout : Bool) (s : Contexts)
    → s.stage ≡ stopped
    → is_running s.request ≡ false
    → (step timeout check s).stage ≡ refused
unfolding step
check_refuses timeout s e r = ap (λ t. (on_check t s).stage) e ∙ rw r refl

cleanup_cancels : (timeout : Bool) (s : Contexts) → call_ended (step timeout cleanup s) ≡ true
unfolding step
cleanup_cancels timeout s = ground arith

-- However the client, the deadline and the handler move: once the reply has started, the call of the model server
-- ends only with the client, no function that would cancel it is left, and the connection no longer has the deadline
-- of the request. While the handler waits for the model server, a request whose context has ended has its call
-- canceled by then or by that function's next move; if the context ends after the handler has stopped that function,
-- the handler's next check refuses the reply, and a reply is refused only if the context has ended. The cleanup of
-- the handler cancels the call in every case.
pub started_outlives_timeout :
    (timeout : Bool) (events : List Event) → IsSound timeout (run timeout events)
started_outlives_timeout timeout events =
    let s = run timeout events in
    let h = run-AllHold timeout events in
    (
      (λ e.
          started_facts (is_running s.request) s.gone s.armed s.firing s.canceled s.limited
            (holds-at started s e h)),
      (λ e r. waiting_fires s timeout (
          ended_waiting s.gone s.armed s.firing s.canceled s.limited (
            subst (λ b. holds waiting b s.gone s.armed s.firing s.canceled s.limited ≡ true) r
              (holds-at waiting s e h)))),
      check_refuses timeout s,
      cleanup_cancels timeout s,
      λ e.
          not_refused (is_running s.request) s.gone s.armed s.firing s.canceled s.limited
            (holds-at refused s e h),
    )
