-- ===== src/Server/Slots/Tests.antt =====
-- Runs of the limit on concurrent requests of internal/server/server.go.
use llm_file_gateway.Prelude.{◌≤◌, ◌≡◌, refl, List, [], ◌∷◌, arith}
use llm_file_gateway.Server.Slots.{
  Event, arrive, write_header, write, finish, free, step, on_header, run,
}
use llm_file_gateway.Server.Slots.Counted.{count_pending, history, no_requests, slots_counted}

-- Two requests are let through, a third is refused; the first replies and returns, which gives its
-- token back once, and a fourth takes it. An informational header gives nothing back.
abbrev events : List Event
events =
    arrive
    ∷ arrive
    ∷ arrive
    ∷ write_header 0 100
    ∷ write 0
    ∷ write_header 0 200
    ∷ finish 0
    ∷ arrive
    ∷ []

used_at_end : (run 2 events free).used ≡ 2
unfolding run step on_header
used_at_end = refl

refused_at_end : (run 2 events free).refused ≡ 1
unfolding run step on_header
refused_at_end = refl

slots_counted_example :
    ((run 2 events free).used ≡ count_pending (history 2 events no_requests).pending)
    × ((run 2 events free).used ≤ 2)
    × ((run 2 events free).refused ≡ (history 2 events no_requests).turned_away)
slots_counted_example = slots_counted 2 (omega arith) events
