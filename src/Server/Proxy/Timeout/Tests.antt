-- ===== src/Server/Proxy/Timeout/Tests.antt =====
-- Runs of a request with a timeout that internal/server/proxy.go passes on; the last move stands first.
use llm_file_gateway.Prelude.{◌≡◌, refl, true, false, List, [], ◌∷◌}
use llm_file_gateway.Server.Proxy.Timeout.{
  refused, Event, leave, expire, fire, stop, check, call_ended, end_request, step, run,
}
use llm_file_gateway.Server.Proxy.Timeout.Started.{IsSound, started_outlives_timeout}

abbrev late : List Event
late = fire ∷ expire ∷ check ∷ stop ∷ []

abbrev early : List Event
early = check ∷ stop ∷ fire ∷ expire ∷ []

late_timeout : call_ended (run true late) ≡ false
unfolding run step end_request
late_timeout = refl

early_timeout : (run true early).stage ≡ refused
unfolding run step end_request
early_timeout = refl

client_leaves : call_ended (run true (leave ∷ late)) ≡ true
unfolding run step end_request
client_leaves = refl

started_outlives_timeout_example : IsSound true (run true late)
started_outlives_timeout_example = started_outlives_timeout true late
