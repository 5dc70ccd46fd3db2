-- ===== src/Server/Proxy/Timeout.antt =====
-- The timeout of a request that is passed on (internal/server/server.go, `withRequestTimeout`; internal/server/proxy.go,
-- `responseContext`): the context of the request, which ends with its client's or at its deadline, and the context of
-- the call of the model server, which ends with the client's, or by a function that runs after the request's has
-- ended until the reply starts. The deadline, the client and that function move on their own; a run is a sequence of
-- all their moves and the handler's. The client's own context has no deadline.
pub mod Started
pub mod Tests
use llm_file_gateway.Prelude.{Bool, true, false, not, ◌&&◌, ◌||◌, List, [], ◌∷◌, if◌then◌else◌}
use llm_file_gateway.ApiError.{Ended, running, deadline_passed, client_gone}

-- Where the handler is: before `startResponse`, in it after `stopTimeout`, after it, by its result, or after cleanup.
pub data Stage : Type 0 where
  waiting stopped started refused finished : Stage

pub record Contexts : Type 0 where
  pub stage : Stage
  -- The client's context has ended.
  pub gone : Bool
  -- How the context of the request has ended.
  pub request : Ended
  -- context.AfterFunc waits for the request's context, or its function has been started. It waits from the beginning
  -- here: one that is registered after that context has ended starts at once.
  pub armed : Bool
  pub firing : Bool
  -- `cancel` of the call's context has been called.
  pub canceled : Bool
  -- The connection has the deadline of the request.
  pub limited : Bool

pub data Event : Type 0 where
  leave expire fire stop check cleanup : Event

abbrev pub is_running : Ended → Bool
is_running running = true
is_running deadline_passed = false
is_running client_gone = false

-- The context of the call has ended.
abbrev pub call_ended : Contexts → Bool
call_ended s = s.gone || s.canceled

-- The context of the request ends, unless it has ended before: what waits for it starts.
unfoldable pub end_request : Ended → Contexts → Contexts
end_request cause s =
    if is_running s.request
    then record s { request = cause; armed = false; firing = s.armed }
    else s

-- `startResponse` after `stopTimeout`: the reply starts only if the request's context has not ended, and takes the
-- deadline off the connection.
abbrev pub check_request : Contexts → Contexts
check_request s =
    if is_running s.request
    then record s { stage = started; limited = false }
    else record s { stage = refused }

abbrev pub on_stop : Stage → Contexts → Contexts
on_stop waiting s = record s { stage = stopped; armed = false }
on_stop _ s = s

abbrev pub on_check : Stage → Contexts → Contexts
on_check stopped s = check_request s
on_check _ s = s

-- Whether the settings have a timeout, and the move. A stopped function does not start.
unfoldable pub step : Bool → Event → Contexts → Contexts
unfolding end_request
step timeout leave s = end_request client_gone (record s { gone = true })
step timeout expire s = if timeout then end_request deadline_passed s else s
step timeout fire s = if s.firing then record s { firing = false; canceled = true } else s
step timeout stop s = on_stop s.stage s
step timeout check s = on_check s.stage s
step timeout cleanup s = record s { stage = finished; armed = false; canceled = true }

abbrev pub begin : Bool → Contexts
begin timeout = record {
  stage = waiting;
  gone = false;
  request = running;
  armed = true;
  firing = false;
  canceled = false;
  limited = timeout;
}

-- A run, whose last move stands first.
unfoldable pub run : Bool → List Event → Contexts
unfolding step
run timeout [] = begin timeout
run timeout (event ∷ events) = step timeout event (run timeout events)
