-- ===== src/Server/Slots.antt =====
-- The limit on concurrent requests (internal/server/server.go, `withConcurrencyLimit` and
-- `slotResponseWriter`): `used` is the number of tokens in the channel, and each admitted request gives
-- its token back once, when its final header is written or its handler returns. A run is a sequence of
-- events of the requests, which are numbered in the order of their admission.
pub mod Counted
pub mod Tests
use llm_file_gateway.Prelude.{
  ℕ, zero, suc, ◌+◌, ◌-◌, Bool, true, false, not, ◌&&◌, List, [], ◌∷◌, ◌++◌, ltb, leb, ◌==◌,
  if◌then◌else◌,
}

pub record SlotResponseWriter : Type 0 where
  pub wrote_header : Bool
  -- `release` is a OnceFunc: it has run.
  pub released : Bool

pub record Slots : Type 0 where
  pub used : ℕ
  pub writers : List SlotResponseWriter
  -- The number of replies 429.
  pub refused : ℕ

pub data Event : Type 0 where
  arrive : Event
  -- A header with a status, or a part of the body, of a request.
  write_header : ℕ → ℕ → Event
  write finish : ℕ → Event

abbrev pub admitted : SlotResponseWriter
admitted = record { wrote_header = false; released = false }

-- The token of one request is taken out of the channel, unless it was before.
abbrev pub release : ℕ → ℕ → List SlotResponseWriter → ℕ × List SlotResponseWriter
release n used [] = (used, [])
release zero used (writer ∷ writers) =
    if writer.released
    then (used, writer ∷ writers)
    else (used - 1, record writer { released = true } ∷ writers)
release (suc n) used (writer ∷ writers) =
    let (left, rest) = release n used writers in (left, writer ∷ rest)

abbrev pub set_wrote_header : ℕ → List SlotResponseWriter → List SlotResponseWriter
set_wrote_header n [] = []
set_wrote_header zero (writer ∷ writers) = record writer { wrote_header = true } ∷ writers
set_wrote_header (suc n) (writer ∷ writers) = writer ∷ set_wrote_header n writers

abbrev pub has_written : ℕ → List SlotResponseWriter → Bool
has_written n [] = false
has_written zero (writer ∷ writers) = writer.wrote_header
has_written (suc n) (writer ∷ writers) = has_written n writers

abbrev pub release_slot : ℕ → Slots → Slots
release_slot n slots =
    let (left, writers) = release n slots.used slots.writers in
    record slots { used = left; writers = writers }

unfoldable pub on_header : ℕ → ℕ → Slots → Slots
on_header n status slots =
    if leb 200 status
    then release_slot n (record slots { writers = set_wrote_header n slots.writers })
    else slots

-- A limit of 0 is no limit: such a server has no channel, and every request is let through.
unfoldable pub step : ℕ → Event → Slots → Slots
unfolding on_header
step limit arrive slots =
    if ltb 0 limit && not (ltb slots.used limit)
    then record slots { refused = slots.refused + 1 }
    else record slots { used = slots.used + 1; writers = slots.writers ++ admitted ∷ [] }
step limit (write_header n status) slots = on_header n status slots
step limit (write n) slots = if has_written n slots.writers then slots else on_header n 200 slots
step limit (finish n) slots = release_slot n slots

abbrev pub free : Slots
free = record { used = 0; writers = []; refused = 0 }

unfoldable pub run : ℕ → List Event → Slots → Slots
run limit [] slots = slots
run limit (event ∷ events) slots = run limit events (step limit event slots)
