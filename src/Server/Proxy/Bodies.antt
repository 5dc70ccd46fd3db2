-- ===== src/Server/Proxy/Bodies.antt =====
-- The bodies of the replies of the model server, and how they are copied to the client (internal/server/proxy.go):
-- `logUpstreamErrorResponse`, `flushWriter` and io.Copy. A body is what the reads of it return one after the other,
-- and the error with which they end, if it is not io.EOF.
pub mod Copied
use llm_file_gateway.Prelude.{
  ℕ, ◌+◌, ◌-◌, Bool, true, false, not, ◌&&◌, Option, none, some, List, [], ◌∷◌, ◌++◌, length, take,
  drop, ltb, leb, if◌then◌else◌,
}
use llm_file_gateway.Prelude.Text.{String}
use llm_file_gateway.Files.Disk.{Bytes}
use llm_file_gateway.Server.Proxy.{Header}

pub record Body : Type 0 where
  pub pieces : List Bytes
  pub error : Option String

pub record Upstream : Type 0 where
  pub status : ℕ
  pub header : Header
  pub body : Body

-- How a write of the reply to the client comes out: how much of it is taken if it fails, and whether the flush
-- after it succeeds.
pub record Write : Type 0 where
  pub ok : Bool
  pub taken : ℕ
  pub flush_ok : Bool

pub data Sent : Type 0 where
  chunk : Bytes → Sent
  flushed : Sent

pub data Log : Type 0 where
  plain : ℕ → Log
  unreadable : ℕ → String → Log
  parsed : ℕ → List String → Log

abbrev pub upstream_error_preview_bytes : ℕ
upstream_error_preview_bytes = 65536

-- io.ReadAll of an io.LimitReader: what is read, and what is left.
abbrev pub read_up_to : ℕ → List Bytes → Bytes × List Bytes
read_up_to n [] = ([], [])
read_up_to n (piece ∷ pieces) =
    let (more, left) = read_up_to (n - length piece) pieces in
    if leb (length piece) n then (piece ++ more, left) else (take n piece, drop n piece ∷ pieces)

-- What is logged of an error, by the error of reading the preview if there is one. `unmarshal` is what
-- json.Unmarshal reads of it.
abbrev pub error_log : (Bytes → Option (List String)) → ℕ → Bytes → Option String → Log
error_log unmarshal status preview (some text) = unreadable status text
error_log unmarshal status preview none =
    if ltb upstream_error_preview_bytes (length preview)
    then plain status
    else elim (unmarshal preview) [
      | none ↦ plain status
      | some attributes ↦ parsed status attributes
    ]

-- The reader that replays the body of an error, and what is logged.
unfoldable pub log_upstream_error_response :
    (Bytes → Option (List String)) → Upstream → Body × Option Log
log_upstream_error_response unmarshal upstream =
    if ltb upstream.status 400
    then (upstream.body, none)
    else let (preview, left) = read_up_to (upstream_error_preview_bytes + 1) upstream.body.pieces in
      let failure =
        if leb (length preview) upstream_error_preview_bytes then upstream.body.error else none in
      (
        record { pieces = preview ∷ left; error = upstream.body.error },
        some (error_log unmarshal upstream.status preview failure),
      )

-- `Write` of a flushWriter or of the plain writer, and the copying that goes on after it.
abbrev pub write : Bool → Write → Bytes → List Sent → List Sent
write flush w piece rest =
    if not w.ok
    then chunk (take w.taken piece) ∷ []
    else if not flush
    then chunk piece ∷ rest
    else if not w.flush_ok
    then chunk piece ∷ []
    else chunk piece ∷ flushed ∷ rest

-- io.Copy to the client, whose writes are numbered. A read of no bytes is followed by no write.
abbrev pub copy : Bool → (ℕ → Write) → ℕ → List Bytes → List Sent
copy flush writes n [] = []
copy flush writes n ([] ∷ pieces) = copy flush writes n pieces
copy flush writes n ((b ∷ piece) ∷ pieces) =
    write flush (writes n) (b ∷ piece) (copy flush writes (n + 1) pieces)
