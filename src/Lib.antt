-- ===== src/Lib.antt =====
-- A verification library of the LLM file gateway: an HTTP gateway that accepts uploaded files,
-- converts them in the background, and rewrites inference requests which refer to them.
--
-- WorkQueue.antt is internal/workqueue/queue.go: `add_bounded`, `get_bounded`, `add_unbounded`,
-- `poll` and `await` are the methods of the two queues, and a select statement is given the case it
-- takes.
--
-- Store.antt is internal/store/store.go: a table is a list of rows, and `add`, `get`, `list_files`,
-- `update_status`, `mark_deleted`, `delete`, `pending`, `expired` are the SQL statements of the
-- methods with these names, and Store/Changes.antt runs a list of those that change the table.
--
-- Files/Locks.antt, Files/Disk.antt and Files/Threads.antt are internal/files/service.go as it runs
-- concurrently: each function of Locks.antt is one critical section under lifecycleMu, and `step`
-- in Threads.antt moves one goroutine of `Delete`, `deleteExpired`, `processJob` with `convert`, or
-- a reader (`Resolve` after its wait, `OpenSource`). Below Threads.antt, Exclusion is about leases
-- and claims and Conversions about the conversions that run while files are deleted; an invariant
-- of all threads is carried through every step, and so through every schedule. A schedule lets time
-- pass too, ends the context of the janitor, and says what becomes of a job: it is done, started
-- again, or dropped, which is where `markFailed` runs.
--
-- Files/Retry.antt is the retry policy in internal/files/service.go: `handle_err` is `handleErr`,
-- and `retry_job` follows one job from attempt to attempt; `is_retryable` is IsRetryable of
-- internal/converter/errors.go.
--
-- Files/Resolve.antt is `Resolve` and `OpenSource` in internal/files/service.go: `await_conversion`
-- is the poll loop, and `read_manifest` what follows it.
--
-- Server/Address.antt and Server/FileUrl.antt are internal/server/file_url.go: `is_public_ip` with
-- its prefixes, `dial_context`, `validate_public_https` and `download_public_https`.
--
-- ApiError.antt is internal/apierror/errors.go with `writeAnyError` and `writeError` of
-- internal/server/server.go.
--
-- Server/Json.antt, Server/Inference.antt and the modules below it are internal/server/inference.go
-- and `documentParts` of internal/server/document.go: `has_file_reference`, `expand_items` for the
-- loops of `expandResponses` and `expandChat`, and `handle_inference` for the decision of
-- `handleInference` on a decoded body. Server/Inference/Serving.antt is `handleInference` as a
-- whole, `serve`, which ends in `forward_request` or `forward_json` of Server/Proxy/Forward.antt.
-- Server/Inference/Inline.antt is `prepareDocument` of internal/server/document.go from known
-- content on, with `createRequestDirectory`, and the removal of the temporary directories.
--
-- Files/Upload.antt is `Create` in internal/files/service.go.
--
-- Server/FileApi.antt is the handlers of the Files API in internal/server/server.go: `tenant_id`,
-- `expires_after` of `createFile`, `list_files`, `open_ai_file`. Server/FileApi/Handlers.antt is
-- the handlers as a whole, from the header Authorization to the reply: `handle_create` is
-- `createFile` and calls `create` of Files/Upload.antt, `handle_list` is `listFiles`,
-- `handle_retrieve` is `retrieveFile` with `ownedFile`, `handle_content` is `retrieveContent` with
-- `open_source` of Files/Resolve.antt, and `handle_delete` is `deleteFile`.
--
-- Server/Proxy.antt is the headers in internal/server/proxy.go: `copy_headers`, and
-- `upstream_headers` for what `forwardRequest` sends. Server/Proxy/Bodies.antt is
-- `logUpstreamErrorResponse`, `flushWriter` and the copying of a reply; Server/Proxy/Forward.antt
-- is `passthrough`, `forwardRequest` and `forwardJSON`, where `exchange` is what the two have in
-- common from the call of the model server on, and `upstreamError`. Server/Proxy/Timeout.antt is
-- `responseContext` with `withRequestTimeout` of internal/server/server.go, as a machine that the
-- client, the deadline and the handler move.
--
-- Server/Slots.antt is `withConcurrencyLimit` and `slotResponseWriter` in
-- internal/server/server.go.
--
-- Files/Reconcile.antt is `ReconcileStorage` and `managedFileID` in internal/files/service.go. What
-- the directories hold and which removals fail are its inputs; the files themselves are those of
-- Files/Disk.antt.
--
-- Config/Env.antt and Config/Load.antt are internal/config/config.go: `env_string`, `env_bool`,
-- `env_int64`, `env_uint64` and `env_float` read a variable, and `load` is Load. Integers are
-- signed (Prelude/Int.antt) and their products wrap in 64 bits; url.Parse and the products of
-- floating-point numbers are parameters.
--
-- Converter/Registry.antt is internal/converter/registry.go and dispatcher.go: a registry is the
-- list of the entries of the Go map, and `merge` is given the entries in the order in which Go
-- loops over them. Converter/Formats.antt has one constructor for each of the converter types.
--
-- Converter/Convert.antt, Converter/Render.antt, Converter/Output.antt and Converter/Validate.antt
-- are the conversions of internal/converter (converter.go, util.go, manifest.go, text_common.go,
-- image_common.go, validation.go and the files of the formats): an action (Converter/Calls.antt)
-- takes the disk and the outcomes of the coming calls, and gives a result or an error with the disk
-- afterwards. `convert` is Convert of each converter type and `validate` is Validate. The document
-- renderer, image.DecodeConfig, SHA-256 and the JSON encoder are parameters.
--
-- Converter/Extract.antt is internal/converter/extractor: `read_utf8`, `csv_text` and
-- `visible_text` are its functions on bytes, with the parsers of CSV and HTML as parameters.
-- Converter/Utf8.antt writes out unicode/utf8 and unicode.IsSpace.
--
-- Numbers are native natural numbers. A time or a size that the gateway stores is not negative, so
-- a column or a counter is a natural number; where a computation in 64 bits matters, the wrap is
-- written out (Prelude/Int.antt). A fallible call of the database, the file system or a converter
-- is a result that the run is given, so that every theorem holds for every pattern of failures.
--
-- Interleavings are explicit: a schedule says which thread moves next and how its call comes out. A
-- step of a thread is one critical section or one call of the store or the file system. No fuel is
-- used there: a schedule is a finite list, and every theorem holds after every schedule.
--
-- Not modelled: the SQL driver, net/http, the JSON codec, the parsers and the rendering libraries
-- and the operating system, which are libraries or services; the routes of the server, and the
-- wiring in cmd/llm-file-gateway, which only connect the parts; logging output; permissions of
-- files; goroutine scheduling by the Go runtime beyond arbitrary interleaving.
pub mod Prelude
pub mod ApiError
pub mod WorkQueue
pub mod Store
pub mod Config
pub mod Converter
pub mod Files
pub mod Server
