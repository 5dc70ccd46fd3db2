-- ===== src/Server/FileApi.antt =====
-- The handlers of the Files API (internal/server/server.go): who the tenant is, when a file expires,
-- what a listing replies, and how a record is shown. A duration is a signed number of nanoseconds in
-- 64 bits. The digest of a token, in hexadecimal and cut to 32 digits, is given.
pub mod Tenant
pub mod Expiry
pub mod Pages
pub mod Handlers
pub mod Tests
use llm_file_gateway.Prelude.{
  ℕ, ◌+◌, ◌/◌, suc, zero, Bool, true, false, not, ◌&&◌, ◌||◌, Option, none, some, List, [], ◌∷◌,
  ◌⊎◌, inl, inr, length, take, ltb, leb, is_some, if◌then◌else◌,
}
use llm_file_gateway.Prelude.Int.{ℤ, pos, negsuc, ◌*ℤ◌, wrap64, ltb_ℤ}
use llm_file_gateway.Prelude.Text.{String, ◌=ˢ◌, ◌+ˢ◌, has_prefix, drop_str}
use llm_file_gateway.ApiError.{Error, new}
use llm_file_gateway.Store
use llm_file_gateway.Store.{File, Table, shared_tenant_id}

abbrev pub bearer : String
bearer = "Bearer "

-- The header Authorization, empty if it is missing.
unfoldable pub tenant_id : (String → String) → Bool → String → String → Error ⊎ String
tenant_id digest auth_required api_key authorization =
    let token = drop_str 7 authorization in
    if not auth_required
    then inr shared_tenant_id
    else if not (has_prefix authorization bearer)
    then inl (new 401 "invalid_api_key" "Missing bearer token." "")
    else if token =ˢ "" || not (token =ˢ api_key)
    then inl (new 401 "invalid_api_key" "Invalid API key." "")
    else inr (digest token)

-- 0 is no limit.
unfoldable pub upload_body_limit : ℕ → ℤ
upload_body_limit max_file_bytes =
    if leb max_file_bytes 0 then pos 0 else wrap64 (pos (max_file_bytes + 1048576))

abbrev pub valid_file_purpose : String → Bool
valid_file_purpose purpose =
    purpose =ˢ "assistants"
    || (purpose =ˢ "batch"
        || (purpose =ˢ "fine-tune"
            || (purpose =ˢ "vision" || (purpose =ˢ "user_data" || purpose =ˢ "evals"))))

abbrev pub second : ℕ
second = 1000000000

-- d / time.Second, truncated toward 0.
abbrev pub whole_seconds : ℤ → ℤ
whole_seconds (pos n) = pos (n / second)
whole_seconds (negsuc n) = opposite (suc n / second)
  where
    opposite : ℕ → ℤ
    opposite zero = pos 0
    opposite (suc k) = negsuc k

-- The time to live of an upload: the gateway's own, or the one that the client asks for with an anchor
-- and a number of seconds. `none` is the error invalid_expires_after.
unfoldable pub expires_after : ℤ → Option (String × ℤ) → Option ℤ
expires_after file_ttl none = some file_ttl
expires_after file_ttl (some (anchor, seconds)) =
    let max_seconds = whole_seconds file_ttl in
    if not (anchor =ˢ "created_at")
      || (ltb_ℤ seconds (pos 1) || (ltb_ℤ (pos 0) max_seconds && ltb_ℤ max_seconds seconds))
    then none
    else some (wrap64 (seconds *ℤ pos second))

-- A page of a listing.
pub record Page : Type 0 where
  pub files : List File
  pub first_id : Option String
  pub last_id : Option String
  pub has_more : Bool

abbrev pub first_of : List File → Option String
first_of [] = none
first_of (row ∷ rows) = some row.id

abbrev pub last_of : List File → Option String
last_of [] = none
last_of (row ∷ []) = some row.id
last_of (row ∷ other ∷ rows) = last_of (other ∷ rows)

-- The reply to a listing: one row more than asked for shows whether there are more.
unfoldable pub list_page : ℕ → String → String → ℕ → String → String → Table → Page
list_page now tenant purpose limit order after table =
    let records = Store.list_files now tenant purpose (limit + 1) order after table in
    let files = if ltb limit (length records) then take limit records else records in
    record {
      files = files;
      first_id = first_of files;
      last_id = last_of files;
      has_more = ltb limit (length records);
    }

-- An absent `limit` is 20. The limit is given as it was parsed; `none` is no number.
abbrev pub page_limit : Option (Option ℤ) → Option ℕ
page_limit none = some 20
page_limit (some none) = none
page_limit (some (some (pos n))) = if ltb n 1 || ltb 10000 n then none else some n
page_limit (some (some (negsuc n))) = none

-- The checks of the parameters of a listing; an absent order is "desc".
abbrev pub with_parameters : Option (Option ℤ) → String → (ℕ → String → Page) → Error ⊎ Page
with_parameters limit order page = elim (page_limit limit) [
  | none ↦ inl (new 422 "invalid_request" "limit must be between 1 and 10000." "limit")
  | some n ↦
      let direction = if order =ˢ "" then "desc" else order in
      if not (direction =ˢ "asc") && not (direction =ˢ "desc")
      then inl (new 422 "invalid_request" "order must be asc or desc." "order")
      else inr (page n direction)
]

unfoldable pub list_files :
    ℕ → String → Option (Option ℤ) → String → String → String → Table → Error ⊎ Page
unfolding list_page
list_files now tenant limit order purpose after table =
    with_parameters limit order λ n direction. list_page now tenant purpose n direction after table

-- A record as the Files API shows it.
pub record OpenAiFile : Type 0 where
  pub id : String
  pub bytes : ℕ
  pub created_at : ℕ
  pub expires_at : Option ℕ
  pub filename : String
  pub purpose : String
  pub status : String
  pub status_details : Option String

unfoldable pub open_ai_file : File → OpenAiFile
open_ai_file row = record {
  id = row.id;
  bytes = row.bytes;
  created_at = row.created_at;
  expires_at = if ltb 0 row.expires_at then some row.expires_at else none;
  filename = row.filename;
  purpose = row.purpose;
  status =
      if row.status =ˢ "processed"
      then "processed"
      else if row.status =ˢ "failed"
      then "error"
      else "uploaded";
  status_details = elim row.error_message [
    | none ↦ none
    | some message ↦ if row.status =ˢ "failed" && not (message =ˢ "") then some message else none
  ];
}
