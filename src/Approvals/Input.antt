-- ===== src/Approvals/Input.antt =====
-- core/approvals/approvals-input.ts: what a request may hold. `none` is the throw of invalid().
use cloud_commitment_portfol.Base.{
  ℕ, Bool, true, false, ◌&&◌, ◌||◌, ◌==◌, Option, none, some, List, [], ◌∷◌, ◌++◌, map, all, any,
  length, replicate, ltb, leb, ◌+◌, if◌then◌else◌, ◌>>=◌,
}
use cloud_commitment_portfol.Base.Text.{Text, codes, text_eq, trim, parse_number}
use cloud_commitment_portfol.Base.Json.{
  Json, Fields, end, field, null, bool, int, frac, str, arr, obj, member,
}
use cloud_commitment_portfol.Imports.Cells.{is_digit, has_control_character}
use cloud_commitment_portfol.Approvals.{
  ApprovalStatus, queued, pending, approved, rejected, expired, failed,
}

-- What the engine and the database do to texts: NFC, `Date.parse` giving a number, the base64url
-- text of a JSON value and its reading, `to_char` of a column's time and its cast to `timestamptz`.
pub record Engine : Type 0 where
  pub normalize : Text → Text
  pub is_date : Text → Bool
  pub encode : Json → Text
  pub decode : Text → Option Json
  pub to_char : ℕ → Text
  pub timestamptz : Text → Option ℕ

pub record ApprovalCursor : Type 0 where
  pub requested_at : Text
  pub id : Text

-- `ApprovalListInput`.
pub record ListInput : Type 0 where
  pub limit : ℕ
  pub cursor : Option ApprovalCursor
  pub status : Option ApprovalStatus
  pub assigned_to_user_id : Option Text
  pub recommendation_id : Option Text

-- `ApprovalRequestInput`.
pub record RequestInput : Type 0 where
  pub recommendation_id : Text
  pub assigned_to_user_id : Option Text
  pub reason : Option Text

-- `ApprovalDecisionInput`.
pub record DecisionInput : Type 0 where
  pub approval_id : Text
  pub decision_reason : Text

unfoldable pub status_text : ApprovalStatus → Text
status_text queued = codes "queued"
status_text pending = codes "pending"
status_text approved = codes "approved"
status_text rejected = codes "rejected"
status_text expired = codes "expired"
status_text failed = codes "failed"

abbrev pub statuses : List ApprovalStatus
statuses = queued ∷ pending ∷ approved ∷ rejected ∷ expired ∷ failed ∷ []

unfoldable pub status_of : List ApprovalStatus → Text → Option ApprovalStatus
unfolding status_text
status_of [] value = none
status_of (s ∷ ss) value = if text_eq (status_text s) value then some s else status_of ss value

abbrev pub object : Json → Option Fields
object (obj fields) = some fields
object null = none
object (bool b) = none
object (int n) = none
object (frac t) = none
object (str t) = none
object (arr vs) = none

abbrev pub string : Json → Option Text
string (str t) = some t
string null = none
string (bool b) = none
string (int n) = none
string (frac t) = none
string (arr vs) = none
string (obj fields) = none

abbrev pub required : Option Json → Option Text
required none = none
required (some v) = string v

-- `rejectUnknown`; whether every key is allowed.
unfoldable pub knows_all : List Text → Fields → Bool
knows_all allowed end = true
knows_all allowed (field k v rest) = any (text_eq k) allowed && knows_all allowed rest

-- `source[key] === undefined ? undefined : read(source[key])`.
abbrev pub optional : {A : Type 0} → (Json → Option A) → Option Json → Option (Option A)
optional read none = some none
optional read (some v) = do x ← read v; some (some x)

abbrev pub is_hex : ℕ → Bool
is_hex c = is_digit c || (leb b'a' c && leb c b'f') || (leb b'A' c && leb c b'F')

abbrev pub is_dash : ℕ → Bool
is_dash c = c == b'-'

abbrev pub is_version : ℕ → Bool
is_version c = leb b'1' c && leb c b'5'

abbrev pub is_variant : ℕ → Bool
is_variant c = c == b'8' || c == b'9' || c == b'a' || c == b'b' || c == b'A' || c == b'B'

abbrev pub uuid_pattern : List (ℕ → Bool)
uuid_pattern =
    replicate 8 is_hex
    ++ is_dash ∷ replicate 4 is_hex
    ++ is_dash ∷ is_version ∷ replicate 3 is_hex
    ++ is_dash ∷ is_variant ∷ replicate 3 is_hex
    ++ is_dash ∷ replicate 12 is_hex

unfoldable pub fits_pattern : List (ℕ → Bool) → Text → Bool
fits_pattern [] [] = true
fits_pattern [] (c ∷ s) = false
fits_pattern (p ∷ ps) [] = false
fits_pattern (p ∷ ps) (c ∷ s) = p c && fits_pattern ps s

-- `toLowerCase` on the characters that the pattern lets through.
abbrev pub to_lower_case : Text → Text
to_lower_case = map (λ c. if leb b'A' c && leb c b'F' then c + 32 else c)

-- `uuid`, of a string.
unfoldable pub uuid_text : Text → Option Text
unfolding fits_pattern
uuid_text value = if fits_pattern uuid_pattern value then some (to_lower_case value) else none

unfoldable pub uuid : Json → Option Text
unfolding uuid_text
uuid value = do text ← string value; uuid_text text

unfoldable pub uuid_member : Text → Fields → Option Text
unfolding uuid
uuid_member key source = do text ← required (member key source); uuid_text text

abbrev pub bounded : ℕ → Text → Option Text
bounded max normalized =
    if length normalized == 0 || ltb max (length normalized) || has_control_character normalized
    then none
    else some normalized

-- `boundedText`.
unfoldable pub bounded_text : Engine → ℕ → Json → Option Text
unfolding has_control_character trim
bounded_text e max value = do text ← string value; bounded max (trim (e.normalize text))

-- `/^[1-9][0-9]{0,2}$/u`.
abbrev pub is_limit : Text → Bool
is_limit [] = false
is_limit (c ∷ s) = leb b'1' c && leb c b'9' && all is_digit s && leb (length s) 2

abbrev pub in_range : Option ℕ → Option ℕ
in_range none = none
in_range (some n) = if ltb n 1 || ltb 120 n then none else some n

unfoldable pub limit_value : Json → Option ℕ
limit_value value = do
  text ← string value
  if is_limit text then in_range (parse_number 10 text) else none

-- `optionalLimit`.
abbrev pub optional_limit : Option Json → Option ℕ
optional_limit none = some 50
optional_limit (some v) = limit_value v

unfoldable pub status_value : Json → Option ApprovalStatus
unfolding status_of
status_value value = do text ← string value; status_of statuses text

-- `encodeApprovalCursor`.
abbrev pub cursor_json : Text → Text → Json
cursor_json requested_at id =
    obj (field (codes "requested_at") (str requested_at) (field (codes "id") (str id) end))

unfoldable pub encode_approval_cursor : Engine → Text → Text → Text
encode_approval_cursor e requested_at id = e.encode (cursor_json requested_at id)

-- `iso`.
unfoldable pub iso : Engine → Option Json → Option Text
iso e value = do text ← required value; if e.is_date text then some text else none

unfoldable pub cursor_of : Engine → Json → Option ApprovalCursor
unfolding iso uuid_member member
cursor_of e parsed = do
  source ← object parsed
  requested_at ← iso e (member (codes "requested_at") source)
  id ← uuid_member (codes "id") source
  some (record { requested_at = requested_at; id = id })

-- `parseCursor`, of a string.
unfoldable pub cursor_text : Engine → Text → Option ApprovalCursor
unfolding cursor_of
cursor_text e value = if ltb 512 (length value) then none else e.decode value >>= cursor_of e

unfoldable pub parse_cursor : Engine → Json → Option ApprovalCursor
unfolding cursor_text
parse_cursor e value = do text ← string value; cursor_text e text

abbrev pub first_page : ListInput
first_page = record {
  limit = 50;
  cursor = none;
  status = none;
  assigned_to_user_id = none;
  recommendation_id = none;
}

abbrev pub list_keys : List Text
list_keys =
    codes "limit"
    ∷ codes "cursor"
    ∷ codes "status"
    ∷ codes "assigned_to_user_id"
    ∷ codes "recommendation_id"
    ∷ []

unfoldable pub list_fields : Engine → Fields → Option ListInput
unfolding knows_all limit_value parse_cursor status_value uuid member
list_fields e source = do
  limit ←
      if knows_all list_keys source then optional_limit (member (codes "limit") source) else none
  cursor ← optional (parse_cursor e) (member (codes "cursor") source)
  status ← optional status_value (member (codes "status") source)
  assigned ← optional uuid (member (codes "assigned_to_user_id") source)
  recommendation ← optional uuid (member (codes "recommendation_id") source)
  some (record {
    limit = limit;
    cursor = cursor;
    status = status;
    assigned_to_user_id = assigned;
    recommendation_id = recommendation;
  })

abbrev pub list_object : Engine → Option Fields → Option ListInput
list_object e none = some first_page
list_object e (some source) = list_fields e source

-- `parseApprovalListQuery`.
unfoldable pub parse_approval_list_query : Engine → Json → Option ListInput
unfolding list_fields
parse_approval_list_query e query = list_object e (object query)

-- `parseApprovalRequestBody`.
unfoldable pub parse_approval_request_body : Engine → Json → Json → Option RequestInput
unfolding knows_all uuid bounded_text member
parse_approval_request_body e recommendation_id body = do
  source ← object body
  id ←
      if knows_all (codes "assigned_to_user_id" ∷ codes "reason" ∷ []) source
      then uuid recommendation_id
      else none
  assigned ← optional uuid (member (codes "assigned_to_user_id") source)
  reason ← optional (bounded_text e 2000) (member (codes "reason") source)
  some (record { recommendation_id = id; assigned_to_user_id = assigned; reason = reason })

abbrev pub or_null : Option Json → Json
or_null none = null
or_null (some v) = v

-- `parseApprovalDecisionBody`; `boundedText(undefined)` throws as it does on null.
unfoldable pub parse_approval_decision_body : Engine → Json → Json → Option DecisionInput
unfolding knows_all uuid bounded_text member
parse_approval_decision_body e approval_id body = do
  source ← object body
  id ← if knows_all (codes "decision_reason" ∷ []) source then uuid approval_id else none
  reason ← bounded_text e 2000 (or_null (member (codes "decision_reason") source))
  some (record { approval_id = id; decision_reason = reason })
