-- ===== src/App.antt =====
-- internal/app/server.go: the HTTP server of the board. This file holds the inputs and replies of its
-- handlers. A body is the payload that decodeJSON reads, with a body over the limit as one that is
-- malformed.
pub mod Handlers
pub mod Tasks
pub mod Server
pub mod Recording
pub mod Atomic
pub mod Versions
pub mod Access
pub mod Histories
pub mod Verified
pub mod RequestLog
pub mod Logging
pub mod Tests
use mathlib.Core.Option
use Prim.Native.String.{◌++◌ as text_append}
use noapp.Prelude.{
  ℕ, String, Bool, true, false, ◌||◌, Option, none, some, ℤ, pos, ltb_ℤ, str_eq, parse_int,
  contains_text, if◌then◌else◌,
}
use noapp.Json.{
  Json, null, str, obj, Fields, end, field, Payload, json, malformed, key_is, as_string,
  as_int64_pointer,
}
use noapp.Database.{Answer}
use noapp.Events.{TraceContext}

-- What is written; no body if the value does not encode.
pub record Reply : Type 0 where
  pub status : ℕ
  pub body : Option Json

unfoldable pub write_json : ℕ → Option Json → Reply
write_json status value = record { status = status; body = value }

unfoldable pub write_error : ℕ → String → Reply
write_error status message = write_json status (some (obj (field "error" (str message) end)))

-- What one request meets: the time of the database, of `time.Now`, the new identifier, the trace
-- context, the text of a decoding error, strings.ToLower, and the errors of the calls of the
-- database, `none` for success.
pub record Calls : Type 0 where
  pub now : ℤ
  pub wall : ℤ
  pub uuid : String
  pub trace : TraceContext
  pub json_error : Payload → String
  pub to_lower : String → String
  pub begin : Option String
  pub query : Option String
  pub scan : Option String
  pub rest : Option String
  pub insert : Option String
  pub commit : Answer

-- The number, or the reply that pathID writes.
pub data Parsed {ℓ} (A : Type ℓ) : Type ℓ where
  parsed : A → Parsed A
  replied : Reply → Parsed A

unfoldable pub path_id : String → Parsed ℤ
path_id value = elim (parse_int value) [
  | none ↦ replied (write_error 400 "invalid id")
  | some id ↦ if ltb_ℤ id (pos 1) then replied (write_error 400 "invalid id") else parsed id
]

unfoldable pub valid_status : String → Bool
valid_status status = str_eq status "todo" || str_eq status "in_progress" || str_eq status "done"

unfoldable pub is_reference_error : String → Bool
is_reference_error text = contains_text text "foreign key constraint"

infixl 5 ◌>>=◌
abbrev ◌>>=◌ {ℓ κ} : {A : Type ℓ} {B : Type κ} → Option A → (A → Option B) → Option B
none >>= f = none
some a >>= f = f a

-- The decoder with DisallowUnknownFields, over the function that sets the field of a key.
module _ {ℓ} {A : Type ℓ} (set : String → Json → A → Option A) where
  set_fields : Fields → A → Option A
  set_fields end a = some a
  set_fields (field k v fs) a = do b ← set k v a; set_fields fs b

  decode_fields : Payload → A → Option A
  unfolding set_fields
  decode_fields (malformed text) zero = none
  decode_fields (json null) zero = some zero
  decode_fields (json (obj fs)) zero = set_fields fs zero
  decode_fields (json _) zero = none

  unfoldable pub decode_json : Calls → A → Payload → Parsed A
  unfolding decode_fields
  decode_json calls zero body = elim (decode_fields body zero) [
    | none ↦ replied (write_error 400 (text_append "invalid JSON: " (calls.json_error body)))
    | some a ↦ parsed a
  ]

pub record UserInput : Type 0 where
  pub name : String
  pub email : String

unfoldable pub set_user_field : String → Json → UserInput → Option UserInput
set_user_field k v i =
    if key_is "name" k
    then Option.map (λ x. record i { name = x }) (as_string v i.name)
    else if key_is "email" k
    then Option.map (λ x. record i { email = x }) (as_string v i.email)
    else none

pub record ProjectInput : Type 0 where
  pub name : String
  pub description : String

unfoldable pub set_project_field : String → Json → ProjectInput → Option ProjectInput
set_project_field k v i =
    if key_is "name" k
    then Option.map (λ x. record i { name = x }) (as_string v i.name)
    else if key_is "description" k
    then Option.map (λ x. record i { description = x }) (as_string v i.description)
    else none

pub record TaskInput : Type 0 where
  pub title : String
  pub description : String
  pub assignee_id : Option ℤ
  pub status : String

unfoldable pub set_task_input_field : String → Json → TaskInput → Option TaskInput
set_task_input_field k v i =
    if key_is "title" k
    then Option.map (λ x. record i { title = x }) (as_string v i.title)
    else if key_is "description" k
    then Option.map (λ x. record i { description = x }) (as_string v i.description)
    else if key_is "assignee_id" k
    then Option.map (λ x. record i { assignee_id = x }) (as_int64_pointer v i.assignee_id)
    else if key_is "status" k
    then Option.map (λ x. record i { status = x }) (as_string v i.status)
    else none

unfoldable pub set_status_field : String → Json → String → Option String
set_status_field k v i = if key_is "status" k then as_string v i else none
