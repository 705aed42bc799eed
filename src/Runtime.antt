-- ===== src/Runtime.antt =====
-- What the program takes from its surroundings: the error values of the Go packages, the text form of
-- a time (RFC 3339, package time), and the text of an error. Times are nanoseconds since the Unix
-- epoch; durations are nanoseconds.
use noapp.Json.{Json}
use noapp.Prelude.{ℕ, ◌-◌, ◌*◌, String, Option, some, ℤ, pos, negsuc, ◌≡◌}

-- The errors that the packages build. A text is what another library reported.
pub data Error : Type 0 where
  -- events.go
  decode_board_event invalid_board_event : Error
  encode_outbox_event : Error
  insert_outbox_event : String → Error
  -- relay.go
  worker_required : Error
  meter : String → Error
  begin_claim claim_events scan_claimed read_claimed commit_claim : String → Error
  publish : String → Error
  mark_published : String → Error
  claim_lost : Error
  count_pending : String → Error
  joined : Error → String → Error
  -- verifier.go
  verifier_config missing_token invalid_token : Error
  signing_key : Error → Error
  fetch_keys : String → Error
  unexpected_status : ℕ → Error
  decode_keys no_rsa_keys : Error
  no_signing_key : String → Error
  -- client.go
  bad_request no_response : String → Error
  no_access_token : Error → Error
  returned : String → String → ℕ → String → Error
  decode_response : String → String → Error
  decode_token_response : Error
  token_endpoint : ℕ → String → Error

-- `time.Time`'s MarshalJSON and UnmarshalJSON between the quotes, `err.Error()`, and the value that a
-- JSONB column gives back for one that is stored in it, with the members of its objects reordered.
pub record Runtime : Type 0 where
  pub format_time : ℤ → Option String
  pub parse_time : String → Option ℤ
  pub error_text : Error → String
  pub jsonb : Json → Json

-- RFC 3339 with nanoseconds loses nothing of a time that it can write.
abbrev pub KeepsTimes : Runtime → Type 0
KeepsTimes rt = (t : ℤ) (s : String) → rt.format_time t ≡ some s → rt.parse_time s ≡ some t

-- 1 January of year 1, which is Go's zero time.
abbrev pub zero_time : ℤ
zero_time = negsuc (62135596800 * 1000000000 - 1)

abbrev pub second : ℤ
second = pos 1000000000

pub data Result {ℓ} (A : Type ℓ) : Type ℓ where
  ok : A → Result A
  err : Error → Result A
