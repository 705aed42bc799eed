-- ===== src/Outbox.antt =====
-- internal/outbox/relay.go: the relay's configuration, its state, and the delay before a retry.
-- The child modules hold the operations on the table and the proofs.
pub mod Settings
pub mod Backoff
pub mod Claim
pub mod Order
pub mod Leases
pub mod Publish
pub mod Run
pub mod Cases
pub mod LostClaims
pub mod System
pub mod Batches
pub mod Progress
pub mod Topic
pub mod Drain
pub mod Tests
use noapp.Prelude.{
  ℕ, ◌-◌, ◌*◌, ◌^◌, String, Option, none, some, List, [], ◌∷◌, ℤ, pos, pos_part, ltb_ℤ, leb_ℤ,
  str_eq, leb, if◌then◌else◌,
}
use noapp.Json.{Payload}
use noapp.Runtime.{worker_required, meter, Result, ok, err}

pub record Message : Type 0 where
  pub topic : String
  pub key : String
  pub value : Payload
  pub headers : List (String × String)

pub record Config : Type 0 where
  pub worker_id : String
  pub batch_size : ℤ
  pub poll_every : ℤ
  pub claim_for : ℤ
  pub max_backoff : ℤ
  pub max_attempts : ℤ

-- The counters of the relay's metrics; the histogram of durations is left out.
pub record Metrics : Type 0 where
  pub published : ℕ
  pub failed : ℕ
  pub dead : ℕ

-- The database, the publisher and the context are arguments of the operations, and the counters
-- stand beside the table in the state that these pass on.
pub record Relay : Type 0 where
  pub config : Config
  pub backlog : ℕ

pub record ClaimedEvent : Type 0 where
  pub sequence : ℕ
  pub event_id : String
  pub project_id : ℤ
  pub event_type : String
  pub payload : Payload
  pub occurred_at : ℤ
  pub attempt_count : ℕ

abbrev or_default : ℤ → ℤ → ℤ
or_default x d = if leb_ℤ x (pos 0) then d else x

-- `x < 1` and `x <= 0` are one test on integers.
with_defaults : Config → Config
with_defaults c = record c {
  batch_size = or_default c.batch_size (pos 100);
  poll_every = or_default c.poll_every (pos 250000000);
  claim_for = or_default c.claim_for (pos 30000000000);
  max_backoff = or_default c.max_backoff (pos 60000000000);
  max_attempts = or_default c.max_attempts (pos 20);
}

-- The first instrument that the meter refuses to create; the list has an entry for each of the five.
first_refusal : List (Option String) → Option String
first_refusal [] = none
first_refusal (some text ∷ rest) = some text
first_refusal (none ∷ rest) = first_refusal rest

unfoldable pub new : List (Option String) → Config → Result Relay
unfolding with_defaults first_refusal
new instruments config =
    if str_eq config.worker_id "" then err worker_required else elim (first_refusal instruments) [
      | some text ↦ err (meter text)
      | none ↦ ok (record { config = with_defaults config; backlog = 0 })
    ]

-- The doublings before an attempt: attempts below the first count as the first.
unfoldable pub exponent : ℤ → ℕ
exponent attempt =
    let steps = (if ltb_ℤ attempt (pos 1) then 1 else pos_part attempt) - 1 in
    if leb steps 10 then steps else 10

-- 2 to the power of at most 10, in float64, is exact.
unfoldable pub retry_delay : ℤ → ℤ → ℤ
retry_delay attempt maximum =
    let delay = pos (2 ^ exponent attempt * 1000000000) in
    if ltb_ℤ maximum delay then maximum else delay
