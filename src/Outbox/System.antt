-- ===== src/Outbox/System.antt =====
-- internal/outbox/relay.go with several relays on one table: the steps in which their work and that
-- of the API interleave, and what holds between the steps. Each relay works its batch off in order
-- and claims again when nothing is left, as `runBatch` does; a crash forgets the batch.
pub mod Claims
pub mod Attempts
pub mod Safety
use noapp.Prelude.{
  ℕ, suc, ◌<◌, ◌≡◌, String, Bool, true, false, List, [], ◌∷◌, ◌++◌, Option, none, some, ℤ, pos,
  ◌≤ℤ◌, ◌<ℤ◌, In, is_none, str_eq, if◌then◌else◌,
}
use noapp.Json.{Payload}
use noapp.Runtime.{Runtime, Error, ok, err}
use noapp.Database.{OutboxRow}
use noapp.Events.{Envelope}
use noapp.Events.Insert.{new_row}
use noapp.Outbox.{Message, Config, Metrics, ClaimedEvent}
use noapp.Outbox.Order.{Ascending}
use noapp.Outbox.Claim.{ClaimCalls, claim}
use noapp.Outbox.Publish.{World, Calls, publish_one}

-- `held` is what is left of each worker's batch.
pub record System : Type 0 where
  pub world : World
  pub open world use *
  pub held : String → List ClaimedEvent
  pub next : ℕ

-- The configuration of one of the relays: they differ in the worker's name alone.
abbrev pub for_worker : Config → String → Config
for_worker c worker = record c { worker_id = worker }

abbrev pub assign :
    (String → List ClaimedEvent) → String → List ClaimedEvent → String → List ClaimedEvent
assign held worker batch w = if str_eq w worker then batch else held w

abbrev pub with_rows : World → List OutboxRow → World
with_rows v rows = record v { rows = rows }

-- The order that RETURNING arranges a batch in makes nothing up.
abbrev pub Arranges : ClaimCalls → Type 0
Arranges calls = (xs : List ClaimedEvent) (x : ClaimedEvent) → In x (calls.returning xs) → In x xs

pub data Step (rt : Runtime) (c : Config) (s t : System) : Type 0 where
  insert :
      (now : ℤ) (e : Envelope) (payload : Payload)
      → t ≡ record s {
        world = with_rows s.world (s.rows ++ new_row s.next now e payload ∷ []);
        next = suc s.next;
      }
      → Step rt c s t
  claims :
      (worker : String) (calls : ClaimCalls) (rows : List OutboxRow) (batch : List ClaimedEvent)
      → s.held worker ≡ []
      → Arranges calls
      → claim (for_worker c worker) calls s.rows ≡ (rows, ok batch)
      → t ≡ record s { world = with_rows s.world rows; held = assign s.held worker batch }
      → Step rt c s t
  misses :
      (worker : String) (calls : ClaimCalls) (rows : List OutboxRow) (e : Error)
      → s.held worker ≡ []
      → claim (for_worker c worker) calls s.rows ≡ (rows, err e)
      → t ≡ record s { world = with_rows s.world rows; held = assign s.held worker [] }
      → Step rt c s t
  attempts :
      (worker : String) (item : ClaimedEvent) (rest : List ClaimedEvent) (calls : Calls)
      → s.held worker ≡ item ∷ rest
      → t ≡ record s {
        world = (publish_one rt (for_worker c worker) calls item s.world).0;
        held = assign s.held worker rest;
      }
      → Step rt c s t
  crashes : (worker : String) → t ≡ record s { held = assign s.held worker [] } → Step rt c s t

pub data Reach (rt : Runtime) (c : Config) (s : System) : System → Type 0 where
  here : Reach rt c s s
  next : {t u : System} → Reach rt c s t → Step rt c t u → Reach rt c s u

-- What holds of one row.
pub record RowInv (c : Config) (s : System) (r : OutboxRow) : Type 0 where
  pub sent : is_none r.published_at ≡ false → (m : Message) × In m s.log × (m.value ≡ r.payload)
  pub settled : is_none r.published_at ≡ false → r.claimed_by ≡ none
  pub buried : is_none r.dead_at ≡ false → (r.claimed_by ≡ none) × (r.published_at ≡ none)
  pub tried : pos r.attempt_count ≤ℤ c.max_attempts
  pub alive : is_none r.dead_at ≡ true → pos r.attempt_count <ℤ c.max_attempts
  pub exhausted : is_none r.dead_at ≡ false → c.max_attempts ≤ℤ pos r.attempt_count
  pub below : r.sequence < s.next
  pub payload_current :
      (w : String) (item : ClaimedEvent)
      → In item (s.held w)
      → item.sequence ≡ r.sequence
      → item.payload ≡ r.payload
  pub attempt_current :
      (w : String) (item : ClaimedEvent)
      → In item (s.held w)
      → item.sequence ≡ r.sequence
      → r.claimed_by ≡ some w
      → item.attempt_count ≡ r.attempt_count

pub record Inv (c : Config) (s : System) : Type 0 where
  pub ascending : Ascending s.rows
  pub rows : (r : OutboxRow) → In r s.rows → RowInv c s r
  pub held_below : (w : String) (item : ClaimedEvent) → In item (s.held w) → item.sequence < s.next
