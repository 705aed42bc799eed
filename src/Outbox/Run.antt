-- ===== src/Outbox/Run.antt =====
-- internal/outbox/relay.go: `runBatch` and the loop of `Run`.
use noapp.Prelude.{ℕ, suc, String, Option, none, some, List, [], ◌∷◌}
use noapp.Runtime.{Runtime, Error, Result, ok, err}
use noapp.Outbox.{Relay, ClaimedEvent, Config}
use noapp.Outbox.Claim.{ClaimCalls, claim, pending}
use noapp.Outbox.Publish.{World, Calls, publish_one}

-- The answers to the calls of one batch: to the claim, to the attempt on its n-th event, and to the
-- count of what is pending.
pub record Round : Type 0 where
  pub claim : ClaimCalls
  pub attempts : ℕ → Calls
  pub count : Option String

-- The loop over the batch. An error is logged, and the loop goes on.
unfoldable pub publish_all : Runtime → Config → (ℕ → Calls) → ℕ → List ClaimedEvent → World → World
publish_all rt c attempts n [] w = w
publish_all rt c attempts n (item ∷ items) w =
    publish_all rt c attempts (suc n) items (publish_one rt c (attempts n) item w).0

abbrev error_of {ℓ} : {A : Type ℓ} → Result A → Option Error
error_of (ok a) = none
error_of (err e) = some e

-- An empty batch and a worked one both end with the count.
abbrev pub counted : Option String → World → Relay → World × Relay × Option Error
counted count w relay =
    let (relay', result) = pending count w.rows relay in (w, relay', error_of result)

unfoldable pub finish :
    Runtime → Round → World → Relay → Result (List ClaimedEvent) → World × Relay × Option Error
finish rt round w relay (err e) = (w, relay, some e)
finish rt round w relay (ok batch) =
    counted round.count (publish_all rt relay.config round.attempts 0 batch w) relay

unfoldable pub run_batch : Runtime → Round → World → Relay → World × Relay × Option Error
run_batch rt round w relay =
    let (rows', result) = claim relay.config round.claim w.rows in
    finish rt round (record w { rows = rows' }) relay result

-- One batch for each round, until the context ends; an error of a batch is logged.
unfoldable pub run : Runtime → List Round → World → Relay → World × Relay
run rt [] w relay = (w, relay)
run rt (round ∷ rounds) w relay =
    let (w', relay', e) = run_batch rt round w relay in run rt rounds w' relay'
