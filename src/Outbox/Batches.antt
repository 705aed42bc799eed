-- ===== src/Outbox/Batches.antt =====
-- internal/outbox/relay.go, `runBatch`: a batch is a sequence of the steps of the system of relays.
use noapp.Prelude.{ℕ, suc, ◌≡◌, refl, sym, ap, String, List, [], ◌∷◌, eq_refl}
use noapp.Runtime.{Runtime, Result, ok, err}
use noapp.Database.{OutboxRow}
use noapp.Outbox.{Config, Relay, ClaimedEvent}
use noapp.Outbox.Claim.{claim}
use noapp.Outbox.Publish.{World, Calls, publish_one}
use noapp.Outbox.Run.{Round, publish_all, run_batch, finish}
use noapp.Outbox.System.{
  System, for_worker, assign, with_rows, Arranges, claims, misses, attempts, Reach, here, next,
}

Reach-trans :
    {rt : Runtime} {c : Config} {s t u : System} → Reach rt c s t → Reach rt c t u → Reach rt c s u
Reach-trans r here = r
Reach-trans r (next q st) = next (Reach-trans r q) st

assign-own :
    (held : String → List ClaimedEvent) (worker : String) (batch : List ClaimedEvent)
    → assign held worker batch worker ≡ batch
assign-own held worker batch = rw (eq_refl worker) refl

-- A system that is reached, with a given world, in which the worker holds nothing.
pub record Reaches (rt : Runtime) (c : Config) (worker : String) (s : System) (w : World)
    : Type 0 where
  pub system : System
  pub reach : Reach rt c s system
  pub world : system.world ≡ w
  pub idle : system.held worker ≡ []

module _ (rt : Runtime) (c : Config) (worker : String) where
  publish_all-Reaches :
      (answers : ℕ → Calls) (n : ℕ) (items : List ClaimedEvent) (s : System)
      → s.held worker ≡ items
      → Reaches rt c worker s (publish_all rt (for_worker c worker) answers n items s.world)
  unfolding publish_all
  publish_all-Reaches answers n [] s held = record {
    system = s;
    reach = here;
    world = refl;
    idle = held;
  }
  publish_all-Reaches answers n (item ∷ items) s held =
      let t : System = record {
        world = (publish_one rt (for_worker c worker) (answers n) item s.world).0;
        held = assign s.held worker items;
        next = s.next;
      } in
      let rest = publish_all-Reaches answers (suc n) items t (assign-own s.held worker items) in
      record {
        system = rest.system;
        reach =
            Reach-trans (next here (attempts worker item items (answers n) held refl)) rest.reach;
        world = rest.world;
        idle = rest.idle;
      }

  finish-Reaches :
      (round : Round) (relay : Relay) (s : System) (rows : List OutboxRow)
      (result : Result (List ClaimedEvent))
      → relay.config ≡ for_worker c worker
      → s.held worker ≡ []
      → Arranges round.claim
      → claim (for_worker c worker) round.claim s.rows ≡ (rows, result)
      → Reaches rt c worker s (finish rt round (with_rows s.world rows) relay result).0
  unfolding finish
  finish-Reaches round relay s rows (err e) own free arranged h = record {
    system = record s { world = with_rows s.world rows; held = assign s.held worker [] };
    reach = next here (misses worker round.claim rows e free h refl);
    world = refl;
    idle = assign-own s.held worker [];
  }
  finish-Reaches round relay s rows (ok batch) own free arranged h =
      let t : System = record s {
        world = with_rows s.world rows;
        held = assign s.held worker batch;
      } in
      let all = publish_all-Reaches round.attempts 0 batch t (assign-own s.held worker batch) in
      record {
        system = all.system;
        reach =
            Reach-trans (next here (claims worker round.claim rows batch free arranged h refl))
              all.reach;
        world = rw own all.world;
        idle = all.idle;
      }

-- One round of a relay is a history of the system of relays: if the relay is configured as one of
-- them, holds nothing before, and RETURNING makes nothing up, then runBatch ends in a world that
-- the system reaches by its steps, with nothing held again, whatever errors the claim and the
-- attempts meet.
pub run_batch-Reaches :
    (rt : Runtime) (c : Config) (worker : String) (round : Round) (relay : Relay) (s : System)
    → relay.config ≡ for_worker c worker
    → s.held worker ≡ []
    → Arranges round.claim
    → Reaches rt c worker s (run_batch rt round s.world relay).0
unfolding run_batch
run_batch-Reaches rt c worker round relay s own free arranged =
    finish-Reaches rt c worker round relay s _ _ own free arranged
      (ap (λ k. claim k round.claim s.rows) (sym own))
