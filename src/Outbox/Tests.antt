-- ===== src/Outbox/Tests.antt =====
-- internal/outbox/relay.go: the theorems at a table with one event, relays and calls that succeed.
use noapp.Prelude.{
  ◌*◌, ◌≡◌, ◌↔◌, refl, true, false, none, some, List, [], ◌∷◌, pos, ◌≤ℤ◌, ◌+ℤ◌, In, inl, is_none,
  All, arith, contains, map, take,
}
use Prim.Native.Nat.{min, ◌*◌, ◌^◌}
use noapp.Runtime.{ok, claim_lost}
use noapp.Database.{OutboxRow}
use noapp.Events.{event, decode, encode_event, encode_task}
use noapp.Events.Insert.{new_row}
use noapp.Outbox.{Message, ClaimedEvent, new, retry_delay}
use noapp.Outbox.Settings.{IsValid, KeepsSettings, new-IsValid}
use noapp.Outbox.Backoff.{retry_delay-suc}
use noapp.Outbox.Claim.{claim, chosen, claimed_rows, claimed_event, candidates, is_due, lease}
use noapp.Outbox.Leases.{claim-ok, claim_exclusive, due_rows}
use noapp.Outbox.Publish.{World, publish_one, mark, message_of, affected, is_held}
use noapp.Outbox.Cases.{Outcome, publish_one-Outcome}
use noapp.Outbox.LostClaims.{publish_without_claim}
use noapp.Outbox.Run.{run_batch, run}
use noapp.Outbox.Drain.{run-Drains}
use noapp.Outbox.Progress.{Healthy}
use noapp.Outbox.Batches.{Reaches, run_batch-Reaches}
use noapp.Outbox.System.{
  System, for_worker, assign, with_rows, insert, claims, attempts, Reach, here, next,
}
use noapp.Outbox.System.Safety.{start, published_was_sent, dead_iff_exhausted}
use noapp.Fixtures.{
  settings, claim_calls, attempt_calls as calls, no_counts, round, relay, epoch_runtime,
  sample_event, sample_payload, sample_row,
}

abbrev inserted : System
inserted = record {
  world = record { rows = sample_row ∷ []; log = []; metrics = no_counts };
  held = λ w. [];
  next = 2;
}

abbrev leased_rows : List OutboxRow
leased_rows = claimed_rows (for_worker settings "a") claim_calls (sample_row ∷ [])

abbrev item : ClaimedEvent
item = claimed_event sample_row

abbrev leased : System
leased = record inserted {
  world = with_rows inserted.world leased_rows;
  held = assign inserted.held "a" (item ∷ []);
}

abbrev settled : System
settled = record {
  world = (publish_one epoch_runtime (for_worker settings "a") calls item leased.world).0;
  held = assign leased.held "a" [];
  next = 2;
}

settled-Reach : Reach epoch_runtime settings (start no_counts) settled
unfolding claim candidates is_due lease new_row ◌+ℤ◌
settled-Reach =
    next
      (next (next here (insert (pos 0) sample_event sample_payload refl))
        (claims "a" claim_calls leased_rows (item ∷ []) refl (λ xs x i. i) refl refl))
      (attempts "a" item [] calls refl refl)

abbrev leased_row : OutboxRow
leased_row = record sample_row { claimed_by = some "a"; claim_until = some (pos 30000000005) }

abbrev settled_row : OutboxRow
settled_row = record sample_row { published_at = some (pos 6) }

settled-rows : settled.rows ≡ settled_row ∷ []
unfolding publish_one decode new_row encode_event encode_task mark is_held candidates
settled-rows = refl

-- The lease has passed to another relay.
abbrev elsewhere : World
elsewhere = record {
  rows = record leased_row { claimed_by = some "b" } ∷ [];
  log = [];
  metrics = no_counts;
}

abbrev last_item : ClaimedEvent
last_item = record item { attempt_count = 19 }

settled_row-In : In settled_row settled.rows
settled_row-In = rw settled-rows (inl refl)

claims_sample : claim settings claim_calls (sample_row ∷ []) ≡ (leased_rows, ok (item ∷ []))
unfolding claim candidates is_due lease new_row ◌+ℤ◌
claims_sample = refl

chosen_sample : contains 1 (chosen settings claim_calls (sample_row ∷ [])) ≡ true
unfolding candidates is_due new_row
chosen_sample = refl

early_enough : pos 9 ≤ℤ pos 5 +ℤ lease settings
unfolding lease ◌+ℤ◌
early_enough = omega arith

new_sample :
    new [] (record settings { max_attempts = pos 0 })
    ≡ ok (record { config = settings; backlog = 0 })
unfolding new
new_sample = refl

not_affected : affected settings item elsewhere.rows ≡ 0
unfolding new_row is_held
not_affected = refl

decodes_sample : decode epoch_runtime item.payload ≡ event sample_event
unfolding decode encode_event encode_task new_row
decodes_sample = refl

published_was_sent_example : (m : Message) × In m settled.log × (m.value ≡ sample_payload)
unfolding new_row
published_was_sent_example =
    published_was_sent epoch_runtime settings no_counts settled (omega arith) settled-Reach
      settled_row settled_row-In refl

dead_iff_exhausted_example :
    (pos 0 ≤ℤ pos 20)
    × ((is_none settled_row.dead_at ≡ false) ↔ (pos 0 ≡ pos 20))
    × (is_none settled_row.dead_at ≡ false
        → (settled_row.claimed_by ≡ none) × (settled_row.published_at ≡ none))
unfolding new_row
dead_iff_exhausted_example =
    dead_iff_exhausted epoch_runtime settings no_counts settled (omega arith) settled-Reach
      settled_row settled_row-In

publish_one-Outcome_example :
    Outcome epoch_runtime settings calls item leased.world
      (publish_one epoch_runtime settings calls item leased.world).0
publish_one-Outcome_example = publish_one-Outcome epoch_runtime settings calls item leased.world

claim-ok_example :
    (item ∷ [] ≡ map claimed_event (take 10 (due_rows claim_calls (sample_row ∷ []))))
    × (leased_rows ≡ claimed_rows settings claim_calls (sample_row ∷ []))
claim-ok_example =
    claim-ok settings claim_calls (sample_row ∷ []) leased_rows (item ∷ []) (tt, tt) claims_sample

claim_exclusive_example :
    contains 1 (chosen settings (record claim_calls { now = pos 9 }) leased_rows) ≡ false
claim_exclusive_example =
    claim_exclusive settings settings claim_calls (record claim_calls { now = pos 9 })
      (sample_row ∷ []) 1 chosen_sample early_enough

new-IsValid_example :
    IsValid settings × KeepsSettings (record settings { max_attempts = pos 0 }) settings
new-IsValid_example =
    new-IsValid [] (record settings { max_attempts = pos 0 })
      (record { config = settings; backlog = 0 }) new_sample

retry_delay-suc_example :
    retry_delay (pos 3) (pos 60000000000) ≡ pos (min (2 ^ min 2 10 * 1000000000) 60000000000)
retry_delay-suc_example = retry_delay-suc 2 60000000000

publish_without_claim_example :
    publish_one epoch_runtime settings calls item elsewhere
    ≡ (record elsewhere { log = message_of calls item sample_event ∷ [] }, some claim_lost)
publish_without_claim_example =
    publish_without_claim epoch_runtime settings calls item sample_event elsewhere not_affected
      decodes_sample refl refl

run_batch-Reaches_example :
    Reaches epoch_runtime settings "a" inserted
      (run_batch epoch_runtime round inserted.world relay).0
run_batch-Reaches_example =
    run_batch-Reaches epoch_runtime settings "a" round relay inserted refl refl (λ xs x i. i)

healthy : Healthy epoch_runtime settings round inserted.world.rows
unfolding candidates is_due new_row
healthy = record {
  begins = refl;
  queries = refl;
  scans = refl;
  reads = refl;
  commits = refl;
  returns = λ x i. i;
  decodes = ((sample_event, decodes_sample), tt);
  publishes = λ n m. refl;
  updates = λ n. refl;
}

due_now : is_due (pos 5) sample_row ≡ true
unfolding is_due new_row
due_now = refl

run-Drains_example :
    All
      (λ r. is_none r.published_at ≡ false)
      (run epoch_runtime (round ∷ []) inserted.world relay).0.rows
unfolding new_row
run-Drains_example =
    run-Drains epoch_runtime (pos 5) (round ∷ []) inserted.world relay (omega arith)
      (healthy, omega arith, (λ n. refl), tt) ((λ fresh. due_now), tt) (omega arith)
