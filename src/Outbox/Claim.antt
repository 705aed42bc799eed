-- ===== src/Outbox/Claim.antt =====
-- internal/outbox/relay.go: `claim`, which leases due events for one worker, and `Pending`.
use noapp.Prelude.{
  ℕ, ◌/◌, String, Bool, true, ◌&&◌, not, Option, none, some, List, map, take, select, count_if,
  contains, is_none, ℤ, pos, pos_part, ltb_ℤ, leb_ℤ, ◌+ℤ◌, ◌*◌, if◌then◌else◌,
}
use noapp.Runtime.{
  begin_claim, claim_events, scan_claimed, read_claimed, commit_claim, count_pending, Result, ok,
  err,
}
pub use noapp.Database.{Answer, done, refused, lost}
use noapp.Database.{OutboxRow}
use noapp.Outbox.{Config, ClaimedEvent, Relay}

-- The condition of the SELECT. `now` is the time of the transaction.
unfoldable pub is_due : ℤ → OutboxRow → Bool
is_due now r =
    is_none r.published_at
    && (is_none r.dead_at
        && (leb_ℤ r.next_attempt_at now
            && elim r.claim_until [ none ↦ true | some t ↦ ltb_ℤ t now ]))

-- FOR UPDATE SKIP LOCKED leaves out the rows that other transactions have locked.
unfoldable pub candidates : (ℕ → Bool) → ℤ → ℕ → List OutboxRow → List ℕ
unfolding is_due
candidates locked now limit rows =
    take limit (map (λ r. r.sequence) (select (λ r. is_due now r && not (locked r.sequence)) rows))

-- int(ClaimFor.Seconds()) as an interval: whole seconds.
unfoldable pub lease : Config → ℤ
lease c = pos (pos_part c.claim_for / 1000000000 * 1000000000)

abbrev pub mark_claimed : Config → ℤ → List ℕ → OutboxRow → OutboxRow
mark_claimed c now chosen r =
    if contains r.sequence chosen
    then record r { claimed_by = some c.worker_id; claim_until = some (now +ℤ lease c) }
    else r

abbrev pub claimed_event : OutboxRow → ClaimedEvent
claimed_event r = record {
  sequence = r.sequence;
  event_id = r.event_id;
  project_id = r.project_id;
  event_type = r.event_type;
  payload = r.payload;
  occurred_at = r.occurred_at;
  attempt_count = r.attempt_count;
}

-- The answers to the calls of one claim. RETURNING promises no order, so `returning` arranges the
-- batch.
pub record ClaimCalls : Type 0 where
  pub now : ℤ
  pub locked : ℕ → Bool
  pub begin : Option String
  pub query : Option String
  pub scan : Option String
  pub read : Option String
  pub commit : Answer
  pub returning : List ClaimedEvent → List ClaimedEvent

abbrev pub chosen : Config → ClaimCalls → List OutboxRow → List ℕ
chosen c calls rows = candidates calls.locked calls.now (pos_part c.batch_size) rows

abbrev pub claimed_rows : Config → ClaimCalls → List OutboxRow → List OutboxRow
claimed_rows c calls rows = map (mark_claimed c calls.now (chosen c calls rows)) rows

-- The rows that the UPDATE returns.
abbrev pub claimed_batch : Config → ClaimCalls → List OutboxRow → List ClaimedEvent
claimed_batch c calls rows =
    map claimed_event (select (λ r. contains r.sequence (chosen c calls rows)) rows)

settle_claim :
    Answer
    → List OutboxRow
    → List OutboxRow
    → List ClaimedEvent
    → List OutboxRow × Result (List ClaimedEvent)
settle_claim done old new batch = (new, ok batch)
settle_claim (refused text) old new batch = (old, err (commit_claim text))
settle_claim (lost text) old new batch = (new, err (commit_claim text))

-- An error before the commit rolls the transaction back.
unfoldable pub claim :
    Config → ClaimCalls → List OutboxRow → List OutboxRow × Result (List ClaimedEvent)
unfolding settle_claim
claim c calls rows = elim calls.begin [
  | some text ↦ (rows, err (begin_claim text))
  | none ↦ elim calls.query [
    | some text ↦ (rows, err (claim_events text))
    | none ↦ elim calls.scan [
      | some text ↦ (rows, err (scan_claimed text))
      | none ↦ elim calls.read [
        | some text ↦ (rows, err (read_claimed text))
        | none ↦
            settle_claim calls.commit rows (claimed_rows c calls rows)
              (calls.returning (claimed_batch c calls rows))
      ]
    ]
  ]
]

-- The rows that are neither published nor dead.
abbrev pub is_pending : OutboxRow → Bool
is_pending r = is_none r.published_at && is_none r.dead_at

-- `Pending` keeps the last count that it could read.
unfoldable pub pending : Option String → List OutboxRow → Relay → Relay × Result ℕ
pending none rows relay =
    let count = count_if is_pending rows in (record relay { backlog = count }, ok count)
pending (some text) rows relay = (relay, err (count_pending text))
