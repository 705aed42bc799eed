-- ===== src/Outbox/Publish.antt =====
-- internal/outbox/relay.go: `publishOne` and `fail`, which settle one leased event.
use noapp.Prelude.{
  ℕ, suc, ◌+◌, String, Bool, false, ◌&&◌, Option, none, some, List, [], ◌∷◌, ◌++◌, map, count_if,
  is_none, ℤ, pos, leb_ℤ, ◌+ℤ◌, str_eq, ◌==◌, take_text, format_int, if◌then◌else◌,
}
use noapp.Runtime.{Runtime, Error, publish, mark_published, claim_lost, joined}
use noapp.Database.{OutboxRow}
use noapp.Events.{Envelope, topic, decode, event, rejected}
use noapp.Outbox.{Message, Config, Metrics, ClaimedEvent, retry_delay}
use noapp.Outbox.Claim.{Answer, done, refused, lost}

-- The table, the log of the topic (oldest record first), and the relay's counters.
pub record World : Type 0 where
  pub rows : List OutboxRow
  pub log : List Message
  pub metrics : Metrics

-- The answers to the calls of one attempt: the publisher's, that to the UPDATE, the headers that the
-- trace propagator adds, the time of the database and that of the relay's own clock.
pub record Calls : Type 0 where
  pub publish : Message → Answer
  pub update : Answer
  pub injected : List (String × String)
  pub now : ℤ
  pub clock : ℤ

-- WHERE sequence = $1 AND claimed_by = $2 AND published_at IS NULL
unfoldable pub is_held : ℕ → String → OutboxRow → Bool
is_held sequence worker r =
    r.sequence == sequence
    && (elim r.claimed_by [ none ↦ false | some w ↦ str_eq w worker ] && is_none r.published_at)

abbrev pub update_held : ℕ → String → (OutboxRow → OutboxRow) → OutboxRow → OutboxRow
update_held sequence worker f r = if is_held sequence worker r then f r else r

-- What an UPDATE leaves behind.
abbrev pub updated : Answer → (OutboxRow → OutboxRow) → List OutboxRow → List OutboxRow
updated done f rows = map f rows
updated (refused text) f rows = rows
updated (lost text) f rows = map f rows

abbrev pub set_published : ℤ → OutboxRow → OutboxRow
set_published now r = record r {
  published_at = some now;
  claimed_by = none;
  claim_until = none;
  last_error = none;
}

abbrev pub set_failed : ℤ → ℤ → String → Bool → OutboxRow → OutboxRow
set_failed now next text dead r = record r {
  attempt_count = r.attempt_count + 1;
  next_attempt_at = next;
  claimed_by = none;
  claim_until = none;
  last_error = some (take_text 2000 text);
  dead_at = if dead then some now else r.dead_at;
}

-- Whether this attempt is the last one.
unfoldable pub is_last : Config → ClaimedEvent → Bool
is_last c item = leb_ℤ c.max_attempts (pos (item.attempt_count + 1))

abbrev pub failed_row : Runtime → Config → Calls → ClaimedEvent → Error → OutboxRow → OutboxRow
failed_row rt c calls item cause = update_held item.sequence c.worker_id (
    set_failed calls.now (calls.clock +ℤ retry_delay (pos (item.attempt_count + 1)) c.max_backoff)
      (rt.error_text cause) (is_last c item))

abbrev pub published_row : Config → Calls → ClaimedEvent → OutboxRow → OutboxRow
published_row c calls item = update_held item.sequence c.worker_id (set_published calls.now)

count_failure : Bool → Metrics → Metrics
count_failure dead m = record m {
  failed = suc m.failed;
  dead = if dead then suc m.dead else m.dead;
}

failure_error : Answer → Error → Error
failure_error done cause = cause
failure_error (refused text) cause = joined cause text
failure_error (lost text) cause = joined cause text

unfoldable pub fail : Runtime → Config → Calls → ClaimedEvent → Error → World → World × Option Error
unfolding count_failure failure_error
fail rt c calls item cause w = (
  record w {
    rows = updated calls.update (failed_row rt c calls item cause) w.rows;
    metrics = count_failure (is_last c item) w.metrics;
  },
  some (failure_error calls.update cause),
)

unfoldable pub message_of : Calls → ClaimedEvent → Envelope → Message
message_of calls item e = record {
  topic = topic;
  key = format_int e.project_id;
  value = item.payload;
  headers = ("event_id", e.event_id) ∷ ("event_type", e.event_type) ∷ calls.injected;
}

abbrev pub affected : Config → ClaimedEvent → List OutboxRow → ℕ
affected c item rows = count_if (is_held item.sequence c.worker_id) rows

-- After the publisher's acknowledgement.
unfoldable pub mark : Config → Calls → ClaimedEvent → World → World × Option Error
mark c calls item w =
    let rows' = updated calls.update (published_row c calls item) w.rows in
    elim calls.update [
      | refused text ↦ (w, some (mark_published text))
      | lost text ↦ (record w { rows = rows' }, some (mark_published text))
      | done ↦
          if affected c item w.rows == 1
          then (
            record w {
              rows = rows';
              metrics = record w.metrics { published = suc w.metrics.published };
            },
            none,
          )
          else (record w { rows = rows' }, some claim_lost)
    ]

abbrev pub logged : World → Message → World
logged w m = record w { log = w.log ++ m ∷ [] }

unfoldable pub send :
    Runtime → Config → Calls → ClaimedEvent → Message → Answer → World → World × Option Error
send rt c calls item m done w = mark c calls item (logged w m)
send rt c calls item m (refused text) w = fail rt c calls item (publish text) w
send rt c calls item m (lost text) w = fail rt c calls item (publish text) (logged w m)

unfoldable pub publish_one : Runtime → Config → Calls → ClaimedEvent → World → World × Option Error
unfolding send
publish_one rt c calls item w = elim (decode rt item.payload) [
  | rejected cause ↦ fail rt c calls item cause w
  | event e ↦
      send rt c calls item (message_of calls item e) (calls.publish (message_of calls item e)) w
]
