-- ===== src/Consumer.antt =====
-- cmd/realtime/main.go: `consume` and `processRecord`, which pass the records of the topic on to the
-- hub. Log lines and spans are left out.
pub mod Delivery
pub mod Browsers
pub mod Tests
use noapp.Prelude.{ℕ, List, [], ◌∷◌, ◌++◌, String}
use noapp.Json.{Payload}
use noapp.Runtime.{Runtime}
use noapp.Database.{Answer, done, refused, lost}
use noapp.Events.{decode, event, rejected}
use noapp.Realtime.{Hub, broadcast}

-- kgo.Record, as far as the consumer reads it.
pub record KafkaRecord : Type 0 where
  pub partition : ℕ
  pub offset : ℕ
  pub value : Payload

-- What one PollFetches gives, with the answer to the commit of its records.
pub record Fetch : Type 0 where
  pub errors : List (ℕ × String)
  pub records : List KafkaRecord
  pub commit : Answer

-- The hub, and the records whose offsets are committed.
pub record Consumer : Type 0 where
  pub hub : Hub
  pub committed : List KafkaRecord

-- An invalid record is skipped.
unfoldable pub process_record : Runtime → KafkaRecord → Hub → Hub
process_record rt r h = elim (decode rt r.value) [
  | rejected e ↦ h
  | event e ↦ broadcast e r.value h
]

-- EachRecord
unfoldable pub process_records : Runtime → List KafkaRecord → Hub → Hub
process_records rt [] h = h
process_records rt (r ∷ rs) h = process_records rt rs (process_record rt r h)

unfoldable pub commit_records : Answer → List KafkaRecord → List KafkaRecord → List KafkaRecord
commit_records done records committed = committed ++ records
commit_records (refused text) records committed = committed
commit_records (lost text) records committed = committed ++ records

-- A fetch without records is not committed.
unfoldable pub commit_batch : Answer → List KafkaRecord → List KafkaRecord → List KafkaRecord
commit_batch a [] committed = committed
commit_batch a (r ∷ rs) committed = commit_records a (r ∷ rs) committed

-- One round of the loop.
unfoldable pub consume_fetch : Runtime → Fetch → Consumer → Consumer
consume_fetch rt f c = record {
  hub = process_records rt f.records c.hub;
  committed = commit_batch f.commit f.records c.committed;
}

-- The rounds until the context ends.
unfoldable pub consume : Runtime → List Fetch → Consumer → Consumer
consume rt [] c = c
consume rt (f ∷ fs) c = consume rt fs (consume_fetch rt f c)
