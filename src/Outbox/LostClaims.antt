-- ===== src/Outbox/LostClaims.antt =====
-- internal/outbox/relay.go: what `publishOne` and `fail` do when the lease has passed to another.
use noapp.Prelude.{
  ℕ, ℕ, ◌≡◌, refl, List, [], ◌∷◌, ◌++◌, map, count_if, some, arith, String, Bool-cases, inl, inr,
}
use noapp.Runtime.{Runtime, claim_lost}
use noapp.Database.{OutboxRow}
use noapp.Events.{Envelope, decode, event}
use noapp.Outbox.{Config, ClaimedEvent}
use noapp.Outbox.Claim.{done}
use noapp.Outbox.Publish.{
  World, Calls, is_held, update_held, affected, message_of, mark, send, set_published, publish_one,
}

-- An UPDATE whose condition no row meets changes nothing.
update_none :
    (key : ℕ) (worker : String) (f : OutboxRow → OutboxRow) (rows : List OutboxRow)
    → count_if (is_held key worker) rows ≡ 0
    → map (update_held key worker f) rows ≡ rows
update_none key worker f [] h = refl
update_none key worker f (r ∷ rows) h = elim (Bool-cases (is_held key worker r)) [
  | inl hit ↦ absurd (ground arith)
  | inr miss ↦ rw (miss, update_none key worker f rows (rw miss at h))
]

-- If the lease has passed on before the acknowledged publication of an acceptable event is
-- recorded, and the UPDATE succeeds, the relay reports the lost claim, counts nothing and leaves
-- the table alone; the topic has the message.
pub publish_without_claim :
    (rt : Runtime) (c : Config) (calls : Calls) (item : ClaimedEvent) (e : Envelope) (w : World)
    → affected c item w.rows ≡ 0
    → decode rt item.payload ≡ event e
    → calls.publish (message_of calls item e) ≡ done
    → calls.update ≡ done
    → publish_one rt c calls item w
      ≡ (record w { log = w.log ++ message_of calls item e ∷ [] }, some claim_lost)
unfolding publish_one send mark
publish_without_claim rt c calls item e w h d p u =
    let same = update_none item.sequence c.worker_id (set_published calls.now) w.rows h in
    ground (arith, same)
