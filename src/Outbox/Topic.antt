-- ===== src/Outbox/Topic.antt =====
-- internal/outbox/relay.go, `runBatch`: a round in which the calls succeed sends its batch to the
-- topic.
use noapp.Prelude.{
  suc, ℕ, ◌≡◌, refl, true, List, [], ◌∷◌, ◌++◌, All, In, In-map_of_In, In-select_of_In,
  In-append_left, In-append_last, inl, inr, sym, contains, arith,
}
use mathlib.Core.Path.{subst}
use noapp.Runtime.{Runtime}
use noapp.Database.{OutboxRow}
use noapp.Events.{Envelope, decode, event}
use noapp.Outbox.{Config, Relay, ClaimedEvent, Message}
use noapp.Outbox.Claim.{done, chosen, claimed_event}
use noapp.Outbox.Publish.{World, Calls, message_of, mark, send, publish_one}
use noapp.Outbox.Run.{Round, publish_all, finish, run_batch}
use noapp.Outbox.Progress.{Healthy, claim-Healthy}

-- The topic has a message with the payload of an event.
abbrev pub IsSent : ClaimedEvent → World → Type 0
IsSent item w = (m : Message) × In m w.log × (m.value ≡ item.payload)

module _ (rt : Runtime) (c : Config) where
  publish_one-log :
      (calls : Calls) (item : ClaimedEvent) (w : World) (e : Envelope)
      → decode rt item.payload ≡ event e
      → calls.publish (message_of calls item e) ≡ done
      → calls.update ≡ done
      → (publish_one rt c calls item w).0.log ≡ w.log ++ message_of calls item e ∷ []
  unfolding publish_one send mark
  publish_one-log calls item w e d p u = ground arith

  publish_one-IsSent :
      (calls : Calls) (item : ClaimedEvent) (w : World) (e : Envelope)
      → decode rt item.payload ≡ event e
      → calls.publish (message_of calls item e) ≡ done
      → calls.update ≡ done
      → IsSent item (publish_one rt c calls item w).0
  unfolding message_of
  publish_one-IsSent calls item w e d p u =
      let m = message_of calls item e in
      (
        m,
        subst (λ log. In m log) (sym (publish_one-log calls item w e d p u))
            (In-append_last w.log m),
        refl,
      )

  publish_one-keeps :
      (calls : Calls) (item x : ClaimedEvent) (w : World) (e : Envelope)
      → decode rt item.payload ≡ event e
      → calls.publish (message_of calls item e) ≡ done
      → calls.update ≡ done
      → IsSent x w
      → IsSent x (publish_one rt c calls item w).0
  publish_one-keeps calls item x w e d p u (m, i, same) = (
    m,
    subst (λ log. In m log) (sym (publish_one-log calls item w e d p u))
        (In-append_left w.log _ m i),
    same,
  )

  module _ (attempts : ℕ → Calls)
      (publishes : (n : ℕ) (m : Message) → (attempts n).publish m ≡ done)
      (updates : (n : ℕ) → (attempts n).update ≡ done) where
    publish_all-keeps :
        (n : ℕ) (items : List ClaimedEvent) (x : ClaimedEvent) (w : World)
        → All (λ y. (e : Envelope) × (decode rt y.payload ≡ event e)) items
        → IsSent x w
        → IsSent x (publish_all rt c attempts n items w)
    unfolding publish_all
    publish_all-keeps n [] x w d sent = sent
    publish_all-keeps n (item ∷ items) x w ((e, d), ds) sent =
        publish_all-keeps (suc n) items x _ ds (
          publish_one-keeps (attempts n) item x w e d (publishes n (message_of (attempts n) item e))
            (updates n) sent)

    publish_all-IsSent :
        (n : ℕ) (items : List ClaimedEvent) (x : ClaimedEvent) (w : World)
        → All (λ y. (e : Envelope) × (decode rt y.payload ≡ event e)) items
        → In x items
        → IsSent x (publish_all rt c attempts n items w)
    unfolding publish_all
    publish_all-IsSent n [] x w d i = absurd i
    publish_all-IsSent n (item ∷ items) x w ((e, d), ds) (inl same) =
        subst (λ y. IsSent y (publish_all rt c attempts n (item ∷ items) w)) same
          (publish_all-keeps (suc n) items item _ ds (
            publish_one-IsSent (attempts n) item w e d
              (publishes n (message_of (attempts n) item e)) (updates n)))
    publish_all-IsSent n (item ∷ items) x w ((e, d), ds) (inr i) =
        publish_all-IsSent (suc n) items x _ ds i

-- A row that a healthy round chooses is in the topic when the round ends.
pub run_batch-IsSent :
    (rt : Runtime) (round : Round) (w : World) (relay : Relay) (r : OutboxRow)
    → Healthy rt relay.config round w.rows
    → In r w.rows
    → contains r.sequence (chosen relay.config round.claim w.rows) ≡ true
    → IsSent (claimed_event r) (run_batch rt round w relay).0
unfolding run_batch finish
run_batch-IsSent rt round w relay r healthy i hit =
    rw (run_batch, claim-Healthy rt relay.config round w.rows healthy)
      (publish_all-IsSent rt relay.config round.attempts healthy.publishes healthy.updates 0 _
        (claimed_event r) _ healthy.decodes
        (healthy.returns (claimed_event r)
          (In-map_of_In claimed_event _ r (In-select_of_In _ w.rows r i hit))))
