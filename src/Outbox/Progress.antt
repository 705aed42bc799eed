-- ===== src/Outbox/Progress.antt =====
-- internal/outbox/relay.go, `runBatch`: a round in which the calls succeed publishes its batch.
use noapp.Prelude.{
  ℕ, suc, ◌≡◌, refl, ap, ◌∙◌, ◌⊎◌, inl, inr, true, false, ◌==◌, none, some, List, [], ◌∷◌, map, All,
  All-map, All-of_In, All-weaken, In, In-map, In-map_of_In, In-contains, In-select_of_In, contains,
  eq_refl, is_none, arith, Bool-cases, Option-cases,
}
use noapp.Runtime.{Runtime, ok}
use noapp.Database.{OutboxRow}
use noapp.Events.{Envelope, decode, event}
use noapp.Outbox.{Config, Relay, ClaimedEvent, Message}
use noapp.Outbox.Claim.{
  ClaimCalls, done, claim, chosen, claimed_rows, claimed_batch, claimed_event, mark_claimed,
}
use noapp.Outbox.Publish.{World, Calls, is_held, published_row, message_of, mark, send, publish_one}
use noapp.Outbox.Run.{Round, publish_all, finish, run_batch}

abbrev pub batch_of : Config → ClaimCalls → List OutboxRow → List ClaimedEvent
batch_of c calls rows = calls.returning (claimed_batch c calls rows)

-- Every call of the round succeeds, RETURNING drops nothing, and the payloads of the batch are events.
pub record Healthy (rt : Runtime) (c : Config) (round : Round) (rows : List OutboxRow)
    : Type 0 where
  pub begins : round.claim.begin ≡ none
  pub queries : round.claim.query ≡ none
  pub scans : round.claim.scan ≡ none
  pub reads : round.claim.read ≡ none
  pub commits : round.claim.commit ≡ done
  pub returns :
      (x : ClaimedEvent)
      → In x (claimed_batch c round.claim rows)
      → In x (batch_of c round.claim rows)
  pub decodes :
      All (λ x. (e : Envelope) × (decode rt x.payload ≡ event e)) (batch_of c round.claim rows)
  pub publishes : (n : ℕ) (m : Message) → (round.attempts n).publish m ≡ done
  pub updates : (n : ℕ) → (round.attempts n).update ≡ done

abbrev pub sequences : List OutboxRow → List ℕ
sequences rows = map (λ r. r.sequence) rows

sequences-map :
    (f : OutboxRow → OutboxRow) (rows : List OutboxRow)
    → ((r : OutboxRow) → (f r).sequence ≡ r.sequence)
    → sequences (map f rows) ≡ sequences rows
sequences-map f [] keeps = refl
sequences-map f (r ∷ rows) keeps = rw (keeps r, sequences-map f rows keeps) refl

-- A row is published, or the worker holds it for an attempt that is to come.
abbrev Settled : Config → List ClaimedEvent → OutboxRow → Type 0
Settled c items r =
    (is_none r.published_at ≡ false)
    ⊎ ((contains r.sequence (map (λ x. x.sequence) items) ≡ true)
        × (r.published_at ≡ none)
        × (r.claimed_by ≡ some c.worker_id))

module _ (rt : Runtime) (c : Config) where
  pub publish_one-rows :
      (calls : Calls) (item : ClaimedEvent) (w : World) (e : Envelope)
      → decode rt item.payload ≡ event e
      → calls.publish (message_of calls item e) ≡ done
      → calls.update ≡ done
      → (publish_one rt c calls item w).0.rows ≡ map (published_row c calls item) w.rows
  unfolding publish_one send mark
  publish_one-rows calls item w e d p u = ground arith

  published_row-Settled :
      (calls : Calls) (item : ClaimedEvent) (items : List ClaimedEvent) (r : OutboxRow)
      → Settled c (item ∷ items) r
      → Settled c items (published_row c calls item r)
  unfolding is_held
  published_row-Settled calls item items r (inl out) =
      elim (Bool-cases (is_held item.sequence c.worker_id r)) [
        | inl hit ↦ rw hit (inl refl)
        | inr miss ↦ rw miss (inl out)
      ]
  published_row-Settled calls item items r (inr (later, fresh, mine)) =
      elim (Bool-cases (is_held item.sequence c.worker_id r)) [
        | inl hit ↦ rw hit (inl refl)
        | inr miss ↦
            let other : (item.sequence == r.sequence) ≡ false = differs miss in
            rw miss (inr (ground arith, fresh, mine))
      ]
    where
      differs : is_held item.sequence c.worker_id r ≡ false → (item.sequence == r.sequence) ≡ false
      differs miss = ground (arith, eq_refl c.worker_id)

  same_sequence :
      (calls : Calls) (item : ClaimedEvent) (r : OutboxRow)
      → (published_row c calls item r).sequence ≡ r.sequence
  same_sequence calls item r = ground arith

  -- The first attempt is the n-th of the round.
  publish_all-Settled :
      (attempts : ℕ → Calls) (n : ℕ) (items : List ClaimedEvent) (taken : List ℕ) (w : World)
      → All (λ x. (e : Envelope) × (decode rt x.payload ≡ event e)) items
      → ((k : ℕ) (m : Message) → (attempts k).publish m ≡ done)
      → ((k : ℕ) → (attempts k).update ≡ done)
      → All (λ r. contains r.sequence taken ≡ true → Settled c items r) w.rows
      → All
          (λ r. contains r.sequence taken ≡ true → Settled c [] r)
          (publish_all rt c attempts n items w).rows
  unfolding publish_all
  publish_all-Settled attempts n [] taken w d p u all = all
  publish_all-Settled attempts n (item ∷ items) taken w ((e, d), ds) p u all =
      publish_all-Settled attempts (suc n) items taken _ ds p u (
        rw (publish_one-rows (attempts n) item w e d (p n (message_of (attempts n) item e)) (u n)) (
          All-map _ _ (published_row c (attempts n) item) w.rows (λ r settled. step r settled) all))
    where
      step :
          (r : OutboxRow)
          → (contains r.sequence taken ≡ true → Settled c (item ∷ items) r)
          → contains (published_row c (attempts n) item r).sequence taken ≡ true
          → Settled c items (published_row c (attempts n) item r)
      step r settled h =
          published_row-Settled (attempts n) item items r
            (settled (rw (← same_sequence (attempts n) item r) h))

  publish_all-sequences :
      (attempts : ℕ → Calls) (n : ℕ) (items : List ClaimedEvent) (w : World)
      → All (λ x. (e : Envelope) × (decode rt x.payload ≡ event e)) items
      → ((k : ℕ) (m : Message) → (attempts k).publish m ≡ done)
      → ((k : ℕ) → (attempts k).update ≡ done)
      → sequences (publish_all rt c attempts n items w).rows ≡ sequences w.rows
  unfolding publish_all
  publish_all-sequences attempts n [] w d p u = refl
  publish_all-sequences attempts n (item ∷ items) w ((e, d), ds) p u =
      publish_all-sequences attempts (suc n) items _ ds p u
      ∙ ap sequences
          (publish_one-rows (attempts n) item w e d (p n (message_of (attempts n) item e)) (u n))
      ∙ sequences-map (published_row c (attempts n) item) w.rows (same_sequence (attempts n) item)

module _ (c : Config) (calls : ClaimCalls) (rows : List OutboxRow)
    (returns : (x : ClaimedEvent)
      → In x (claimed_batch c calls rows)
      → In x (batch_of c calls rows)) where
  batch_contains :
      (r : OutboxRow)
      → In r rows
      → contains r.sequence (chosen c calls rows) ≡ true
      → contains r.sequence (map (λ x. x.sequence) (batch_of c calls rows)) ≡ true
  batch_contains r i h = In-contains r.sequence _ (
      In-map_of_In (λ x. x.sequence) _ (claimed_event r)
        (returns (claimed_event r) (In-map_of_In claimed_event _ r (In-select_of_In _ rows r i h))))

  mark_claimed-Settled :
      (r : OutboxRow)
      → In r rows
      → contains (mark_claimed c calls.now (chosen c calls rows) r).sequence (chosen c calls rows)
        ≡ true
      → Settled c (batch_of c calls rows) (mark_claimed c calls.now (chosen c calls rows) r)
  mark_claimed-Settled r i h = elim (Bool-cases (contains r.sequence (chosen c calls rows))) [
    | inl hit ↦ elim (Option-cases r.published_at) [
      | inl fresh ↦ rw hit (inr (batch_contains r i hit, fresh, refl))
      | inr (t, out) ↦ rw hit (inl (rw out refl))
    ]
    | inr miss ↦ absurd (ground arith)
  ]

  claimed_rows-Settled :
      All
        (λ r.
          contains r.sequence (chosen c calls rows) ≡ true → Settled c (batch_of c calls rows) r)
        (claimed_rows c calls rows)
  claimed_rows-Settled = All-of_In _ _ λ r i.
      let (r0, j, e) = In-map (mark_claimed c calls.now (chosen c calls rows)) rows r i in
      rw (← e) (mark_claimed-Settled r0 j)

-- A healthy claim leases the chosen rows and hands out their events.
pub claim-Healthy :
    (rt : Runtime) (c : Config) (round : Round) (rows : List OutboxRow)
    → Healthy rt c round rows
    → claim c round.claim rows ≡ (claimed_rows c round.claim rows, ok (batch_of c round.claim rows))
unfolding claim
claim-Healthy rt c round rows h = rw (claim, h.begins, h.queries, h.scans, h.reads, h.commits) refl

-- If every call of a round succeeds, RETURNING drops nothing, and the payloads of the batch are
-- events, then runBatch ends with each row published whose sequence was among the chosen ones, and
-- with the rows' sequences as they were.
pub run_batch-Published :
    (rt : Runtime) (round : Round) (w : World) (relay : Relay)
    → Healthy rt relay.config round w.rows
    → All
        (λ r.
          contains r.sequence (chosen relay.config round.claim w.rows) ≡ true
          → is_none r.published_at ≡ false)
        (run_batch rt round w relay).0.rows
      × (sequences (run_batch rt round w relay).0.rows ≡ sequences w.rows)
unfolding run_batch finish
run_batch-Published rt round w relay healthy =
    rw (run_batch, claim-Healthy rt relay.config round w.rows healthy)
      (
        All-weaken _ _ _ (λ r settled h. settled_now r (settled h))
            (publish_all-Settled rt relay.config round.attempts 0 _ _ _ healthy.decodes
              healthy.publishes healthy.updates
              (claimed_rows-Settled relay.config round.claim w.rows healthy.returns)),
        publish_all-sequences rt relay.config round.attempts 0 _ _ healthy.decodes healthy.publishes
              healthy.updates
            ∙ sequences-map _ w.rows (λ r. ground arith),
      )
  where
    settled_now : (r : OutboxRow) → Settled relay.config [] r → is_none r.published_at ≡ false
    settled_now r (inl out) = out
    settled_now r (inr (later, fresh, mine)) = absurd (cc)
