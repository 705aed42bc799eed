-- ===== src/Outbox/Drain.antt =====
-- internal/outbox/relay.go, `Run`: rounds in which the calls succeed empty the outbox.
pub mod Rows
use noapp.Prelude.{
  zero, ==_iff, All-weaken, String, ℕ, suc, ◌≤◌, ◌≡◌, refl, ◌∙◌, ◌⊎◌, inl, inr, Bool, true, false,
  not, ◌&&◌, Option, none, some, List, [], ◌∷◌, map, length, take, select, count_if, contains,
  is_none, All, In, Bool-cases, Option-cases, arith, ℤ, pos, ◌≤ℤ◌, pos_part,
}
use noapp.Runtime.{Runtime}
use noapp.Database.{OutboxRow}
use noapp.Events.{Envelope, decode, event}
use noapp.Outbox.{Config, Relay, ClaimedEvent, Message}
use noapp.Outbox.Claim.{done, chosen, mark_claimed, is_due, candidates, pending}
use noapp.Outbox.Publish.{World, Calls, published_row, is_held, message_of}
use noapp.Outbox.Run.{Round, publish_all, finish, run_batch, run}
use noapp.Outbox.Progress.{Healthy, claim-Healthy, publish_one-rows, run_batch-Published}
use noapp.Outbox.Drain.Rows.{
  is_unpublished, IsReady, AllEnd, start-AllEnd, published_row-AllEnd, same, Taken, settled-AllEnd,
  open_count, AllEnd-count, fewer_open, AllEnd-IsReady, none_open,
}

publish_all-AllEnd :
    (rt : Runtime) (c : Config) (attempts : ℕ → Calls) (n : ℕ) (items : List ClaimedEvent)
    (f : OutboxRow → OutboxRow) (rows : List OutboxRow) (w : World)
    → All (λ x. (e : Envelope) × (decode rt x.payload ≡ event e)) items
    → ((k : ℕ) (m : Message) → (attempts k).publish m ≡ done)
    → ((k : ℕ) → (attempts k).update ≡ done)
    → AllEnd f rows w.rows
    → AllEnd f rows (publish_all rt c attempts n items w).rows
unfolding publish_all
publish_all-AllEnd rt c attempts n [] f rows w d p u k = k
publish_all-AllEnd rt c attempts n (item ∷ items) f rows w ((e, d), ds) p u k =
    publish_all-AllEnd rt c attempts (suc n) items f rows _ ds p u (
      rw
        (publish_one-rows rt c (attempts n) item w e d (p n (message_of (attempts n) item e)) (u n))
        (published_row-AllEnd f c (attempts n) item rows w.rows k))

round-AllEnd :
    (rt : Runtime) (round : Round) (w : World) (relay : Relay)
    → Healthy rt relay.config round w.rows
    → AllEnd
        (mark_claimed relay.config round.claim.now (chosen relay.config round.claim w.rows))
        w.rows
        (run_batch rt round w relay).0.rows
unfolding run_batch finish
round-AllEnd rt round w relay healthy =
    rw (run_batch, claim-Healthy rt relay.config round w.rows healthy)
      (publish_all-AllEnd rt relay.config round.attempts 0 _ _ w.rows _ healthy.decodes
        healthy.publishes healthy.updates (start-AllEnd _ w.rows))

is_due_mono : (t now : ℤ) (r : OutboxRow) → t ≤ℤ now → is_due t r ≡ true → is_due now r ≡ true
unfolding is_due
is_due_mono t now r le h = elim (Option-cases r.claim_until) [
  | inl e ↦ ground arith
  | inr (u, e) ↦ ground arith
]

-- A list without the elements that fail a test begins with the first one that passes it.
first_due :
    (p : OutboxRow → Bool) (n : ℕ) (rows : List OutboxRow)
    → 1 ≤ n
    → ((r : OutboxRow) → is_unpublished r ≡ false → p r ≡ false)
    → All (λ r. is_unpublished r ≡ true → p r ≡ true) rows
    → 1 ≤ open_count rows
    → (r : OutboxRow) × In r rows
      × (is_unpublished r ≡ true)
      × (contains r.sequence (take n (map (λ x. x.sequence) (select p rows))) ≡ true)
first_due p zero rows some_room only a le = absurd (omega arith)
first_due p (suc b) [] some_room only a le = absurd (omega arith)
first_due p (suc b) (x ∷ rs) some_room only (k, ks) le = elim (Bool-cases (is_unpublished x)) [
  | inl fresh ↦
      let due = k fresh in
      let own = (==_iff x.sequence x.sequence).1 refl in (x, inl refl, fresh, rw due (ground arith))
  | inr out ↦
      let skipped = only x out in
      let (r, i, fresh, hit) = first_due p (suc b) rs some_room only ks (ground arith) in
      (r, inr i, fresh, rw skipped hit)
]

some_chosen :
    (c : Config) (round : Round) (t : ℤ) (rows : List OutboxRow)
    → pos 1 ≤ℤ c.batch_size
    → t ≤ℤ round.claim.now
    → ((n : ℕ) → round.claim.locked n ≡ false)
    → All (IsReady t) rows
    → 1 ≤ open_count rows
    → (r : OutboxRow) × In r rows
      × (is_unpublished r ≡ true)
      × (contains r.sequence (chosen c round.claim rows) ≡ true)
unfolding candidates is_due
some_chosen c round t rows batch later free ready le =
    first_due (λ r. is_due round.claim.now r && not (round.claim.locked r.sequence))
      (pos_part c.batch_size) rows (ground arith) (λ r out. ground arith)
      (All-weaken _ _ rows
        (λ r k fresh.
          let due = is_due_mono t round.claim.now r later (k fresh) in
          let unlocked = free r.sequence in ground arith)
        ready)
      le

run_batch-config :
    (rt : Runtime) (round : Round) (w : World) (relay : Relay)
    → Healthy rt relay.config round w.rows
    → (run_batch rt round w relay).1.config ≡ relay.config
unfolding run_batch finish pending
run_batch-config rt round w relay healthy =
    rw (run_batch, claim-Healthy rt relay.config round w.rows healthy) (go round.count _)
  where
    go :
        (count : Option String) (rows : List OutboxRow)
        → (pending count rows relay).0.config ≡ relay.config
    go none rows = refl
    go (some text) rows = refl

-- A round closes at least one of the open rows.
fewer :
    (rt : Runtime) (t : ℤ) (round : Round) (w : World) (relay : Relay)
    → pos 1 ≤ℤ relay.config.batch_size
    → Healthy rt relay.config round w.rows
    → t ≤ℤ round.claim.now
    → ((n : ℕ) → round.claim.locked n ≡ false)
    → All (IsReady t) w.rows
    → AllEnd same w.rows (run_batch rt round w relay).0.rows
    → (n : ℕ) → open_count w.rows ≤ suc n
    → open_count (run_batch rt round w relay).0.rows ≤ n
fewer rt t round w relay batch healthy later free ready moved n le =
    let most = AllEnd-count w.rows _ moved in
    elim (none_or_some (open_count w.rows)) [
      | inl nothing ↦ omega arith
      | inr more ↦
          let (r, i, fresh, hit) =
            some_chosen relay.config round t w.rows batch later free ready more in
          let less =
            fewer_open (chosen relay.config round.claim w.rows) w.rows _ r moved
              (run_batch-Published rt round w relay healthy).0 i fresh hit in
          omega arith
    ]
  where
    none_or_some : (k : ℕ) → (k ≤ 0) ⊎ (1 ≤ k)
    none_or_some zero = inl (omega arith)
    none_or_some (suc k) = inr (omega arith)

-- Every round is healthy in the state that it meets: every call succeeds, RETURNING drops nothing, and
-- the payloads of the batch are acceptable events. No other transaction holds a lock, and the
-- database's clock is at t or later.
abbrev pub HealthyRun : Runtime → ℤ → List Round → World → Relay → Type 0
HealthyRun rt t [] w relay = Unit
HealthyRun rt t (round ∷ rounds) w relay =
    Healthy rt relay.config round w.rows
    × (t ≤ℤ round.claim.now)
    × ((n : ℕ) → round.claim.locked n ≡ false)
    × HealthyRun rt t rounds (run_batch rt round w relay).0 (run_batch rt round w relay).1

-- Let the batch size be positive and all events that are not published be due at a time. In each of a
-- number of rounds, in the state that it meets, let the database's clock be at that time or later,
-- nothing else lock the table, every call of the relay succeed, RETURNING drop nothing, and each
-- payload of the batch decode to an acceptable event. Then as many rounds as there are events that
-- are not published are enough: Run ends with all of them published.
pub run-Drains :
    (rt : Runtime) (t : ℤ) (rounds : List Round) (w : World) (relay : Relay)
    → pos 1 ≤ℤ relay.config.batch_size
    → HealthyRun rt t rounds w relay
    → All (IsReady t) w.rows
    → count_if (λ r. is_none r.published_at) w.rows ≤ length rounds
    → All (λ r. is_none r.published_at ≡ false) (run rt rounds w relay).0.rows
unfolding run
run-Drains rt t [] w relay batch h ready le = none_open w.rows le
run-Drains rt t (round ∷ rounds) w relay batch (healthy, later, free, h) ready le =
    let moved =
      settled-AllEnd relay.config round.claim.now (chosen relay.config round.claim w.rows) w.rows _
        (round-AllEnd rt round w relay healthy) (run_batch-Published rt round w relay healthy).0 in
    run-Drains rt t rounds (run_batch rt round w relay).0 (run_batch rt round w relay).1
      (rw (run_batch-config rt round w relay healthy) batch) h
      (AllEnd-IsReady t w.rows _ moved ready)
      (fewer rt t round w relay batch healthy later free ready moved (length rounds) le)
