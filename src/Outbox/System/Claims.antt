-- ===== src/Outbox/System/Claims.antt =====
-- internal/outbox/relay.go: a claim keeps the invariant of the relays' common table.
use noapp.Prelude.{
  ℕ, ℤ, ◌≡◌, refl, sym, ap, ◌∙◌, String, true, false, List, [], some, In, In-map, In-select,
  contains, pos_part, ◌⊎◌, inl, inr, Bool-cases, arith, eq_iff, str_eq, is_none,
}
use mathlib.Core.Path.{subst}
use noapp.Runtime.{Error, ok, err}
use noapp.Database.{OutboxRow}
use noapp.Outbox.{Config, ClaimedEvent}
use noapp.Outbox.Order.{Ascending, Ascending-unique, Ascending-map, chosen_row}
use noapp.Outbox.Leases.{mark_claimed-sequence, claim-eq-ok, claim-eq-err}
use noapp.Outbox.Claim.{
  ClaimCalls, is_due, candidates, mark_claimed, claimed_event, chosen, claimed_rows, claimed_batch,
  claim,
}
use noapp.Outbox.System.{System, for_worker, assign, with_rows, Arranges, RowInv, Inv}

-- A chosen row of an ordered table is due.
chosen-is_due :
    (c : Config) (calls : ClaimCalls) (rows : List OutboxRow) (r : OutboxRow)
    → Ascending rows
    → In r rows
    → contains r.sequence (chosen c calls rows) ≡ true
    → is_due calls.now r ≡ true
unfolding candidates
chosen-is_due c calls rows r h i e =
    let (q, j, same, passed) = chosen_row _ (pos_part c.batch_size) rows r.sequence e in
    let own = Ascending-unique rows q r h j i same in
    subst (λ x. is_due calls.now x ≡ true) own (ground arith)

due-open :
    (now : ℤ) (r : OutboxRow)
    → is_due now r ≡ true
    → (is_none r.published_at ≡ true) × (is_none r.dead_at ≡ true)
unfolding is_due
due-open now r h = ground arith

-- What marking a row keeps, by whether the row is chosen.
marked_cases :
    (c : Config) (now : ℤ) (keys : List ℕ) (r : OutboxRow)
    → ((contains r.sequence keys ≡ true)
        × ((mark_claimed c now keys r).claimed_by ≡ some c.worker_id))
      ⊎ ((contains r.sequence keys ≡ false) × (mark_claimed c now keys r ≡ r))
marked_cases c now keys r = elim (Bool-cases (contains r.sequence keys)) [
  | inl e ↦ inl (e, rw e refl)
  | inr e ↦ inr (e, rw e refl)
]

-- Marking changes the lease alone.
record SameEvent (r q : OutboxRow) : Type 0 where
  sequence : q.sequence ≡ r.sequence
  payload : q.payload ≡ r.payload
  published_at : q.published_at ≡ r.published_at
  dead_at : q.dead_at ≡ r.dead_at
  attempt_count : q.attempt_count ≡ r.attempt_count

mark_claimed-SameEvent :
    (c : Config) (now : ℤ) (keys : List ℕ) (r : OutboxRow) → SameEvent r (mark_claimed c now keys r)
mark_claimed-SameEvent c now keys r = ground arith

module _ (c : Config) (s : System) (inv : Inv c s) (worker : String) (calls : ClaimCalls) where
  marked_row : OutboxRow → OutboxRow
  marked_row =
      mark_claimed (for_worker c worker) calls.now (chosen (for_worker c worker) calls s.rows)

  module _ (batch : List ClaimedEvent)
      (known : (x : ClaimedEvent)
        → In x batch
        → In x (claimed_batch (for_worker c worker) calls s.rows)) where
    after : System
    after = record s {
      world = with_rows s.world (claimed_rows (for_worker c worker) calls s.rows);
      held = assign s.held worker batch;
    }

    batch_row :
        (x : ClaimedEvent) → In x batch → (q : OutboxRow) × In q s.rows × (claimed_event q ≡ x)
    batch_row x i =
        let (q, j, e) = In-map claimed_event _ x (known x i) in
        let (k, p) = In-select _ s.rows q j in (q, k, e)

    module _ (r : OutboxRow) (i : In r s.rows) where
      item_current :
          (w : String) (x : ClaimedEvent)
          → In x (assign s.held worker batch w)
          → x.sequence ≡ r.sequence
          → (x.payload ≡ r.payload)
            × ((marked_row r).claimed_by ≡ some w → x.attempt_count ≡ r.attempt_count)
      unfolding marked_row
      item_current w x j e = elim (Bool-cases (str_eq w worker)) [
        | inl same ↦
            let (q, k, made) = batch_row x (rw same at j) in
            let own : q ≡ r = Ascending-unique s.rows q r inv.ascending k i (ground arith) in
            (ground arith, λ h. ground arith)
        | inr other ↦
            let old : In x (s.held w) = rw other at j in
            let ri = inv.rows r i in
            (
              ri.payload_current w x old e,
              λ h.
                  elim (marked_cases (for_worker c worker) calls.now
                    (chosen (for_worker c worker) calls s.rows) r) [
                      | inl (hit, mine) ↦ absurd (ground (arith, eq_iff w worker))
                      | inr (miss, same) ↦ ri.attempt_current w x old e (ground arith)
                    ],
            )
      ]

      marked-RowInv : RowInv c after (marked_row r)
      unfolding marked_row after
      marked-RowInv =
          let ri = inv.rows r i in
          let open_row =
            λ (h : contains r.sequence (chosen (for_worker c worker) calls s.rows) ≡ true).
              due-open calls.now r
                (chosen-is_due (for_worker c worker) calls s.rows r inv.ascending i h) in
          let f =
            mark_claimed-SameEvent (for_worker c worker) calls.now
              (chosen (for_worker c worker) calls s.rows) r in
          record {
            sent = λ h.
                let (m, j, e) = ri.sent (ground (arith, f.published_at)) in
                (m, j, e ∙ sym f.payload);
            settled = λ h. ground arith;
            buried = λ h. ground arith;
            tried = omega (arith, ri.tried, f.attempt_count);
            alive = λ h. let a = ri.alive (rw f.dead_at at h) in omega (arith, f.attempt_count);
            exhausted =
                λ h. let a = ri.exhausted (rw f.dead_at at h) in omega (arith, f.attempt_count);
            below = omega (arith, ri.below, f.sequence);
            payload_current = λ w x j e. (item_current w x j (e ∙ f.sequence)).0 ∙ sym f.payload;
            attempt_current =
                λ w x j e h. (item_current w x j (e ∙ f.sequence)).1 h ∙ sym f.attempt_count;
          }

    claims-Inv : Inv c after
    unfolding after marked_row
    claims-Inv = record {
      ascending = Ascending-map _ s.rows (λ r. mark_claimed-sequence _ _ _ r) inv.ascending;
      rows = λ r' i'.
          let (r, i, e) = In-map _ s.rows r' i' in subst (RowInv c after) e (marked-RowInv r i);
      held_below = λ w x j. elim (Bool-cases (str_eq w worker)) [
        | inl same ↦
            let (q, k, made) = batch_row x (rw same at j) in
            let b = (inv.rows q k).below in
            omega (arith, ap (λ (y : ClaimedEvent). y.sequence) made)
        | inr other ↦ inv.held_below w x (rw other at j)
      ];
    }

-- A system that holds less keeps the invariant.
pub drop-Inv :
    (c : Config) (s : System) (held : String → List ClaimedEvent)
    → ((w : String) (x : ClaimedEvent) → In x (held w) → In x (s.held w))
    → Inv c s
    → Inv c (record s { held = held })
drop-Inv c s held fewer inv = record {
  ascending = inv.ascending;
  rows = λ r i.
      let ri = inv.rows r i in
      record {
        sent = ri.sent;
        settled = ri.settled;
        buried = ri.buried;
        tried = ri.tried;
        alive = ri.alive;
        exhausted = ri.exhausted;
        below = ri.below;
        payload_current = λ w x j. ri.payload_current w x (fewer w x j);
        attempt_current = λ w x j. ri.attempt_current w x (fewer w x j);
      };
  held_below = λ w x j. inv.held_below w x (fewer w x j);
}

pub forget-Inv :
    (c : Config) (s : System) (worker : String)
    → Inv c s
    → Inv c (record s { held = assign s.held worker [] })
forget-Inv c s worker inv = drop-Inv c s _ fewer inv
  where
    fewer : (w : String) (x : ClaimedEvent) → In x (assign s.held worker [] w) → In x (s.held w)
    fewer w x j = elim (Bool-cases (str_eq w worker)) [
      | inl same ↦ absurd (rw same at j)
      | inr other ↦ rw other at j
    ]

pub claim-Inv :
    (c : Config) (s : System) (worker : String) (calls : ClaimCalls) (rows : List OutboxRow)
    (batch : List ClaimedEvent)
    → Inv c s
    → Arranges calls
    → claim (for_worker c worker) calls s.rows ≡ (rows, ok batch)
    → Inv c (record s { world = with_rows s.world rows; held = assign s.held worker batch })
unfolding after
claim-Inv c s worker calls rows batch inv arranged h =
    let (same, made) = claim-eq-ok (for_worker c worker) calls s.rows rows batch h in
    rw same (claims-Inv c s inv worker calls batch (λ x j. arranged _ x (rw made at j)))

pub claim_error-Inv :
    (c : Config) (s : System) (worker : String) (calls : ClaimCalls) (rows : List OutboxRow)
    (e : Error)
    → Inv c s
    → claim (for_worker c worker) calls s.rows ≡ (rows, err e)
    → Inv c (record s { world = with_rows s.world rows; held = assign s.held worker [] })
unfolding after
claim_error-Inv c s worker calls rows e inv h =
    elim (claim-eq-err (for_worker c worker) calls s.rows rows e h) [
      | inl same ↦ rw same (forget-Inv c s worker inv)
      | inr same ↦ rw same (claims-Inv c s inv worker calls [] (λ x j. absurd j))
    ]
