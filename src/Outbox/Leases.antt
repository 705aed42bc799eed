-- ===== src/Outbox/Leases.antt =====
-- internal/outbox/relay.go: what a claim leases, and for how long it keeps others away.
use noapp.Prelude.{
  ℕ, ◌≡◌, sym, ap, ◌∙◌, true, false, ◌&&◌, not, List, map, take, select, contains, In-map, ◌⊎◌, inl,
  inr, Bool-cases, arith, ℤ, ◌≤ℤ◌, ◌+ℤ◌, pos_part,
}
use mathlib.Core.Path.{subst}
use noapp.Runtime.{Error, ok, err}
use noapp.Database.{OutboxRow}
use noapp.Outbox.{Config, ClaimedEvent}
use noapp.Outbox.Order.{Ascending, select-chosen, chosen_row}
use noapp.Outbox.Claim.{
  ClaimCalls, is_due, candidates, lease, mark_claimed, claimed_event, chosen, claimed_rows,
  claimed_batch, claim,
}

-- The rows that a claim may take: due, and not locked by another transaction.
abbrev pub due_rows : ClaimCalls → List OutboxRow → List OutboxRow
due_rows calls = select (λ r. is_due calls.now r && not (calls.locked r.sequence))

claimed_batch_lem :
    (c : Config) (calls : ClaimCalls) (rows : List OutboxRow)
    → Ascending rows
    → claimed_batch c calls rows
      ≡ map claimed_event (take (pos_part c.batch_size) (due_rows calls rows))
unfolding candidates
claimed_batch_lem c calls rows h = ap (map claimed_event) (
    select-chosen (λ r. is_due calls.now r && not (calls.locked r.sequence)) (pos_part c.batch_size)
      rows h)

pub claim-eq-ok :
    (c : Config) (calls : ClaimCalls) (rows rows' : List OutboxRow) (batch : List ClaimedEvent)
    → claim c calls rows ≡ (rows', ok batch)
    → (rows' ≡ claimed_rows c calls rows) × (batch ≡ calls.returning (claimed_batch c calls rows))
unfolding claim
claim-eq-ok c calls rows rows' batch e = ground arith

-- A claim that fails leaves the table as it was, or has made its marks and lost the answer.
pub claim-eq-err :
    (c : Config) (calls : ClaimCalls) (rows rows' : List OutboxRow) (e : Error)
    → claim c calls rows ≡ (rows', err e)
    → (rows' ≡ rows) ⊎ (rows' ≡ claimed_rows c calls rows)
unfolding claim
claim-eq-err c calls rows rows' e h = ground arith

-- A claim that succeeds on a table in the order of its keys hands out the first due and unlocked
-- events in that order, at most a batch of them, as RETURNING arranges them; it marks exactly these
-- rows and leaves the others as they were.
pub claim-ok :
    (c : Config) (calls : ClaimCalls) (rows rows' : List OutboxRow) (batch : List ClaimedEvent)
    → Ascending rows
    → claim c calls rows ≡ (rows', ok batch)
    → (batch
        ≡ calls.returning (map claimed_event (take (pos_part c.batch_size) (due_rows calls rows))))
      × (rows' ≡ claimed_rows c calls rows)
claim-ok c calls rows rows' batch h e =
    let (same, made) = claim-eq-ok c calls rows rows' batch e in
    (made ∙ ap calls.returning (claimed_batch_lem c calls rows h), same)

pub mark_claimed-sequence :
    (c : Config) (now : ℤ) (keys : List ℕ) (r : OutboxRow)
    → (mark_claimed c now keys r).sequence ≡ r.sequence
mark_claimed-sequence c now keys r = ground arith

not-is_due :
    (c : Config) (now later : ℤ) (keys : List ℕ) (r : OutboxRow)
    → contains r.sequence keys ≡ true
    → later ≤ℤ now +ℤ lease c
    → is_due later (mark_claimed c now keys r) ≡ false
unfolding is_due
not-is_due c now later keys r h early = ground arith

-- While a lease runs nobody else gets the event: a second claim, by whichever worker and whatever
-- its limit, chooses none of the events that a first one has marked, up to the end of the lease.
pub claim_exclusive :
    (c d : Config) (first second : ClaimCalls) (rows : List OutboxRow) (key : ℕ)
    → contains key (chosen c first rows) ≡ true
    → second.now ≤ℤ first.now +ℤ lease c
    → contains key (chosen d second (claimed_rows c first rows)) ≡ false
unfolding candidates
claim_exclusive c d first second rows key h early =
    elim (Bool-cases (contains key (chosen d second (claimed_rows c first rows)))) [
      | inr e ↦ e
      | inl e ↦
          let (r', i, same, passed) =
            chosen_row _ (pos_part d.batch_size) (claimed_rows c first rows) key e in
          let (r, j, marked) = In-map (mark_claimed c first.now (chosen c first rows)) rows r' i in
          let keys = chosen c first rows in
          let own : r.sequence ≡ key =
            sym (mark_claimed-sequence c first.now keys r)
            ∙ ap (λ (x : OutboxRow). x.sequence) marked
            ∙ same in
          let late : is_due second.now r' ≡ false =
            subst (λ x. is_due second.now x ≡ false) marked
              (not-is_due c first.now second.now keys r (rw own h) early) in
          ground arith
    ]
