-- ===== src/Outbox/System/Safety.antt =====
-- internal/outbox/relay.go: what every history of the relays and the API keeps.
use mathlib.Core.Path.{subst}
use noapp.Prelude.{
  suc, ◌≡◌, refl, sym, false, [], ◌∷◌, ◌++◌, none, ℤ, pos, ◌≤ℤ◌, ◌↔◌, In, In-append, All-of_In, inl,
  inr, is_none, arith, Bool-cases,
}
use noapp.Json.{Payload}
use noapp.Runtime.{Runtime}
use noapp.Database.{OutboxRow}
use noapp.Events.{Envelope}
use noapp.Events.Insert.{new_row}
use noapp.Outbox.{Message, Config, Metrics}
use noapp.Outbox.Order.{Ascending-append}
use noapp.Outbox.System.{
  System, with_rows, Step, insert, claims, misses, attempts, crashes, Reach, here, next, RowInv,
  Inv,
}
use noapp.Outbox.System.Claims.{claim-Inv, claim_error-Inv, forget-Inv}
use noapp.Outbox.System.Attempts.{attempt-Inv}

-- An empty table, and workers that hold nothing.
abbrev pub start : Metrics → System
start metrics = record {
  world = record { rows = []; log = []; metrics = metrics };
  held = λ w. [];
  next = 1;
}

start-Inv : (c : Config) (metrics : Metrics) → Inv c (start metrics)
start-Inv c metrics = record {
  ascending = tt;
  rows = λ r i. absurd i;
  held_below = λ w x j. absurd j;
}

insert-Inv :
    (c : Config) (s : System) (now : ℤ) (e : Envelope) (payload : Payload)
    → pos 1 ≤ℤ c.max_attempts
    → Inv c s
    → Inv c (record s {
      world = with_rows s.world (s.rows ++ new_row s.next now e payload ∷ []);
      next = suc s.next;
    })
unfolding new_row
insert-Inv c s now e payload positive inv = record {
  ascending =
      Ascending-append s.rows _ (All-of_In _ s.rows (λ r i. (inv.rows r i).below)) inv.ascending;
  rows = λ r i. elim (In-append s.rows _ r i) [
    | inl j ↦ old r (inv.rows r j)
    | inr (inl same) ↦ subst (RowInv c _) same fresh
    | inr (inr none_left) ↦ absurd none_left
  ];
  held_below = λ w x j. let b = inv.held_below w x j in omega arith;
}
  where
    after : System
    after = record s {
      world = with_rows s.world (s.rows ++ new_row s.next now e payload ∷ []);
      next = suc s.next;
    }

    old : (r : OutboxRow) → RowInv c s r → RowInv c after r
    old r ri = record {
      sent = ri.sent;
      settled = ri.settled;
      buried = ri.buried;
      tried = ri.tried;
      alive = ri.alive;
      exhausted = ri.exhausted;
      below = let b = ri.below in omega arith;
      payload_current = ri.payload_current;
      attempt_current = ri.attempt_current;
    }

    fresh : RowInv c after (new_row s.next now e payload)
    fresh = record {
      sent = λ h. absurd (ground arith);
      settled = λ h. refl;
      buried = λ h. absurd (ground arith);
      tried = omega arith;
      alive = λ h. omega arith;
      exhausted = λ h. absurd (ground arith);
      below = omega arith;
      payload_current = λ w x j same. let b = inv.held_below w x j in absurd (omega arith);
      attempt_current = λ w x j same h. absurd (ground arith);
    }

-- Every step keeps the invariant.
pub Step-Inv :
    (rt : Runtime) (c : Config) (s t : System)
    → pos 1 ≤ℤ c.max_attempts
    → Inv c s
    → Step rt c s t
    → Inv c t
Step-Inv rt c s t positive inv (insert now e payload same) =
    subst (Inv c) (sym same) (insert-Inv c s now e payload positive inv)
Step-Inv rt c s t positive inv (claims worker calls rows batch free arranged done same) =
    subst (Inv c) (sym same) (claim-Inv c s worker calls rows batch inv arranged done)
Step-Inv rt c s t positive inv (misses worker calls rows e free failed same) =
    subst (Inv c) (sym same) (claim_error-Inv c s worker calls rows e inv failed)
Step-Inv rt c s t positive inv (attempts worker item rest calls head same) =
    subst (Inv c) (sym same) (attempt-Inv rt c s worker item rest calls inv head)
Step-Inv rt c s t positive inv (crashes worker same) =
    subst (Inv c) (sym same) (forget-Inv c s worker inv)

Reach-Inv :
    (rt : Runtime) (c : Config) (s t : System)
    → pos 1 ≤ℤ c.max_attempts
    → Inv c s
    → Reach rt c s t
    → Inv c t
Reach-Inv rt c s t positive inv here = inv
Reach-Inv rt c s t positive inv (next {t = u} r st) =
    Step-Inv rt c u t positive (Reach-Inv rt c s u positive inv r) st

module _ (rt : Runtime) (c : Config) (metrics : Metrics) (t : System)
    (positive : pos 1 ≤ℤ c.max_attempts) (reached : Reach rt c (start metrics) t) (r : OutboxRow)
    (stored : In r t.rows) where
  -- If at least one attempt is allowed, then in every history of the relays, with lost answers,
  -- expired leases and crashes, an event that is marked as published is in the topic: the topic
  -- holds a message with its payload.
  pub published_was_sent :
      is_none r.published_at ≡ false → (m : Message) × In m t.log × (m.value ≡ r.payload)
  published_was_sent h =
      ((Reach-Inv rt c (start metrics) t positive (start-Inv c metrics) reached).rows r stored).sent
        h

  -- If at least one attempt is allowed, then in every history of the relays the attempts counted
  -- for an event stay within the maximum, an event is dead exactly when they have reached it, and a
  -- dead event is neither leased nor published.
  pub dead_iff_exhausted :
      (pos r.attempt_count ≤ℤ c.max_attempts)
      × ((is_none r.dead_at ≡ false) ↔ (pos r.attempt_count ≡ c.max_attempts))
      × (is_none r.dead_at ≡ false → (r.claimed_by ≡ none) × (r.published_at ≡ none))
  dead_iff_exhausted =
      let ri =
        (Reach-Inv rt c (start metrics) t positive (start-Inv c metrics) reached).rows r stored in
      (
        ri.tried,
        (
          λ h. let most = ri.exhausted h in let least = ri.tried in ground arith,
          λ e. elim (Bool-cases (is_none r.dead_at)) [
            | inl living ↦ let few = ri.alive living in absurd (ground arith)
            | inr gone ↦ gone
          ],
        ),
        ri.buried,
      )
