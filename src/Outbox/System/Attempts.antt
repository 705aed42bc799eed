-- ===== src/Outbox/System/Attempts.antt =====
-- internal/outbox/relay.go: an attempt to publish keeps the invariant of the relays' common table.
use noapp.Prelude.{
  ℕ, ◌≡◌, refl, sym, ap, ◌∙◌, String, true, List, [], ◌∷◌, ◌++◌, map, none, some, In, In-map,
  In-append_left, In-append_last, inl, inr, ◌⊎◌, Bool-cases, Option-cases, arith, eq_iff, is_none,
  ℤ, str_eq,
}
use mathlib.Core.Path.{subst}
use noapp.Runtime.{Runtime}
use noapp.Database.{OutboxRow}
use noapp.Outbox.{Message, Config, ClaimedEvent}
use noapp.Outbox.Order.{Ascending-map}
use noapp.Outbox.Publish.{
  World, Calls, is_held, is_last, update_held, set_failed, set_published, message_of, publish_one,
}
use noapp.Outbox.Cases.{Outcome, kept, retried, sent, publish_one-Outcome}
use noapp.Outbox.System.{System, for_worker, assign, RowInv, Inv}
use noapp.Outbox.System.Claims.{drop-Inv}

held-parts :
    (key : ℕ) (worker : String) (r : OutboxRow)
    → is_held key worker r ≡ true
    → (r.sequence ≡ key) × (r.claimed_by ≡ some worker) × (r.published_at ≡ none)
unfolding is_held
held-parts key worker r h = elim (Option-cases r.claimed_by) [
  | inl e ↦ absurd (ground arith)
  | inr (w, e) ↦ (ground arith, ground (arith, eq_iff w worker), ground arith)
]

update_held_cases :
    (key : ℕ) (worker : String) (f : OutboxRow → OutboxRow) (r : OutboxRow)
    → ((is_held key worker r ≡ true) × (update_held key worker f r ≡ f r))
      ⊎ (update_held key worker f r ≡ r)
update_held_cases key worker f r = elim (Bool-cases (is_held key worker r)) [
  | inl e ↦ inl (e, rw e refl)
  | inr e ↦ inr (rw e refl)
]

module _ (c : Config) (s : System) (inv : Inv c s) where
  -- A longer topic and the same rows.
  log-RowInv :
      (w : World) (more : List Message) (r : OutboxRow)
      → w.log ≡ s.log ++ more
      → RowInv c s r
      → RowInv c (record s { world = w }) r
  log-RowInv w more r l ri = record {
    sent = λ h. let (m, j, e) = ri.sent h in (m, rw l (In-append_left s.log more m j), e);
    settled = ri.settled;
    buried = ri.buried;
    tried = ri.tried;
    alive = ri.alive;
    exhausted = ri.exhausted;
    below = ri.below;
    payload_current = ri.payload_current;
    attempt_current = ri.attempt_current;
  }

  module _ (worker : String) (item : ClaimedEvent) (mine : In item (s.held worker))
      (w : World) where
    failed-RowInv :
        (now next : ℤ) (text : String) (r : OutboxRow)
        → is_held item.sequence worker r ≡ true
        → RowInv c s r
        → RowInv c
            (record s { world = w })
            (set_failed now next text (is_last (for_worker c worker) item) r)
    unfolding is_last
    failed-RowInv now next text r hit ri =
        let (key, own, unsent) = held-parts item.sequence worker r hit in
        let current = ri.attempt_current worker item mine (sym key) own in
        let living : is_none r.dead_at ≡ true = ground (arith, ri.buried) in
        let few = ri.alive living in
        record {
          sent = λ h. absurd (ground arith);
          settled = λ h. refl;
          buried = λ h. (refl, unsent);
          tried = omega arith;
          alive = λ h. ground arith;
          exhausted = λ h. ground arith;
          below = ri.below;
          payload_current = ri.payload_current;
          attempt_current = λ v x j e h. absurd (ground arith);
        }

    published-RowInv :
        (now : ℤ) (m : Message) (r : OutboxRow)
        → is_held item.sequence worker r ≡ true
        → m.value ≡ item.payload
        → w.log ≡ s.log ++ m ∷ []
        → RowInv c s r
        → RowInv c (record s { world = w }) (set_published now r)
    published-RowInv now m r hit value l ri =
        let (key, own, unsent) = held-parts item.sequence worker r hit in
        let same = ri.payload_current worker item mine (sym key) in
        let living : is_none r.dead_at ≡ true = ground (arith, ri.buried) in
        record {
          sent = λ h. (m, rw l (In-append_last s.log m), value ∙ same);
          settled = λ h. refl;
          buried = λ h. absurd (ground arith);
          tried = ri.tried;
          alive = ri.alive;
          exhausted = ri.exhausted;
          below = ri.below;
          payload_current = ri.payload_current;
          attempt_current = λ v x j e h. absurd (ground arith);
        }

    -- An UPDATE of the held row, from what it does to that row.
    update-Inv :
        (f : OutboxRow → OutboxRow) (more : List Message)
        → w.rows ≡ map (update_held item.sequence worker f) s.rows
        → w.log ≡ s.log ++ more
        → ((r : OutboxRow) → (f r).sequence ≡ r.sequence)
        → ((r : OutboxRow)
            → is_held item.sequence worker r ≡ true
            → RowInv c s r
            → RowInv c (record s { world = w }) (f r))
        → Inv c (record s { world = w })
    update-Inv f more e l keys hit = record {
      ascending =
          rw e (Ascending-map (update_held item.sequence worker f) s.rows keeps inv.ascending);
      rows = λ r' i'.
          let (r, i, made) = In-map (update_held item.sequence worker f) s.rows r' (rw e at i') in
          subst (RowInv c (record s { world = w })) made (row r (inv.rows r i));
      held_below = inv.held_below;
    }
      where
        keeps : (r : OutboxRow) → (update_held item.sequence worker f r).sequence ≡ r.sequence
        keeps r = elim (update_held_cases item.sequence worker f r) [
          | inl (h, same) ↦ ap (λ (x : OutboxRow). x.sequence) same ∙ keys r
          | inr same ↦ ap (λ (x : OutboxRow). x.sequence) same
        ]

        row :
            (r : OutboxRow)
            → RowInv c s r
            → RowInv c (record s { world = w }) (update_held item.sequence worker f r)
        row r ri = elim (update_held_cases item.sequence worker f r) [
          | inl (h, same) ↦ subst (RowInv c (record s { world = w })) (sym same) (hit r h ri)
          | inr same ↦
              subst (RowInv c (record s { world = w })) (sym same) (log-RowInv w more r l ri)
        ]

    Outcome-Inv :
        (rt : Runtime) (calls : Calls)
        → Outcome rt (for_worker c worker) calls item s.world w
        → Inv c (record s { world = w })
    unfolding message_of
    Outcome-Inv rt calls (kept more e l) = record {
      ascending = rw e inv.ascending;
      rows = λ r i. log-RowInv w more r l (inv.rows r (rw e at i));
      held_below = inv.held_below;
    }
    Outcome-Inv rt calls (retried cause more e l) =
        update-Inv _ more e l (λ r. refl) (failed-RowInv _ _ _)
    Outcome-Inv rt calls (sent e d p rows l) =
        update-Inv (set_published calls.now) _ rows l (λ r. refl)
          (λ r h ri. published-RowInv calls.now (message_of calls item e) r h refl l ri)

-- Whatever an attempt comes to, the invariant holds after it and after the item is dropped.
pub attempt-Inv :
    (rt : Runtime) (c : Config) (s : System) (worker : String) (item : ClaimedEvent)
    (rest : List ClaimedEvent) (calls : Calls)
    → Inv c s
    → s.held worker ≡ item ∷ rest
    → Inv c (record s {
      world = (publish_one rt (for_worker c worker) calls item s.world).0;
      held = assign s.held worker rest;
    })
attempt-Inv rt c s worker item rest calls inv h =
    drop-Inv c (record s { world = w }) (assign s.held worker rest) fewer
      (Outcome-Inv c s inv worker item (rw h (inl refl)) w rt calls
        (publish_one-Outcome rt (for_worker c worker) calls item s.world))
  where
    w : World
    w = (publish_one rt (for_worker c worker) calls item s.world).0

    fewer : (v : String) (x : ClaimedEvent) → In x (assign s.held worker rest v) → In x (s.held v)
    fewer v x j = elim (Bool-cases (str_eq v worker)) [
      | inl same ↦
          let own : v ≡ worker = (eq_iff v worker).0 same in rw (own, h) (inr (rw same at j))
      | inr other ↦ rw other at j
    ]
