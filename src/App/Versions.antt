-- ===== src/App/Versions.antt =====
-- internal/app/server.go: the versions of the tasks against the events in the outbox, over all
-- requests.
use mathlib.Core.Path.{subst}
use noapp.Prelude.{
  ℕ, suc, ◌+◌, ◌≤◌, ◌<◌, ◌≡◌, ◌≢◌, refl, sym, ap, ◌∙◌, String, Bool, true, some, List, [], ◌∷◌,
  ◌++◌, map, count_if, count_if-append, In, In-append, In-map, inl, inr, Bool-cases, arith, ℤ, pos,
  ◌+ℤ◌, eq_ℤ, eq_ℤ_iff, if◌then◌else◌,
}
use noapp.Runtime.{Runtime}
use noapp.Database.{Database, TaskRow, OutboxRow}
use noapp.Events.{new_task_event}
use noapp.Events.Insert.{new_row, add_row}
use noapp.App.{Calls}
use noapp.App.Tasks.{scan_task, new_task, add_task, with_status, change_task, find_task}
use noapp.Json.{Payload}
use noapp.App.Atomic.{Created, Changed}

abbrev about : ℤ → OutboxRow → Bool
about id r = eq_ℤ r.aggregate_id id

-- The version of a task is the number of its events on top of the version that it was seeded with,
-- 0 for a task that the server created. The numbers that are not given yet have no events.
pub record Inv (seed : ℤ → ℕ) (db : Database) : Type 0 where
  pub versions :
      (t : TaskRow)
      → In t db.tasks
      → t.version ≡ pos (seed t.id + count_if (λ r. eq_ℤ r.aggregate_id t.id) db.outbox)
  pub below : (t : TaskRow) → In t db.tasks → (n : ℕ) × (n < db.next_task) × (t.id ≡ pos n)
  pub fresh :
      (n : ℕ)
      → db.next_task ≤ n
      → seed (pos n) + count_if (λ r. eq_ℤ r.aggregate_id (pos n)) db.outbox ≡ 0

count-last :
    (id : ℤ) (rows : List OutboxRow) (r : OutboxRow)
    → count_if (about id) (rows ++ r ∷ [])
      ≡ count_if (about id) rows + (if eq_ℤ r.aggregate_id id then 1 else 0)
count-last id rows r = ground (arith, count_if-append (about id) rows (r ∷ []))

count-other :
    (id : ℤ) (rows : List OutboxRow) (r : OutboxRow)
    → r.aggregate_id ≢ id
    → count_if (about id) (rows ++ r ∷ []) ≡ count_if (about id) rows
count-other id rows r ne = elim (Bool-cases (eq_ℤ r.aggregate_id id)) [
  | inl e ↦ absurd (ne ((eq_ℤ_iff r.aggregate_id id).0 e))
  | inr e ↦ ground (arith, count-last id rows r)
]

count-own :
    (id : ℤ) (rows : List OutboxRow) (r : OutboxRow)
    → r.aggregate_id ≡ id
    → count_if (about id) (rows ++ r ∷ []) ≡ suc (count_if (about id) rows)
count-own id rows r own =
    let e : eq_ℤ r.aggregate_id id ≡ true = (eq_ℤ_iff r.aggregate_id id).1 own in
    ground (arith, count-last id rows r)

pos-apart : (m n : ℕ) (a : ℤ) → a ≡ pos m → m < n → pos n ≢ a
pos-apart m n a own lt e = ground arith

In-find_task :
    (id : ℤ) (ts : List TaskRow) (t : TaskRow) → find_task id ts ≡ some t → In t ts × (t.id ≡ id)
In-find_task id [] t h = absurd (cc)
In-find_task id (x ∷ xs) t h = elim (Bool-cases (eq_ℤ x.id id)) [
  | inl e ↦
      let same : x ≡ t = ground arith in
      (inl same, subst (λ y. y.id ≡ id) same ((eq_ℤ_iff x.id id).0 e))
  | inr e ↦ let (i, own) = In-find_task id xs t (rw e at h) in (inr i, own)
]

-- A task more, at version 1, and its first event.
module _ (seed : ℤ → ℕ) (db : Database) (t₀ : TaskRow) (r : OutboxRow) where
  add_task-Inv :
      t₀.id ≡ pos db.next_task
      → t₀.version ≡ pos 1
      → r.aggregate_id ≡ t₀.id
      → Inv seed db
      → Inv seed (add_row (add_task db t₀) r)
  unfolding add_task
  add_task-Inv own first about_it inv = record {
    versions = λ t i. elim (In-append db.tasks (t₀ ∷ []) t i) [
      | inl j ↦
          let (n, lt, known) = inv.below t j in
          let apart = pos-apart n db.next_task t.id known lt in
          inv.versions t j
          ∙ ap (λ k. pos (seed t.id + k))
              (sym (count-other t.id db.outbox r (λ e. apart (sym own ∙ sym about_it ∙ e))))
      | inr (inl same) ↦
          subst
            (λ (x : TaskRow).
              x.version ≡ pos (seed x.id + count_if (about x.id) (db.outbox ++ r ∷ [])))
            same newest
      | inr (inr none_left) ↦ absurd none_left
    ];
    below = λ t i. elim (In-append db.tasks (t₀ ∷ []) t i) [
      | inl j ↦ let (n, lt, known) = inv.below t j in (n, omega arith, known)
      | inr (inl same) ↦ (db.next_task, omega arith, sym (ap (λ (x : TaskRow). x.id) same) ∙ own)
      | inr (inr none_left) ↦ absurd none_left
    ];
    fresh = λ n le.
        let z = inv.fresh n (omega arith) in
        let c =
          count-other (pos n) db.outbox r
            (λ e. pos-apart db.next_task n r.aggregate_id (about_it ∙ own) (omega arith) (sym e)) in
        omega arith;
  }
    where
      none_before : seed t₀.id + count_if (about t₀.id) db.outbox ≡ 0
      none_before =
          subst (λ a. seed a + count_if (about a) db.outbox ≡ 0) (sym own)
            (inv.fresh db.next_task (omega arith))

      newest : t₀.version ≡ pos (seed t₀.id + count_if (about t₀.id) (db.outbox ++ r ∷ []))
      newest =
          let one = count-own t₀.id db.outbox r about_it in
          let z = none_before in first ∙ ap pos (omega arith)

-- The version of one task raised, and its event.
module _ (seed : ℤ → ℕ) (db : Database) (id : ℤ) (status : String) (now : ℤ) (r : OutboxRow) where
  raise-Inv :
      (before : TaskRow)
      → In before db.tasks
      → before.id ≡ id
      → r.aggregate_id ≡ id
      → Inv seed db
      → Inv seed (add_row (record db { tasks = map (change_task id status now) db.tasks }) r)
  unfolding change_task with_status ◌+ℤ◌
  raise-Inv before present own about_it inv = record {
    versions = λ t' i.
        let (t, j, same) = In-map (change_task id status now) db.tasks t' i in
        subst
          (λ (x : TaskRow).
            x.version ≡ pos (seed x.id + count_if (about x.id) (db.outbox ++ r ∷ [])))
          same (raised t j);
    below = λ t' i.
        let (t, j, same) = In-map (change_task id status now) db.tasks t' i in
        let (n, lt, known) = inv.below t j in
        (n, lt, sym (ap (λ (x : TaskRow). x.id) same) ∙ kept t ∙ known);
    fresh = λ n le.
        let z = inv.fresh n le in
        let (m, lt, known) = inv.below before present in
        let c =
          count-other (pos n) db.outbox r (λ e.
            pos-apart m n r.aggregate_id (about_it ∙ sym own ∙ known) (omega arith) (sym e)) in
        omega arith;
  }
    where
      kept : (t : TaskRow) → (change_task id status now t).id ≡ t.id
      kept t = ground arith

      raised :
          (t : TaskRow)
          → In t db.tasks
          → (change_task id status now t).version
            ≡ pos (
                seed (change_task id status now t).id
                + count_if (about (change_task id status now t).id) (db.outbox ++ r ∷ []))
      raised t j = elim (Bool-cases (eq_ℤ t.id id)) [
        | inl e ↦
            let c = count-own t.id db.outbox r (about_it ∙ sym ((eq_ℤ_iff t.id id).0 e)) in
            rw (e, change_task) (ground (arith, inv.versions t j, c))
        | inr e ↦
            let c =
              count-other t.id db.outbox r
                (λ k. let q = (eq_ℤ_iff t.id id).1 (sym k ∙ about_it) in cc) in
            rw (e, change_task) (inv.versions t j ∙ ap (λ k. pos (seed t.id + k)) (sym c))
      ]

module _ (seed : ℤ → ℕ) (rt : Runtime) (calls : Calls) (subject value : String) (body : Payload)
    (db db' : Database) where
  pub Created-Inv : Created rt calls subject value body db db' → Inv seed db → Inv seed db'
  unfolding new_row new_task_event scan_task new_task add_task
  Created-Inv c inv =
      subst (Inv seed) (sym c.recorded.added) (add_task-Inv seed db _ _ refl refl refl inv)

  pub Changed-Inv : Changed rt calls subject value body db db' → Inv seed db → Inv seed db'
  unfolding new_row new_task_event scan_task with_status change_task
  Changed-Inv c inv =
      let (present, own) = In-find_task c.id db.tasks c.before c.found in
      subst (Inv seed) (sym c.recorded.added)
        (raise-Inv seed db c.id c.status calls.now _ c.before present own own inv)
