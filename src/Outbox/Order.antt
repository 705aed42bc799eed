-- ===== src/Outbox/Order.antt =====
-- The table outbox_events in the order of its primary key, and the rows that a claim chooses.
use noapp.Prelude.{
  ℕ, zero, suc, ◌≡◌, ap, sym, ◌∙◌, ◌<◌, refl, Bool, true, false, List, [], ◌∷◌, map, take, select,
  contains, ==_iff, ◌==◌, All, All-map, All-append, ◌++◌, All-In, In, In-map, In-select, In-take,
  contains-In, inl, inr, Bool-cases, arith,
}
use mathlib.Core.Path.{subst}
use noapp.Database.{OutboxRow}

abbrev pub Ascending : List OutboxRow → Type 0
Ascending [] = Unit
Ascending (r ∷ rs) = All (λ s. r.sequence < s.sequence) rs × Ascending rs

abbrev pub sequences : List OutboxRow → List ℕ
sequences = map (λ r. r.sequence)

-- A key names one row.
pub Ascending-unique :
    (rows : List OutboxRow) (r s : OutboxRow)
    → Ascending rows
    → In r rows
    → In s rows
    → r.sequence ≡ s.sequence
    → r ≡ s
Ascending-unique [] r s h i j e = absurd i
Ascending-unique (x ∷ rows) r s (a, h) (inl p) (inl q) e = ground arith
Ascending-unique (x ∷ rows) r s (a, h) (inl p) (inr j) e =
    absurd (omega (arith, All-In _ rows s a j, ap (λ (y : OutboxRow). y.sequence) p))
Ascending-unique (x ∷ rows) r s (a, h) (inr i) (inl q) e =
    absurd (omega (arith, All-In _ rows r a i, ap (λ (y : OutboxRow). y.sequence) q))
Ascending-unique (x ∷ rows) r s (a, h) (inr i) (inr j) e = Ascending-unique rows r s h i j e

-- An UPDATE that leaves the keys alone keeps the order.
pub Ascending-map :
    (f : OutboxRow → OutboxRow) (rows : List OutboxRow)
    → ((r : OutboxRow) → (f r).sequence ≡ r.sequence)
    → Ascending rows
    → Ascending (map f rows)
Ascending-map f [] k h = tt
Ascending-map f (r ∷ rows) k (a, h) =
    (All-map _ _ f rows (λ s lt. omega (arith, k r, k s)) a, Ascending-map f rows k h)

select-pass :
    (p : OutboxRow → Bool) (r : OutboxRow) (rows : List OutboxRow)
    → p r ≡ true
    → select p (r ∷ rows) ≡ r ∷ select p rows
select-pass p r rows e = rw e

select-miss :
    (p : OutboxRow → Bool) (r : OutboxRow) (rows : List OutboxRow)
    → p r ≡ false
    → select p (r ∷ rows) ≡ select p rows
select-miss p r rows e = rw e

-- A row with a higher key goes to the end.
pub Ascending-append :
    (rows : List OutboxRow) (r : OutboxRow)
    → All (λ s. s.sequence < r.sequence) rows
    → Ascending rows
    → Ascending (rows ++ r ∷ [])
Ascending-append [] r lt h = (tt, tt)
Ascending-append (q ∷ rows) r (l, lt) (a, h) =
    (All-append _ rows (r ∷ []) a (l, tt), Ascending-append rows r lt h)

-- A chosen key is that of a row that passes the test.
pub chosen_row :
    (p : OutboxRow → Bool) (n : ℕ) (rows : List OutboxRow) (key : ℕ)
    → contains key (take n (sequences (select p rows))) ≡ true
    → (r : OutboxRow) × In r rows × (r.sequence ≡ key) × (p r ≡ true)
chosen_row p n rows key h =
    let (r, i, e) =
      In-map (λ (x : OutboxRow). x.sequence) (select p rows) key
        (In-take n _ key (contains-In key _ h)) in
    let (j, q) = In-select p rows r i in (r, j, e, q)

-- Keys above all of a list are not in it.
not-contains :
    (key : ℕ) (p : OutboxRow → Bool) (n : ℕ) (rows : List OutboxRow)
    → All (λ s. key < s.sequence) rows
    → contains key (take n (sequences (select p rows))) ≡ false
not-contains key p n rows a =
    elim (Bool-cases (contains key (take n (sequences (select p rows))))) [
      | inr e ↦ e
      | inl e ↦
          let (r, i, same, q) = chosen_row p n rows key e in
          absurd (omega (arith, All-In _ rows r a i))
    ]

select-nil : (rows : List OutboxRow) → select (λ r. contains r.sequence []) rows ≡ []
select-nil [] = refl
select-nil (r ∷ rows) = select-nil rows

select-skip :
    (key : ℕ) (keys : List ℕ) (rows : List OutboxRow)
    → All (λ s. key < s.sequence) rows
    → select (λ r. contains r.sequence (key ∷ keys)) rows
      ≡ select (λ r. contains r.sequence keys) rows
select-skip key keys [] a = refl
select-skip key keys (r ∷ rows) (lt, a) = ground (arith, select-skip key keys rows a)

-- Which rows a list of selected ones chooses.
abbrev picked : ℕ → List OutboxRow → List OutboxRow → List OutboxRow
picked n due rows = select (λ r. contains r.sequence (take n (sequences due))) rows

picked-cons :
    (n : ℕ) (r : OutboxRow) (due rows : List OutboxRow)
    → All (λ s. r.sequence < s.sequence) rows
    → picked (suc n) (r ∷ due) (r ∷ rows) ≡ r ∷ picked n due rows
picked-cons n r due rows a =
    let self : (r.sequence == r.sequence) ≡ true = (==_iff _ _).1 refl in
    rw self (ap (λ (l : List OutboxRow). r ∷ l) (select-skip r.sequence _ rows a))

-- The rows with a chosen key are the first n that pass the test.
pub select-chosen :
    (p : OutboxRow → Bool) (n : ℕ) (rows : List OutboxRow)
    → Ascending rows
    → picked n (select p rows) rows ≡ take n (select p rows)
select-chosen p zero rows h = select-nil rows
select-chosen p (suc n) [] h = refl
select-chosen p (suc n) (r ∷ rows) (a, h) = elim (Bool-cases (p r)) [
  | inl e ↦
      subst (λ due. picked (suc n) due (r ∷ rows) ≡ take (suc n) due) (sym (select-pass p r rows e))
        (picked-cons n r (select p rows) rows a
          ∙ ap (λ (l : List OutboxRow). r ∷ l) (select-chosen p n rows h))
  | inr e ↦
      subst (λ due. picked (suc n) due (r ∷ rows) ≡ take (suc n) due) (sym (select-miss p r rows e))
        (rw (not-contains r.sequence p (suc n) rows a) (select-chosen p (suc n) rows h))
]
