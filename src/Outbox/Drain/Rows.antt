-- ===== src/Outbox/Drain/Rows.antt =====
-- internal/outbox/relay.go: the rows of the table before and after a round in which the calls
-- succeed.
use noapp.Prelude.{
  ℕ, suc, ◌≤◌, ◌≡◌, refl, ◌∙◌, ◌⊎◌, inl, inr, Bool, true, false, List, [], ◌∷◌, map, count_if,
  contains, is_none, All, In, Bool-cases, arith, ℤ,
}
use noapp.Database.{OutboxRow}
use noapp.Outbox.{Config, ClaimedEvent}
use noapp.Outbox.Claim.{mark_claimed, is_due}
use noapp.Outbox.Publish.{Calls, published_row, is_held}

abbrev pub is_unpublished : OutboxRow → Bool
is_unpublished r = is_none r.published_at

-- A row that is not published is due at the time.
abbrev pub IsReady : ℤ → OutboxRow → Type 0
IsReady t r = is_none r.published_at ≡ true → is_due t r ≡ true

-- One row becomes another: it is published now, or it is as the claim has left it.
pub Ends : (OutboxRow → OutboxRow) → OutboxRow → OutboxRow → Type 0
Ends f r r' = (is_none r'.published_at ≡ false) ⊎ (r' ≡ f r)

-- The same for each row of a table.
abbrev pub AllEnd : (OutboxRow → OutboxRow) → List OutboxRow → List OutboxRow → Type 0
AllEnd f [] [] = Unit
AllEnd f [] (r' ∷ rs') = ⊥
AllEnd f (r ∷ rs) [] = ⊥
AllEnd f (r ∷ rs) (r' ∷ rs') = Ends f r r' × AllEnd f rs rs'

pub start-AllEnd : (f : OutboxRow → OutboxRow) (rows : List OutboxRow) → AllEnd f rows (map f rows)
unfolding Ends
start-AllEnd f [] = tt
start-AllEnd f (r ∷ rows) = (inr refl, start-AllEnd f rows)

published_row-Ends :
    (f : OutboxRow → OutboxRow) (c : Config) (calls : Calls) (item : ClaimedEvent)
    (r r' : OutboxRow)
    → Ends f r r'
    → Ends f r (published_row c calls item r')
unfolding Ends
published_row-Ends f c calls item r r' k =
    elim (Bool-cases (is_held item.sequence c.worker_id r')) [
      | inl hit ↦ rw hit (inl refl)
      | inr miss ↦ rw miss k
    ]

pub published_row-AllEnd :
    (f : OutboxRow → OutboxRow) (c : Config) (calls : Calls) (item : ClaimedEvent)
    (rows rows' : List OutboxRow)
    → AllEnd f rows rows'
    → AllEnd f rows (map (published_row c calls item) rows')
published_row-AllEnd f c calls item [] [] k = tt
published_row-AllEnd f c calls item [] (r' ∷ rs') k = absurd k
published_row-AllEnd f c calls item (r ∷ rs) [] k = absurd k
published_row-AllEnd f c calls item (r ∷ rs) (r' ∷ rs') (k, ks) =
    (published_row-Ends f c calls item r r' k, published_row-AllEnd f c calls item rs rs' ks)

abbrev pub same : OutboxRow → OutboxRow
same r = r

abbrev pub Taken : List ℕ → OutboxRow → Type 0
Taken taken r = contains r.sequence taken ≡ true → is_none r.published_at ≡ false

settled-Ends :
    (c : Config) (now : ℤ) (taken : List ℕ) (r r' : OutboxRow)
    → Ends (mark_claimed c now taken) r r'
    → Taken taken r'
    → Ends same r r'
unfolding Ends
settled-Ends c now taken r r' (inl out) done_now = inl out
settled-Ends c now taken r r' (inr e) done_now = elim (Bool-cases (contains r.sequence taken)) [
  | inl hit ↦
      let own : r'.sequence ≡ r.sequence = rw e (ground arith) in inl (done_now (rw own hit))
  | inr miss ↦ inr (rw miss at e)
]

pub settled-AllEnd :
    (c : Config) (now : ℤ) (taken : List ℕ) (rows rows' : List OutboxRow)
    → AllEnd (mark_claimed c now taken) rows rows'
    → All (Taken taken) rows'
    → AllEnd same rows rows'
settled-AllEnd c now taken [] [] k a = tt
settled-AllEnd c now taken [] (r' ∷ rs') k a = absurd k
settled-AllEnd c now taken (r ∷ rs) [] k a = absurd k
settled-AllEnd c now taken (r ∷ rs) (r' ∷ rs') (k, ks) (x, xs) =
    (settled-Ends c now taken r r' k x, settled-AllEnd c now taken rs rs' ks xs)

abbrev pub open_count : List OutboxRow → ℕ
open_count rows = count_if is_unpublished rows

pub AllEnd-count :
    (rows rows' : List OutboxRow) → AllEnd same rows rows' → open_count rows' ≤ open_count rows
unfolding Ends
AllEnd-count [] [] k = omega arith
AllEnd-count [] (r' ∷ rs') k = absurd k
AllEnd-count (r ∷ rs) [] k = absurd k
AllEnd-count (r ∷ rs) (r' ∷ rs') (inl out, ks) =
    let rest = AllEnd-count rs rs' ks in rw out (ground arith)
AllEnd-count (r ∷ rs) (r' ∷ rs') (inr e, ks) =
    let rest = AllEnd-count rs rs' ks in rw e (ground arith)

pub fewer_open :
    (taken : List ℕ) (rows rows' : List OutboxRow) (r : OutboxRow)
    → AllEnd same rows rows'
    → All (Taken taken) rows'
    → In r rows
    → is_unpublished r ≡ true
    → contains r.sequence taken ≡ true
    → suc (open_count rows') ≤ open_count rows
unfolding Ends
fewer_open taken [] rows' r k a i fresh hit = absurd i
fewer_open taken (x ∷ rs) [] r k a i fresh hit = absurd k
fewer_open taken (x ∷ rs) (x' ∷ rs') r (inl out, ks) (b, bs) (inl e) fresh hit =
    let rest = AllEnd-count rs rs' ks in
    let own : is_unpublished x ≡ true = rw e fresh in rw (out, own) (ground arith)
fewer_open taken (x ∷ rs) (x' ∷ rs') r (inr e', ks) (b, bs) (inl e) fresh hit =
    let here : x' ≡ r = e' ∙ e in
    let out : is_unpublished r ≡ false = rw here at (b (rw here hit)) in absurd (cc)
fewer_open taken (x ∷ rs) (x' ∷ rs') r (inl out, ks) (b, bs) (inr i) fresh hit =
    let rest = fewer_open taken rs rs' r ks bs i fresh hit in rw out (ground arith)
fewer_open taken (x ∷ rs) (x' ∷ rs') r (inr e', ks) (b, bs) (inr i) fresh hit =
    let rest = fewer_open taken rs rs' r ks bs i fresh hit in rw e' (ground arith)

pub AllEnd-IsReady :
    (t : ℤ) (rows rows' : List OutboxRow)
    → AllEnd same rows rows'
    → All (IsReady t) rows
    → All (IsReady t) rows'
unfolding Ends
AllEnd-IsReady t [] [] k a = tt
AllEnd-IsReady t [] (r' ∷ rs') k a = absurd k
AllEnd-IsReady t (r ∷ rs) [] k a = tt
AllEnd-IsReady t (r ∷ rs) (r' ∷ rs') (inl out, ks) (x, xs) =
    ((λ fresh. absurd (cc)), AllEnd-IsReady t rs rs' ks xs)
AllEnd-IsReady t (r ∷ rs) (r' ∷ rs') (inr e, ks) (x, xs) = (rw e x, AllEnd-IsReady t rs rs' ks xs)

pub none_open :
    (rows : List OutboxRow) → open_count rows ≤ 0 → All (λ r. is_none r.published_at ≡ false) rows
none_open [] le = tt
none_open (r ∷ rs) le = elim (Bool-cases (is_none r.published_at)) [
  | inl e ↦ absurd (ground arith)
  | inr e ↦ (e, none_open rs (ground arith))
]
