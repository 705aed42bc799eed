-- ===== src/Realtime/Clients.antt =====
-- internal/realtime/hub.go: the registered clients of a list, counted, while one of them changes.
use noapp.Prelude.{
  ℕ, suc, ◌+◌, ◌≡◌, ◌≢◌, refl, sym, ap, ◌∙◌, true, false, List, [], ◌∷◌, ◌++◌, map, count_if, All,
  All-map, All-append, In, All-In, inl, inr, ◌==◌, ==_iff, Bool-cases, arith, if◌then◌else◌,
}
use noapp.Realtime.{Client, change, is_registered}

abbrev pub Distinct : List Client → Type 0
Distinct [] = Unit
Distinct (c ∷ cs) = All (λ d. d.id ≢ c.id) cs × Distinct cs

abbrev pub registered_count : List Client → ℕ
registered_count = count_if (λ c. c.registered)

pub Distinct-map :
    (g : Client → Client) (cs : List Client)
    → ((c : Client) → (g c).id ≡ c.id)
    → Distinct cs
    → Distinct (map g cs)
Distinct-map g [] k d = tt
Distinct-map g (c ∷ cs) k (a, d) =
    (All-map _ _ g cs (λ x ne. λ e. ne (sym (k x) ∙ e ∙ k c)) a, Distinct-map g cs k d)

pub Distinct-append :
    (cs : List Client) (c : Client)
    → All (λ d. d.id ≢ c.id) cs
    → Distinct cs
    → Distinct (cs ++ c ∷ [])
Distinct-append [] c a d = (tt, tt)
Distinct-append (x ∷ cs) c (ne, a) (b, d) =
    (All-append _ cs (c ∷ []) b ((λ e. ne (sym e)), tt), Distinct-append cs c a d)

pub count-map :
    (g : Client → Client) (cs : List Client)
    → ((c : Client) → (g c).registered ≡ c.registered)
    → registered_count (map g cs) ≡ registered_count cs
count-map g [] k = refl
count-map g (c ∷ cs) k = rw (k c, count-map g cs k)

-- The others do not change.
change_others :
    (id : ℕ) (f : Client → Client) (cs : List Client)
    → All (λ d. d.id ≢ id) cs
    → (map (change id f) cs ≡ cs) × (is_registered id cs ≡ false)
change_others id f [] a = (refl, refl)
change_others id f (c ∷ cs) (ne, a) =
    let (same, absent) = change_others id f cs a in
    elim (Bool-cases (c.id == id)) [
      | inl e ↦ absurd (ne ((==_iff c.id id).0 e))
      | inr e ↦ (rw (e, same), rw (e, absent))
    ]

-- Taking a client out lowers the count by one if it was registered, and else not.
pub count_removed :
    (id : ℕ) (f : Client → Client) (cs : List Client)
    → ((c : Client) → (f c).registered ≡ false)
    → Distinct cs
    → registered_count (map (change id f) cs) + (if is_registered id cs then 1 else 0)
      ≡ registered_count cs
count_removed id f [] k d = omega arith
count_removed id f (c ∷ cs) k (a, d) = elim (Bool-cases (c.id == id)) [
  | inr e ↦ rw e (ground (arith, count_removed id f cs k d))
  | inl e ↦
      let own : c.id ≡ id = (==_iff c.id id).0 e in
      let (same, absent) = change_others id f cs (rw own at a) in
      rw (e, same, absent, k c) (ground arith)
]

-- Putting one in raises it by one.
pub count_added :
    (id : ℕ) (f : Client → Client) (cs : List Client) (c : Client)
    → ((x : Client) → (f x).registered ≡ true)
    → Distinct cs
    → In c cs
    → c.id ≡ id
    → c.registered ≡ false
    → registered_count (map (change id f) cs) ≡ suc (registered_count cs)
count_added id f [] c k d i own out = absurd i
count_added id f (x ∷ cs) c k (a, d) (inl e) own out =
    let key : x.id ≡ id = ap (λ (y : Client). y.id) e ∙ own in
    let hit : (x.id == id) ≡ true = (==_iff x.id id).1 key in
    let old : x.registered ≡ false = ap (λ (y : Client). y.registered) e ∙ out in
    let (same, absent) = change_others id f cs (rw key at a) in rw (hit, same, k x, old) refl
count_added id f (x ∷ cs) c k (a, d) (inr i) own out =
    let apart : c.id ≢ x.id = All-In _ cs c a i in
    let miss : (x.id == id) ≡ false = ground arith in
    rw miss (ground (arith, count_added id f cs c k d i own out))
