-- ===== src/Realtime/Expiry.antt =====
-- internal/realtime/hub.go: how a session ends whose time has run out.
use noapp.Prelude.{
  ℕ, suc, ◌≡◌, refl, sym, ap, ◌∙◌, String, true, false, Option, none, List, [], ◌∷◌, map, All,
  All-In, All-of_In, In, In-map, inl, inr, Bool-cases, arith, ℤ, pos, ◌≤ℤ◌, ◌==◌, ==_iff,
}
use noapp.Runtime.{Runtime}
use noapp.Auth.{Principal}
use noapp.Realtime.{
  Client, closed, Hub, change, update, cancel, is_registered, remove, client_count,
}
use noapp.Realtime.Serve.{serve_message, close, tick, is_expired, write_round, write_step}
use noapp.Realtime.Clients.{Distinct, Distinct-map, registered_count, count-map, count_removed}
use noapp.Realtime.Invariant.{ClientInv, Inv}
use noapp.Realtime.Safety.{write_step-same}

same_client :
    (cs : List Client) (c d : Client) → Distinct cs → In c cs → In d cs → d.id ≡ c.id → d ≡ c
same_client [] c d a i j same = absurd i
same_client (x ∷ cs) c d (a, rest) (inl e) (inl e') same = sym e' ∙ e
same_client (x ∷ cs) c d (a, rest) (inl e) (inr j) same =
    absurd (All-In _ cs d a j (same ∙ sym (ap (λ (y : Client). y.id) e)))
same_client (x ∷ cs) c d (a, rest) (inr i) (inl e) same =
    absurd (All-In _ cs c a i (sym same ∙ sym (ap (λ (y : Client). y.id) e)))
same_client (x ∷ cs) c d (a, rest) (inr i) (inr j) same = same_client cs c d rest i j same

In-is_registered :
    (cs : List Client) (c : Client) → In c cs → c.registered ≡ true → is_registered c.id cs ≡ true
In-is_registered [] c i on = absurd i
In-is_registered (x ∷ cs) c (inl e) on =
    let same : x.id ≡ c.id = ap (λ (y : Client). y.id) e in
    let hit : (x.id == c.id) ≡ true = (==_iff x.id c.id).1 same in
    let reg : x.registered ≡ true = ap (λ (y : Client). y.registered) e ∙ on in ground arith
In-is_registered (x ∷ cs) c (inr i) on = let later = In-is_registered cs c i on in ground arith

is_registered-map :
    (g : Client → Client) (id : ℕ) (cs : List Client)
    → ((c : Client) → ((g c).id ≡ c.id) × ((g c).registered ≡ c.registered))
    → is_registered id (map g cs) ≡ is_registered id cs
is_registered-map g id [] k = refl
is_registered-map g id (c ∷ cs) k = rw ((k c).0, (k c).1, is_registered-map g id cs k) refl

change-same :
    (id : ℕ) (f : Client → Client)
    → ((c : Client) → ((f c).id ≡ c.id) × ((f c).registered ≡ c.registered))
    → (c : Client) → ((change id f c).id ≡ c.id) × ((change id f c).registered ≡ c.registered)
change-same id f k c = elim (Bool-cases (c.id == id)) [
  | inl e ↦ rw e (k c)
  | inr e ↦ rw e (refl, refl)
]

-- What holds of the changed client of a number holds of each client that has the number afterwards.
update-All :
    (P : Client → Type 0) (id : ℕ) (f : Client → Client) (h : Hub)
    → ((c : Client) → In c h.clients → c.id ≡ id → P (f c))
    → All (λ d. d.id ≡ id → P d) (update id f h).clients
update-All P id f h k =
    All-of_In _ _ λ d i. let (x, j, e) = In-map (change id f) h.clients d i in rw (← e) (one x j)
  where
    one : (x : Client) → In x h.clients → (change id f x).id ≡ id → P (change id f x)
    one x j = elim (Bool-cases (x.id == id)) [
      | inl e ↦ rw e (λ own. k x j ((==_iff x.id id).0 e))
      | inr e ↦ rw e (λ own. absurd (ground arith))
    ]

expired_write :
    (now : ℤ) (ping : Option String) (c : Client)
    → c.writing ≡ true
    → is_expired now c ≡ true
    → ((write_step (tick now ping) c).cancelled ≡ true)
      × ((write_step (tick now ping) c).writing ≡ false)
unfolding write_step write_round
expired_write now ping c busy old = ground arith

removed :
    (id : ℕ) (h : Hub)
    → Distinct h.clients
    → is_registered id h.clients ≡ true
    → All (λ d. d.id ≡ id → d.registered ≡ false) (close id h).clients
      × (suc (client_count (close id h)) ≡ client_count h)
unfolding close remove client_count
removed id h distinct on = rw there (update-All _ id out later (λ c i own. refl), one_less)
  where
    out : Client → Client
    out c = record c { registered = false; phase = closed }

    later : Hub
    later = update id cancel h

    same :
        (c : Client)
        → ((change id cancel c).id ≡ c.id) × ((change id cancel c).registered ≡ c.registered)
    same = change-same id cancel (λ c. (refl, refl))

    there : is_registered id (map (change id cancel) h.clients) ≡ true
    there = is_registered-map (change id cancel) id h.clients same ∙ on

    one_less :
        suc (registered_count (map (change id out) (map (change id cancel) h.clients)))
        ≡ registered_count h.clients
    one_less =
        let kept = count-map (change id cancel) h.clients (λ c. (same c).1) in
        let fewer =
          count_removed id out (map (change id cancel) h.clients) (λ c. refl)
            (Distinct-map (change id cancel) h.clients (λ c. (same c).0) distinct) in
        ground (arith, there)

-- A session ends when its time has run out: if the invariant of the hub holds, then a tick at or
-- after the expiry of a registered client's principal, which is positive, ends the client's context
-- and its writer, which runs till then, whatever the ping would have given; and the handler, whose
-- read then fails, takes the client out of the hub, so that one client less is counted.
pub expired_leaves :
    (rt : Runtime) (verify : String → Option Principal) (ping : Option String) (now : ℤ) (h : Hub)
    (c : Client)
    → Inv h
    → In c h.clients
    → c.registered ≡ true
    → c.writing ≡ true
    → pos 1 ≤ℤ c.principal.expires_at
    → c.principal.expires_at ≤ℤ now
    → let ticked = update c.id (write_step (tick now ping)) h in
      let left = (serve_message rt c.id verify none ticked).0 in
      All (λ d. d.id ≡ c.id → (d.cancelled ≡ true) × (d.writing ≡ false)) ticked.clients
      × All (λ d. d.id ≡ c.id → d.registered ≡ false) left.clients
      × (suc (client_count left) ≡ client_count h)
unfolding serve_message client_count
expired_leaves rt verify ping now h c inv i on busy some_time over =
    let ticks = write_step (tick now ping) in
    let old : is_expired now c ≡ true =
      let same = (All-In ClientInv h.clients c inv.each i).expiry on in ground arith in
    let kept = change-same c.id ticks (write_step-same (tick now ping)) in
    let (gone, fewer) =
      removed c.id (update c.id ticks h)
        (Distinct-map (change c.id ticks) h.clients (λ x. (kept x).0) inv.distinct)
        (is_registered-map (change c.id ticks) c.id h.clients kept
          ∙ In-is_registered h.clients c i on) in
    (
      update-All _ c.id ticks h λ x j own.
          let same = same_client h.clients c x inv.distinct i j own in
          expired_write now ping x (ap (λ (y : Client). y.writing) same ∙ busy)
            (ap (is_expired now) same ∙ old),
      gone,
      fewer ∙ count-map (change c.id ticks) h.clients (λ x. (kept x).1),
    )
