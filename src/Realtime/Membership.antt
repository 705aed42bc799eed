-- ===== src/Realtime/Membership.antt =====
-- internal/realtime/hub.go: the invariant while a handler authenticates, registers and leaves.
use noapp.Prelude.{
  ℕ, ◌≡◌, refl, sym, ap, ◌∙◌, true, false, Option, none, some, List, [], ◌∷◌, map, All, All-map, In,
  In-map_of_In, inl, inr, Bool-cases, arith, ◌+ℤ◌,
}
use noapp.Auth.{Principal, has_role}
use noapp.Realtime.{Client, serving, closed, Hub, change, authenticate, add, is_registered, remove}
use noapp.Realtime.Clients.{Distinct, Distinct-map, count_removed, count_added}
use noapp.Realtime.Invariant.{ClientInv, Inv, change_cases, update-Inv}

-- What a granted authentication leaves on the client, so that it may be registered.
abbrev pub IsAuthentic : ℕ → Client → Type 0
IsAuthentic id c =
    c.id ≡ id
    → (has_role c.principal "noapp-viewer" ≡ true) × (c.expires_at ≡ c.principal.expires_at)

abbrev granted : Principal → Client → Client
granted p c = record c { principal = p; expires_at = p.expires_at }

granted-IsAuthentic :
    (id : ℕ) (p : Principal)
    → has_role p "noapp-viewer" ≡ true
    → (c : Client) → ClientInv c
    → IsAuthentic id (change id (granted p) c)
granted-IsAuthentic id p e c i own = elim (change_cases id (granted p) c) [
  | inl (a, same) ↦ rw same (e, refl)
  | inr (ne, same) ↦ absurd (ne (sym (ap (λ (x : Client). x.id) same) ∙ own))
]

pub authenticate-Inv :
    (id : ℕ) (outcome : Option Principal) (h : Hub)
    → Inv h
    → Inv (authenticate id outcome h).0
      × ((authenticate id outcome h).1 ≡ true
          → All (IsAuthentic id) (authenticate id outcome h).0.clients)
unfolding authenticate
authenticate-Inv id none h inv =
    (record { distinct = inv.distinct; each = inv.each; counted = inv.counted }, λ e. absurd (cc))
authenticate-Inv id (some p) h inv = elim (Bool-cases (has_role p "noapp-viewer")) [
  | inr e ↦
      rw e (
        record { distinct = inv.distinct; each = inv.each; counted = inv.counted },
        λ e. absurd (cc),
      )
  | inl e ↦ rw e (
    update-Inv id _ h _ refl (λ c. refl) (λ c. refl)
        (λ c i. record {
          bounded = i.bounded;
          viewer = λ r. e;
          expiry = λ r. refl;
          single = i.single;
          positive = i.positive;
          in_loop = i.in_loop;
          in_map = i.in_map;
        })
        inv,
    λ t.
        All-map ClientInv (IsAuthentic id) (change id (granted p)) h.clients
          (granted-IsAuthentic id p e) inv.each,
  )
]

-- The client is still there.
pub authenticate-In :
    (id : ℕ) (outcome : Option Principal) (h : Hub) (c : Client)
    → In c h.clients
    → (d : Client) × In d (authenticate id outcome h).0.clients
      × (d.id ≡ c.id)
      × (d.registered ≡ c.registered)
unfolding authenticate
authenticate-In id none h c i = (c, i, refl, refl)
authenticate-In id (some p) h c i = elim (Bool-cases (has_role p "noapp-viewer")) [
  | inr e ↦ rw e (c, i, refl, refl)
  | inl e ↦ rw e (
    change id (granted p) c,
    In-map_of_In (change id (granted p)) h.clients c i,
    ground arith,
    ground arith,
  )
]

pub remove-Inv : (id : ℕ) (h : Hub) → Inv h → Inv (remove id h)
unfolding remove ◌+ℤ◌
remove-Inv id h inv = elim (Bool-cases (is_registered id h.clients)) [
  | inl e ↦ rw e (record {
    distinct = dis;
    each = all;
    counted =
        let n = count_removed id out h.clients (λ c. refl) inv.distinct in
        ground (arith, inv.counted);
  })
  | inr e ↦ rw e (record {
    distinct = dis;
    each = all;
    counted =
        let n = count_removed id out h.clients (λ c. refl) inv.distinct in
        ground (arith, inv.counted);
  })
]
  where
    out : Client → Client
    out c = record c { registered = false; phase = closed }

    drop : (c : Client) → ClientInv c → ClientInv (change id out c)
    drop c i = elim (change_cases id out c) [
      | inl (a, same) ↦ rw same (record {
        bounded = i.bounded;
        viewer = λ r. absurd (cc);
        expiry = λ r. absurd (cc);
        single = i.single;
        positive = i.positive;
        in_loop = λ r. absurd (cc);
        in_map = λ r. absurd (cc);
      })
      | inr (a, same) ↦ rw same i
    ]

    dis : Distinct (map (change id out) h.clients)
    dis = Distinct-map (change id out) h.clients (λ c. ground arith) inv.distinct

    all : All ClientInv (map (change id out) h.clients)
    all = All-map ClientInv ClientInv (change id out) h.clients drop inv.each

pub add-Inv :
    (id : ℕ) (h : Hub) (c : Client)
    → Inv h
    → All (IsAuthentic id) h.clients
    → In c h.clients
    → c.id ≡ id
    → c.registered ≡ false
    → Inv (add id h)
unfolding add ◌+ℤ◌
add-Inv id h c inv authentic i own free = record {
  distinct = Distinct-map (change id into) h.clients (λ c. ground arith) inv.distinct;
  each =
      All-map Both ClientInv (change id into) h.clients admit (both h.clients inv.each authentic);
  counted =
      let n = count_added id into h.clients c (λ c. refl) inv.distinct i own free in
      ground (arith, inv.counted);
}
  where
    into : Client → Client
    into c = record c { registered = true; phase = serving }

    Both : Client → Type 0
    Both c = ClientInv c × IsAuthentic id c

    both : (cs : List Client) → All ClientInv cs → All (IsAuthentic id) cs → All Both cs
    both [] a b = tt
    both (c ∷ cs) (x, a) (y, b) = ((x, y), both cs a b)

    admit : (c : Client) → Both c → ClientInv (change id into c)
    admit c (i, y) = elim (change_cases id into c) [
      | inl (a, same) ↦
          let (role, expiry) = y a in
          rw same (record {
            bounded = i.bounded;
            viewer = λ r. role;
            expiry = λ r. expiry;
            single = i.single;
            positive = i.positive;
            in_loop = λ r. refl;
            in_map = λ r. refl;
          })
      | inr (a, same) ↦ rw same i
    ]
