-- ===== src/Realtime/Invariant.antt =====
-- internal/realtime/hub.go: what holds of the hub between two of its steps.
use noapp.Prelude.{
  ℕ, ◌≤◌, ◌≡◌, ◌≢◌, refl, sym, ap, ◌∙◌, true, List, [], ◌∷◌, map, length, length-append,
  count_if-append, All, All-map, All-append, inl, inr, ◌⊎◌, ◌==◌, ==_iff, Bool-cases, arith, ℤ, pos,
  ◌≤ℤ◌, eq_ℤ,
}
use mathlib.Core.Path.{subst}
use noapp.Json.{Json, Payload, json}
use noapp.Auth.{has_role}
use noapp.Events.{Envelope}
use noapp.Realtime.{
  new_client, Client, serving, Hub, HubMetrics, capacity, change, accept, offer, subscribe, without,
  unsubscribe, send_json, deliver, is_addressee, broadcast,
}
use noapp.Realtime.Clients.{Distinct, Distinct-map, Distinct-append, registered_count, count-map}

-- What holds of one connection.
pub record ClientInv (c : Client) : Type 0 where
  pub bounded : length c.send ≤ capacity
  pub viewer : c.registered ≡ true → has_role c.principal "noapp-viewer" ≡ true
  pub expiry : c.registered ≡ true → c.expires_at ≡ c.principal.expires_at
  pub single : length c.subscriptions ≤ 1
  pub positive : All (λ p. pos 1 ≤ℤ p) c.subscriptions
  pub in_loop : c.registered ≡ true → c.phase ≡ serving
  pub in_map : c.phase ≡ serving → c.registered ≡ true

pub record Inv (h : Hub) : Type 0 where
  pub distinct : Distinct h.clients
  pub each : All ClientInv h.clients
  pub counted : h.metrics.connections ≡ pos (registered_count h.clients)

-- A change that keeps numbers, registrations and what holds of each connection.
pub map-Inv :
    (g : Client → Client) (h : Hub) (m : HubMetrics)
    → m.connections ≡ h.metrics.connections
    → ((c : Client) → (g c).id ≡ c.id)
    → ((c : Client) → (g c).registered ≡ c.registered)
    → ((c : Client) → ClientInv c → ClientInv (g c))
    → Inv h
    → Inv (record { clients = map g h.clients; metrics = m })
map-Inv g h m same ids regs keeps inv = record {
  distinct = Distinct-map g h.clients ids inv.distinct;
  each = All-map ClientInv ClientInv g h.clients keeps inv.each;
  counted = same ∙ inv.counted ∙ sym (ap pos (count-map g h.clients regs));
}

pub change_cases :
    (id : ℕ) (f : Client → Client) (c : Client)
    → ((c.id ≡ id) × (change id f c ≡ f c)) ⊎ ((c.id ≢ id) × (change id f c ≡ c))
change_cases id f c = elim (Bool-cases (c.id == id)) [
  | inl e ↦ inl ((==_iff c.id id).0 e, rw e refl)
  | inr e ↦ inr (ground arith, rw e refl)
]

-- The same for a change of one client.
pub update-Inv :
    (id : ℕ) (f : Client → Client) (h : Hub) (m : HubMetrics)
    → m.connections ≡ h.metrics.connections
    → ((c : Client) → (f c).id ≡ c.id)
    → ((c : Client) → (f c).registered ≡ c.registered)
    → ((c : Client) → ClientInv c → ClientInv (f c))
    → Inv h
    → Inv (record { clients = map (change id f) h.clients; metrics = m })
update-Inv id f h m same ids regs keeps inv = map-Inv (change id f) h m same own reg keep inv
  where
    own : (c : Client) → (change id f c).id ≡ c.id
    own c = elim (change_cases id f c) [
      | inl (a, e) ↦ ap (λ (x : Client). x.id) e ∙ ids c
      | inr (a, e) ↦ ap (λ (x : Client). x.id) e
    ]

    reg : (c : Client) → (change id f c).registered ≡ c.registered
    reg c = elim (change_cases id f c) [
      | inl (a, e) ↦ ap (λ (x : Client). x.registered) e ∙ regs c
      | inr (a, e) ↦ ap (λ (x : Client). x.registered) e
    ]

    keep : (c : Client) → ClientInv c → ClientInv (change id f c)
    keep c i = elim (change_cases id f c) [
      | inl (a, e) ↦ subst ClientInv (sym e) (keeps c i)
      | inr (a, e) ↦ subst ClientInv (sym e) i
    ]

pub offer-ClientInv : (payload : Payload) (c : Client) → ClientInv c → ClientInv (offer payload c)
offer-ClientInv payload c i = ground (arith, length-append c.send (payload ∷ []))

pub offer-id : (payload : Payload) (c : Client) → (offer payload c).id ≡ c.id
offer-id payload c = ground arith

pub offer-registered :
    (payload : Payload) (c : Client) → (offer payload c).registered ≡ c.registered
offer-registered payload c = ground arith

pub send_json-Inv : (id : ℕ) (value : Json) (h : Hub) → Inv h → Inv (send_json id value h)
unfolding send_json
send_json-Inv id value h =
    update-Inv id _ h h.metrics refl (offer-id (json value)) (offer-registered (json value))
      (offer-ClientInv (json value))

pub accept-Inv : (id : ℕ) (h : Hub) → All (λ c. c.id ≢ id) h.clients → Inv h → Inv (accept id h)
unfolding accept
accept-Inv id h fresh inv = record {
  distinct = Distinct-append h.clients _ fresh inv.distinct;
  each = All-append ClientInv h.clients _ inv.each (ground arith, tt);
  counted = ground (
    arith,
    inv.counted,
    count_if-append (λ (c : Client). c.registered) h.clients (new_client id ∷ []),
  );
}

pub subscribe-Inv :
    (id : ℕ) (project : ℤ) (h : Hub) → pos 1 ≤ℤ project → Inv h → Inv (subscribe id project h)
unfolding subscribe
subscribe-Inv id project h positive =
    update-Inv id _ h h.metrics refl (λ c. refl) (λ c. refl)
      (λ c i. record {
        bounded = i.bounded;
        viewer = i.viewer;
        expiry = i.expiry;
        single = omega arith;
        positive = (positive, tt);
        in_loop = i.in_loop;
        in_map = i.in_map;
      })

length-without-le : (p : ℤ) (qs : List ℤ) → length (without p qs) ≤ length qs
length-without-le p [] = omega arith
length-without-le p (q ∷ qs) = ground (arith, length-without-le p qs)

All-without :
    (p : ℤ) (qs : List ℤ) → All (λ q. pos 1 ≤ℤ q) qs → All (λ q. pos 1 ≤ℤ q) (without p qs)
All-without p [] a = tt
All-without p (q ∷ qs) (b, a) = elim (Bool-cases (eq_ℤ q p)) [
  | inl e ↦ rw e (All-without p qs a)
  | inr e ↦ rw e (b, All-without p qs a)
]

pub unsubscribe-Inv : (id : ℕ) (project : ℤ) (h : Hub) → Inv h → Inv (unsubscribe id project h)
unfolding unsubscribe
unsubscribe-Inv id project h =
    update-Inv id _ h h.metrics refl (λ c. refl) (λ c. refl)
      (λ c i. record {
        bounded = i.bounded;
        viewer = i.viewer;
        expiry = i.expiry;
        single =
            let le = length-without-le project c.subscriptions in let s = i.single in omega arith;
        positive = All-without project c.subscriptions i.positive;
        in_loop = i.in_loop;
        in_map = i.in_map;
      })

deliver-same :
    (project : ℤ) (payload : Payload) (c : Client)
    → ((deliver project payload c).id ≡ c.id)
      × ((deliver project payload c).registered ≡ c.registered)
deliver-same project payload c = ground arith

deliver-ClientInv :
    (project : ℤ) (payload : Payload) (c : Client)
    → ClientInv c
    → ClientInv (deliver project payload c)
deliver-ClientInv project payload c i = elim (Bool-cases (is_addressee project c)) [
  | inl e ↦ rw e (offer-ClientInv payload c i)
  | inr e ↦ rw e i
]

pub broadcast-Inv :
    (e : Envelope) (payload : Payload) (h : Hub) → Inv h → Inv (broadcast e payload h)
unfolding broadcast
broadcast-Inv e payload h =
    map-Inv (deliver e.project_id payload) h _ refl (λ c. (deliver-same e.project_id payload c).0)
      (λ c. (deliver-same e.project_id payload c).1) (deliver-ClientInv e.project_id payload)
