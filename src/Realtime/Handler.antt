-- ===== src/Realtime/Handler.antt =====
-- internal/realtime/hub.go: the invariant while a handler serves its connection.

use noapp.Prelude.{
  ℕ, ◌≡◌, refl, ◌∙◌, String, Bool, true, false, Option, none, some, All, All-In, In, inl, inr,
  Bool-cases, Option-cases, arith, ℤ, pos, str_eq, ltb_ℤ,
}
use noapp.Json.{Json}
use noapp.Runtime.{Runtime}
use noapp.Auth.{Principal}
use noapp.Realtime.{Client, opening, Hub, cancel}
use noapp.Realtime.Serve.{
  ClientMessage, close, serve_first, serve_message, admit, renew, subscribe_to, send_until,
  send_ready, send_authenticated, to_nanoseconds,
}
use noapp.Realtime.Invariant.{
  ClientInv, Inv, update-Inv, send_json-Inv, subscribe-Inv, unsubscribe-Inv,
}
use noapp.Realtime.Membership.{IsAuthentic, authenticate-Inv, remove-Inv, add-Inv, authenticate-In}

close-Inv : (id : ℕ) (h : Hub) → Inv h → Inv (close id h)
unfolding close
close-Inv id h inv = remove-Inv id _ (
    update-Inv id cancel h h.metrics refl (λ c. refl) (λ c. refl)
      (λ c i. record {
        bounded = i.bounded;
        viewer = i.viewer;
        expiry = i.expiry;
        single = i.single;
        positive = i.positive;
        in_loop = i.in_loop;
        in_map = i.in_map;
      })
      inv)

module _ (rt : Runtime) (id : ℕ) where
  send_until-Inv :
      (message : Json → Json) (p : Principal) (h : Hub) → Inv h → Inv (send_until rt id message p h)
  unfolding send_until
  send_until-Inv message p h inv =
      elim (Option-cases (rt.format_time (to_nanoseconds p.expires_at))) [
        | inl e ↦ rw (e, send_until) inv
        | inr (text, e) ↦ rw (e, send_until) (send_json-Inv id _ h inv)
      ]

  send_ready-Inv : (h : Hub) → Inv h → Inv (send_ready rt id h)
  unfolding send_ready
  send_ready-Inv h inv = send_until-Inv _ _ h inv

  renew-Inv : (h : Hub) (granted : Bool) → Inv h → Inv (renew rt id (h, granted)).0
  unfolding renew send_authenticated
  renew-Inv h true inv = send_until-Inv _ _ h inv
  renew-Inv h false inv = close-Inv id h inv

  subscribe_to-Inv : (project : ℤ) (h : Hub) → Inv h → Inv (subscribe_to rt id project h)
  unfolding subscribe_to
  subscribe_to-Inv project h inv = elim (Bool-cases (ltb_ℤ project (pos 1))) [
    | inl e ↦ rw e (send_json-Inv id _ h inv)
    | inr e ↦ rw e (send_json-Inv id _ _ (subscribe-Inv id project h (ground arith) inv))
  ]

  pub serve_message-Inv :
      (verify : String → Option Principal) (message : Option ClientMessage) (h : Hub)
      → Inv h
      → Inv (serve_message rt id verify message h).0
  unfolding serve_message
  serve_message-Inv verify none h inv = close-Inv id h inv
  serve_message-Inv verify (some m) h inv = elim (Bool-cases (str_eq m.type "authenticate")) [
    | inl e ↦ rw e (renew-Inv _ _ (authenticate-Inv id (verify m.access_token) h inv).0)
    | inr e ↦ elim (Bool-cases (str_eq m.type "subscribe")) [
      | inl s ↦ rw (e, s) (subscribe_to-Inv m.project_id h inv)
      | inr s ↦ elim (Bool-cases (str_eq m.type "unsubscribe")) [
        | inl u ↦ rw (e, s, u) (unsubscribe-Inv id m.project_id h inv)
        | inr u ↦ rw (e, s, u) (send_json-Inv id _ h inv)
      ]
    ]
  ]

  admit-Inv :
      (h : Hub) (granted : Bool) (c : Client)
      → Inv h
      → (granted ≡ true → All (IsAuthentic id) h.clients)
      → In c h.clients
      → c.id ≡ id
      → c.registered ≡ false
      → Inv (admit rt id (h, granted)).0
  unfolding admit
  admit-Inv h true c inv authentic i own free =
      send_ready-Inv _ (add-Inv id h c inv (authentic refl) i own free)
  admit-Inv h false c inv authentic i own free = close-Inv id h inv

  pub serve_first-Inv :
      (verify : String → Option Principal) (message : Option ClientMessage) (h : Hub) (c : Client)
      → Inv h
      → In c h.clients
      → c.id ≡ id
      → c.phase ≡ opening
      → Inv (serve_first rt id verify message h).0
  unfolding serve_first
  serve_first-Inv verify none h c inv i own new = close-Inv id h inv
  serve_first-Inv verify (some m) h c inv i own new =
      elim (Bool-cases (str_eq m.type "authenticate")) [
        | inr e ↦ rw e (close-Inv id h inv)
        | inl e ↦
            let (kept, authentic) = authenticate-Inv id (verify m.access_token) h inv in
            let ci = All-In ClientInv h.clients c inv.each i in
            let free : c.registered ≡ false = ground (arith, ci.in_loop) in
            let (d, j, same, out) = authenticate-In id (verify m.access_token) h c i in
            rw e (admit-Inv _ _ d kept authentic j (same ∙ own) (out ∙ free))
      ]
