-- ===== src/Realtime/Principals/Serving.antt =====
-- internal/realtime/hub.go: the principals of the registered clients while ServeHTTP reads messages.
use noapp.Prelude.{
  ℕ, ◌≡◌, refl, String, Bool, true, false, Option, none, some, All, inl, inr, Bool-cases,
  Option-cases, ℤ, pos, str_eq, ltb_ℤ,
}
use noapp.Json.{Json}
use noapp.Runtime.{Runtime}
use noapp.Auth.{Principal}
use noapp.Realtime.{Hub, subscribe, unsubscribe}
use noapp.Realtime.Serve.{
  ClientMessage, serve_first, serve_message, admit, renew, subscribe_to, send_until, send_ready,
  send_authenticated, to_nanoseconds,
}
use noapp.Realtime.Principals.{
  AllTrusted, update-AllTrusted, send_json-AllTrusted, close-AllTrusted, authenticate-AllTrusted,
  add-AllTrusted,
}

module _ (Trusted : ℕ → Principal → Type 0) (rt : Runtime) (id : ℕ) where
  send_until-AllTrusted :
      (message : Json → Json) (p : Principal) (h : Hub)
      → AllTrusted Trusted h
      → AllTrusted Trusted (send_until rt id message p h)
  unfolding send_until
  send_until-AllTrusted message p h all =
      elim (Option-cases (rt.format_time (to_nanoseconds p.expires_at))) [
        | inl e ↦ rw (e, send_until) all
        | inr (text, e) ↦ rw (e, send_until) (send_json-AllTrusted Trusted id _ h all)
      ]

  admit-AllTrusted :
      (x : Hub × Bool)
      → AllTrusted Trusted x.0
      → (x.1 ≡ true → All (λ c. c.id ≡ id → Trusted id c.principal) x.0.clients)
      → AllTrusted Trusted (admit rt id x).0
  unfolding admit send_ready
  admit-AllTrusted (h, true) all own =
      send_until-AllTrusted _ _ _ (add-AllTrusted Trusted id h (own refl) all)
  admit-AllTrusted (h, false) all own = close-AllTrusted Trusted id h all

  renew-AllTrusted :
      (x : Hub × Bool) → AllTrusted Trusted x.0 → AllTrusted Trusted (renew rt id x).0
  unfolding renew send_authenticated
  renew-AllTrusted (h, true) all = send_until-AllTrusted _ _ h all
  renew-AllTrusted (h, false) all = close-AllTrusted Trusted id h all

  subscribe_to-AllTrusted :
      (project : ℤ) (h : Hub)
      → AllTrusted Trusted h
      → AllTrusted Trusted (subscribe_to rt id project h)
  unfolding subscribe_to subscribe
  subscribe_to-AllTrusted project h all = elim (Bool-cases (ltb_ℤ project (pos 1))) [
    | inl e ↦ rw e (send_json-AllTrusted Trusted id _ h all)
    | inr e ↦
        rw e (send_json-AllTrusted Trusted id _ _ (update-AllTrusted Trusted id _ h (λ c k. k) all))
  ]

  -- What the verifier answers to the token of a message that authenticates.
  abbrev pub Sound : (String → Option Principal) → Option ClientMessage → Type 0
  Sound verify none = Unit
  Sound verify (some m) =
      str_eq m.type "authenticate" ≡ true
      → (p : Principal) → verify m.access_token ≡ some p
      → Trusted id p

  pub serve_first-AllTrusted :
      (verify : String → Option Principal) (message : Option ClientMessage) (h : Hub)
      → Sound verify message
      → AllTrusted Trusted h
      → AllTrusted Trusted (serve_first rt id verify message h).0
  unfolding serve_first
  serve_first-AllTrusted verify none h sound all = close-AllTrusted Trusted id h all
  serve_first-AllTrusted verify (some m) h sound all =
      elim (Bool-cases (str_eq m.type "authenticate")) [
        | inr e ↦ rw e (close-AllTrusted Trusted id h all)
        | inl e ↦
            let (kept, own) =
              authenticate-AllTrusted Trusted id (verify m.access_token) h (sound e) all in
            rw e (admit-AllTrusted _ kept own)
      ]

  pub serve_message-AllTrusted :
      (verify : String → Option Principal) (message : Option ClientMessage) (h : Hub)
      → Sound verify message
      → AllTrusted Trusted h
      → AllTrusted Trusted (serve_message rt id verify message h).0
  unfolding serve_message unsubscribe
  serve_message-AllTrusted verify none h sound all = close-AllTrusted Trusted id h all
  serve_message-AllTrusted verify (some m) h sound all =
      elim (Bool-cases (str_eq m.type "authenticate")) [
        | inl e ↦ rw e (
            renew-AllTrusted _
              (authenticate-AllTrusted Trusted id (verify m.access_token) h (sound e) all).0)
        | inr e ↦ elim (Bool-cases (str_eq m.type "subscribe")) [
          | inl s ↦ rw (e, s) (subscribe_to-AllTrusted m.project_id h all)
          | inr s ↦ elim (Bool-cases (str_eq m.type "unsubscribe")) [
            | inl u ↦ rw (e, s, u) (update-AllTrusted Trusted id _ h (λ c k. k) all)
            | inr u ↦ rw (e, s, u) (send_json-AllTrusted Trusted id _ h all)
          ]
        ]
      ]
