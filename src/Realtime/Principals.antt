-- ===== src/Realtime/Principals.antt =====
-- internal/realtime/hub.go: where the principals of the registered clients come from. What holds of
-- each principal that the verifier gives holds of each registered client's.
pub mod Serving
use noapp.Prelude.{
  ℕ, ◌≡◌, refl, ◌==◌, ==_iff, String, Bool, true, false, Option, none, some, List, [], ◌∷◌, All,
  All-map, All-append, inl, inr, Bool-cases, Option-cases, arith, ℤ, pos, str_eq, ltb_ℤ,
  if◌then◌else◌,
}
use noapp.Json.{Json, Payload, json}
use noapp.Runtime.{Runtime}
use noapp.Auth.{Principal, has_role}
use noapp.Events.{Envelope}
use noapp.Realtime.{
  Client, serving, Hub, change, update, new_client, accept, cancel, offer, authenticate, add,
  remove, is_registered, subscribe, unsubscribe, send_json, deliver, is_addressee, broadcast,
}
use noapp.Realtime.Serve.{
  ClientMessage, close, serve_first, serve_message, admit, renew, subscribe_to, send_until,
  send_ready, send_authenticated, to_nanoseconds, Wake, stop, write, tick, is_expired, write_round,
  write_step,
}

abbrev granted : Principal → Client → Client
granted p c = record c { principal = p; expires_at = p.expires_at }

module _ (Trusted : ℕ → Principal → Type 0) where
  abbrev pub Holds : Client → Type 0
  Holds c = c.registered ≡ true → Trusted c.id c.principal

  -- All registered clients of a hub have principals that are trusted for them.
  abbrev pub AllTrusted : Hub → Type 0
  AllTrusted h = All Holds h.clients

  pub update-AllTrusted :
      (id : ℕ) (f : Client → Client) (h : Hub)
      → ((c : Client) → Holds c → Holds (f c))
      → AllTrusted h
      → AllTrusted (update id f h)
  update-AllTrusted id f h keeps all = All-map Holds Holds (change id f) h.clients one all
    where
      one : (c : Client) → Holds c → Holds (change id f c)
      one c k = elim (Bool-cases (c.id == id)) [ inl e ↦ rw e (keeps c k) | inr e ↦ rw e k ]

  pub accept-AllTrusted : (id : ℕ) (h : Hub) → AllTrusted h → AllTrusted (accept id h)
  unfolding accept
  accept-AllTrusted id h all =
      All-append Holds h.clients (new_client id ∷ []) all ((λ r. absurd (cc)), tt)

  offer-Holds : (payload : Payload) (c : Client) → Holds c → Holds (offer payload c)
  offer-Holds payload c k = ground arith

  pub send_json-AllTrusted :
      (id : ℕ) (value : Json) (h : Hub) → AllTrusted h → AllTrusted (send_json id value h)
  unfolding send_json
  send_json-AllTrusted id value h all = update-AllTrusted id _ h (offer-Holds (json value)) all

  remove-AllTrusted : (id : ℕ) (h : Hub) → AllTrusted h → AllTrusted (remove id h)
  unfolding remove
  remove-AllTrusted id h all = elim (Bool-cases (is_registered id h.clients)) [
    | inl e ↦ rw e (update-AllTrusted id _ h (λ c k r. absurd (cc)) all)
    | inr e ↦ rw e (update-AllTrusted id _ h (λ c k r. absurd (cc)) all)
  ]

  pub close-AllTrusted : (id : ℕ) (h : Hub) → AllTrusted h → AllTrusted (close id h)
  unfolding close
  close-AllTrusted id h all = remove-AllTrusted id _ (update-AllTrusted id cancel h (λ c k. k) all)

  pub authenticate-AllTrusted :
      (id : ℕ) (outcome : Option Principal) (h : Hub)
      → ((p : Principal) → outcome ≡ some p → Trusted id p)
      → AllTrusted h
      → AllTrusted (authenticate id outcome h).0
        × ((authenticate id outcome h).1 ≡ true
            → All (λ c. c.id ≡ id → Trusted id c.principal) (authenticate id outcome h).0.clients)
  unfolding authenticate
  authenticate-AllTrusted id none h sound all = (all, λ e. absurd (cc))
  authenticate-AllTrusted id (some p) h sound all = elim (Bool-cases (has_role p "noapp-viewer")) [
    | inr e ↦ rw e (all, λ t. absurd (cc))
    | inl e ↦ rw e (
      All-map Holds Holds (change id (granted p)) h.clients (here p (sound p refl)) all,
      λ t.
          All-map Holds (λ c. c.id ≡ id → Trusted id c.principal) (change id (granted p)) h.clients
            (own p (sound p refl)) all,
    )
  ]
    where
      here :
          (p : Principal) → Trusted id p → (c : Client) → Holds c → Holds (change id (granted p) c)
      here p trusted c k = elim (Bool-cases (c.id == id)) [
        | inl e ↦ rw (e, (==_iff c.id id).0 e) (λ r. trusted)
        | inr e ↦ rw e k
      ]

      own :
          (p : Principal)
          → Trusted id p
          → (c : Client) → Holds c
          → (change id (granted p) c).id ≡ id
          → Trusted id (change id (granted p) c).principal
      own p trusted c k = elim (Bool-cases (c.id == id)) [
        | inl e ↦ rw e (λ same. trusted)
        | inr e ↦ rw e (λ same. absurd (ground arith))
      ]

  pub add-AllTrusted :
      (id : ℕ) (h : Hub)
      → All (λ c. c.id ≡ id → Trusted id c.principal) h.clients
      → AllTrusted h
      → AllTrusted (add id h)
  unfolding add
  add-AllTrusted id h trusted all =
      All-map Both Holds (change id into) h.clients one (both h.clients trusted all)
    where
      into : Client → Client
      into c = record c { registered = true; phase = serving }

      Both : Client → Type 0
      Both c = (c.id ≡ id → Trusted id c.principal) × Holds c

      both :
          (cs : List Client)
          → All (λ c. c.id ≡ id → Trusted id c.principal) cs
          → All Holds cs
          → All Both cs
      both [] a b = tt
      both (c ∷ cs) (x, a) (y, b) = ((x, y), both cs a b)

      one : (c : Client) → Both c → Holds (change id into c)
      one c (own, k) = elim (Bool-cases (c.id == id)) [
        | inl e ↦ rw (e, (==_iff c.id id).0 e) (λ r. own ((==_iff c.id id).0 e))
        | inr e ↦ rw e k
      ]

  pub broadcast-AllTrusted :
      (e : Envelope) (payload : Payload) (h : Hub)
      → AllTrusted h
      → AllTrusted (broadcast e payload h)
  unfolding broadcast
  broadcast-AllTrusted e payload h all =
      All-map Holds Holds _ h.clients (deliver-Holds e.project_id) all
    where
      deliver-Holds : (project : ℤ) (c : Client) → Holds c → Holds (deliver project payload c)
      deliver-Holds project c k = elim (Bool-cases (is_addressee project c)) [
        | inl a ↦ rw a (offer-Holds payload c k)
        | inr a ↦ rw a k
      ]

  write_round-Holds : (wake : Wake) (c : Client) → Holds c → Holds (write_round wake c)
  unfolding write_round
  write_round-Holds stop c k = k
  write_round-Holds (write none) c k = k
  write_round-Holds (write (some text)) c k = k
  write_round-Holds (tick now none) c k = elim (Bool-cases (is_expired now c)) [
    | inl e ↦ rw e k
    | inr e ↦ rw e k
  ]
  write_round-Holds (tick now (some text)) c k = elim (Bool-cases (is_expired now c)) [
    | inl e ↦ rw e k
    | inr e ↦ rw e k
  ]

  if_cases-Holds : (b : Bool) (x y : Client) → Holds x → Holds y → Holds (if b then x else y)
  if_cases-Holds true x y k l = k
  if_cases-Holds false x y k l = l

  write_step-Holds : (wake : Wake) (c : Client) → Holds c → Holds (write_step wake c)
  unfolding write_step
  write_step-Holds wake c k =
      if_cases-Holds c.writing (write_round wake c) c (write_round-Holds wake c k) k

  pub write_step-AllTrusted :
      (id : ℕ) (wake : Wake) (h : Hub) → AllTrusted h → AllTrusted (update id (write_step wake) h)
  write_step-AllTrusted id wake h all = update-AllTrusted id _ h (write_step-Holds wake) all
