-- ===== src/Realtime/Delivery.antt =====
-- internal/realtime/hub.go: whom `Broadcast` reaches, and what its counters count.
use noapp.Prelude.{
  ℕ, suc, ◌+◌, ◌≤◌, ◌≡◌, refl, ap, true, false, List, [], ◌∷◌, ◌++◌, map, length, length-append,
  count_if, All-In, In, In-map, inl, inr, Bool-cases, arith, ℤ, eq_ℤ_iff,
}
use noapp.Json.{Payload}
use noapp.Auth.{has_role}
use noapp.Events.{Envelope}
use noapp.Realtime.{
  Client, serving, Hub, has_room, deliver, is_addressee, is_subscribed, gets, misses, broadcast,
}
use noapp.Realtime.Invariant.{ClientInv, Inv}

-- The payloads in the channels of all clients.
abbrev pub queued : List Client → ℕ
queued [] = 0
queued (c ∷ cs) = length c.send + queued cs

queued-deliver :
    (project : ℤ) (payload : Payload) (cs : List Client)
    → queued (map (deliver project payload) cs) ≡ queued cs + count_if (gets project) cs
queued-deliver project payload [] = refl
queued-deliver project payload (c ∷ cs) =
    ground (arith, queued-deliver project payload cs, length-append c.send (payload ∷ []))

addressees_split :
    (project : ℤ) (cs : List Client)
    → count_if (gets project) cs + count_if (misses project) cs ≡ count_if (is_addressee project) cs
addressees_split project [] = refl
addressees_split project (c ∷ cs) = ground (arith, addressees_split project cs)

-- Broadcast puts as many payloads into the clients' channels as it adds to the counter of
-- deliveries. The counters of deliveries and of dropped clients together grow by the number of
-- registered clients that are subscribed to the event's project, and one event is counted.
pub broadcast_counts :
    (e : Envelope) (payload : Payload) (h : Hub)
    → let after = broadcast e payload h in
      (queued after.clients + h.metrics.deliveries ≡ queued h.clients + after.metrics.deliveries)
      × (after.metrics.deliveries + after.metrics.dropped
          ≡ h.metrics.deliveries
            + h.metrics.dropped
            + count_if (is_addressee e.project_id) h.clients)
      × (after.metrics.events ≡ suc h.metrics.events)
unfolding broadcast
broadcast_counts e payload h = (
  omega (arith, queued-deliver e.project_id payload h.clients),
  omega (arith, addressees_split e.project_id h.clients),
  refl,
)

-- Whom an event may reach.
pub record IsReader (project : ℤ) (c : Client) : Type 0 where
  pub registered : c.registered ≡ true
  pub serves : c.phase ≡ serving
  pub viewer : has_role c.principal "noapp-viewer" ≡ true
  pub subscribed : c.subscriptions ≡ project ∷ []

-- What the event does to a client.
pub data Reached (project : ℤ) (payload : Payload) (c : Client) : Client → Type 0 where
  untouched : is_addressee project c ≡ false → Reached project payload c c
  queued_last :
      IsReader project c
      → length c.send ≤ 63
      → Reached project payload c (record c { send = c.send ++ payload ∷ [] })
  given_up :
      IsReader project c
      → length c.send ≡ 64
      → Reached project payload c (record c { cancelled = true })

only_one :
    (project : ℤ) (ps : List ℤ)
    → length ps ≤ 1
    → is_subscribed project ps ≡ true
    → ps ≡ project ∷ []
only_one project [] le e = absurd (ground arith)
only_one project (p ∷ []) le e = ap (λ x. x ∷ []) ((eq_ℤ_iff p project).0 (ground arith))
only_one project (p ∷ q ∷ ps) le e = absurd (omega arith)

deliver-Reached :
    (project : ℤ) (payload : Payload) (c : Client)
    → ClientInv c
    → Reached project payload c (deliver project payload c)
deliver-Reached project payload c i = elim (Bool-cases (is_addressee project c)) [
  | inr e ↦ rw e (untouched e)
  | inl e ↦
      let reader : IsReader project c =
        let reg : c.registered ≡ true = ground arith in
        record {
          registered = reg;
          serves = i.in_loop reg;
          viewer = i.viewer reg;
          subscribed = only_one project c.subscriptions i.single (ground arith);
        } in
      let full = i.bounded in
      elim (Bool-cases (has_room c)) [
        | inl r ↦ rw (e, r) (queued_last reader (ground arith))
        | inr r ↦ rw (e, r) (given_up reader (ground arith))
      ]
]

-- In a hub whose invariant holds, Broadcast leaves a client as it is, or appends the payload to its
-- channel, or cancels it because its channel holds 64 payloads. The last two happen only to clients
-- that are registered, past authentication, with the role noapp-viewer, and subscribed to the
-- event's project and no other.
pub broadcast-Reached :
    (e : Envelope) (payload : Payload) (h : Hub) (d : Client)
    → Inv h
    → In d (broadcast e payload h).clients
    → (c : Client) × In c h.clients × Reached e.project_id payload c d
unfolding broadcast
broadcast-Reached e payload h d inv i =
    let (c, j, same) = In-map (deliver e.project_id payload) h.clients d i in
    (
      c,
      j,
      rw same at (deliver-Reached e.project_id payload c (All-In ClientInv h.clients c inv.each j)),
    )
