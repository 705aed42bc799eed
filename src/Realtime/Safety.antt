-- ===== src/Realtime/Safety.antt =====
-- internal/realtime/hub.go: the steps of the hub, of its handlers and of its writers in any order.

use noapp.Prelude.{
  ℕ, ◌≤◌, ◌≡◌, ◌≢◌, refl, String, Bool, true, false, Option, none, some, List, [], ◌∷◌, length, All,
  In, inl, inr, Bool-cases, arith, pos, if◌then◌else◌,
}
use noapp.Json.{Payload}
use noapp.Runtime.{Runtime}
use noapp.Auth.{Principal}
use noapp.Events.{Envelope}
use noapp.Realtime.{
  Client, opening, serving, Hub, HubMetrics, update, accept, broadcast, client_count,
}
use noapp.Realtime.Serve.{
  ClientMessage, serve_first, serve_message, Wake, stop, write, tick, rest_of, is_expired,
  write_round, write_step,
}
use noapp.Realtime.Invariant.{ClientInv, Inv, update-Inv, accept-Inv, broadcast-Inv}
use noapp.Realtime.Handler.{serve_first-Inv, serve_message-Inv}

writer-ClientInv :
    (queue : List Payload) (gone busy : Bool) (c : Client)
    → length queue ≤ length c.send
    → ClientInv c
    → ClientInv (record c { send = queue; cancelled = gone; writing = busy })
writer-ClientInv queue gone busy c le i = record {
  bounded = let b = i.bounded in omega arith;
  viewer = i.viewer;
  expiry = i.expiry;
  single = i.single;
  positive = i.positive;
  in_loop = i.in_loop;
  in_map = i.in_map;
}

length-rest_of-le : (ps : List Payload) → length (rest_of ps) ≤ length ps
length-rest_of-le [] = omega arith
length-rest_of-le (p ∷ ps) = omega arith

write_round-ClientInv : (wake : Wake) (c : Client) → ClientInv c → ClientInv (write_round wake c)
unfolding write_round
write_round-ClientInv stop c i = writer-ClientInv _ _ _ c (omega arith) i
write_round-ClientInv (write none) c i = writer-ClientInv _ _ _ c (length-rest_of-le c.send) i
write_round-ClientInv (write (some text)) c i =
    writer-ClientInv _ _ _ c (length-rest_of-le c.send) i
write_round-ClientInv (tick now none) c i = elim (Bool-cases (is_expired now c)) [
  | inl e ↦ rw e (writer-ClientInv _ _ _ c (omega arith) i)
  | inr e ↦ rw e i
]
write_round-ClientInv (tick now (some text)) c i = elim (Bool-cases (is_expired now c)) [
  | inl e ↦ rw e (writer-ClientInv _ _ _ c (omega arith) i)
  | inr e ↦ rw e (writer-ClientInv _ _ _ c (omega arith) i)
]

pub write_step-same :
    (wake : Wake) (c : Client)
    → ((write_step wake c).id ≡ c.id) × ((write_step wake c).registered ≡ c.registered)
unfolding write_step write_round
write_step-same stop c = ground arith
write_step-same (write none) c = ground arith
write_step-same (write (some text)) c = ground arith
write_step-same (tick now none) c = ground arith
write_step-same (tick now (some text)) c = ground arith

if_cases-ClientInv :
    (b : Bool) (x y : Client) → ClientInv x → ClientInv y → ClientInv (if b then x else y)
if_cases-ClientInv true x y i j = i
if_cases-ClientInv false x y i j = j

write_step-ClientInv : (wake : Wake) (c : Client) → ClientInv c → ClientInv (write_step wake c)
unfolding write_step
write_step-ClientInv wake c i =
    if_cases-ClientInv c.writing (write_round wake c) c (write_round-ClientInv wake c i) i

-- A step of the process: a connection is accepted under a new number; its handler reads the first
-- message, or a later one; an event is broadcast; the writer of a connection makes a round.
pub data Step (rt : Runtime) (h : Hub) : Hub → Type 0 where
  accepts : (id : ℕ) → All (λ c. c.id ≢ id) h.clients → Step rt h (accept id h)
  opens :
      (verify : String → Option Principal) (message : Option ClientMessage) (c : Client)
      → In c h.clients
      → c.phase ≡ opening
      → Step rt h (serve_first rt c.id verify message h).0
  serves :
      (verify : String → Option Principal) (message : Option ClientMessage) (c : Client)
      → In c h.clients
      → c.phase ≡ serving
      → Step rt h (serve_message rt c.id verify message h).0
  broadcasts : (e : Envelope) (payload : Payload) → Step rt h (broadcast e payload h)
  writes : (id : ℕ) (wake : Wake) → Step rt h (update id (write_step wake) h)

pub data Reach (rt : Runtime) (h : Hub) : Hub → Type 0 where
  here : Reach rt h h
  next : {h' h'' : Hub} → Reach rt h h' → Step rt h' h'' → Reach rt h h''

Step-Inv : (rt : Runtime) (h h' : Hub) → Step rt h h' → Inv h → Inv h'
Step-Inv rt h h' (accepts id fresh) inv = accept-Inv id h fresh inv
Step-Inv rt h h' (opens verify message c i new) inv =
    serve_first-Inv rt c.id verify message h c inv i refl new
Step-Inv rt h h' (serves verify message c i on) inv = serve_message-Inv rt c.id verify message h inv
Step-Inv rt h h' (broadcasts e payload) inv = broadcast-Inv e payload h inv
Step-Inv rt h h' (writes id wake) inv =
    update-Inv id (write_step wake) h h.metrics refl (λ c. (write_step-same wake c).0)
      (λ c. (write_step-same wake c).1) (write_step-ClientInv wake) inv

abbrev pub no_metrics : HubMetrics
no_metrics = record {
  connections = pos 0;
  allowed = 0;
  denied = 0;
  deliveries = 0;
  dropped = 0;
  events = 0;
}

-- NewHub.
abbrev pub new_hub : Hub
new_hub = record { clients = []; metrics = no_metrics }

-- Every hub that the steps reach from the new one keeps the invariant: the numbers of its
-- connections differ; a channel holds at most 64 payloads; a registered client has the role
-- noapp-viewer, its expiry is its principal's, and its handler is in the loop, and conversely; a
-- client has at most one subscription, to a positive project. The counter of connections is the
-- number that ClientCount gives.
pub Reach-Inv :
    (rt : Runtime) (h : Hub)
    → Reach rt new_hub h
    → Inv h × (h.metrics.connections ≡ pos (client_count h))
unfolding client_count
Reach-Inv rt h reached = let inv = go h reached in (inv, inv.counted)
  where
    go : (h : Hub) → Reach rt new_hub h → Inv h
    go h here = record { distinct = tt; each = tt; counted = refl }
    go h (next {h'} r s) = Step-Inv rt h' h s (go h' r)
