-- ===== src/Realtime.antt =====
-- internal/realtime/hub.go: the hub's clients and counters, and each operation on them. The hub's
-- lock makes an operation one step. The clients are the connections that the server has accepted, in
-- the order of acceptance; a connection's number stands for the pointer to it.
pub mod Serve
pub mod Clients
pub mod Delivery
pub mod Invariant
pub mod Membership
pub mod Handler
pub mod Principals
pub mod Safety
pub mod Guarded
pub mod Verified
pub mod Expiry
pub mod Tests
use noapp.Prelude.{
  ℕ, suc, ◌+◌, ◌-◌, ◌*◌, String, Bool, true, false, ◌&&◌, ◌||◌, not, Option, none, some, List, [],
  ◌∷◌, ◌++◌, map, length, count_if, ℤ, pos, negsuc, ◌+ℤ◌, eq_ℤ, ltb, ◌==◌, if◌then◌else◌,
}
use noapp.Json.{Json, str, int, obj, end, field, Payload, json}
use noapp.Runtime.{Runtime}
use noapp.Auth.{Principal, has_role}
use noapp.Events.{Envelope}

-- Which part of ServeHTTP the connection's handler is in: before the first message is accepted, in
-- the loop, or past its end.
pub data Phase : Type 0 where
  opening serving closed : Phase

-- `registered` is the membership in the map h.clients, `writing` says that writeLoop still runs.
pub record Client : Type 0 where
  pub id : ℕ
  pub send : List Payload
  pub cancelled : Bool
  pub writing : Bool
  pub registered : Bool
  pub phase : Phase
  pub principal : Principal
  pub subscriptions : List ℤ
  pub expires_at : ℤ

-- The histogram of latencies is left out.
pub record HubMetrics : Type 0 where
  pub connections : ℤ
  pub allowed : ℕ
  pub denied : ℕ
  pub deliveries : ℕ
  pub dropped : ℕ
  pub events : ℕ

pub record Hub : Type 0 where
  pub clients : List Client
  pub metrics : HubMetrics

abbrev pub no_principal : Principal
no_principal = record { subject = ""; username = ""; roles = []; expires_at = negsuc 62135596799 }

-- The buffer of the channel c.send.
abbrev pub capacity : ℕ
capacity = 64

-- What is done to the client of a number; the others stay.
abbrev pub change : ℕ → (Client → Client) → Client → Client
change id f c = if c.id == id then f c else c

abbrev pub update : ℕ → (Client → Client) → Hub → Hub
update id f h = record h { clients = map (change id f) h.clients }

abbrev pub count : (HubMetrics → HubMetrics) → Hub → Hub
count f h = record h { metrics = f h.metrics }

abbrev new_client : ℕ → Client
new_client id = record {
  id = id;
  send = [];
  cancelled = false;
  writing = true;
  registered = false;
  phase = opening;
  principal = no_principal;
  subscriptions = [];
  expires_at = pos 0;
}

-- An accepted connection, up to the read of the first message.
unfoldable pub accept : ℕ → Hub → Hub
accept id h = record h { clients = h.clients ++ new_client id ∷ [] }

abbrev pub cancel : Client → Client
cancel c = record c { cancelled = true }

abbrev pub has_room : Client → Bool
has_room c = ltb (length c.send) capacity

abbrev pub enqueue : Payload → Client → Client
enqueue payload c = record c { send = c.send ++ payload ∷ [] }

-- The select with a default case: a full channel makes the hub give the client up.
abbrev pub offer : Payload → Client → Client
offer payload c = if has_room c then enqueue payload c else cancel c

-- The outcome of `Verify` is `none` on an error.
unfoldable pub authenticate : ℕ → Option Principal → Hub → Hub × Bool
authenticate id none h = (count (λ m. record m { denied = suc m.denied }) h, false)
authenticate id (some p) h =
    if has_role p "noapp-viewer"
    then (
      count (λ m. record m { allowed = suc m.allowed })
          (update id (λ c. record c { principal = p; expires_at = p.expires_at }) h),
      true,
    )
    else (count (λ m. record m { denied = suc m.denied }) h, false)

unfoldable pub add : ℕ → Hub → Hub
add id h =
    count (λ m. record m { connections = m.connections +ℤ pos 1 })
      (update id (λ c. record c { registered = true; phase = serving }) h)

abbrev pub is_registered : ℕ → List Client → Bool
is_registered id [] = false
is_registered id (c ∷ cs) = c.id == id && c.registered || is_registered id cs

unfoldable pub remove : ℕ → Hub → Hub
remove id h =
    let gone = update id (λ c. record c { registered = false; phase = closed }) h in
    if is_registered id h.clients
    then count (λ m. record m { connections = m.connections +ℤ negsuc 0 }) gone
    else gone

-- A new set with one project: an earlier subscription ends.
unfoldable pub subscribe : ℕ → ℤ → Hub → Hub
subscribe id project = update id (λ c. record c { subscriptions = project ∷ [] })

abbrev pub without : ℤ → List ℤ → List ℤ
without p [] = []
without p (q ∷ qs) = if eq_ℤ q p then without p qs else q ∷ without p qs

unfoldable pub unsubscribe : ℕ → ℤ → Hub → Hub
unsubscribe id project =
    update id (λ c. record c { subscriptions = without project c.subscriptions })

unfoldable pub send_json : ℕ → Json → Hub → Hub
send_json id value = update id (offer (json value))

abbrev pub is_subscribed : ℤ → List ℤ → Bool
is_subscribed p [] = false
is_subscribed p (q ∷ qs) = eq_ℤ q p || is_subscribed p qs

-- Whom the loop of `Broadcast` does not pass over.
abbrev pub is_addressee : ℤ → Client → Bool
is_addressee project c = c.registered && is_subscribed project c.subscriptions

abbrev pub deliver : ℤ → Payload → Client → Client
deliver project payload c = if is_addressee project c then offer payload c else c

abbrev pub gets : ℤ → Client → Bool
gets project c = is_addressee project c && has_room c

abbrev pub misses : ℤ → Client → Bool
misses project c = is_addressee project c && not (has_room c)

unfoldable pub broadcast : Envelope → Payload → Hub → Hub
broadcast e payload h = record {
  clients = map (deliver e.project_id payload) h.clients;
  metrics = record h.metrics {
    events = suc h.metrics.events;
    deliveries = h.metrics.deliveries + count_if (gets e.project_id) h.clients;
    dropped = h.metrics.dropped + count_if (misses e.project_id) h.clients;
  };
}

unfoldable pub client_count : Hub → ℕ
client_count h = count_if (λ c. c.registered) h.clients
