-- ===== src/Realtime/Tests.antt =====
-- internal/realtime/hub.go: the theorems at a hub with one client that reads the sample's project.
use noapp.Prelude.{
  suc, ◌+◌, ◌≡◌, refl, String, true, false, Option, some, [], ◌∷◌, pos, In, inl, count_if,
  strip_prefix, trim_space, split_at, ◌+ℤ◌, All, none, arith,
}
use noapp.Auth.{Principal, has_role, as_header, as_claims, has_audience}
use noapp.Realtime.{
  Client, opening, serving, Hub, no_principal, accept, authenticate, add, subscribe, send_json,
  broadcast, client_count, is_addressee, update,
}
use noapp.Realtime.Serve.{
  ClientMessage, serve_first, serve_message, admit, send_ready, send_until, subscribe_to, tick,
  write_step,
}
use noapp.Realtime.Invariant.{Inv}
use noapp.Realtime.Delivery.{Reached, queued, broadcast_counts, broadcast-Reached}
use noapp.Realtime.Safety.{accepts, opens, serves, Reach, here, next, new_hub, Reach-Inv}
use noapp.Json.{as_strings, key_is, as_string, as_int64}
use noapp.Auth.Keys.{key, lookup_key}
use noapp.Auth.Verify.{claims_rejected, verify}
use noapp.Auth.Sound.{verified}
use noapp.Realtime.Expiry.{expired_leaves}
use noapp.Realtime.Guarded
use noapp.Realtime.Guarded.{
  hub_verify, verifier_after, attempts_after, start, Guarded, GuardedReach,
}
use noapp.Realtime.Verified.{Vouched, GuardedReach-Vouched}
use noapp.Fixtures.{epoch_runtime, sample_event, sample_payload, token_calls, verifier}

abbrev viewer : Principal
viewer = record {
  subject = "ada";
  username = "ada";
  roles = "noapp-viewer" ∷ [];
  expires_at = pos 0;
}

abbrev accept_any : String → Option Principal
accept_any token = some viewer

abbrev hello : Option ClientMessage
hello = some (record { type = "authenticate"; access_token = "t"; project_id = pos 0 })

abbrev watch : Option ClientMessage
watch = some (record { type = "subscribe"; access_token = ""; project_id = pos 3 })

abbrev accepted : Hub
accepted = accept 1 new_hub

abbrev newcomer : Client
newcomer = record {
  id = 1;
  send = [];
  cancelled = false;
  writing = true;
  registered = false;
  phase = opening;
  principal = no_principal;
  subscriptions = [];
  expires_at = pos 0;
}

abbrev opened : Hub
opened = (serve_first epoch_runtime 1 accept_any hello accepted).0

abbrev watching : Hub
watching = (serve_message epoch_runtime 1 accept_any watch opened).0

newcomer-In : In newcomer accepted.clients
unfolding accept
newcomer-In = inl refl

-- The only client of a hub.
abbrev only : Hub → Client
only h = elim h.clients [ [] ↦ newcomer | c ∷ cs ↦ c ]

opened-In :
    (In (only opened) opened.clients) × ((only opened).id ≡ 1) × ((only opened).phase ≡ serving)
unfolding serve_first authenticate has_role add send_until send_ready send_json accept admit
opened-In = (inl refl, refl, refl)

watching-Reach : Reach epoch_runtime new_hub watching
unfolding serve_first authenticate has_role add send_until send_ready send_json accept admit
watching-Reach =
    next (next (next here (accepts 1 tt)) (opens accept_any hello newcomer newcomer-In refl))
      (serves accept_any watch (only opened) opened-In.0 refl)

Reach-Inv_example : Inv watching × (watching.metrics.connections ≡ pos (client_count watching))
Reach-Inv_example = Reach-Inv epoch_runtime watching watching-Reach

broadcast_counts_example :
    let after = broadcast sample_event sample_payload watching in
    (queued after.clients + watching.metrics.deliveries
      ≡ queued watching.clients + after.metrics.deliveries)
    × (after.metrics.deliveries + after.metrics.dropped
        ≡ watching.metrics.deliveries
          + watching.metrics.dropped
          + count_if (is_addressee (pos 3)) watching.clients)
    × (after.metrics.events ≡ suc watching.metrics.events)
broadcast_counts_example = broadcast_counts sample_event sample_payload watching

abbrev reached : Hub
reached = broadcast sample_event sample_payload watching

reached-In : In (only reached) reached.clients
unfolding serve_first authenticate has_role add send_until send_ready send_json accept admit
    serve_message subscribe_to subscribe broadcast
reached-In = inl refl

broadcast-Reached_example :
    (c : Client) × In c watching.clients × Reached (pos 3) sample_payload c (only reached)
broadcast-Reached_example =
    broadcast-Reached sample_event sample_payload watching (only reached)
      (Reach-Inv epoch_runtime watching watching-Reach).0 reached-In

-- The hub behind the sample's verifier, whose client presents the accepted token.
abbrev present : Option ClientMessage
present = some (record { type = "authenticate"; access_token = "h.c.s"; project_id = pos 0 })

abbrev entered : Hub
entered = (serve_first epoch_runtime 1 (hub_verify token_calls verifier) present accepted).0

abbrev guarded : Guarded
guarded = record {
  hub = entered;
  verifier = verifier_after token_calls present verifier;
  attempts = attempts_after token_calls 1 present verifier [];
}

guarded-Reach : GuardedReach epoch_runtime (start verifier) guarded
guarded-Reach =
    Guarded.next (Guarded.next Guarded.here (Guarded.accepts 1 tt))
      (Guarded.opens token_calls present newcomer newcomer-In refl)

entered-In :
    (In (only entered) entered.clients)
    × ((only entered).registered ≡ true)
    × ((only entered).writing ≡ true)
    × ((only entered).principal.expires_at ≡ pos 100)
unfolding serve_first authenticate has_role add send_until send_ready send_json accept admit
    verified verify strip_prefix trim_space split_at as_header key_is as_string as_claims as_int64
    as_strings key lookup_key ◌+ℤ◌ claims_rejected has_audience
entered-In = (inl refl, refl, refl, refl)

GuardedReach-Vouched_example :
    Vouched verifier.config guarded.attempts (only entered).id (only entered).principal
    × (has_role (only entered).principal "noapp-viewer" ≡ true)
GuardedReach-Vouched_example =
    GuardedReach-Vouched epoch_runtime verifier guarded (only entered) guarded-Reach entered-In.0
      entered-In.1

entered-Reach : Reach epoch_runtime new_hub entered
entered-Reach =
    next (next here (accepts 1 tt))
      (opens (hub_verify token_calls verifier) present newcomer newcomer-In refl)

expired_leaves_example :
    let ticked = update (only entered).id (write_step (tick (pos 100) none)) entered in
    let left = (serve_message epoch_runtime (only entered).id accept_any none ticked).0 in
    All (λ d. d.id ≡ (only entered).id → (d.cancelled ≡ true) × (d.writing ≡ false)) ticked.clients
    × All (λ d. d.id ≡ (only entered).id → d.registered ≡ false) left.clients
    × (suc (client_count left) ≡ client_count entered)
expired_leaves_example =
    let (i, on, busy, until) = entered-In in
    expired_leaves epoch_runtime accept_any none (pos 100) entered (only entered)
      (Reach-Inv epoch_runtime entered entered-Reach).0 i on busy (rw until (omega arith))
      (rw until (omega arith))
