-- ===== src/Realtime/Verified.antt =====
-- internal/realtime/hub.go with internal/auth/verifier.go: what stands behind the principals of the hub.
use noapp.Prelude.{
  List, All-weaken, ℕ, ◌≡◌, refl, ◌∙◌, true, Option, none, some, All-In, In, str_eq, Bool-cases,
  inl, inr,
}
use noapp.Runtime.{Runtime, ok}
use noapp.Auth.{Config, Principal, Verifier, has_role}
use noapp.Auth.Verify
use noapp.Auth.Verify.{verify}
use noapp.Auth.Sound.{Accepted, verified-ok, verified-Accepted}
use noapp.Auth.Settings.{verify-config}
use noapp.Realtime.{Client, Hub}
use noapp.Realtime.Serve.{ClientMessage}
use noapp.Realtime.Invariant.{ClientInv}
use noapp.Realtime.Safety
use noapp.Realtime.Safety.{Reach, new_hub, Reach-Inv}
use noapp.Realtime.Principals.Serving.{Sound, serve_first-AllTrusted, serve_message-AllTrusted}
use noapp.Realtime.Principals.{
  AllTrusted, accept-AllTrusted, broadcast-AllTrusted, write_step-AllTrusted,
}
use noapp.Realtime.Guarded.{
  bearer, hub_verify, verifier_after, Attempt, attempts_after, Guarded, GuardedStep, accepts, opens,
  serves, broadcasts, writes, GuardedReach, here, next, start,
}

-- Among the calls made is one for this connection that has returned this principal, by a verifier of
-- this configuration: the token is accepted, with the libraries, the clock and the answer that the
-- call has met.
pub record Vouched (config : Config) (attempts : List Attempt) (id : ℕ) (p : Principal)
    : Type 0 where
  pub attempt : Attempt
  pub made : In attempt attempts
  pub own : attempt.id ≡ id
  pub configured : attempt.verifier.config ≡ config
  pub after : Verifier
  pub returned : verify attempt.calls (bearer attempt.token) attempt.verifier ≡ (after, ok p)
  pub accepted : Accepted attempt.calls (bearer attempt.token) attempt.verifier after p

record Kept (rt : Runtime) (config : Config) (s : Guarded) : Type 0 where
  reached : Reach rt new_hub s.hub
  configured : s.verifier.config ≡ config
  vouched : AllTrusted (Vouched config s.attempts) s.hub

verifier_after-config :
    (calls : Verify.Calls) (message : Option ClientMessage) (v : Verifier)
    → (verifier_after calls message v).config ≡ v.config
unfolding verifier_after
verifier_after-config calls none v = refl
verifier_after-config calls (some m) v = elim (Bool-cases (str_eq m.type "authenticate")) [
  | inl e ↦ rw e (verify-config calls (bearer m.access_token) v)
  | inr e ↦ rw e refl
]

-- Earlier calls stay.
attempts_after-In :
    (calls : Verify.Calls) (id : ℕ) (message : Option ClientMessage) (v : Verifier)
    (attempts : List Attempt) (a : Attempt)
    → In a attempts
    → In a (attempts_after calls id message v attempts)
unfolding attempts_after
attempts_after-In calls id none v attempts a i = i
attempts_after-In calls id (some m) v attempts a i =
    elim (Bool-cases (str_eq m.type "authenticate")) [ inl e ↦ rw e (inr i) | inr e ↦ rw e i ]

later-Vouched :
    (config : Config) (calls : Verify.Calls) (id : ℕ) (message : Option ClientMessage)
    (v : Verifier) (attempts : List Attempt) (h : Hub)
    → AllTrusted (Vouched config attempts) h
    → AllTrusted (Vouched config (attempts_after calls id message v attempts)) h
later-Vouched config calls id message v attempts h all =
    All-weaken _ _ h.clients (λ c k on. keep c.id c.principal (k on)) all
  where
    keep :
        (n : ℕ) (p : Principal)
        → Vouched config attempts n p
        → Vouched config (attempts_after calls id message v attempts) n p
    keep n p k = record {
      attempt = k.attempt;
      made = attempts_after-In calls id message v attempts k.attempt k.made;
      own = k.own;
      configured = k.configured;
      after = k.after;
      returned = k.returned;
      accepted = k.accepted;
    }

hub_verify-Sound :
    (config : Config) (rt : Runtime) (calls : Verify.Calls) (id : ℕ)
    (message : Option ClientMessage) (v : Verifier) (attempts : List Attempt)
    → v.config ≡ config
    → Sound
        (Vouched config (attempts_after calls id message v attempts))
        rt
        id
        (hub_verify calls v)
        message
unfolding attempts_after
hub_verify-Sound config rt calls id none v attempts same = tt
hub_verify-Sound config rt calls id (some m) v attempts same = λ e p h. record {
  attempt = record { id = id; token = m.access_token; calls = calls; verifier = v };
  made = rw e (inl refl);
  own = refl;
  configured = same;
  after = (verify calls (bearer m.access_token) v).0;
  returned = verified-ok calls v (bearer m.access_token) p h;
  accepted = verified-Accepted calls v (bearer m.access_token) p h;
}

module _ (rt : Runtime) (config : Config) where
  GuardedStep-Kept : (s s' : Guarded) → GuardedStep rt s s' → Kept rt config s → Kept rt config s'
  GuardedStep-Kept s s' (accepts id fresh) k = record {
    reached = Safety.next k.reached (Safety.accepts id fresh);
    configured = k.configured;
    vouched = accept-AllTrusted (Vouched config s.attempts) id s.hub k.vouched;
  }
  GuardedStep-Kept s s' (opens calls message c i phase) k = record {
    reached = Safety.next k.reached (Safety.opens (hub_verify calls s.verifier) message c i phase);
    configured = verifier_after-config calls message s.verifier ∙ k.configured;
    vouched =
        serve_first-AllTrusted (Vouched config _) rt c.id (hub_verify calls s.verifier) message
          s.hub (hub_verify-Sound config rt calls c.id message s.verifier s.attempts k.configured)
          (later-Vouched config calls c.id message s.verifier s.attempts s.hub k.vouched);
  }
  GuardedStep-Kept s s' (serves calls message c i phase) k = record {
    reached = Safety.next k.reached (Safety.serves (hub_verify calls s.verifier) message c i phase);
    configured = verifier_after-config calls message s.verifier ∙ k.configured;
    vouched =
        serve_message-AllTrusted (Vouched config _) rt c.id (hub_verify calls s.verifier) message
          s.hub (hub_verify-Sound config rt calls c.id message s.verifier s.attempts k.configured)
          (later-Vouched config calls c.id message s.verifier s.attempts s.hub k.vouched);
  }
  GuardedStep-Kept s s' (broadcasts e payload) k = record {
    reached = Safety.next k.reached (Safety.broadcasts e payload);
    configured = k.configured;
    vouched = broadcast-AllTrusted (Vouched config s.attempts) e payload s.hub k.vouched;
  }
  GuardedStep-Kept s s' (writes id wake) k = record {
    reached = Safety.next k.reached (Safety.writes id wake);
    configured = k.configured;
    vouched = write_step-AllTrusted (Vouched config s.attempts) id wake s.hub k.vouched;
  }

  GuardedReach-Kept :
      (v : Verifier) (s : Guarded)
      → v.config ≡ config
      → GuardedReach rt (start v) s
      → Kept rt config s
  GuardedReach-Kept v s same here = record {
    reached = Safety.here;
    configured = same;
    vouched = tt;
  }
  GuardedReach-Kept v s same (next {s'} r step) =
      GuardedStep-Kept s' s step (GuardedReach-Kept v s' same r)

-- In every history of the hub with its verifier, from the new hub on, whatever the verifier's keys
-- and the answers of the key endpoint: each registered client has a principal with the role
-- noapp-viewer, and among the calls of `Verify` that the history has made is one for the client's
-- connection, by a verifier of the configuration, that has returned this principal. As that call saw
-- it, the token's header names RS256 and a key that the verifier then holds, the token is signed with
-- that key, and its claims, of which the principal is made, name the issuer and the audience, a
-- subject, and a span of validity that the clock was in.
pub GuardedReach-Vouched :
    (rt : Runtime) (v : Verifier) (s : Guarded) (c : Client)
    → GuardedReach rt (start v) s
    → In c s.hub.clients
    → c.registered ≡ true
    → Vouched v.config s.attempts c.id c.principal × (has_role c.principal "noapp-viewer" ≡ true)
GuardedReach-Vouched rt v s c r i on =
    let k = GuardedReach-Kept rt v.config v s refl r in
    let inv = (Reach-Inv rt s.hub k.reached).0 in
    (
      All-In (λ x. x.registered ≡ true → Vouched v.config s.attempts x.id x.principal) s.hub.clients
          c k.vouched i on,
      (All-In ClientInv s.hub.clients c inv.each i).viewer on,
    )
