-- ===== src/Outbox/Settings.antt =====
-- internal/outbox/relay.go: what `New` makes of a configuration.
use noapp.Prelude.{
  String, ◌≡◌, ◌≢◌, refl, Option, List, pos, ◌≤ℤ◌, eq_iff, Bool-cases, inl, inr, arith, str_eq,
}
use noapp.Runtime.{ok}
use noapp.Outbox.{Config, Relay, new, with_defaults}

pub record IsValid (c : Config) : Type 0 where
  pub named : c.worker_id ≢ ""
  pub batches : pos 1 ≤ℤ c.batch_size
  pub polls : pos 1 ≤ℤ c.poll_every
  pub leases : pos 1 ≤ℤ c.claim_for
  pub waits : pos 1 ≤ℤ c.max_backoff
  pub attempts : pos 1 ≤ℤ c.max_attempts

-- Every setting that is in range is kept.
pub record KeepsSettings (c d : Config) : Type 0 where
  pub worker : d.worker_id ≡ c.worker_id
  pub batch : pos 1 ≤ℤ c.batch_size → d.batch_size ≡ c.batch_size
  pub poll : pos 1 ≤ℤ c.poll_every → d.poll_every ≡ c.poll_every
  pub claim : pos 1 ≤ℤ c.claim_for → d.claim_for ≡ c.claim_for
  pub backoff : pos 1 ≤ℤ c.max_backoff → d.max_backoff ≡ c.max_backoff
  pub attempts : pos 1 ≤ℤ c.max_attempts → d.max_attempts ≡ c.max_attempts

with_defaults-IsValid : (c : Config) → c.worker_id ≢ "" → IsValid (with_defaults c)
unfolding with_defaults
with_defaults-IsValid c named = record {
  named = named;
  batches = ground arith;
  polls = ground arith;
  leases = ground arith;
  waits = ground arith;
  attempts = ground arith;
}

with_defaults-KeepsSettings : (c : Config) → KeepsSettings c (with_defaults c)
unfolding with_defaults
with_defaults-KeepsSettings c = record {
  worker = refl;
  batch = λ h. ground arith;
  poll = λ h. ground arith;
  claim = λ h. ground arith;
  backoff = λ h. ground arith;
  attempts = λ h. ground arith;
}

new-config :
    (instruments : List (Option String)) (c : Config) (r : Relay)
    → new instruments c ≡ ok r
    → (c.worker_id ≢ "") × (r.config ≡ with_defaults c)
unfolding new
new-config instruments c r h = elim (Bool-cases (str_eq c.worker_id "")) [
  | inl empty ↦ absurd (ground arith)
  | inr named ↦ (ground (arith, eq_iff c.worker_id ""), ground arith)
]

-- A relay that `new` returns has a worker name and positive settings, whatever it was given, and
-- keeps each setting that was positive.
pub new-IsValid :
    (instruments : List (Option String)) (c : Config) (r : Relay)
    → new instruments c ≡ ok r
    → IsValid r.config × KeepsSettings c r.config
new-IsValid instruments c r h =
    let (named, same) = new-config instruments c r h in
    rw same (with_defaults-IsValid c named, with_defaults-KeepsSettings c)
