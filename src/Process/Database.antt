-- ===== src/Process/Database.antt =====
-- cmd/server/main.go: waitForDatabase.
use native.Mathlib.Decide.{dec_lt}
use noapp.Prelude.{
  refl, ℕ, zero, suc, ◌+◌, ◌<◌, ◌≤◌, String, Bool, false, Option, none, some, ◌≡◌, inl, inr,
  if◌then◌else◌, arith, Option-cases, Bool-cases,
}

-- What the waiting meets: the error of the n-th ping, whether the context has ended when the n-th
-- wait is over, and the error of the context.
pub record Pings : Type 0 where
  pub ping : ℕ → Option String
  pub ended : ℕ → Bool
  pub context_error : String

-- The result, with the number of pings.
pub record Waited : Type 0 where
  pub pings : ℕ
  pub error : Option String

-- The loop, with the error of the ping before.
unfoldable pub wait_from : Pings → ℕ → ℕ → Option String → Waited
wait_from p zero attempt error = record { pings = attempt; error = error }
wait_from p (suc left) attempt error =
    let rest = wait_from p left (suc attempt) (p.ping attempt) in
    elim (p.ping attempt) [
      | none ↦ record { pings = suc attempt; error = none }
      | some text ↦
          if p.ended attempt
          then record { pings = suc attempt; error = some p.context_error }
          else rest
    ]

unfoldable pub wait_for_database : Pings → Waited
wait_for_database p = wait_from p 30 0 none

module _ (p : Pings) where
  -- The ping that succeeds is reached, unless the context ends before.
  wait_from_succeeds :
      (left attempt n : ℕ) (error : Option String)
      → attempt ≤ n
      → n < attempt + left
      → p.ping n ≡ none
      → ((m : ℕ) → m < n → p.ended m ≡ false)
      → (wait_from p left attempt error).error ≡ none
  unfolding wait_from
  wait_from_succeeds zero attempt n error low high good alive = absurd (omega arith)
  wait_from_succeeds (suc left) attempt n error low high good alive =
      elim (Option-cases (p.ping attempt)) [
        | inl now ↦ ground arith
        | inr (text, bad) ↦
            let later : attempt < n = ahead text bad in
            let going = alive attempt later in
            ground (
              arith,
              wait_from_succeeds left (suc attempt) n (p.ping attempt) later (omega arith) good
                  alive,
            )
      ]
    where
      ahead : (text : String) → p.ping attempt ≡ some text → attempt < n
      ahead text bad = elim (dec_lt attempt n) [
        | yes lt ↦ lt
        | no ge ↦ let same : attempt ≡ n = omega arith in absurd (ground arith)
      ]

  wait_from_bound :
      (left attempt : ℕ) (error : Option String)
      → (wait_from p left attempt error).pings ≤ attempt + left
  unfolding wait_from
  wait_from_bound zero attempt error = omega arith
  wait_from_bound (suc left) attempt error =
      ground (arith, wait_from_bound left (suc attempt) (p.ping attempt))

  -- Success is that the last ping succeeded.
  wait_from_sound :
      (left attempt : ℕ) (error : Option String)
      → (error ≡ none → 0 < left)
      → (wait_from p left attempt error).error ≡ none
      → (m : ℕ) × (suc m ≡ (wait_from p left attempt error).pings) × (p.ping m ≡ none)
  unfolding wait_from
  wait_from_sound zero attempt error some_left h = absurd (omega (arith, some_left h))
  wait_from_sound (suc left) attempt error some_left h = elim (Option-cases (p.ping attempt)) [
    | inl now ↦ (attempt, rw (now, wait_from) refl, now)
    | inr (text, bad) ↦ elim (Bool-cases (p.ended attempt)) [
      | inl over ↦ absurd (ground arith)
      | inr alive ↦
          let (m, last, good) =
            wait_from_sound left (suc attempt) (p.ping attempt) (λ e. absurd (ground arith))
              (ground arith) in
          (m, rw (bad, wait_from, alive) last, good)
    ]
  ]

  -- If one of the first thirty pings succeeds, and the context has not ended at a wait before it,
  -- then waitForDatabase succeeds. In any case it makes at most thirty pings, and it succeeds only
  -- if the last ping that it makes does.
  pub wait_for_database_lem :
      ((n : ℕ)
        → n < 30
        → p.ping n ≡ none
        → ((m : ℕ) → m < n → p.ended m ≡ false)
        → (wait_for_database p).error ≡ none)
      × ((wait_for_database p).pings ≤ 30)
      × ((wait_for_database p).error ≡ none
          → (m : ℕ) × (suc m ≡ (wait_for_database p).pings) × (p.ping m ≡ none))
  unfolding wait_for_database
  wait_for_database_lem = (
    λ n n<30 good alive. wait_from_succeeds 30 0 n none (omega arith) (omega arith) good alive,
    wait_from_bound 30 0 none,
    λ h. wait_from_sound 30 0 none (λ e. omega arith) h,
  )
