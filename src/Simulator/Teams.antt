-- ===== src/Simulator/Teams.antt =====
-- internal/simulator/engine.go: the teams and projects of the engine as lists.

use noapp.Prelude.{
  ℕ, zero, suc, ◌+◌, ◌*◌, ◌≤◌, ◌<◌, ◌≡◌, refl, String, some, List, [], ◌∷◌, ◌++◌, length,
  length-append, All, In, inl, inr, Bool-cases, arith, ℤ, eq_ℤ,
}
use noapp.Simulator.{Team, OwnedProject}
use noapp.Simulator.Actions.{nth, update_at, put_task, move_task, has_task, may_own, eligible}

-- The projects of all teams.
abbrev pub owned : List Team → ℕ
owned [] = 0
owned (t ∷ ts) = length t.project_ids + owned ts

-- Teams with at most two projects each own at most twice as many as there are teams.
pub owned-le : (ts : List Team) → All (λ t. length t.project_ids ≤ 2) ts → owned ts ≤ 2 * length ts
owned-le [] a = omega arith
owned-le (t ∷ ts) (b, a) = omega (arith, owned-le ts a)

pub length-update_at :
    (n : ℕ) (f : Team → Team) (ts : List Team) → length (update_at n f ts) ≡ length ts
length-update_at n f [] = refl
length-update_at zero f (t ∷ ts) = refl
length-update_at (suc n) f (t ∷ ts) = omega (arith, length-update_at n f ts)

unfoldable pub owning : ℤ → Team → Team
owning id t = record t { project_ids = t.project_ids ++ id ∷ [] }

-- The team of an index has room for a project.
abbrev pub HasRoom : ℕ → List Team → Type 0
HasRoom n ts = (t : Team) × (nth n ts ≡ some t) × (length t.project_ids ≤ 1)

pub owned-update_at :
    (n : ℕ) (id : ℤ) (ts : List Team)
    → n < length ts
    → owned (update_at n (owning id) ts) ≡ suc (owned ts)
unfolding owning
owned-update_at n id [] lt = absurd (omega arith)
owned-update_at zero id (t ∷ ts) lt = omega (arith, length-append t.project_ids (id ∷ []))
owned-update_at (suc n) id (t ∷ ts) lt = omega (arith, owned-update_at n id ts (omega arith))

pub two-update_at :
    (n : ℕ) (id : ℤ) (ts : List Team)
    → HasRoom n ts
    → All (λ t. length t.project_ids ≤ 2) ts
    → All (λ t. length t.project_ids ≤ 2) (update_at n (owning id) ts)
unfolding owning
two-update_at n id [] room a = tt
two-update_at zero id (t ∷ ts) (u, same, few) (b, a) =
    let eq : t ≡ u = ground arith in
    let few' : length t.project_ids ≤ 1 = rw eq few in
    (omega (arith, length-append t.project_ids (id ∷ [])), a)
two-update_at (suc n) id (t ∷ ts) room (b, a) = (b, two-update_at n id ts room a)

pub HasRoom-lt : (n : ℕ) (ts : List Team) → HasRoom n ts → n < length ts
HasRoom-lt n [] (u, same, few) = absurd (cc)
HasRoom-lt zero (t ∷ ts) room = omega arith
HasRoom-lt (suc n) (t ∷ ts) room = omega (arith, HasRoom-lt n ts room)

pub put_task-same :
    (m : ℕ) (project id : ℤ) (status : String) (ps : List OwnedProject)
    → All (λ p. p.team_index < m) ps
    → (length (put_task project id status ps) ≡ length ps)
      × All (λ p. p.team_index < m) (put_task project id status ps)
put_task-same m project id status [] a = (refl, tt)
put_task-same m project id status (p ∷ ps) (b, a) =
    let (same, all) = put_task-same m project id status ps a in
    elim (Bool-cases (eq_ℤ p.id project)) [
      | inl e ↦ rw e (refl, (b, a))
      | inr e ↦ rw e (omega arith, (b, all))
    ]

pub move_task-same :
    (m : ℕ) (id : ℤ) (status : String) (ps : List OwnedProject)
    → All (λ p. p.team_index < m) ps
    → (length (move_task id status ps) ≡ length ps)
      × All (λ p. p.team_index < m) (move_task id status ps)
move_task-same m id status [] a = (refl, tt)
move_task-same m id status (p ∷ ps) (b, a) =
    let (same, all) = move_task-same m id status ps a in
    elim (Bool-cases (has_task id p.tasks)) [
      | inl e ↦ rw e (refl, (b, a))
      | inr e ↦ rw e (omega arith, (b, all))
    ]

pub In-nth : {A : Type 0} (n : ℕ) (xs : List A) (x : A) → nth n xs ≡ some x → In x xs
In-nth n [] x h = absurd (cc)
In-nth zero (y ∷ xs) x h = inl (ground arith)
In-nth (suc n) (y ∷ xs) x h = inr (In-nth n xs x h)

-- What is eligible has room.
pub eligible-HasRoom :
    (n m : ℕ) (ts : List Team) → In m (eligible n ts) → (j : ℕ) × (m ≡ n + j) × HasRoom j ts
eligible-HasRoom n m [] i = absurd i
eligible-HasRoom n m (t ∷ ts) i =
    let rest : In m (eligible (suc n) ts) → (j : ℕ) × (m ≡ n + j) × HasRoom j (t ∷ ts) = λ k.
      let (j, own, room) = eligible-HasRoom (suc n) m ts k in later j (omega (arith, own)) room in
    elim (Bool-cases (may_own t)) [
      | inl e ↦ elim (rw e at i) [
        | inl same ↦ (0, omega arith, (t, refl, ground arith))
        | inr k ↦ rest k
      ]
      | inr e ↦ rest (rw e at i)
    ]
  where
    later : (j : ℕ) → m ≡ n + suc j → HasRoom j ts → (k : ℕ) × (m ≡ n + k) × HasRoom k (t ∷ ts)
    later j own room = (suc j, own, room)
