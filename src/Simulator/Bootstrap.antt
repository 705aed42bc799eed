-- ===== src/Simulator/Bootstrap.antt =====
-- internal/simulator/engine.go: what the bootstrap of a run keeps.
use mathlib.Core.Path.{subst}
use noapp.Prelude.{
  ℕ, zero, suc, ◌%◌, ◌≤◌, ◌<◌, ◌≡◌, refl, sym, ◌∙◌, ap, String, Bool, some, List, [], ◌∷◌, ◌++◌,
  length, All, inl, inr, Option-cases, arith, ℤ,
}
use noapp.Simulator.{Team, Engine, record_action}
use noapp.Simulator.Actions.{
  nth, update_at, Draw, create_project, create_task, add_project, add_task,
}
use noapp.Simulator.Run.{Setup, fresh_teams, hire}
use noapp.Simulator.Teams.{owned, length-update_at}
use noapp.Simulator.Invariant.{Inv, record_action-Inv, create_project-Inv, create_task-Inv}

-- The teams from an index on have no projects.
abbrev pub Empty : ℕ → List Team → Type 0
Empty i ts = (j : ℕ) (t : Team) → i ≤ j → nth j ts ≡ some t → length t.project_ids ≡ 0

pub record Ready {F : Type 0} (i : ℕ) (e : Engine F) : Type 0 where
  pub inv : Inv e
  pub all_five : length e.teams ≡ 5
  pub empty : Empty i e.teams

-- A change of one team that keeps its projects.
module _ (f : Team → Team) (keeps : (t : Team) → (f t).project_ids ≡ t.project_ids) where
  owned-keep : (n : ℕ) (ts : List Team) → owned (update_at n f ts) ≡ owned ts
  owned-keep n [] = refl
  owned-keep zero (t ∷ ts) = rw (keeps t) refl
  owned-keep (suc n) (t ∷ ts) = omega (arith, owned-keep n ts)

  two-keep :
      (n : ℕ) (ts : List Team)
      → All (λ t. length t.project_ids ≤ 2) ts
      → All (λ t. length t.project_ids ≤ 2) (update_at n f ts)
  two-keep n [] a = tt
  two-keep zero (t ∷ ts) (b, a) = (rw (keeps t) b, a)
  two-keep (suc n) (t ∷ ts) (b, a) = (b, two-keep n ts a)

  nth-keep :
      (n j : ℕ) (ts : List Team) (t : Team)
      → nth j (update_at n f ts) ≡ some t
      → (u : Team) × (nth j ts ≡ some u) × (t.project_ids ≡ u.project_ids)
  nth-keep n j [] t h = absurd (cc)
  nth-keep zero zero (x ∷ ts) t h =
      (x, refl, (let e : f x ≡ t = cc in ap (λ (y : Team). y.project_ids) (sym e) ∙ keeps x))
  nth-keep zero (suc j) (x ∷ ts) t h = (t, h, refl)
  nth-keep (suc n) zero (x ∷ ts) t h = (t, h, refl)
  nth-keep (suc n) (suc j) (x ∷ ts) t h = nth-keep n j ts t h

-- The other teams stay.
nth-update_at :
    (n j : ℕ) (f : Team → Team) (ts : List Team) → n < j → nth j (update_at n f ts) ≡ nth j ts
nth-update_at n j f [] lt = refl
nth-update_at zero zero f (t ∷ ts) lt = absurd (omega arith)
nth-update_at zero (suc j) f (t ∷ ts) lt = refl
nth-update_at (suc n) zero f (t ∷ ts) lt = absurd (omega arith)
nth-update_at (suc n) (suc j) f (t ∷ ts) lt = nth-update_at n j f ts (omega arith)

record_action-Ready :
    {F : Type 0} (i : ℕ) (now : ℤ) (action detail : String) (success : Bool) (e : Engine F)
    → Ready i e
    → Ready i (record_action now action detail success e)
unfolding record_action
record_action-Ready i now action detail success e r = record {
  inv = record_action-Inv now action detail success e r.inv;
  all_five = r.all_five;
  empty = r.empty;
}

teams-Ready :
    {F : Type 0} (f : Team → Team)
    → ((t : Team) → (f t).project_ids ≡ t.project_ids)
    → (n i : ℕ) (e : Engine F) → Ready i e
    → Ready i (record e { teams = update_at n f e.teams })
teams-Ready f keeps n i e r =
    let same = length-update_at n f e.teams in
    let v = r.inv in
    record {
      inv = record {
        kept = v.kept;
        errors = v.errors;
        summed = v.summed;
        five = let b = v.five in omega arith;
        two_each = two-keep f keeps n e.teams v.two_each;
        counted = v.counted ∙ sym (owned-keep f keeps n e.teams);
        indexed = rw same v.indexed;
      };
      all_five = same ∙ r.all_five;
      empty = λ j t le h.
          let (u, known, ids) = nth-keep f keeps n j e.teams t h in
          ap length ids ∙ r.empty j u le known;
    }

module _ {F : Type 0} (s : Setup) where
  pub hire-Ready : (n i : ℕ) (e : Engine F) → Ready i e → Ready i (hire s n e)
  unfolding hire
  hire-Ready n i e r = elim (Option-cases (s.user n)) [
    | inl h ↦ rw (h, hire) (record_action-Ready i (s.now n) _ _ _ e r)
    | inr (id, h) ↦
        rw (h, hire)
          (record_action-Ready i (s.now n) _ _ _ _ (
            teams-Ready (λ t. record t { worker_ids = t.worker_ids ++ id ∷ [] }) (λ t. refl) (n % 5)
              i e r))
  ]

nth-some : (n : ℕ) (ts : List Team) → n < length ts → (t : Team) × (nth n ts ≡ some t)
nth-some n [] lt = absurd (omega arith)
nth-some zero (t ∷ ts) lt = (t, refl)
nth-some (suc n) (t ∷ ts) lt = nth-some n ts (omega arith)

create_task-teams :
    {F : Type 0} (d : Draw) (id : ℤ) (e : Engine F) → (create_task d id e).teams ≡ e.teams
unfolding create_task add_task record_action
create_task-teams d id e = ground arith

create_project-teams :
    {F : Type 0} (d : Draw) (n j : ℕ) (e : Engine F)
    → n < j
    → (nth j (create_project d n e).teams ≡ nth j e.teams)
      × (length (create_project d n e).teams ≡ length e.teams)
unfolding create_project add_project record_action
create_project-teams d n j e lt = elim (Option-cases d.project) [
  | inl h ↦ rw (h, create_project) (refl, refl)
  | inr (id, h) ↦
      rw (h, create_project) (nth-update_at n j _ e.teams lt, length-update_at n _ e.teams)
]

pub create_task-Ready :
    {F : Type 0} (d : Draw) (i : ℕ) (id : ℤ) (e : Engine F)
    → Ready i e
    → Ready i (create_task d id e)
create_task-Ready d i id e r =
    let same = create_task-teams d id e in
    record {
      inv = create_task-Inv d id e r.inv;
      all_five = ap length same ∙ r.all_five;
      empty = subst (Empty i) (sym same) r.empty;
    }

pub create_project-Ready :
    {F : Type 0} (d : Draw) (i : ℕ) (e : Engine F)
    → i < 5
    → Ready i e
    → Ready (suc i) (create_project d i e)
create_project-Ready d i e lt r =
    let (t, known) = nth-some i e.teams (let a = r.all_five in omega arith) in
    let none_yet = r.empty i t (omega arith) known in
    record {
      inv = create_project-Inv d i e (t, known, omega arith) r.inv;
      all_five = (create_project-teams d i (suc i) e (omega arith)).1 ∙ r.all_five;
      empty = λ j u le h.
          r.empty j u (omega arith) (sym (create_project-teams d i j e (omega arith)).0 ∙ h);
    }

fresh_teams-two :
    (name : ℕ → String) (n i : ℕ) → All (λ t. length t.project_ids ≤ 2) (fresh_teams name n i)
fresh_teams-two name zero i = tt
fresh_teams-two name (suc n) i = (omega arith, fresh_teams-two name n (suc i))

fresh_teams-empty :
    (name : ℕ → String) (n i j : ℕ) (t : Team)
    → nth j (fresh_teams name n i) ≡ some t
    → length t.project_ids ≡ 0
fresh_teams-empty name zero i j t h = absurd (cc)
fresh_teams-empty name (suc n) i zero t h = ground (arith, h)
fresh_teams-empty name (suc n) i (suc j) t h = fresh_teams-empty name n (suc i) j t h

module _ {F : Type 0} (name : ℕ → String) where
  pub fresh_teams-Ready :
      (e : Engine F) → e.projects ≡ [] → Inv e → Ready 0 (record e { teams = fresh_teams name 5 0 })
  fresh_teams-Ready e none_yet v = record {
    inv = record {
      kept = v.kept;
      errors = v.errors;
      summed = v.summed;
      five = omega arith;
      two_each = fresh_teams-two name 5 0;
      counted = ap length none_yet;
      indexed = rw none_yet tt;
    };
    all_five = refl;
    empty = λ j t le h. fresh_teams-empty name 5 0 j t h;
  }
