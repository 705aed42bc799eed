-- ===== src/Prelude/Lists.antt =====
-- Lists measured by native numbers, and predicates on all elements by recursion.
use Prim.Native.Nat.{ℕ, zero, suc, ◌+◌, ◌≤◌}
use mathlib.Core.Path.{◌≡◌, refl, ap, subst}
use mathlib.Core.Logic.{◌⊎◌, ◌↔◌, inl, inr}
use Prim.Native.String.{String}
use text.Mathlib.Text.{◌==◌ as text_eq}
use text.Mathlib.TextEquality.{eq_iff}
use noapp.Prelude.Texts.{has_text}
use mathlib.Core.Bool.{Bool, true, false, ◌||◌}
use mathlib.Core.List.{List, [], ◌∷◌, ◌++◌, map}
use native.Mathlib.Omega.{arith}
use noapp.Prelude.Tests.{if◌then◌else◌, ◌==◌, Bool-cases}

module _ {ℓ} {A : Type ℓ} where
  abbrev pub length : List A → ℕ
  length [] = 0
  length (x ∷ xs) = suc (length xs)

  abbrev pub take : ℕ → List A → List A
  take zero xs = []
  take (suc n) [] = []
  take (suc n) (x ∷ xs) = x ∷ take n xs

  -- The elements that pass a Boolean test.
  abbrev pub select : (A → Bool) → List A → List A
  select p [] = []
  select p (x ∷ xs) = if p x then x ∷ select p xs else select p xs

  -- How many elements pass it.
  abbrev pub count_if : (A → Bool) → List A → ℕ
  count_if p [] = 0
  count_if p (x ∷ xs) = if p x then suc (count_if p xs) else count_if p xs

  pub length-append : (xs ys : List A) → length (xs ++ ys) ≡ length xs + length ys
  length-append [] ys = omega arith
  length-append (x ∷ xs) ys = omega (arith, length-append xs ys)

  pub count_if-append :
      (p : A → Bool) (xs ys : List A) → count_if p (xs ++ ys) ≡ count_if p xs + count_if p ys
  count_if-append p [] ys = omega arith
  count_if-append p (x ∷ xs) ys = ground (arith, count_if-append p xs ys)

  pub length-take-le : (n : ℕ) (xs : List A) → length (take n xs) ≤ n
  length-take-le zero xs = omega arith
  length-take-le (suc n) [] = omega arith
  length-take-le (suc n) (x ∷ xs) = omega (arith, length-take-le n xs)

module _ {ℓ κ} {A : Type ℓ} (P : A → Type κ) where
  abbrev pub All : List A → Type κ
  All [] = Unit
  All (x ∷ xs) = P x × All xs

module _ {ℓ κ μ} {A : Type ℓ} (P : A → Type κ) (Q : A → Type μ) where
  pub All-weaken : (xs : List A) → ((x : A) → P x → Q x) → All P xs → All Q xs
  All-weaken [] f h = tt
  All-weaken (x ∷ xs) f (p, h) = (f x p, All-weaken xs f h)

module _ {ℓ κ μ} {A : Type ℓ} {B : Type μ} (P : A → Type κ) (Q : B → Type κ) where
  pub All-map : (f : A → B) (xs : List A) → ((x : A) → P x → Q (f x)) → All P xs → All Q (map f xs)
  All-map f [] k h = tt
  All-map f (x ∷ xs) k (p, h) = (k x p, All-map f xs k h)

module _ {ℓ κ} {A : Type ℓ} (P : A → Type κ) where
  pub All-of_forall : (xs : List A) → ((x : A) → P x) → All P xs
  All-of_forall [] f = tt
  All-of_forall (x ∷ xs) f = (f x, All-of_forall xs f)

  pub All-append : (xs ys : List A) → All P xs → All P ys → All P (xs ++ ys)
  All-append [] ys h k = k
  All-append (x ∷ xs) ys (p, h) k = (p, All-append xs ys h k)

-- Membership, by recursion.
abbrev pub In : {A : Type 0} → A → List A → Type 0
In a [] = ⊥
In a (x ∷ xs) = (x ≡ a) ⊎ In a xs

pub All-In : {A : Type 0} (P : A → Type 0) (xs : List A) (x : A) → All P xs → In x xs → P x
All-In P [] x h i = absurd i
All-In P (y ∷ xs) x (p, h) (inl e) = subst P e p
All-In P (y ∷ xs) x (p, h) (inr i) = All-In P xs x h i

pub All-of_In : {A : Type 0} (P : A → Type 0) (xs : List A) → ((x : A) → In x xs → P x) → All P xs
All-of_In P [] f = tt
All-of_In P (x ∷ xs) f = (f x (inl refl), All-of_In P xs (λ y i. f y (inr i)))

pub In-map :
    {A B : Type 0} (f : A → B) (xs : List A) (y : B)
    → In y (map f xs)
    → (x : A) × In x xs × (f x ≡ y)
In-map f [] y i = absurd i
In-map f (x ∷ xs) y (inl e) = (x, inl refl, e)
In-map f (x ∷ xs) y (inr i) = let (z, j, e) = In-map f xs y i in (z, inr j, e)

pub In-map_of_In : {A B : Type 0} (f : A → B) (xs : List A) (x : A) → In x xs → In (f x) (map f xs)
In-map_of_In f [] x i = absurd i
In-map_of_In f (y ∷ xs) x (inl e) = inl (ap f e)
In-map_of_In f (y ∷ xs) x (inr i) = inr (In-map_of_In f xs x i)

pub In-select :
    {A : Type 0} (p : A → Bool) (xs : List A) (x : A) → In x (select p xs) → In x xs × (p x ≡ true)
In-select p [] x i = absurd i
In-select p (y ∷ xs) x i = elim (Bool-cases (p y)) [
  | inl e ↦ hit (rw e at i) e (In-select p xs x)
  | inr e ↦ let (j, q) = In-select p xs x (rw e at i) in (inr j, q)
]
  where
    hit :
        In x (y ∷ select p xs)
        → p y ≡ true
        → (In x (select p xs) → In x xs × (p x ≡ true))
        → In x (y ∷ xs) × (p x ≡ true)
    hit (inl same) e rest = (inl same, subst (λ z. p z ≡ true) same e)
    hit (inr j) e rest = let (k, q) = rest j in (inr k, q)

pub In-select_of_In :
    {A : Type 0} (p : A → Bool) (xs : List A) (x : A) → In x xs → p x ≡ true → In x (select p xs)
In-select_of_In p [] x i h = absurd i
In-select_of_In p (y ∷ xs) x (inl e) h = let own : p y ≡ true = rw e h in rw own (inl e)
In-select_of_In p (y ∷ xs) x (inr i) h = elim (Bool-cases (p y)) [
  | inl hit ↦ rw hit (inr (In-select_of_In p xs x i h))
  | inr miss ↦ rw miss (In-select_of_In p xs x i h)
]

pub In-append_left : {A : Type 0} (xs ys : List A) (x : A) → In x xs → In x (xs ++ ys)
In-append_left [] ys x i = absurd i
In-append_left (y ∷ xs) ys x (inl e) = inl e
In-append_left (y ∷ xs) ys x (inr i) = inr (In-append_left xs ys x i)

pub In-append_last : {A : Type 0} (xs : List A) (x : A) → In x (xs ++ x ∷ [])
In-append_last [] x = inl refl
In-append_last (y ∷ xs) x = inr (In-append_last xs x)

pub In-append : {A : Type 0} (xs ys : List A) (x : A) → In x (xs ++ ys) → In x xs ⊎ In x ys
In-append [] ys x i = inr i
In-append (y ∷ xs) ys x (inl e) = inl (inl e)
In-append (y ∷ xs) ys x (inr i) = elim (In-append xs ys x i) [ inl j ↦ inl (inr j) | inr j ↦ inr j ]

pub In-take : {A : Type 0} (n : ℕ) (xs : List A) (x : A) → In x (take n xs) → In x xs
In-take zero xs x i = absurd i
In-take (suc n) [] x i = absurd i
In-take (suc n) (y ∷ xs) x (inl e) = inl e
In-take (suc n) (y ∷ xs) x (inr i) = inr (In-take n xs x i)

-- Membership of a number, as a test.
abbrev pub contains : ℕ → List ℕ → Bool
contains n [] = false
contains n (m ∷ ms) = m == n || contains n ms

pub contains-In : (n : ℕ) (ms : List ℕ) → contains n ms ≡ true → In n ms
contains-In n [] h = absurd (ground arith)
contains-In n (m ∷ ms) h = elim (Bool-cases (m == n)) [
  | inl e ↦ inl (ground arith)
  | inr e ↦ inr (contains-In n ms (rw e at h))
]

pub In-contains : (n : ℕ) (ms : List ℕ) → In n ms → contains n ms ≡ true
In-contains n [] i = absurd i
In-contains n (m ∷ ms) (inl e) = ground arith
In-contains n (m ∷ ms) (inr i) = ground (arith, In-contains n ms i)

pub has_text_iff : (t : String) (ss : List String) → (has_text t ss ≡ true) ↔ In t ss
has_text_iff t [] = (λ h. absurd (ground arith), λ i. absurd i)
has_text_iff t (s ∷ ss) = (
  λ h. elim (Bool-cases (text_eq s t)) [
    | inl e ↦ inl ((eq_iff s t).0 e)
    | inr e ↦ inr ((has_text_iff t ss).0 (rw e at h))
  ],
  λ i. elim i [
    | inl e ↦ rw ((eq_iff s t).1 e) refl
    | inr j ↦ rw ((has_text_iff t ss).1 j) (ground arith)
  ],
)
