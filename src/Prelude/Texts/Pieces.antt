-- ===== src/Prelude/Texts/Pieces.antt =====
-- The pieces of a text that is put together, and the rest after a prefix.
use Prim.Native.Nat.{ℕ}
use Prim.Native.String
use Prim.Native.Char.{Char, code}
use Prim.Native.String.{String}
use mathlib.Core.Path.{◌≡◌, refl, ap}
use mathlib.Core.Logic.{inl, inr}
use mathlib.Core.Bool.{false}
use mathlib.Core.List.{List, [], ◌∷◌}
use mathlib.Core.Option.{some}
use native.Mathlib.Omega.{arith}
use noapp.Prelude.Tests.{◌==◌, Bool-cases}
use noapp.Prelude.Texts.{has_char, split_at, onto_first, strip_prefix}
use noapp.Prelude.Texts.Digits.{nil-append, cons-append}

-- The last piece of the one and the first piece of the other are one piece.
abbrev pub glue : List String → List String → List String
glue [] qs = qs
glue (p ∷ []) [] = p ∷ []
glue (p ∷ []) (q ∷ qs) = String.◌++◌ p q ∷ qs
glue (p ∷ p' ∷ ps) qs = p ∷ glue (p' ∷ ps) qs

onto_first-glue :
    (c : Char) (ps qs : List String) → onto_first c (glue ps qs) ≡ glue (onto_first c ps) qs
unfolding onto_first
onto_first-glue c [] [] = refl
onto_first-glue c [] (q ∷ qs) = rw (cons-append c "" q, nil-append q) refl
onto_first-glue c (p ∷ []) [] = refl
onto_first-glue c (p ∷ []) (q ∷ qs) = rw (cons-append c p q) refl
onto_first-glue c (p ∷ p' ∷ ps) qs = refl

onto_first-cons :
    (c : Char) (ps : List String)
    → (p : String) × (rest : List String) × (onto_first c ps ≡ p ∷ rest)
unfolding onto_first
onto_first-cons c [] = (_, _, refl)
onto_first-cons c (p ∷ ps) = (_, _, refl)

split_at-cons : (k : ℕ) (s : String) → (p : String) × (ps : List String) × (split_at k s ≡ p ∷ ps)
unfolding split_at
split_at-cons k String.[] = (_, _, refl)
split_at-cons k (String.◌∷◌ c s) = elim (Bool-cases (code c == k)) [
  | inl e ↦ rw e (_, _, refl)
  | inr e ↦ rw e (onto_first-cons c (split_at k s))
]

pub split_at-append :
    (k : ℕ) (s t : String) → split_at k (String.◌++◌ s t) ≡ glue (split_at k s) (split_at k t)
unfolding split_at
split_at-append k String.[] t =
    let (q, qs, e) = split_at-cons k t in rw (nil-append t, e) rw (nil-append q) refl
split_at-append k (String.◌∷◌ c s) t = rw (cons-append c s t) elim (Bool-cases (code c == k)) [
  | inl e ↦ let (p, ps, first) = split_at-cons k s in rw (e, split_at-append k s t, first) refl
  | inr e ↦ rw (e, split_at-append k s t) (onto_first-glue c (split_at k s) (split_at k t))
]

-- A text with no separator is one piece.
pub split_at-whole : (k : ℕ) (s : String) → has_char k s ≡ false → split_at k s ≡ s ∷ []
unfolding split_at has_char onto_first
split_at-whole k String.[] h = refl
split_at-whole k (String.◌∷◌ c s) h = ground (arith, split_at-whole k s)

pub strip_prefix-append : (s t : String) → strip_prefix s (String.◌++◌ s t) ≡ some t
unfolding strip_prefix
strip_prefix-append String.[] t = ap some (nil-append t)
strip_prefix-append (String.◌∷◌ c s) t =
    rw (cons-append c s t) (ground (arith, strip_prefix-append s t))
