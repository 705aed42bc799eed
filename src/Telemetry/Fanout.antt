-- ===== src/Telemetry/Fanout.antt =====
-- internal/telemetry/logs.go: which handlers get a record, and which error comes back.
use noapp.Prelude.{
  String, true, Option, none, some, List, [], ◌∷◌, ℤ, map, select, ◌≡◌, refl, ap, ◌↔◌, ◌≢◌,
  Bool-cases, inl, inr,
}
use noapp.Telemetry.{first_of, Handler, enabled, handle_from, handle}

-- The first error among the answers.
abbrev pub first_error : List (Option String) → Option String
first_error [] = none
first_error (none ∷ es) = first_error es
first_error (some e ∷ es) = some e

module _ {S R A : Type 0} (h : Handler S R A) where
  -- The handlers that take records of the level.
  abbrev pub takers : ℤ → List S → List S
  takers level ss = select (λ s. h.enabled s level) ss

  handle_from-handed :
      (r : R) (first : Option String) (ss : List S)
      → (handle_from h r first ss).0 ≡ map (λ s. (s, r)) (takers (h.level r) ss)
  unfolding handle_from
  handle_from-handed r first [] = refl
  handle_from-handed r first (s ∷ ss) = elim (Bool-cases (h.enabled s (h.level r))) [
    | inl on ↦
        rw on (ap (λ xs. (s, r) ∷ xs) (handle_from-handed r (first_of first (h.handle s r)) ss))
    | inr off ↦ rw off (handle_from-handed r first ss)
  ]

  handle_from-error :
      (r : R) (first : Option String) (ss : List S)
      → (handle_from h r first ss).1
        ≡ first_error (first ∷ map (λ s. h.handle s r) (takers (h.level r) ss))
  unfolding handle_from
  handle_from-error r none [] = refl
  handle_from-error r (some e) [] = refl
  handle_from-error r none (s ∷ ss) = elim (Bool-cases (h.enabled s (h.level r))) [
    | inl on ↦ rw (on, handle_from-error r (h.handle s r) ss) refl
    | inr off ↦ rw (off, handle_from-error r none ss) refl
  ]
  handle_from-error r (some e) (s ∷ ss) = elim (Bool-cases (h.enabled s (h.level r))) [
    | inl on ↦ rw (on, handle_from-error r (some e) ss) refl
    | inr off ↦ rw (off, handle_from-error r (some e) ss) refl
  ]

  enabled_iff : (level : ℤ) (ss : List S) → (enabled h ss level ≡ true) ↔ (takers level ss ≢ [])
  unfolding enabled
  enabled_iff level [] = (λ e. absurd (cc), λ ne. absurd (ne refl))
  enabled_iff level (s ∷ ss) = elim (Bool-cases (h.enabled s level)) [
    | inl on ↦ rw on (λ e. λ nil. absurd (cc), λ ne. refl)
    | inr off ↦ rw off (enabled_iff level ss)
  ]

  -- A record goes once, in their order, to each handler that takes records of its level, and to no
  -- other; the first error of these comes back, and none if all succeed. The fan-out is enabled at a
  -- level just if one of the handlers is.
  pub handle_lem :
      (r : R) (level : ℤ) (ss : List S)
      → (handle h r ss ≡ (
        map (λ s. (s, r)) (takers (h.level r) ss),
        first_error (map (λ s. h.handle s r) (takers (h.level r) ss)),
      ))
        × ((enabled h ss level ≡ true) ↔ (takers level ss ≢ []))
  unfolding handle
  handle_lem r level ss =
      (λ i. (handle_from-handed r none ss i, handle_from-error r none ss i), enabled_iff level ss)
