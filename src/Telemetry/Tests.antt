-- ===== src/Telemetry/Tests.antt =====
-- internal/telemetry/logs.go: the theorem for a handler of all levels beside one of warnings that fails.
use noapp.Prelude.{
  ◌≡◌, ◌≢◌, ◌↔◌, String, true, none, some, [], ◌∷◌, ℤ, pos, leb_ℤ, map, if◌then◌else◌,
}
use noapp.Telemetry.{Handler, enabled, handle}
use noapp.Telemetry.Fanout.{first_error, takers, handle_lem}

-- A handler is its lowest level, and a record its level.
abbrev levels : Handler ℤ ℤ String
levels = record {
  enabled = λ s level. leb_ℤ s level;
  handle = λ s r. if leb_ℤ (pos 4) s then some "full" else none;
  with_attrs = λ attrs s. s;
  with_group = λ name s. s;
  level = λ r. r;
}

handle_lem_example :
    (handle levels (pos 8) (pos 0 ∷ pos 4 ∷ []) ≡ (
      map (λ s. (s, pos 8)) (takers levels (pos 8) (pos 0 ∷ pos 4 ∷ [])),
      first_error (map (λ s. levels.handle s (pos 8)) (takers levels (pos 8) (pos 0 ∷ pos 4 ∷ []))),
    ))
    × ((enabled levels (pos 0 ∷ pos 4 ∷ []) (pos 0) ≡ true)
        ↔ (takers levels (pos 0) (pos 0 ∷ pos 4 ∷ []) ≢ []))
handle_lem_example = handle_lem levels (pos 8) (pos 0) (pos 0 ∷ pos 4 ∷ [])
