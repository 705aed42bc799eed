-- ===== src/Telemetry.antt =====
-- internal/telemetry: the log handler that passes records on to several handlers (logs.go), and the
-- set-up of the exporters (logs.go, metrics.go, traces.go, profiles.go) as far as it can fail. The
-- handlers of slog and the libraries of OpenTelemetry and Pyroscope are arguments.
pub mod Fanout
pub mod Tests
use noapp.Prelude.{
  String, Bool, true, false, ◌||◌, Option, none, some, List, [], ◌∷◌, ℤ, pos, ℕ, map, str_eq,
  if◌then◌else◌,
}

-- slog.Handler, with its state S, over records R and attributes A. `handle` gives the error.
pub record Handler (S R A : Type 0) : Type 0 where
  pub enabled : S → ℤ → Bool
  pub handle : S → R → Option String
  pub with_attrs : List A → S → S
  pub with_group : String → S → S
  pub level : R → ℤ

-- The record that a handler was handed.
abbrev pub Handed : Type 0 → Type 0 → Type 0
Handed S R = List (S × R)

abbrev pub first_of : Option String → Option String → Option String
first_of (some e) _ = some e
first_of none e = e

module _ {S R A : Type 0} (h : Handler S R A) where
  -- multiHandler: Enabled, Handle, WithAttrs, WithGroup.
  unfoldable pub enabled : List S → ℤ → Bool
  enabled [] level = false
  enabled (s ∷ ss) level = if h.enabled s level then true else enabled ss level

  -- The loop of Handle, from the first error that it has met.
  unfoldable pub handle_from : R → Option String → List S → Handed S R × Option String
  handle_from r first [] = ([], first)
  handle_from r first (s ∷ ss) =
      let on = handle_from r (first_of first (h.handle s r)) ss in
      let off = handle_from r first ss in
      if h.enabled s (h.level r) then ((s, r) ∷ on.0, on.1) else off

  unfoldable pub handle : R → List S → Handed S R × Option String
  handle r ss = handle_from r none ss

  unfoldable pub with_attrs : List A → List S → List S
  with_attrs attrs ss = map (h.with_attrs attrs) ss

  unfoldable pub with_group : String → List S → List S
  with_group name ss = map (h.with_group name) ss

-- resource.New with its attributes; what it reads from the environment and of the SDK is left out.
pub record Resource : Type 0 where
  pub service : String
  pub version : String
  pub environment : String

abbrev resource_of : String → String → Resource
resource_of environment service = record {
  service = service;
  version = "1.0.0";
  environment = environment;
}

-- The loggers that a record goes to: the console from a level on, and the bridge to OpenTelemetry.
pub record Logger : Type 0 where
  pub resource : Resource
  pub console_level : ℤ
  pub bridge : String

-- The interval of the export is in seconds.
pub record MeterProvider : Type 0 where
  pub resource : Resource
  pub interval : ℕ

pub record TracerProvider : Type 0 where
  pub resource : Resource

-- pyroscope.Config, less the list of the types of profiles. The rate of the upload is in seconds.
pub record ProfilerConfig : Type 0 where
  pub application : String
  pub server : String
  pub upload_rate : ℕ
  pub environment : String

-- The error, or what has been set up.
pub data Started {ℓ} (A : Type ℓ) : Type ℓ where
  started : A → Started A
  failed : String → Started A

-- The arguments are the errors of the exporter and of the resource. Info is level 0.
unfoldable pub new_logger_for : Option String → Option String → String → String → Started Logger
new_logger_for (some e) resource environment service = failed e
new_logger_for none (some e) environment service = failed e
new_logger_for none none environment service =
    started (record {
      resource = resource_of environment service;
      console_level = pos 0;
      bridge = service;
    })

unfoldable pub new_meter_provider_for :
    Option String → Option String → String → String → Started MeterProvider
new_meter_provider_for (some e) resource environment service = failed e
new_meter_provider_for none (some e) environment service = failed e
new_meter_provider_for none none environment service =
    started (record { resource = resource_of environment service; interval = 5 })

unfoldable pub new_tracer_provider_for :
    Option String → Option String → String → String → Started TracerProvider
new_tracer_provider_for (some e) resource environment service = failed e
new_tracer_provider_for none (some e) environment service = failed e
new_tracer_provider_for none none environment service =
    started (record { resource = resource_of environment service })

-- No profiler runs without an address.
unfoldable pub new_profiler :
    (ProfilerConfig → Option String) → String → String → String → Started (Option ProfilerConfig)
new_profiler start address application environment =
    let config : ProfilerConfig = record {
      application = application;
      server = address;
      upload_rate = 10;
      environment = environment;
    } in
    if str_eq address ""
    then started none
    else elim (start config) [ some e ↦ failed e | none ↦ started (some config) ]
