-- ===== src/Process/Server.antt =====
-- cmd/server/main.go.
use noapp.Prelude.{String, Option, none, some, List, [], ◌∷◌}
use noapp.Runtime.{Runtime}
use noapp.Auth.{Config, new_verifier}
use noapp.Process.{
  logs, metrics, traces, profiler, pool, Act, served, env, result_error, Setup, Statement, opens,
  calls, defers, perform, open_logs, open_metrics, open_traces, open_profiler,
}
use noapp.Process.Database.{Pings, wait_for_database}

-- The errors of ParseConfig, of NewWithConfig, and of the instruments of app.New.
pub record ServerSetup : Type 0 where
  pub setup : Setup
  pub parse : Option String
  pub new_pool : Option String
  pub pings : Pings
  pub count : Option String
  pub duration : Option String
  pub decisions : Option String

unfoldable pub auth_config : (String → String) → Config
unfolding env
auth_config lookup = record {
  issuer = env lookup "AUTH_ISSUER_URL" "http://localhost:8082/realms/noapp";
  jwks_url =
      env lookup "AUTH_JWKS_URL" "http://localhost:8082/realms/noapp/protocol/openid-connect/certs";
  audience = env lookup "AUTH_AUDIENCE" "noapp-api";
}

-- app.New, as far as it can fail.
unfoldable pub new_handler : Option String → Option String → Option String → Option String
new_handler (some e) duration decisions = some e
new_handler none (some e) decisions = some e
new_handler none none decisions = decisions

-- The set-up, each opening with its deferred call.
unfoldable pub server_setup : Runtime → ServerSetup → List Statement
unfolding wait_for_database auth_config new_handler
server_setup rt s =
    open_logs s.setup "noapp"
    ∷ defers (logs ∷ [])
    ∷ open_metrics s.setup "noapp"
    ∷ defers (metrics ∷ [])
    ∷ open_traces s.setup "noapp"
    ∷ defers (traces ∷ [])
    ∷ open_profiler s.setup "noapp"
    ∷ defers (profiler ∷ [])
    ∷ calls s.parse
    ∷ opens pool s.new_pool
    ∷ defers (pool ∷ [])
    ∷ calls (wait_for_database s.pings).error
    ∷ calls (result_error rt (new_verifier (auth_config s.setup.lookup)))
    ∷ calls (new_handler s.count s.duration s.decisions)
    ∷ []

unfoldable pub server_main : Runtime → ServerSetup → List Act
server_main rt s = perform (server_setup rt s) [] (served ∷ [])
