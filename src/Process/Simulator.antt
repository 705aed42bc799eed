-- ===== src/Process/Simulator.antt =====
-- cmd/simulator/main.go.
use noapp.Prelude.{List, [], ◌∷◌, String}
use noapp.Simulator.Client.{OauthConfig}
use noapp.Process.{
  profiler, Act, served, stopped, env, Setup, Statement, defers, perform, open_profiler,
}

unfoldable pub oauth_config : (String → String) → OauthConfig
unfolding env
oauth_config lookup = record {
  token_url = env lookup "AUTH_TOKEN_URL" "";
  client_id = env lookup "AUTH_CLIENT_ID" "";
  client_secret = env lookup "AUTH_CLIENT_SECRET" "";
}

unfoldable pub simulator_setup : Setup → List Statement
simulator_setup s = open_profiler s "noapp-simulator" ∷ defers (profiler ∷ []) ∷ []

-- When the context has ended, the engine is stopped.
unfoldable pub simulator_main : Setup → List Act
simulator_main s = perform (simulator_setup s) [] (served ∷ stopped ∷ [])
