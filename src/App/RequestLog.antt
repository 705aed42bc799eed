-- ===== src/App/RequestLog.antt =====
-- internal/app/server.go: what requestLogger tells of a request, with the writer that remembers the
-- status, and newRequestID. The duration is left out.
use Prim.Native.Char.{code}
use noapp.Prelude.{
  ℕ, String, Bool, ◌&&◌, Option, none, some, List, [], ◌∷◌, ◌++◌, ℤ, leb, ◌==◌, str_eq, split_at,
  if◌then◌else◌,
}
use noapp.Prelude.Texts.Hex.{hex_bytes, format_hex}
use noapp.App.{Reply}
use noapp.App.Server.{Request, is_get, is_open, is_auth_config, request_id, Level, level_of}

-- What a handler does to the ResponseWriter.
pub data Write : Type 0 where
  header_write : ℕ → Write
  body_write : Write

-- The status, 0 for none, and the statuses passed on to the writer below.
pub record StatusWriter : Type 0 where
  pub status : ℕ
  pub passed : List ℕ

unfoldable pub write_header : ℕ → StatusWriter → StatusWriter
write_header status w = record { status = status; passed = w.passed ++ status ∷ [] }

unfoldable pub write : StatusWriter → StatusWriter
write w = if w.status == 0 then write_header 200 w else w

unfoldable pub run_writes : List Write → StatusWriter → StatusWriter
run_writes [] w = w
run_writes (header_write status ∷ ws) w = run_writes ws (write_header status w)
run_writes (body_write ∷ ws) w = run_writes ws (write w)

-- writeJSON sets the status and then encodes the value.
abbrev pub writes_of : Reply → List Write
writes_of reply = header_write reply.status ∷ body_write ∷ []

-- The bytes of rand.Read, none on an error, and the clock in nanoseconds.
unfoldable pub new_request_id : Option (List ℕ) → ℤ → String
new_request_id none clock = format_hex clock
new_request_id (some bytes) clock = hex_bytes bytes

-- The pattern of New's outer mux that matches a request under /api/. The mux behind `authorize` is
-- handed a copy of the request, so its patterns do not show.
unfoldable pub outer_pattern : Request → String
outer_pattern r =
    let segments = split_at b'/' r.path in
    if is_get r.method && is_open "health" segments
    then "GET /api/health"
    else if is_get r.method && is_auth_config segments
    then "GET /api/auth/config"
    else "/api/"

-- What follows the first space: strings.Cut.
cut_space : String → Option String
cut_space String.[] = none
cut_space (String.◌∷◌ c s) = let rest = cut_space s in if code c == 0x20 then some s else rest

unfoldable pub route_label : String → String
unfolding cut_space
route_label pattern =
    if str_eq pattern ""
    then "unmatched"
    else elim (cut_space pattern) [ some route ↦ route | none ↦ pattern ]

-- The response's header X-Request-ID, the line that is logged with its level, the error of the span,
-- and the labels of the metrics.
pub record RequestLog : Type 0 where
  pub id : String
  pub method : String
  pub path : String
  pub route : String
  pub status : ℕ
  pub level : Level
  pub span_error : Bool

abbrev pub or_ok : ℕ → ℕ
or_ok status = if status == 0 then 200 else status

unfoldable pub log_request : Option (List ℕ) → ℤ → Request → String → List Write → RequestLog
log_request bytes clock r pattern writes =
    let status = or_ok (run_writes writes (record { status = 0; passed = [] })).status in
    record {
      id = request_id (new_request_id bytes clock) r;
      method = r.method;
      path = r.path;
      route = route_label pattern;
      status = status;
      level = level_of status;
      span_error = leb 500 status;
    }
