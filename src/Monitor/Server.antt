-- ===== src/Monitor/Server.antt =====
-- monitor/internal/server/server.go: logging in and out, changing a password, and the guard that
-- stands before the pages.
pub mod Reconnects
pub mod Renewed
use quake_mesh.Base.{ℕ, Bool, true, false, not, Option, none, some, [], ◌==◌, if◌then◌else◌}
use quake_mesh.Base.Text.{Text, codes, text_eq}
use quake_mesh.Monitor.Auth.{
  Attempt, Bcrypt, Moment, Outcome, Store, done, invalid_credentials, locked_out, login, logout,
  change_password, validate_session,
}

abbrev pub post : Text
post = codes "POST"

-- Package json: the two texts of the body, or `none` where `Decode` fails.
pub record Decoder : Type 0 where
  pub credentials : Text → Option (Text × Text)
  pub passwords : Text → Option (Text × Text)

-- A request: its `RemoteAddr`, the cookie of the session, and the header that names the user.
pub record Request : Type 0 where
  pub method : Text
  pub remote_addr : Text
  pub cookie : Option Text
  pub user : Text
  pub body : Text

-- What is written: `refused` is `http.Error` with its status, `page` what a page writes.
pub data Response : Type 0 where
  refused : ℕ → Response
  logged_in : Text → Bool → Response
  logged_out accepted : Response
  page : Text → Response

abbrev pub too_many_requests : Response
too_many_requests = refused 429

unfoldable pub login_answer : Outcome (Text × Bool) → Response
login_answer (done (token, change)) = logged_in token change
login_answer locked_out = too_many_requests
login_answer invalid_credentials = refused 401
login_answer _ = refused 500

-- A request to log in, with what the clock and the random source give while it is served.
pub record LoginCall : Type 0 where
  pub request : Request
  pub begun : Moment
  pub now : Moment
  pub token : Option Text

abbrev pub attempt : LoginCall → Text × Text → Attempt
attempt c (name, password) = record {
  username = name;
  password = password;
  client = c.request.remote_addr;
  begun = c.begun;
  now = c.now;
  token = c.token;
}

unfoldable pub login_decoded : Bcrypt → LoginCall → Option (Text × Text) → Store → Response × Store
unfolding login_answer
login_decoded b c none s = (refused 400, s)
login_decoded b c (some body) s = let r = login b (attempt c body) s in (login_answer r.0, r.1)

unfoldable pub handle_login : Decoder → Bcrypt → LoginCall → Store → Response × Store
unfolding login_decoded
handle_login j b c s =
    if not (c.request.method == post)
    then (refused 405, s)
    else login_decoded b c (j.credentials c.request.body) s

abbrev cookie_value : Option Text → Text
cookie_value none = []
cookie_value (some token) = token

abbrev pub session_token : Request → Text
session_token r = cookie_value r.cookie

unfoldable pub session : Request → Moment → Store → Option (Text × Bool) × Store
session r now s = validate_session (session_token r) now s

unfoldable handle_logout : Request → Store → Response × Store
handle_logout r s =
    if session_token r == [] then (logged_out, s) else (logged_out, logout (session_token r) s)

unfoldable pub change_answer : Outcome (Unit {0}) → Response
change_answer (done u) = accepted
change_answer invalid_credentials = refused 401
change_answer _ = refused 400

unfoldable pub change_decoded : Bcrypt → ℕ → Text → Option (Text × Text) → Store → Response × Store
unfolding change_answer
change_decoded b salt name none s = (refused 400, s)
change_decoded b salt name (some (current, fresh)) s =
    let r = change_password b salt name current fresh s in (change_answer r.0, r.1)

unfoldable pub change_for :
    Decoder → Bcrypt → ℕ → Request → Option (Text × Bool) × Store → Response × Store
unfolding change_decoded
change_for j b salt r (none, s) = (refused 401, s)
change_for j b salt r (some (name, change), s) = change_decoded b salt name (j.passwords r.body) s

-- `salt` is the number of the call of the hash.
unfoldable pub handle_change_password :
    Decoder → Bcrypt → ℕ → Moment → Request → Store → Response × Store
unfolding change_for session
handle_change_password j b salt now r s =
    if not (r.method == post) then (refused 405, s) else change_for j b salt r (session r now s)

-- A handler of a page, which may use all that the monitor keeps.
abbrev pub Handler : Type 0 → Type 0
Handler W = Request → Store × W → Response × (Store × W)

unfoldable pub guarded :
    {W : Type 0} → Handler W → Request → W → Option (Text × Bool) × Store → Response × (Store × W)
guarded next r w (none, s) = (refused 401, (s, w))
guarded next r w (some (name, true), s) = (refused 403, (s, w))
guarded next r w (some (name, false), s) = next (record r { user = name }) (s, w)

unfoldable pub require_auth : {W : Type 0} → Handler W → Moment → Handler W
unfolding guarded session
require_auth next now r m = guarded next r m.1 (session r now m.0)

unfoldable guarded_socket :
    {W : Type 0} → Handler W → Request → W → Option (Text × Bool) × Store → Response × (Store × W)
guarded_socket next r w (none, s) = (refused 401, (s, w))
guarded_socket next r w (some (name, true), s) = (refused 403, (s, w))
guarded_socket next r w (some (name, false), s) = next r (s, w)

-- The guard of the WebSocket, which does not name the user.
unfoldable require_auth_ws : {W : Type 0} → Handler W → Moment → Handler W
unfolding guarded_socket session
require_auth_ws next now r m = guarded_socket next r m.1 (session r now m.0)
