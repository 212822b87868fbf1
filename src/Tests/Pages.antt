-- ===== src/Tests/Pages.antt =====
-- The theorems on the monitor's web server and its ban list at concrete inputs.
use quake_mesh.Base.{◌≡◌, ◌≢◌, refl, true, false, Option, some, none, [], ◌∷◌, ℕ, List, All}
use quake_mesh.Base.Text.{Text, Bytes, codes, copy_into, slice_of, text_eq, text_beq}
use quake_mesh.Base.Map.{lookup}
use quake_mesh.Base.Rows.{select_first, count_where, insert_row}
use quake_mesh.Storage.{Db, Error, Result, ok, err, empty_tables, query, exec, exec_checked}
use quake_mesh.Monitor.Auth.{
  Store, change_found, change_password, default_password, default_username, password_stored,
  store_password, validate_found, validate_session,
}
use quake_mesh.Monitor.Server.{
  Decoder, Handler, LoginCall, Request, accepted, change_answer, change_decoded, change_for,
  handle_change_password, page, post, require_auth, session, too_many_requests,
}
use quake_mesh.Monitor.Server.Reconnects.{Apart, handle_logins, handle_logins-Apart}
use quake_mesh.Monitor.Server.Renewed.{require_auth-handle_change_password}
use quake_mesh.Monitor.Banning.{
  BanEntry, ban_list, entries_of, find_entry, hub_id_from, id_decoded, judged, key_local_hub_id,
  list_for, local_hub_id, propose_as, propose_ban, with_local,
}
use quake_mesh.Monitor.Banning.Once.{propose_ban_once}
use quake_mesh.Bans.{
  insert_by_date, list_proposals, order_by_date, propose, tally_verdicts, verdict_for_hub,
}
use quake_mesh.Tests.Data.{database}
use quake_mesh.Tests.Accounts.{plain, seeded}

-- The body is the password, old passwords are the default one.
abbrev reader : Decoder
reader = record {
  credentials = λ body. some (default_username, body);
  passwords = λ body. some (default_password, body);
}

abbrev from_port : Text → LoginCall
from_port address = record {
  request = record {
    method = post;
    remote_addr = address;
    cookie = none;
    user = [];
    body = codes "guess";
  };
  begun = 100;
  now = 100;
  token = some (codes "t1");
}

abbrev guesses : List LoginCall
guesses = from_port (codes "10.0.0.9:5001") ∷ from_port (codes "10.0.0.9:5002") ∷ []

differ : Apart guesses
unfolding Apart text_beq
differ = ((refl, tt), (tt, tt))

handle_logins-Apart_example :
    All (λ r. r ≢ too_many_requests) (handle_logins reader plain guesses seeded)
unfolding lookup
handle_logins-Apart_example =
    handle_logins-Apart reader plain guesses seeded differ (refl, (refl, tt))

-- The default user has logged in and has not yet changed the password.
abbrev signed_in : Store
signed_in = record seeded {
  sessions =
      (
        codes "t1",
        record { username = default_username; must_change_password = true; expires_at = 1000 },
      )
      ∷ [];
}

abbrev changing : Request
changing = record {
  method = post;
  remote_addr = codes "10.0.0.9:5001";
  cookie = some (codes "t1");
  user = [];
  body = codes "longer password";
}

abbrev asking : Request
asking = record changing { method = codes "GET"; body = [] }

abbrev greets : Handler ℕ
greets r m = (page r.user, m)

is_changed : (handle_change_password reader plain 0 200 changing signed_in).0 ≡ accepted
unfolding handle_change_password session validate_session validate_found lookup text_beq change_for
    change_decoded change_password change_found store_password password_stored query exec
    select_first change_answer
is_changed = refl

is_valid : (session changing 900 signed_in).0 ≡ some (default_username, true)
unfolding session validate_session validate_found lookup text_beq
is_valid = refl

require_auth-handle_change_password_example :
    let after = (handle_change_password reader plain 0 200 changing signed_in).1 in
    require_auth greets 900 asking (after, 7)
    ≡ greets (record asking { user = default_username }) (after, 7)
require_auth-handle_change_password_example =
    require_auth-handle_change_password greets reader plain 0 200 900 changing asking signed_in 7
      default_username true is_changed refl is_valid

-- The hub 7, which knows its id.
abbrev hub_db : Db
hub_db =
    database
      (record empty_tables { config = record { key = key_local_hub_id; value = codes "07" } ∷ [] })

abbrev seven : Text → Option Bytes
seven t = some (slice_of 32 7)

abbrev listed : BanEntry
listed = record {
  ban_id = 0;
  app_id = codes "chat";
  version_range = codes "1.*";
  reason = codes "floods";
  proposed_by = some 7;
  proposed_at = some 100;
  agree_count = 0;
  disagree_count = 0;
  local_verdict = [];
  locally_enforced = false;
}

abbrev first_ban : Result BanEntry × Db
first_ban = propose_ban seven (codes "chat") (codes "1.*") (codes "floods") 100 hub_db

first_ban_made : first_ban.0 ≡ ok listed
unfolding propose_ban local_hub_id hub_id_from id_decoded copy_into propose_as propose exec_checked
    ban_list list_proposals order_by_date insert_by_date list_for entries_of tally_verdicts
    with_local judged verdict_for_hub find_entry query select_first count_where text_beq insert_row
first_ban_made = refl

propose_ban_once_example :
    (x : Error) × ((propose_ban seven (codes "game") [] (codes "cheats") 200 first_ban.1).0 ≡ err x)
    × ((propose_ban seven (codes "game") [] (codes "cheats") 200 first_ban.1).1.tables
        ≡ first_ban.1.tables)
propose_ban_once_example =
    propose_ban_once seven (codes "chat") (codes "1.*") (codes "floods") (codes "game") []
      (codes "cheats") 100 200 hub_db listed first_ban_made
