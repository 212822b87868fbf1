-- ===== src/Daemon/Access.antt =====
-- Who is let in: sessions and bans.
use quake_mesh.Base.{
  ◌≡◌, ◌≢◌, refl, inl, inr, Bool, true, false, Option, none, some, any, arith, if_elim, Bool-cases,
  ◌==◌, if◌then◌else◌, List, [], ◌∷◌,
}
use quake_mesh.Base.Text.{Text, text_eq, text_beq_iff}
use quake_mesh.Base.Map.{lookup, insert, lookup-insert}
use quake_mesh.Storage.{Millis, Healthy, Db, Result, ok, err}
use quake_mesh.Dtn.Engine
use quake_mesh.Apps
use quake_mesh.Bans.{is_locally_enforced}
use quake_mesh.Bans.Enforcement.{enforces, is_locally_enforced_lem}
use quake_mesh.Daemon.{
  Codec, Config, Session, Notice, notify, app_presence_changed, Server, Request, Response, failure,
  registered, session_from_request, token_of, unless_empty, with_db, is_get, is_post, unauthorized,
  method_not_allowed, forbidden,
}
use quake_mesh.Daemon.Apps.{
  RegisterBody, handle_register, register_app, ban_checked, admit, presence_stored, open_session,
  session_for, presence_of, handle_discover_peers, discover,
}
use quake_mesh.Daemon.Mail.{handle_send, send, handle_receive, receive}
use quake_mesh.Daemon.Topics.{answered, handle_publish, publish, begin_subscribe, subscribe}
use quake_mesh.Daemon.Calls.{
  Call, responded, begun, serve, needs_session, registers, sends, receives, publishes, begins, ends,
  discovers, delivers,
}

-- Whether the request of a call has the method that its route takes.
abbrev pub fits : Call → Bool
fits (registers now token r body) = is_post r.method
fits (sends now id r body) = is_post r.method
fits (receives r) = is_get r.method
fits (publishes r body) = is_post r.method
fits (begins r topic) = is_get r.method
fits (ends w wake) = true
fits (discovers r app constraint) = is_get r.method
fits (delivers src dst payload) = true

-- The response of a call that is turned away, which says no more than why.
abbrev pub refusal : Bool → Response
refusal fit = if fit then failure unauthorized else failure method_not_allowed

turned_away :
    (s : Server) (b : Bool)
    → responded (if b then (failure unauthorized, s) else (failure method_not_allowed, s))
      ≡ (some (refusal b), s)
turned_away s true = refl
turned_away s false = refl

not_begun :
    (s : Server) (b : Bool)
    → begun (
        if b
        then (answered (failure unauthorized), s)
        else (answered (failure method_not_allowed), s))
      ≡ (some (refusal b), s)
not_begun s true = refl
not_begun s false = refl

-- A call that needs a session and whose request names none is answered 401 where its method is the
-- one that its route takes and 405 where it is not, and changes nothing.
pub serve_unauthorized :
    (codec : Codec) (cfg : Config) (dtn : Engine.Config) (c : Call) (r : Request) (s : Server)
    → needs_session c ≡ some r
    → session_from_request r s ≡ none
    → serve codec cfg dtn c s ≡ (some (refusal (fits c)), s)
unfolding serve handle_send send handle_receive receive handle_publish publish begin_subscribe
    subscribe handle_discover_peers discover
serve_unauthorized codec cfg dtn (registers now token r' body) r s needs bare = cc
serve_unauthorized codec cfg dtn (sends now id r' body) r s needs bare =
    let same : r' ≡ r = cc in rw (same, bare) (turned_away s (is_post r.method))
serve_unauthorized codec cfg dtn (receives r') r s needs bare =
    let same : r' ≡ r = cc in rw (same, bare) (turned_away s (is_get r.method))
serve_unauthorized codec cfg dtn (publishes r' body) r s needs bare =
    let same : r' ≡ r = cc in rw (same, bare) (turned_away s (is_post r.method))
serve_unauthorized codec cfg dtn (begins r' topic) r s needs bare =
    let same : r' ≡ r = cc in rw (same, bare) (not_begun s (is_get r.method))
serve_unauthorized codec cfg dtn (ends w wake) r s needs bare = cc
serve_unauthorized codec cfg dtn (discovers r' app constraint) r s needs bare =
    let same : r' ≡ r = cc in rw (same, bare) (turned_away s (is_get r.method))
serve_unauthorized codec cfg dtn (delivers src dst payload) r s needs bare = cc

ban_checked_blocked :
    (codec : Codec) (cfg : Config) (body : RegisterBody) (now : Millis) (token : Option Text)
    (s : Server) (verdict : Result Bool × Db)
    → verdict.0 ≡ ok true
    → ban_checked codec cfg body now token s verdict ≡ (failure forbidden, with_db s verdict.1)
unfolding ban_checked
ban_checked_blocked codec cfg body now token s (err e, db) h = cc
ban_checked_blocked codec cfg body now token s (ok true, db) h = refl
ban_checked_blocked codec cfg body now token s (ok false, db) h = absurd (ground (arith, h))

-- Where the database works, an app that some stored ban covers and that the local hub agreed to ban
-- is turned away with 403 from a daemon that checks bans: it gets no session, no subscription or
-- inbox changes, and no table does.
pub handle_register_banned :
    (codec : Codec) (cfg : Config) (now : Millis) (token : Option Text) (r : Request)
    (body : RegisterBody) (s : Server)
    → Healthy s.dtn.db
    → cfg.has_bans ≡ true
    → is_post r.method ≡ true
    → body.app_id == [] ≡ false
    → any
        (enforces cfg.local_hub body.app_id body.app_version s.dtn.db.tables)
        s.dtn.db.tables.ban_list
      ≡ true
    → ((handle_register codec cfg now token r (some body) s).0 ≡ failure forbidden)
      × ((handle_register codec cfg now token r (some body) s).1
          ≡ with_db s (handle_register codec cfg now token r (some body) s).1.dtn.db)
      × ((handle_register codec cfg now token r (some body) s).1.dtn.db.tables ≡ s.dtn.db.tables)
unfolding handle_register register_app ban_checked
handle_register_banned codec cfg now token r body s up checks posted named covered =
    let found = is_locally_enforced_lem cfg.local_hub body.app_id body.app_version s.dtn.db up in
    let blocked =
      ban_checked_blocked codec cfg body now token s
        (is_locally_enforced cfg.local_hub body.app_id body.app_version s.dtn.db)
        (rw found.0 (rw covered refl)) in
    rw (posted, named, checks) (rw blocked (refl, refl, found.1))

session_inserted :
    (given asked : Text) (sess : Session) (m : List (Text × Session))
    → given ≢ []
    → unless_empty asked (lookup asked (insert given sess m))
      ≡ (if given == asked then some sess else unless_empty asked (lookup asked m))
session_inserted given [] sess m real = elim (Bool-cases (given == [])) [
  | inl empty ↦ absurd (real ((text_beq_iff given []).0 empty))
  | inr full ↦ rw full refl
]
session_inserted given (c ∷ t) sess m real = lookup-insert given (c ∷ t) sess m

notify-sessions : (b : Bool) (n : Notice) (s : Server) → (notify b n s).sessions ≡ s.sessions
notify-sessions true n s = refl
notify-sessions false n s = refl

module _ (codec : Codec) (cfg : Config) (body : RegisterBody) (later : Request) (given node : Text)
    (real : given ≢ []) where
  abbrev LetsIn : Server → Response × Server → Type 0
  LetsIn s r =
      r.0 ≡ registered given node
      → session_from_request later r.1 ≡ (
          if given == token_of later
          then some (session_for codec cfg body given)
          else session_from_request later s)

  open_session-LetsIn : (token : Text) (s : Server) → LetsIn s (open_session codec cfg body token s)
  unfolding open_session session_from_request
  open_session-LetsIn token s says =
      let same : token ≡ given = cc in
      rw
        (
          notify-sessions cfg.has_notifier
              (app_presence_changed cfg.self_id body.app_id body.app_version)
              (record s { sessions = insert token (session_for codec cfg body token) s.sessions }),
          same,
        )
        (session_inserted given (token_of later) (session_for codec cfg body given) s.sessions real)

  presence_stored-LetsIn :
      (token : Text) (s : Server) (r : Result (Unit {0}) × Db)
      → LetsIn s (presence_stored codec cfg body token s r)
  unfolding presence_stored session_from_request
  presence_stored-LetsIn token s (err e, db) = λ says. cc
  presence_stored-LetsIn token s (ok u, db) = open_session-LetsIn token (with_db s db)

  admit-LetsIn :
      (now : Millis) (token : Option Text) (s : Server)
      → LetsIn s (admit codec cfg body now token s)
  unfolding admit
  admit-LetsIn now none s = λ says. cc
  admit-LetsIn now (some token) s =
      if_elim (LetsIn s) cfg.has_apps
        (presence_stored-LetsIn token s (Apps.upsert (presence_of codec cfg body now) s.dtn.db))
        (open_session-LetsIn token s)

  ban_checked-LetsIn :
      (now : Millis) (token : Option Text) (s : Server) (r : Result Bool × Db)
      → LetsIn s (ban_checked codec cfg body now token s r)
  unfolding ban_checked session_from_request
  ban_checked-LetsIn now token s (err e, db) = λ says. cc
  ban_checked-LetsIn now token s (ok true, db) = λ says. cc
  ban_checked-LetsIn now token s (ok false, db) = admit-LetsIn now token (with_db s db)

  handle_register-LetsIn :
      (now : Millis) (token : Option Text) (r : Request) (s : Server)
      → LetsIn s (handle_register codec cfg now token r (some body) s)
  unfolding handle_register register_app
  handle_register-LetsIn now token r s =
      if_elim (LetsIn s) (is_post r.method)
        (if_elim (LetsIn s) (body.app_id == []) (λ says. cc)
          (if_elim (LetsIn s) cfg.has_bans
            (ban_checked-LetsIn now token s
              (is_locally_enforced cfg.local_hub body.app_id body.app_version s.dtn.db))
            (admit-LetsIn now token s)))
        (λ says. cc)

-- A registration that is answered with a token gives that token, if it is not empty, a session of the
-- app on this node, for every later request that names it in its header, and takes no session away.
pub session_from_request-handle_register :
    (codec : Codec) (cfg : Config) (now : Millis) (token : Option Text) (r later : Request)
    (body : RegisterBody) (s : Server) (given node : Text)
    → (handle_register codec cfg now token r (some body) s).0 ≡ registered given node
    → given ≢ []
    → session_from_request later (handle_register codec cfg now token r (some body) s).1 ≡ (
        if given == token_of later
        then some (session_for codec cfg body given)
        else session_from_request later s)
session_from_request-handle_register codec cfg now token r later body s given node says real =
    handle_register-LetsIn codec cfg body later given node real now token r s says
