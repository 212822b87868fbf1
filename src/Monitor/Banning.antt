-- ===== src/Monitor/Banning.antt =====
-- monitor/internal/datastore/datastore.go: the ban list as the monitor shows and changes it.
pub mod Once
use quake_mesh.Base.{
  ℕ, Bool, true, false, not, ◌||◌, Option, none, some, List, [], ◌∷◌, ◌==◌, nat_eq, if◌then◌else◌,
}
use quake_mesh.Base.Text.{Text, Bytes, codes, copy_into}
use quake_mesh.Storage.{
  NodeId, BanId, Millis, Proposal, Verdict, Db, M, Result, ok, err, Error, no_local_hub, bad_hub_id,
  bad_ban_id, pure, fail, ◌>>=◌, ◌>>◌, query,
}
use quake_mesh.Settings.{setting, value_of}
use quake_mesh.Sync.Wire.{id_size, ban_size}
use quake_mesh.Bans.{
  Tally, default_range, list_proposals, propose, set_verdict, tally_verdicts, verdict_for_hub,
}

abbrev pub key_local_hub_id : Text
key_local_hub_id = codes "local_hub_id"

-- An id is the number that its bytes spell, also where the source writes it in hex.
pub record BanEntry : Type 0 where
  pub ban_id : BanId
  pub app_id : Text
  pub version_range : Text
  pub reason : Text
  pub proposed_by : Option NodeId
  pub proposed_at : Option Millis
  pub agree_count : ℕ
  pub disagree_count : ℕ
  pub local_verdict : Text
  pub locally_enforced : Bool

unfoldable pub id_decoded : Option Bytes → Result NodeId
id_decoded none = err bad_hub_id
id_decoded (some b) = if b.size == id_size then ok (copy_into id_size b) else err bad_hub_id

-- A read that fails leaves the text empty, and is reported as no id.
unfoldable pub hub_id_from : (Text → Option Bytes) → Result Text → Result NodeId
unfolding id_decoded
hub_id_from hex (ok (c ∷ value)) = id_decoded (hex (c ∷ value))
hub_id_from hex _ = err no_local_hub

-- `LocalHubID`; `hex` is `DecodeString` of package hex.
unfoldable pub local_hub_id : (Text → Option Bytes) → M NodeId
unfolding hub_id_from
local_hub_id hex db =
    let r = query (λ t. value_of (setting key_local_hub_id t)) db in (hub_id_from hex r.0, r.1)

abbrev pub entry_of : Proposal → Tally → BanEntry
entry_of p tally = record {
  ban_id = p.ban_id;
  app_id = p.app_id;
  version_range = p.version_range;
  reason = p.reason;
  proposed_by = some p.proposed_by;
  proposed_at = some p.proposed_at;
  agree_count = tally.agrees;
  disagree_count = tally.disagrees;
  local_verdict = [];
  locally_enforced = false;
}

-- An error is passed over.
unfoldable pub judged : BanEntry → Result (Option Verdict) → BanEntry
judged e (ok (some v)) =
    if v.agree
    then record e { local_verdict = codes "agree"; locally_enforced = true }
    else record e { local_verdict = codes "disagree" }
judged e _ = e

unfoldable pub with_local : Result NodeId → BanEntry → M BanEntry
unfolding judged
with_local (ok hub) e db = let r = verdict_for_hub e.ban_id hub db in (ok (judged e r.0), r.1)
with_local (err x) e db = (ok e, db)

-- The loop over the proposals.
unfoldable pub entries_of : Result NodeId → List Proposal → M (List BanEntry)
unfolding with_local
entries_of local [] = pure []
entries_of local (p ∷ rest) = do
  tally ← tally_verdicts p.ban_id
  e ← with_local local (entry_of p tally)
  es ← entries_of local rest
  pure (e ∷ es)

unfoldable pub list_for : (Text → Option Bytes) → List Proposal → M (List BanEntry)
unfolding local_hub_id entries_of
list_for hex ps db = let r = local_hub_id hex db in entries_of r.0 ps r.1

unfoldable pub ban_list : (Text → Option Bytes) → M (List BanEntry)
unfolding list_for
ban_list hex = list_proposals >>= list_for hex

-- The proposal that `ProposeBan` makes; its `BanID` is left at its zero value.
abbrev pub local_proposal : NodeId → Text → Text → Text → Millis → Proposal
local_proposal hub app range reason now = record {
  ban_id = 0;
  app_id = app;
  version_range = default_range range;
  reason = reason;
  proposed_by = hub;
  proposed_at = now;
  signature = none;
}

abbrev unlisted : Proposal → BanEntry
unlisted p = record {
  ban_id = p.ban_id;
  app_id = p.app_id;
  version_range = p.version_range;
  reason = p.reason;
  proposed_by = none;
  proposed_at = none;
  agree_count = 0;
  disagree_count = 0;
  local_verdict = [];
  locally_enforced = false;
}

-- The entry with the proposal's id, or one made up where the list has none.
unfoldable pub find_entry : Proposal → List BanEntry → BanEntry
find_entry p [] = unlisted p
find_entry p (e ∷ rest) = if e.ban_id == p.ban_id then e else find_entry p rest

unfoldable pub propose_as : (Text → Option Bytes) → Proposal → M BanEntry
unfolding ban_list find_entry
propose_as hex p = propose p >> (ban_list hex >>= λ es. pure (find_entry p es))

unfoldable pub propose_ban : (Text → Option Bytes) → Text → Text → Text → Millis → M BanEntry
unfolding local_hub_id propose_as
propose_ban hex app range reason now =
    local_hub_id hex >>= λ hub. propose_as hex (local_proposal hub app range reason now)

unfoldable verdict_decoded : Option Bytes → Bool → Millis → NodeId → M (Unit {0})
verdict_decoded none agree now hub = fail bad_ban_id
verdict_decoded (some b) agree now hub =
    if not (b.size == ban_size)
    then fail bad_ban_id
    else set_verdict
        (record { ban_id = copy_into ban_size b; hub_id = hub; agree = agree; decided_at = now })

unfoldable set_ban_verdict : (Text → Option Bytes) → Text → Bool → Millis → M (Unit {0})
unfolding local_hub_id verdict_decoded
set_ban_verdict hex ban agree now = local_hub_id hex >>= verdict_decoded (hex ban) agree now
