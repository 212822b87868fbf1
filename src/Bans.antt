-- ===== src/Bans.antt =====
-- core/banlist/store.go: ban_list and ban_verdicts.
pub mod Ranges
pub mod Verdicts
pub mod Enforcement
use quake_mesh.Base.{
  ℕ, Bool, true, false, not, ◌&&◌, ◌||◌, Option, none, some, List, [], ◌∷◌, leb, ltb, ◌==◌, nat_eq,
  pair_eq, if◌then◌else◌,
}
use quake_mesh.Base.Text.{Text, codes, text_eq, has_prefix, has_suffix, trim_suffix, trim_space}
use quake_mesh.Base.Rows.{
  keyed, row_at, select_where, count_where, update_where, insert_row, upsert_row,
}
use quake_mesh.Storage.{
  NodeId, BanId, Millis, Proposal, Verdict, Tables, M, Result, ok, err, app_id_required, unique_key,
  foreign_key, not_null, pure, fail, ◌>>=◌, ◌>>◌, query, exec, exec_checked,
}

abbrev pub ban_id : Proposal → BanId
ban_id p = p.ban_id

-- The primary key of ban_verdicts.
abbrev pub verdict_key : Verdict → BanId × NodeId
verdict_key v = (v.ban_id, v.hub_id)

abbrev pub proposal : BanId → Tables → Option Proposal
proposal id t = row_at ban_id id t.ban_list

abbrev pub verdict : BanId → NodeId → Tables → Option Verdict
verdict id hub t = row_at verdict_key (id, hub) t.ban_verdicts

abbrev pub on_bans : (List Proposal → List Proposal) → Tables → Tables
on_bans f t = record t { ban_list = f t.ban_list }

abbrev pub on_verdicts : (List Verdict → List Verdict) → Tables → Tables
on_verdicts f t = record t { ban_verdicts = f t.ban_verdicts }

abbrev pub default_range : Text → Text
default_range range = if range == [] then codes "*" else range

abbrev pub default_signature : Option Text → Option Text
default_signature none = some []
default_signature (some s) = some s

-- The row that `Propose` stores: `len(p.BanID)` is 16, so the id is always the given one.
abbrev pub completed : Proposal → Proposal
completed p = record p {
  version_range = default_range p.version_range;
  signature = default_signature p.signature;
}

abbrev pub insert_proposal : Proposal → Option Proposal → Tables → Result Tables
insert_proposal p none t = ok (on_bans (insert_row p) t)
insert_proposal p (some old) t = err unique_key

unfoldable pub propose : Proposal → M (Unit {0})
propose p =
    if p.app_id == []
    then fail app_id_required
    else exec_checked (λ t. insert_proposal (completed p) (proposal p.ban_id t) t)

unfoldable pub update_signature : BanId → Text → M (Unit {0})
update_signature id s =
    exec (on_bans (update_where (keyed ban_id id) (λ p. record p { signature = some s })))

-- `ORDER BY proposed_at DESC`.
unfoldable pub insert_by_date : Proposal → List Proposal → List Proposal
insert_by_date p [] = p ∷ []
insert_by_date p (x ∷ l) =
    let rest = insert_by_date p l in if leb x.proposed_at p.proposed_at then p ∷ x ∷ l else x ∷ rest

unfoldable pub order_by_date : List Proposal → List Proposal
unfolding insert_by_date
order_by_date [] = []
order_by_date (p ∷ l) = insert_by_date p (order_by_date l)

unfoldable pub list_proposals : M (List Proposal)
unfolding order_by_date
list_proposals = query (λ t. order_by_date t.ban_list)

-- `signature IS NULL OR length(signature) = 0`.
abbrev pub is_unsigned : Option Text → Bool
is_unsigned none = true
is_unsigned (some s) = s == []

unfoldable pub list_unsigned_by_proposer : NodeId → M (List Proposal)
list_unsigned_by_proposer hub =
    query (λ t. select_where (λ p. p.proposed_by == hub && is_unsigned p.signature) t.ban_list)

abbrev pub decide : Bool → Millis → Verdict → Verdict
decide agree at v = record v { agree = agree; decided_at = at }

-- A verdict on a ban that is not stored breaks the foreign key.
abbrev pub store_verdict : Verdict → Option Verdict → Option Proposal → Tables → Result Tables
store_verdict v none none t = err foreign_key
store_verdict v none (some p) t = ok (on_verdicts (insert_row v) t)
store_verdict v (some old) ban t =
    ok (
      on_verdicts (update_where (keyed verdict_key (verdict_key v)) (decide v.agree v.decided_at))
        t)

unfoldable pub set_verdict : Verdict → M (Unit {0})
set_verdict v =
    exec_checked (λ t. store_verdict v (verdict v.ban_id v.hub_id t) (proposal v.ban_id t) t)

unfoldable pub verdict_for_hub : BanId → NodeId → M (Option Verdict)
verdict_for_hub id hub = query (verdict id hub)

pub record Tally : Type 0 where
  pub agrees : ℕ
  pub disagrees : ℕ

abbrev pub is_verdict : BanId → Bool → Verdict → Bool
is_verdict id agree v = v.ban_id == id && (if agree then v.agree else not v.agree)

unfoldable pub tally_verdicts : BanId → M Tally
tally_verdicts id = do
  agreeing ← query (λ t. count_where (is_verdict id true) t.ban_verdicts)
  opposed ← query (λ t. count_where (is_verdict id false) t.ban_verdicts)
  pure (record { agrees = agreeing; disagrees = opposed })

unfoldable pub list_all_verdicts : M (List Verdict)
list_all_verdicts = query (λ t. t.ban_verdicts)

unfoldable pub list_verdicts : BanId → M (List Verdict)
list_verdicts id = query (λ t. select_where (λ v. v.ban_id == id) t.ban_verdicts)

-- `VersionInRange` once the range is trimmed.
unfoldable pub in_trimmed_range : Text → Text → Bool
in_trimmed_range version range =
    if range == [] || range == codes "*"
    then true
    else if has_suffix range (codes ".*") || has_suffix range (codes ".x")
    then has_prefix version (trim_suffix (trim_suffix range (codes ".*")) (codes ".x"))
    else if has_suffix range (codes "*")
    then has_prefix version (trim_suffix range (codes "*"))
    else version == range

unfoldable pub version_in_range : Text → Text → Bool
unfolding in_trimmed_range
version_in_range version range = in_trimmed_range version (trim_space range)

abbrev pub covers : Text → Text → Proposal → Bool
covers app version p = p.app_id == app && version_in_range version p.version_range

abbrev pub agreed : Option Verdict → Bool
agreed none = false
agreed (some v) = v.agree

-- The loop of `IsLocallyEnforced`.
unfoldable pub enforced_among : NodeId → Text → Text → List Proposal → M Bool
unfolding verdict_for_hub
enforced_among hub app version [] = pure false
enforced_among hub app version (p ∷ l) =
    let rest = enforced_among hub app version l in
    if not (covers app version p)
    then rest
    else verdict_for_hub p.ban_id hub >>= (λ v. if agreed v then pure true else rest)

unfoldable pub is_locally_enforced : NodeId → Text → Text → M Bool
unfolding enforced_among list_proposals
is_locally_enforced hub app version = list_proposals >>= enforced_among hub app version

-- The `UPDATE` of `MergeGossipProposal`: a nil signature is a NULL, which the column refuses.
abbrev pub replaced : Proposal → Proposal → Proposal
replaced p old = record p { ban_id = old.ban_id }

abbrev pub replace_proposal : Proposal → Option Text → Tables → Result Tables
replace_proposal p none t = err not_null
replace_proposal p (some s) t = ok (on_bans (update_where (keyed ban_id p.ban_id) (replaced p)) t)

unfoldable pub merge_proposal : Proposal → Option Proposal → M Bool
unfolding propose
merge_proposal p none = propose p >> pure true
merge_proposal p (some local) =
    if ltb p.proposed_at local.proposed_at
    then pure false
    else (exec_checked (replace_proposal p p.signature) >> pure true)

unfoldable pub merge_gossip_proposal : Proposal → M Bool
unfolding merge_proposal
merge_gossip_proposal p = query (proposal p.ban_id) >>= merge_proposal p

unfoldable pub merge_verdict : Verdict → Option Verdict → M Bool
unfolding set_verdict
merge_verdict v none = set_verdict v >> pure true
merge_verdict v (some local) =
    if leb v.decided_at local.decided_at then pure false else (set_verdict v >> pure true)

unfoldable pub merge_gossip_verdict : Verdict → M Bool
unfolding merge_verdict
merge_gossip_verdict v = query (verdict v.ban_id v.hub_id) >>= merge_verdict v

-- `BanIDEqual`.
abbrev pub ban_id_equal : BanId → BanId → Bool
ban_id_equal a b = a == b
