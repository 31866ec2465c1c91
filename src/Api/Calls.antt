-- ===== src/Api/Calls.antt =====
-- Sequences of calls on apps/api/src/device-grants.service.ts, device-grant-links.service.ts and
-- usage-groups.service.ts, which share the tables of the grants, the links and the groups. A call that
-- throws may still leave an audit row, or a new link.
pub mod History
pub mod Refusal
mod Examples
use ucli_server.Base.{ℕ, Bool, Option, some, List, [], ◌∷◌, String}
use ucli_server.Budget.Result.{Result, ok, err}
use ucli_server.Budget.Money.{Amount}
use ucli_server.Budget.Ledger.{Principal, UnitType}
use ucli_server.Api.Keys.{Field}
use ucli_server.Api.Grants.{Text, GrantDb}
use ucli_server.Api.Grants.Issue.{
  CreateInput, Vault, create_credential, create, view_current, regenerate,
}
use ucli_server.Api.Grants.Assign.{Mapping, set_group_requirement, assign_groups}
use ucli_server.Api.Grants.Redeem.{DeviceBody, redeem}
use ucli_server.Api.Grants.Change.{update_expiration, enable, disable, delete}
use ucli_server.Api.Groups as Groups
use ucli_server.Api.Groups.Revoke.{archive, remove_member}

-- An administrator's call on grants, of an organization and by an account, with the time, the token
-- and the identifiers of new rows.
pub data GrantCall : Type 0 where
  require_call : Bool → ℕ → GrantCall
  assign_call : List Mapping → Bool → GrantCall
  create_call : ℕ → CreateInput → Text → Option Text → ℕ → ℕ → ℕ → GrantCall
  view_call : ℕ → Option Text → ℕ → GrantCall
  regenerate_call : ℕ → Field (Option ℕ) → Text → Option Text → ℕ → ℕ → GrantCall
  expiration_call : ℕ → Field (Option ℕ) → ℕ → GrantCall
  enable_call : ℕ → GrantCall
  disable_call delete_call : ℕ → ℕ → GrantCall

pub data GroupCall : Type 0 where
  create_group_call : Text → UnitType → Text → ℕ → GroupCall
  update_group_call : ℕ → Option Text → Option Text → GroupCall
  enable_group_call : ℕ → Bool → GroupCall
  archive_call : ℕ → ℕ → GroupCall
  add_member_call : ℕ → ℕ → ℕ → GroupCall
  remove_member_call : ℕ → ℕ → ℕ → GroupCall
  leader_call : ℕ → ℕ → Bool → GroupCall
  apply_call : ℕ → Amount → Option ℕ → ℕ → GroupCall
  reject_call : ℕ → ℕ → Option String → ℕ → GroupCall
  models_call : ℕ → List ℕ → GroupCall

pub data Call : Type 0 where
  grant_call : ℕ → ℕ → GrantCall → Call
  group_call : Principal → GroupCall → Call
  redeem_call : Text → Option DeviceBody → Text → ℕ → ℕ → Call

-- A transaction that throws is rolled back.
unfoldable pub committed {ℓ} : {A : Type ℓ} → GrantDb → Result (A × GrantDb) → GrantDb
committed db (ok (answer, later)) = later
committed db (err e) = db

unfoldable pub on_groups : GrantDb → Principal → GroupCall → GrantDb
unfolding committed
on_groups db actor (create_group_call name type description k) =
    committed db (Groups.create db actor name type description k)
on_groups db actor (update_group_call k name description) =
    committed db (Groups.update db actor k name description)
on_groups db actor (enable_group_call k enabled) =
    committed db (Groups.set_enabled db actor k enabled)
on_groups db actor (archive_call k now) = committed db (archive db actor k now)
on_groups db actor (add_member_call k account now) =
    committed db (Groups.add_member db actor k account now)
on_groups db actor (remove_member_call k account now) =
    committed db (remove_member db actor k account now)
on_groups db actor (leader_call k account leader) =
    committed db (Groups.set_leader db actor k account leader)
on_groups db actor (apply_call k requested applicant new_id) =
    committed db (Groups.create_application db actor k requested applicant new_id)
on_groups db actor (reject_call group k remark now) =
    committed db (Groups.reject_application db actor group k remark now)
on_groups db actor (models_call k ids) = committed db (Groups.replace_models db actor k ids)

module _ (vault : Vault) where
  unfoldable pub on_grants : GrantDb → ℕ → ℕ → GrantCall → GrantDb
  unfolding committed
  on_grants db organization actor (require_call required now) =
      committed db (set_group_requirement db organization actor required now)
  on_grants db organization actor (assign_call mappings dry_run) =
      committed db (assign_groups db organization actor mappings dry_run)
  on_grants db organization actor (create_call account input token public_url now grant link) =
      committed db (
        create db organization actor account input (create_credential vault token) public_url now
          grant link)
  on_grants db organization actor (view_call k public_url now) =
      committed db (view_current vault db organization actor k public_url now)
  on_grants db organization actor (regenerate_call k expires token public_url now link) =
      (regenerate db organization actor k expires (create_credential vault token) public_url now
        link).0
  on_grants db organization actor (expiration_call k expires now) =
      committed db (update_expiration db organization actor k expires now)
  on_grants db organization actor (enable_call k) = committed db (enable db organization actor k)
  on_grants db organization actor (disable_call k now) =
      committed db (disable db organization actor k now)
  on_grants db organization actor (delete_call k now) =
      committed db (delete db organization actor k now)

  unfoldable pub call : GrantDb → Call → GrantDb
  unfolding on_grants on_groups
  call db (grant_call organization actor c) = on_grants db organization actor c
  call db (group_call actor c) = on_groups db actor c
  call db (redeem_call secret body refresh_token now new_id) =
      (redeem vault.hash db (some secret) body refresh_token now new_id).0

  unfoldable pub run_calls : GrantDb → List Call → GrantDb
  unfolding call
  run_calls db [] = db
  run_calls db (c ∷ cs) = run_calls (call db c) cs
