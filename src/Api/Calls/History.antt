-- ===== src/Api/Calls/History.antt =====
-- Every call on apps/api/src/device-grants.service.ts, device-grant-links.service.ts and
-- usage-groups.service.ts takes grants along their life, and so does a sequence of them.
use ucli_server.Base.{ℕ, ◌≡◌, refl, Option, some, List, [], ◌∷◌, map}
use ucli_server.Budget.Result.{Result, ok, err}
use ucli_server.Budget.Ensures.{Ensures, Ensures-map, Ensures-ok}
use ucli_server.Budget.Ledger.{Principal}
use ucli_server.Api.Grants.{Text, GrantDb, Grant, Link}
use ucli_server.Api.Grants.Store.{find_grant}
use ucli_server.Api.Grants.Issue.{Vault, Credential, create_credential, regenerate, hand_out}
use ucli_server.Api.Grants.Redeem.{Credentials, DeviceBody, redeem}
use ucli_server.Api.Grants.Life.{
  view, Act, Acts, Only, Whatever, Along, end_along, next_along, assign_act, redeem_act, expire_act,
  enable_act, disable_act, delete_act, close_act, other_act,
}
use ucli_server.Api.Grants.Rows.{GrantIds, Later, Later-refl, Later-trans, Later-Whatever}
use ucli_server.Api.Grants.Keeps.{
  create-Later, view_current-Later, replace_link-Later, update_expiration-Later, enable-Later,
  disable-Later, delete-Later,
}
use ucli_server.Api.Grants.Grouping.{set_group_requirement-Later, assign_groups-Later}
use ucli_server.Api.Grants.Once.{Bound-Later, redeem-Redeems}
use ucli_server.Api.Groups.Keeps as Keeps
use ucli_server.Api.Groups.Archive.{archive-closes, remove_member-closes}
use ucli_server.Api.Calls.{
  Call, GrantCall, GroupCall, grant_call, group_call, redeem_call, require_call, assign_call,
  create_call, view_call, regenerate_call, expiration_call, enable_call, disable_call, delete_call,
  create_group_call, update_group_call, enable_group_call, archive_call, add_member_call,
  remove_member_call, leader_call, apply_call, reject_call, models_call, committed, on_grants,
  on_groups, call, run_calls,
}

-- What each call may do to grants.
abbrev pub grant_act : ℕ → GrantCall → Act
grant_act o (require_call required now) = other_act
grant_act o (assign_call mappings dry_run) = assign_act o
grant_act o (create_call account input token public_url now grant link) = other_act
grant_act o (view_call k public_url now) = other_act
grant_act o (regenerate_call k expires token public_url now link) = other_act
grant_act o (expiration_call k expires now) = expire_act o k
grant_act o (enable_call k) = enable_act o k
grant_act o (disable_call k now) = disable_act o k now
grant_act o (delete_call k now) = delete_act o k now

abbrev pub group_act : Principal → GroupCall → Act
group_act a (archive_call k now) = close_act a.organization_id k now
group_act a (remove_member_call k account now) = close_act a.organization_id k now
group_act a _ = other_act

abbrev pub act_of : Call → Act
act_of (grant_call organization actor c) = grant_act organization c
act_of (group_call actor c) = group_act actor c
act_of (redeem_call secret body refresh_token now new_id) = redeem_act now

committed-Later {ℓ} :
    {acts : Acts} {A : Type ℓ} (db : GrantDb) (m : Result (A × GrantDb))
    → Ensures (λ res. Later acts db res.1) m
    → Later acts db (committed db m)
unfolding committed
committed-Later db (ok (a, d)) kept = kept.at (a, d) refl
committed-Later db (err e) kept = Later-refl db

hand_out-Later :
    {acts : Acts} (db : GrantDb) (credential : Credential) (public_url : Option Text) (now : ℕ)
    (m : Result (Link × GrantDb))
    → Ensures (λ res. Later acts db res.1) m
    → Later acts db (hand_out db credential public_url now m).0
unfolding hand_out
hand_out-Later db credential public_url now (ok (l, d)) kept = kept.at (l, d) refl
hand_out-Later db credential public_url now (err e) kept = Later-refl db

module _ (vault : Vault) (db : GrantDb) where
  on_grants-Later :
      (organization actor : ℕ) (c : GrantCall)
      → Later (Only (grant_act organization c)) db (on_grants vault db organization actor c)
  unfolding on_grants regenerate
  on_grants-Later o a (require_call required now) =
      committed-Later db _ (set_group_requirement-Later db o a required now)
  on_grants-Later o a (assign_call mappings dry_run) =
      committed-Later db _ (assign_groups-Later db o a mappings dry_run)
  on_grants-Later o a (create_call account input token public_url now grant link) =
      committed-Later db _ (create-Later db o a account input _ public_url now grant link)
  on_grants-Later o a (view_call k public_url now) =
      committed-Later db _ (view_current-Later vault db o a k public_url now)
  on_grants-Later o a (regenerate_call k expires token public_url now link) =
      let credential = create_credential vault token in
      hand_out-Later db credential public_url now _
        (replace_link-Later db o a k expires credential now link)
  on_grants-Later o a (expiration_call k expires now) =
      committed-Later db _ (update_expiration-Later db o a k expires now)
  on_grants-Later o a (enable_call k) = committed-Later db _ (enable-Later db o a k)
  on_grants-Later o a (disable_call k now) = committed-Later db _ (disable-Later db o a k now)
  on_grants-Later o a (delete_call k now) = committed-Later db _ (delete-Later db o a k now)

  on_groups-Later :
      (actor : Principal) (c : GroupCall)
      → GrantIds db.grants
      → Later (Only (group_act actor c)) db (on_groups db actor c)
  unfolding on_groups
  on_groups-Later a (create_group_call name type description k) ids =
      committed-Later db _ (Keeps.create-Later db a name type description k)
  on_groups-Later a (update_group_call k name description) ids =
      committed-Later db _ (Keeps.update-Later db a k name description)
  on_groups-Later a (enable_group_call k enabled) ids =
      committed-Later db _ (Keeps.set_enabled-Later db a k enabled)
  on_groups-Later a (archive_call k now) ids =
      committed-Later db _
        (Ensures-map _ (archive-closes db a k now ids) λ res kept. Ensures-ok res kept.0)
  on_groups-Later a (add_member_call k account now) ids =
      committed-Later db _ (Keeps.add_member-Later db a k account now)
  on_groups-Later a (remove_member_call k account now) ids = committed-Later db _ (
      Ensures-map _ (remove_member-closes db a k account now ids) λ res kept. Ensures-ok res kept.0)
  on_groups-Later a (leader_call k account leader) ids =
      committed-Later db _ (Keeps.set_leader-Later db a k account leader)
  on_groups-Later a (apply_call k requested applicant new_id) ids =
      committed-Later db _ (Keeps.create_application-Later db a k requested applicant new_id)
  on_groups-Later a (reject_call group k remark now) ids =
      committed-Later db _ (Keeps.reject_application-Later db a group k remark now)
  on_groups-Later a (models_call k models) ids =
      committed-Later db _ (Keeps.replace_models-Later db a k models)

  call-Later : (c : Call) → GrantIds db.grants → Later (Only (act_of c)) db (call vault db c)
  unfolding call
  call-Later (grant_call organization actor c) ids = on_grants-Later organization actor c
  call-Later (group_call actor c) ids = on_groups-Later actor c ids
  call-Later (redeem_call secret body refresh_token now new_id) ids =
      (redeem-Redeems vault.hash db secret body refresh_token now new_id).0

pub run_calls-Later :
    (vault : Vault) (db : GrantDb) (cs : List Call)
    → GrantIds db.grants
    → Later Whatever db (run_calls vault db cs)
unfolding run_calls
run_calls-Later vault db [] ids = Later-refl db
run_calls-Later vault db (c ∷ cs) ids =
    let one = call-Later vault db c ids in
    Later-trans db (call vault db c) (run_calls vault (call vault db c) cs)
      (Later-Whatever db (call vault db c) one)
      (run_calls-Later vault (call vault db c) cs (one.0 ids).0)

-- In a database where the identifiers of grants are distinct, a sequence of calls on grants, links and
-- groups, failing ones included, takes every grant that was there along the calls, in their order, each
-- by the steps of that call alone. A call that assigns groups may give a grant of its organization a
-- group, with a project, if it has no group; a redemption may bind it to a device from its own time on,
-- with ten minutes to try again, if it has no device and is neither disabled nor, at that time, expired;
-- a call on the expiry, the enabling, the disabling or the deletion of a grant may do that to the grant
-- that it names in its organization; archiving a group or removing a member may delete grants of the
-- group in the caller's organization. Other calls change no grant, and no call changes a grant that
-- is deleted.
pub run_calls-Along :
    (vault : Vault) (db : GrantDb) (cs : List Call) (k : ℕ) (g : Grant)
    → GrantIds db.grants
    → find_grant db k ≡ some g
    → (h : Grant) × (find_grant (run_calls vault db cs) k ≡ some h)
      × Along (map act_of cs) (view g) (view h)
unfolding find_grant run_calls
run_calls-Along vault db [] k g ids here = (g, here, end_along (view g))
run_calls-Along vault db (c ∷ cs) k g ids here =
    let one = (call-Later vault db c ids).0 ids in
    let next = one.1 k g here in
    let rest = run_calls-Along vault (call vault db c) cs k next.0 one.0 next.1 in
    (
      rest.0,
      rest.1,
      next_along (act_of c) (map act_of cs) (view g) (view next.0) (view rest.0) next.2 rest.2,
    )

-- In a database where the identifiers of grants are distinct, if a link is redeemed, then whatever
-- calls follow, another redemption of the same link that succeeds answers the same device.
pub redeem-once :
    (vault : Vault) (db : GrantDb) (cs : List Call) (secret : Text)
    (first second : Option DeviceBody) (token new_token : Text) (now later new_id other_id : ℕ)
    (a b : Credentials)
    → GrantIds db.grants
    → (redeem vault.hash db (some secret) first token now new_id).1 ≡ ok a
    → (redeem vault.hash
        (run_calls vault (redeem vault.hash db (some secret) first token now new_id).0 cs)
        (some secret)
        second
        new_token
        later
        other_id).1
      ≡ ok b
    → b.device_id ≡ a.device_id
redeem-once vault db cs secret first second token new_token now later new_id other_id a b ids h k =
    let one = redeem-Redeems vault.hash db secret first token now new_id in
    let middle = (redeem vault.hash db (some secret) first token now new_id).0 in
    let middle_ids = (one.0.0 ids).0 in
    let end = run_calls vault middle cs in
    let bound =
      Bound-Later middle end (vault.hash secret) a.device_id
        (run_calls-Later vault middle cs middle_ids) middle_ids (one.1 a h).0 in
    ((redeem-Redeems vault.hash end secret second new_token later other_id).1 b k).1 a.device_id
      bound
