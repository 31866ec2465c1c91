-- ===== src/Api/Keys/Listing.antt =====
-- The queries of apps/api/src/employee-keys.service.ts: which keys, groups and projects a caller sees.
-- Paging and the figures on usage are left out; the test of a text that contains another, in any case,
-- is a parameter.
use ucli_server.Base.{
  ℕ, Bool, true, false, ◌&&◌, ◌||◌, Option, none, some, List, String, ltb, leb, ◌==◌, if◌then◌else◌,
  is_none, is_some, or_else, arith, ◌≡◌,
}
use ucli_server.Base.Lists.{any, filter}
use ucli_server.Budget.Ledger.{Db, EmployeeKey, Group, Project, Member}
use ucli_server.Budget.Ledger.Store.{find_group}
use ucli_server.Budget.Project.Rules.{is_active}
use ucli_server.Budget.Result.{Result, ok, require, ◌>>◌, forbidden, not_found}
use ucli_server.Api.Keys.{Session, assert_admin, assert_web_session, is_area, key_identity}
use ucli_server.Api.Keys.Reveal.{Account}
use ucli_server.Budget.Group.Reserve.{is_live_key}

pub data KeyStatus : Type 0 where
  active_keys disabled_keys expired_keys revoked_keys : KeyStatus

-- `EmployeeKeyQueryDto`.
pub record KeyQuery : Type 0 where
  pub account_id : Option ℕ
  pub group_id : Option ℕ
  pub project_id : Option ℕ
  pub status : Option KeyStatus
  pub text : Option String

unfoldable pub has_status : KeyStatus → ℕ → EmployeeKey → Bool
has_status revoked_keys now k = is_some k.revoked_at
has_status disabled_keys now k = is_none k.revoked_at && is_some k.disabled_at
has_status expired_keys now k =
    is_none k.revoked_at
    && is_none k.disabled_at
    && (elim k.expires_at [ none ↦ false | some t ↦ leb t now ])
has_status active_keys now k =
    is_none k.revoked_at
    && is_none k.disabled_at
    && (elim k.expires_at [ none ↦ true | some t ↦ ltb now t ])

abbrev pub filters {ℓ} : {A : Type ℓ} → Option A → (A → Bool) → Bool
filters none p = true
filters (some a) p = p a

-- The search in the texts of a key, and of its account where an administrator lists.
unfoldable pub has_text :
    (String → String → Bool) → List Account → Bool → EmployeeKey → String → Bool
has_text contains accounts managed k text =
    contains k.name text
    || contains k.secret_hint text
    || (managed
        && any
            (λ a.
              (a.id == k.account_id)
              && (contains a.display_name text
                  || (elim a.email [ none ↦ false | some e ↦ contains e text ])))
            accounts)

-- `listWhere`.
unfoldable pub list_where :
    (String → String → Bool)
    → List Account
    → ℕ
    → Option ℕ
    → KeyQuery
    → Bool
    → ℕ
    → EmployeeKey
    → Bool
unfolding has_status has_text
list_where contains accounts organization account query managed now k =
    (k.organization_id == organization)
    && is_none k.deleted_at
    && filters account (λ a. k.account_id == a)
    && filters query.group_id (λ g. k.group_id == g)
    && filters query.project_id (λ r. elim k.project_id [ none ↦ false | some o ↦ o == r ])
    && filters query.status (λ s. has_status s now k)
    && filters query.text (has_text contains accounts managed k)

module _ (contains : String → String → Bool) (accounts : List Account) where
  unfoldable pub list_for : Db → ℕ → Option ℕ → KeyQuery → Bool → ℕ → List EmployeeKey
  unfolding list_where
  list_for db organization account query managed now =
      filter (list_where contains accounts organization account query managed now) db.keys

  -- `list`.
  unfoldable pub list_keys : Db → Session → ℕ → KeyQuery → ℕ → Result (List EmployeeKey)
  unfolding assert_admin list_for
  list_keys db actor account query now = do
    assert_admin actor
    require
        (any (λ m. (m.organization_id == actor.organization_id) && (m.account_id == account))
          db.memberships)
        not_found
    ok (list_for db actor.organization_id (some account) query false now)

  -- `listMine`.
  unfoldable pub list_mine : Db → Session → KeyQuery → ℕ → Result (List EmployeeKey)
  unfolding assert_web_session list_for
  list_mine db actor query now = do
    assert_web_session actor
    require (elim query.account_id [ none ↦ true | some a ↦ a == actor.sub ]) forbidden
    ok (list_for db actor.organization_id (some actor.sub) query false now)

  -- `listManaged`.
  unfoldable pub list_managed : Db → Session → KeyQuery → ℕ → Result (List EmployeeKey)
  unfolding assert_admin list_for
  list_managed db actor query now = do
    assert_admin actor
    ok (list_for db actor.organization_id query.account_id query true now)

-- Who asks: an administrator for an account, or a person for themselves.
unfoldable pub assert_asker : Session → Option ℕ → Result (Unit {0})
unfolding assert_admin assert_web_session
assert_asker actor account =
    if is_some account then assert_admin actor else assert_web_session actor

abbrev pub is_current_member : ℕ → ℕ → Member → Bool
is_current_member group account m =
    (m.group_id == group)
    && (m.account_id == account)
    && is_none m.removed_at
    && m.membership_active
    && m.account_active

-- `groups`.
unfoldable pub groups : Db → Session → Option ℕ → Result (List Group)
unfolding assert_asker
groups db actor account = do
  assert_asker actor account
  ok (
      filter
        (λ g.
          (g.organization_id == actor.organization_id)
          && g.enabled
          && is_none g.archived_at
          && any (is_current_member g.id (or_else account actor.sub)) db.members)
        db.groups)

-- The condition of `projectOptions` on the region.
unfoldable pub is_option_region : Db → ℕ → Option Group → Bool
is_option_region db account none = false
is_option_region db account (some g) =
    is_area g.org_type
    && g.enabled
    && is_none g.archived_at
    && any (is_current_member g.id account) db.members

-- `projectOptions`.
unfoldable pub project_options : Db → Session → Option ℕ → ℕ → Result (List Project)
unfolding assert_asker is_option_region find_group
project_options db actor account region = do
  assert_asker actor account
  ok (
      filter
        (λ r.
          (r.organization_id == actor.organization_id)
          && (r.region_id == region)
          && is_active r.status
          && is_option_region db (or_else account actor.sub) (find_group db r.region_id))
        db.projects)

-- A key is listed as active and not deleted exactly if the budget service of a group takes it as the
-- credential of a request that its owner makes with it.
pub has_status-live :
    (k : EmployeeKey) (now : ℕ)
    → (is_none k.deleted_at && has_status active_keys now k) ≡ is_live_key (key_identity k) now k
unfolding has_status is_live_key key_identity
has_status-live k now = ground arith
