-- ===== src/Api/Grants.antt =====
-- apps/api/src/device-grants.service.ts and device-grant-links.service.ts: an administrator grants an
-- employee a device, hands out a link, and the device that redeems the link is bound to the grant. The
-- rows of `device_grants`, `device_grant_links` and of the tables they refer to; groups, members, keys
-- and projects are those of the budget ledgers' database. A table lists its newest row first, links by
-- their `issuance_order`. Identifiers and times are numbers, texts are their code points, and the hash
-- and the encryption of a token are parameters, as Node's crypto makes them.
pub mod Status
pub mod Store
pub mod Issue
pub mod Assign
pub mod Redeem
pub mod Change
pub mod Life
pub mod Rows
pub mod Keeps
pub mod Grouping
pub mod Binding
pub mod Once
pub mod Fresh
pub mod Serve
pub mod Filters
use ucli_server.Base.{ℕ, Bool, Option, List}
use ucli_server.Budget.Result.{Error}
use ucli_server.Budget.Ledger.{Role}
use ucli_server.Budget.Ledger as Ledger

abbrev pub Text : Type 0
Text = List ℕ

pub record Organization : Type 0 where
  pub id : ℕ
  pub enabled : Bool
  pub require_device_group : Bool

pub record Account : Type 0 where
  pub id : ℕ
  pub is_active : Bool
  pub token_version : ℕ

pub record Membership : Type 0 where
  pub organization_id : ℕ
  pub account_id : ℕ
  pub role : Role
  pub is_active : Bool

pub record Grant : Type 0 where
  pub id : ℕ
  pub organization_id : ℕ
  pub account_id : ℕ
  pub group_id : Option ℕ
  pub project_id : Option ℕ
  pub expires_at : Option ℕ
  pub disabled_at : Option ℕ
  pub deleted_at : Option ℕ
  pub bound_at : Option ℕ
  pub redeem_retry_until : Option ℕ
  pub device_id : Option ℕ
  pub created_by_id : ℕ

pub record Link : Type 0 where
  pub id : ℕ
  pub device_grant_id : ℕ
  pub secret_hash : Text
  pub secret_encrypted : Option Text
  pub secret_hint : Text
  pub expires_at : Option ℕ
  pub revoked_at : Option ℕ
  pub consumed_at : Option ℕ
  pub created_by_id : ℕ
  pub created_at : ℕ

pub record Device : Type 0 where
  pub id : ℕ
  pub organization_id : ℕ
  pub account_id : ℕ
  pub name : Text
  pub installation_id : Option Text
  pub platform : Option Text
  pub client_version : Option Text
  pub refresh_token_hash : Text
  pub revoked_at : Option ℕ
  pub last_seen_at : Option ℕ

-- The columns of a group that are only shown.
pub record GroupText : Type 0 where
  pub group_id : ℕ
  pub name : Text
  pub description : Text

pub record PublicModel : Type 0 where
  pub id : ℕ
  pub deleted_at : Option ℕ

pub record ModelAccess : Type 0 where
  pub organization_id : ℕ
  pub group_id : ℕ
  pub public_model_id : ℕ

-- What was done to a group.
pub data GroupAction : Type 0 where
  group_created group_updated group_enabled group_disabled group_archived : GroupAction
  member_added member_removed leader_set leader_unset : ℕ → GroupAction
  application_registered : GroupAction
  application_rejected : ℕ → GroupAction
  models_replaced : List ℕ → GroupAction

-- What an audit row says was done. A failed redemption keeps the error, of which the source writes the
-- code.
pub data Action : Type 0 where
  grant_created grant_updated grant_enabled disabled_grant deleted_grant : Action
  group_assigned : ℕ → ℕ → Action
  requirement_changed : Bool → Bool → Action
  link_created : ℕ → Action
  link_regenerated : ℕ → Option ℕ → Action
  link_viewed : Action
  first_bind idempotent_retry : ℕ → Action
  redeem_failed : Error → Action
  group_changed : GroupAction → Action

pub record Audit : Type 0 where
  pub actor_account_id : ℕ
  pub organization_id : ℕ
  pub action : Action
  pub resource_id : ℕ

pub record GrantDb : Type 0 where
  pub directory : Ledger.Db
  pub organizations : List Organization
  pub accounts : List Account
  pub memberships : List Membership
  pub grants : List Grant
  pub links : List Link
  pub devices : List Device
  pub group_texts : List GroupText
  pub public_models : List PublicModel
  pub model_access : List ModelAccess
  pub audits : List Audit
