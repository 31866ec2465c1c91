-- ===== src/Budget/Ledger.antt =====
-- packages/quota/src/group-budget.service.ts and project-budget.service.ts: the rows that the two budget
-- ledgers read and write, and the database of one transaction as one of them sees it. The ledgers have
-- tables of the same columns; the owner of a row is a group in one and a project in the other.
-- Identifiers and times are numbers, amounts are units of 0.00000001 CNY, and a table lists its newest
-- row first.
pub mod Store
pub mod Booking
pub mod Settle
pub mod Recovery
pub mod Balance
pub mod Funds
pub mod Commit
pub mod Retry
use Prim.Native.String.{String}
use ucli_server.Base.{ℕ, Bool, Option, List, true, false, some}

pub data Mode : Type 0 where
  whole monthly : Mode

pub data Kind : Type 0 where
  request limit_adjustment cost_adjustment : Kind

pub data Status : Type 0 where
  reserved settled released reconciliation_required : Status

pub data Credential : Type 0 where
  device api_key : Credential

pub data Billing : Type 0 where
  confirmed estimated unknown no_charge : Billing

pub data Role : Type 0 where
  platform_admin org_admin member : Role

pub record Principal : Type 0 where
  pub sub : ℕ
  pub organization_id : ℕ
  pub role : Role

pub data UnitType : Type 0 where
  department_unit project_unit region_unit : UnitType

pub data OrgType : Type 0 where
  executive functional regional legacy_project : OrgType

pub record Group : Type 0 where
  pub id : ℕ
  pub organization_id : ℕ
  pub organization_enabled : Bool
  pub enabled : Bool
  pub archived_at : Option ℕ
  pub type : UnitType
  pub org_type : OrgType
  pub budget_mode : Mode
  pub budget_timezone : String
  pub default_limit_cny : ℕ
  pub unlimited : Bool

pub record Member : Type 0 where
  pub organization_id : ℕ
  pub account_id : ℕ
  pub group_id : ℕ
  pub is_leader : Bool
  pub is_primary : Bool
  pub joined_at : ℕ
  pub removed_at : Option ℕ
  pub membership_active : Bool
  pub account_active : Bool

pub record EmployeeKey : Type 0 where
  pub id : ℕ
  pub organization_id : ℕ
  pub account_id : ℕ
  pub group_id : ℕ
  pub project_id : Option ℕ
  pub name : String
  pub secret_hash : String
  pub secret_hint : String
  pub secret_ciphertext : Option String
  pub secret_iv : Option String
  pub secret_tag : Option String
  pub created_by_id : ℕ
  pub created_at : ℕ
  pub revoked_at : Option ℕ
  pub deleted_at : Option ℕ
  pub disabled_at : Option ℕ
  pub expires_at : Option ℕ

pub record Period : Type 0 where
  pub id : ℕ
  pub organization_id : ℕ
  pub owner_id : ℕ
  pub period_key : String
  pub timezone : String
  pub unlimited : Bool
  pub limit_cny : ℕ
  pub spent_cny : ℕ
  pub reserved_cny : ℕ
  pub alerted_threshold : ℕ

pub record Route : Type 0 where
  pub id : ℕ
  pub cost_cny : Option ℕ
  pub billing_state : Billing

pub record Usage : Type 0 where
  pub request_id : String
  pub organization_id : ℕ
  pub account_id : ℕ
  pub group_id : Option ℕ
  pub budget_project_id : Option ℕ
  pub credential_type : Credential
  pub api_key_id : Option ℕ
  pub device_id : Option ℕ
  pub cost_cny : Option ℕ
  pub input_tokens : ℕ
  pub output_tokens : ℕ
  pub billing_state : Option Billing
  pub routes : Option (List Route)

pub record Attempt : Type 0 where
  pub attempt_id : Option String
  pub detail : ℕ

pub record Extension : Type 0 where
  pub attempt : Attempt
  pub amount : ℕ
  pub hash : ℕ

pub record QuotaActual : Type 0 where
  pub tokens : ℕ
  pub cost_micro : ℕ

pub record QuotaCorrection : Type 0 where
  pub operation_id : String
  pub version : ℕ
  pub cost_micro : ℕ

-- The JSON document of an entry. `usage` is `request.usage`; only a project's entry has a region.
pub record Snapshot : Type 0 where
  pub usage : Option Usage
  pub region_id : Option ℕ
  pub initial_estimate_cny : ℕ
  pub reservation_fingerprint : Option ℕ
  pub operation_fingerprint : Option ℕ
  pub settlement_fingerprint : Option ℕ
  pub hold_fingerprint : Option ℕ
  pub extensions : List Extension
  pub dispatch_intents : List Attempt
  pub manual_final : Bool
  pub exceeded : Bool
  pub redis_actual : Option QuotaActual
  pub redis_correction : Option QuotaCorrection
  pub redis_synced : Option Bool

pub record Entry : Type 0 where
  pub id : ℕ
  pub organization_id : ℕ
  pub owner_id : ℕ
  pub period_id : ℕ
  pub request_id : Option String
  pub operation_id : String
  pub kind : Kind
  pub status : Status
  pub account_id : Option ℕ
  pub credential_type : Option Credential
  pub credential_id : Option ℕ
  pub reserved_cny : ℕ
  pub settled_cny : ℕ
  pub dispatched_at : Option ℕ
  pub lease_until : Option ℕ
  pub reason : Option String
  pub actor_account_id : Option ℕ
  pub snapshot : Snapshot

pub data ApplicationStatus : Type 0 where
  registered linked rejected : ApplicationStatus

pub record Application : Type 0 where
  pub id : ℕ
  pub organization_id : ℕ
  pub owner_id : ℕ
  pub applicant_account_id : ℕ
  pub requested_cny : ℕ
  pub status : ApplicationStatus
  pub approved_cny : Option ℕ
  pub decided_by_id : Option ℕ
  pub decided_at : Option ℕ
  pub decision_note : Option String
  pub linked_entry_id : Option ℕ
  pub self_approved : Bool

pub data ProjectStatus : Type 0 where
  active suspended archived : ProjectStatus

pub data ProjectCategory : Type 0 where
  business department : ProjectCategory

pub record Project : Type 0 where
  pub id : ℕ
  pub organization_id : ℕ
  pub region_id : ℕ
  pub status : ProjectStatus
  pub category : ProjectCategory
  pub budget_mode : Mode
  pub budget_timezone : String

pub data ProjectRole : Type 0 where
  owner contributor viewer : ProjectRole

pub record ProjectMember : Type 0 where
  pub project_id : ℕ
  pub account_id : ℕ
  pub role : ProjectRole
  pub membership_active : Bool
  pub account_active : Bool

pub record Membership : Type 0 where
  pub organization_id : ℕ
  pub account_id : ℕ
  pub active : Bool

-- A device with its grant.
pub record Device : Type 0 where
  pub id : ℕ
  pub organization_id : ℕ
  pub account_id : ℕ
  pub revoked_at : Option ℕ
  pub grant_project_id : Option ℕ
  pub grant_group_id : Option ℕ
  pub grant_disabled_at : Option ℕ
  pub grant_deleted_at : Option ℕ
  pub grant_expires_at : Option ℕ
  pub has_grant : Bool

-- The actions of the audit log on an employee's key.
pub data KeyAction : Type 0 where
  key_created key_updated key_enabled key_disabled key_revoked key_deleted key_revealed : KeyAction
  key_self_revealed : KeyAction

pub data Audit : Type 0 where
  threshold_reached : ℕ → ℕ → ℕ → Audit
  adjusted : Kind → ℕ → ℕ → Audit
  application_registered application_rejected : ℕ → ℕ → Audit
  key_changed : KeyAction → ℕ → ℕ → Audit

pub record Db : Type 0 where
  pub groups : List Group
  pub members : List Member
  pub keys : List EmployeeKey
  pub projects : List Project
  pub project_members : List ProjectMember
  pub memberships : List Membership
  pub devices : List Device
  pub periods : List Period
  pub entries : List Entry
  pub usage_logs : List Usage
  pub applications : List Application
  pub audits : List Audit

-- `BudgetReservation`.
pub record Reservation : Type 0 where
  pub id : ℕ
  pub request_id : Option String
  pub period_id : ℕ
  pub owner_id : ℕ
  pub reserved_cny : ℕ

pub record Identity : Type 0 where
  pub sub : ℕ
  pub organization_id : ℕ
  pub group_id : ℕ
  pub credential_type : Credential
  pub api_key_id : Option ℕ
  pub device_id : Option ℕ

-- The tests on a status.
abbrev pub is_reserved : Status → Bool
is_reserved reserved = true
is_reserved _ = false

abbrev pub is_settled : Status → Bool
is_settled settled = true
is_settled _ = false

abbrev pub is_released : Status → Bool
is_released released = true
is_released _ = false

abbrev pub is_reconciling : Status → Bool
is_reconciling reconciliation_required = true
is_reconciling _ = false

abbrev pub is_request : Kind → Bool
is_request request = true
is_request _ = false

abbrev pub is_admin : Role → Bool
is_admin member = false
is_admin _ = true

abbrev pub same_credential : Option Credential → Credential → Bool
same_credential (some device) device = true
same_credential (some api_key) api_key = true
same_credential _ _ = false

abbrev pub is_api_key : Credential → Bool
is_api_key api_key = true
is_api_key device = false
