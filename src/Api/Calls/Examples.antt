-- ===== src/Api/Calls/Examples.antt =====
-- Runs of apps/api/src/device-grants.service.ts and usage-groups.service.ts: a department with one
-- member, to whom an administrator grants a device.
use ucli_server.Base.{ℕ, ◌≡◌, refl, true, false, Option, none, some, List, [], ◌∷◌, ◌≢◌}
use ucli_server.Base.Text.{codes}
use ucli_server.Budget.Result.{ok, err, coded, link_consumed, ◌>>=◌}
use ucli_server.Budget.Ledger.{
  Db, Group, Member, Principal, Identity, Reservation, monthly, functional, department_unit,
  platform_admin, member, api_key, Role,
}
use ucli_server.Budget.Ledger as Ledger
use ucli_server.Budget.Ledger.Store.{Calendar, Fingerprint}
use ucli_server.Budget.Group.Reserve.{ReserveInput, reserve}
use ucli_server.Api.Keys.{absent, null}
use ucli_server.Api.Grants.{
  Text, GrantDb, Grant, Link, grant_created, link_created, group_changed, group_archived,
}
use ucli_server.Api.Grants.Status.{
  is_past, available_link, available, bound, derive_device_grant_status,
}
use ucli_server.Api.Grants.Store.{find_grant, find_link, find_device, has_token}
use ucli_server.Api.Grants.Issue.{Vault, CreateInput, Handed, create, create_credential}
use ucli_server.Api.Grants.Redeem.{
  Credentials, DeviceBody, DeviceInput, Preview, preview, redeem, validate_redeem, is_installed,
}
use ucli_server.Api.Grants.Life.{view, Along, disable_act, enable_act, redeem_act, delete_act}
use ucli_server.Api.Grants.Serve.{Room, create-redeem}
use ucli_server.Api.Grants.Change.{enable, disable, status_where}
use ucli_server.Api.Grants.Filters.{same_status, status_where-status}
use ucli_server.Api.Groups.{add_member}
use ucli_server.Api.Groups.Revoke.{archive}
use ucli_server.Api.Calls.{
  Call, run_calls, grant_call, group_call, redeem_call, disable_call, enable_call, delete_call,
  add_member_call,
}
use ucli_server.Api.Calls.History.{run_calls-Along, redeem-once}
use ucli_server.Api.Calls.Refusal.{archive-refuses}

abbrev calendar : Calendar
calendar zone at = some ("2026", "07")

abbrev fingerprint : Fingerprint
fingerprint payload = 0

abbrev plain : Vault
plain = record { hash = λ t. t; hint = λ t. []; encrypt = λ t. t; decrypt = λ t. some t }

abbrev admin : Principal
admin = record { sub = 2; organization_id = 5; role = platform_admin }

abbrev office : Group
office = record {
  id = 1;
  organization_id = 5;
  organization_enabled = true;
  enabled = true;
  archived_at = none;
  type = department_unit;
  org_type = functional;
  budget_mode = monthly;
  budget_timezone = "Asia/Shanghai";
  default_limit_cny = 0;
  unlimited = true;
}

abbrev clerk : Member
clerk = record {
  organization_id = 5;
  account_id = 9;
  group_id = 1;
  is_leader = false;
  is_primary = true;
  joined_at = 0;
  removed_at = none;
  membership_active = true;
  account_active = true;
}

abbrev directory : Db
directory = record {
  groups = office ∷ [];
  members = clerk ∷ [];
  keys = [];
  projects = [];
  project_members = [];
  memberships = [];
  devices = [];
  periods = [];
  entries = [];
  usage_logs = [];
  applications = [];
  audits = [];
}

abbrev start : GrantDb
start = record {
  directory = directory;
  organizations = (record { id = 5; enabled = true; require_device_group = true }) ∷ [];
  accounts = (record { id = 9; is_active = true; token_version = 1 }) ∷ [];
  memberships =
      (record { organization_id = 5; account_id = 9; role = member; is_active = true }) ∷ [];
  grants = [];
  links = [];
  devices = [];
  group_texts = [];
  public_models = [];
  model_access = [];
  audits = [];
}

abbrev secret : Text
secret = codes "0123456789abcdef0123456789abcdef"

abbrev laptop : DeviceInput
laptop = record {
  installation_id = codes "0b0e4f5e-1111-4222-8333-444455556666";
  name = codes " Laptop";
  platform = codes "windows";
  client_version = codes "1.0";
}

abbrev body : Option DeviceBody
body = some (record {
  installation_id = some laptop.installation_id;
  name = some laptop.name;
  platform = some laptop.platform;
  client_version = some laptop.client_version;
})

abbrev in_office : CreateInput
in_office = record {
  group_id = some 1;
  project_id = none;
  expires_at = null;
  link_expires_at = absent;
}

abbrev link : Link
link = record {
  id = 30;
  device_grant_id = 20;
  secret_hash = secret;
  secret_encrypted = some secret;
  secret_hint = [];
  expires_at = some 604800100;
  revoked_at = none;
  consumed_at = none;
  created_by_id = 2;
  created_at = 100;
}

abbrev handed : Handed
handed = record {
  grant_id = 20;
  current_link = record {
    id = 30;
    secret_hint = [];
    status = available_link;
    expires_at = some 604800100;
    created_at = 100;
  };
  origin = codes "https://a.b";
  secret = secret;
}

abbrev grant : Grant
grant = record {
  id = 20;
  organization_id = 5;
  account_id = 9;
  group_id = some 1;
  project_id = none;
  expires_at = none;
  disabled_at = none;
  deleted_at = none;
  bound_at = none;
  redeem_retry_until = none;
  device_id = none;
  created_by_id = 2;
}

abbrev with_grant : GrantDb
with_grant = record start {
  grants = grant ∷ [];
  links = link ∷ [];
  audits =
      (record {
        actor_account_id = 2;
        organization_id = 5;
        action = grant_created;
        resource_id = 20;
      })
      ∷ (record {
        actor_account_id = 2;
        organization_id = 5;
        action = link_created 20;
        resource_id = 30;
      })
      ∷ [];
}

created :
    create start 5 2 9 in_office
      (create_credential plain secret)
      (some (codes "https://a.b"))
      100
      20
      30
    ≡ ok (handed, with_grant)
unfolding create ◌>>=◌ create_credential
created = refl

valid : validate_redeem (some secret) body ≡ ok (secret, laptop)
unfolding validate_redeem ◌>>=◌
valid = refl

room : Room plain.hash with_grant laptop (codes "r") 50
unfolding find_device is_installed has_token
room = record { no_device = refl; no_token = refl; no_installation = refl }

link_valid : is_past handed.current_link.expires_at 200 ≡ false
unfolding is_past
link_valid = refl

grant_valid : (g : Grant) → find_grant with_grant 20 ≡ some g → is_past g.expires_at 200 ≡ false
unfolding is_past find_grant
grant_valid g h = let same : grant ≡ g = cc in rw (← same) refl

create-redeem_example :
    (p : Preview) × (c : Credentials) × (preview plain.hash with_grant (some secret) 200 ≡ ok p)
    × (p.grant_status ≡ available)
    × ((redeem plain.hash with_grant (some secret) body (codes "r") 200 50).1 ≡ ok c)
    × (c.device_id ≡ 50)
    × (c.sub ≡ 9)
    × (c.organization_id ≡ 5)
create-redeem_example =
    create-redeem plain start with_grant 5 2 9 in_office secret (codes "r")
      (some (codes "https://a.b")) 100 20 30 handed body laptop 200 50 created valid link_valid
      grant_valid room

-- The device asks again, after an administrator disabled and enabled the grant.
abbrev answer : Text → ℕ → Credentials
answer token now = record {
  sub = 9;
  organization_id = 5;
  device_id = 50;
  role = member;
  token_version = 1;
  refresh_token = token;
  expires_in = 900;
  expires_at = none;
  server_time = now;
}

abbrev changes : List Call
changes =
    grant_call 5 2 (disable_call 20 300)
    ∷ group_call admin (add_member_call 1 9 310)
    ∷ grant_call 5 2 (enable_call 20)
    ∷ []

first_answer :
    (redeem plain.hash with_grant (some secret) body (codes "r") 200 50).1
    ≡ ok (answer (codes "r") 200)
unfolding redeem ◌>>=◌
first_answer = refl

second_answer :
    (redeem plain.hash
      (run_calls plain
        (redeem plain.hash with_grant (some secret) body (codes "r") 200 50).0
        changes)
      (some secret)
      body
      (codes "q")
      400
      51).1
    ≡ ok (answer (codes "q") 400)
unfolding redeem run_calls ◌>>=◌ enable add_member disable
second_answer = refl

redeem-once_example : (answer (codes "q") 400).device_id ≡ (answer (codes "r") 200).device_id
redeem-once_example =
    redeem-once plain with_grant changes secret body body (codes "r") (codes "q") 200 400 50 51
      (answer (codes "r") 200) (answer (codes "q") 400) (refl, tt) first_answer second_answer

-- Written in capitals, the same installation is not known again: the column keeps it in small letters.
abbrev capitals : Option DeviceBody
capitals = some (record {
  installation_id = some (codes "0B0E4F5E-1111-4222-8333-444455556666");
  name = some laptop.name;
  platform = some laptop.platform;
  client_version = some laptop.client_version;
})

capitals_test :
    (redeem plain.hash
      (redeem plain.hash with_grant (some secret) capitals (codes "r") 200 50).0
      (some secret)
      capitals
      (codes "q")
      300
      51).1
    ≡ err (coded link_consumed)
unfolding redeem ◌>>=◌
capitals_test = refl

grant_there : find_grant with_grant 20 ≡ some grant
unfolding find_grant
grant_there = refl

-- A disabled grant is enabled before a device takes it, and is deleted afterwards.
abbrev calls : List Call
calls =
    grant_call 5 2 (disable_call 20 150)
    ∷ grant_call 5 2 (enable_call 20)
    ∷ redeem_call secret body (codes "r") 200 50
    ∷ grant_call 5 2 (delete_call 20 300)
    ∷ []

run_calls-Along_example :
    (h : Grant) × (find_grant (run_calls plain with_grant calls) 20 ≡ some h)
    × Along
        (disable_act 5 20 150 ∷ enable_act 5 20 ∷ redeem_act 200 ∷ delete_act 5 20 300 ∷ [])
        (view grant)
        (view h)
run_calls-Along_example = run_calls-Along plain with_grant calls 20 grant (refl, tt) grant_there

abbrev closed_office : Group
closed_office = record office { enabled = false; archived_at = some 150 }

abbrev closed : GrantDb
closed = record with_grant {
  directory = record directory { groups = closed_office ∷ [] };
  grants = (record grant { deleted_at = some 150 }) ∷ [];
  links = (record link { revoked_at = some 150; secret_encrypted = none }) ∷ [];
  audits =
      (record {
        actor_account_id = 2;
        organization_id = 5;
        action = group_changed group_archived;
        resource_id = 1;
      })
      ∷ with_grant.audits;
}

archived : archive with_grant admin 1 150 ≡ ok (closed_office, closed)
unfolding archive ◌>>=◌
archived = refl

abbrev request : ReserveInput
request = record {
  request_id = "r";
  identity = record {
    sub = 9;
    organization_id = 5;
    group_id = 1;
    credential_type = Ledger.device;
    api_key_id = none;
    device_id = some 50;
  };
  started_at = 400;
  estimate_cny = codes "1";
  usage = none;
}

link_there : find_link with_grant (plain.hash secret) ≡ some link
unfolding find_link
link_there = refl

archive-refuses_example :
    (reserve calendar fingerprint (run_calls plain closed changes).directory request 400 60 70
      ≢ ok (
        record { id = 60; request_id = some "r"; period_id = 70; owner_id = 1; reserved_cny = 0 },
        directory,
      ))
    × ((redeem plain.hash (run_calls plain closed changes) (some secret) body (codes "r") 400 50).1
        ≢ ok (answer (codes "r") 400))
archive-refuses_example =
    archive-refuses plain calendar fingerprint with_grant closed admin 1 150 closed_office changes
      request 60 70
      (
        record { id = 60; request_id = some "r"; period_id = 70; owner_id = 1; reserved_cny = 0 },
        directory,
      )
      secret link grant body (codes "r") 400 50 (answer (codes "r") 400) (refl, tt) archived refl
      link_there grant_there refl refl

-- An expired grant that has a device.
abbrev late_grant : Grant
late_grant = record grant { device_id = some 50; expires_at = some 190 }

status_where-status_example :
    status_where bound 200 late_grant
    ≡ same_status bound (derive_device_grant_status late_grant 200)
status_where-status_example = status_where-status bound late_grant 200
