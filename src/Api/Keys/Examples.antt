-- ===== src/Api/Keys/Examples.antt =====
-- Runs of apps/api/src/employee-keys.service.ts: a project of one region with one member, whose key an
-- administrator creates.
use ucli_server.Base.{
  ℕ, ◌≡◌, refl, true, false, Option, none, some, List, [], ◌∷◌, ◌+◌, ◌≤◌, ◌≢◌, arith, ◌&&◌, ◌<◌,
}
use ucli_server.Base.Table.{All}
use ucli_server.Budget.Result.{ok, ◌>>=◌}
use ucli_server.Budget.Ledger.{
  Group, Project, ProjectMember, EmployeeKey, Db, monthly, api_key, regional, region_unit, active,
  business, contributor, platform_admin, member, key_revealed,
}
use ucli_server.Budget.Ledger.Store.{Calendar, Fingerprint, same_text}
use ucli_server.Budget.Ledger.Commit.{committed}
use ucli_server.Budget.Group.Reserve.{ReserveInput, reserve, is_live_key}
use ucli_server.Api.Keys.{
  Session, CreateInput, NewSecret, absent, find_key, revoke, key_identity, audit_key, create,
}
use ucli_server.Api.Keys.Reveal.{
  reveal_own, Vault, Attempts, attempts_of, reveal_begin, reveal_finish, password_is_right, reveal,
  text_of,
}
use ucli_server.Api.Keys.Rows.{HasIds, Rows}
use ucli_server.Api.Keys.Lifecycle.{
  Call, Evolves, Spares, call, run_calls, create_call, enable_call, revoke_call, delete_call,
}
use ucli_server.Api.Keys.History.{call-Spares, run_calls-Evolves}
use ucli_server.Api.Keys.Refusal.{revoke-refuses}
use ucli_server.Api.Keys.Throttle.{
  Guess, IsWrong, password_checks, allowance, password_checks-allowance,
}
use ucli_server.Api.Keys.Listing.{has_status, has_status-live, active_keys}
use ucli_server.Api.Keys.RoundTrip.{create-reveal}

abbrev calendar : Calendar
calendar zone at = some ("2026", "07")

abbrev fingerprint : Fingerprint
fingerprint payload = 0

abbrev admin : Session
admin = record { sub = 2; organization_id = 5; device_id = none; role = platform_admin }

abbrev employee : Session
employee = record { sub = 9; organization_id = 5; device_id = none; role = member }

abbrev region : Group
region = record {
  id = 1;
  organization_id = 5;
  organization_enabled = true;
  enabled = true;
  archived_at = none;
  type = region_unit;
  org_type = regional;
  budget_mode = monthly;
  budget_timezone = "Asia/Shanghai";
  default_limit_cny = 1000000000;
  unlimited = false;
}

abbrev project : Project
project = record {
  id = 6;
  organization_id = 5;
  region_id = 1;
  status = active;
  category = business;
  budget_mode = monthly;
  budget_timezone = "Asia/Shanghai";
}

abbrev worker : ProjectMember
worker = record {
  project_id = 6;
  account_id = 9;
  role = contributor;
  membership_active = true;
  account_active = true;
}

abbrev db : Db
db = record {
  groups = region ∷ [];
  members =
      (record {
        organization_id = 5;
        account_id = 9;
        group_id = 1;
        is_leader = false;
        is_primary = true;
        joined_at = 0;
        removed_at = none;
        membership_active = true;
        account_active = true;
      })
      ∷ [];
  keys = [];
  projects = project ∷ [];
  project_members = worker ∷ [];
  memberships = [];
  devices = [];
  periods = [];
  entries = [];
  usage_logs = [];
  applications = [];
  audits = [];
}

abbrev secret : NewSecret
secret = record { secret = "s"; hash = "h"; hint = "s"; ciphertext = "c"; iv = "i"; tag = "t" }

abbrev new_key : CreateInput
new_key = record { has_group_id = false; project_id = some 6; name = "work"; expires_at = absent }

abbrev key : EmployeeKey
key = record {
  id = 40;
  organization_id = 5;
  account_id = 9;
  group_id = 1;
  project_id = some 6;
  name = "work";
  secret_hash = "h";
  secret_hint = "s";
  secret_ciphertext = some "c";
  secret_iv = some "i";
  secret_tag = some "t";
  created_by_id = 2;
  created_at = 100;
  revoked_at = none;
  deleted_at = none;
  disabled_at = none;
  expires_at = none;
}

abbrev with_key : Db
with_key = run_calls db ((admin, create_call 9 new_key secret 100 40) ∷ [])

create_test : find_key with_key 40 ≡ some key
unfolding run_calls find_key ◌>>=◌
create_test = refl

with_key-HasIds : HasIds with_key
unfolding run_calls ◌>>=◌
with_key-HasIds = (refl, tt)

-- The owner revokes the key; an administrator does not enable it again.
abbrev calls : List (Session × Call)
calls =
    (employee, revoke_call 40 true 200)
    ∷ (admin, enable_call 40 true 300)
    ∷ (admin, delete_call 40 400)
    ∷ []

calls_test :
    find_key (run_calls with_key calls) 40
    ≡ some (record key { revoked_at = some 200; deleted_at = some 400 })
unfolding run_calls find_key ◌>>=◌
calls_test = refl

run_calls-Evolves_example : Rows Evolves with_key (run_calls with_key calls)
run_calls-Evolves_example = run_calls-Evolves with_key calls with_key-HasIds

abbrev stranger : Session
stranger = record employee { sub = 8 }

call-Spares_example :
    Rows
      (Spares stranger)
      with_key
      (committed with_key (call with_key stranger (revoke_call 40 true 200)))
call-Spares_example = call-Spares with_key stranger (revoke_call 40 true 200) with_key-HasIds

abbrev request : ReserveInput
request = record {
  request_id = "r";
  identity = key_identity key;
  started_at = 1000;
  estimate_cny = b'1' ∷ [];
  usage = none;
}

abbrev revoked_key : EmployeeKey
revoked_key = record key { revoked_at = some 200 }

abbrev after_revoke : Db
after_revoke = run_calls with_key ((employee, revoke_call 40 true 200) ∷ [])

revoke_test : revoke with_key employee 40 true 200 ≡ ok (revoked_key, after_revoke)
unfolding run_calls ◌>>=◌
revoke_test = refl

request_kind : request.identity.credential_type ≡ api_key
unfolding key_identity
request_kind = refl

request_key : request.identity.api_key_id ≡ some 40
unfolding key_identity
request_key = refl

revoke-refuses_example :
    reserve calendar fingerprint
      (run_calls after_revoke ((admin, enable_call 40 true 300) ∷ []))
      request
      400
      20
      30
    ≢ ok (
      record { id = 20; request_id = some "r"; period_id = 30; owner_id = 1; reserved_cny = 1 },
      after_revoke,
    )
revoke-refuses_example =
    revoke-refuses calendar fingerprint with_key employee 40 true 200 revoked_key after_revoke
      ((admin, enable_call 40 true 300) ∷ []) request 400 20 30
      (
        record { id = 20; request_id = some "r"; period_id = 30; owner_id = 1; reserved_cny = 1 },
        after_revoke,
      )
      with_key-HasIds revoke_test request_kind request_key

has_status-live_example :
    (true && has_status active_keys 500 key) ≡ is_live_key (key_identity key) 500 key
has_status-live_example = has_status-live key 500

abbrev vault : Vault
vault = record {
  verify = λ hash password. same_text (some hash) (some password);
  decrypt = λ box. some box.ciphertext;
  accounts =
      (record {
        id = 9;
        is_active = true;
        password_hash = some "right";
        display_name = "A";
        email = none;
      })
      ∷ [];
}

abbrev guess : ℕ → Guess
guess n = record { key = 40; password = "wrong"; now = 1000 + n }

abbrev guesses : List Guess
guesses = guess 0 ∷ guess 1 ∷ guess 2 ∷ guess 3 ∷ guess 4 ∷ guess 5 ∷ guess 6 ∷ []

guesses_test : password_checks vault with_key [] employee guesses ≡ 5
unfolding password_checks ◌>>=◌
guesses_test = refl

guess-IsWrong : (n : ℕ) → n < 10 → IsWrong vault employee 1000 (guess n)
unfolding password_is_right
guess-IsWrong n h = (refl, omega arith, omega arith)

guesses-IsWrong : All (IsWrong vault employee 1000) guesses
guesses-IsWrong = (
  guess-IsWrong 0 (omega arith),
  (
    guess-IsWrong 1 (omega arith),
    (
      guess-IsWrong 2 (omega arith),
      (
        guess-IsWrong 3 (omega arith),
        (
          guess-IsWrong 4 (omega arith),
          (guess-IsWrong 5 (omega arith), (guess-IsWrong 6 (omega arith), tt)),
        ),
      ),
    ),
  ),
)

-- Four wrong passwords are remembered, and their window ends in the five minutes.
abbrev remembered : List Attempts
remembered = (record { organization_id = 5; account_id = 9; count = 4; reset_at = 1001 }) ∷ []

remembered_test : password_checks vault with_key remembered employee guesses ≡ 6
unfolding password_checks ◌>>=◌
remembered_test = refl

password_checks-allowance_example :
    password_checks vault with_key remembered employee guesses
    ≤ allowance 1000 (attempts_of remembered employee)
password_checks-allowance_example =
    password_checks-allowance vault with_key employee 1000 remembered guesses guesses-IsWrong

allowance_test : allowance 1000 (attempts_of remembered employee) ≡ 6
unfolding allowance attempts_of
allowance_test = refl

-- One wrong password starts a window; four more before its end and five after it, nine in all, are
-- tested within nine milliseconds.
abbrev burst : List Guess
burst =
    guess 299996
    ∷ guess 299997
    ∷ guess 299998
    ∷ guess 299999
    ∷ guess 300000
    ∷ guess 300001
    ∷ guess 300002
    ∷ guess 300003
    ∷ guess 300004
    ∷ []

burst_test :
    password_checks vault with_key
      (reveal_own vault with_key [] employee 40 "wrong" 1000).0
      employee
      burst
    ≡ 9
unfolding password_checks reveal_own ◌>>=◌
burst_test = refl

-- Calls that run at the same time each read the attempts before any of them counts its own: of six
-- calls that start together, none is refused, and one attempt is remembered.
abbrev finish_all : List Attempts → List (Option Attempts) → List Attempts
finish_all all [] = all
finish_all all (seen ∷ later) =
    finish_all (reveal_finish vault with_key all employee 40 "wrong" seen 1001).0 later

together_test : reveal_begin [] employee 1000 ≡ ok none
unfolding reveal_begin ◌>>=◌
together_test = refl

together_count :
    attempts_of (finish_all [] (none ∷ none ∷ none ∷ none ∷ none ∷ none ∷ [])) employee
    ≡ some (record { organization_id = 5; account_id = 9; count = 1; reset_at = 301001 })
unfolding attempts_of reveal_finish
together_count = refl

-- The administrator, who has an account too, reads the secret of the key.
abbrev admin_vault : Vault
admin_vault = record {
  verify = λ hash password. same_text (some hash) (some password);
  decrypt = λ box. some "s";
  accounts =
      (record {
        id = 2;
        is_active = true;
        password_hash = some "right";
        display_name = "B";
        email = none;
      })
      ∷ [];
}

created : create db admin 9 new_key secret 100 40 ≡ ok (key, with_key)
unfolding run_calls ◌>>=◌
created = refl

cipher_there : text_of (some "c") ≡ some "c"
unfolding text_of
cipher_there = refl

iv_there : text_of (some "i") ≡ some "i"
unfolding text_of
iv_there = refl

tag_there : text_of (some "t") ≡ some "t"
unfolding text_of
tag_there = refl

admin_password : password_is_right admin_vault 2 "right" ≡ true
unfolding password_is_right
admin_password = refl

create-reveal_example :
    reveal admin_vault with_key admin 40 "right"
    ≡ ok ((40, "s"), audit_key with_key admin key_revealed 40)
create-reveal_example =
    create-reveal admin_vault db admin admin 9 new_key secret 100 40 key with_key "right" created
      cipher_there iv_there tag_there refl refl refl refl admin_password
