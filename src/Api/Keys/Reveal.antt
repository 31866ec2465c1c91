-- ===== src/Api/Keys/Reveal.antt =====
-- `reveal` and `revealOwn` of apps/api/src/employee-keys.service.ts: the secret of a key, against a
-- password, with a limit on wrong ones. What argon2 says of a hash and a password and what
-- `decryptSecret` makes of a stored secret are parameters.
use ucli_server.Base.{
  ℕ, suc, ◌+◌, Bool, false, ◌&&◌, not, Option, none, some, List, ◌∷◌, String, ltb, leb, ◌==◌,
  if◌then◌else◌, is_none,
}
use ucli_server.Base.Table.{find?}
use ucli_server.Base.Lists.{filter}
use ucli_server.Budget.Ledger.{Db, EmployeeKey, key_revealed, key_self_revealed}
use ucli_server.Budget.Ledger.Store.{same_text}
use ucli_server.Budget.Result.{
  Result, ok, err, require, or_throw, ◌>>=◌, ◌>>◌, unauthorized, not_found, conflict,
}
use ucli_server.Api.Keys.{Session, assert_admin, assert_web_session, audit_key}

pub record Account : Type 0 where
  pub id : ℕ
  pub is_active : Bool
  pub password_hash : Option String
  pub display_name : String
  pub email : Option String

-- The three texts of a stored secret.
pub record Sealed : Type 0 where
  pub ciphertext : String
  pub iv : String
  pub tag : String

-- A text that is there and not empty.
unfoldable pub text_of : Option String → Option String
text_of t = if same_text t (some "") then none else t

-- `secretCiphertext && secretIv && secretTag`.
unfoldable pub sealed_secret : EmployeeKey → Option Sealed
unfolding text_of
sealed_secret k = elim (text_of k.secret_ciphertext) [
  | none ↦ none
  | some c ↦ (elim (text_of k.secret_iv) [
    | none ↦ none
    | some i ↦ (elim (text_of k.secret_tag) [
      | none ↦ none
      | some t ↦ some (record { ciphertext = c; iv = i; tag = t })
    ])
  ])
]

-- The parameters of this file, and the accounts.
pub record Vault : Type 0 where
  pub verify : String → String → Bool
  pub decrypt : Sealed → Option String
  pub accounts : List Account

unfoldable pub password_is_right : Vault → ℕ → String → Bool
unfolding text_of
password_is_right v k password = elim (find? (λ a. a.id == k) v.accounts) [
  | none ↦ false
  | some a ↦
      a.is_active
      && (elim (text_of a.password_hash) [ none ↦ false | some h ↦ v.verify h password ])
]

unfoldable pub open_secret : Vault → EmployeeKey → Result String
unfolding sealed_secret
open_secret v k = do box ← or_throw (sealed_secret k) conflict; or_throw (v.decrypt box) conflict

-- `reveal`.
unfoldable pub reveal : Vault → Db → Session → ℕ → String → Result ((ℕ × String) × Db)
unfolding assert_admin assert_web_session password_is_right open_secret audit_key
reveal v db actor k password = do
  assert_admin actor
  assert_web_session actor
  require (password_is_right v actor.sub password) unauthorized
  row ←
      or_throw
        (find?
          (λ r. r.id == k && r.organization_id == actor.organization_id && is_none r.deleted_at)
          db.keys)
        not_found
  secret ← open_secret v row
  ok ((row.id, secret), audit_key db actor key_revealed row.id)

-- An item of `revealAttempts`, with its key.
pub record Attempts : Type 0 where
  pub organization_id : ℕ
  pub account_id : ℕ
  pub count : ℕ
  pub reset_at : ℕ

abbrev pub is_own : Session → Attempts → Bool
is_own actor a = (a.organization_id == actor.organization_id) && (a.account_id == actor.sub)

unfoldable pub attempts_of : List Attempts → Session → Option Attempts
attempts_of all actor = find? (is_own actor) all

unfoldable pub forget_attempts : List Attempts → Session → List Attempts
forget_attempts all actor = filter (λ a. not (is_own actor a)) all

unfoldable pub is_throttled : Option Attempts → ℕ → Bool
is_throttled none now = false
is_throttled (some a) now = leb 5 a.count && ltb now a.reset_at

-- `revealOwn`, up to the first `await`: what it read of the attempts.
unfoldable pub reveal_begin : List Attempts → Session → ℕ → Result (Option Attempts)
unfolding assert_web_session attempts_of is_throttled
reveal_begin all actor now = do
  assert_web_session actor
  require (not (is_throttled (attempts_of all actor) now)) unauthorized
  ok (attempts_of all actor)

-- `{ count: 0, resetAt: Date.now() + 300_000 }`, counted once.
abbrev pub first_attempt : Session → ℕ → Attempts
first_attempt actor now = record {
  organization_id = actor.organization_id;
  account_id = actor.sub;
  count = 1;
  reset_at = now + 300000;
}

unfoldable pub next_attempts : Option Attempts → Session → ℕ → Attempts
next_attempts none actor now = first_attempt actor now
next_attempts (some a) actor now =
    if ltb now a.reset_at then record a { count = suc a.count } else first_attempt actor now

-- A wrong password is counted.
unfoldable pub count_attempt : List Attempts → Option Attempts → Session → ℕ → List Attempts
unfolding next_attempts forget_attempts
count_attempt all seen actor now = next_attempts seen actor now ∷ forget_attempts all actor

unfoldable pub reveal_own_secret : Vault → Db → Session → ℕ → Result ((ℕ × String) × Db)
unfolding open_secret audit_key
reveal_own_secret v db actor k = do
  row ←
      or_throw
        (find?
          (λ r.
            r.id == k
            && r.organization_id == actor.organization_id
            && r.account_id == actor.sub
            && is_none r.deleted_at)
          db.keys)
        not_found
  secret ← open_secret v row
  ok ((row.id, secret), audit_key db actor key_self_revealed row.id)

-- `revealOwn`, from the first `await` on: the attempts are written whether or not the call throws.
unfoldable pub reveal_finish :
    Vault
    → Db
    → List Attempts
    → Session
    → ℕ
    → String
    → Option Attempts
    → ℕ
    → List Attempts × Result ((ℕ × String) × Db)
unfolding password_is_right count_attempt forget_attempts reveal_own_secret
reveal_finish v db all actor k password seen now =
    if password_is_right v actor.sub password
    then (forget_attempts all actor, reveal_own_secret v db actor k)
    else (count_attempt all seen actor now, err unauthorized)

-- What follows the first part, which may have thrown.
unfoldable pub reveal_then :
    Vault
    → Db
    → List Attempts
    → Session
    → ℕ
    → String
    → ℕ
    → Result (Option Attempts)
    → List Attempts × Result ((ℕ × String) × Db)
unfolding reveal_finish
reveal_then v db all actor k password now (err x) = (all, err x)
reveal_then v db all actor k password now (ok seen) =
    reveal_finish v db all actor k password seen now

-- `revealOwn`, with no other call in between.
unfoldable pub reveal_own :
    Vault
    → Db
    → List Attempts
    → Session
    → ℕ
    → String
    → ℕ
    → List Attempts × Result ((ℕ × String) × Db)
unfolding reveal_begin reveal_then
reveal_own v db all actor k password now =
    reveal_then v db all actor k password now (reveal_begin all actor now)
