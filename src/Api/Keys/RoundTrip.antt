-- ===== src/Api/Keys/RoundTrip.antt =====
-- From `create` to `reveal` in apps/api/src/employee-keys.service.ts: the secret of a key.
use ucli_server.Base.{
  ℕ, ap, ◌≡◌, refl, ◌∙◌, true, ◌&&◌, none, some, ◌∷◌, ◌==◌, String, is_none, ==-self, sym,
}
use ucli_server.Base.Table.{find?}
use ucli_server.Budget.Ledger.{Db, EmployeeKey, is_admin, key_revealed}
use ucli_server.Budget.Result.{ok, ◌>>=◌}
use ucli_server.Budget.Ensures.{Ensures, Ensures-ok, Ensures-bind, Ensures-require, Ensures-then}
use ucli_server.Api.Keys.{
  Session, CreateInput, NewSecret, create, create_in, created_key, insert_key, audit_key,
}
use ucli_server.Api.Keys.Reveal.{
  Vault, Sealed, sealed_secret, open_secret, password_is_right, reveal, text_of,
}

-- The texts that are stored for a new secret.
abbrev pub sealed_of : NewSecret → Sealed
sealed_of s = record { ciphertext = s.ciphertext; iv = s.iv; tag = s.tag }

-- What a created key stores.
record IsStored (db : Db) (actor : Session) (secret : NewSecret) (res : EmployeeKey × Db)
    : Type 0 where
  first : res.1.keys ≡ res.0 ∷ db.keys
  organization : res.0.organization_id ≡ actor.organization_id
  kept : res.0.deleted_at ≡ none
  ciphertext : res.0.secret_ciphertext ≡ some secret.ciphertext
  iv : res.0.secret_iv ≡ some secret.iv
  tag : res.0.secret_tag ≡ some secret.tag

insert_key-first :
    (db : Db) (k : EmployeeKey) → Ensures (λ d. d.keys ≡ k ∷ db.keys) (insert_key db k)
unfolding insert_key
insert_key-first db k =
    Ensures-require _ _ _ λ fresh. Ensures-require _ _ _ λ apart. Ensures-ok _ refl

create-IsStored :
    (db : Db) (actor : Session) (account : ℕ) (input : CreateInput) (secret : NewSecret)
    (now new_id : ℕ)
    → Ensures (IsStored db actor secret) (create db actor account input secret now new_id)
unfolding create create_in audit_key created_key
create-IsStored db actor account input secret now new_id = Ensures-bind _ _ λ a h.
    Ensures-require _ _ _ λ h₁. Ensures-bind _ _ λ project h₂. Ensures-bind _ _ λ expires h₃.
      Ensures-bind _ _ λ p h₄. Ensures-require _ _ _ λ h₅. Ensures-bind _ _ λ m h₆.
        Ensures-bind _ _ λ g h₇. Ensures-then _ _ (insert_key-first db _) λ d h₈ first.
          Ensures-ok _ (record {
            first = first;
            organization = refl;
            kept = refl;
            ciphertext = refl;
            iv = refl;
            tag = refl;
          })

reveal-open :
    (v : Vault) (db : Db) (actor : Session) (k : ℕ) (password : String) (row : EmployeeKey)
    (box : Sealed) (secret : String)
    → is_admin actor.role ≡ true
    → is_none actor.device_id ≡ true
    → password_is_right v actor.sub password ≡ true
    → find?
        (λ r. r.id == k && r.organization_id == actor.organization_id && is_none r.deleted_at)
        db.keys
      ≡ some row
    → sealed_secret row ≡ some box
    → v.decrypt box ≡ some secret
    → reveal v db actor k password ≡ ok ((row.id, secret), audit_key db actor key_revealed row.id)
unfolding reveal ◌>>=◌ open_secret
reveal-open v db actor k password row box secret a w p f s d = rw (a, w, p, f, s, d) refl

-- What `reveal` looks for is found first.
find-first :
    (reader : Session) (key : EmployeeKey) (db later : Db)
    → later.keys ≡ key ∷ db.keys
    → key.organization_id ≡ reader.organization_id
    → key.deleted_at ≡ none
    → find?
        (λ r. r.id == key.id && r.organization_id == reader.organization_id && is_none r.deleted_at)
        later.keys
      ≡ some key
find-first reader key db later e o k =
    rw (e, o, k, ==-self key.id, ==-self reader.organization_id) refl

sealed_secret-of :
    (key : EmployeeKey) (s : NewSecret)
    → key.secret_ciphertext ≡ some s.ciphertext
    → key.secret_iv ≡ some s.iv
    → key.secret_tag ≡ some s.tag
    → text_of (some s.ciphertext) ≡ some s.ciphertext
    → text_of (some s.iv) ≡ some s.iv
    → text_of (some s.tag) ≡ some s.tag
    → sealed_secret key ≡ some (sealed_of s)
unfolding sealed_secret
sealed_secret-of key s c i t c₁ i₁ t₁ =
    let cipher : text_of key.secret_ciphertext ≡ some s.ciphertext = ap text_of c ∙ c₁ in
    let start : text_of key.secret_iv ≡ some s.iv = ap text_of i ∙ i₁ in
    let mark : text_of key.secret_tag ≡ some s.tag = ap text_of t ∙ t₁ in
    rw (sealed_secret, cipher, start, mark) refl

-- A key that was created gives its secret back: an administrator of its organization in a web session
-- who gives the right password gets the secret that was made for it, where what encryption made of
-- the secret is three texts that are not empty and decrypt to it.
pub create-reveal :
    (v : Vault) (db : Db) (actor reader : Session) (account : ℕ) (input : CreateInput)
    (secret : NewSecret) (now new_id : ℕ) (key : EmployeeKey) (later : Db) (password : String)
    → create db actor account input secret now new_id ≡ ok (key, later)
    → text_of (some secret.ciphertext) ≡ some secret.ciphertext
    → text_of (some secret.iv) ≡ some secret.iv
    → text_of (some secret.tag) ≡ some secret.tag
    → v.decrypt (sealed_of secret) ≡ some secret.secret
    → reader.organization_id ≡ actor.organization_id
    → is_admin reader.role ≡ true
    → is_none reader.device_id ≡ true
    → password_is_right v reader.sub password ≡ true
    → reveal v later reader key.id password
      ≡ ok ((key.id, secret.secret), audit_key later reader key_revealed key.id)
create-reveal v db actor reader account input secret now new_id key later password made c i t d o a
      w p =
    let s = (create-IsStored db actor account input secret now new_id).at (key, later) made in
    reveal-open v later reader key.id password key (sealed_of secret) secret.secret a w p
      (find-first reader key db later s.first (s.organization ∙ sym o) s.kept)
      (sealed_secret-of key secret s.ciphertext s.iv s.tag c i t) d
