-- ===== src/Api/Grants/Keeps.antt =====
-- Each call of apps/api/src/device-grants.service.ts and device-grant-links.service.ts takes grants along
-- their life.
use ucli_server.Base.{
  ℕ, ◌≡◌, refl, Bool, true, ==_iff, Option, none, some, ◌==◌, ◌&&◌, is_none, is_none-eq, arith,
}
use ucli_server.Budget.Ensures.{
  Ensures, Ensures-ok, Ensures-bind, Ensures-then, Ensures-require, Ensures-map,
}
use ucli_server.Api.Keys.{Field}
use ucli_server.Api.Grants.{Text, Grant, Link, GrantDb, Action}
use ucli_server.Api.Grants.Store.{
  find_grant, find_link, insert_grant, insert_link, revoke_current_link, audited,
}
use ucli_server.Api.Grants.Issue.{
  Credential, CreateInput, Vault, create_in_transaction, create, view_current, replace_link,
  previous_link,
}
use ucli_server.Api.Grants.Change.{
  is_target, write_grant, audit_lifecycle, update_expiration, enable, disable, delete,
  revoke_device,
}
use ucli_server.Api.Grants.Life.{
  view, IsNamed, Act, Acts, Only, Step, expire_act, enable_act, disable_act, delete_act,
  expire_step, enable_step, disable_step, delete_step,
}
use ucli_server.Api.Grants.Rows.{
  Later, Later-refl, Later-trans, GrantsLater-refl, GrantsLater-update, GrantsLater-insert,
  LinksLater-refl, GroupsLater-refl, LinksLater-update, LinksLater-insert,
}

insert_link-Later :
    {acts : Acts} (db : GrantDb) (l : Link) → Ensures (Later acts db) (insert_link db l)
unfolding insert_link find_link
insert_link-Later db l = Ensures-require _ _ _ λ h. Ensures-require _ _ _ λ fresh. Ensures-ok _ (
  GrantsLater-refl db.grants,
  LinksLater-insert l db.links (is_none-eq _ fresh),
  GroupsLater-refl db.directory.groups,
)

insert_grant-Later :
    {acts : Acts} (db : GrantDb) (g : Grant) → Ensures (Later acts db) (insert_grant db g)
unfolding insert_grant find_grant
insert_grant-Later db g = Ensures-require _ _ _ λ fresh. Ensures-ok _ (
  GrantsLater-insert g db.grants (is_none-eq _ fresh),
  LinksLater-refl db.links,
  GroupsLater-refl db.directory.groups,
)

pub revoke_current_link-Later :
    {acts : Acts} (db : GrantDb) (grant now : ℕ) → Later acts db (revoke_current_link db grant now)
unfolding revoke_current_link
revoke_current_link-Later db grant now = (
  GrantsLater-refl db.grants,
  LinksLater-update _ _ db.links (λ x. refl) (λ x. (refl, refl)),
  GroupsLater-refl db.directory.groups,
)

create_in_transaction-Later :
    {acts : Acts} (db : GrantDb) (organization actor grant : ℕ) (expires : Option ℕ)
    (previous : Option (Option ℕ)) (credential : Credential) (now new_id : ℕ)
    → Ensures
        (λ res. Later acts db res.1)
        (create_in_transaction db organization actor grant expires previous credential now new_id)
unfolding create_in_transaction audited
create_in_transaction-Later db organization actor grant expires previous credential now new_id =
    Ensures-then _ _ (insert_link-Later db _) λ d e later. Ensures-ok _ later

pub create-Later :
    {acts : Acts} (db : GrantDb) (organization actor account : ℕ) (input : CreateInput)
    (credential : Credential) (public_url : Option Text) (now grant link : ℕ)
    → Ensures
        (λ res. Later acts db res.1)
        (create db organization actor account input credential public_url now grant link)
unfolding create audited
create-Later db organization actor account input credential public_url now grant link =
    Ensures-bind _ _ λ expires h. Ensures-bind _ _ λ o h₁. Ensures-bind _ _ λ project h₂.
      Ensures-bind _ _ λ u h₃. Ensures-bind _ _ λ v h₄. Ensures-bind _ _ λ link_expires h₅.
        Ensures-bind _ _ λ origin h₆. Ensures-then _ _ (insert_grant-Later db _) λ d h₇ first.
          Ensures-then _ _
            (create_in_transaction-Later d organization actor _ link_expires none credential now
              link)
            λ made h₈ second. Ensures-ok _ (Later-trans db d made.1 first second)

pub view_current-Later :
    {acts : Acts} (vault : Vault) (db : GrantDb) (organization actor k : ℕ)
    (public_url : Option Text) (now : ℕ)
    → Ensures
        (λ res. Later acts db res.1)
        (view_current vault db organization actor k public_url now)
unfolding view_current audited
view_current-Later vault db organization actor k public_url now = Ensures-bind _ _ λ g h.
    Ensures-require _ _ _ λ h₁. Ensures-require _ _ _ λ h₂. Ensures-bind _ _ λ l h₃.
      Ensures-bind _ _ λ s h₄. Ensures-require _ _ _ λ h₅.
        Ensures-bind _ _ λ secret h₆. Ensures-bind _ _ λ origin h₇. Ensures-ok _ (Later-refl db)

pub replace_link-Later :
    {acts : Acts} (db : GrantDb) (organization actor k : ℕ) (expires : Field (Option ℕ))
    (credential : Credential) (now new_id : ℕ)
    → Ensures
        (λ res. Later acts db res.1)
        (replace_link db organization actor k expires credential now new_id)
unfolding replace_link
replace_link-Later db organization actor k expires credential now new_id = Ensures-bind _ _ λ g h.
    Ensures-bind _ _ λ u h₁. Ensures-bind _ _ λ t h₂.
      Ensures-map _
        (create_in_transaction-Later (revoke_current_link db g.id now) organization actor g.id t
          (some (previous_link db g.id)) credential now new_id)
        λ made later. Ensures-ok _ (
          Later-trans db (revoke_current_link db g.id now) made.1
            (revoke_current_link-Later db g.id now) later)

-- What the conditions of the update say of a row.
target-IsNamed :
    (organization k : ℕ) (x : Grant)
    → is_target organization k x ≡ true
    → IsNamed organization k (view x)
unfolding is_target
target-IsNamed organization k x t =
    let each = tests (x.id == k) (x.organization_id == organization) (is_none x.deleted_at) t in
    record {
      at_id = (==_iff x.id k).0 each.0;
      at_organization = (==_iff x.organization_id organization).0 each.1;
      is_live = is_none-eq x.deleted_at each.2;
    }
  where
    tests : (a b c : Bool) → (a && b && c) ≡ true → (a ≡ true) × (b ≡ true) × (c ≡ true)
    tests a b c h = (ground arith, ground arith, ground arith)

write_grant-Later :
    {acts : Acts} (a : Act) (db : GrantDb) (organization k : ℕ) (change : Grant → Grant)
    → ((x : Grant) → (change x).id ≡ x.id)
    → ((x : Grant) → IsNamed organization k (view x) → Step a (view x) (view (change x)))
    → acts a
    → Ensures (Later acts db) (write_grant db organization k change)
unfolding write_grant
write_grant-Later a db organization k change same steps may = Ensures-require _ _ _ λ h.
    Ensures-ok _ (
      GrantsLater-update a (is_target organization k) change db.grants same
          (λ ids i x found t. steps x (target-IsNamed organization k x t)) may,
      LinksLater-refl db.links,
      GroupsLater-refl db.directory.groups,
    )

audit_lifecycle-Later :
    {acts : Acts} (a : Act) (db : GrantDb) (organization actor k : ℕ) (done : Action)
    (change : Grant → Grant)
    → ((x : Grant) → (change x).id ≡ x.id)
    → ((x : Grant) → IsNamed organization k (view x) → Step a (view x) (view (change x)))
    → acts a
    → Ensures (Later acts db) (audit_lifecycle db organization actor k done change)
unfolding audit_lifecycle audited
audit_lifecycle-Later a db organization actor k done change same steps may = Ensures-bind _ _ λ o h.
    Ensures-bind _ _ λ g h₁. Ensures-bind _ _ λ u h₂.
      Ensures-then _ _ (write_grant-Later a db organization k change same steps may)
        λ d h₃ later. Ensures-ok _ later

pub update_expiration-Later :
    (db : GrantDb) (organization actor k : ℕ) (input : Field (Option ℕ)) (now : ℕ)
    → Ensures
        (λ res. Later (Only (expire_act organization k)) db res.1)
        (update_expiration db organization actor k input now)
unfolding update_expiration
update_expiration-Later db organization actor k input now = Ensures-bind _ _ λ t h.
    Ensures-then _ _
      (audit_lifecycle-Later (expire_act organization k) db organization actor k _ _ (λ x. refl)
        (λ x named. expire_step organization k (view x) t named) refl)
      λ d e later. Ensures-ok _ later

pub enable-Later :
    (db : GrantDb) (organization actor k : ℕ)
    → Ensures
        (λ res. Later (Only (enable_act organization k)) db res.1)
        (enable db organization actor k)
unfolding enable
enable-Later db organization actor k =
    Ensures-then _ _
      (audit_lifecycle-Later (enable_act organization k) db organization actor k _ _ (λ x. refl)
        (λ x named. enable_step organization k (view x) named) refl)
      λ d e later. Ensures-ok _ later

pub disable-Later :
    (db : GrantDb) (organization actor k now : ℕ)
    → Ensures
        (λ res. Later (Only (disable_act organization k now)) db res.1)
        (disable db organization actor k now)
unfolding disable audited
disable-Later db organization actor k now = Ensures-bind _ _ λ g h.
    Ensures-then _ _
      (write_grant-Later (disable_act organization k now) db organization k _ (λ x. refl)
        (λ x named. disable_step organization k now (view x) named) refl)
      λ d e later.
        Ensures-ok _
          (Later-trans db d (revoke_current_link d k now) later (revoke_current_link-Later d k now))

revoke_device-Later :
    {acts : Acts} (db : GrantDb) (organization : ℕ) (device_id : Option ℕ) (now : ℕ)
    → Later acts db (revoke_device db organization device_id now)
unfolding revoke_device
revoke_device-Later db organization none now = Later-refl db
revoke_device-Later db organization (some d) now = Later-refl db

pub delete-Later :
    (db : GrantDb) (organization actor k now : ℕ)
    → Ensures
        (λ res. Later (Only (delete_act organization k now)) db res.1)
        (delete db organization actor k now)
unfolding delete audited
delete-Later db organization actor k now = Ensures-bind _ _ λ g h.
    Ensures-then _ _
      (write_grant-Later (delete_act organization k now) db organization k _ (λ x. refl)
        (λ x named. delete_step organization k now (view x) named) refl)
      λ d e later.
        let closed = revoke_current_link d k now in
        Ensures-ok _ (
          Later-trans db closed (revoke_device closed organization g.device_id now)
            (Later-trans db d closed later (revoke_current_link-Later d k now))
            (revoke_device-Later closed organization g.device_id now))
