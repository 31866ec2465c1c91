-- ===== src/Api/Grants/Fresh.antt =====
-- The link that `create` of apps/api/src/device-grants.service.ts hands out is good for one device.
use ucli_server.Base.{
  ℕ, ◌≡◌, refl, Bool, true, ◌&&◌, Option, none, some, ◌∷◌, ◌==◌, subst, sym, ◌∙◌, ap, arith,
  ==-self,
}
use ucli_server.Base.Table.{find?}
use ucli_server.Base.Text.{same_codes_refl}
use ucli_server.Budget.Result.{ok, or_throw-eq-ok, require-eq-ok, or_throw-bind, not_found}
use ucli_server.Budget.Ensures.{Ensures, Ensures-ok, Ensures-bind, Ensures-then, Ensures-require}
use ucli_server.Api.Grants.{
  link_created, grant_created, Text, GrantDb, Grant, Link, Account, Organization, Membership,
}
use ucli_server.Api.Grants.Store.{
  find_account, find_organization, find_membership, find_grant, find_link, audited, insert_grant,
  insert_link, assert_device_group, lock_organization,
}
use ucli_server.Api.Grants.Issue.{
  serialize_link, Vault, Credential, create_credential, CreateInput, create, create_in_transaction,
  assert_managed, new_grant, new_link,
}
use ucli_server.Api.Grants.Redeem.{assert_grant_group}

-- Rows that let the account of a grant in.
pub record Managed (db : GrantDb) (organization account : ℕ) : Type 0 where
  pub m : Membership
  pub a : Account
  pub o : Organization
  pub m_found : find_membership db organization account ≡ some m
  pub a_found : find_account db account ≡ some a
  pub o_found : find_organization db organization ≡ some o
  pub m_active : m.is_active ≡ true
  pub a_active : a.is_active ≡ true
  pub o_enabled : o.enabled ≡ true

assert_managed-Managed :
    (db : GrantDb) (organization account : ℕ)
    → Ensures (λ u. Managed db organization account) (assert_managed db organization account)
unfolding assert_managed
assert_managed-Managed db organization account = Ensures-bind _ _ λ m h. Ensures-bind _ _ λ a h₁.
    Ensures-bind _ _ λ o h₂. record {
      at = λ u e.
          let all = require-eq-ok (m.is_active && a.is_active && o.enabled) _ e in
          record {
            m = m;
            a = a;
            o = o;
            m_found = or_throw-eq-ok _ _ m h;
            a_found = or_throw-eq-ok _ _ a h₁;
            o_found = or_throw-eq-ok _ _ o h₂;
            m_active = (three m.is_active a.is_active o.enabled all).0;
            a_active = (three m.is_active a.is_active o.enabled all).1;
            o_enabled = (three m.is_active a.is_active o.enabled all).2;
          };
    }
  where
    three : (a b c : Bool) → (a && b && c) ≡ true → (a ≡ true) × (b ≡ true) × (c ≡ true)
    three a b c h = (ground arith, ground arith, ground arith)

-- What a new grant and its link are, and that its account is let in.
pub record Made (db : GrantDb) (t : Text) (organization account k : ℕ) (l : Link) : Type 0 where
  pub g : Grant
  pub link_found : find_link db t ≡ some l
  pub link_grant : l.device_grant_id ≡ k
  pub link_consumed : l.consumed_at ≡ none
  pub link_revoked : l.revoked_at ≡ none
  pub grant_found : find_grant db k ≡ some g
  pub organization_is : g.organization_id ≡ organization
  pub account_is : g.account_id ≡ account
  pub not_deleted : g.deleted_at ≡ none
  pub not_disabled : g.disabled_at ≡ none
  pub unbound : g.device_id ≡ none
  pub managed : Managed db organization account
  pub group_ok : assert_grant_group db g ≡ ok tt

insert_grant-adds :
    (db : GrantDb) (g : Grant)
    → Ensures (λ d. d ≡ record db { grants = g ∷ db.grants }) (insert_grant db g)
unfolding insert_grant
insert_grant-adds db g = Ensures-require _ _ _ λ h. Ensures-ok _ refl

insert_link-adds :
    (db : GrantDb) (l : Link)
    → Ensures (λ d. d ≡ record db { links = l ∷ db.links }) (insert_link db l)
unfolding insert_link
insert_link-adds db l = Ensures-require _ _ _ λ h. Ensures-require _ _ _ λ h₁. Ensures-ok _ refl

-- The tables after `create`.
abbrev with_link : GrantDb → Link → ℕ → ℕ → ℕ → GrantDb
unfolding audited
with_link db l organization actor grant =
    audited (record db { links = l ∷ db.links }) actor organization (link_created grant) l.id

create_in_transaction-adds :
    (db : GrantDb) (organization actor grant : ℕ) (expires : Option ℕ) (credential : Credential)
    (now link : ℕ)
    → Ensures
        (λ res.
          (res.0 ≡ new_link link actor grant expires credential now)
          × (res.1
              ≡ with_link db
                  (new_link link actor grant expires credential now)
                  organization
                  actor
                  grant))
        (create_in_transaction db organization actor grant expires none credential now link)
unfolding create_in_transaction audited
create_in_transaction-adds db organization actor grant expires credential now link =
    Ensures-then _ _ (insert_link-adds db (new_link link actor grant expires credential now))
      λ d h added.
        Ensures-ok _ (refl, ap (λ e. audited e actor organization (link_created grant) link) added)

module _ (vault : Vault) (db : GrantDb) (organization actor account : ℕ) (input : CreateInput)
    (token : Text) (now grant link : ℕ) where
  abbrev granted : Option ℕ → Option ℕ → GrantDb
  granted project expires = record db {
    grants = new_grant grant organization actor account input project expires ∷ db.grants;
  }

  abbrev linked : Option ℕ → Link
  linked expires = new_link link actor grant expires (create_credential vault token) now

  rows-Made :
      (project expires link_expires : Option ℕ) (o : Organization)
      → find_organization db organization ≡ some o
      → assert_device_group db.directory organization account input.group_id o.require_device_group
        ≡ ok tt
      → Managed db organization account
      → Made
          (audited
            (with_link (granted project expires) (linked link_expires) organization actor grant)
            actor
            organization
            grant_created
            grant)
          (vault.hash token)
          organization
          account
          grant
          (linked link_expires)
  unfolding audited find_grant find_link find_organization find_account find_membership new_grant
      new_link create_credential assert_grant_group
  rows-Made project expires link_expires o o_found group_ok managed = record {
    g = new_grant grant organization actor account input project expires;
    link_found = rw (same_codes_refl (vault.hash token)) refl;
    link_grant = refl;
    link_consumed = refl;
    link_revoked = refl;
    grant_found = rw (==-self grant) refl;
    organization_is = refl;
    account_is = refl;
    not_deleted = refl;
    not_disabled = refl;
    unbound = refl;
    managed = record {
      m = managed.m;
      a = managed.a;
      o = managed.o;
      m_found = managed.m_found;
      a_found = managed.a_found;
      o_found = managed.o_found;
      m_active = managed.m_active;
      a_active = managed.a_active;
      o_enabled = managed.o_enabled;
    };
    group_ok =
        or_throw-bind (find? (λ x. x.id == organization) db.organizations) not_found _ o o_found
        ∙ group_ok;
  }

  pub create-Made :
      (public_url : Option Text)
      → Ensures
          (λ res.
            (res.0.grant_id ≡ grant)
            × ((l : Link) × (l.expires_at ≡ res.0.current_link.expires_at)
                × Made res.1 (vault.hash token) organization account grant l))
          (create db organization actor account input
            (create_credential vault token)
            public_url
            now
            grant
            link)
  unfolding create lock_organization serialize_link
  create-Made public_url = Ensures-bind _ _ λ expires h. Ensures-bind _ _ λ o h₁.
      Ensures-bind _ _ λ project h₂. Ensures-bind _ _ λ u group_ok.
        Ensures-then _ _ (assert_managed-Managed db organization account) λ v h₄ managed.
          Ensures-bind _ _ λ link_expires h₅. Ensures-bind _ _ λ origin h₆.
            Ensures-then _ _ (insert_grant-adds db _) λ d h₇ added.
              Ensures-then _ _
                (create_in_transaction-adds d organization actor grant link_expires
                  (create_credential vault token) now link)
                λ made h₈ linking. Ensures-ok _ (
                  refl,
                  (
                    linked link_expires,
                    sym (ap (λ (l : Link). l.expires_at) linking.0),
                    subst
                        (λ e.
                          Made (audited e actor organization grant_created grant) (vault.hash token)
                            organization account grant (linked link_expires))
                        (sym (
                          linking.1
                          ∙ ap (λ e. with_link e (linked link_expires) organization actor grant)
                              added))
                        (rows-Made project expires link_expires o (or_throw-eq-ok _ _ o h₁) group_ok
                          managed),
                  ),
                )
