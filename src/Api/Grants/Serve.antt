-- ===== src/Api/Grants/Serve.antt =====
-- A device that redeems a fresh link of apps/api/src/device-grants.service.ts is served.
use ucli_server.Base.{
  ℕ, ◌≡◌, refl, false, not, Option, none, some, ◌∷◌, is_none, is_some, if◌then◌else◌, subst, sym,
  ◌∙◌, ap, Bool-cases, inl, inr, arith,
}
use ucli_server.Base.Lists.{any}
use ucli_server.Budget.Result.{
  >>=-eq-ok, Result, ok, err, bind-ok, require-bind, or_throw-bind, not_found, coded, invalid_link,
  account_inactive, organization_inactive, invalid_grant, link_consumed, invalid_device,
  unique_violation, ◌>>◌,
}
use ucli_server.Budget.Ensures.{Ensures, Ensures-require, Ensures-ok}
use ucli_server.Budget.Ledger.{Role}
use ucli_server.Api.Grants.{Text, GrantDb, Grant, Link, Account}
use ucli_server.Api.Grants.Status.{
  available, is_past, device_grant_failure, derive_device_grant_status, device_grant_link_failure,
  derive_device_grant_link_status,
}
use ucli_server.Api.Grants.Store.{
  find_account, find_organization, find_membership, find_grant, find_link, find_device,
  insert_device, fresh_token, has_token, refuse_with,
}
use ucli_server.Api.Grants.Issue.{Vault, create_credential, CreateInput, Handed, create}
use ucli_server.Api.Grants.Redeem.{
  Credentials, DeviceInput, DeviceBody, Preview, preview, validate_link, credentials,
  assert_eligible_grant, assert_grant_group, redeem_again, redeem_first, redeem_located,
  redeem_with, after_redeem, redeem, locate, validate_redeem, is_installed, new_device, is_consumed,
}
use ucli_server.Api.Grants.Fresh.{Managed, Made, create-Made}

no_grant_failure :
    (g : Grant) (now : ℕ)
    → g.deleted_at ≡ none
    → g.disabled_at ≡ none
    → is_past g.expires_at now ≡ false
    → device_grant_failure g now ≡ none
unfolding device_grant_failure derive_device_grant_status
no_grant_failure g now gone off past =
    let kept : is_some g.deleted_at ≡ false = ap is_some gone in
    let on : is_some g.disabled_at ≡ false = ap is_some off in
    elim (Bool-cases (is_some g.device_id)) [ inl e ↦ ground arith | inr e ↦ ground arith ]

fresh_status :
    (g : Grant) (now : ℕ)
    → g.deleted_at ≡ none
    → g.disabled_at ≡ none
    → is_past g.expires_at now ≡ false
    → g.device_id ≡ none
    → derive_device_grant_status g now ≡ available
unfolding derive_device_grant_status
fresh_status g now gone off past unbound =
    let kept : is_some g.deleted_at ≡ false = ap is_some gone in
    let on : is_some g.disabled_at ≡ false = ap is_some off in
    let free : is_some g.device_id ≡ false = ap is_some unbound in ground arith

no_link_failure :
    (l : Link) (now : ℕ)
    → l.consumed_at ≡ none
    → l.revoked_at ≡ none
    → is_past l.expires_at now ≡ false
    → device_grant_link_failure l now ≡ none
unfolding device_grant_link_failure derive_device_grant_link_status
no_link_failure l now used revoked past =
    let fresh : is_some l.consumed_at ≡ false = ap is_some used in
    let kept : is_some l.revoked_at ≡ false = ap is_some revoked in ground arith

-- A grant in use whose account is let in is eligible.
eligible_role :
    (db : GrantDb) (g : Grant) (now : ℕ) (managed : Managed db g.organization_id g.account_id)
    → device_grant_failure g now ≡ none
    → assert_eligible_grant db g now ≡ ok managed.m.role
unfolding assert_eligible_grant refuse_with
eligible_role db g now managed fine =
    bind-ok (refuse_with (device_grant_failure g now)) _ (ap refuse_with fine)
    ∙ (or_throw-bind (find_account db g.account_id) not_found _ managed.a managed.a_found
        ∙ (require-bind managed.a.is_active (coded account_inactive) _ managed.a_active
            ∙ (or_throw-bind (find_organization db g.organization_id) not_found _ managed.o
                  managed.o_found
                ∙ (require-bind managed.o.enabled (coded organization_inactive) _ managed.o_enabled
                    ∙ (or_throw-bind (find_membership db g.organization_id g.account_id)
                          (coded invalid_grant) _ managed.m managed.m_found
                        ∙ require-bind managed.m.is_active (coded account_inactive) _
                            managed.m_active)))))

-- No device stands in the way of a new one.
pub record Room (hash : Text → Text) (db : GrantDb) (input : DeviceInput) (token : Text) (k : ℕ)
    : Type 0 where
  pub no_device : find_device db k ≡ none
  pub no_token : has_token db k (hash token) ≡ false
  pub no_installation : any (is_installed input.installation_id) db.devices ≡ false

insert_device-Room :
    (hash : Text → Text) (db : GrantDb) (g : Grant) (input : DeviceInput) (token : Text) (k : ℕ)
    → Room hash db input token k
    → insert_device db (new_device hash k g input token)
      ≡ ok (record db { devices = new_device hash k g input token ∷ db.devices })
unfolding insert_device fresh_token new_device
insert_device-Room hash db g input token k room =
    require-bind (is_none (find_device db k)) unique_violation _ (ap is_none room.no_device)
    ∙ require-bind (not (has_token db k (hash token))) unique_violation _ (ap not room.no_token)

answer_of : Grant → Role → Account → ℕ → Text → ℕ → Credentials
answer_of g role a k token now = record {
  sub = g.account_id;
  organization_id = g.organization_id;
  device_id = k;
  role = role;
  token_version = a.token_version;
  refresh_token = token;
  expires_in = 900;
  expires_at = g.expires_at;
  server_time = now;
}

credentials_answer :
    (db : GrantDb) (g : Grant) (role : Role) (a : Account) (k : ℕ) (token : Text) (now : ℕ)
    → find_account db g.account_id ≡ some a
    → credentials db g role k token now ≡ ok (answer_of g role a k token now)
unfolding credentials answer_of
credentials_answer db g role a k token now found =
    or_throw-bind (find_account db g.account_id) not_found _ a found

-- The first redemption.
first_served :
    (hash : Text → Text) (db : GrantDb) (l : Link) (g : Grant) (input : DeviceInput) (token : Text)
    (now k : ℕ)
    → (managed : Managed db g.organization_id g.account_id) → device_grant_failure g now ≡ none
    → g.device_id ≡ none
    → Room hash db input token k
    → (later : GrantDb) × (redeem_first hash db l g input token now k
        ≡ ok (answer_of g managed.m.role managed.a k token now, later))
unfolding redeem_first find_account
first_served hash db l g input token now k managed fine unbound room = (
  _,
  bind-ok (assert_eligible_grant db g now) _ (eligible_role db g now managed fine)
      ∙ (require-bind (is_none g.device_id) (coded link_consumed) _ (ap is_none unbound)
          ∙ (require-bind (not (any (is_installed input.installation_id) db.devices))
                (coded invalid_device) _ (ap not room.no_installation)
              ∙ (bind-ok (insert_device db (new_device hash k g input token)) _
                    (insert_device-Room hash db g input token k room)
                  ∙ bind-ok (credentials adopted g managed.m.role k token now) _ (
                      credentials_answer adopted g managed.m.role managed.a k token now
                        managed.a_found)))),
)
  where
    adopted : GrantDb
    adopted = record db { devices = new_device hash k g input token ∷ db.devices }

-- The whole redemption, of a link that nothing was done with.
module _ (hash : Text → Text) (db : GrantDb) (secret : Text) (organization account k : ℕ) (l : Link)
    (made : Made db (hash secret) organization account k l) (body : Option DeviceBody)
    (input : DeviceInput) (token : Text) (now new_id : ℕ) where
  managed_here : Managed db made.g.organization_id made.g.account_id
  managed_here =
      subst (λ o. Managed db o made.g.account_id) (sym made.organization_is)
        (subst (Managed db organization) (sym made.account_is) made.managed)

  located_served :
      is_past l.expires_at now ≡ false
      → is_past made.g.expires_at now ≡ false
      → Room hash db input token new_id
      → (later : GrantDb) × (redeem_located hash db l made.g input token now new_id
          ≡ ok (answer_of made.g managed_here.m.role managed_here.a new_id token now, later))
  unfolding redeem_located refuse_with
  located_served fresh valid room =
      let first =
        first_served hash db l made.g input token now new_id managed_here
          (no_grant_failure made.g now made.not_deleted made.not_disabled valid) made.unbound
          room in
      let fine = no_link_failure l now made.link_consumed made.link_revoked fresh in
      (
        first.0,
        bind-ok (assert_grant_group db made.g) _ made.group_ok
            ∙ (subst
                  (λ o.
                    (if is_consumed o
                      then redeem_again hash db l made.g input token now
                      else refuse_with o >> redeem_first hash db l made.g input token now new_id)
                    ≡ (refuse_with none >> redeem_first hash db l made.g input token now new_id))
                  (sym fine) refl
                ∙ (bind-ok (refuse_with none) _ refl ∙ first.1)),
      )

  located_here : locate db (hash secret) ≡ ok (l, made.g)
  unfolding locate
  located_here =
      or_throw-bind (find_link db (hash secret)) (coded invalid_link) _ l made.link_found
      ∙ or_throw-bind (find_grant db l.device_grant_id) (coded invalid_link) _ made.g
          (subst (λ i. find_grant db i ≡ some made.g) (sym made.link_grant) made.grant_found)

  redeem_served :
      validate_redeem (some secret) body ≡ ok (secret, input)
      → is_past l.expires_at now ≡ false
      → is_past made.g.expires_at now ≡ false
      → Room hash db input token new_id
      → (redeem hash db (some secret) body token now new_id).1
        ≡ ok (answer_of made.g managed_here.m.role managed_here.a new_id token now)
  unfolding redeem redeem_with after_redeem
  redeem_served valid_input fresh valid room =
      let done = located_served fresh valid room in
      subst (λ v. (checked v).1 ≡ ok answer) (sym valid_input)
        (subst (λ found. (redeem_with hash db input token now new_id found).1 ≡ ok answer)
          (sym located_here)
          (subst (λ res. (after_redeem db l made.g res).1 ≡ ok answer) (sym done.1) refl))
    where
      answer : Credentials
      answer = answer_of made.g managed_here.m.role managed_here.a new_id token now

      checked : Result (Text × DeviceInput) → GrantDb × Result Credentials
      checked v = elim v [
        | err e ↦ (db, err e)
        | ok w ↦ redeem_with hash db w.1 token now new_id (locate db (hash w.0))
      ]

  preview_served :
      validate_link (some secret) ≡ ok secret
      → is_past l.expires_at now ≡ false
      → is_past made.g.expires_at now ≡ false
      → (p : Preview) × (preview hash db (some secret) now ≡ ok p) × (p.grant_status ≡ available)
  unfolding preview refuse_with
  preview_served valid_text fresh valid =
      let fine = no_link_failure l now made.link_consumed made.link_revoked fresh in
      let free = no_grant_failure made.g now made.not_deleted made.not_disabled valid in
      (
        _,
        bind-ok (validate_link (some secret)) _ valid_text
            ∙ (bind-ok (locate db (hash secret)) _ located_here
                ∙ (bind-ok (refuse_with (device_grant_link_failure l now)) _ (ap refuse_with fine)
                    ∙ (bind-ok (assert_eligible_grant db made.g now) _
                          (eligible_role db made.g now managed_here free)
                        ∙ bind-ok (assert_grant_group db made.g) _ made.group_ok))),
        fresh_status made.g now made.not_deleted made.not_disabled valid made.unbound,
      )

validate_link-same : (t : Text) → Ensures (λ u. u ≡ t) (validate_link (some t))
unfolding validate_link
validate_link-same t = Ensures-require _ _ _ λ h. Ensures-ok t refl

-- What `create` hands out is good: while neither the link nor the grant has expired, the secret can be
-- previewed, and shows the grant as available; and a device whose body is valid, that no active device
-- has the installation of, and whose identifier and token are new, redeems it, and the answer is for the
-- new device, the account and the organization of the grant.
pub create-redeem :
    (vault : Vault) (db later : GrantDb) (organization actor account : ℕ) (input : CreateInput)
    (secret token : Text) (public_url : Option Text) (at grant link : ℕ) (handed : Handed)
    (body : Option DeviceBody) (device : DeviceInput) (now new_id : ℕ)
    → create db organization actor account input
        (create_credential vault secret)
        public_url
        at
        grant
        link
      ≡ ok (handed, later)
    → validate_redeem (some secret) body ≡ ok (secret, device)
    → is_past handed.current_link.expires_at now ≡ false
    → ((g : Grant) → find_grant later handed.grant_id ≡ some g → is_past g.expires_at now ≡ false)
    → Room vault.hash later device token new_id
    → (p : Preview) × (c : Credentials) × (preview vault.hash later (some secret) now ≡ ok p)
      × (p.grant_status ≡ available)
      × ((redeem vault.hash later (some secret) body token now new_id).1 ≡ ok c)
      × (c.device_id ≡ new_id)
      × (c.sub ≡ account)
      × (c.organization_id ≡ organization)
unfolding answer_of validate_redeem
create-redeem vault db later organization actor account input secret token public_url at grant link
      handed body device now new_id created valid fresh unexpired room =
    let done =
      (create-Made vault db organization actor account input secret at grant link public_url).at
        (handed, later) created in
    let made = done.1.2 in
    let fresh_link = subst (λ t. is_past t now ≡ false) (sym done.1.1) fresh in
    let here = subst (λ k. find_grant later k ≡ some made.g) (sym done.0) made.grant_found in
    let text = >>=-eq-ok (validate_link (some secret)) _ valid in
    let valid_text : validate_link (some secret) ≡ ok secret =
      subst (λ u. validate_link (some secret) ≡ ok u) ((validate_link-same secret).at text.0 text.1)
        text.1 in
    let shown =
      preview_served vault.hash later secret organization account grant done.1.0 made body device
        token now new_id valid_text fresh_link (unexpired made.g here) in
    (
      shown.0,
      _,
      shown.1,
      shown.2,
      redeem_served vault.hash later secret organization account grant done.1.0 made body device
          token now new_id valid fresh_link (unexpired made.g here) room,
      refl,
      made.account_is,
      made.organization_is,
    )
