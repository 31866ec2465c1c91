-- ===== src/Api/Grants/Binding.antt =====
-- `redeem` of apps/api/src/device-grants.service.ts: it takes grants along their life, and the device
-- that it answers is the one that the grant of the link is bound to.
use ucli_server.Base.{
  ℕ, ◌≡◌, refl, true, false, Option, none, some, List, ◌∷◌, ◌==◌, is_some, is_none-eq, ==_iff,
  ==-self, subst, ◌∙◌, sym, ◌⊎◌, inl, inr, Option-cases, Bool-cases,
}
use ucli_server.Base.Table.{find?, find?-passes, find?-update_where}
use ucli_server.Budget.Result.{Code, ok, or_throw-eq-ok, ◌>>◌}
use ucli_server.Budget.Ensures.{
  Ensures, Ensures-ok, Ensures-bind, Ensures-then, Ensures-require, Ensures-if,
}
use ucli_server.Budget.Ledger.{Role}
use ucli_server.Api.Grants.{Text, Grant, Link, GrantDb, Device}
use ucli_server.Api.Grants.Status.{
  is_past, derive_device_grant_status, device_grant_failure, device_grant_link_failure,
}
use ucli_server.Api.Grants.Store.{find_grant, find_device, insert_device, audited, refuse_with}
use ucli_server.Api.Grants.Redeem.{
  Credentials, DeviceInput, credentials, device_of, assert_eligible_grant, redeem_again,
  redeem_first, redeem_located, bind_device, is_consumed,
}
use ucli_server.Api.Grants.Life.{view, Only, redeem_act, bind_step}
use ucli_server.Api.Grants.Rows.{
  Later, Later-refl, GrantsLater-update, GroupsLater-refl, LinksLater-update,
}

refuse_with-ok : (o : Option Code) (u : Unit {0}) → refuse_with o ≡ ok u → o ≡ none
unfolding refuse_with
refuse_with-ok none u h = refl
refuse_with-ok (some c) u h = cc

is_some-false {ℓ} : {A : Type ℓ} (o : Option A) → is_some o ≡ false → o ≡ none
is_some-false none h = refl
is_some-false (some a) h = cc

-- A grant without a failure is in use.
no_failure :
    (g : Grant) (now : ℕ)
    → device_grant_failure g now ≡ none
    → (g.deleted_at ≡ none) × (g.disabled_at ≡ none) × (is_past g.expires_at now ≡ false)
unfolding device_grant_failure derive_device_grant_status
no_failure g now h = elim (Bool-cases (is_some g.deleted_at)) [
  | inl d ↦ absurd (cc)
  | inr d ↦ elim (Bool-cases (is_some g.disabled_at)) [
    | inl x ↦ absurd (cc)
    | inr x ↦ elim (Bool-cases (is_past g.expires_at now)) [
      | inl e ↦ absurd (cc)
      | inr e ↦ (is_some-false g.deleted_at d, is_some-false g.disabled_at x, e)
    ]
  ]
]

-- An eligible grant is in use.
pub eligible-is_live :
    (db : GrantDb) (g : Grant) (now : ℕ)
    → Ensures
        (λ role.
          (g.deleted_at ≡ none) × (g.disabled_at ≡ none) × (is_past g.expires_at now ≡ false))
        (assert_eligible_grant db g now)
unfolding assert_eligible_grant
eligible-is_live db g now = Ensures-bind _ _ λ u h. Ensures-bind _ _ λ a h₁.
    Ensures-require _ _ _ λ h₂. Ensures-bind _ _ λ o h₃. Ensures-require _ _ _ λ h₄.
      Ensures-bind _ _
        λ m h₅. Ensures-require _ _ _ λ h₆. Ensures-ok _ (no_failure g now (refuse_with-ok _ u h))

-- The row that an update by the identifier of a found row writes is that row.
same_row :
    (xs : List Grant) (k i : ℕ) (g x : Grant)
    → find? (λ y. y.id == k) xs ≡ some g
    → find? (λ y. y.id == i) xs ≡ some x
    → (x.id == g.id) ≡ true
    → x ≡ g
same_row xs k i g x h here e =
    let at_g : g.id ≡ k = (==_iff g.id k).0 (find?-passes (λ y. y.id == k) xs g h) in
    let at_x : x.id ≡ i = (==_iff x.id i).0 (find?-passes (λ y. y.id == i) xs x here) in
    let same : i ≡ k = sym at_x ∙ ((==_iff x.id g.id).0 e ∙ at_g) in
    let both : find? (λ y. y.id == k) xs ≡ some x =
      subst (λ j. find? (λ y. y.id == j) xs ≡ some x) same here in
    cc

-- What a successful redemption says of the grant of its link.
abbrev pub Served : ℕ → GrantDb → ℕ → Grant → Credentials × GrantDb → Type 0
Served now db k g res =
    Later (Only (redeem_act now)) db res.1
    × (g.deleted_at ≡ none)
    × ((g.device_id ≡ none) ⊎ (g.device_id ≡ some res.0.device_id))
    × ((h : Grant) × (find_grant res.1 k ≡ some h) × (h.device_id ≡ some res.0.device_id))

credentials-device :
    (db : GrantDb) (g : Grant) (role : Role) (d : ℕ) (refresh_token : Text) (now : ℕ)
    → Ensures (λ answer. answer.device_id ≡ d) (credentials db g role d refresh_token now)
unfolding credentials
credentials-device db g role d refresh_token now = Ensures-bind _ _ λ account h. Ensures-ok _ refl

pub insert_device-adds :
    (db : GrantDb) (d : Device)
    → Ensures (λ later. later ≡ record db { devices = d ∷ db.devices }) (insert_device db d)
unfolding insert_device
insert_device-adds db d = Ensures-require _ _ _ λ h. Ensures-bind _ _ λ u h₁. Ensures-ok _ refl

device_of-id :
    (db : GrantDb) (g : Grant) (d : Device) → device_of db g ≡ some d → g.device_id ≡ some d.id
unfolding find_device
device_of-id db g d h = elim (Option-cases g.device_id) [
  | inl e ↦ absurd (cc)
  | inr (k, e) ↦
      let found : find? (λ x. x.id == k) db.devices ≡ some d =
        subst (λ o. (elim o [ none ↦ none | some i ↦ find? (λ x. x.id == i) db.devices ]) ≡ some d)
          e h in
      let same : d.id ≡ k = (==_iff d.id k).0 (find?-passes (λ x. x.id == k) db.devices d found) in
      rw (e, same) refl
]

module _ (hash : Text → Text) (db : GrantDb) (l : Link) (g : Grant) (input : DeviceInput)
    (refresh_token : Text) (now : ℕ) (k : ℕ) (here : find_grant db k ≡ some g) where
  redeem_again-Served :
      Ensures (Served now db k g) (redeem_again hash db l g input refresh_token now)
  unfolding redeem_again audited find_grant
  redeem_again-Served = Ensures-bind _ _ λ d h. Ensures-require _ _ _ λ h₁.
      Ensures-then _ _ (eligible-is_live db g now) λ role h₂ live. Ensures-bind _ _ λ u h₃.
        Ensures-then _ _ (credentials-device db g role d.id refresh_token now) λ answer h₄ same.
          let mine : g.device_id ≡ some answer.device_id =
            rw same (device_of-id db g d (or_throw-eq-ok _ _ d h)) in
          Ensures-ok _ (Later-refl db, live.0, inr mine, (g, here, mine))

  bind_device-Later :
      (device_id : ℕ)
      → (g.deleted_at ≡ none) × (g.disabled_at ≡ none) × (is_past g.expires_at now ≡ false)
      → g.device_id ≡ none
      → Later (Only (redeem_act now)) db (bind_device db l g device_id now)
  unfolding bind_device find_grant
  bind_device-Later device_id live unbound = (
    GrantsLater-update (redeem_act now) _ _ db.grants (λ x. refl)
        (λ ids i x found e.
          let same : x ≡ g = same_row db.grants k i g x here found e in
          rw same (bind_step now (view g) device_id live.0 live.1 live.2 unbound))
        refl,
    LinksLater-update _ _ db.links (λ x. refl) (λ x. (refl, refl)),
    GroupsLater-refl db.directory.groups,
  )

  bind_device-found :
      (device_id : ℕ)
      → (h : Grant) × (find_grant (bind_device db l g device_id now) k ≡ some h)
        × (h.device_id ≡ some device_id)
  unfolding bind_device find_grant
  bind_device-found device_id =
      let written =
        find?-update_where (λ x. x.id == k) (λ x. x.id == g.id) _ db.grants g (λ x. refl) here in
      (_, written, rw (==-self g.id) refl)

  redeem_first-Served :
      (new_id : ℕ)
      → Ensures (Served now db k g) (redeem_first hash db l g input refresh_token now new_id)
  unfolding redeem_first audited find_grant
  redeem_first-Served new_id = Ensures-then _ _ (eligible-is_live db g now) λ role h live.
      Ensures-require _ _ _ λ h₁. Ensures-require _ _ _ λ h₂.
        Ensures-then _ _ (insert_device-adds db _) λ d h₃ added.
          Ensures-then _ _ (credentials-device db g role new_id refresh_token now) λ answer h₄ same.
            let unbound = is_none-eq g.device_id h₁ in
            let found = bind_device-found new_id in
            Ensures-ok _ (
              rw added (bind_device-Later new_id live unbound),
              live.0,
              inl unbound,
              (found.0, rw added found.1, rw same found.2),
            )

  pub redeem_located-Served :
      (new_id : ℕ)
      → Ensures (Served now db k g) (redeem_located hash db l g input refresh_token now new_id)
  unfolding redeem_located
  redeem_located-Served new_id = Ensures-bind _ _ λ u h.
      Ensures-if (is_consumed failure) (redeem_again hash db l g input refresh_token now)
        (refuse_with failure >> redeem_first hash db l g input refresh_token now new_id)
        (λ e. redeem_again-Served)
        (λ e. Ensures-bind (refuse_with failure) _ λ v h₁. redeem_first-Served new_id)
    where
      failure : Option Code
      failure = device_grant_link_failure l now
