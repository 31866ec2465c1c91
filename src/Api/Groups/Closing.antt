-- ===== src/Api/Groups/Closing.antt =====
-- `revokeCredentials` of apps/api/src/usage-groups.service.ts deletes the grants of a group, as a step
-- of the life of each.
use ucli_server.Base.{
  ℕ, ◌≡◌, refl, Bool, true, false, Option, none, some, [], List, ◌∷◌, ◌==◌, ◌&&◌, is_none,
  is_none-eq, arith, if◌then◌else◌, inl, inr, Bool-cases, ==_iff, subst, sym, ◌∙◌, ap,
}
use ucli_server.Base.Lists.{filter}
use ucli_server.Base.Sorting.{find?-fails}
use ucli_server.Base.Table.{
  find?, find?-passes, find?-update_where, All, Distinct-filter, filter-found, find?-filter,
}
use ucli_server.Api.Grants.{GrantDb, Grant}
use ucli_server.Api.Grants.Life.{view, Acts, Only, Step, close_act, close_step, Reach-deleted}
use ucli_server.Api.Grants.Rows.{
  GrantIds, Later, Later-refl, Later-trans, GrantsLater-update, LinksLater-update, GroupsLater-refl,
}
use ucli_server.Api.Groups.Revoke.{
  revoke_grant, close_grant, revoke_grant_device, revoke_grants, revoke_keys, revoke_credentials,
  is_group_grant, in_group,
}
use ucli_server.Budget.Group.Reserve.{matches_id}

-- The row of an identifier is in the group of the organization and not deleted, or deleted.
abbrev pub Live : ℕ → ℕ → GrantDb → ℕ → Type 0
Live o u db k =
    (h : Grant) × (find? (λ x. x.id == k) db.grants ≡ some h)
    × (h.organization_id ≡ o)
    × (h.group_id ≡ some u)
    × (h.deleted_at ≡ none)

abbrev pub Deleted : GrantDb → ℕ → Type 0
Deleted db k =
    (h : Grant) × (t : ℕ) × (find? (λ x. x.id == k) db.grants ≡ some h) × (h.deleted_at ≡ some t)

-- A deleted grant stays deleted.
pub Deleted-Later :
    {acts : Acts} (a b : GrantDb) (k : ℕ)
    → Later acts a b
    → GrantIds a.grants
    → Deleted a k
    → Deleted b k
Deleted-Later a b k later ids (h, t, here, gone) =
    let next = (later.0 ids).1 k h here in
    (
      next.0,
      t,
      next.1,
      subst (λ v. v.deleted_at ≡ some t) (sym (Reach-deleted (view h) (view next.0) t next.2 gone))
          gone,
    )

device-grants :
    (db : GrantDb) (o : Option ℕ) (now : ℕ) → (revoke_grant_device db o now).grants ≡ db.grants
unfolding revoke_grant_device
device-grants db none now = refl
device-grants db (some d) now = refl

device-Later :
    {acts : Acts} (db : GrantDb) (o : Option ℕ) (now : ℕ)
    → Later acts db (revoke_grant_device db o now)
unfolding revoke_grant_device
device-Later db none now = Later-refl db
device-Later db (some d) now = Later-refl db

module _ (o u : ℕ) (db : GrantDb) (now : ℕ) (g : Grant) where
  close_grant-Later : Live o u db g.id → Later (Only (close_act o u now)) db (close_grant db now g)
  unfolding close_grant
  close_grant-Later live = (
    GrantsLater-update (close_act o u now) _ _ db.grants (λ x. refl) steps refl,
    LinksLater-update _ _ db.links (λ x. refl) (λ x. (refl, refl)),
    GroupsLater-refl db.directory.groups,
  )
    where
      steps :
          GrantIds db.grants
          → (k : ℕ) (x : Grant) → find? (λ y. y.id == k) db.grants ≡ some x
          → (x.id == g.id) ≡ true
          → Step (close_act o u now) (view x) (view (record x { deleted_at = some now }))
      steps ids k x found e =
          let at_x : x.id ≡ k =
            (==_iff x.id k).0 (find?-passes (λ y. y.id == k) db.grants x found) in
          let at_g : k ≡ g.id = sym at_x ∙ (==_iff x.id g.id).0 e in
          let here : find? (λ y. y.id == g.id) db.grants ≡ some x =
            subst (λ i. find? (λ y. y.id == i) db.grants ≡ some x) at_g found in
          let same : x ≡ live.0 = cc in
          rw same (close_step o u now (view live.0) live.2 live.3 live.4)

  -- One grant that is not deleted takes one step.
  revoke_grant-Later :
      Live o u db g.id → Later (Only (close_act o u now)) db (revoke_grant db now g)
  unfolding revoke_grant
  revoke_grant-Later live =
      Later-trans db (close_grant db now g) (revoke_grant db now g) (close_grant-Later live)
        (device-Later (close_grant db now g) g.device_id now)

  revoke_grant-found :
      (k : ℕ) (h : Grant)
      → find? (λ x. x.id == k) db.grants ≡ some h
      → find? (λ x. x.id == k) (revoke_grant db now g).grants
        ≡ some (if h.id == g.id then record h { deleted_at = some now } else h)
  unfolding revoke_grant close_grant
  revoke_grant-found k h here =
      rw (device-grants (close_grant db now g) g.device_id now)
        (find?-update_where (λ x. x.id == k) (λ x. x.id == g.id) _ db.grants h (λ x. refl) here)

  revoke_grant-Deleted : Live o u db g.id → Deleted (revoke_grant db now g) g.id
  revoke_grant-Deleted (h, here, at_o, at_u, live) =
      let same : (h.id == g.id) ≡ true = find?-passes (λ x. x.id == g.id) db.grants h here in
      (
        record h { deleted_at = some now },
        now,
        subst
            (λ b.
              find? (λ x. x.id == g.id) (revoke_grant db now g).grants
              ≡ some (if b then record h { deleted_at = some now } else h))
            same (revoke_grant-found g.id h here),
        refl,
      )

  -- The other grants are as they were.
  revoke_grant-Live :
      (k : ℕ) → (k == g.id) ≡ false → Live o u db k → Live o u (revoke_grant db now g) k
  revoke_grant-Live k apart (h, here, at_o, at_u, live) =
      let at_h : h.id ≡ k = (==_iff h.id k).0 (find?-passes (λ x. x.id == k) db.grants h here) in
      let other : (h.id == g.id) ≡ false = rw at_h apart in
      (
        h,
        subst
            (λ b.
              find? (λ x. x.id == k) (revoke_grant db now g).grants
              ≡ some (if b then record h { deleted_at = some now } else h))
            other (revoke_grant-found k h here),
        at_o,
        at_u,
        live,
      )

  others-Live :
      (gs : List Grant)
      → All (λ y. (y.id == g.id) ≡ false) gs
      → All (λ y. Live o u db y.id) gs
      → All (λ y. Live o u (revoke_grant db now g) y.id) gs
  others-Live [] apart live = tt
  others-Live (y ∷ ys) apart live =
      (revoke_grant-Live y.id apart.0 live.0, others-Live ys apart.1 live.1)

-- Distinct grants that are not deleted, one after the other.
revoke_grants-Later :
    (o u : ℕ) (db : GrantDb) (now : ℕ) (gs : List Grant)
    → All (λ g. Live o u db g.id) gs
    → GrantIds gs
    → Later (Only (close_act o u now)) db (revoke_grants db now gs)
unfolding revoke_grants
revoke_grants-Later o u db now [] live ids = Later-refl db
revoke_grants-Later o u db now (g ∷ gs) live ids =
    let one = revoke_grant db now g in
    Later-trans db one (revoke_grants one now gs) (revoke_grant-Later o u db now g live.0) (
      revoke_grants-Later o u one now gs
        (others-Live o u db now g gs (find?-fails (λ y. y.id == g.id) gs ids.0) live.1) ids.1)

revoke_grants-Deleted :
    (o u : ℕ) (db : GrantDb) (now : ℕ) (gs : List Grant) (k : ℕ) (x : Grant)
    → GrantIds db.grants
    → All (λ g. Live o u db g.id) gs
    → GrantIds gs
    → find? (λ g. g.id == k) gs ≡ some x
    → Deleted (revoke_grants db now gs) k
unfolding revoke_grants
revoke_grants-Deleted o u db now [] k x table live ids here = absurd (cc)
revoke_grants-Deleted o u db now (g ∷ gs) k x table live ids here =
    let one = revoke_grant db now g in
    let rest = others-Live o u db now g gs (find?-fails (λ y. y.id == g.id) gs ids.0) live.1 in
    let kept = ((revoke_grant-Later o u db now g live.0).0 table).0 in
    elim (Bool-cases (g.id == k)) [
      | inl e ↦
          subst (λ i. Deleted (revoke_grants one now gs) i) ((==_iff g.id k).0 e)
            (Deleted-Later one (revoke_grants one now gs) g.id
              (revoke_grants-Later o u one now gs rest ids.1) kept
              (revoke_grant-Deleted o u db now g live.0))
      | inr e ↦
          revoke_grants-Deleted o u one now gs k x kept rest ids.1
            (subst (λ b. (if b then some g else find? (λ y. y.id == k) gs) ≡ some x) e here)
    ]

-- The conditions on a grant of a group.
group_grant-is_live :
    (organization group : ℕ) (account : Option ℕ) (g : Grant)
    → is_group_grant organization group account g ≡ true
    → (g.organization_id ≡ organization) × (g.group_id ≡ some group) × (g.deleted_at ≡ none)
unfolding is_group_grant
group_grant-is_live organization group account g h =
    let each =
      tests (g.organization_id == organization) (in_group g.group_id group)
        (matches_id account g.account_id) (is_none g.deleted_at) h in
    (
      (==_iff g.organization_id organization).0 each.0,
      at_group g.group_id each.1,
      is_none-eq g.deleted_at each.2,
    )
  where
    tests : (a b c d : Bool) → (a && b && c && d) ≡ true → (a ≡ true) × (b ≡ true) × (d ≡ true)
    tests a b c d h = (ground arith, ground arith, ground arith)

    at_group : (x : Option ℕ) → in_group x group ≡ true → x ≡ some group
    at_group none h = absurd (cc)
    at_group (some k) h = ap some ((==_iff k group).0 h)

module _ (db : GrantDb) (organization group now : ℕ) (account : Option ℕ)
    (ids : GrantIds db.grants) where
  abbrev listed : List Grant
  listed = filter (is_group_grant organization group account) db.grants

  listed-Live : All (λ g. Live organization group db g.id) listed
  listed-Live =
      each listed
        (filter-found (λ g. g.id) (is_group_grant organization group account) db.grants ids)
    where
      each :
          (gs : List Grant)
          → All
              (λ g.
                (find? (λ x. x.id == g.id) db.grants ≡ some g)
                × (is_group_grant organization group account g ≡ true))
              gs
          → All (λ g. Live organization group db g.id) gs
      each [] h = tt
      each (g ∷ gs) h =
          let member = group_grant-is_live organization group account g h.0.1 in
          ((g, h.0.0, member.0, member.1, member.2), each gs h.1)

  listed_ids : GrantIds listed
  listed_ids = Distinct-filter (λ g. g.id) (is_group_grant organization group account) db.grants ids

  pub revoke_credentials-Later :
      Later
        (Only (close_act organization group now))
        db
        (revoke_credentials db organization group now account)
  unfolding revoke_credentials revoke_keys
  revoke_credentials-Later =
      revoke_grants-Later organization group (revoke_keys db organization group account now) now
        listed listed-Live listed_ids

  -- Every grant of the group is deleted then.
  pub revoke_credentials-Deleted :
      (k : ℕ) (g : Grant)
      → find? (λ x. x.id == k) db.grants ≡ some g
      → is_group_grant organization group account g ≡ true
      → Deleted (revoke_credentials db organization group now account) k
  unfolding revoke_credentials revoke_keys
  revoke_credentials-Deleted k g here mine =
      revoke_grants-Deleted organization group (revoke_keys db organization group account now) now
        listed k g ids listed-Live listed_ids
        (find?-filter (λ x. x.id) k (is_group_grant organization group account) db.grants g here
          mine)
