-- ===== src/Api/Calls/Refusal.antt =====
-- A group that apps/api/src/usage-groups.service.ts archived, at the other services.
use ucli_server.Base.{
  ℕ, ◌≡◌, refl, true, false, ◌||◌, Option, none, some, List, [], ◌∷◌, ◌==◌, ◌≢◌, inl, inr,
  Bool-cases, subst, sym, ◌∙◌, arith, ==_iff, Option-cases, ==-self,
}
use ucli_server.Base.Lists.{any}
use ucli_server.Base.Table.{find?}
use ucli_server.Budget.Result.{ok}
use ucli_server.Budget.Ensures.{Ensures, Ensures-bind, Ensures-require}
use ucli_server.Budget.Ledger.{Db, Group, Identity, Member, Principal, Reservation}
use ucli_server.Budget.Ledger.Store.{Calendar, Fingerprint, find_group}
use ucli_server.Budget.Group.Reserve.{
  ReserveInput, reserve, is_active_member, assert_active_group_member,
}
use ucli_server.Api.Grants.{Text, GrantDb, Grant, Link}
use ucli_server.Api.Grants.Store.{find_grant, find_link}
use ucli_server.Api.Grants.Issue.{Vault}
use ucli_server.Api.Grants.Redeem.{Credentials, DeviceBody, redeem}
use ucli_server.Api.Grants.Once.{Usable, redeem-Redeems}
use ucli_server.Api.Grants.Life.{Acts, Only, Whatever, close_act}
use ucli_server.Api.Grants.Rows.{GrantIds, Later, Later-trans, Later-Whatever}
use ucli_server.Api.Groups.Revoke.{archive, is_group_grant}
use ucli_server.Api.Groups.Archive.{Archived, Archived-Later, Revoked, archive-closes}
use ucli_server.Api.Groups.Closing.{Deleted, Deleted-Later}
use ucli_server.Api.Calls.{Call, run_calls}
use ucli_server.Api.Calls.History.{run_calls-Later}

-- Nobody is an active member of an archived group.
no_active_member :
    (db : GrantDb) (identity : Identity) (m : Member)
    → Archived db identity.group_id
    → is_active_member db.directory identity m ≡ false
unfolding is_active_member find_group
no_active_member db identity m (h, here, gone) =
    elim (Bool-cases (m.group_id == identity.group_id)) [
      | inr e ↦ ground arith
      | inl e ↦
          let same : m.group_id ≡ identity.group_id = (==_iff m.group_id identity.group_id).0 e in
          rw (same, here) (ground arith)
    ]

reserve-refused :
    (calendar : Calendar) (fingerprint : Fingerprint) (db : GrantDb) (input : ReserveInput)
    (now new_entry new_period : ℕ)
    → Archived db input.identity.group_id
    → Ensures (λ res. ⊥) (reserve calendar fingerprint db.directory input now new_entry new_period)
unfolding reserve assert_active_group_member
reserve-refused calendar fingerprint db input now new_entry new_period gone =
    Ensures-bind _ _ λ amount h.
      Ensures-bind _ _
        λ group h₁. Ensures-require _ _ _ λ member. absurd (nobody db.directory.members member)
  where
    nobody : (ms : List Member) → any (is_active_member db.directory input.identity) ms ≡ true → ⊥
    nobody [] h = absurd (cc)
    nobody (m ∷ ms) h = nobody ms (
        subst (λ b. (b || any (is_active_member db.directory input.identity) ms) ≡ true)
          (no_active_member db input.identity m gone) h)

-- A link of a deleted grant is of no use.
not-Usable :
    (db : GrantDb) (t : Text) (l : Link)
    → find_link db t ≡ some l
    → Deleted db l.device_grant_id
    → Usable db t
    → ⊥
unfolding find_grant find_link
not-Usable db t l at_l (h, u, here, gone) (m, g, at_m, at_g, live) =
    let same : m ≡ l = link_inj (sym at_m ∙ at_l) in
    let at_l_g : find? (λ x. x.id == l.device_grant_id) db.grants ≡ some g =
      subst (λ x. find? (λ y. y.id == x.device_grant_id) db.grants ≡ some g) same at_g in
    let same_grant : g ≡ h = grant_inj (sym at_l_g ∙ here) in
    absurd (none_some u (sym (subst (λ x. x.deleted_at ≡ none) same_grant live) ∙ gone))
  where
    link_inj : some m ≡ some l → m ≡ l
    link_inj e = cc

    grant_inj : some g ≡ some h → g ≡ h
    grant_inj e = cc

    none_some : (n : ℕ) → none ≡ some n → ⊥
    none_some n e = cc

-- A grant of the group that is not deleted is one that `archive` deletes.
group_grant :
    (organization k : ℕ) (g : Grant)
    → g.organization_id ≡ organization
    → g.group_id ≡ some k
    → g.deleted_at ≡ none
    → is_group_grant organization k none g ≡ true
unfolding is_group_grant
group_grant organization k g o e live = rw (o, e, live, ==-self organization, ==-self k) refl

grant-Deleted :
    {acts : Acts} (db later : GrantDb) (organization k i : ℕ) (g : Grant)
    → GrantIds db.grants
    → Later acts db later
    → Revoked db organization k none later
    → find_grant db i ≡ some g
    → g.organization_id ≡ organization
    → g.group_id ≡ some k
    → Deleted later i
unfolding find_grant
grant-Deleted db later organization k i g ids kept closed here o e =
    elim (Option-cases g.deleted_at) [
      | inl live ↦ closed i g here (group_grant organization k g o e live)
      | inr (t, gone) ↦ Deleted-Later db later i kept ids (g, t, here, gone)
    ]

-- In a database where the identifiers of grants are distinct, once an administrator archived a group,
-- then whatever calls on grants, links and groups follow, no reservation in the group's budget succeeds,
-- and no link of a grant that was in the group of that organization is redeemed.
pub archive-refuses :
    (vault : Vault) (calendar : Calendar) (fingerprint : Fingerprint) (db later : GrantDb)
    (actor : Principal) (k at : ℕ) (group : Group) (cs : List Call) (input : ReserveInput)
    (new_entry new_period : ℕ) (res : Reservation × Db) (secret : Text) (l : Link) (g : Grant)
    (body : Option DeviceBody) (token : Text) (now new_id : ℕ) (a : Credentials)
    → GrantIds db.grants
    → archive db actor k at ≡ ok (group, later)
    → input.identity.group_id ≡ k
    → find_link db (vault.hash secret) ≡ some l
    → find_grant db l.device_grant_id ≡ some g
    → g.organization_id ≡ actor.organization_id
    → g.group_id ≡ some k
    → (reserve calendar fingerprint
          (run_calls vault later cs).directory
          input
          now
          new_entry
          new_period
        ≢ ok res)
      × ((redeem vault.hash (run_calls vault later cs) (some secret) body token now new_id).1
          ≢ ok a)
unfolding find_link
archive-refuses vault calendar fingerprint db later actor k at group cs input new_entry new_period
      res secret l g body token now new_id a ids done in_k at_l at_g o e =
    (
      λ granted.
          (reserve-refused calendar fingerprint end input now new_entry new_period
              (subst (Archived end) (sym in_k) (Archived-Later later end k run kept.1))).at
            res granted,
      λ answered.
          let m =
            (Later-trans db later end (Later-Whatever db later kept.0) run).1 (vault.hash secret) l
              at_l in
          let deleted = Deleted-Later later end l.device_grant_id run later_ids (
            grant-Deleted db later actor.organization_id k l.device_grant_id g ids kept.0 kept.2
              at_g o e) in
          not-Usable end (vault.hash secret) m.0 m.1 (subst (Deleted end) (sym m.3) deleted)
            ((redeem-Redeems vault.hash end secret body token now new_id).1 a answered).2,
    )
  where
    end : GrantDb
    end = run_calls vault later cs

    kept :
        Later (Only (close_act actor.organization_id k at)) db later
        × Archived later k
        × Revoked db actor.organization_id k none later
    kept = (archive-closes db actor k at ids).at (group, later) done

    later_ids : GrantIds later.grants
    later_ids = (kept.0.0 ids).0

    run : Later Whatever later end
    run = run_calls-Later vault later cs later_ids
