-- ===== src/Api/Groups/Archive.antt =====
-- What `archive` and `removeMember` of apps/api/src/usage-groups.service.ts leave behind.
use ucli_server.Base.{ℕ, ◌≡◌, refl, true, Option, none, some, ◌==◌, is_some, subst, sym, if_both}
use ucli_server.Base.Table.{find?, find?-passes, find?-update_where}
use ucli_server.Budget.Ensures.{Ensures, Ensures-ok, Ensures-require}
use ucli_server.Budget.Ledger.{Group, Principal}
use ucli_server.Budget.Ledger.Store.{find_group}
use ucli_server.Api.Grants.{GrantDb, Grant}
use ucli_server.Api.Grants.Store.{audited, is_region}
use ucli_server.Api.Grants.Life.{Acts, Only, close_act}
use ucli_server.Api.Grants.Rows.{
  GrantIds, Later, Later-refl, Later-trans, GrantsLater-refl, LinksLater-refl, GroupsLater-update,
}
use ucli_server.Api.Groups.{write_group, with_groups, with_members}
use ucli_server.Api.Groups.Revoke.{
  revoke_credentials, archive, remove_member, leave_projects, is_group_grant, archived_group,
  leave_group,
}
use ucli_server.Api.Groups.Keeps.{mutate-Ensures}
use ucli_server.Api.Groups.Closing.{
  Deleted, Deleted-Later, revoke_credentials-Later, revoke_credentials-Deleted,
}

abbrev pub Archived : GrantDb → ℕ → Type 0
Archived db k = (h : Group) × (find_group db.directory k ≡ some h) × (is_some h.archived_at ≡ true)

pub Archived-Later :
    {acts : Acts} (a b : GrantDb) (k : ℕ) → Later acts a b → Archived a k → Archived b k
unfolding find_group
Archived-Later a b k later (h, here, gone) =
    let next = later.2 k h here in (next.0, next.1, next.2 gone)

-- Every grant that a call revoked is deleted.
abbrev pub Revoked : GrantDb → ℕ → ℕ → Option ℕ → GrantDb → Type 0
Revoked db organization group account later =
    (k : ℕ) (g : Grant)
    → find? (λ x. x.id == k) db.grants ≡ some g
    → is_group_grant organization group account g ≡ true
    → Deleted later k

archive_group-Later :
    {acts : Acts} (db : GrantDb) (k now : ℕ) → Later acts db (write_group db k (archived_group now))
unfolding write_group with_groups archived_group
archive_group-Later db k now = (
  GrantsLater-refl db.grants,
  LinksLater-refl db.links,
  GroupsLater-update _ _ db.directory.groups (λ x. refl) (λ x a. refl),
)

archive_group-Archived :
    (db : GrantDb) (k now : ℕ) (g : Group)
    → find_group db.directory k ≡ some g
    → Archived (write_group db k (archived_group now)) k
unfolding write_group with_groups find_group archived_group
archive_group-Archived db k now g here =
    let at : (g.id == k) ≡ true = find?-passes (λ x. x.id == k) db.directory.groups g here in
    let written =
      find?-update_where (λ x. x.id == k) (λ x. x.id == k) (archived_group now) db.directory.groups
        g (λ x. refl) here in
    (_, written, rw at refl)

-- `archive` deletes the grants of the group and archives it.
pub archive-closes :
    (db : GrantDb) (actor : Principal) (k now : ℕ)
    → GrantIds db.grants
    → Ensures
        (λ res.
          Later (Only (close_act actor.organization_id k now)) db res.1
          × Archived res.1 k
          × Revoked db actor.organization_id k none res.1)
        (archive db actor k now)
unfolding archive audited find_group
archive-closes db actor k now ids =
    mutate-Ensures db actor k _ _ (λ d p. p)
      λ g here. Ensures-ok _ (
        Later-trans db closed (write_group closed k (archived_group now)) first second,
        archive_group-Archived closed k now (first.2 k g here).0 (first.2 k g here).1,
        λ i x found mine.
            Deleted-Later closed (write_group closed k (archived_group now)) i second
              (first.0 ids).0
              (revoke_credentials-Deleted db actor.organization_id k now none ids i x found mine),
      )
  where
    closed : GrantDb
    closed = revoke_credentials db actor.organization_id k now none

    first : Later (Only (close_act actor.organization_id k now)) db closed
    first = revoke_credentials-Later db actor.organization_id k now none ids

    second :
        Later
          (Only (close_act actor.organization_id k now))
          closed
          (write_group closed k (archived_group now))
    second = archive_group-Later closed k now

leave_group-Later :
    {acts : Acts} (db : GrantDb) (actor : Principal) (g : Group) (k account now : ℕ)
    → Later acts db (leave_group db actor g k account now)
unfolding leave_group with_members leave_projects
leave_group-Later {acts = acts} db actor g k account now =
    if_both (Later acts db) (is_region g.type) (Later-refl db) (Later-refl db)

leave_group-grants :
    (db : GrantDb) (actor : Principal) (g : Group) (k account now : ℕ)
    → (leave_group db actor g k account now).grants ≡ db.grants
unfolding leave_group with_members leave_projects
leave_group-grants db actor g k account now =
    if_both (λ (d : GrantDb). d.grants ≡ db.grants) (is_region g.type) refl refl

-- `removeMember` deletes the grants of the member in the group.
pub remove_member-closes :
    (db : GrantDb) (actor : Principal) (k account now : ℕ)
    → GrantIds db.grants
    → Ensures
        (λ res.
          Later (Only (close_act actor.organization_id k now)) db res.1
          × Revoked db actor.organization_id k (some account) res.1)
        (remove_member db actor k account now)
unfolding remove_member audited
remove_member-closes db actor k account now ids =
    mutate-Ensures db actor k _ _ (λ d p. p)
      λ g here. Ensures-require _ _ _ λ h.
        let left = leave_group db actor g k account now in
        let same = leave_group-grants db actor g k account now in
        let left_ids : GrantIds left.grants = subst GrantIds (sym same) ids in
        Ensures-ok _ (
          Later-trans db left (revoke_credentials left actor.organization_id k now (some account))
              (leave_group-Later db actor g k account now)
              (revoke_credentials-Later left actor.organization_id k now (some account) left_ids),
          λ i x found mine.
              revoke_credentials-Deleted left actor.organization_id k now (some account) left_ids i
                x (subst (λ xs. find? (λ y. y.id == i) xs ≡ some x) (sym same) found) mine,
        )
