-- ===== src/Api/Grants/Grouping.antt =====
-- `setGroupRequirement` and `assignGroups` of apps/api/src/device-grants.service.ts take grants along
-- their life.
use ucli_server.Base.{
  ℕ, ◌≡◌, refl, Bool, true, Option, none, List, [], ◌∷◌, ◌==◌, ◌&&◌, is_none, is_none-eq, arith,
  ltb, ==_iff,
}
use ucli_server.Base.Sorting.{sort_by}
use ucli_server.Budget.Ensures.{
  Ensures, Ensures-ok, Ensures-bind, Ensures-then, Ensures-require, Ensures-map, Ensures-if,
}
use ucli_server.Api.Grants.{Grant, GrantDb}
use ucli_server.Api.Grants.Store.{audited}
use ucli_server.Api.Grants.Assign.{
  Mapping, is_owned, write_group, assign_group, assign_each, assign_groups, set_group_requirement,
}
use ucli_server.Api.Grants.Life.{view, Acts, Only, assign_act, assign_step}
use ucli_server.Api.Grants.Rows.{
  Later, Later-refl, Later-trans, GrantsLater-update, LinksLater-refl, GroupsLater-refl,
}

pub set_group_requirement-Later :
    {acts : Acts} (db : GrantDb) (organization actor : ℕ) (required : Bool) (now : ℕ)
    → Ensures
        (λ res. Later acts db res.1)
        (set_group_requirement db organization actor required now)
unfolding set_group_requirement audited
set_group_requirement-Later db organization actor required now =
    Ensures-bind _ _ λ o h. Ensures-require _ _ _ λ h₁. Ensures-ok _ (Later-refl db)

-- What the conditions of the update say of a row.
owned-is_free :
    (organization : ℕ) (m : Mapping) (x : Grant)
    → (is_owned organization m x && is_none x.group_id) ≡ true
    → (x.organization_id ≡ organization) × (x.deleted_at ≡ none) × (x.group_id ≡ none)
unfolding is_owned
owned-is_free organization m x t =
    let both =
      last_tests (x.id == m.grant_id) (x.organization_id == organization)
        (x.account_id == m.account_id) (is_none x.deleted_at) (is_none x.group_id) t in
    (
      (==_iff x.organization_id organization).0 both.0,
      is_none-eq x.deleted_at both.1,
      is_none-eq x.group_id both.2,
    )
  where
    last_tests :
        (a b c d e : Bool) → ((a && b && c && d) && e) ≡ true → (b ≡ true) × (d ≡ true) × (e ≡ true)
    last_tests a b c d e h = (ground arith, ground arith, ground arith)

write_group-Later :
    (db : GrantDb) (organization actor : ℕ) (g : Grant) (m : Mapping) (project_id : Option ℕ)
    → Ensures
        (Later (Only (assign_act organization)) db)
        (write_group db organization actor g m project_id)
unfolding write_group audited
write_group-Later db organization actor g m project_id = Ensures-require _ _ _ λ h. Ensures-ok _ (
  GrantsLater-update (assign_act organization) _ _ db.grants (λ x. refl)
      (λ ids i x found t.
        let free = owned-is_free organization m x t in
        assign_step organization (view x) m.group_id project_id free.0 free.1 free.2)
      refl,
  LinksLater-refl db.links,
  GroupsLater-refl db.directory.groups,
)

assign_group-Later :
    (db : GrantDb) (organization actor : ℕ) (dry_run : Bool) (m : Mapping)
    → Ensures
        (Later (Only (assign_act organization)) db)
        (assign_group db organization actor dry_run m)
unfolding assign_group
assign_group-Later db organization actor dry_run m = Ensures-bind _ _ λ g h.
    Ensures-require _ _ _ λ h₁. Ensures-bind _ _ λ u h₂. Ensures-bind _ _ λ group h₃.
      Ensures-bind _ _ λ project h₄.
        Ensures-if dry_run _ _ (λ e. Ensures-ok _ (Later-refl db))
          (λ e. write_group-Later db organization actor g m project)

assign_each-Later :
    (db : GrantDb) (organization actor : ℕ) (dry_run : Bool) (ms : List Mapping)
    → Ensures
        (Later (Only (assign_act organization)) db)
        (assign_each db organization actor dry_run ms)
unfolding assign_each
assign_each-Later db organization actor dry_run [] = Ensures-ok _ (Later-refl db)
assign_each-Later db organization actor dry_run (m ∷ ms) =
    Ensures-then _ _ (assign_group-Later db organization actor dry_run m) λ d e first.
      Ensures-map _ (assign_each-Later d organization actor dry_run ms)
        λ last second. Ensures-ok _ (Later-trans db d last first second)

pub assign_groups-Later :
    (db : GrantDb) (organization actor : ℕ) (mappings : List Mapping) (dry_run : Bool)
    → Ensures
        (λ res. Later (Only (assign_act organization)) db res.1)
        (assign_groups db organization actor mappings dry_run)
unfolding assign_groups
assign_groups-Later db organization actor mappings dry_run = Ensures-require _ _ _ λ h.
    Ensures-bind _ _ λ o h₁. Ensures-bind _ _ λ u h₂.
      Ensures-then _ _
        (assign_each-Later db organization actor dry_run
          (sort_by (λ m n. ltb m.grant_id n.grant_id) mappings))
        λ d e later. Ensures-ok _ later
