-- ===== src/Api/Groups/Keeps.antt =====
-- Each operation of apps/api/src/usage-groups.service.ts takes grants along their life and keeps an
-- archived group archived.
use ucli_server.Base.{ℕ, ◌≡◌, refl, Bool, true, Option, some, List, is_some, is_none-eq, String}
use ucli_server.Budget.Result.{or_throw-eq-ok}
use ucli_server.Budget.Money.{Amount}
use ucli_server.Budget.Ensures.{Ensures, Ensures-ok, Ensures-bind, Ensures-then, Ensures-require}
use ucli_server.Budget.Ledger.{Group, Principal, UnitType}
use ucli_server.Budget.Ledger.Store.{find_group}
use ucli_server.Budget.Group.Rules.{lock_usage_group}
use ucli_server.Api.Grants.{Text, GrantDb, GroupAction, group_changed}
use ucli_server.Api.Grants.Store.{audited}
use ucli_server.Api.Grants.Life.{Acts}
use ucli_server.Api.Grants.Rows.{
  Later, Later-refl, GrantsLater-refl, LinksLater-refl, GroupsLater-update, GroupsLater-insert,
}
use ucli_server.Api.Groups.{
  Change, mutate, create, update, set_enabled, add_member, set_leader, create_application,
  reject_application, replace_models, write_group, with_groups, with_members, with_applications,
}

lock-found :
    (db : GrantDb) (organization k : ℕ)
    → Ensures
        (λ g. find_group db.directory k ≡ some g)
        (lock_usage_group db.directory organization k)
unfolding lock_usage_group
lock-found db organization k =
    Ensures-bind _ _ λ g h. Ensures-require _ _ _ λ h₁. Ensures-ok _ (or_throw-eq-ok _ _ g h)

-- What a change ensures of the tables other than the audit log, `mutate` ensures.
pub mutate-Ensures {ℓ κ} :
    {A : Type ℓ} {P : GrantDb → Type κ} (db : GrantDb) (actor : Principal) (k : ℕ)
    (action : GroupAction) (change : Change A)
    → ((d : GrantDb) → P d → P (audited d actor.sub actor.organization_id (group_changed action) k))
    → ((g : Group) → find_group db.directory k ≡ some g → Ensures (λ res. P res.1) (change g))
    → Ensures (λ res. P res.1) (mutate db actor k action change)
unfolding mutate
mutate-Ensures db actor k action change spared kept = Ensures-bind _ _ λ u h.
    Ensures-then _ _ (lock-found db actor.organization_id k) λ g h₁ here.
      Ensures-require _ _ _
        λ h₂. Ensures-then (change g) _ (kept g here) λ res h₃ p. Ensures-ok _ (spared res.1 p)

mutate-Later {ℓ} :
    {acts : Acts} {A : Type ℓ} (db : GrantDb) (actor : Principal) (k : ℕ) (action : GroupAction)
    (change : Change A)
    → ((g : Group) → Ensures (λ res. Later acts db res.1) (change g))
    → Ensures (λ res. Later acts db res.1) (mutate db actor k action change)
unfolding audited
mutate-Later db actor k action change kept =
    mutate-Ensures db actor k action change (λ d p. p) (λ g here. kept g)

write_group-Later :
    {acts : Acts} (db : GrantDb) (k : ℕ) (change : Group → Group)
    → ((x : Group) → (change x).id ≡ x.id)
    → ((x : Group) → is_some x.archived_at ≡ true → is_some (change x).archived_at ≡ true)
    → Later acts db (write_group db k change)
unfolding write_group with_groups
write_group-Later db k change same keeps = (
  GrantsLater-refl db.grants,
  LinksLater-refl db.links,
  GroupsLater-update _ _ db.directory.groups same keeps,
)

pub create-Later :
    {acts : Acts} (db : GrantDb) (actor : Principal) (name : Text) (type : UnitType)
    (description : Text) (new_id : ℕ)
    → Ensures (λ res. Later acts db res.1) (create db actor name type description new_id)
unfolding create find_group with_groups audited
create-Later db actor name type description new_id = Ensures-bind _ _ λ u h.
    Ensures-bind _ _ λ o h₁. Ensures-require _ _ _ λ fresh. Ensures-ok _ (
      GrantsLater-refl db.grants,
      LinksLater-refl db.links,
      GroupsLater-insert _ db.directory.groups (is_none-eq _ fresh),
    )

pub update-Later :
    {acts : Acts} (db : GrantDb) (actor : Principal) (k : ℕ) (name description : Option Text)
    → Ensures (λ res. Later acts db res.1) (update db actor k name description)
unfolding update
update-Later db actor k name description =
    mutate-Later db actor k _ _ λ g. Ensures-ok _ (Later-refl db)

pub set_enabled-Later :
    {acts : Acts} (db : GrantDb) (actor : Principal) (k : ℕ) (enabled : Bool)
    → Ensures (λ res. Later acts db res.1) (set_enabled db actor k enabled)
unfolding set_enabled
set_enabled-Later db actor k enabled =
    mutate-Later db actor k _ _ λ g. Ensures-ok _ (write_group-Later db k _ (λ x. refl) (λ x a. a))

pub add_member-Later :
    {acts : Acts} (db : GrantDb) (actor : Principal) (k account now : ℕ)
    → Ensures (λ res. Later acts db res.1) (add_member db actor k account now)
unfolding add_member with_members
add_member-Later db actor k account now = mutate-Later db actor k _ _ λ g.
    Ensures-bind _ _
      λ m h. Ensures-bind _ _ λ a h₁. Ensures-require _ _ _ λ h₂. Ensures-ok _ (Later-refl db)

pub set_leader-Later :
    {acts : Acts} (db : GrantDb) (actor : Principal) (k account : ℕ) (leader : Bool)
    → Ensures (λ res. Later acts db res.1) (set_leader db actor k account leader)
unfolding set_leader with_members
set_leader-Later db actor k account leader =
    mutate-Later db actor k _ _ λ g. Ensures-require _ _ _ λ h. Ensures-ok _ (Later-refl db)

pub create_application-Later :
    {acts : Acts} (db : GrantDb) (actor : Principal) (k : ℕ) (requested : Amount)
    (applicant : Option ℕ) (new_id : ℕ)
    → Ensures
        (λ res. Later acts db res.1)
        (create_application db actor k requested applicant new_id)
unfolding create_application with_applications
create_application-Later db actor k requested applicant new_id = mutate-Later db actor k _ _ λ g.
    Ensures-bind _ _ λ amount h. Ensures-require _ _ _ λ h₁.
      Ensures-bind _ _
        λ m h₂. Ensures-require _ _ _ λ h₃. Ensures-require _ _ _ λ h₄. Ensures-ok _ (Later-refl db)

pub reject_application-Later :
    {acts : Acts} (db : GrantDb) (actor : Principal) (group k : ℕ) (remark : Option String)
    (now : ℕ)
    → Ensures (λ res. Later acts db res.1) (reject_application db actor group k remark now)
unfolding reject_application with_applications
reject_application-Later db actor group k remark now =
    mutate-Later db actor group _ _
      λ g. Ensures-require _ _ _ λ h. Ensures-require _ _ _ λ h₁. Ensures-ok _ (Later-refl db)

pub replace_models-Later :
    {acts : Acts} (db : GrantDb) (actor : Principal) (k : ℕ) (ids : List ℕ)
    → Ensures (λ res. Later acts db res.1) (replace_models db actor k ids)
unfolding replace_models
replace_models-Later db actor k ids =
    mutate-Later db actor k _ _ λ g. Ensures-require _ _ _ λ h. Ensures-ok _ (Later-refl db)
