-- ===== src/Api/Grants/Life.antt =====
-- The life of a grant, apart from the tables that keep it: what
-- apps/api/src/device-grants.service.ts promises of a grant, as steps from one state to the next.
use ucli_server.Base.{◌+◌, ℕ, ◌≡◌, refl, false, none, some, Option, List, [], ◌∷◌}
use ucli_server.Api.Grants.{Grant}
use ucli_server.Api.Grants.Status.{is_past}

pub record View : Type 0 where
  pub id : ℕ
  pub organization_id : ℕ
  pub account_id : ℕ
  pub group_id : Option ℕ
  pub project_id : Option ℕ
  pub device_id : Option ℕ
  pub expires_at : Option ℕ
  pub disabled_at : Option ℕ
  pub deleted_at : Option ℕ
  pub bound_at : Option ℕ
  pub redeem_retry_until : Option ℕ
  pub created_by_id : ℕ

abbrev pub view : Grant → View
view g = record {
  id = g.id;
  organization_id = g.organization_id;
  account_id = g.account_id;
  group_id = g.group_id;
  project_id = g.project_id;
  device_id = g.device_id;
  expires_at = g.expires_at;
  disabled_at = g.disabled_at;
  deleted_at = g.deleted_at;
  bound_at = g.bound_at;
  redeem_retry_until = g.redeem_retry_until;
  created_by_id = g.created_by_id;
}

-- A grant that a call names, and that is not deleted.
pub record IsNamed (organization k : ℕ) (v : View) : Type 0 where
  pub at_id : v.id ≡ k
  pub at_organization : v.organization_id ≡ organization
  pub is_live : v.deleted_at ≡ none

-- What a call may do to grants: the organization that it is for, the grant or group that it
-- names, and its time.
pub data Act : Type 0 where
  assign_act : ℕ → Act
  redeem_act : ℕ → Act
  expire_act enable_act : ℕ → ℕ → Act
  disable_act delete_act : ℕ → ℕ → ℕ → Act
  close_act : ℕ → ℕ → ℕ → Act
  other_act : Act

-- One change of a grant by a call. A deleted grant does not change, a device is bound once, by a
-- redemption at whose time the grant is neither disabled nor expired, and a group is given once.
pub data Step : Act → View → View → Type 0 where
  assign_step :
      (organization : ℕ) (v : View) (group : ℕ) (project : Option ℕ)
      → v.organization_id ≡ organization
      → v.deleted_at ≡ none
      → v.group_id ≡ none
      → Step (assign_act organization) v (record v { group_id = some group; project_id = project })
  bind_step :
      (now : ℕ) (v : View) (device_id : ℕ)
      → v.deleted_at ≡ none
      → v.disabled_at ≡ none
      → is_past v.expires_at now ≡ false
      → v.device_id ≡ none
      → Step (redeem_act now) v (record v {
        device_id = some device_id;
        bound_at = some now;
        redeem_retry_until = some (now + 600000);
      })
  expire_step :
      (organization k : ℕ) (v : View) (t : Option ℕ)
      → IsNamed organization k v
      → Step (expire_act organization k) v (record v { expires_at = t })
  enable_step :
      (organization k : ℕ) (v : View)
      → IsNamed organization k v
      → Step (enable_act organization k) v (record v { disabled_at = none })
  disable_step :
      (organization k now : ℕ) (v : View)
      → IsNamed organization k v
      → Step (disable_act organization k now) v (record v { disabled_at = some now })
  delete_step :
      (organization k now : ℕ) (v : View)
      → IsNamed organization k v
      → Step (delete_act organization k now) v (record v { deleted_at = some now })
  close_step :
      (organization group now : ℕ) (v : View)
      → v.organization_id ≡ organization
      → v.group_id ≡ some group
      → v.deleted_at ≡ none
      → Step (close_act organization group now) v (record v { deleted_at = some now })

abbrev pub Acts : Type 1
Acts = Act → Type 0

abbrev pub Only : Act → Acts
Only a b = b ≡ a

abbrev pub Whatever : Acts
Whatever a = Unit

-- Steps of a grant, by acts of some kind.
pub data Reach (acts : Acts) : View → View → Type 0 where
  stay : (v : View) → Reach acts v v
  go : (a : Act) (u v w : View) → acts a → Step a u v → Reach acts v w → Reach acts u w

-- The steps of a grant over calls, one call after the other, by what each of them may do.
pub data Along : List Act → View → View → Type 0 where
  end_along : (v : View) → Along [] v v
  next_along :
      (a : Act) (rest : List Act) (u v w : View)
      → Reach (Only a) u v
      → Along rest v w
      → Along (a ∷ rest) u w

pub Step-Reach : {acts : Acts} (a : Act) (u v : View) → acts a → Step a u v → Reach acts u v
Step-Reach a u v p s = go a u v v p s (stay v)

pub Reach-trans : {acts : Acts} (u v w : View) → Reach acts u v → Reach acts v w → Reach acts u w
Reach-trans u v w (stay _) r = r
Reach-trans u v w (go a _ x _ p s q) r = go a u x w p s (Reach-trans x v w q r)

pub Reach-Whatever : {acts : Acts} (u v : View) → Reach acts u v → Reach Whatever u v
Reach-Whatever u v (stay _) = stay u
Reach-Whatever u v (go a _ x _ p s q) = go a u x v tt s (Reach-Whatever x v q)

Step-device :
    (a : Act) (u v : View) (d : ℕ) → Step a u v → u.device_id ≡ some d → v.device_id ≡ some d
Step-device a u v d (assign_step o _ g p x y z) h = h
Step-device a u v d (bind_step now _ e x y z n) h = absurd (cc)
Step-device a u v d (expire_step o k _ t x) h = h
Step-device a u v d (enable_step o k _ x) h = h
Step-device a u v d (disable_step o k now _ x) h = h
Step-device a u v d (delete_step o k now _ x) h = h
Step-device a u v d (close_step o g now _ x y z) h = h

-- A device is bound for good.
pub Reach-device :
    {acts : Acts} (u v : View) (d : ℕ)
    → Reach acts u v
    → u.device_id ≡ some d
    → v.device_id ≡ some d
Reach-device u v d (stay _) h = h
Reach-device u v d (go a _ x _ p s r) h = Reach-device x v d r (Step-device a u x d s h)

deleted_final : (a : Act) (u v : View) (t : ℕ) → Step a u v → u.deleted_at ≡ some t → ⊥
deleted_final a u v t (assign_step o _ g p x y z) h = absurd (cc)
deleted_final a u v t (bind_step now _ e x y z n) h = absurd (cc)
deleted_final a u v t (expire_step o k _ e x) h = let live = x.is_live in absurd (cc)
deleted_final a u v t (enable_step o k _ x) h = let live = x.is_live in absurd (cc)
deleted_final a u v t (disable_step o k now _ x) h = let live = x.is_live in absurd (cc)
deleted_final a u v t (delete_step o k now _ x) h = let live = x.is_live in absurd (cc)
deleted_final a u v t (close_step o g now _ x y z) h = absurd (cc)

-- A deleted grant does not change.
pub Reach-deleted :
    {acts : Acts} (u v : View) (t : ℕ) → Reach acts u v → u.deleted_at ≡ some t → v ≡ u
Reach-deleted u v t (stay _) h = refl
Reach-deleted u v t (go a _ x _ p s r) h = absurd (deleted_final a u x t s h)
