-- ===== src/Api/Grants/Rows.antt =====
-- The tables of apps/api/src/device-grants.service.ts before and after some calls: grants have gone
-- along their life, and links still lead to their grants.
use ucli_server.Base.{
  ℕ, ◌≡◌, refl, Bool, true, none, some, List, ◌∷◌, ◌==◌, if◌then◌else◌, inl, inr, Bool-cases,
  ==_iff, ◌∙◌, subst, is_some, if_both,
}
use ucli_server.Base.Table.{
  find?, update_where, find?-update_where, Distinct, Distinct-update_where,
}
use ucli_server.Base.Text.{same_codes, same_codes-eq}
use ucli_server.Budget.Ledger.{Group}
use ucli_server.Api.Grants.{Text, Grant, Link, GrantDb}
use ucli_server.Api.Grants.Life.{
  view, Act, Acts, Whatever, Step, Reach, stay, Step-Reach, Reach-trans, Reach-Whatever,
}

-- The primary key of the grants.
abbrev pub GrantIds : List Grant → Type 0
GrantIds xs = Distinct (λ (g : Grant). g.id) xs

abbrev pub GrantsLater : Acts → List Grant → List Grant → Type 0
GrantsLater acts xs ys =
    GrantIds xs
    → GrantIds ys
      × ((k : ℕ) (g : Grant)
          → find? (λ x. x.id == k) xs ≡ some g
          → (h : Grant) × (find? (λ x. x.id == k) ys ≡ some h) × Reach acts (view g) (view h))

abbrev pub LinksLater : List Link → List Link → Type 0
LinksLater xs ys =
    (t : Text) (l : Link)
    → find? (λ x. same_codes x.secret_hash t) xs ≡ some l
    → (m : Link) × (find? (λ x. same_codes x.secret_hash t) ys ≡ some m)
      × (m.id ≡ l.id)
      × (m.device_grant_id ≡ l.device_grant_id)

-- An archived group stays archived.
abbrev pub GroupsLater : List Group → List Group → Type 0
GroupsLater xs ys =
    (k : ℕ) (g : Group)
    → find? (λ x. x.id == k) xs ≡ some g
    → (h : Group) × (find? (λ x. x.id == k) ys ≡ some h)
      × (is_some g.archived_at ≡ true → is_some h.archived_at ≡ true)

abbrev pub Later : Acts → GrantDb → GrantDb → Type 0
Later acts db later =
    GrantsLater acts db.grants later.grants
    × LinksLater db.links later.links
    × GroupsLater db.directory.groups later.directory.groups

pub GrantsLater-refl : {acts : Acts} (xs : List Grant) → GrantsLater acts xs xs
GrantsLater-refl xs ids = (ids, λ k g h. (g, h, stay (view g)))

pub LinksLater-refl : (xs : List Link) → LinksLater xs xs
LinksLater-refl xs t l h = (l, h, refl, refl)

pub GroupsLater-refl : (xs : List Group) → GroupsLater xs xs
GroupsLater-refl xs k g h = (g, h, λ a. a)

pub Later-refl : {acts : Acts} (db : GrantDb) → Later acts db db
Later-refl db =
    (GrantsLater-refl db.grants, LinksLater-refl db.links, GroupsLater-refl db.directory.groups)

pub GrantsLater-trans :
    {acts : Acts} (xs ys zs : List Grant)
    → GrantsLater acts xs ys
    → GrantsLater acts ys zs
    → GrantsLater acts xs zs
GrantsLater-trans xs ys zs f s ids =
    let first = f ids in
    let second = s first.0 in
    (
      second.0,
      λ k g h.
          let one = first.1 k g h in
          let two = second.1 k one.0 one.1 in
          (two.0, two.1, Reach-trans (view g) (view one.0) (view two.0) one.2 two.2),
    )

pub LinksLater-trans :
    (xs ys zs : List Link) → LinksLater xs ys → LinksLater ys zs → LinksLater xs zs
LinksLater-trans xs ys zs f s t l h =
    let one = f t l h in let two = s t one.0 one.1 in (two.0, two.1, two.2 ∙ one.2, two.3 ∙ one.3)

pub GroupsLater-trans :
    (xs ys zs : List Group) → GroupsLater xs ys → GroupsLater ys zs → GroupsLater xs zs
GroupsLater-trans xs ys zs f s k g h =
    let one = f k g h in let two = s k one.0 one.1 in (two.0, two.1, λ a. two.2 (one.2 a))

pub Later-trans : {acts : Acts} (a b c : GrantDb) → Later acts a b → Later acts b c → Later acts a c
Later-trans a b c f s = (
  GrantsLater-trans a.grants b.grants c.grants f.0 s.0,
  LinksLater-trans a.links b.links c.links f.1 s.1,
  GroupsLater-trans a.directory.groups b.directory.groups c.directory.groups f.2 s.2,
)

pub Later-Whatever : {acts : Acts} (a b : GrantDb) → Later acts a b → Later Whatever a b
Later-Whatever a b later = (
  λ ids.
      let both = later.0 ids in
      (
        both.0,
        λ k g h.
            let next = both.1 k g h in
            (next.0, next.1, Reach-Whatever (view g) (view next.0) next.2),
      ),
  later.1,
  later.2,
)

-- An update of grants, where each row that it writes takes a step.
pub GrantsLater-update :
    {acts : Acts} (a : Act) (p : Grant → Bool) (f : Grant → Grant) (xs : List Grant)
    → ((x : Grant) → (f x).id ≡ x.id)
    → (GrantIds xs
        → (k : ℕ) (x : Grant) → find? (λ y. y.id == k) xs ≡ some x
        → p x ≡ true
        → Step a (view x) (view (f x)))
    → acts a
    → GrantsLater acts xs (update_where p f xs)
GrantsLater-update a p f xs same steps may ids = (
  Distinct-update_where (λ g. g.id) p f xs same ids,
  λ k g h. (
    if p g then f g else g,
    find?-update_where (λ x. x.id == k) p f xs g (λ x. rw (same x) refl) h,
    elim (Bool-cases (p g)) [
      | inl e ↦ rw e (Step-Reach a (view g) (view (f g)) may (steps ids k g h e))
      | inr e ↦ rw e (stay (view g))
    ],
  ),
)

-- An update of links that keeps what finds them.
pub LinksLater-update :
    (p : Link → Bool) (f : Link → Link) (xs : List Link)
    → ((x : Link) → (f x).secret_hash ≡ x.secret_hash)
    → ((x : Link) → ((f x).id ≡ x.id) × ((f x).device_grant_id ≡ x.device_grant_id))
    → LinksLater xs (update_where p f xs)
LinksLater-update p f xs same keeps t l h = (
  if p l then f l else l,
  find?-update_where (λ x. same_codes x.secret_hash t) p f xs l (λ x. rw (same x) refl) h,
  elim (Bool-cases (p l)) [ inl e ↦ rw e (keeps l).0 | inr e ↦ rw e refl ],
  elim (Bool-cases (p l)) [ inl e ↦ rw e (keeps l).1 | inr e ↦ rw e refl ],
)

-- An update of groups that keeps a group archived.
pub GroupsLater-update :
    (p : Group → Bool) (f : Group → Group) (xs : List Group)
    → ((x : Group) → (f x).id ≡ x.id)
    → ((x : Group) → is_some x.archived_at ≡ true → is_some (f x).archived_at ≡ true)
    → GroupsLater xs (update_where p f xs)
GroupsLater-update p f xs same keeps k g h = (
  if p g then f g else g,
  find?-update_where (λ x. x.id == k) p f xs g (λ x. rw (same x) refl) h,
  λ a. if_both (λ (x : Group). is_some x.archived_at ≡ true) (p g) (keeps g a) a,
)

pub GroupsLater-insert :
    (x : Group) (xs : List Group) → find? (λ y. y.id == x.id) xs ≡ none → GroupsLater xs (x ∷ xs)
GroupsLater-insert x xs fresh k g h = elim (Bool-cases (x.id == k)) [
  | inl e ↦
      let same : x.id ≡ k = (==_iff x.id k).0 e in
      let clash : find? (λ y. y.id == k) xs ≡ none = rw (← same) fresh in absurd (cc)
  | inr e ↦ (g, rw e h, λ a. a)
]

pub GrantsLater-insert :
    {acts : Acts} (x : Grant) (xs : List Grant)
    → find? (λ y. y.id == x.id) xs ≡ none
    → GrantsLater acts xs (x ∷ xs)
GrantsLater-insert {acts = acts} x xs fresh ids = ((fresh, ids), found)
  where
    found :
        (k : ℕ) (g : Grant)
        → find? (λ y. y.id == k) xs ≡ some g
        → (h : Grant) × (find? (λ y. y.id == k) (x ∷ xs) ≡ some h) × Reach acts (view g) (view h)
    found k g h = elim (Bool-cases (x.id == k)) [
      | inl e ↦
          let same : x.id ≡ k = (==_iff x.id k).0 e in
          let clash : find? (λ y. y.id == k) xs ≡ none = rw (← same) fresh in absurd (cc)
      | inr e ↦ (g, rw e h, stay (view g))
    ]

pub LinksLater-insert :
    (x : Link) (xs : List Link)
    → find? (λ y. same_codes y.secret_hash x.secret_hash) xs ≡ none
    → LinksLater xs (x ∷ xs)
LinksLater-insert x xs fresh t l h = elim (Bool-cases (same_codes x.secret_hash t)) [
  | inl e ↦
      let same : x.secret_hash ≡ t = same_codes-eq x.secret_hash t e in
      let clash : find? (λ y. same_codes y.secret_hash t) xs ≡ none =
        subst (λ u. find? (λ y. same_codes y.secret_hash u) xs ≡ none) same fresh in
      absurd (cc)
  | inr e ↦ (l, rw e h, refl, refl)
]
