-- ===== src/Budget/Ledger/Retry.antt =====
-- What `reserve` of the two budget services in packages/quota/src writes, and what a repeated call meets.
use text.Mathlib.TextPositions.{eq_refl}
use ucli_server.Budget.Ledger.{Audit, Db, Entry, Mode, Period, Reservation, is_reserved}
use ucli_server.Budget.Ledger.Store.{
  Calendar, alert, find_operation, find_period, period_of, put_period, reference, threshold,
  upsert_period,
}
use ucli_server.Budget.Ensures.{
  Ensures, Ensures-bind, Ensures-err, Ensures-if, Ensures-ok, Ensures-then,
}
use ucli_server.Base.{
  List, Option, String, ap, if_both, is_some, ltb, none, refl, same_option, some, subst, true, ℕ,
  ◌&&◌, ◌∙◌, ◌∷◌, ◌≡◌,
}
use ucli_server.Budget.Ledger.Booking.{add_reserved, book}
use ucli_server.Budget.Ledger.Balance.Helpers.{create_entry-eq-ok}

-- Who may use what is as before.
pub record SameAccess (db d : Db) : Type 0 where
  pub groups : d.groups ≡ db.groups
  pub members : d.members ≡ db.members
  pub keys : d.keys ≡ db.keys
  pub projects : d.projects ≡ db.projects
  pub project_members : d.project_members ≡ db.project_members
  pub memberships : d.memberships ≡ db.memberships
  pub devices : d.devices ≡ db.devices

pub SameAccess-refl : (db : Db) → SameAccess db db
SameAccess-refl db = record {
  groups = refl;
  members = refl;
  keys = refl;
  projects = refl;
  project_members = refl;
  memberships = refl;
  devices = refl;
}

SameAccess-trans : {a b c : Db} → SameAccess a b → SameAccess b c → SameAccess a c
SameAccess-trans f g = record {
  groups = g.groups ∙ f.groups;
  members = g.members ∙ f.members;
  keys = g.keys ∙ f.keys;
  projects = g.projects ∙ f.projects;
  project_members = g.project_members ∙ f.project_members;
  memberships = g.memberships ∙ f.memberships;
  devices = g.devices ∙ f.devices;
}

-- No access row is written, and no entry.
pub record Grows (db d : Db) : Type 0 where
  pub access : SameAccess db d
  pub entries : d.entries ≡ db.entries

Grows-refl : (db : Db) → Grows db db
Grows-refl db = record { access = SameAccess-refl db; entries = refl }

Grows-trans : {a b c : Db} → Grows a b → Grows b c → Grows a c
Grows-trans f g = record {
  access = SameAccess-trans f.access g.access;
  entries = g.entries ∙ f.entries;
}

upsert-Grows :
    (db : Db) (new : Period) (o : Option Period)
    → Ensures (λ r. Grows db r.1) (upsert_period db new o)
unfolding upsert_period
upsert-Grows db new (some p) = Ensures-ok _ (Grows-refl db)
upsert-Grows db new none =
    Ensures-if (is_some (find_period db new.id)) _ _ (λ _. Ensures-err _)
      λ _. Ensures-ok _ (record {
        access = (record {
          groups = refl;
          members = refl;
          keys = refl;
          projects = refl;
          project_members = refl;
          memberships = refl;
          devices = refl;
        });
        entries = refl;
      })

pub period_of-Grows :
    (calendar : Calendar) (db : Db) (mode : Mode) (timezone : String) (owner_id : ℕ)
    (new : String → Period) (at : ℕ)
    → Ensures (λ r. Grows db r.1) (period_of calendar db mode timezone owner_id new at)
unfolding period_of
period_of-Grows calendar db mode timezone owner_id new at =
    Ensures-bind _ _ λ key _. upsert-Grows db (new key) _

add_reserved-Grows :
    (db : Db) (p : Period) (amount : ℕ) → Ensures (Grows db) (add_reserved db p amount)
unfolding add_reserved put_period
add_reserved-Grows db p amount = Ensures-bind _ _ λ _ _. Ensures-bind _ _ λ _ _.
    Ensures-ok _ (record {
      access = (record {
        groups = refl;
        members = refl;
        keys = refl;
        projects = refl;
        project_members = refl;
        memberships = refl;
        devices = refl;
      });
      entries = refl;
    })

alerted-Grows :
    (db : Db) (p : Period) (n : ℕ) (rows : List Audit)
    → Grows db (put_period (record db { audits = rows }) (record p { alerted_threshold = n }))
unfolding put_period
alerted-Grows db p n rows = record {
  access = (record {
    groups = refl;
    members = refl;
    keys = refl;
    projects = refl;
    project_members = refl;
    memberships = refl;
    devices = refl;
  });
  entries = refl;
}

alert-Grows : (db : Db) (k : ℕ) → Ensures (λ r. Grows db r.1) (alert db k)
unfolding alert put_period
alert-Grows db k = Ensures-bind _ _ λ p _. Ensures-ok _ (
    if_both (Grows db) (ltb p.alerted_threshold (threshold p)) (alerted-Grows db p _ _)
      (Grows-refl db))

-- The newest row is the one that an operation finds.
find_operation-new :
    (e : Entry) (db d : Db) (es : List Entry)
    → d.entries ≡ e ∷ es
    → find_operation d e.operation_id ≡ some e
unfolding find_operation
find_operation-new e db d es h = rw (h, eq_refl e.operation_id) refl

-- The row that a repeated reservation returns.
abbrev pub IsRepeat : Entry → ℕ → Type 0
IsRepeat e hash =
    same_option e.snapshot.reservation_fingerprint (some hash) && is_reserved e.status ≡ true

-- What a new reservation leaves behind for a call under the same operation.
pub record Recorded (db : Db) (name : String) (hash : ℕ) (r : Reservation × Db) : Type 0 where
  pub access : SameAccess db r.1
  pub entry : Entry
  pub found : find_operation r.1 name ≡ some entry
  pub repeat : IsRepeat entry hash
  pub answer : r.0 ≡ reference entry

pub book-Recorded :
    (db : Db) (p : Period) (amount hash : ℕ) (e : Entry)
    → IsRepeat e hash
    → Ensures (Recorded db e.operation_id hash) (book db p amount e)
unfolding book
book-Recorded db p amount hash e repeat = Ensures-then _ _ (add_reserved-Grows db p amount) λ d _ f.
    Ensures-bind _ _ λ created h. Ensures-then _ _ (alert-Grows created p.id) λ s _ g.
      let made : created ≡ record d { entries = e ∷ d.entries } =
        create_entry-eq-ok d created e h in
      let access : SameAccess (record d { entries = e ∷ d.entries }) s.1 =
        subst (λ c. SameAccess c s.1) made g.access in
      Ensures-ok _ (record {
        access = record {
          groups = access.groups ∙ f.access.groups;
          members = access.members ∙ f.access.members;
          keys = access.keys ∙ f.access.keys;
          projects = access.projects ∙ f.access.projects;
          project_members = access.project_members ∙ f.access.project_members;
          memberships = access.memberships ∙ f.access.memberships;
          devices = access.devices ∙ f.access.devices;
        };
        entry = e;
        found = find_operation-new e db s.1 d.entries (g.entries ∙ ap (λ (c : Db). c.entries) made);
        repeat = repeat;
        answer = refl;
      })

-- The same, behind what `period` wrote.
pub Recorded-after :
    {a b : Db} {name : String} {hash : ℕ} {r : Reservation × Db}
    → SameAccess a b
    → Recorded b name hash r
    → Recorded a name hash r
Recorded-after same r = record {
  access = SameAccess-trans same r.access;
  entry = r.entry;
  found = r.found;
  repeat = r.repeat;
  answer = r.answer;
}
