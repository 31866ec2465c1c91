-- ===== src/Budget/Ledger/Balance/Helpers.antt =====
-- The helpers of the two budget services in packages/quota/src, and the accounting invariant.
use ucli_server.Base.{
  ℕ, ◌+◌, ◌≡◌, refl, sym, Bool, false, Option, none, some, ◌∷◌, String, ltb, arith, ◌==◌, if_both,
  if◌then◌else◌, is_some, ==_iff,
}
use ucli_server.Base.Table.{find?, find?-passes, find?-key, find?-self, All-find?}
use ucli_server.Budget.Result.{Result, ok, or_throw, or_throw-eq-ok}
use ucli_server.Budget.Ensures.{
  Ensures, Ensures-ok, Ensures-err, Ensures-if, Ensures-bind, Ensures-require,
}
use ucli_server.Budget.Ledger.{
  Period, Entry, Usage, Db, Reservation, Kind, Snapshot, Principal, Mode,
}
use ucli_server.Budget.Ledger.Store.{
  Calendar, OperationInput, find_period, find_entry, put_period, put_entry, create_entry,
  create_usage, shift, upsert_period, alert, locked, adjustment, threshold, exceeds,
  budget_period_key, Rules, period_of,
}
use ucli_server.Budget.Ledger.Balance.{
  Balanced, Balanced-same, put_period-Balanced, create-Balanced, new_period-Balanced, is_open,
  UnpaidIsZero,
}

-- The invariant holds of the database that a transaction returns.
abbrev pub Keeps : {A : Type 0} → Result (A × Db) → Type 0
Keeps m = Ensures (λ r. Balanced r.1) m

-- The sum that a checked column takes.
pub shift-sum : (v plus minus w : ℕ) → shift v plus minus ≡ ok w → w + minus ≡ v + plus
unfolding shift
shift-sum v plus minus w h = ground arith

-- `alert`, also where an entry is written behind it.
pub alert-Keeps : (db : Db) (k : ℕ) → Balanced db → Keeps (alert db k)
unfolding alert find_period
alert-Keeps db k b = Ensures-bind (or_throw (find_period db k) _) _ λ p found. Ensures-ok _ (
    if_both Balanced (ltb p.alerted_threshold (threshold p))
      (put_period-Balanced _ p _ (Balanced-same db _ b refl refl)
        (find?-self (λ r. r.id) k db.periods p (or_throw-eq-ok _ _ p found)) refl refl refl)
      b)

pub alert-put_entry :
    (db : Db) (k : ℕ) (f : Bool → Entry)
    → ((x : Bool) → Balanced (put_entry db (f x)))
    → Ensures (λ r. Balanced (put_entry r.1 (f r.0))) (alert db k)
unfolding alert find_period put_entry put_period
alert-put_entry db k f b = Ensures-bind (or_throw (find_period db k) _) _ λ p found. Ensures-ok _ (
    if_both (λ d. Balanced (put_entry d (f (exceeds p)))) (ltb p.alerted_threshold (threshold p))
      (put_period-Balanced _ p _
        (Balanced-same (put_entry db (f (exceeds p))) _ (b (exceeds p)) refl refl)
        (find?-self (λ r. r.id) k db.periods p (or_throw-eq-ok _ _ p found)) refl refl refl)
      (b (exceeds p)))

-- The rows that `locked` hands over.
pub locked-Keeps :
    {A : Type 0} (rules : Rules) (db : Db) (ref : Reservation)
    (change : Entry → Period → Result (A × Db))
    → ((e : Entry) (p : Period)
        → find? (λ r. r.id == e.id) db.entries ≡ some e
        → find? (λ r. r.id == p.id) db.periods ≡ some p
        → e.period_id ≡ p.id
        → Keeps (change e p))
    → Keeps (locked rules db ref change)
unfolding locked find_entry find_period
locked-Keeps rules db ref change k = Ensures-bind (or_throw (find_entry db ref.id) _) _ λ e found.
    Ensures-require _ _ _ λ _. Ensures-require _ _ _ λ _. Ensures-require _ _ _ λ _.
      Ensures-require _ _ _ λ _. Ensures-bind (rules.lock db e.organization_id e.owner_id) _ λ _ _.
        Ensures-bind (or_throw (find_period db e.period_id) _) _ λ p found_period.
          let there : find? (λ r. r.id == e.period_id) db.periods ≡ some p =
            or_throw-eq-ok _ _ p found_period in
          k e p (find?-self (λ r. r.id) ref.id db.entries e (or_throw-eq-ok _ _ e found))
            (find?-self (λ r. r.id) e.period_id db.periods p there)
            (sym (
              (==_iff p.id e.period_id).0
                (find?-passes (λ r. r.id == e.period_id) db.periods p there)))

-- The period that `period` returns is in the database that it returns.
pub record Prepared (r : Period × Db) : Type 0 where
  pub balanced : Balanced r.1
  pub stored : find? (λ q. q.id == r.0.id) r.1.periods ≡ some r.0

pub upsert-Prepared :
    (db : Db) (new : Period) (o : Option Period)
    → Balanced db
    → new.reserved_cny ≡ 0
    → new.spent_cny ≡ 0
    → ((p : Period) → o ≡ some p → find? (λ q. q.id == p.id) db.periods ≡ some p)
    → Ensures Prepared (upsert_period db new o)
unfolding upsert_period find_period
upsert-Prepared db new (some p) b no_reserved no_spent found =
    Ensures-ok _ (record { balanced = b; stored = found p refl })
upsert-Prepared db new none b no_reserved no_spent found =
    Ensures-if (is_some (find? (λ q. q.id == new.id) db.periods)) _ _ (λ _. Ensures-err _)
      λ fresh. Ensures-ok _ (record {
        balanced = new_period-Balanced db _ b (ground arith) no_reserved no_spent;
        stored = ground arith;
      })

pub period_of-Prepared :
    (calendar : Calendar) (db : Db) (mode : Mode) (timezone : String) (owner_id : ℕ)
    (new : String → Period) (at : ℕ)
    → Balanced db
    → ((key : String) → (new key).reserved_cny ≡ 0)
    → ((key : String) → (new key).spent_cny ≡ 0)
    → Ensures Prepared (period_of calendar db mode timezone owner_id new at)
unfolding period_of
period_of-Prepared calendar db mode timezone owner_id new at b no_reserved no_spent =
    Ensures-bind (budget_period_key calendar mode timezone at) _ λ key _.
      upsert-Prepared db (new key) _ b (no_reserved key) (no_spent key)
        λ p found. find?-key (λ r. r.id) _ db.periods p b.periods_distinct found

pub create_entry-eq-ok :
    (db d : Db) (e : Entry) → create_entry db e ≡ ok d → d ≡ record db { entries = e ∷ db.entries }
unfolding create_entry
create_entry-eq-ok db d e h = ground arith

-- A row of an administrator's operation holds nothing and charges nothing.
pub idle-Balanced :
    (db : Db) (e : Entry)
    → Balanced db
    → is_open e.status ≡ false
    → e.settled_cny ≡ 0
    → Balanced (record db { entries = e ∷ db.entries })
idle-Balanced db e b closed unpaid = record {
  held_sum = λ k. ground (arith, b.held_sum k);
  paid_sum = λ k. ground (arith, b.paid_sum k);
  unpaid = ((λ _. unpaid), b.unpaid);
  periods_distinct = b.periods_distinct;
}

create_entry-idle :
    (db : Db) (e : Entry) (d : Db)
    → Balanced db
    → is_open e.status ≡ false
    → e.settled_cny ≡ 0
    → create_entry db e ≡ ok d
    → Balanced d
create_entry-idle db e d b closed unpaid h =
    rw (create_entry-eq-ok db d e h) (idle-Balanced db e b closed unpaid)

-- A new row that holds an amount, behind the update of its period.
pub create_entry-Balanced :
    (db d : Db) (p q : Period) (e : Entry) (created : Db)
    → Balanced db
    → find? (λ r. r.id == p.id) db.periods ≡ some p
    → d ≡ put_period db q
    → q.id ≡ p.id
    → q.reserved_cny ≡ p.reserved_cny + (if is_open e.status then e.reserved_cny else 0)
    → q.spent_cny ≡ p.spent_cny
    → e.period_id ≡ p.id
    → e.settled_cny ≡ 0
    → create_entry d e ≡ ok created
    → Balanced created
unfolding put_period
create_entry-Balanced db d p q e created b stored put same_id grows spent on_period unpaid h =
    rw (create_entry-eq-ok d created e h, put)
      (Balanced-same _ _ (create-Balanced db p q e b stored same_id grows spent on_period unpaid)
        refl refl)

pub adjustment-Keeps :
    (db : Db) (actor : Principal) (p : Period) (input : OperationInput) (kind : Kind)
    (snapshot : Snapshot) (new_id : ℕ)
    → Balanced db
    → Keeps (adjustment db actor p input kind snapshot new_id)
unfolding adjustment
adjustment-Keeps db actor p input kind snapshot new_id b = Ensures-bind _ _ λ created h.
    Ensures-ok _ (Balanced-same created _ (create_entry-idle db _ created b refl refl h) refl refl)

-- What the invariant says of a row that a query found.
pub unpaid_at :
    (db : Db) (e : Entry)
    → Balanced db
    → find? (λ r. r.id == e.id) db.entries ≡ some e
    → UnpaidIsZero e
unpaid_at db e b found = All-find? UnpaidIsZero (λ r. r.id == e.id) db.entries e b.unpaid found

-- A new usage row is no period and no entry.
abbrev pub SameLedger : Db → Db → Type 0
SameLedger db d = (d.periods ≡ db.periods) × (d.entries ≡ db.entries)

create_usage-eq-ok :
    (db d : Db) (u : Usage)
    → create_usage db u ≡ ok d
    → d ≡ record db { usage_logs = u ∷ db.usage_logs }
unfolding create_usage
create_usage-eq-ok db d u h = ground arith

pub create_usage-same : (db : Db) (u : Usage) → Ensures (SameLedger db) (create_usage db u)
create_usage-same db u = record { at = λ d h. rw (create_usage-eq-ok db d u h) (refl, refl) }
