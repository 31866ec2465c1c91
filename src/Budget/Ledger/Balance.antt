-- ===== src/Budget/Ledger/Balance.antt =====
-- The accounting invariant of the two budget services in packages/quota/src: what a period holds and has
-- spent against the sum over its entries. Here the invariant and the moves that keep it; the operations are in the children.
pub mod Helpers
pub mod Requests
pub mod Recovery
use ucli_server.Base.{
  ℕ, ◌+◌, ◌-◌, ◌≤◌, ◌^◌, ◌≡◌, refl, sym, ◌∙◌, Bool, true, false, ◌&&◌, ◌||◌, Option, none, some,
  List, [], ◌∷◌, String, ltb, leb, arith, inl, inr, ◌==◌, if◌then◌else◌, is_none, is_some,
  Bool-cases, Option-cases, ==_iff,
}
use ucli_server.Base.Table.{
  find?, replace, total, All, find?-passes, find?-replace_self, find?-replace_other, total-replace,
  value_at, value_at-replace, value_at-none, Distinct, Distinct-replace, find?-key, All-find?,
  All-replace,
}
use ucli_server.Budget.Result.{Result, ok, err, ◌>>=◌, ◌>>◌, require, or_throw}
use ucli_server.Budget.Ensures.{Ensures, Ensures-ok, Ensures-err, Ensures-if, Ensures-bind}
use ucli_server.Budget.Ledger.{
  Group, Period, Entry, Usage, Db, Reservation, Status, reserved, reconciliation_required, Audit,
  is_reserved, is_reconciling,
}
use ucli_server.Budget.Ledger.Store.{
  find_period, find_entry, put_period, put_entry, put_usage, create_entry, create_usage, shift,
  upsert_period, Calendar, alert, locked, threshold, exceeds,
}

-- An entry whose reservation still counts on its period.
abbrev pub is_open : Status → Bool
is_open reserved = true
is_open reconciliation_required = true
is_open _ = false

abbrev pub held : ℕ → Entry → ℕ
held k e = if e.period_id == k then (if is_open e.status then e.reserved_cny else 0) else 0

abbrev pub paid : ℕ → Entry → ℕ
paid k e = if e.period_id == k then e.settled_cny else 0

abbrev pub reserved_at : Db → ℕ → ℕ
reserved_at db k = value_at (λ p. p.id) (λ p. p.reserved_cny) k db.periods

abbrev pub spent_at : Db → ℕ → ℕ
spent_at db k = value_at (λ p. p.id) (λ p. p.spent_cny) k db.periods

-- Nothing has been charged to the entry.
abbrev pub is_unpaid : Entry → Bool
is_unpaid e =
    is_reserved e.status || (is_reconciling e.status && is_none e.snapshot.hold_fingerprint)

abbrev pub UnpaidIsZero : Entry → Type 0
UnpaidIsZero e = is_unpaid e ≡ true → e.settled_cny ≡ 0

pub record Balanced (db : Db) : Type 0 where
  pub held_sum : (k : ℕ) → reserved_at db k ≡ total (held k) db.entries
  pub paid_sum : (k : ℕ) → spent_at db k ≡ total (paid k) db.entries
  pub unpaid : All UnpaidIsZero db.entries
  pub periods_distinct : Distinct (λ (p : Period). p.id) db.periods

-- An update of a period and of one of its entries that changes both columns alike.
pub record Posts (p q : Period) (e f : Entry) : Type 0 where
  pub same_id : q.id ≡ p.id
  pub same_entry : f.id ≡ e.id
  pub on_period : e.period_id ≡ p.id
  pub stays : f.period_id ≡ p.id
  pub reserves :
      q.reserved_cny + (if is_open e.status then e.reserved_cny else 0)
      ≡ p.reserved_cny + (if is_open f.status then f.reserved_cny else 0)
  pub spends : q.spent_cny + e.settled_cny ≡ p.spent_cny + f.settled_cny
  pub unpaid : UnpaidIsZero f

-- The move of `settle`, `extend`, `hold`, `release` and `reconcile`: one period and one entry.
module _ (db : Db) (b : Balanced db) {p q : Period} {e f : Entry}
    (found_period : find? (λ r. r.id == p.id) db.periods ≡ some p)
    (found_entry : find? (λ r. r.id == e.id) db.entries ≡ some e) (m : Posts p q e f) where
  found_period' : find? (λ r. r.id == q.id) db.periods ≡ some p
  found_period' = rw m.same_id found_period

  found_entry' : find? (λ r. r.id == f.id) db.entries ≡ some e
  found_entry' = rw m.same_entry found_entry

  post-held :
      (k : ℕ)
      → value_at (λ r. r.id) (λ r. r.reserved_cny) k (replace (λ r. r.id == q.id) q db.periods)
        ≡ total (held k) (replace (λ r. r.id == f.id) f db.entries)
  post-held k = ground (
    arith,
    m.same_id,
    m.on_period,
    m.stays,
    m.reserves,
    b.held_sum k,
    total-replace (held k) (λ r. r.id == f.id) f db.entries e found_entry',
    value_at-replace (λ (r : Period). r.id) (λ r. r.reserved_cny) k q db.periods p found_period',
  )

  post-paid :
      (k : ℕ)
      → value_at (λ r. r.id) (λ r. r.spent_cny) k (replace (λ r. r.id == q.id) q db.periods)
        ≡ total (paid k) (replace (λ r. r.id == f.id) f db.entries)
  post-paid k = ground (
    arith,
    m.same_id,
    m.on_period,
    m.stays,
    m.spends,
    b.paid_sum k,
    total-replace (paid k) (λ r. r.id == f.id) f db.entries e found_entry',
    value_at-replace (λ (r : Period). r.id) (λ r. r.spent_cny) k q db.periods p found_period',
  )

  pub post-Balanced : Balanced (put_entry (put_period db q) f)
  unfolding put_entry put_period
  post-Balanced = record {
    held_sum = post-held;
    paid_sum = post-paid;
    unpaid = All-replace UnpaidIsZero (λ r. r.id == f.id) f db.entries b.unpaid m.unpaid;
    periods_distinct = Distinct-replace (λ r. r.id) q db.periods b.periods_distinct;
  }

-- Only the periods and the entries count.
pub Balanced-same :
    (db d : Db) → Balanced db → d.periods ≡ db.periods → d.entries ≡ db.entries → Balanced d
Balanced-same db d b ps es = record {
  held_sum = λ k. rw (ps, es) (b.held_sum k);
  paid_sum = λ k. rw (ps, es) (b.paid_sum k);
  unpaid = rw es b.unpaid;
  periods_distinct = rw ps b.periods_distinct;
}

-- An update of a period that leaves its amounts alone.
pub put_period-Balanced :
    (db : Db) (p q : Period)
    → Balanced db
    → find? (λ r. r.id == p.id) db.periods ≡ some p
    → q.id ≡ p.id
    → q.reserved_cny ≡ p.reserved_cny
    → q.spent_cny ≡ p.spent_cny
    → Balanced (put_period db q)
unfolding put_period
put_period-Balanced db p q b found same_id same_reserved same_spent =
    let found' : find? (λ r. r.id == q.id) db.periods ≡ some p = rw same_id found in
    record {
      held_sum = λ k. ground (
        arith,
        b.held_sum k,
        value_at-replace (λ (r : Period). r.id) (λ r. r.reserved_cny) k q db.periods p found',
      );
      paid_sum = λ k. ground (
        arith,
        b.paid_sum k,
        value_at-replace (λ (r : Period). r.id) (λ r. r.spent_cny) k q db.periods p found',
      );
      unpaid = b.unpaid;
      periods_distinct = Distinct-replace (λ r. r.id) q db.periods b.periods_distinct;
    }

-- An update of an entry that leaves its amounts, its period and its standing alone.
pub put_entry-Balanced :
    (db : Db) (e f : Entry)
    → Balanced db
    → find? (λ r. r.id == e.id) db.entries ≡ some e
    → f.id ≡ e.id
    → ((k : ℕ) → held k f ≡ held k e)
    → ((k : ℕ) → paid k f ≡ paid k e)
    → UnpaidIsZero f
    → Balanced (put_entry db f)
unfolding put_entry
put_entry-Balanced db e f b found same_id same_held same_paid unpaid =
    let found' : find? (λ r. r.id == f.id) db.entries ≡ some e = rw same_id found in
    record {
      held_sum = λ k. omega (
        arith,
        b.held_sum k,
        same_held k,
        total-replace (held k) (λ r. r.id == f.id) f db.entries e found',
      );
      paid_sum = λ k. omega (
        arith,
        b.paid_sum k,
        same_paid k,
        total-replace (paid k) (λ r. r.id == f.id) f db.entries e found',
      );
      unpaid = All-replace UnpaidIsZero (λ r. r.id == f.id) f db.entries b.unpaid unpaid;
      periods_distinct = b.periods_distinct;
    }

-- A new entry that holds an amount, with the period that grows by it.
pub create-Balanced :
    (db : Db) (p q : Period) (e : Entry)
    → Balanced db
    → find? (λ r. r.id == p.id) db.periods ≡ some p
    → q.id ≡ p.id
    → q.reserved_cny ≡ p.reserved_cny + (if is_open e.status then e.reserved_cny else 0)
    → q.spent_cny ≡ p.spent_cny
    → e.period_id ≡ p.id
    → e.settled_cny ≡ 0
    → Balanced
        (record db { periods = replace (λ r. r.id == q.id) q db.periods; entries = e ∷ db.entries })
create-Balanced db p q e b found same_id grows same_spent on_period unpaid =
    let found' : find? (λ r. r.id == q.id) db.periods ≡ some p = rw same_id found in
    record {
      held_sum = λ k. ground (
        arith,
        b.held_sum k,
        value_at-replace (λ (r : Period). r.id) (λ r. r.reserved_cny) k q db.periods p found',
      );
      paid_sum = λ k. ground (
        arith,
        b.paid_sum k,
        value_at-replace (λ (r : Period). r.id) (λ r. r.spent_cny) k q db.periods p found',
      );
      unpaid = ((λ _. unpaid), b.unpaid);
      periods_distinct = Distinct-replace (λ r. r.id) q db.periods b.periods_distinct;
    }

-- A new period with no amounts.
pub new_period-Balanced :
    (db : Db) (p : Period)
    → Balanced db
    → find? (λ r. r.id == p.id) db.periods ≡ none
    → p.reserved_cny ≡ 0
    → p.spent_cny ≡ 0
    → Balanced (record db { periods = p ∷ db.periods })
new_period-Balanced db p b fresh no_reserved no_spent = record {
  held_sum = λ k. ground (
    arith,
    b.held_sum k,
    value_at-none (λ (r : Period). r.id) (λ r. r.reserved_cny) p.id db.periods fresh,
  );
  paid_sum = λ k. ground (
    arith,
    b.paid_sum k,
    value_at-none (λ (r : Period). r.id) (λ r. r.spent_cny) p.id db.periods fresh,
  );
  unpaid = b.unpaid;
  periods_distinct = (fresh, b.periods_distinct);
}
