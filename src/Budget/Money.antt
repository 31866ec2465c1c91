-- ===== src/Budget/Money.antt =====
-- packages/quota/src/group-budget.ts: amounts of money. A `Decimal` with eight fractional digits is
-- the number of its units of 0.00000001 CNY.
use ucli_server.Base.{
  ℕ, ◌+◌, ◌-◌, ◌*◌, ◌^◌, Bool, false, ◌&&◌, ◌||◌, not, List, [], ◌∷◌, leb, ◌==◌, if◌then◌else◌,
}
use ucli_server.Base.Lists.{length, every}
use ucli_server.Base.Text.{is_digit}
use ucli_server.Budget.Result.{Result, ok, err, bad_request}

-- The value of a list of decimal digits, read after `acc`.
unfoldable pub digits_value : ℕ → List ℕ → ℕ
digits_value acc [] = acc
digits_value acc (c ∷ cs) = digits_value (acc * 10 + (c - b'0')) cs

-- `(0|[1-9]\d{0,11})`.
unfoldable pub is_integer_part : List ℕ → Bool
unfolding is_digit
is_integer_part [] = false
is_integer_part (c ∷ cs) =
    every is_digit (c ∷ cs) && leb (length cs) 11 && (not (c == b'0') || length cs == 0)

-- `\d{1,8}`.
unfoldable pub is_fraction : List ℕ → Bool
unfolding is_digit
is_fraction cs = every is_digit cs && leb 1 (length cs) && leb (length cs) 8

abbrev pub Amount : Type 0
Amount = List ℕ

-- The text before the first dot, and the dot with what follows.
unfoldable pub before_dot : List ℕ → List ℕ
before_dot [] = []
before_dot (c ∷ cs) = let rest = before_dot cs in if c == b'.' then [] else c ∷ rest

unfoldable pub from_dot : List ℕ → List ℕ
from_dot [] = []
from_dot (c ∷ cs) = let rest = from_dot cs in if c == b'.' then c ∷ cs else rest

-- The optional fraction, in units.
unfoldable pub fraction_units : List ℕ → Result ℕ
unfolding is_fraction digits_value
fraction_units [] = ok 0
fraction_units (dot ∷ cs) =
    if is_fraction cs then ok (digits_value 0 cs * 10 ^ (8 - length cs)) else err bad_request

-- `cny`: the amount that the text stands for, or the exception.
unfoldable pub cny : Amount → Result ℕ
unfolding is_integer_part before_dot from_dot fraction_units digits_value
cny text =
    if is_integer_part (before_dot text)
    then add (fraction_units (from_dot text))
    else err bad_request
  where
    add : Result ℕ → Result ℕ
    add (ok f) = ok (digits_value 0 (before_dot text) * 10 ^ 8 + f)
    add (err e) = err e
