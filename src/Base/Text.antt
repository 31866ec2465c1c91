-- ===== src/Base/Text.antt =====
-- Texts as the lists of their code points, and the two tests that the services make on them: the
-- shape of a UUID and a reason that is not blank.
use Prim.Native.Char.{code}
use Prim.Native.Nat.{ℕ, zero, suc, ◌+◌}
use Prim.Native.String.{String}
use mathlib.Core.Path.{◌≡◌, refl}
use mathlib.Core.Bool.{Bool, true, false, ◌&&◌, ◌||◌}
use native.Mathlib.Omega.{arith}
use mathlib.Core.List.{List, [], ◌∷◌}
use ucli_server.Base.Tests.{leb, ◌==◌, if◌then◌else◌, ==-self}
use ucli_server.Base.Lists.{every}

abbrev pub codes : String → List ℕ
codes String.[] = []
codes (String.◌∷◌ c s) = code c ∷ codes s

abbrev pub between : ℕ → ℕ → ℕ → Bool
between lo hi c = leb lo c && leb c hi

unfoldable pub is_digit : ℕ → Bool
is_digit c = between b'0' b'9' c

-- `[0-9a-f]` under the flag `i`.
unfoldable pub is_hex : ℕ → Bool
unfolding is_digit
is_hex c = is_digit c || between b'a' b'f' c || between b'A' b'F' c

-- `[89ab]` under the flag `i`.
unfoldable pub is_variant : ℕ → Bool
is_variant c = between b'8' b'9' c || between b'a' b'b' c || between b'A' b'B' c

-- A text against a list of character classes, of the same length.
unfoldable pub matches : List (ℕ → Bool) → List ℕ → Bool
matches [] [] = true
matches (p ∷ ps) (c ∷ cs) = p c && matches ps cs
matches _ _ = false

abbrev times : ℕ → (ℕ → Bool) → List (ℕ → Bool) → List (ℕ → Bool)
times zero p ps = ps
times (suc n) p ps = p ∷ times n p ps

-- `/^[0-9a-f]{8}-[0-9a-f]{4}-[1-8][0-9a-f]{3}-[89ab][0-9a-f]{3}-[0-9a-f]{12}$/i`.
unfoldable pub is_uuid : List ℕ → Bool
unfolding matches is_hex is_variant
is_uuid text =
    let dash = λ (c : ℕ). c == b'-' in
    matches
      (times 8 is_hex (
        dash
        ∷ times 4 is_hex (
            dash
            ∷ (between b'1' b'8')
            ∷ times 3 is_hex (dash ∷ is_variant ∷ times 3 is_hex (dash ∷ times 12 is_hex [])))))
      text

-- `/^[0-9a-f]{8}-[0-9a-f]{4}-4[0-9a-f]{3}-[89ab][0-9a-f]{3}-[0-9a-f]{12}$/i`.
unfoldable pub is_uuid_v4 : List ℕ → Bool
unfolding matches is_hex is_variant
is_uuid_v4 text =
    let dash = λ (c : ℕ). c == b'-' in
    matches
      (times 8 is_hex (
        dash
        ∷ times 4 is_hex (
            dash
            ∷ (λ c. c == b'4')
            ∷ times 3 is_hex (dash ∷ is_variant ∷ times 3 is_hex (dash ∷ times 12 is_hex [])))))
      text

-- A `uuid` column gives the letters of its values back in lower case.
unfoldable pub lower_hex : List ℕ → List ℕ
lower_hex [] = []
lower_hex (c ∷ cs) = (if between b'A' b'F' c then c + 32 else c) ∷ lower_hex cs

-- The characters that `trim` removes.
unfoldable pub is_space : ℕ → Bool
is_space c =
    between 9 13 c
    || c == 32
    || c == 0xa0
    || c == 0x1680
    || between 0x2000 0x200a c
    || between 0x2028 0x2029 c
    || c == 0x202f
    || c == 0x205f
    || c == 0x3000
    || c == 0xfeff

-- `!text.trim()`.
unfoldable pub is_blank : List ℕ → Bool
unfolding is_space
is_blank text = every is_space text

abbrev trim_start : List ℕ → List ℕ
unfolding is_space
trim_start [] = []
trim_start (c ∷ cs) = let rest = trim_start cs in if is_space c then rest else c ∷ cs

abbrev reversed : List ℕ → List ℕ → List ℕ
reversed acc [] = acc
reversed acc (c ∷ cs) = reversed (c ∷ acc) cs

-- `text.trim()`.
unfoldable pub trim : List ℕ → List ℕ
unfolding trim_start
trim text = reversed [] (trim_start (reversed [] (trim_start text)))

-- `text.length`, in UTF-16 units.
unfoldable pub utf16_length : List ℕ → ℕ
utf16_length [] = 0
utf16_length (c ∷ cs) = (if leb c 0xffff then 1 else 2) + utf16_length cs

-- `a === b` on texts.
abbrev pub same_codes : List ℕ → List ℕ → Bool
same_codes [] [] = true
same_codes (x ∷ xs) (y ∷ ys) = (x == y) && same_codes xs ys
same_codes _ _ = false

pub same_codes-eq : (a b : List ℕ) → same_codes a b ≡ true → a ≡ b
same_codes-eq [] [] h = refl
same_codes-eq [] (y ∷ ys) h = cc
same_codes-eq (x ∷ xs) [] h = cc
same_codes-eq (x ∷ xs) (y ∷ ys) h =
    let heads : x ≡ y = ground arith in
    let tails : xs ≡ ys = same_codes-eq xs ys (ground arith) in rw (heads, tails) refl

pub same_codes_refl : (a : List ℕ) → same_codes a a ≡ true
same_codes_refl [] = refl
same_codes_refl (x ∷ xs) = rw (==-self x, same_codes_refl xs) refl
