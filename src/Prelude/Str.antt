-- ===== src/Prelude/Str.antt =====
-- C strings as lists of character codes, none of them NUL, and a pointer that may be NULL as an
-- `Option`. On valid UTF-8, `strcmp` and the search for an ASCII character do not depend on whether
-- the codes are bytes or code points.
use Prim.Native.Nat.{ℕ, zero, suc, ◌+◌, ◌-◌, ◌*◌}
use Prim.Native.Char.{code}
use Prim.Native.String.{String}
use mathlib.Core.Path.{◌≡◌, refl}
use mathlib.Core.Logic.{◌↔◌}
use mathlib.Core.Bool.{Bool, true, false, ◌&&◌, ◌||◌, not}
use mathlib.Core.Option.{Option, none, some}
use mathlib.Core.List.{List, [], ◌∷◌, ◌++◌}
use native.Mathlib.Omega.{arith}
use irssi_xmpp.Prelude.Lists.{take}
use irssi_xmpp.Prelude.Tests.{ltb, leb, ◌==◌, if◌then◌else◌}
use irssi_xmpp.Prelude.Int.{ℤ, pos, negsuc, is_zero, int_of}

abbrev pub Str : Type 0
Str = List ℕ

-- The codes of a literal.
abbrev pub codes : String → Str
codes String.[] = []
codes (String.◌∷◌ c s) = code c ∷ codes s

-- C's `strcmp`; of its result the program reads the sign only.
unfoldable pub strcmp : Str → Str → ℤ
strcmp [] [] = pos 0
strcmp [] (y ∷ b) = negsuc 0
strcmp (x ∷ a) [] = pos 1
strcmp (x ∷ a) (y ∷ b) = if ltb x y then negsuc 0 else if ltb y x then pos 1 else strcmp a b

-- The test `strcmp(a, b) == 0`.
unfoldable pub str_eq : Str → Str → Bool
unfolding strcmp
str_eq a b = is_zero (strcmp a b)

-- C's `strncmp`.
unfoldable pub strncmp : Str → Str → ℕ → ℤ
unfolding take strcmp
strncmp a b n = strcmp (take n a) (take n b)

pub strcmp_eq : (a b : Str) → is_zero (strcmp a b) ≡ true → a ≡ b
unfolding strcmp
strcmp_eq [] [] h = refl
strcmp_eq [] (y ∷ b) h = ground arith
strcmp_eq (x ∷ a) [] h = ground arith
strcmp_eq (x ∷ a) (y ∷ b) h = ground (arith, strcmp_eq a b)

pub strcmp_refl : (a : Str) → strcmp a a ≡ pos 0
unfolding strcmp
strcmp_refl [] = refl
strcmp_refl (x ∷ a) = ground (arith, strcmp_refl a)

pub str_eq_iff : (a b : Str) → (str_eq a b ≡ true) ↔ (a ≡ b)
str_eq_iff a b = (unfold str_eq in strcmp_eq a b, λ e. rw e (unfold str_eq in rw (strcmp_refl b)))

pub str_eq_refl : (a : Str) → str_eq a a ≡ true
str_eq_refl a = (str_eq_iff a a).1 refl

-- Equality of two strings that may be NULL.
unfoldable pub opt_eq : Option Str → Option Str → Bool
opt_eq none none = true
opt_eq none (some b) = false
opt_eq (some a) none = false
opt_eq (some a) (some b) = str_eq a b

pub opt_eq_iff : (a b : Option Str) → (opt_eq a b ≡ true) ↔ (a ≡ b)
unfolding opt_eq
opt_eq_iff none none = ground arith
opt_eq_iff none (some b) = ground arith
opt_eq_iff (some a) none = ground arith
opt_eq_iff (some a) (some b) = ground (arith, str_eq_iff a b)

-- Whether two strings differ, by the three cases that the code writes out:
-- (a == NULL && b != NULL) || (a != NULL && b == NULL) || (both && strcmp(a, b) != 0)
unfoldable pub differ : Option Str → Option Str → Bool
unfolding str_eq
differ none none = false
differ none (some b) = true
differ (some a) none = true
differ (some a) (some b) = not (str_eq a b)

pub differ_iff : (a b : Option Str) → (differ a b ≡ false) ↔ (a ≡ b)
unfolding differ
differ_iff none none = ground arith
differ_iff none (some b) = ground arith
differ_iff (some a) none = ground arith
differ_iff (some a) (some b) = ground (arith, strcmp_eq a b, strcmp_refl a)

-- The white space of C's `isspace`.
abbrev is_space : ℕ → Bool
is_space c = c == 32 || (leb 9 c && leb c 13)

abbrev pub is_digit : ℕ → Bool
is_digit c = leb b'0' c && leb c b'9'

-- The value of the leading digits, behind the value `n` of those already read.
unfoldable pub digits : ℕ → Str → ℕ
digits n [] = n
digits n (c ∷ s) = let rest = digits (n * 10 + (c - b'0')) s in if is_digit c then rest else n

abbrev negated : ℕ → ℤ
negated zero = pos 0
negated (suc n) = negsuc n

abbrev signed_digits : Str → ℤ
signed_digits [] = pos 0
signed_digits (c ∷ s) =
    if c == b'-'
    then negated (digits 0 s)
    else if c == b'+'
    then pos (digits 0 s)
    else pos (digits 0 (c ∷ s))

-- The number that a text begins with, of any size.
unfoldable pub strtol : Str → ℤ
unfolding digits
strtol [] = pos 0
strtol (c ∷ s) = let rest = strtol s in if is_space c then rest else signed_digits (c ∷ s)

-- C's `atoi`. For a number that an `int` does not hold, where C leaves the result open, it is the low
-- 32 bits.
unfoldable pub atoi : Str → ℤ
unfolding strtol int_of
atoi s = int_of (strtol s)

-- `g_ascii_tolower`.
abbrev pub ascii_lower : ℕ → ℕ
ascii_lower c = if leb b'A' c && leb c b'Z' then c + 32 else c

-- The text before the first `c`: all of it where there is none.
unfoldable pub before : ℕ → Str → Str
before c [] = []
before c (x ∷ s) = if x == c then [] else x ∷ before c s

-- The text after the first `c`: `strchr(s, c) + 1`, or NULL.
unfoldable pub after : ℕ → Str → Option Str
after c [] = none
after c (x ∷ s) = if x == c then some s else after c s

-- Whether `c` occurs: `strchr(s, c) != NULL`.
unfoldable pub has : ℕ → Str → Bool
has c [] = false
has c (x ∷ s) = x == c || has c s

pub before-append : (c : ℕ) (a b : Str) → has c a ≡ false → before c (a ++ c ∷ b) ≡ a
unfolding before has
before-append c [] b h = ground arith
before-append c (x ∷ a) b h = ground (arith, before-append c a b)

pub after-append : (c : ℕ) (a b : Str) → has c a ≡ false → after c (a ++ c ∷ b) ≡ some b
unfolding after has
after-append c [] b h = ground arith
after-append c (x ∷ a) b h = ground (arith, after-append c a b)

pub before-absent : (c : ℕ) (a : Str) → has c a ≡ false → before c a ≡ a
unfolding before has
before-absent c [] h = refl
before-absent c (x ∷ a) h = ground (arith, before-absent c a)

pub after-absent : (c : ℕ) (a : Str) → has c a ≡ false → after c a ≡ none
unfolding after has
after-absent c [] h = refl
after-absent c (x ∷ a) h = ground (arith, after-absent c a)

pub has-before : (c : ℕ) (a : Str) → has c (before c a) ≡ false
unfolding before has
has-before c [] = refl
has-before c (x ∷ a) = ground (arith, has-before c a)

pub has-append : (c : ℕ) (a b : Str) → has c (a ++ b) ≡ has c a || has c b
unfolding has
has-append c [] b = refl
has-append c (x ∷ a) b = ground (arith, has-append c a b)
