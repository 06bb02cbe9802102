-- ===== src/Prelude/Int.antt =====
-- C's signed integers as ℤ over the native numbers (the library's ℤ stands on the unary ℕ).
use Prim.Native.Nat.{ℕ, suc, ◌+◌, ◌-◌, ◌%◌, ◌^◌, ◌≤◌}
use mathlib.Core.Bool.{Bool, true, false}
use mathlib.Core.Path.{◌≡◌}
use native.Mathlib.Omega.{arith}
use irssi_xmpp.Prelude.Tests.{ltb, leb, ◌==◌, if◌then◌else◌}

-- `negsuc n` is -(n + 1).
pub data ℤ : Type 0 where
  pos : ℕ → ℤ
  negsuc : ℕ → ℤ

abbrev pub pos_part : ℤ → ℕ
pos_part (pos n) = n
pos_part (negsuc n) = 0

abbrev pub neg_part : ℤ → ℕ
neg_part (pos n) = 0
neg_part (negsuc n) = suc n

-- a - b, as an integer.
abbrev pub sub_ℕ : ℕ → ℕ → ℤ
sub_ℕ a b = if leb b a then pos (a - b) else negsuc (b - a - 1)

infixl 65 ◌-ℤ◌
infix 50 ◌≤ℤ◌
abbrev pub ◌-ℤ◌ : ℤ → ℤ → ℤ
a -ℤ b = sub_ℕ (pos_part a + neg_part b) (neg_part a + pos_part b)

abbrev pub ◌≤ℤ◌ : ℤ → ℤ → Type 0
a ≤ℤ b = pos_part a + neg_part b ≤ pos_part b + neg_part a

abbrev pub leb_ℤ : ℤ → ℤ → Bool
leb_ℤ a b = leb (pos_part a + neg_part b) (pos_part b + neg_part a)

abbrev pub eqb_ℤ : ℤ → ℤ → Bool
eqb_ℤ (pos a) (pos b) = a == b
eqb_ℤ (pos a) (negsuc b) = false
eqb_ℤ (negsuc a) (pos b) = false
eqb_ℤ (negsuc a) (negsuc b) = a == b

-- The test `e == 0`.
abbrev pub is_zero : ℤ → Bool
is_zero e = eqb_ℤ e (pos 0)

pub is_zero_eq : (e : ℤ) → is_zero e ≡ true → e ≡ pos 0
is_zero_eq (pos n) h = ground arith
is_zero_eq (negsuc n) h = ground arith

pub eqb_ℤ_eq : (a b : ℤ) → eqb_ℤ a b ≡ true → a ≡ b
eqb_ℤ_eq (pos a) (pos b) h = ground arith
eqb_ℤ_eq (pos a) (negsuc b) h = ground arith
eqb_ℤ_eq (negsuc a) (pos b) h = ground arith
eqb_ℤ_eq (negsuc a) (negsuc b) h = ground arith

-- The test `0 < e`.
abbrev pub is_pos : ℤ → Bool
is_pos e = ltb 0 (pos_part e)

-- The test `e < 0`.
abbrev pub is_neg : ℤ → Bool
is_neg e = ltb 0 (neg_part e)

-- The number that a 32-bit pattern stands for.
abbrev signed : ℕ → ℤ
signed w = if ltb w (2 ^ 31) then pos w else negsuc (2 ^ 32 - 1 - w)

-- What an `int` keeps of a result: its low 32 bits.
unfoldable pub int_of : ℤ → ℤ
int_of (pos n) = signed (n % 2 ^ 32)
int_of (negsuc n) = signed (2 ^ 32 - 1 - n % 2 ^ 32)

-- Between -2^k and 2^k - 1.
abbrev pub Fits : ℕ → ℤ → Type 0
Fits k e = (negsuc (2 ^ k - 1) ≤ℤ e) × (e ≤ℤ pos (2 ^ k - 1))

pub int_of_same : (e : ℤ) → Fits 31 e → int_of e ≡ e
unfolding int_of
int_of_same (pos n) h = ground arith
int_of_same (negsuc n) h = ground arith

-- From 2^31 on, the result comes out below 0.
pub int_of_neg : (e : ℤ) → pos (2 ^ 31) ≤ℤ e → e ≤ℤ pos (2 ^ 32 - 1) → int_of e ≤ℤ negsuc 0
unfolding int_of
int_of_neg (pos n) h k = ground arith
int_of_neg (negsuc n) h k = ground arith
