-- ===== src/Base/Int.antt =====
-- Signed integers over the native numbers, and the conversions of Go's int64, uint64, int32 and
-- uint32. A value of a signed type is the integer that it stands for.
use native.Mathlib.Numerals.{add-one}
use Prim.Native.Nat.{ℕ, zero, suc, ◌+◌, ◌-◌, ◌*◌, ◌/◌, ◌%◌, ◌^◌, ◌<◌}
use mathlib.Core.Path.{◌≡◌, refl}
use mathlib.Core.Bool.{Bool, true, false}
use native.Mathlib.Omega.{arith}
use client_sdk_go.Base.Tests.{ltb, leb, ◌==◌, if◌then◌else◌}

-- `negsuc n` is -(n + 1).
pub data ℤ : Type 0 where
  pos : ℕ → ℤ
  negsuc : ℕ → ℤ

-- Truncated division by a positive number, as Go's `/` on signed integers rounds.
unfoldable pub quot : ℤ → ℕ → ℤ
quot (pos n) k = pos (n / k)
quot (negsuc n) k = let q = suc n / k in if q == 0 then pos 0 else negsuc (q - 1)

-- a - b, as an integer.
abbrev pub sub_ℕ : ℕ → ℕ → ℤ
sub_ℕ a b = if leb b a then pos (a - b) else negsuc (b - a - 1)

-- The conversion of a signed integer to a w-bit unsigned one.
unfoldable pub to_unsigned : ℕ → ℤ → ℕ
to_unsigned w (pos n) = n % 2 ^ w
to_unsigned w (negsuc n) = 2 ^ w - 1 - n % 2 ^ w

-- The conversion of an unsigned integer to a signed one of w + 1 bits.
unfoldable pub to_signed : ℕ → ℕ → ℤ
to_signed w n =
    let m = n % (2 * 2 ^ w) in if ltb m (2 ^ w) then pos m else negsuc (2 * 2 ^ w - 1 - m)

unfoldable pub is_positive : ℤ → Bool
is_positive (pos n) = ltb 0 n
is_positive (negsuc n) = false

unfoldable pub is_zero : ℤ → Bool
is_zero (pos n) = n == 0
is_zero (negsuc n) = false

unfoldable pub is_negative : ℤ → Bool
is_negative (pos n) = false
is_negative (negsuc n) = true

-- a < b and a <= b.
unfoldable pub ltz : ℤ → ℤ → Bool
ltz (pos a) (pos b) = ltb a b
ltz (pos a) (negsuc b) = false
ltz (negsuc a) (pos b) = true
ltz (negsuc a) (negsuc b) = ltb b a

unfoldable pub lez : ℤ → ℤ → Bool
lez (pos a) (pos b) = leb a b
lez (pos a) (negsuc b) = false
lez (negsuc a) (pos b) = true
lez (negsuc a) (negsuc b) = leb b a

-- The order of the integers, as a statement.
infix 50 ◌<ℤ◌
abbrev pub ◌<ℤ◌ : ℤ → ℤ → Type 0
(pos a) <ℤ (pos b) = a < b
(pos a) <ℤ (negsuc b) = ⊥
(negsuc a) <ℤ (pos b) = Unit
(negsuc a) <ℤ (negsuc b) = b < a

pub ltz→lt : (a b : ℤ) → ltz a b ≡ true → a <ℤ b
unfolding ltz
ltz→lt (pos a) (pos b) h = ground arith
ltz→lt (pos a) (negsuc b) h = ground arith
ltz→lt (negsuc a) (pos b) h = tt
ltz→lt (negsuc a) (negsuc b) h = ground arith

-- The integer after and before another.
unfoldable pub succ_ℤ : ℤ → ℤ
succ_ℤ (pos n) = pos (n + 1)
succ_ℤ (negsuc zero) = pos 0
succ_ℤ (negsuc (suc n)) = negsuc n

unfoldable pub pred_ℤ : ℤ → ℤ
pred_ℤ (pos zero) = negsuc 0
pred_ℤ (pos (suc n)) = pos n
pred_ℤ (negsuc n) = negsuc (n + 1)

pub pred_ℤ-succ_ℤ : (a : ℤ) → pred_ℤ (succ_ℤ a) ≡ a
unfolding pred_ℤ succ_ℤ
pred_ℤ-succ_ℤ (pos n) = rw add-one
pred_ℤ-succ_ℤ (negsuc zero) = refl
pred_ℤ-succ_ℤ (negsuc (suc n)) = ground arith

pub succ_ℤ-pred_ℤ : (a : ℤ) → succ_ℤ (pred_ℤ a) ≡ a
unfolding pred_ℤ succ_ℤ
succ_ℤ-pred_ℤ (pos zero) = refl
succ_ℤ-pred_ℤ (pos (suc n)) = ground arith
succ_ℤ-pred_ℤ (negsuc n) = rw add-one
