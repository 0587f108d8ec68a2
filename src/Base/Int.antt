-- ===== src/Base/Int.antt =====
-- Signed numbers: Go's `int`, 64 bits wide, where the program computes with it.
use Prim.Native.Nat.{ℕ, zero, suc, ◌+◌, ◌-◌, ◌*◌, ◌/◌, ◌%◌}
use mathlib.Core.Path.{◌≡◌, refl}
use mathlib.Core.Logic.{◌↔◌}
use mathlib.Core.Bool.{Bool, true, false}
use mathlib.Core.List.{List, [], ◌∷◌, ◌++◌}
use native.Mathlib.Omega.{arith}
use datafoundry_proxy.Base.Tests.{ltb, leb, ◌==◌, if◌then◌else◌}

-- `negsuc n` is -(n + 1).
pub data ℤ : Type 0 where
  pos : ℕ → ℤ
  negsuc : ℕ → ℤ

-- The range of a 64-bit int.
abbrev pub int64_half : ℕ
int64_half = 9223372036854775808

abbrev pub in_int64 : ℤ → Bool
in_int64 (pos n) = ltb n int64_half
in_int64 (negsuc n) = ltb n int64_half

-- `x += 1` and `x -= 1`, which wrap around at the ends of the range.
unfoldable pub int64_inc : ℤ → ℤ
int64_inc (pos n) = if leb int64_half (n + 1) then negsuc (int64_half - 1) else pos (n + 1)
int64_inc (negsuc zero) = pos 0
int64_inc (negsuc (suc n)) = negsuc n

unfoldable pub int64_dec : ℤ → ℤ
int64_dec (pos zero) = negsuc 0
int64_dec (pos (suc n)) = pos n
int64_dec (negsuc n) = if leb int64_half (n + 1) then pos (int64_half - 1) else negsuc (n + 1)

abbrev pub leb_ℤ : ℤ → ℤ → Bool
leb_ℤ (pos a) (pos b) = leb a b
leb_ℤ (pos a) (negsuc b) = false
leb_ℤ (negsuc a) (pos b) = true
leb_ℤ (negsuc a) (negsuc b) = leb b a

abbrev pub ltb_ℤ : ℤ → ℤ → Bool
ltb_ℤ a b = if leb_ℤ b a then false else true

unfoldable pub eq_ℤ : ℤ → ℤ → Bool
eq_ℤ (pos a) (pos b) = a == b
eq_ℤ (negsuc a) (negsuc b) = a == b
eq_ℤ _ _ = false

pub eq_ℤ_iff : (a b : ℤ) → (eq_ℤ a b ≡ true) ↔ (a ≡ b)
unfolding eq_ℤ
eq_ℤ_iff (pos a) (pos b) = ground arith
eq_ℤ_iff (pos a) (negsuc b) = ground arith
eq_ℤ_iff (negsuc a) (pos b) = ground arith
eq_ℤ_iff (negsuc a) (negsuc b) = ground arith

pub eq_ℤ_refl : (a : ℤ) → eq_ℤ a a ≡ true
eq_ℤ_refl a = (eq_ℤ_iff a a).1 refl

-- `%d`: the decimal digits of a number below 10^20, and of an int64 with its sign.
digits_of : ℕ → ℕ → List ℕ
digits_of zero n = []
digits_of (suc places) n =
    let front = digits_of places (n / 10) in
    if ltb n 10 then (b'0' + n) ∷ [] else front ++ (b'0' + n % 10) ∷ []

unfoldable pub format_int : ℤ → List ℕ
unfolding digits_of
format_int (pos n) = digits_of 20 n
format_int (negsuc n) = b'-' ∷ digits_of 20 (n + 1)

-- A number modulo 2^64 as an int64, and an int64 modulo 2^64.
abbrev pub int64_mod : ℕ
int64_mod = 18446744073709551616

abbrev pub int64_of : ℕ → ℤ
int64_of n = if ltb n int64_half then pos n else negsuc (int64_mod - n - 1)

abbrev pub int64_bits : ℤ → ℕ
int64_bits (pos n) = n
int64_bits (negsuc n) = int64_mod - (n + 1)

-- Sums, differences and products wrap around.
unfoldable pub int64_add : ℤ → ℤ → ℤ
int64_add a b = int64_of ((int64_bits a + int64_bits b) % int64_mod)

unfoldable pub int64_sub : ℤ → ℤ → ℤ
int64_sub a b = int64_of ((int64_bits a + int64_mod - int64_bits b) % int64_mod)

unfoldable pub int64_mul : ℤ → ℤ → ℤ
int64_mul (pos a) (pos b) = int64_of ((a * b) % int64_mod)
int64_mul (pos a) (negsuc b) = int64_of ((int64_mod - (a * (b + 1)) % int64_mod) % int64_mod)
int64_mul (negsuc a) (pos b) = int64_of ((int64_mod - ((a + 1) * b) % int64_mod) % int64_mod)
int64_mul (negsuc a) (negsuc b) = int64_of (((a + 1) * (b + 1)) % int64_mod)
