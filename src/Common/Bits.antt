-- ===== src/Common/Bits.antt =====
-- Facts about | & and ^ on machine words: tables over the bytes, and | of disjoint fields.
use Prim.Native.Nat.{
  max, min, bit_and-bitwise, digits, bitwise, bit_and, bit_or, bit_xor, bit_or-bitwise,
}
use Prim.Native.Nat.{ℕ, zero, suc, ◌+◌, ◌*◌, ◌/◌, ◌%◌, ◌^◌, ◌≤◌, ◌<◌}
use mathlib.Core.Path.{◌≡◌, refl, sym, ap, ◌∙◌}
use mathlib.Core.Bool.{Bool, true, false}
use native.Mathlib.Nat.{pow-suc}
use native.Mathlib.Omega.{arith}
use libiouring_server.Common.Tests.{◌==◌, ==_iff, if◌then◌else◌}

-- A table: p answers true at each number under the bound.
unfoldable pub table : (ℕ → Bool) → ℕ → Bool
table p zero = true
table p (suc n) = if p n then table p n else false

pub entry : (p : ℕ → Bool) (n x : ℕ) → table p n ≡ true → x < n → p x ≡ true
unfolding table
entry p zero x t h = absurd (omega arith)
entry p (suc n) x t h = ground (arith, entry p n x)

xor_table : table (λ k. table (λ x. bit_xor (bit_xor x k) k == x) 256) 256 ≡ true
unfolding table
xor_table = refl

-- A byte that is masked twice by the same byte is the byte itself.
pub bit_xor_twice : (x k : ℕ) → x < 256 → k < 256 → bit_xor (bit_xor x k) k ≡ x
bit_xor_twice x k h g = (==_iff (bit_xor (bit_xor x k) k) x).0 (
    entry (λ y. bit_xor (bit_xor y k) k == y) 256 x
      (entry (λ j. table (λ y. bit_xor (bit_xor y j) j == y) 256) 256 k xor_table g) h)

low7_table : table (λ x. bit_and x 0x7F == x % 128) 256 ≡ true
unfolding table
low7_table = refl

pub bit_and_0x7F : (x : ℕ) → x < 256 → bit_and x 0x7F ≡ x % 128
bit_and_0x7F x h = (==_iff (bit_and x 0x7F) (x % 128)).0 (entry _ 256 x low7_table h)

low4_table : table (λ x. bit_and x 0x0F == x % 16) 256 ≡ true
unfolding table
low4_table = refl

pub bit_and_0x0F : (x : ℕ) → x < 256 → bit_and x 0x0F ≡ x % 16
bit_and_0x0F x h = (==_iff (bit_and x 0x0F) (x % 16)).0 (entry _ 256 x low4_table h)

top_table : table (λ x. bit_and x 0x80 == x / 128 * 128) 256 ≡ true
unfolding table
top_table = refl

pub bit_and_0x80 : (x : ℕ) → x < 256 → bit_and x 0x80 ≡ x / 128 * 128
bit_and_0x80 x h = (==_iff (bit_and x 0x80) (x / 128 * 128)).0 (entry _ 256 x top_table h)

-- Operations that work digit by digit: f on a pair of digits, z on what is left of the second
-- number when the first has none.
module _ (z : ℕ → ℕ) (f : ℕ → ℕ → ℕ) where
  no_digits : (b n : ℕ) → digits z f n 0 b ≡ z b
  no_digits b zero = refl
  no_digits b (suc n) = refl

  -- The count of digits to go does not matter where it is large enough.
  count_free : (n a b m : ℕ) → a ≤ n → a ≤ m → digits z f n a b ≡ digits z f m a b
  count_free n zero b m h k = no_digits b n ∙ sym (no_digits b m)
  count_free zero (suc a) b m h k = absurd (omega arith)
  count_free (suc n) (suc a) b zero h k = absurd (omega arith)
  count_free (suc n) (suc a) b (suc m) h k =
      ap (λ (t : ℕ). t * 2 + f (suc a % 2) (b % 2))
        (count_free n (suc a / 2) (b / 2) m (omega arith) (omega arith))

  lowest_digit :
      (a b : ℕ)
      → z b ≡ z (b / 2) * 2 + f 0 (b % 2)
      → bitwise z f a b ≡ bitwise z f (a / 2) (b / 2) * 2 + f (a % 2) (b % 2)
  lowest_digit zero b e = e
  lowest_digit (suc a) b e =
      ap (λ (t : ℕ). t * 2 + f (suc a % 2) (b % 2))
        (count_free a (suc a / 2) (b / 2) (suc a / 2) (omega arith) (omega arith))

or_lowest : (a b : ℕ) → bit_or a b ≡ bit_or (a / 2) (b / 2) * 2 + max (a % 2) (b % 2)
or_lowest a b = omega (
  arith,
  bit_or-bitwise a b,
  bit_or-bitwise (a / 2) (b / 2),
  lowest_digit (λ y. y) max a b (omega arith),
)

and_lowest : (a b : ℕ) → bit_and a b ≡ bit_and (a / 2) (b / 2) * 2 + min (a % 2) (b % 2)
and_lowest a b = omega (
  arith,
  bit_and-bitwise a b,
  bit_and-bitwise (a / 2) (b / 2),
  lowest_digit (λ y. 0) min a b (omega arith),
)

-- Both at 0, which has no digits, by recursion on a bound of the other number.
right_zero : (k a : ℕ) → a < k → (bit_or a 0 ≡ a) × (bit_and a 0 ≡ 0)
right_zero zero a h = absurd (omega arith)
right_zero (suc k) zero h = (refl, refl)
right_zero (suc k) (suc a) h =
    let half = right_zero k (suc a / 2) (omega arith) in
    (omega (arith, or_lowest (suc a) 0, half.0), omega (arith, and_lowest (suc a) 0, half.1))

pub bit_or-zero : (a : ℕ) → bit_or a 0 ≡ a
bit_or-zero a = (right_zero (suc a) a (omega arith)).0

mul_one : (q : ℕ) → q * 1 ≡ q
mul_one q = omega arith

shift_split : (q k : ℕ) → q * 2 ^ suc k ≡ 2 * (q * 2 ^ k)
shift_split q k = omega (arith, ap (λ (t : ℕ). q * t) (pow-suc 2 k))

half-double : (c : ℕ) → 2 * c / 2 ≡ c
half-double c = omega arith

or_double : (c r : ℕ) → bit_or (2 * c) r ≡ bit_or c (r / 2) * 2 + r % 2
or_double c r = omega (arith, or_lowest (2 * c) r, ap (λ (t : ℕ). bit_or t (r / 2)) (half-double c))

-- `(q << k) | r` is a sum where r fits k bits.
pub bit_or_fields : (k q r : ℕ) → r < 2 ^ k → bit_or (q * 2 ^ k) r ≡ q * 2 ^ k + r
bit_or_fields zero q r h = unit_case q r (omega arith)
  where
    unit_case : (q r : ℕ) → r ≡ 0 → bit_or (q * 1) r ≡ q * 1 + r
    unit_case q r z = rw z (ap (λ (t : ℕ). bit_or t 0) (mul_one q) ∙ bit_or-zero q ∙ omega arith)
bit_or_fields (suc k) q r h =
    let split = shift_split q k in
    omega (
      arith,
      ap (λ (t : ℕ). bit_or t r) split,
      split,
      or_double (q * 2 ^ k) r,
      pow-suc 2 k,
      bit_or_fields k q (r / 2) (omega (arith, pow-suc 2 k)),
    )

-- A mask of ones keeps the lowest digits: one step for each.
mask1 : (a : ℕ) → bit_and a 1 ≡ a % 2
mask1 a = omega (arith, and_lowest a 1, (right_zero (suc (a / 2)) (a / 2) (omega arith)).1)

mask4 : (a : ℕ) → bit_and a 15 ≡ a % 16
mask4 a =
    omega (
      arith,
      and_lowest a 15,
      and_lowest (a / 2) 7,
      and_lowest (a / 2 / 2) 3,
      mask1 (a / 2 / 2 / 2),
    )

pub bit_and_0xFF : (a : ℕ) → bit_and a 0xFF ≡ a % 256
bit_and_0xFF a =
    let b = a / 2 / 2 in
    omega (
      arith,
      and_lowest a 255,
      and_lowest (a / 2) 127,
      and_lowest b 63,
      and_lowest (b / 2) 31,
      mask4 (b / 2 / 2),
    )

pub bit_and_0x3F : (a : ℕ) → bit_and a 0x3F ≡ a % 64
bit_and_0x3F a = omega (arith, and_lowest a 63, and_lowest (a / 2) 31, mask4 (a / 2 / 2))
