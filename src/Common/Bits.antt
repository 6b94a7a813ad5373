-- ===== src/Common/Bits.antt =====
-- The bit operations as arithmetic: fields that do not overlap, and low masks.
use Prim.Native.Nat.{
  ℕ, zero, suc, ◌+◌, ◌*◌, ◌/◌, ◌%◌, ◌^◌, ◌-◌, ◌≤◌, ◌<◌, min, max, digits, bit_and, bit_or,
  bit_and-bitwise, bit_or-bitwise,
}
use mathlib.Core.Path.{◌≡◌, refl, ap}
use mathlib.Core.Bool.{Bool, true, ◌&&◌}
use native.Mathlib.Nat.{pow-suc, one-le-pow}
use native.Mathlib.Omega.{arith}

-- The fuel of the digit recursion does not matter once it covers the first number.
module _ (rest : ℕ → ℕ) (op : ℕ → ℕ → ℕ) where
  enough_fuel : (a b m n : ℕ) → a ≤ m → a ≤ n → digits rest op m a b ≡ digits rest op n a b
  enough_fuel zero b zero zero p q = refl
  enough_fuel zero b zero (suc n) p q = refl
  enough_fuel zero b (suc m) zero p q = refl
  enough_fuel zero b (suc m) (suc n) p q = refl
  enough_fuel (suc a) b zero n p q = absurd (omega arith)
  enough_fuel (suc a) b (suc m) zero p q = absurd (omega arith)
  enough_fuel (suc a) b (suc m) (suc n) p q =
      ap (λ (t : ℕ). t * 2 + op (suc a % 2) (b % 2))
        (enough_fuel (suc a / 2) (b / 2) m n (omega arith) (omega arith))

-- The lowest digit of each operation.
pub bit_or_lowest : (a b : ℕ) → bit_or a b ≡ bit_or (a / 2) (b / 2) * 2 + max (a % 2) (b % 2)
bit_or_lowest zero b = omega (arith, bit_or-bitwise 0 b, bit_or-bitwise 0 (b / 2))
bit_or_lowest (suc a) b =
    let same =
      enough_fuel (λ y. y) max (suc a / 2) (b / 2) a (suc a / 2) (omega arith) (omega arith) in
    omega (arith, bit_or-bitwise (suc a) b, bit_or-bitwise (suc a / 2) (b / 2), same)

pub bit_and_lowest : (a b : ℕ) → bit_and a b ≡ bit_and (a / 2) (b / 2) * 2 + min (a % 2) (b % 2)
bit_and_lowest zero b = omega (arith, bit_and-bitwise 0 b, bit_and-bitwise 0 (b / 2))
bit_and_lowest (suc a) b =
    let same =
      enough_fuel (λ y. 0) min (suc a / 2) (b / 2) a (suc a / 2) (omega arith) (omega arith) in
    omega (arith, bit_and-bitwise (suc a) b, bit_and-bitwise (suc a / 2) (b / 2), same)

bit_or-zero_below : (k a : ℕ) → a < k → bit_or a 0 ≡ a
bit_or-zero_below zero a h = absurd (omega arith)
bit_or-zero_below (suc k) zero h = refl
bit_or-zero_below (suc k) (suc a) h =
    omega (arith, bit_or_lowest (suc a) 0, bit_or-zero_below k (suc a / 2) (omega arith))

pub bit_or-zero : (a : ℕ) → bit_or a 0 ≡ a
bit_or-zero a = bit_or-zero_below (suc a) a (omega arith)

bit_and-zero_below : (k a : ℕ) → a < k → bit_and a 0 ≡ 0
bit_and-zero_below zero a h = absurd (omega arith)
bit_and-zero_below (suc k) zero h = refl
bit_and-zero_below (suc k) (suc a) h =
    omega (arith, bit_and_lowest (suc a) 0, bit_and-zero_below k (suc a / 2) (omega arith))

pub bit_and-zero : (a : ℕ) → bit_and a 0 ≡ 0
bit_and-zero a = bit_and-zero_below (suc a) a (omega arith)

double-pow : (q k : ℕ) → q * 2 ^ suc k ≡ (q * 2 ^ k) * 2
double-pow q k = omega (arith, ap (λ (t : ℕ). q * t) (pow-suc 2 k))

-- A low field and a high field are joined by a sum.
pub bit_or-high : (k low high : ℕ) → low < 2 ^ k → bit_or low (high * 2 ^ k) ≡ high * 2 ^ k + low
bit_or-high zero low high h =
    ground (arith, bit_or_lowest low high, bit_or_lowest 0 high, bit_or-bitwise 0 high)
bit_or-high (suc k) low high h = ground (
  arith,
  bit_or_lowest low (high * 2 ^ suc k),
  double-pow high k,
  pow-suc 2 k,
  bit_or-high k (low / 2) high (omega (arith, pow-suc 2 k)),
)

pub bit_or-low : (k high low : ℕ) → low < 2 ^ k → bit_or (high * 2 ^ k) low ≡ high * 2 ^ k + low
bit_or-low zero high low h = ground (arith, bit_or-zero high)
bit_or-low (suc k) high low h = ground (
  arith,
  bit_or_lowest (high * 2 ^ suc k) low,
  double-pow high k,
  pow-suc 2 k,
  bit_or-low k high (low / 2) (omega (arith, pow-suc 2 k)),
)

-- The high fields of two numbers are joined by themselves, over a low field that one of them has.
pub bit_or-fields :
    (k left right low : ℕ)
    → low < 2 ^ k
    → bit_or (left * 2 ^ k + low) (right * 2 ^ k) ≡ bit_or left right * 2 ^ k + low
bit_or-fields zero left right low h = let none : low ≡ 0 = omega arith in rw none (ground arith)
bit_or-fields (suc k) left right low h = ground (
  arith,
  bit_or_lowest (left * 2 ^ suc k + low) (right * 2 ^ suc k),
  double-pow left k,
  double-pow right k,
  double-pow (bit_or left right) k,
  pow-suc 2 k,
  bit_or-fields k left right (low / 2) (omega (arith, pow-suc 2 k)),
)

-- A mask of the `k` low bits takes the remainder.
mask_fields : (k high low : ℕ) → low < 2 ^ k → bit_and (high * 2 ^ k + low) (2 ^ k - 1) ≡ low
mask_fields zero high low h = ground (arith, bit_and-zero (high * 2 ^ 0 + low))
mask_fields (suc k) high low h = ground (
  arith,
  bit_and_lowest (high * 2 ^ suc k + low) (2 ^ suc k - 1),
  double-pow high k,
  pow-suc 2 k,
  one-le-pow k 2,
  mask_fields k high (low / 2) (omega (arith, pow-suc 2 k)),
)

pub bit_and_mask : (k a : ℕ) → bit_and a (2 ^ k - 1) ≡ a % 2 ^ k
bit_and_mask k a = ground (arith, one-le-pow k 2, mask_fields k (a / 2 ^ k) (a % 2 ^ k))

-- A statement about every number below a bound, checked by evaluation.
unfoldable pub every_below : ℕ → (ℕ → Bool) → Bool
every_below zero p = true
every_below (suc n) p = p n && every_below n p

pub every_below_sound : (n : ℕ) (p : ℕ → Bool) (x : ℕ) → every_below n p ≡ true → x < n → p x ≡ true
unfolding every_below
every_below_sound zero p x h lt = absurd (omega arith)
every_below_sound (suc n) p x h lt = ground (arith, every_below_sound n p x)

-- A mask of the bits from `k` on takes the field that stands there.
mask_high_fields :
    (k high low mask : ℕ)
    → low < 2 ^ k
    → bit_and (high * 2 ^ k + low) (mask * 2 ^ k) ≡ bit_and high mask * 2 ^ k
mask_high_fields zero high low mask h = let none : low ≡ 0 = omega arith in rw none (ground arith)
mask_high_fields (suc k) high low mask h = ground (
  arith,
  bit_and_lowest (high * 2 ^ suc k + low) (mask * 2 ^ suc k),
  double-pow high k,
  double-pow mask k,
  double-pow (bit_and high mask) k,
  pow-suc 2 k,
  mask_high_fields k high (low / 2) mask (omega (arith, pow-suc 2 k)),
)

pub bit_and_high : (k a mask : ℕ) → bit_and a (mask * 2 ^ k) ≡ bit_and (a / 2 ^ k) mask * 2 ^ k
bit_and_high k a mask =
    ground (arith, one-le-pow k 2, mask_high_fields k (a / 2 ^ k) (a % 2 ^ k) mask)
