-- ===== src/Base/Bits.antt =====
-- The bits of `bit_and`, `bit_or` and the complement, one by one from the lowest.
use Prim.Native.Nat.{max, digits, bit_and-bitwise, bit_or-bitwise}
use otsdaq_mu2e.Base.{
  ℕ, zero, suc, ◌+◌, ◌-◌, ◌*◌, ◌/◌, ◌%◌, ◌^◌, ◌≤◌, ◌<◌, ◌≡◌, refl, ap, min, arith, bit_and, bit_or,
}

-- Bit `k` of a number, 0 or 1.
abbrev pub bit : ℕ → ℕ → ℕ
bit zero x = x % 2
bit (suc k) x = bit k (x / 2)

-- Both operations are `digits`, with what is left when the first number is used up, and what is
-- done with one digit. Any fuel that is at least the first number will do.
digits_enough :
    (rest : ℕ → ℕ) (one : ℕ → ℕ → ℕ) (m n a b : ℕ)
    → a ≤ m
    → a ≤ n
    → digits rest one m a b ≡ digits rest one n a b
digits_enough rest one zero zero zero b h g = refl
digits_enough rest one zero (suc n) zero b h g = refl
digits_enough rest one (suc m) zero zero b h g = refl
digits_enough rest one (suc m) (suc n) zero b h g = refl
digits_enough rest one zero n (suc a) b h g = absurd (omega arith)
digits_enough rest one (suc m) zero (suc a) b h g = absurd (omega arith)
digits_enough rest one (suc m) (suc n) (suc a) b h g =
    omega (arith, digits_enough rest one m n (suc a / 2) (b / 2) (omega arith) (omega arith))

zero-bit_and : (b : ℕ) → bit_and 0 b ≡ 0
zero-bit_and b = bit_and-bitwise 0 b

pub zero-bit_or : (b : ℕ) → bit_or 0 b ≡ b
zero-bit_or b = bit_or-bitwise 0 b

-- The lowest digit of each operation, and the digits above it.
bit_and_digit : (a b : ℕ) → bit_and a b ≡ bit_and (a / 2) (b / 2) * 2 + min (a % 2) (b % 2)
bit_and_digit zero b = omega (arith, zero-bit_and b, zero-bit_and (b / 2))
bit_and_digit (suc a) b = omega (
  arith,
  bit_and-bitwise (suc a) b,
  bit_and-bitwise (suc a / 2) (b / 2),
  digits_enough (λ _. 0) min a (suc a / 2) (suc a / 2) (b / 2) (omega arith) (omega arith),
)

bit_or_digit : (a b : ℕ) → bit_or a b ≡ bit_or (a / 2) (b / 2) * 2 + max (a % 2) (b % 2)
bit_or_digit zero b = omega (arith, zero-bit_or b, zero-bit_or (b / 2))
bit_or_digit (suc a) b = omega (
  arith,
  bit_or-bitwise (suc a) b,
  bit_or-bitwise (suc a / 2) (b / 2),
  digits_enough (λ b. b) max a (suc a / 2) (suc a / 2) (b / 2) (omega arith) (omega arith),
)

half-bit_and : (a b : ℕ) → bit_and a b / 2 ≡ bit_and (a / 2) (b / 2)
half-bit_and a b = omega (arith, bit_and_digit a b)

half-bit_or : (a b : ℕ) → bit_or a b / 2 ≡ bit_or (a / 2) (b / 2)
half-bit_or a b = omega (arith, bit_or_digit a b)

pub bit-bit_and : (k a b : ℕ) → bit k (bit_and a b) ≡ min (bit k a) (bit k b)
bit-bit_and zero a b = omega (arith, bit_and_digit a b)
bit-bit_and (suc k) a b = rw (half-bit_and a b) (bit-bit_and k (a / 2) (b / 2))

pub bit-bit_or : (k a b : ℕ) → bit k (bit_or a b) ≡ max (bit k a) (bit k b)
bit-bit_or zero a b = omega (arith, bit_or_digit a b)
bit-bit_or (suc k) a b = rw (half-bit_or a b) (bit-bit_or k (a / 2) (b / 2))

bit_and_le_fuel : (n a b : ℕ) → a ≤ n → bit_and a b ≤ a
bit_and_le_fuel zero a b h = let e : a ≡ 0 = omega arith in rw e (omega (arith, zero-bit_and b))
bit_and_le_fuel (suc n) zero b h = omega (arith, zero-bit_and b)
bit_and_le_fuel (suc n) (suc a) b h =
    omega (arith, bit_and_digit (suc a) b, bit_and_le_fuel n (suc a / 2) (b / 2) (omega arith))

pub bit_and_le : (a b : ℕ) → bit_and a b ≤ a
bit_and_le a b = bit_and_le_fuel a a b (omega arith)

pub bit-zero : (k : ℕ) → bit k 0 ≡ 0
bit-zero zero = refl
bit-zero (suc k) = bit-zero k

pub bit_bound : (k x : ℕ) → bit k x ≤ 1
bit_bound zero x = omega arith
bit_bound (suc k) x = bit_bound k (x / 2)

-- A number of `w` ones, and the complement in `w` bits.
abbrev pub ones : ℕ → ℕ
ones zero = 0
ones (suc w) = ones w * 2 + 1

pub bit-complement : (w k x : ℕ) → k < w → x ≤ ones w → bit k (ones w - x) ≡ 1 - bit k x
bit-complement zero k x h g = absurd (omega arith)
bit-complement (suc w) zero x h g = omega arith
bit-complement (suc w) (suc k) x h g =
    rw (half w) (bit-complement w k (x / 2) (omega arith) (omega arith))
  where
    half : (w : ℕ) → (ones w * 2 + 1 - x) / 2 ≡ ones w - x / 2
    half w = omega arith

pub bit-ones : (w k : ℕ) → k < w → bit k (ones w) ≡ 1
bit-ones zero k h = absurd (omega arith)
bit-ones (suc w) zero h = omega arith
bit-ones (suc w) (suc k) h = rw (half w) (bit-ones w k (omega arith))
  where
    half : (w : ℕ) → (ones w * 2 + 1) / 2 ≡ ones w
    half w = omega arith

double-pow : (k q : ℕ) → q * 2 ^ suc k ≡ q * 2 ^ k * 2
double-pow k q = grind arith

-- Two numbers whose digits do not overlap.
pub bit_or_fields : (k q r : ℕ) → r < 2 ^ k → bit_or r (q * 2 ^ k) ≡ q * 2 ^ k + r
bit_or_fields zero q r h =
    let e : r ≡ 0 = omega arith in rw e (omega (arith, zero-bit_or (q * 2 ^ 0)))
bit_or_fields (suc k) q r h =
    let half : q * 2 ^ k * 2 / 2 ≡ q * 2 ^ k = omega arith in
    let above = bit_or_fields k q (r / 2) (grind arith) in
    let digit = bit_or_digit r (q * 2 ^ k * 2) in
    let same = ap (λ x. bit_or (r / 2) x) half in
    rw (double-pow k q) (omega (arith, digit, same, above))

bit_or_comm_fuel : (n a b : ℕ) → a ≤ n → b ≤ n → bit_or a b ≡ bit_or b a
bit_or_comm_fuel zero a b h g =
    let e : a ≡ 0 = omega arith in let f : b ≡ 0 = omega arith in rw e (rw f refl)
bit_or_comm_fuel (suc n) a b h g = omega (
  arith,
  bit_or_digit a b,
  bit_or_digit b a,
  bit_or_comm_fuel n (a / 2) (b / 2) (omega arith) (omega arith),
)

pub bit_or_comm : (a b : ℕ) → bit_or a b ≡ bit_or b a
bit_or_comm a b = bit_or_comm_fuel (a + b) a b (omega arith) (omega arith)
