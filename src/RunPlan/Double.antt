-- ===== src/RunPlan/Double.antt =====
-- `double`, as far as the ratios need it: positive numbers between 2 ^ -140 and 2 ^ 200, each as
-- its value times 2 ^ 200, which is a natural number. A result is rounded to 53 significant bits,
-- to the nearest and on a tie to the even (IEEE 754).
use otsdaq_mu2e.Base.{ℕ, zero, suc, ◌+◌, ◌*◌, ◌/◌, ◌%◌, ◌^◌, ◌||◌, ◌&&◌, if◌then◌else◌, ◌==◌, ltb}

abbrev pub Double : Type 0
Double = ℕ

-- The integer nearest to `a / b`.
unfoldable pub nearest : ℕ → ℕ → ℕ
nearest a b = if ltb b (a % b * 2) || (a % b * 2 == b && a / b % 2 == 1) then a / b + 1 else a / b

-- `a / b` in 53 bits: `b` and the weight `w` of the last bit are doubled until the quotient fits.
unfoldable pub round_bits : ℕ → ℕ → ℕ → ℕ → ℕ
round_bits zero a b w = nearest a b * w
round_bits (suc fuel) a b w =
    let rest = round_bits fuel a (b * 2) (w * 2) in
    if ltb a (b * 2 ^ 53) then nearest a b * w else rest

unfoldable pub round_ratio : ℕ → ℕ → Double
round_ratio a b = round_bits 400 a b 1

-- `static_cast<double>` of a `uint32_t`: exact
unfoldable pub of_nat : ℕ → Double
of_nat n = n * 2 ^ 200

unfoldable pub divide : Double → Double → Double
divide x y = round_ratio (x * 2 ^ 200) y

unfoldable pub multiply : Double → Double → Double
multiply x y = round_ratio (x * y) (2 ^ 200)

-- The conversion to an unsigned integer: towards zero
unfoldable pub truncate : Double → ℕ
truncate x = x / 2 ^ 200
