-- ===== src/Flash/Preflight/Accepted.antt =====
-- Which jobs `preflight` accepts, said of the image and the flash, without the sums of the code.
use otsdaq_mu2e.Base.{
  ℕ, ◌+◌, ◌-◌, ◌*◌, ◌/◌, ◌%◌, ◌^◌, ◌≤◌, ◌<◌, ◌≡◌, ◌≢◌, ◌↔◌, ◌⊎◌, refl, ap, sym, ◌∙◌, inl, inr, true,
  List, [], ◌∷◌, ◌++◌, length, map, replicate, arith, Bool-cases, ◌==◌, ℤ, pos, negsuc, pos_part, ⊤,
}
use mathlib.Core.List.{append-nil}
use otsdaq_mu2e.Flash.Types.{Job}
use otsdaq_mu2e.Flash.Checksum.{sha256_hex}
use otsdaq_mu2e.Flash.Preflight.{to_lower, pad_image, footprint_end, preflight}
use otsdaq_mu2e.Flash.Preflight.Laws.{
  length-pad_image, padded_job, IsChecked, preflight_sound, preflight_complete,
}

-- `x` is `y`, or the small letter of the capital `y`.
abbrev pub IsSmall : ℕ → ℕ → Type 0
IsSmall x y = (((y < 65) ⊎ (90 < y)) × (x ≡ y)) ⊎ ((65 ≤ y) × (y ≤ 90) × (x ≡ y + 32))

abbrev pub AreSmall : List ℕ → List ℕ → Type 0
AreSmall [] [] = ⊤
AreSmall [] (y ∷ ys) = ⊥
AreSmall (x ∷ xs) [] = ⊥
AreSmall (x ∷ xs) (y ∷ ys) = IsSmall x y × AreSmall xs ys

-- For each byte of the image, the block of 64 kB in which it lies and the block behind this one end
-- at or below `limit`.
abbrev pub LiesBelow : Job → ℕ → Type 0
LiesBelow j limit =
    (i : ℕ) → i < length j.image → j.opt.start_address + i / 0x10000 * 0x10000 + 0x20000 ≤ limit

abbrev pub IsPositive : ℤ → Type 0
IsPositive (pos n) = 0 < n
IsPositive (negsuc n) = ⊥

-- The conditions under which a job may start.
pub record IsAcceptable (j : Job) : Type 0 where
  pub digest_given : length j.opt.expected_sha256 ≡ 64
  pub nonempty : 0 < length j.image
  pub digest : AreSmall (sha256_hex j.image) j.opt.expected_sha256
  pub aligned : j.opt.start_address % 0x10000 ≡ 0
  pub unprotected : j.opt.protected_below ≤ j.opt.start_address
  pub attempts : j.opt.write_image ≡ true → IsPositive j.opt.max_segment_attempts
  pub in_space : LiesBelow j (2 ^ 32)
  pub in_flash : j.opt.flash_bytes ≢ 0 → LiesBelow j j.opt.flash_bytes

-- The job with an image of whole words: one more byte 0xFF where the size is odd.
abbrev pub whole_words : Job → Job
whole_words j = record j { image = j.image ++ replicate (length j.image % 2) 0xFF }

to_lower-AreSmall : (xs ys : List ℕ) → (xs ≡ map to_lower ys) ↔ AreSmall xs ys
unfolding to_lower
to_lower-AreSmall [] [] = (λ _. tt, λ _. refl)
to_lower-AreSmall [] (y ∷ ys) = (λ h. ground arith, λ h. absurd h)
to_lower-AreSmall (x ∷ xs) [] = (λ h. ground arith, λ h. absurd h)
to_lower-AreSmall (x ∷ xs) (y ∷ ys) = (
  λ h. ground (arith, (to_lower-AreSmall xs ys).0),
  λ h. ground (arith, (to_lower-AreSmall xs ys).1),
)

pad_image-replicate : (xs : List ℕ) → pad_image xs ≡ xs ++ replicate (length xs % 2) 0xFF
unfolding pad_image
pad_image-replicate xs = elim (Bool-cases (length xs % 2 == 0)) [
  | inl even ↦
      let none_more : length xs % 2 ≡ 0 = ground arith in
      rw even (rw none_more (sym (append-nil xs)))
  | inr odd ↦ let one_more : length xs % 2 ≡ 1 = ground arith in rw odd (rw one_more refl)
]

module _ (j : Job) (some : 0 < length j.image) (limit : ℕ) where
  abbrev end : ℕ
  end = footprint_end j.opt (length (pad_image j.image))

  footprint-LiesBelow : end ≤ limit → LiesBelow j limit
  unfolding footprint_end
  footprint-LiesBelow h i low = omega (arith, length-pad_image j.image)

  LiesBelow-footprint : LiesBelow j limit → end ≤ limit
  unfolding footprint_end
  LiesBelow-footprint h =
      let last = h (length j.image - 1) (omega arith) in omega (arith, length-pad_image j.image)

pos_part-IsPositive : (z : ℤ) → (0 < pos_part z) ↔ IsPositive z
pos_part-IsPositive (pos n) = (λ h. h, λ h. h)
pos_part-IsPositive (negsuc n) = (λ h. omega arith, λ h. omega arith)

whole_words-padded_job : (j : Job) → padded_job j ≡ whole_words j
whole_words-padded_job j = ap (λ image. record j { image = image }) (pad_image-replicate j.image)

length-nonempty : (xs : List ℕ) → (xs ≢ []) ↔ (0 < length xs)
length-nonempty [] = (λ h. absurd (h refl), λ h. absurd (omega arith))
length-nonempty (x ∷ xs) = (λ h. omega arith, λ h e. cc)

checked-IsAcceptable : (j : Job) → IsChecked j → IsAcceptable j
checked-IsAcceptable j ok =
    let some = (length-nonempty j.image).0 ok.nonempty in
    record {
      digest_given = ok.digest_given;
      nonempty = some;
      digest = (to_lower-AreSmall (sha256_hex j.image) j.opt.expected_sha256).0 ok.digest;
      aligned = ok.options.aligned;
      unprotected = ok.options.unprotected;
      attempts = λ w. (pos_part-IsPositive j.opt.max_segment_attempts).0 (ok.options.attempts w);
      in_space = footprint-LiesBelow j some (2 ^ 32) ok.options.in_space;
      in_flash = λ given. footprint-LiesBelow j some j.opt.flash_bytes (ok.options.in_flash given);
    }

acceptable-IsChecked : (j : Job) → IsAcceptable j → IsChecked j
acceptable-IsChecked j ok = record {
  digest_given = ok.digest_given;
  nonempty = (length-nonempty j.image).1 ok.nonempty;
  digest = (to_lower-AreSmall (sha256_hex j.image) j.opt.expected_sha256).1 ok.digest;
  options = record {
    aligned = ok.aligned;
    unprotected = ok.unprotected;
    attempts = λ w. (pos_part-IsPositive j.opt.max_segment_attempts).1 (ok.attempts w);
    in_space = LiesBelow-footprint j ok.nonempty (2 ^ 32) ok.in_space;
    in_flash = λ given. LiesBelow-footprint j ok.nonempty j.opt.flash_bytes (ok.in_flash given);
  };
}

-- `preflight` returns a job if and only if 64 hex digits are given, which are those of the SHA-256 of
-- a nonempty image up to capitals, the start address is a multiple of 64 kB and not protected, the
-- attempts are positive where the image is to be written, and for each byte of the image its block
-- of 64 kB and the next one end within the 32-bit address space and, where it is known, the flash.
-- The job returned is then the given one, with a byte 0xFF behind an image of odd size.
pub preflight_lem : (j j' : Job) → (preflight j ≡ inr j') ↔ (IsAcceptable j × (j' ≡ whole_words j))
preflight_lem j j' = (
  λ h.
      let passed = preflight_sound j h in
      (checked-IsAcceptable j passed.0, passed.1 ∙ whole_words-padded_job j),
  λ h.
      preflight_complete j (acceptable-IsChecked j h.0)
      ∙ ap inr (whole_words-padded_job j ∙ sym h.1),
)
