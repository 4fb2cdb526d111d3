-- ===== src/Flash/Preflight/Laws.antt =====
-- The checks of `preflight` as conditions on the job.
use otsdaq_mu2e.Base.{
  ℕ, ◌+◌, ◌*◌, ◌/◌, ◌%◌, ◌^◌, ◌≤◌, ◌<◌, ◌≡◌, ◌≢◌, ◌↔◌, refl, inl, inr, true, List, [], ◌∷◌, length,
  pos_part, length-append, map, arith, Bool-cases, ◌==◌,
}
use otsdaq_mu2e.Flash.Types.{Job}
use otsdaq_mu2e.Flash.Checksum.{sha256_hex}
use otsdaq_mu2e.Flash.Preflight.{
  to_lower, same_text, pad_image, footprint_end, check_footprint, check_options, preflight,
}

pub same_text_iff : (xs ys : List ℕ) → (same_text xs ys ≡ true) ↔ (xs ≡ ys)
unfolding same_text
same_text_iff [] [] = (λ _. refl, λ _. refl)
same_text_iff [] (y ∷ ys) = (λ h. cc, λ h. cc)
same_text_iff (x ∷ xs) [] = (λ h. cc, λ h. cc)
same_text_iff (x ∷ xs) (y ∷ ys) =
    (λ h. ground (arith, (same_text_iff xs ys).0), λ h. ground (arith, (same_text_iff xs ys).1))

pub length-pad_image : (image : List ℕ) → length (pad_image image) ≡ (length image + 1) / 2 * 2
unfolding pad_image
length-pad_image image = elim (Bool-cases (length image % 2 == 0)) [
  | inl even ↦ rw even (ground arith)
  | inr odd ↦ rw odd (ground (arith, length-append image (0xFF ∷ [])))
]

abbrev pub padded_job : Job → Job
padded_job j = record j { image = pad_image j.image }

-- The conditions on the addresses and the number of attempts.
pub record HasSafeOptions (j : Job) : Type 0 where
  pub aligned : j.opt.start_address % 0x10000 ≡ 0
  pub unprotected : j.opt.protected_below ≤ j.opt.start_address
  pub attempts : j.opt.write_image ≡ true → 0 < pos_part j.opt.max_segment_attempts
  pub in_space : footprint_end j.opt (length (pad_image j.image)) ≤ 2 ^ 32
  pub in_flash :
      j.opt.flash_bytes ≢ 0 → footprint_end j.opt (length (pad_image j.image)) ≤ j.opt.flash_bytes

-- All checks of `preflight`.
pub record IsChecked (j : Job) : Type 0 where
  pub digest_given : length j.opt.expected_sha256 ≡ 64
  pub nonempty : j.image ≢ []
  pub digest : sha256_hex j.image ≡ map to_lower j.opt.expected_sha256
  pub options : HasSafeOptions j

check_options_sound :
    (j : Job) {j' : Job} → check_options j ≡ inr j' → HasSafeOptions j × (j' ≡ padded_job j)
unfolding check_options check_footprint
check_options_sound j h = ground arith

check_options_complete : (j : Job) → HasSafeOptions j → check_options j ≡ inr (padded_job j)
unfolding check_options check_footprint
check_options_complete j ok = ground arith

-- What `preflight` returns satisfies the conditions.
pub preflight_sound :
    (j : Job) {j' : Job} → preflight j ≡ inr j' → IsChecked j × (j' ≡ padded_job j)
unfolding preflight
preflight_sound j {j' = j'} h = ground (
  arith,
  check_options_sound j {j' = j'},
  (same_text_iff (sha256_hex j.image) (map to_lower j.opt.expected_sha256)).0,
)

pub preflight_complete : (j : Job) → IsChecked j → preflight j ≡ inr (padded_job j)
unfolding preflight
preflight_complete j ok = ground (
  arith,
  check_options_complete j ok.options,
  (same_text_iff (sha256_hex j.image) (map to_lower j.opt.expected_sha256)).1 ok.digest,
)
