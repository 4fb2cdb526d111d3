-- ===== src/Flash/Preflight.antt =====
-- `preflight`: the checks before anything is sent. It throws, or pads the image to whole words.
pub mod Laws
pub mod Accepted
use otsdaq_mu2e.Base.{
  ℕ, zero, suc, ◌+◌, ◌-◌, ◌*◌, ◌/◌, ◌%◌, ◌^◌, Bool, true, false, not, ◌&&◌, ◌⊎◌, inl, inr, List, [],
  ◌∷◌, ◌++◌, if◌then◌else◌, ◌==◌, ltb, leb, length, is_empty, map, pos_part,
}
use otsdaq_mu2e.Flash.Types.{
  Options, Job, Reason, sha_missing, image_empty, sha_differs, not_aligned, in_protected_area,
  no_attempts, past_address_space, past_capacity,
}
use otsdaq_mu2e.Flash.Checksum.{sha256_hex}

-- `tolower` on ASCII
unfoldable pub to_lower : ℕ → ℕ
to_lower c = if leb 65 c && leb c 90 then c + 32 else c

-- `==` of strings
unfoldable pub same_text : List ℕ → List ℕ → Bool
same_text [] [] = true
same_text [] (y ∷ ys) = false
same_text (x ∷ xs) [] = false
same_text (x ∷ xs) (y ∷ ys) = x == y && same_text xs ys

-- `if(image_.size() % 2) image_.push_back(0xFF)`
unfoldable pub pad_image : List ℕ → List ℕ
pad_image image = if length image % 2 == 0 then image else image ++ (0xFF ∷ [])

-- `footprintEnd`, of an image of `size` bytes: whole segments, and the block that an older MiV
-- erases after the last one. It is computed in 64 bits.
unfoldable pub footprint_end : Options → ℕ → ℕ
footprint_end o size = o.start_address + (size + 0xffff) / 0x10000 * 0x10000 + 0x10000

-- The checks on the padded image.
unfoldable pub check_footprint : Job → Reason ⊎ Job
check_footprint j =
    if ltb (2 ^ 32) (footprint_end j.opt (length j.image))
    then inl (past_address_space (length j.image) j.opt.start_address)
    else if not (j.opt.flash_bytes == 0)
        && ltb j.opt.flash_bytes (footprint_end j.opt (length j.image))
    then inl (past_capacity (length j.image) j.opt.start_address j.opt.flash_bytes)
    else inr j

-- The checks of the addresses and of the number of attempts.
unfoldable pub check_options : Job → Reason ⊎ Job
check_options j =
    if not (j.opt.start_address % 0x10000 == 0)
    then inl (not_aligned j.opt.start_address)
    else if ltb j.opt.start_address j.opt.protected_below
    then inl (in_protected_area j.opt.start_address j.opt.protected_below)
    else if j.opt.write_image && pos_part j.opt.max_segment_attempts == 0
    then inl (no_attempts j.opt.max_segment_attempts)
    else check_footprint (record j { image = pad_image j.image })

-- `preflight`: the exception, or the job with the padded image.
unfoldable pub preflight : Job → Reason ⊎ Job
preflight j =
    if not (length j.opt.expected_sha256 == 64)
    then inl sha_missing
    else if is_empty j.image
    then inl image_empty
    else if not (same_text (sha256_hex j.image) (map to_lower j.opt.expected_sha256))
    then inl (sha_differs (sha256_hex j.image) (map to_lower j.opt.expected_sha256))
    else check_options j
