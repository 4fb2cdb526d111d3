-- ===== src/Flash/Checksum.antt =====
-- The checksums of RocFlashProgrammer.h: `crc32` with its table, and `sha256hex`.
pub mod Sha256
unfoldable pub use Sha256.*
use otsdaq_mu2e.Base.{
  ℕ, zero, suc, ◌%◌, ◌^◌, ◌/◌, List, [], ◌∷◌, if◌then◌else◌, ◌==◌, get_or, shr, not32, bit_and,
  bit_xor,
}

-- One step of the bitwise CRC.
unfoldable pub crc_step : ℕ → ℕ
crc_step c = if bit_and c 1 == 1 then bit_xor 0xEDB88320 (shr c 1) else shr c 1

unfoldable pub crc_steps : ℕ → ℕ → ℕ
unfolding crc_step
crc_steps zero c = c
crc_steps (suc k) c = crc_steps k (crc_step c)

-- `crcTable[i]`
unfoldable pub crc_table : ℕ → ℕ
unfolding crc_steps
crc_table i = crc_steps 8 i

-- The loop over the bytes, on the complemented value.
unfoldable pub crc_bytes : ℕ → List ℕ → ℕ
unfolding crc_table
crc_bytes crc [] = crc
crc_bytes crc (b ∷ bs) =
    crc_bytes (bit_xor (crc_table (bit_and (bit_xor crc b) 0xFF)) (shr crc 8)) bs

-- `crc32(p, n, crc)`
unfoldable pub crc32_from : List ℕ → ℕ → ℕ
unfolding crc_bytes
crc32_from bytes crc = not32 (crc_bytes (not32 crc) bytes)

unfoldable pub crc32 : List ℕ → ℕ
unfolding crc32_from
crc32 bytes = crc32_from bytes 0
