-- ===== src/Spi/Command.antt =====
-- The words of the commands: the action, two parameters of 32 bits, lower halves first, and what is
-- to be written.
pub mod Laws
use otsdaq_mu2e.Base.{ℕ, zero, suc, ◌-◌, List, [], ◌∷◌, ◌++◌, length, u16, u32, shr}

-- `CaloTrkActions`
abbrev pub action_erase : ℕ
action_erase = 3

abbrev pub action_prog_index : ℕ
action_prog_index = 4

abbrev pub action_prog_addr : ℕ
action_prog_addr = 5

abbrev pub action_read : ℕ
action_read = 7

abbrev pub action_write : ℕ
action_write = 8

abbrev pub action_write_dir : ℕ
action_write_dir = 9

-- A 32-bit parameter as two words.
abbrev pub two_words : ℕ → List ℕ
two_words x = u16 x ∷ u16 (shr x 16) ∷ []

unfoldable pub read_words : ℕ → ℕ → List ℕ
read_words start n = action_read ∷ (two_words start ++ (n ∷ 0 ∷ []))

-- The addresses of the images, and zeros up to sixteen.
unfoldable pub directory_entries : ℕ → List ℕ → List ℕ
directory_entries zero addresses = []
directory_entries (suc n) [] = 0 ∷ 0 ∷ directory_entries n []
directory_entries (suc n) (a ∷ addresses) = two_words a ++ directory_entries n addresses

unfoldable pub directory_words : List ℕ → List ℕ
directory_words addresses =
    action_write_dir ∷ u16 (length addresses) ∷ 0 ∷ 0 ∷ 0 ∷ directory_entries 16 addresses

unfoldable pub write_words : List ℕ → ℕ → List ℕ
write_words data_words start =
    action_write ∷ (two_words start ++ (u16 (length data_words) ∷ 0 ∷ data_words))

unfoldable pub erase_words : ℕ → ℕ → List ℕ
erase_words size start = action_erase ∷ (two_words start ++ two_words size)

unfoldable pub index_words : ℕ → List ℕ
index_words index = action_prog_index ∷ index ∷ 0 ∷ 0 ∷ 0 ∷ []

unfoldable pub address_words : ℕ → List ℕ
address_words start = action_prog_addr ∷ (two_words start ++ (0 ∷ 0 ∷ []))

unfoldable pub auto_words : List ℕ
auto_words = action_prog_addr ∷ 0 ∷ 0 ∷ 0 ∷ 0 ∷ []
