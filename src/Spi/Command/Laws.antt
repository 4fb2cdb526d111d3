-- ===== src/Spi/Command/Laws.antt =====
-- The parameters that a ROC reads out of the words of a command.
use otsdaq_mu2e.Base.{
  ℕ, zero, suc, ◌+◌, ◌-◌, ◌*◌, ◌^◌, ◌≡◌, ◌≤◌, ◌<◌, refl, List, [], ◌∷◌, ◌++◌, length, get_or, drop,
  replicate, arith, All, u16, shr,
}
use otsdaq_mu2e.Spi.Command.{
  read_words, directory_entries, directory_words, write_words, erase_words,
}

-- The 32-bit numbers of a list of words, lower halves first.
abbrev pub join_words : List ℕ → List ℕ
join_words [] = []
join_words (x ∷ []) = []
join_words (x ∷ y ∷ rest) = (x + y * 2 ^ 16) ∷ join_words rest

-- The parameter whose lower word is word `i` of a command.
abbrev pub parameter : ℕ → List ℕ → ℕ
parameter i words = get_or words i 0 + get_or words (suc i) 0 * 2 ^ 16

-- Two words hold a number of 32 bits.
two_words_lem : (x : ℕ) → x < 2 ^ 32 → u16 x + u16 (shr x 16) * 2 ^ 16 ≡ x
two_words_lem x h = omega arith

directory_entries_empty : (n : ℕ) → join_words (directory_entries n []) ≡ replicate n 0
unfolding directory_entries
directory_entries_empty zero = refl
directory_entries_empty (suc n) = rw (directory_entries_empty n) refl

join_words-directory_entries :
    (n : ℕ) (addresses : List ℕ)
    → All (λ a. a < 2 ^ 32) addresses
    → length addresses ≤ n
    → join_words (directory_entries n addresses) ≡ addresses ++ replicate (n - length addresses) 0
unfolding directory_entries
join_words-directory_entries n [] small few =
    let all : n - 0 ≡ n = omega arith in rw all (directory_entries_empty n)
join_words-directory_entries zero (a ∷ addresses) small few = absurd (omega arith)
join_words-directory_entries (suc n) (a ∷ addresses) small few =
    let left : suc n - suc (length addresses) ≡ n - length addresses = omega arith in
    rw (two_words_lem a small.0)
      (rw left (rw (join_words-directory_entries n addresses small.1 (omega arith)) refl))

length-directory_entries :
    (n : ℕ) (addresses : List ℕ) → length (directory_entries n addresses) ≡ 2 * n
unfolding directory_entries
length-directory_entries zero addresses = refl
length-directory_entries (suc n) [] = omega (arith, length-directory_entries n [])
length-directory_entries (suc n) (a ∷ addresses) =
    omega (arith, length-directory_entries n addresses)

-- The words of `writeSPIFlashDirectory`, for at most 16 addresses of 32 bits: there are 37, the
-- first parameter is the number of addresses, and the entries behind both parameters are the
-- addresses and then zeros.
pub directory_words_lem :
    (addresses : List ℕ)
    → All (λ a. a < 2 ^ 32) addresses
    → length addresses ≤ 16
    → (length (directory_words addresses) ≡ 37)
      × (parameter 1 (directory_words addresses) ≡ length addresses)
      × (join_words (drop 5 (directory_words addresses))
          ≡ addresses ++ replicate (16 - length addresses) 0)
unfolding directory_words
directory_words_lem addresses small few = (
  omega (arith, length-directory_entries 16 addresses),
  omega arith,
  join_words-directory_entries 16 addresses small few,
)

-- A ROC reads the address and the size out of the words of a read, a write and an erase, for
-- addresses and erase sizes of 32 bits, reads of at most 1016 bytes and writes of at most 512
-- words; behind the parameters of a write are its words.
pub flash_parameters :
    (start n size : ℕ) (data_words : List ℕ)
    → start < 2 ^ 32
    → size < 2 ^ 32
    → n ≤ 1016
    → length data_words ≤ 512
    → (parameter 1 (read_words start n) ≡ start)
      × (parameter 3 (read_words start n) ≡ n)
      × (parameter 1 (write_words data_words start) ≡ start)
      × (parameter 3 (write_words data_words start) ≡ length data_words)
      × (drop 5 (write_words data_words start) ≡ data_words)
      × (parameter 1 (erase_words size start) ≡ start)
      × (parameter 3 (erase_words size start) ≡ size)
unfolding read_words write_words erase_words
flash_parameters start n size data_words low big small few =
    (omega arith, omega arith, omega arith, omega arith, refl, omega arith, omega arith)
