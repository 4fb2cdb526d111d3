-- ===== src/Flash/Verify/Laws.antt =====
-- What the verification accepts: the words of the file, and no others.
use otsdaq_mu2e.Base.{
  ℕ, zero, suc, ◌+◌, ◌*◌, ◌^◌, ◌≡◌, ◌≤◌, ◌<◌, ◌↔◌, refl, Option, none, some, List, [], ◌∷◌,
  if◌then◌else◌, ◌==◌, length, get_or, take, bit_or, u16, u32, arith,
}
use otsdaq_mu2e.Flash.Types.{Reason, read_back_mismatch}
use otsdaq_mu2e.Base.Bits.{bit_or_comm, bit_or_fields}
use otsdaq_mu2e.Flash.Reply.{payload, check_tag}
use otsdaq_mu2e.Flash.Verify.{crc_verdict, piece_mismatch}
use otsdaq_mu2e.Flash.Segment.Write.{record_words}

get_or_default : (xs : List ℕ) (i d e : ℕ) → i < length xs → get_or xs i d ≡ get_or xs i e
get_or_default [] i d e h = absurd (omega arith)
get_or_default (x ∷ xs) zero d e h = refl
get_or_default (x ∷ xs) (suc i) d e h = get_or_default xs i d e (omega arith)

cons_step :
    (x y : ℕ) (m : Option Reason) (why : Reason) (xs ys : List ℕ)
    → (m ≡ none) ↔ (xs ≡ ys)
    → ((if x == y then m else some why) ≡ none) ↔ (x ∷ xs ≡ y ∷ ys)
cons_step x y m why xs ys rest = (λ h. ground (arith, rest.0), λ h. ground (arith, rest.1))

-- The words read back from a piece of the image pass the comparison if and only if they begin with
-- the words that are written for the same bytes.
pub piece_mismatch-record_words :
    (image : List ℕ) (n addr k : ℕ) (words : List ℕ)
    → k + n * 2 ≤ length image
    → (piece_mismatch image n addr k words ≡ none) ↔ (take n words ≡ record_words image n k)
unfolding piece_mismatch record_words
piece_mismatch-record_words image zero addr k words h = (λ _. refl, λ _. refl)
piece_mismatch-record_words image (suc n) addr k [] h =
    (λ e. absurd (ground arith), λ e. absurd (ground arith))
piece_mismatch-record_words image (suc n) addr k (x ∷ words) h =
    let rest = piece_mismatch-record_words image n (u32 (addr + 2)) (k + 2) words (omega arith) in
    let same = get_or_default image (k + 1) 0 0xFF (omega arith) in
    let word = u16 (bit_or (get_or image k 0) (get_or image (k + 1) 0xFF * 2 ^ 8)) in
    rw same (
      cons_step x word (piece_mismatch image n (u32 (addr + 2)) (k + 2) words)
        (read_back_mismatch addr) (take n words) (record_words image n (k + 2)) rest)

-- A reply `[tag, crc lo, crc hi, error]` to a CRC request is accepted if and only if its tag is that
-- of the request, it reports no error, and its two words are the CRC that is wanted.
pub crc_verdict-check_tag :
    (want tag t lo hi e : ℕ)
    → lo < 2 ^ 16
    → (crc_verdict want (check_tag tag 4 (payload (t ∷ lo ∷ hi ∷ e ∷ []))) ≡ none)
      ↔ ((t ≡ tag) × (e ≡ 0) × (hi * 2 ^ 16 + lo ≡ want))
unfolding crc_verdict check_tag
crc_verdict-check_tag want tag t lo hi e h =
    let crc : bit_or (hi * 2 ^ 16) lo ≡ hi * 2 ^ 16 + lo =
      omega (arith, bit_or_comm (hi * 2 ^ 16) lo, bit_or_fields 16 hi lo h) in
    (λ v. ground (arith, crc), λ v. ground (arith, crc))
