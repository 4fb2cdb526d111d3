-- ===== src/Track/Emulator/Pattern.antt =====
-- Which blocks the check of the emulated data accepts.
use otsdaq_mu2e.Base.{
  ℕ, zero, suc, ◌+◌, ◌-◌, ◌*◌, ◌/◌, ◌^◌, ◌≡◌, ap, sym, ◌∙◌, ◌≤◌, ◌<◌, ◌↔◌, refl, true, false, inl,
  inr, Option, none, some, ◌==◌, ltb, leb, u16, arith, Bool-cases,
}
use otsdaq_mu2e.Base.Assoc.{Map, lookup, insert}
use otsdaq_mu2e.Track.Types.{DataBlock, EmulatorState}
use otsdaq_mu2e.Track.Emulator.{
  is_timeout, packets_of, word_count, stream_key, scan_pairs, end_pairs, check_pairs, check_start,
  check_words, check_packets, check_emulator_block, note_data_error, note_packet_error,
}

-- `n` pairs from `index` on, the first with the counter `e`.
abbrev pub PairsFrom : (ℕ → ℕ) → ℕ → ℕ → ℕ → Type 0
PairsFrom words n index e =
    (i : ℕ)
    → i < n
    → (words (index + 2 * i) ≡ words 0) × (words (index + 2 * i + 1) ≡ u16 (e + 2 * i))

pairs-suc :
    (words : ℕ → ℕ) (n index e : ℕ)
    → words index ≡ words 0
    → words (index + 1) ≡ e
    → e < 2 ^ 16
    → PairsFrom words n (index + 2) (u16 (e + 2))
    → PairsFrom words (suc n) index e
pairs-suc words n index e constant counter bound rest zero below =
    let here : index + 2 * 0 ≡ index = omega arith in
    let value : u16 (e + 2 * 0) ≡ e = omega arith in rw here (rw value (constant, counter))
pairs-suc words n index e constant counter bound rest (suc i) below =
    let there : index + 2 * suc i ≡ index + 2 + 2 * i = omega arith in
    let value : u16 (e + 2 * suc i) ≡ u16 (u16 (e + 2) + 2 * i) = omega arith in
    rw there (rw value (rest i (omega arith)))

pairs-pred :
    (words : ℕ → ℕ) (n index e : ℕ)
    → PairsFrom words (suc n) index e
    → PairsFrom words n (index + 2) (u16 (e + 2))
pairs-pred words n index e all i below =
    let there : index + 2 * suc i ≡ index + 2 + 2 * i = omega arith in
    let value : u16 (e + 2 * suc i) ≡ u16 (u16 (e + 2) + 2 * i) = omega arith in
    let pair = all (suc i) (omega arith) in rw (← there) (rw (← value) pair)

scan_pairs_sound :
    (words : ℕ → ℕ) (n index e : ℕ)
    → e < 2 ^ 16
    → scan_pairs words n index e ≡ none
    → PairsFrom words n index e
unfolding scan_pairs
scan_pairs_sound words zero index e bound h = λ i below. absurd (omega arith)
scan_pairs_sound words (suc n) index e bound h = elim (Bool-cases (words index == words 0)) [
  | inr c ↦ absurd (ground arith)
  | inl c ↦ elim (Bool-cases (words (index + 1) == e)) [
    | inr k ↦ absurd (ground arith)
    | inl k ↦
        pairs-suc words n index e (ground arith) (ground arith) bound
          (scan_pairs_sound words n (index + 2) (u16 (e + 2)) (omega arith) (ground arith))
  ]
]

pub scan_pairs_complete :
    (words : ℕ → ℕ) (n index e : ℕ)
    → e < 2 ^ 16
    → PairsFrom words n index e
    → scan_pairs words n index e ≡ none
unfolding scan_pairs
scan_pairs_complete words zero index e bound all = refl
scan_pairs_complete words (suc n) index e bound all =
    let here : index + 2 * 0 ≡ index = omega arith in
    let value : u16 (e + 2 * 0) ≡ e = omega arith in
    let pair = all 0 (omega arith) in
    let constant : words index ≡ words 0 = rw (← here) pair.0 in
    let counter : words (index + 1) ≡ e = rw (← here) (rw (← value) pair.1) in
    let same : (words index == words 0) ≡ true = ground arith in
    let next : (words (index + 1) == e) ≡ true = ground arith in
    rw same (
      rw next (
        scan_pairs_complete words n (index + 2) (u16 (e + 2)) (omega arith)
          (pairs-pred words n index e all)))

-- The block begins where its stream ended, and is made of pairs of its first word and a counter
-- that goes up by 2.
pub record Follows (source : ℕ) (b : DataBlock) (m : Map ℕ) : Type 0 where
  pub start : (c : ℕ) → lookup (stream_key source b.link_id) m ≡ some c → b.words 1 ≡ c
  pub pairs : PairsFrom b.words (word_count b / 2) 0 (b.words 1)

-- It also has the packets that are expected.
pub record Continues (source : ℕ) (b : DataBlock) (s : EmulatorState) : Type 0 where
  pub packets : (n : ℕ) → s.expected_packets ≡ some n → packets_of b ≡ n
  pub follows : Follows source b s.next_counter

-- The block is one that is looked at.
pub record IsChecked (b : DataBlock) : Type 0 where
  pub link : b.link_id < 6
  pub payload : 20 ≤ b.byte_count
  pub in_time : is_timeout b ≡ false
  pub word : b.words 1 < 2 ^ 16

pub check_block-checked :
    (source : ℕ) (b : DataBlock) (s : EmulatorState)
    → IsChecked b
    → check_emulator_block source b s ≡ check_packets source b s.expected_packets s
unfolding check_emulator_block
check_block-checked source b s k =
    let low : leb 6 b.link_id ≡ false = (let l = k.link in ground arith) in
    let some_data : leb b.byte_count 16 ≡ false = (let l = k.payload in ground arith) in
    rw low (rw some_data (rw k.in_time refl))

check_words-start :
    (source : ℕ) (b : DataBlock) (s : EmulatorState)
    → IsChecked b
    → check_words source b s
      ≡ check_start source b (lookup (stream_key source b.link_id) s.next_counter) s
unfolding check_words
check_words-start source b s k =
    let enough : ltb (word_count b) 2 ≡ false = (let l = k.payload in ground arith) in
    rw enough refl

check_pairs_sound :
    (source : ℕ) (b : DataBlock) (s : EmulatorState)
    → b.words 1 < 2 ^ 16
    → (check_pairs source b s).0 ≡ inr tt
    → PairsFrom b.words (word_count b / 2) 0 (b.words 1)
unfolding check_pairs end_pairs note_data_error
check_pairs_sound source b s bound h =
    scan_pairs_sound b.words (word_count b / 2) 0 (b.words 1) bound
      (ground (arith, scan_pairs b.words (word_count b / 2) 0 (b.words 1)))

check_start_sound :
    (source : ℕ) (b : DataBlock) (previous : Option ℕ) (s : EmulatorState)
    → (check_start source b previous s).0 ≡ inr tt
    → ((check_pairs source b s).0 ≡ inr tt) × ((c : ℕ) → previous ≡ some c → b.words 1 ≡ c)
unfolding check_start note_data_error
check_start_sound source b none s h = (h, λ c e. ground arith)
check_start_sound source b (some d) s h = elim (Bool-cases (b.words 1 == d)) [
  | inl k ↦ (ground arith, λ c e. ground arith)
  | inr k ↦ absurd (ground arith)
]

check_words_sound :
    (source : ℕ) (b : DataBlock) (s : EmulatorState)
    → IsChecked b
    → (check_words source b s).0 ≡ inr tt
    → Follows source b s.next_counter
check_words_sound source b s k h =
    let previous = lookup (stream_key source b.link_id) s.next_counter in
    let parts =
      check_start_sound source b previous s
        (sym (ap (λ r. r.0) (check_words-start source b s k)) ∙ h) in
    record { start = parts.1; pairs = check_pairs_sound source b s k.word parts.0 }

check_packets_sound :
    (source : ℕ) (b : DataBlock) (expected : Option ℕ) (s : EmulatorState)
    → IsChecked b
    → (check_packets source b expected s).0 ≡ inr tt
    → ((n : ℕ) → expected ≡ some n → packets_of b ≡ n) × Follows source b s.next_counter
unfolding check_packets note_packet_error
check_packets_sound source b none s k h = (λ n e. ground arith, check_words_sound source b _ k h)
check_packets_sound source b (some d) s k h = elim (Bool-cases (packets_of b == d)) [
  | inl e ↦ (λ n f. ground arith, check_words_sound source b s k (ground arith))
  | inr e ↦ absurd (ground arith)
]

-- The state after an accepted block.
abbrev pub continued : ℕ → DataBlock → EmulatorState → EmulatorState
continued source b s = record s {
  expected_packets = some (packets_of b);
  next_counter =
      insert (stream_key source b.link_id) (u16 (b.words (word_count b - 1) + 2)) s.next_counter;
}

check_start_complete :
    (source : ℕ) (b : DataBlock) (previous : Option ℕ) (s : EmulatorState)
    → b.words 1 < 2 ^ 16
    → PairsFrom b.words (word_count b / 2) 0 (b.words 1)
    → ((c : ℕ) → previous ≡ some c → b.words 1 ≡ c)
    → s.expected_packets ≡ some (packets_of b)
    → check_start source b previous s ≡ (inr tt, continued source b s)
unfolding check_start check_pairs end_pairs
check_start_complete source b none s bound pairs same set =
    rw (scan_pairs_complete b.words (word_count b / 2) 0 (b.words 1) bound pairs)
      (ap (λ e. (inr tt, record (continued source b s) { expected_packets = e })) set)
check_start_complete source b (some d) s bound pairs same set =
    let starts = same d refl in
    let equal : (b.words 1 == d) ≡ true = ground arith in
    rw equal (
      rw (scan_pairs_complete b.words (word_count b / 2) 0 (b.words 1) bound pairs)
        (ap (λ e. (inr tt, record (continued source b s) { expected_packets = e })) set))

check_packets_complete :
    (source : ℕ) (b : DataBlock) (expected : Option ℕ) (s : EmulatorState)
    → IsChecked b
    → s.expected_packets ≡ expected
    → ((n : ℕ) → expected ≡ some n → packets_of b ≡ n)
    → Follows source b s.next_counter
    → check_packets source b expected s ≡ (inr tt, continued source b s)
unfolding check_packets
check_packets_complete source b none s k same packets f =
    let t = record s { expected_packets = some (packets_of b) } in
    check_words-start source b t k
    ∙ check_start_complete source b (lookup (stream_key source b.link_id) s.next_counter) t k.word
        f.pairs f.start refl
check_packets_complete source b (some d) s k same packets f =
    let agrees = packets d refl in
    let equal : (packets_of b == d) ≡ true = ground arith in
    rw equal (
      check_words-start source b s k
      ∙ check_start_complete source b (lookup (stream_key source b.link_id) s.next_counter) s k.word
          f.pairs f.start (same ∙ ap some (sym agrees)))

pub check_emulator_block-continued :
    (source : ℕ) (b : DataBlock) (s : EmulatorState)
    → IsChecked b
    → Continues source b s
    → check_emulator_block source b s ≡ (inr tt, continued source b s)
check_emulator_block-continued source b s k c =
    check_block-checked source b s k
    ∙ check_packets_complete source b s.expected_packets s k refl c.packets c.follows

-- A block with a payload of at least one pair, on one of the six links and not timed out, passes
-- the check if and only if it has the packets seen first, begins with the counter behind the
-- previous block of its stream, if there is one, and is made of pairs of its first word and a
-- counter that goes up by 2, modulo 2 ^ 16.
pub check_emulator_block-Continues :
    (source : ℕ) (b : DataBlock) (s : EmulatorState)
    → IsChecked b
    → ((check_emulator_block source b s).0 ≡ inr tt) ↔ Continues source b s
check_emulator_block-Continues source b s k = (
  λ h.
      (let parts =
          check_packets_sound source b s.expected_packets s k
            (sym (ap (λ r. r.0) (check_block-checked source b s k)) ∙ h) in
        record { packets = parts.0; follows = parts.1 }),
  λ c. ap (λ r. r.0) (check_emulator_block-continued source b s k c),
)
