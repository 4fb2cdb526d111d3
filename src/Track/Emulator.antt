-- ===== src/Track/Emulator.antt =====
-- `checkROCEmulatorBlock`: the data of the ROC emulator are pairs of a constant and a counter.
pub mod Pattern
pub mod Stream
use otsdaq_mu2e.Base.{
  ℕ, zero, suc, ◌+◌, ◌-◌, ◌*◌, ◌/◌, ◌%◌, ◌^◌, Bool, true, false, not, ◌||◌, ◌⊎◌, inl, inr, Option,
  none, some, List, [], ◌∷◌, ◌++◌, if◌then◌else◌, ◌==◌, ltb, leb, shr, u16, bit_or, ⊤,
}
use otsdaq_mu2e.Base.Assoc.{lookup, insert}
use otsdaq_mu2e.Track.Types.{
  DataBlock, EmulatorError, packet_count, block_start, pair_constant, pair_counter, EmulatorState,
  add_at,
}

abbrev pub Checking : Type 0
Checking = (EmulatorError ⊎ ⊤) × EmulatorState

-- Bit 3 of the status of the header packet.
abbrev pub is_timeout : DataBlock → Bool
is_timeout b = shr b.status 3 % 2 == 1

-- `payloadBytes`, of a block that has some
abbrev pub payload_bytes : DataBlock → ℕ
payload_bytes b = b.byte_count - 16

abbrev pub packets_of : DataBlock → ℕ
packets_of b = payload_bytes b / 16

abbrev pub word_count : DataBlock → ℕ
word_count b = payload_bytes b / 2

-- `streamKey`
unfoldable pub stream_key : ℕ → ℕ → ℕ
stream_key source link = u16 (bit_or (source * 2 ^ 3) link)

-- `noteError` on the two counters: the count of the link, the message, and the throw.
unfoldable pub note_data_error : ℕ → EmulatorError → EmulatorState → Checking
note_data_error link why s = (
  inl why,
  record s {
    data_errors_count = add_at link 1 s.data_errors_count;
    first_errors = s.first_errors ++ (why ∷ []);
  },
)

unfoldable pub note_packet_error : ℕ → EmulatorError → EmulatorState → Checking
note_packet_error link why s = (
  inl why,
  record s {
    packet_count_errors_count = add_at link 1 s.packet_count_errors_count;
    first_errors = s.first_errors ++ (why ∷ []);
  },
)

-- The loop over the pairs from `index` on: the first word that is not the expected one.
unfoldable pub scan_pairs : (ℕ → ℕ) → ℕ → ℕ → ℕ → Option EmulatorError
scan_pairs words zero index expected = none
scan_pairs words (suc n) index expected =
    let rest = scan_pairs words n (index + 2) (u16 (expected + 2)) in
    if not (words index == words 0)
    then some (pair_constant (index / 2) (words index) (words 0))
    else if not (words (index + 1) == expected)
    then some (pair_counter (index / 2) (words (index + 1)) expected)
    else rest

-- The end: an error of a pair throws, else the counter goes on behind the last word.
unfoldable pub end_pairs : ℕ → DataBlock → Option EmulatorError → EmulatorState → Checking
end_pairs source b (some why) s = note_data_error b.link_id why s
end_pairs source b none s = (
  inr tt,
  record s {
    next_counter =
        insert (stream_key source b.link_id) (u16 (b.words (word_count b - 1) + 2)) s.next_counter;
  },
)

unfoldable pub check_pairs : ℕ → DataBlock → EmulatorState → Checking
check_pairs source b s = end_pairs source b (scan_pairs b.words (word_count b / 2) 0 (b.words 1)) s

-- The block goes on where the previous one of its stream ended, if there is one.
unfoldable pub check_start : ℕ → DataBlock → Option ℕ → EmulatorState → Checking
check_start source b none s = check_pairs source b s
check_start source b (some previous) s =
    if b.words 1 == previous
    then check_pairs source b s
    else note_data_error b.link_id (block_start (b.words 1) previous) s

unfoldable pub check_words : ℕ → DataBlock → EmulatorState → Checking
check_words source b s =
    if ltb (word_count b) 2
    then (inr tt, s)
    else check_start source b (lookup (stream_key source b.link_id) s.next_counter) s

-- The first block sets the number of packets.
unfoldable pub check_packets : ℕ → DataBlock → Option ℕ → EmulatorState → Checking
check_packets source b none s =
    check_words source b (record s { expected_packets = some (packets_of b) })
check_packets source b (some n) s =
    if packets_of b == n
    then check_words source b s
    else note_packet_error b.link_id (packet_count (packets_of b) n) s

-- `checkROCEmulatorBlock`
unfoldable pub check_emulator_block : ℕ → DataBlock → EmulatorState → Checking
check_emulator_block source b s =
    if leb 6 b.link_id || (leb b.byte_count 16 || is_timeout b)
    then (inr tt, s)
    else check_packets source b s.expected_packets s
