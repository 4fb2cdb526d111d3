-- ===== src/Track/Emulator/Stream.antt =====
-- The check on the data that emulators send, however the blocks of their streams interleave.
use otsdaq_mu2e.Base.{
  ℕ, ◌+◌, ◌-◌, ◌*◌, ◌^◌, ◌≡◌, ◌≢◌, ap, sym, ◌∙◌, ◌<◌, refl, false, ◌&&◌, inl, inr, some, List, [],
  ◌∷◌, if◌then◌else◌, ◌==◌, u16, arith, Bool-cases, &&-eq-true, ==_iff,
}
use otsdaq_mu2e.Base.Assoc.{lookup, insert, lookup-insert_self, lookup-insert_ne}
use otsdaq_mu2e.Base.Bits.{bit_or_fields, bit_or_comm}
use otsdaq_mu2e.Track.Types.{DataBlock, EmulatorState}
use otsdaq_mu2e.Track.Emulator.{Checking, is_timeout, word_count, stream_key, check_emulator_block}
use otsdaq_mu2e.Track.Emulator.Pattern.{
  PairsFrom, Continues, IsChecked, continued, check_emulator_block-continued,
}

-- What follows a check that has not thrown.
abbrev pub then_check_block : Checking → (EmulatorState → Checking) → Checking
then_check_block (inl why, s) f = (inl why, s)
then_check_block (inr done, s) f = f s

-- The checks of blocks with the sources that sent them, one after another.
unfoldable pub check_blocks : List (ℕ × DataBlock) → EmulatorState → Checking
check_blocks [] s = (inr tt, s)
check_blocks ((source, b) ∷ bs) s =
    then_check_block (check_emulator_block source b s) (check_blocks bs)

-- The counter of each source and link, and its advance by the words of a block.
abbrev pub Counters : Type 0
Counters = ℕ → ℕ → ℕ

abbrev pub advance : ℕ → ℕ → ℕ → Counters → Counters
advance source link n c s l = if s == source && l == link then c s l + n else c s l

-- A block of `p` packets as an emulator sends it when its counter stands at `start`.
pub record Emulates (p : ℕ) (start : ℕ) (b : DataBlock) : Type 0 where
  pub link : b.link_id < 6
  pub size : b.byte_count ≡ 16 + 16 * p
  pub in_time : is_timeout b ≡ false
  pub pairs : PairsFrom b.words (4 * p) 0 start

-- The blocks are sent in this order, each of `p` packets.
abbrev pub Sent : ℕ → Counters → List (ℕ × DataBlock) → Type 0
Sent p c [] = Unit
Sent p c ((source, b) ∷ bs) =
    (source < 2 ^ 8)
    × (Emulates p (c source b.link_id) b × Sent p (advance source b.link_id (8 * p) c) bs)

-- The check knows no other number of packets, and no other counters.
pub record InStep (p : ℕ) (c : Counters) (s : EmulatorState) : Type 0 where
  pub packets : (n : ℕ) → s.expected_packets ≡ some n → n ≡ p
  pub counters :
      (source link k : ℕ)
      → source < 2 ^ 8
      → link < 6
      → lookup (stream_key source link) s.next_counter ≡ some k
      → k ≡ u16 (c source link)

-- No check has thrown or counted an error.
pub record Passed (s : EmulatorState) (r : Checking) : Type 0 where
  pub returned : r.0 ≡ inr tt
  pub data_errors : r.1.data_errors_count ≡ s.data_errors_count
  pub packet_errors : r.1.packet_count_errors_count ≡ s.packet_count_errors_count
  pub first : r.1.first_errors ≡ s.first_errors

-- A key holds its source and its link.
stream_key_lem :
    (source link : ℕ) → source < 2 ^ 8 → link < 6 → stream_key source link ≡ source * 8 + link
unfolding stream_key
stream_key_lem source link s l =
    rw (bit_or_comm (source * 2 ^ 3) link)
      (rw (bit_or_fields 3 source link (omega arith)) (omega arith))

module _ (p : ℕ) (any : 0 < p) where
  emulated-IsChecked : (start : ℕ) (b : DataBlock) → Emulates p start b → IsChecked b
  emulated-IsChecked start b e = record {
    link = e.link;
    payload = (let z = e.size in omega arith);
    in_time = e.in_time;
    word = (let first = (e.pairs 0 (omega arith)).1 in rw first (omega arith));
  }

  emulated_words : (start : ℕ) (b : DataBlock) → Emulates p start b → word_count b ≡ 8 * p
  emulated_words start b e = (let z = e.size in omega arith)

  emulated-Continues :
      (source : ℕ) (b : DataBlock) (c : Counters) (s : EmulatorState)
      → source < 2 ^ 8
      → Emulates p (c source b.link_id) b
      → InStep p c s
      → Continues source b s
  emulated-Continues source b c s small e k =
      let first : b.words 1 ≡ u16 (c source b.link_id + 2 * 0) = (e.pairs 0 (omega arith)).1 in
      record {
        packets = λ n h. (let q = k.packets n h in let z = e.size in omega arith);
        follows = record {
          start = λ d h. (let q = k.counters source b.link_id d small e.link h in omega arith);
          pairs = λ i below.
              (let z = e.size in
                let pair = e.pairs i (omega arith) in (pair.0, pair.1 ∙ omega arith));
        };
      }

  -- The counter that is stored is the one that the stream goes on with.
  emulated_next :
      (start : ℕ) (b : DataBlock)
      → Emulates p start b
      → u16 (b.words (word_count b - 1) + 2) ≡ u16 (start + 8 * p)
  emulated_next start b e =
      let at : word_count b - 1 ≡ 0 + 2 * (4 * p - 1) + 1 = (let z = e.size in omega arith) in
      let last = (e.pairs (4 * p - 1) (omega arith)).1 in rw at (rw last (omega arith))

  -- Keys of other streams are other keys.
  stream_key-other :
      (source link s2 l2 : ℕ)
      → source < 2 ^ 8
      → link < 6
      → s2 < 2 ^ 8
      → l2 < 6
      → (s2 == source && l2 == link) ≡ false
      → stream_key source link ≢ stream_key s2 l2
  stream_key-other source link s2 l2 small low small2 low2 other same =
      let flat : source * 8 + link ≡ s2 * 8 + l2 =
        sym (stream_key_lem source link small low) ∙ (same ∙ stream_key_lem s2 l2 small2 low2) in
      let source_eq : s2 ≡ source = omega arith in
      let link_eq : l2 ≡ link = omega arith in ground arith

  continued_counters :
      (source : ℕ) (b : DataBlock) (c : Counters) (s : EmulatorState)
      → source < 2 ^ 8
      → Emulates p (c source b.link_id) b
      → InStep p c s
      → (s2 l2 d : ℕ) → s2 < 2 ^ 8
      → l2 < 6
      → lookup (stream_key s2 l2) (continued source b s).next_counter ≡ some d
      → d ≡ u16 (advance source b.link_id (8 * p) c s2 l2)
  continued_counters source b c s small e k s2 l2 d small2 low2 h =
      let key = stream_key source b.link_id in
      let next = u16 (b.words (word_count b - 1) + 2) in
      elim (Bool-cases (s2 == source && l2 == b.link_id)) [
        | inl same ↦
            let both = &&-eq-true (s2 == source) (l2 == b.link_id) same in
            let source_eq : s2 ≡ source = (==_iff s2 source).0 both.0 in
            let link_eq : l2 ≡ b.link_id = (==_iff l2 b.link_id).0 both.1 in
            let same_key : stream_key s2 l2 ≡ key = rw source_eq (rw link_eq refl) in
            let found : lookup key (insert key next s.next_counter) ≡ some d =
              sym (ap (λ x. lookup x (insert key next s.next_counter)) same_key) ∙ h in
            let value : next ≡ d =
              (let inserted = lookup-insert_self key next s.next_counter in ground arith) in
            rw same (rw source_eq (rw link_eq (sym value ∙ emulated_next (c source b.link_id) b e)))
        | inr other ↦
            let apart = stream_key-other source b.link_id s2 l2 small e.link small2 low2 other in
            rw other (
              k.counters s2 l2 d small2 low2
                (sym (lookup-insert_ne key (stream_key s2 l2) next s.next_counter apart) ∙ h))
      ]

  continued-InStep :
      (source : ℕ) (b : DataBlock) (c : Counters) (s : EmulatorState)
      → source < 2 ^ 8
      → Emulates p (c source b.link_id) b
      → InStep p c s
      → InStep p (advance source b.link_id (8 * p) c) (continued source b s)
  continued-InStep source b c s small e k = record {
    packets = λ n h. (let z = e.size in ground arith);
    counters = continued_counters source b c s small e k;
  }

  -- The check throws for no block and counts no error, when each source and link sends blocks with
  -- the same number of packets, filled with pairs of a constant of the block and a counter that
  -- runs on from block to block of its stream, in whatever order the streams come.
  pub check_blocks-Passed :
      (c : Counters) (bs : List (ℕ × DataBlock)) (s : EmulatorState)
      → Sent p c bs
      → InStep p c s
      → Passed s (check_blocks bs s)
  unfolding check_blocks
  check_blocks-Passed c [] s sent k = record {
    returned = refl;
    data_errors = refl;
    packet_errors = refl;
    first = refl;
  }
  check_blocks-Passed c ((source, b) ∷ bs) s sent k =
      let e = sent.1.0 in
      let rest =
        check_blocks-Passed (advance source b.link_id (8 * p) c) bs (continued source b s) sent.1.1
          (continued-InStep source b c s sent.0 e k) in
      rw
        (check_emulator_block-continued source b s (emulated-IsChecked (c source b.link_id) b e)
          (emulated-Continues source b c s sent.0 e k))
        (record {
          returned = rest.returned;
          data_errors = rest.data_errors;
          packet_errors = rest.packet_errors;
          first = rest.first;
        })
