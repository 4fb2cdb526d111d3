-- ===== src/Track/HandlerTests.antt =====
-- The handler on the subevents of two DTCs, and the theorems at them.
use otsdaq_mu2e.Base.{
  ◌^◌, if◌then◌else◌, ◌==◌, ◌-◌, ℕ, ◌+◌, ◌*◌, ◌%◌, ◌≡◌, ◌<◌, ◌↔◌, refl, inr, none, true, false,
  List, [], ◌∷◌, ◌++◌, ◌&&◌, arith, u16,
}
use otsdaq_mu2e.Merge.Types.{MergedEvent}
use otsdaq_mu2e.Merge.Tests.{
  SmallEvent, small_library, pair_event, small_library-LibraryLaws, settings, after_two, half,
  pairing_4,
}
use otsdaq_mu2e.Merge.Scan.Paired.{merged_of}
use otsdaq_mu2e.Track.Tag.{check_subevent_tag, sync_tag, is_tag_ok, settle_tag, stride}
use otsdaq_mu2e.Track.Tests.{two_dtcs, two_sources, expects_10}
use otsdaq_mu2e.Track.Types.{
  DataBlock, Subevent, EmulatorState, Counts, HandlerState, HandlerSettings, six_zeros,
}
use otsdaq_mu2e.Track.Emulator.{check_emulator_block}
use otsdaq_mu2e.Track.Emulator.Pattern.{PairsFrom, Continues, check_emulator_block-Continues}
use otsdaq_mu2e.Track.Emulator.Stream.{
  Passed, check_blocks, check_blocks-Passed, Emulates, Counters,
}
use otsdaq_mu2e.Track.Fragments.{handle_blocks, handle_block, check_emulation}
use otsdaq_mu2e.Track.Handle.{handle_subevent, handle_tag, handle_fragments, should_save}
use otsdaq_mu2e.Track.Handle.Totals.{Grown, written, blocks_words}
use otsdaq_mu2e.Track.Handle.Header.{header_words}
use otsdaq_mu2e.Track.Handle.Counted.{handle_subevent-Grown}
use otsdaq_mu2e.Track.Merged.{handle_merged_events, merge_and_handle}
use otsdaq_mu2e.Track.Merged.Rounds.{
  AllOver, Expects, AreRounds, BringsRound, tag_behind, handle_merged_events-AllOver,
}
use otsdaq_mu2e.Track.Merged.Paired.{AllRead, merge_and_handle-AllRead}

-- A block of one packet of emulated data: the constant 7 and the counter from `start` on.
abbrev emulated_words : ℕ → ℕ → ℕ
emulated_words start i = if i % 2 == 0 then 7 else u16 (start + (i - 1))

abbrev emulated : ℕ → ℕ → DataBlock
emulated link start = record {
  link_id = link;
  status = 1;
  byte_count = 32;
  raw = λ i. i;
  words = emulated_words start;
}

abbrev fresh_check : EmulatorState
fresh_check = record {
  expected_packets = none;
  next_counter = [];
  data_errors_count = six_zeros;
  packet_count_errors_count = six_zeros;
  first_errors = [];
}

emulated_pairs : (start : ℕ) → PairsFrom (emulated_words start) 4 0 start
emulated_pairs start i below = (
  (let even : (0 + 2 * i) % 2 ≡ 0 = omega arith in ground arith),
  (let odd : (0 + 2 * i + 1) % 2 ≡ 1 = omega arith in ground arith),
)

emulated-Emulates : (link start : ℕ) → link < 6 → Emulates 1 start (emulated link start)
emulated-Emulates link start low = record {
  link = low;
  size = refl;
  in_time = refl;
  pairs = emulated_pairs start;
}

-- The streams of two links of one source.
abbrev counters : Counters
counters s l = if l == 2 then 65530 else 99

abbrev sent_blocks : List (ℕ × DataBlock)
sent_blocks = (5, emulated 2 65530) ∷ (5, emulated 3 99) ∷ (5, emulated 2 65538) ∷ []

check_blocks-Passed_example : Passed fresh_check (check_blocks sent_blocks fresh_check)
check_blocks-Passed_example =
    check_blocks-Passed 1 (omega arith) counters sent_blocks fresh_check
      (
        omega arith,
        (
          emulated-Emulates 2 65530 (omega arith),
          (
            omega arith,
            (
              emulated-Emulates 3 99 (omega arith),
              (omega arith, (emulated-Emulates 2 65538 (omega arith), tt)),
            ),
          ),
        ),
      )
      (record {
        packets = λ n h. absurd (ground arith);
        counters = λ source link k small low h. absurd (ground arith);
      })

check_emulator_block-Continues_example :
    ((check_emulator_block 5 (emulated 2 10) fresh_check).0 ≡ inr tt)
    ↔ Continues 5 (emulated 2 10) fresh_check
check_emulator_block-Continues_example =
    check_emulator_block-Continues 5 (emulated 2 10) fresh_check
      (record { link = omega arith; payload = omega arith; in_time = refl; word = omega arith })

abbrev no_counts : Counts
no_counts = record {
  events_count = 0;
  subrun_transition_count = 0;
  last_subrun_bit = false;
  transfer_start_time = none;
  transfer_end_time = none;
  total_subevent_bytes = 0;
  saved_count = 0;
  file = [];
  fragments_count = six_zeros;
  fragment_timeouts_count = six_zeros;
  fragment_errors_count = six_zeros;
  payload_empty_count = six_zeros;
  header_timeouts_count = six_zeros;
  payload_byte_count = six_zeros;
  fragments_by_source = [];
  payload_bytes_by_source = [];
}

-- The first tag that is expected.
abbrev expecting : ℕ → HandlerState
expecting tag = record {
  tags = record expects_10 { next_event_window_tag = tag };
  emulator = fresh_check;
  counts = no_counts;
  readings = 0;
}

-- Subevents with payload are saved.
abbrev saving : HandlerSettings
saving = record {
  tag_settings = two_dtcs;
  even_odd = true;
  save_binary_data = true;
  save_subevent_headers = true;
  packet_threshold_to_save = 1;
  check_roc_emulator_data = false;
  has_file = true;
  roc_link_enabled = λ r. true;
  roc_links = 0 ∷ 1 ∷ 2 ∷ 3 ∷ 4 ∷ 5 ∷ [];
  header_size = 48;
  now = λ i. i;
  exits = λ i. false;
}

abbrev six_blocks : List DataBlock
six_blocks =
    emulated 0 1 ∷ emulated 1 1 ∷ emulated 2 1 ∷ emulated 3 1 ∷ emulated 4 1 ∷ emulated 5 1 ∷ []

-- A subevent of source 5; link 2 has an error.
abbrev subevent : ℕ → Subevent
subevent tag = record {
  event_window_tag = tag;
  source_dtc_id = 5;
  event_mode = 2 ^ 33;
  link_status = λ r. if r == 2 then 4 else 0;
  raw_header = λ i. i;
  data_blocks = six_blocks;
}

subevent_returns : (handle_subevent saving (subevent 10) 0 0 (expecting 10)).0 ≡ inr tt
unfolding handle_subevent handle_tag handle_fragments handle_blocks handle_block check_emulation
    check_subevent_tag settle_tag is_tag_ok sync_tag
subevent_returns = refl

handle_subevent-Grown_example :
    Grown 48
      (header_words saving (subevent 10)
        ++ written (should_save saving (subevent 10) && true) (blocks_words six_blocks))
      six_blocks
      no_counts
      (handle_subevent saving (subevent 10) 0 0 (expecting 10)).1.counts
handle_subevent-Grown_example =
    handle_subevent-Grown saving (subevent 10) 0 0 (expecting 10)
      (omega arith, (omega arith, (omega arith, (omega arith, (omega arith, (omega arith, tt))))))
      subevent_returns

-- The subevents of a pair: that of DTC_0, and that of DTC_1 with the next tag.
abbrev pair_subevents : SmallEvent → List Subevent
pair_subevents e = subevent e.tag ∷ subevent (e.tag + 1) ∷ []

abbrev merged_event : ℕ → MergedEvent ⦃l = small_library⦄
merged_event tag = record {
  event = pair_event tag 1 2;
  num_subevents_from_dtc0 = 1;
  base_tag = tag;
}

starting_tag :
    (tag : ℕ) → Expects ⦃l = small_library⦄ pair_subevents saving tag (expecting tag).tags
starting_tag tag = record { next = refl; none_seen = refl; synced = refl }

brings_10 : BringsRound ⦃l = small_library⦄ pair_subevents saving 10 (merged_event 10)
brings_10 = record {
  whole = (refl, (refl, tt));
  tags = (refl, (refl, tt));
  fresh = (refl, (refl, tt));
  full = omega (arith, two_sources);
}

brings_11 : BringsRound ⦃l = small_library⦄ pair_subevents saving 11 (merged_event 11)
brings_11 = record {
  whole = (refl, (refl, tt));
  tags = (refl, (refl, tt));
  fresh = (refl, (refl, tt));
  full = omega (arith, two_sources);
}

rounds :
    AreRounds ⦃l = small_library⦄ pair_subevents saving 10 (merged_event 10 ∷ merged_event 11 ∷ [])
unfolding stride
rounds = ((refl, brings_10), ((refl, brings_11), tt))

handle_merged_events-AllOver_example :
    AllOver ⦃l = small_library⦄ pair_subevents saving
      (tag_behind ⦃l = small_library⦄ pair_subevents saving 10
        (merged_event 10 ∷ merged_event 11 ∷ []))
      (expecting 10).tags
      (handle_merged_events ⦃l = small_library⦄ pair_subevents saving 0
        (merged_event 10 ∷ merged_event 11 ∷ [])
        (expecting 10))
handle_merged_events-AllOver_example =
    handle_merged_events-AllOver ⦃l = small_library⦄ pair_subevents saving refl refl
      (omega (arith, two_sources)) 0 10 (merged_event 10 ∷ merged_event 11 ∷ []) (expecting 10)
      (λ i. refl) rounds (starting_tag 10)

brings_4 :
    BringsRound ⦃l = small_library⦄ pair_subevents saving 4
      (merged_of ⦃l = small_library⦄ pairing_4)
brings_4 = record {
  whole = (refl, (refl, tt));
  tags = (refl, (refl, tt));
  fresh = (refl, (refl, tt));
  full = omega (arith, two_sources);
}

merge_and_handle-AllRead_example :
    AllRead ⦃l = small_library⦄ pair_subevents saving
      (tag_behind ⦃l = small_library⦄ pair_subevents saving 4
        (merged_of ⦃l = small_library⦄ pairing_4 ∷ []))
      (expecting 4).tags
      (merge_and_handle ⦃l = small_library⦄ pair_subevents settings saving 0
        (half 4 7 ∷ [])
        (half 5 8 ∷ [])
        after_two
        (expecting 4))
merge_and_handle-AllRead_example =
    merge_and_handle-AllRead ⦃l = small_library⦄ pair_subevents saving refl refl
      (omega (arith, two_sources)) (λ i. refl) 0 4 (pairing_4 ∷ []) after_two (expecting 4)
      small_library-LibraryLaws refl refl ((λ h. omega arith), tt) (tt, tt) (brings_4, tt)
      (starting_tag 4)
