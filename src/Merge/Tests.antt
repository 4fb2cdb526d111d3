-- ===== src/Merge/Tests.antt =====
-- Runs of the merge over a small DTC library, and the theorems at them.
use otsdaq_mu2e.Base.{
  ℕ, ◌+◌, ◌-◌, ◌*◌, ◌≡◌, refl, inl, inr, true, false, List, [], ◌∷◌, length, arith, u8,
}
use otsdaq_mu2e.Merge.Types.{
  even_odd, dtc0, dtc1, SubHeader, EventHeader, EventLibrary, Settings, MergeState, already_merged,
  reset_merge_state,
}
use otsdaq_mu2e.Merge.Build.{
  body_size, body_bytes, merged_size, merged_header, assemble, checked_event, with_first_sub,
  build_merged,
}
use otsdaq_mu2e.Merge.Build.Laws.{LibraryLaws, IsJoined, build_merged-IsJoined}
use otsdaq_mu2e.Merge.Stage.{
  keep_half, record_merged, join_built, join_or_keep, stage_key, stage_half,
}
use otsdaq_mu2e.Merge.Stage.Sound.{IsSound}
use otsdaq_mu2e.Merge.Stage.Refusal.{SameHalves, stage_half-SameHalves}
use otsdaq_mu2e.Merge.Stage.Refined.{HasUniqueHalves, PoolStep, pools, stage_half-PoolStep}
use otsdaq_mu2e.Merge.Scan.{
  stage_all, scan_timeout, scan_overflow, first_blame, publish_pending, settle, check_pending,
  merge_events,
}
use otsdaq_mu2e.Merge.Scan.Sound.{merge_events-IsSound, reset-IsSound}
use otsdaq_mu2e.Merge.Scan.Counts.{accounted, merge_events-accounted}
use otsdaq_mu2e.Merge.Scan.Limits.{WithinLimits, merge_events-WithinLimits}
use otsdaq_mu2e.Merge.Scan.Paired.{Pairing, Paired, merge_events-Paired}

-- An event with its bytes, of which the first two are the header: its tag and its size.
pub record SmallEvent : Type 0 where
  pub tag : ℕ
  pub size : ℕ
  pub bytes : List ℕ
  pub sized : size ≡ length bytes
  pub subs : List SubHeader

abbrev header_of : EventHeader → List ℕ
header_of h = u8 h.event_tag_low ∷ u8 h.inclusive_event_byte_count ∷ []

-- Reading number `i` of the clock is made after `i` milliseconds.
abbrev pub small_library : EventLibrary
small_library = record {
  Event = SmallEvent;
  window_tag = λ e. e.tag;
  byte_count = λ e. e.size;
  sub_headers = λ e. e.subs;
  buffer = λ e. e.bytes;
  header_size = 2;
  header_bytes = header_of;
  set_up = λ h bytes. record {
    tag = h.event_tag_low;
    size = length bytes;
    bytes = bytes;
    sized = refl;
    subs = [];
  };
  is_corrupt = λ e. false;
  now = λ i. i * 1_000_000;
}

pub small_library-LibraryLaws : LibraryLaws small_library
small_library-LibraryLaws = record {
  length-header_bytes = λ h. refl;
  buffer_full = λ e. omega (arith, e.sized);
  buffer-set_up = λ h bytes same. refl;
  byte_count-set_up = λ h bytes same small. same;
}

abbrev sub : SubHeader
sub = record { event_mode = 3; dtc_mac = 1; partition_id = 0; evb_mode = 0 }

-- A half with the given tag and one byte behind its header.
abbrev pub half : ℕ → ℕ → SmallEvent
half tag byte = record {
  tag = tag;
  size = 3;
  bytes = tag ∷ 3 ∷ byte ∷ [];
  sized = refl;
  subs = sub ∷ [];
}

abbrev pub pair_event : ℕ → ℕ → ℕ → SmallEvent
pair_event tag a b = record {
  tag = tag;
  size = 4;
  bytes = tag ∷ 4 ∷ a ∷ b ∷ [];
  sized = refl;
  subs = [];
}

abbrev pub settings : Settings
settings = record { merge_mode = even_odd; pair_timeout_ms = 5; pair_max_pending = 2 }

abbrev pub start : MergeState ⦃l = small_library⦄
start = record {
  pending_dtc0 = [];
  pending_dtc1 = [];
  have_merged_tag = false;
  last_merged_base_tag = 0;
  merged_events_count = 0;
  unmatched_dtc0_count = 0;
  unmatched_dtc1_count = 0;
  merge_time_total_ns = 0;
  merge_time_max_ns = 0;
  merged_bytes_total = 0;
  pending_dtc0_count = 0;
  pending_dtc1_count = 0;
  oldest_pending_dtc0_tag = 0;
  oldest_pending_dtc1_tag = 0;
  merged_out = [];
  readings = 0;
}

build_runs : build_merged ⦃l = small_library⦄ (half 2 7) (half 3 8) 2 ≡ inr (pair_event 2 7 8)
unfolding build_merged with_first_sub checked_event assemble merged_header merged_size body_bytes
    body_size
build_runs = refl

build_merged-IsJoined_example :
    IsJoined ⦃l = small_library⦄ (half 2 7) (half 3 8) (pair_event 2 7 8)
build_merged-IsJoined_example =
    build_merged-IsJoined ⦃l = small_library⦄ (half 2 7) (half 3 8) 2 (pair_event 2 7 8)
      small_library-LibraryLaws build_runs

-- After a first read: 2 and 3 are a pair, 4 waits.
abbrev middle : MergeState ⦃l = small_library⦄
middle =
    (merge_events ⦃l = small_library⦄ settings (half 2 7 ∷ half 4 9 ∷ []) (half 3 8 ∷ [])
      (reset_merge_state ⦃l = small_library⦄ start)).1

merge_events-IsSound_example :
    IsSound ⦃l = small_library⦄ settings
      (merge_events ⦃l = small_library⦄ settings
        (half 2 7 ∷ half 4 9 ∷ [])
        (half 3 8 ∷ [])
        (reset_merge_state ⦃l = small_library⦄ start)).1
merge_events-IsSound_example =
    merge_events-IsSound ⦃l = small_library⦄ settings (half 2 7 ∷ half 4 9 ∷ []) (half 3 8 ∷ [])
      (reset_merge_state ⦃l = small_library⦄ start)
      (reset-IsSound ⦃l = small_library⦄ settings start refl)

merge_returns :
    (merge_events ⦃l = small_library⦄ settings
      (half 2 7 ∷ half 4 9 ∷ [])
      (half 3 8 ∷ [])
      (reset_merge_state ⦃l = small_library⦄ start)).0
    ≡ inr tt
unfolding merge_events stage_all stage_half stage_key join_or_keep join_built keep_half
    record_merged build_merged with_first_sub checked_event assemble merged_header merged_size
    body_bytes body_size reset_merge_state check_pending first_blame scan_timeout scan_overflow
    settle publish_pending
merge_returns = refl

merge_events-accounted_example :
    (accounted ⦃l = small_library⦄ dtc0 middle
      ≡ accounted ⦃l = small_library⦄ dtc0 (reset_merge_state ⦃l = small_library⦄ start) + 2)
    × (accounted ⦃l = small_library⦄ dtc1 middle
        ≡ accounted ⦃l = small_library⦄ dtc1 (reset_merge_state ⦃l = small_library⦄ start) + 1)
merge_events-accounted_example =
    merge_events-accounted ⦃l = small_library⦄ settings (half 2 7 ∷ half 4 9 ∷ []) (half 3 8 ∷ [])
      (reset_merge_state ⦃l = small_library⦄ start) merge_returns

merge_events-WithinLimits_example :
    WithinLimits ⦃l = small_library⦄ settings ((middle.readings - 1) * 1_000_000) middle
merge_events-WithinLimits_example =
    merge_events-WithinLimits ⦃l = small_library⦄ settings (half 2 7 ∷ half 4 9 ∷ [])
      (half 3 8 ∷ []) (reset_merge_state ⦃l = small_library⦄ start) merge_returns

abbrev pub after_two : MergeState ⦃l = small_library⦄
after_two = record start { have_merged_tag = true; last_merged_base_tag = 2 }

-- A half for a base tag that has been passed.
stage_passed :
    (stage_half ⦃l = small_library⦄ settings dtc1 (half 3 8) after_two).0
    ≡ inl (already_merged dtc1 2)
unfolding stage_half stage_key
stage_passed = refl

stage_half-SameHalves_example :
    SameHalves ⦃l = small_library⦄ after_two
      (stage_half ⦃l = small_library⦄ settings dtc1 (half 3 8) after_two).1
stage_half-SameHalves_example =
    stage_half-SameHalves ⦃l = small_library⦄ settings dtc1 (half 3 8) after_two
      (already_merged dtc1 2) stage_passed

pub build_runs_4 : build_merged ⦃l = small_library⦄ (half 4 7) (half 5 8) 4 ≡ inr (pair_event 4 7 8)
unfolding build_merged with_first_sub checked_event assemble merged_header merged_size body_bytes
    body_size
build_runs_4 = refl

build_runs_8 : build_merged ⦃l = small_library⦄ (half 8 1) (half 9 2) 8 ≡ inr (pair_event 8 1 2)
unfolding build_merged with_first_sub checked_event assemble merged_header merged_size body_bytes
    body_size
build_runs_8 = refl

abbrev pub pairing_4 : Pairing ⦃l = small_library⦄ settings
pairing_4 = record {
  key = 4;
  half0 = half 4 7;
  half1 = half 5 8;
  event = pair_event 4 7 8;
  key0 = record { tag = refl; even = λ e. refl };
  key1 = record { tag = refl; even = λ e. refl };
  built = build_runs_4;
}

abbrev pairings : List (Pairing ⦃l = small_library⦄ settings)
pairings =
    pairing_4
    ∷ record {
      key = 8;
      half0 = half 8 1;
      half1 = half 9 2;
      event = pair_event 8 1 2;
      key0 = record { tag = refl; even = λ e. refl };
      key1 = record { tag = refl; even = λ e. refl };
      built = build_runs_8;
    }
    ∷ []

merge_events-Paired_example : Paired ⦃l = small_library⦄ pairings after_two (
    merge_events ⦃l = small_library⦄ settings
      (half 4 7 ∷ half 8 1 ∷ [])
      (half 5 8 ∷ half 9 2 ∷ [])
      after_two)
merge_events-Paired_example =
    merge_events-Paired ⦃l = small_library⦄ pairings after_two refl refl
      ((λ h. omega arith), ((λ h. omega arith), tt)) ((omega arith, tt), (tt, tt))

-- A half of DTC_0 waits for its partner, which comes.
abbrev one_waits : MergeState ⦃l = small_library⦄
one_waits = record start { pending_dtc0 = (4, record { event = half 4 7; arrival = 0 }) ∷ [] }

stage_half-PoolStep_example :
    HasUniqueHalves ⦃l = small_library⦄
      (stage_half ⦃l = small_library⦄ settings dtc1 (half 5 8) one_waits).1
    × PoolStep ⦃l = small_library⦄ settings dtc1
        (half 5 8)
        (stage_half ⦃l = small_library⦄ settings dtc1 (half 5 8) one_waits).0
        (pools ⦃l = small_library⦄ one_waits)
        (pools ⦃l = small_library⦄
          (stage_half ⦃l = small_library⦄ settings dtc1 (half 5 8) one_waits).1)
stage_half-PoolStep_example =
    stage_half-PoolStep ⦃l = small_library⦄ settings dtc1 (half 5 8) one_waits
      (record { unique0 = (refl, tt); unique1 = tt })
