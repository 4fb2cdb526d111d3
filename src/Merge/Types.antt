-- ===== src/Merge/Types.antt =====
-- The data of the merge: `DetachedMergeMode`, `MergedDetachedEvent`, and the members of
-- `DetachedBufferTestThreadStruct` that the merge reads and changes.
use otsdaq_mu2e.Base.{ℕ, ◌+◌, Bool, true, false, List, [], u64}
use otsdaq_mu2e.Base.Assoc.{Map}

-- `DetachedMergeMode`
pub data MergeMode : Type 0 where
  off even_odd matching : MergeMode

-- The DTC that delivered a half: `fromDTC1` as a value.
pub data Side : Type 0 where
  dtc0 dtc1 : Side

abbrev pub is_even_odd : MergeMode → Bool
is_even_odd off = false
is_even_odd even_odd = true
is_even_odd matching = false

-- The fields of `DTC_SubEventHeader` that the merge copies.
pub record SubHeader : Type 0 where
  pub event_mode : ℕ
  pub dtc_mac : ℕ
  pub partition_id : ℕ
  pub evb_mode : ℕ

-- The fields of `DTC_EventHeader` that the merge fills in; all others are 0.
pub record EventHeader : Type 0 where
  pub inclusive_event_byte_count : ℕ
  pub num_dtcs : ℕ
  pub event_tag_low : ℕ
  pub event_tag_high : ℕ
  pub event_mode : ℕ
  pub dtc_mac : ℕ
  pub partition_id : ℕ
  pub evb_mode : ℕ

-- What the merge uses of the DTC library, which is not code of this repository, and the steady
-- clock: reading number `i` of it, in nanoseconds. `set_up` is the event over a buffer of the
-- given bytes, its header assigned, after `SetupEvent()`.
pub record EventLibrary : Type 1 where
  pub Event : Type 0
  pub window_tag : Event → ℕ
  pub byte_count : Event → ℕ
  pub sub_headers : Event → List SubHeader
  pub buffer : Event → List ℕ
  pub header_size : ℕ
  pub header_bytes : EventHeader → List ℕ
  pub set_up : EventHeader → List ℕ → Event
  pub is_corrupt : Event → Bool
  pub now : ℕ → ℕ

-- `mergeMode_`, `pairTimeoutMs_` and `pairMaxPending_`, set before the thread starts.
pub record Settings : Type 0 where
  pub merge_mode : MergeMode
  pub pair_timeout_ms : ℕ
  pub pair_max_pending : ℕ

-- Why the merge throws.
pub data MergeError : Type 0 where
  wrong_parity already_merged duplicate_half : Side → ℕ → MergeError
  malformed_half setup_failed : ℕ → MergeError
  event_too_big : ℕ → ℕ → MergeError
  pair_timeout pair_overflow : Side → ℕ → ℕ → MergeError

-- `UINT64_MAX`
abbrev pub uint64_max : ℕ
uint64_max = 0xffff_ffff_ffff_ffff

module _ ⦃l : EventLibrary⦄ where
  -- `PendingHalf`
  pub record PendingHalf : Type 0 where
    pub event : l.Event
    pub arrival : ℕ

  -- `MergedDetachedEvent`
  pub record MergedEvent : Type 0 where
    pub event : l.Event
    pub num_subevents_from_dtc0 : ℕ
    pub base_tag : ℕ

  -- The members that change, the caller's vector `mergedOut`, and the number of clock readings
  -- made so far.
  pub record MergeState : Type 0 where
    pub pending_dtc0 : Map PendingHalf
    pub pending_dtc1 : Map PendingHalf
    pub have_merged_tag : Bool
    pub last_merged_base_tag : ℕ
    pub merged_events_count : ℕ
    pub unmatched_dtc0_count : ℕ
    pub unmatched_dtc1_count : ℕ
    pub merge_time_total_ns : ℕ
    pub merge_time_max_ns : ℕ
    pub merged_bytes_total : ℕ
    pub pending_dtc0_count : ℕ
    pub pending_dtc1_count : ℕ
    pub oldest_pending_dtc0_tag : ℕ
    pub oldest_pending_dtc1_tag : ℕ
    pub merged_out : List MergedEvent
    pub readings : ℕ

  -- `resetDetachedMergeState`
  unfoldable pub reset_merge_state : MergeState → MergeState
  reset_merge_state s = record s {
    pending_dtc0 = [];
    pending_dtc1 = [];
    have_merged_tag = false;
    last_merged_base_tag = 0;
    merged_events_count = 0;
    unmatched_dtc0_count = 0;
    unmatched_dtc1_count = 0;
    merge_time_total_ns = 0;
    merge_time_max_ns = 0;
    merged_bytes_total = 0;
    pending_dtc0_count = 0;
    pending_dtc1_count = 0;
    oldest_pending_dtc0_tag = uint64_max;
    oldest_pending_dtc1_tag = uint64_max;
  }

  -- `mine`; `theirs` is that of the other side.
  abbrev pub pending_of : Side → MergeState → Map PendingHalf
  pending_of dtc0 s = s.pending_dtc0
  pending_of dtc1 s = s.pending_dtc1

  abbrev pub with_pending : Side → Map PendingHalf → MergeState → MergeState
  with_pending dtc0 m s = record s { pending_dtc0 = m }
  with_pending dtc1 m s = record s { pending_dtc1 = m }

  -- `++(threadStruct->unmatchedDTC…Count_)`
  abbrev pub count_unmatched : Side → MergeState → MergeState
  count_unmatched dtc0 s = record s { unmatched_dtc0_count = u64 (s.unmatched_dtc0_count + 1) }
  count_unmatched dtc1 s = record s { unmatched_dtc1_count = u64 (s.unmatched_dtc1_count + 1) }

abbrev pub other_side : Side → Side
other_side dtc0 = dtc1
other_side dtc1 = dtc0
