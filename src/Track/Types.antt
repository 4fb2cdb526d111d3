-- ===== src/Track/Types.antt =====
-- The data of the detached handler beyond the tags: `DTC_SubEvent` and its data blocks as the
-- handler reads them, and the counts of `DetachedBufferTestThreadStruct`.
use otsdaq_mu2e.Base.{
  ℕ, zero, suc, ◌+◌, Bool, Option, List, [], ◌∷◌, if◌then◌else◌, ltb, length, u64,
}
use otsdaq_mu2e.Base.Assoc.{Map, find_or, insert}
use otsdaq_mu2e.Track.Tag.{TagSettings, TagState, TagError}

-- What the handler reads of a data block: the fields of its header packet, the 32-bit words at
-- `GetRawBufferPointer()`, and the 16-bit words at `GetData()`.
pub record DataBlock : Type 0 where
  pub link_id : ℕ
  pub status : ℕ
  pub byte_count : ℕ
  pub raw : ℕ → ℕ
  pub words : ℕ → ℕ

-- What it reads of a subevent; `raw_header` are the 32-bit words of its header.
pub record Subevent : Type 0 where
  pub event_window_tag : ℕ
  pub source_dtc_id : ℕ
  pub event_mode : ℕ
  pub link_status : ℕ → ℕ
  pub raw_header : ℕ → ℕ
  pub data_blocks : List DataBlock

-- Why the check of the emulated data fails: the packets of a block, the counter it begins with,
-- or a word of a pair, given with what was expected.
pub data EmulatorError : Type 0 where
  packet_count block_start : ℕ → ℕ → EmulatorError
  pair_constant pair_counter : ℕ → ℕ → ℕ → EmulatorError

-- The members of the check of the emulated data; `none` stands for the -1 of
-- `rocEmulatorExpectedPackets_`.
pub record EmulatorState : Type 0 where
  pub expected_packets : Option ℕ
  pub next_counter : Map ℕ
  pub data_errors_count : List ℕ
  pub packet_count_errors_count : List ℕ
  pub first_errors : List EmulatorError

-- The counts; `none` stands for `time_point::min()`. `file` are the words written to `fp_`.
pub record Counts : Type 0 where
  pub events_count : ℕ
  pub subrun_transition_count : ℕ
  pub last_subrun_bit : Bool
  pub transfer_start_time : Option ℕ
  pub transfer_end_time : Option ℕ
  pub total_subevent_bytes : ℕ
  pub saved_count : ℕ
  pub file : List ℕ
  pub fragments_count : List ℕ
  pub fragment_timeouts_count : List ℕ
  pub fragment_errors_count : List ℕ
  pub payload_empty_count : List ℕ
  pub header_timeouts_count : List ℕ
  pub payload_byte_count : List ℕ
  pub fragments_by_source : Map (List ℕ)
  pub payload_bytes_by_source : Map (List ℕ)

-- All that the handler changes, with the number of clock readings made so far.
pub record HandlerState : Type 0 where
  pub tags : TagState
  pub emulator : EmulatorState
  pub counts : Counts
  pub readings : ℕ

-- What the thread is set up with. `has_file` is `fp_` as a test, `roc_links` and `header_size` are
-- `DTC_ROC_Links` and `sizeof(DTC_SubEventHeader)` of the DTC library, reading number `i` of the
-- steady clock is `now i`, and `exits i` is what check number `i` of `exitThread_` finds.
pub record HandlerSettings : Type 0 where
  pub tag_settings : TagSettings
  pub even_odd : Bool
  pub save_binary_data : Bool
  pub save_subevent_headers : Bool
  pub packet_threshold_to_save : ℕ
  pub check_roc_emulator_data : Bool
  pub has_file : Bool
  pub roc_link_enabled : ℕ → Bool
  pub roc_links : List ℕ
  pub header_size : ℕ
  pub now : ℕ → ℕ
  pub exits : ℕ → Bool

-- Why the handler throws.
pub data HandlerError : Type 0 where
  bad_tag : TagError → HandlerError
  bad_emulation : EmulatorError → HandlerError
  fragment_count corrupt_event : ℕ → HandlerError

-- `v[link] += n`. Behind the end, where C++ leaves it undefined, nothing changes.
abbrev pub add_at : ℕ → ℕ → List ℕ → List ℕ
add_at link n [] = []
add_at zero n (x ∷ xs) = u64 (x + n) ∷ xs
add_at (suc link) n (x ∷ xs) = x ∷ add_at link n xs

abbrev pub six_zeros : List ℕ
six_zeros = 0 ∷ 0 ∷ 0 ∷ 0 ∷ 0 ∷ 0 ∷ []

-- `v.assign(6, 0)` where `v.size() < 6`
abbrev pub at_least_six : List ℕ → List ℕ
at_least_six v = if ltb (length v) 6 then six_zeros else v

-- The entry of a source, made when it is missing, and its count of a link.
unfoldable pub add_by_source : ℕ → ℕ → ℕ → Map (List ℕ) → Map (List ℕ)
add_by_source key link n m = insert key (add_at link n (at_least_six (find_or [] key m))) m
