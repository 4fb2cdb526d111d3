-- ===== src/Track/Merged.antt =====
-- `handleMergedDetachedEvents`
pub mod Rounds
pub mod Paired
use otsdaq_mu2e.Base.{
  is_empty, ℕ, zero, suc, ◌+◌, ◌-◌, ◌*◌, ◌/◌, ◌%◌, ◌^◌, Bool, true, false, not, ◌&&◌, ◌||◌, ◌⊎◌,
  inl, inr, Option, none, some, List, [], ◌∷◌, ◌++◌, if◌then◌else◌, ◌==◌, ltb, leb, length, shr,
  u32, u64, ⊤,
}
use otsdaq_mu2e.Track.Tag.{
  TagSettings, TagState, TagInput, TagError, src_key, use_source_set, check_subevent_tag,
}
use otsdaq_mu2e.Track.Types.{
  DataBlock, Subevent, EmulatorError, Counts, HandlerState, HandlerSettings, HandlerError, bad_tag,
  bad_emulation, fragment_count, corrupt_event, add_at, add_by_source,
}
use otsdaq_mu2e.Track.Emulator.{Checking, is_timeout, check_emulator_block}
use otsdaq_mu2e.Merge.Types.{EventLibrary, MergedEvent, Settings, MergeState, MergeError}
use otsdaq_mu2e.Merge.Stage.{Merging}
use otsdaq_mu2e.Merge.Scan.{merge_events}
use otsdaq_mu2e.Track.Fragments.{
  Handling, then_handle, with_counts, words_from, words_in, append_words, payload_word,
  payload_delta, count_block, end_emulation, check_emulation, save_payload, handle_block,
  handle_blocks,
}
use otsdaq_mu2e.Track.Handle.{
  tag_input, end_tag, handle_tag, subrun_bit, differ, count_subrun, start_transfer, payload_packets,
  count_packets, should_save, save_header, count_link_status, count_links, end_transfer,
  count_header, handle_fragments, handle_subevent,
}

-- The subevents of a merged event from number `n` on, of which `num` came from DTC_0.
unfoldable pub handle_merged_subevents :
    HandlerSettings → ℕ → ℕ → List Subevent → HandlerState → Handling
handle_merged_subevents o num n [] s = (inr tt, s)
handle_merged_subevents o num n (e ∷ es) s =
    let from_dtc1 = leb num n in
    then_handle
      (handle_subevent o e (if from_dtc1 && o.even_odd then 1 else 0) (if from_dtc1 then 1 else 0)
        s)
      (handle_merged_subevents o num (suc n) es)

-- `handleMergedDetachedEvents`; `subevents` is `GetSubEvents()` of the DTC library, and `n` the
-- number of checks of `exitThread_` made so far.
module _ ⦃l : EventLibrary⦄ (subevents : l.Event → List Subevent) where
  unfoldable pub handle_merged_event : HandlerSettings → MergedEvent → HandlerState → Handling
  handle_merged_event o m s =
      if l.is_corrupt m.event
      then (inl (corrupt_event m.base_tag), s)
      else handle_merged_subevents o m.num_subevents_from_dtc0 0 (subevents m.event)
          (with_counts (λ c. record c { events_count = u64 (c.events_count + 1) }) s)

  unfoldable pub handle_merged_events :
      HandlerSettings → ℕ → List MergedEvent → HandlerState → Handling
  handle_merged_events o n [] s = (inr tt, s)
  handle_merged_events o n (m ∷ ms) s =
      let rest = handle_merged_events o (suc n) ms in
      if o.exits n then (inr tt, s) else then_handle (handle_merged_event o m s) rest

  -- Why a read of both DTCs throws.
  pub data ReadError : Type 0 where
    bad_merge : MergeError → ReadError
    bad_event : HandlerError → ReadError

  -- The state of the merge beside that of the handler.
  abbrev pub ReadOutcome : Type 0
  ReadOutcome = (ReadError ⊎ ⊤) × (MergeState × HandlerState)

  abbrev pub end_reading : MergeState → Handling → ReadOutcome
  end_reading m (inl why, s) = (inl (bad_event why), (m, s))
  end_reading m (inr done, s) = (inr tt, (m, s))

  -- The merged events of a read are handled, if there are any.
  unfoldable pub handle_read : HandlerSettings → ℕ → Merging → HandlerState → ReadOutcome
  handle_read o n (inl why, m) s = (inl (bad_merge why), (m, s))
  handle_read o n (inr done, m) s =
      if is_empty m.merged_out
      then (inr tt, (m, s))
      else end_reading m (handle_merged_events o n m.merged_out s)

  -- A read of both DTCs in `detachedBufferTestThread`: with no merged events so far, the halves are
  -- merged, and what comes out is handled.
  unfoldable pub merge_and_handle :
      Settings
      → HandlerSettings
      → ℕ
      → List l.Event
      → List l.Event
      → MergeState
      → HandlerState
      → ReadOutcome
  merge_and_handle p o n from_dtc0 from_dtc1 m s =
      handle_read o n (merge_events p from_dtc0 from_dtc1 (record m { merged_out = [] })) s
