-- ===== src/Track/Handle.antt =====
-- `handleDetachedSubevent`: the tag, the header and the data blocks.
pub mod Ended
pub mod Totals
pub mod Header
pub mod Counted
use otsdaq_mu2e.Base.{
  ℕ, zero, suc, ◌+◌, ◌-◌, ◌*◌, ◌/◌, ◌%◌, ◌^◌, Bool, true, false, not, ◌&&◌, ◌||◌, ◌⊎◌, inl, inr,
  Option, none, some, List, [], ◌∷◌, ◌++◌, if◌then◌else◌, ◌==◌, ltb, leb, length, shr, u32, u64, ⊤,
}
use otsdaq_mu2e.Track.Tag.{
  TagSettings, TagState, TagInput, TagError, src_key, use_source_set, check_subevent_tag,
}
use otsdaq_mu2e.Track.Types.{
  DataBlock, Subevent, EmulatorError, Counts, HandlerState, HandlerSettings, HandlerError, bad_tag,
  bad_emulation, fragment_count, corrupt_event, add_at, add_by_source,
}
use otsdaq_mu2e.Track.Emulator.{Checking, is_timeout, check_emulator_block}
use otsdaq_mu2e.Merge.Types.{EventLibrary, MergedEvent}
use otsdaq_mu2e.Track.Fragments.{
  Handling, then_handle, with_counts, words_from, words_in, append_words, payload_word,
  payload_delta, count_block, end_emulation, check_emulation, save_payload, handle_block,
  handle_blocks,
}

-- The tag of a subevent with the arguments of the caller.
abbrev pub tag_input : Subevent → ℕ → ℕ → TagInput
tag_input e tag_offset source_group = record {
  rx_tag = e.event_window_tag;
  source_dtc_id = e.source_dtc_id;
  tag_offset = tag_offset;
  source_group = source_group;
}

abbrev pub end_tag : (TagError ⊎ ⊤) × TagState → HandlerState → Handling
end_tag (inl why, t) s = (inl (bad_tag why), record s { tags = t })
end_tag (inr done, t) s = (inr tt, record s { tags = t })

unfoldable pub handle_tag : HandlerSettings → TagInput → HandlerState → Handling
handle_tag o i s = end_tag (check_subevent_tag o.tag_settings i s.tags) s

-- `currentSubrunBit`
abbrev pub subrun_bit : Subevent → Bool
subrun_bit e = shr e.event_mode 33 % 2 == 1

abbrev pub differ : Bool → Bool → Bool
differ true b = not b
differ false b = b

unfoldable pub count_subrun : Subevent → Counts → Counts
count_subrun e c =
    if differ (subrun_bit e) c.last_subrun_bit
    then record c {
      subrun_transition_count = u64 (c.subrun_transition_count + 1);
      last_subrun_bit = subrun_bit e;
    }
    else c

-- The start of the transfer is the time of the first subevent.
unfoldable pub start_transfer : HandlerSettings → Option ℕ → HandlerState → HandlerState
start_transfer o (some time) s = s
start_transfer o none s = record s {
  counts = record s.counts { transfer_start_time = some (o.now s.readings) };
  readings = s.readings + 1;
}

-- `(GetByteCount() - 16) / 16` as it is added to a `uint32_t`: -1 where the count is 0.
abbrev pub payload_packets : DataBlock → ℕ
payload_packets b = if b.byte_count == 0 then 2 ^ 32 - 1 else (b.byte_count - 16) / 16

unfoldable pub count_packets : List DataBlock → ℕ → ℕ
count_packets [] n = n
count_packets (b ∷ bs) n = count_packets bs (u32 (n + payload_packets b))

-- `doSaveSubevent`
unfoldable pub should_save : HandlerSettings → Subevent → Bool
should_save o e =
    o.save_binary_data
    && not (
        ltb 0 o.packet_threshold_to_save
        && ltb (count_packets e.data_blocks 0) o.packet_threshold_to_save)

unfoldable pub save_header : HandlerSettings → Bool → Subevent → Counts → Counts
save_header o save e c =
    if o.save_subevent_headers && save
    then append_words o.has_file (words_from e.raw_header 0 (words_in o.header_size))
        (record c { saved_count = u64 (c.saved_count + 1) })
    else c

-- The error bits of a link in the header of the subevent: a timeout is an error on an enabled
-- link only.
unfoldable pub count_link_status : HandlerSettings → Subevent → ℕ → Counts → Counts
count_link_status o e r c =
    let as_error = record c { fragment_errors_count = add_at r 1 c.fragment_errors_count } in
    let as_timeout = record c { fragment_timeouts_count = add_at r 1 c.fragment_timeouts_count } in
    let as_both = record as_timeout {
      fragment_errors_count = add_at r 1 c.fragment_errors_count;
    } in
    if not (ltb 0 (e.link_status r))
    then c
    else if e.link_status r % 2 == 1
    then if o.roc_link_enabled r then as_both else as_timeout
    else as_error

unfoldable pub count_links : HandlerSettings → Subevent → List ℕ → Counts → Counts
count_links o e [] c = c
count_links o e (r ∷ rs) c = count_links o e rs (count_link_status o e r c)

unfoldable pub end_transfer : HandlerSettings → HandlerState → HandlerState
end_transfer o s = record s {
  counts = record s.counts { transfer_end_time = some (o.now s.readings) };
  readings = s.readings + 1;
}

-- The part under the lock before the data blocks.
unfoldable pub count_header : HandlerSettings → Subevent → HandlerState → HandlerState
count_header o e s =
    let counted = with_counts (count_subrun e) s in
    let started = start_transfer o counted.counts.transfer_start_time counted in
    with_counts
      (λ c. count_links o e o.roc_links (
        save_header o (should_save o e) e
          (record c { total_subevent_bytes = u64 (c.total_subevent_bytes + o.header_size) })))
      started

-- The six data blocks.
unfoldable pub handle_fragments : HandlerSettings → TagInput → Subevent → HandlerState → Handling
handle_fragments o i e s =
    let n = length e.data_blocks in
    let counted = handle_blocks o i (should_save o e) e.data_blocks s in
    if n == 6
    then then_handle counted (λ s1. (inr tt, end_transfer o s1))
    else (inl (fragment_count n), s)

-- `handleDetachedSubevent`
unfoldable pub handle_subevent : HandlerSettings → Subevent → ℕ → ℕ → HandlerState → Handling
handle_subevent o e tag_offset source_group s =
    let i = tag_input e tag_offset source_group in
    then_handle (handle_tag o i s) λ s1. handle_fragments o i e (count_header o e s1)
