-- ===== src/Merge/Build.antt =====
-- `buildMergedDetachedEvent`: two halves as one event.
pub mod Laws
use otsdaq_mu2e.Base.{
  ℕ, ◌+◌, ◌-◌, ◌^◌, Bool, true, false, ◌||◌, ◌⊎◌, inl, inr, List, [], ◌∷◌, ◌++◌, if◌then◌else◌, ltb,
  leb, length, take, drop, u16, u32, shr,
}
use otsdaq_mu2e.Merge.Types.{
  SubHeader, EventHeader, EventLibrary, MergeError, malformed_half, event_too_big, setup_failed,
}

module _ ⦃l : EventLibrary⦄ where
  -- `GetEventByteCount() - hdrSize`
  unfoldable pub body_size : l.Event → ℕ
  body_size e = l.byte_count e - l.header_size

  -- The bytes of a half behind its event header.
  unfoldable pub body_bytes : l.Event → List ℕ
  body_bytes e = take (body_size e) (drop l.header_size (l.buffer e))

  unfoldable pub merged_size : l.Event → l.Event → ℕ
  merged_size half0 half1 = l.header_size + body_size half0 + body_size half1

  -- `hdr`, with the fields that come from the first subevent of DTC_0.
  unfoldable pub merged_header : l.Event → l.Event → ℕ → SubHeader → EventHeader
  merged_header half0 half1 base first = record {
    inclusive_event_byte_count = merged_size half0 half1;
    num_dtcs = length (l.sub_headers half0) + length (l.sub_headers half1);
    event_tag_low = u32 base;
    event_tag_high = u16 (shr base 32);
    event_mode = first.event_mode;
    dtc_mac = first.dtc_mac;
    partition_id = first.partition_id;
    evb_mode = first.evb_mode;
  }

  unfoldable pub assemble : l.Event → l.Event → ℕ → SubHeader → l.Event
  assemble half0 half1 base first =
      let hdr = merged_header half0 half1 base first in
      l.set_up hdr (l.header_bytes hdr ++ (body_bytes half0 ++ body_bytes half1))

  -- The check of the size, and the check behind `SetupEvent()`.
  unfoldable pub checked_event : l.Event → l.Event → ℕ → SubHeader → MergeError ⊎ l.Event
  checked_event half0 half1 base first =
      if leb (2 ^ 24) (merged_size half0 half1)
      then inl (event_too_big base (merged_size half0 half1))
      else if l.is_corrupt (assemble half0 half1 base first)
      then inl (setup_failed base)
      else inr (assemble half0 half1 base first)

  unfoldable pub with_first_sub : List SubHeader → l.Event → l.Event → ℕ → MergeError ⊎ l.Event
  with_first_sub [] half0 half1 base = inl (malformed_half base)
  with_first_sub (first ∷ subs) half0 half1 base = checked_event half0 half1 base first

  -- `buildMergedDetachedEvent`
  unfoldable pub build_merged : l.Event → l.Event → ℕ → MergeError ⊎ l.Event
  build_merged half0 half1 base =
      if ltb (l.byte_count half0) l.header_size || ltb (l.byte_count half1) l.header_size
      then inl (malformed_half base)
      else with_first_sub (l.sub_headers half0) half0 half1 base
