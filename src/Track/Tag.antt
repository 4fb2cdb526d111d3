-- ===== src/Track/Tag.antt =====
-- The part of `handleDetachedSubevent` up to the next expected tag, and the count of subruns.
use otsdaq_mu2e.Base.{
  ℕ, ◌+◌, ◌-◌, ◌*◌, ◌^◌, Bool, true, false, not, ◌&&◌, ◌||◌, ◌⊎◌, inl, inr, List, [], ◌∷◌, ◌++◌,
  if◌then◌else◌, ◌==◌, ltb, leb, length, u16, u64, bit_or, ⊤,
}

-- What the thread is set up with. `live_sources` is `GetEVBNumSources()` of the DTC, 0 where there
-- is no handle or no value, and `live_sources_other` that of the other DTC.
pub record TagSettings : Type 0 where
  pub in_evb_mode : Bool
  pub merging : Bool
  pub skip_by_32 : Bool
  pub active_match : Bool
  pub evb_num_dest_nodes : ℕ
  pub evb_num_dest_nodes_other : ℕ
  pub live_sources : ℕ
  pub live_sources_other : ℕ

-- The members that the check changes.
pub record TagState : Type 0 where
  pub subevents_count : ℕ
  pub evb_tag_synced : Bool
  pub next_event_window_tag : ℕ
  pub expected_event_tag : ℕ
  pub sources_seen : List ℕ
  pub mismatched_tags_count : ℕ
  pub mismatched_tag_jumps : List (ℕ × ℕ)

-- What the check looks at of a subevent: its tag, `source_dtc_id`, and the two arguments of the
-- caller.
pub record TagInput : Type 0 where
  pub rx_tag : ℕ
  pub source_dtc_id : ℕ
  pub tag_offset : ℕ
  pub source_group : ℕ

-- The exception of the active match: the tag that was expected, and the one received.
pub data TagError : Type 0 where
  mismatched_tag : ℕ → ℕ → TagError

-- `effTag`
abbrev pub eff_tag : TagInput → ℕ
eff_tag i = u64 (i.rx_tag + (2 ^ 64 - i.tag_offset))

-- `srcKey`
abbrev pub src_key : TagInput → ℕ
src_key i = bit_or (u16 (i.source_group * 2 ^ 8)) (u16 i.source_dtc_id)

-- `evbN` and `evbNOther`
unfoldable pub evb_n : TagSettings → ℕ
evb_n o = if o.in_evb_mode && ltb 0 o.live_sources then o.live_sources else o.evb_num_dest_nodes

unfoldable pub evb_n_other : TagSettings → ℕ
evb_n_other o =
    if o.in_evb_mode && (o.merging && ltb 0 o.live_sources_other)
    then o.live_sources_other
    else o.evb_num_dest_nodes_other

unfoldable pub expected_sources : TagSettings → ℕ
expected_sources o =
    if o.in_evb_mode
    then evb_n o + (if o.merging then evb_n_other o else 0)
    else if o.merging
    then 2
    else 1

unfoldable pub stride : TagSettings → ℕ
stride o = if o.in_evb_mode then evb_n o else if o.skip_by_32 then 32 else 1

abbrev pub use_source_set : TagSettings → Bool
use_source_set o = o.in_evb_mode || o.merging

-- `evbSourcesSeenForTag_` as the list of its elements.
abbrev pub is_member : ℕ → List ℕ → Bool
is_member k [] = false
is_member k (x ∷ xs) = x == k || is_member k xs

abbrev pub insert_source : ℕ → List ℕ → List ℕ
insert_source k xs = if is_member k xs then xs else k ∷ xs

-- The first subevent of the EVB mode defines the starting tag.
unfoldable pub sync_tag : TagSettings → ℕ → TagState → TagState
sync_tag o tag s =
    if o.in_evb_mode && not s.evb_tag_synced
    then record s {
      next_event_window_tag = tag;
      expected_event_tag = tag;
      sources_seen = [];
      evb_tag_synced = true;
    }
    else s

-- `tagOK`
unfoldable pub is_tag_ok : TagSettings → ℕ → ℕ → TagState → Bool
is_tag_ok o tag key s =
    s.next_event_window_tag == tag && not (use_source_set o && is_member key s.sources_seen)

-- The mismatch, with the first 100 jumps.
unfoldable pub note_mismatch : ℕ → TagState → TagState
note_mismatch tag s = record s {
  mismatched_tags_count = u64 (s.mismatched_tags_count + 1);
  mismatched_tag_jumps =
      if ltb (length s.mismatched_tag_jumps) 100
      then s.mismatched_tag_jumps ++ ((s.next_event_window_tag, tag) ∷ [])
      else s.mismatched_tag_jumps;
}

-- When all sources have delivered the tag, the next one is expected.
unfoldable pub advance_tag : TagSettings → ℕ → TagState → TagState
advance_tag o tag s =
    if leb (expected_sources o) (length s.sources_seen)
    then record s { sources_seen = []; next_event_window_tag = u64 (tag + stride o) }
    else s

-- The set after a tag that was expected, or one that is taken as the new start.
unfoldable pub follow_tag : TagSettings → Bool → ℕ → ℕ → TagState → TagState
follow_tag o ok tag key s =
    if use_source_set o
    then advance_tag o tag (
        if ok
        then record s { sources_seen = insert_source key s.sources_seen }
        else record s { sources_seen = key ∷ []; next_event_window_tag = tag })
    else record s { next_event_window_tag = u64 (tag + stride o) }

-- A mismatch throws if the match is active; else the tag is taken as the new start.
unfoldable pub end_mismatch : TagSettings → Bool → ℕ → ℕ → TagState → (TagError ⊎ ⊤) × TagState
end_mismatch o true tag key s =
    (inl (mismatched_tag s.next_event_window_tag tag), note_mismatch tag s)
end_mismatch o false tag key s = (inr tt, follow_tag o false tag key (note_mismatch tag s))

-- The branch of a mismatch, and what follows.
unfoldable pub settle_tag : TagSettings → Bool → ℕ → ℕ → TagState → (TagError ⊎ ⊤) × TagState
settle_tag o true tag key s = (inr tt, follow_tag o true tag key s)
settle_tag o false tag key s = end_mismatch o o.active_match tag key s

-- `handleDetachedSubevent` up to the next expected tag
unfoldable pub check_subevent_tag : TagSettings → TagInput → TagState → (TagError ⊎ ⊤) × TagState
check_subevent_tag o i s =
    let counted = record s { subevents_count = u64 (s.subevents_count + 1) } in
    let synced = sync_tag o (eff_tag i) counted in
    settle_tag o (is_tag_ok o (eff_tag i) (src_key i) synced) (eff_tag i) (src_key i) synced

-- The subevents of a read one by one, until the check throws.
abbrev pub then_check :
    (TagError ⊎ ⊤) × TagState → (TagState → (TagError ⊎ ⊤) × TagState) → (TagError ⊎ ⊤) × TagState
then_check (inl e, s) f = (inl e, s)
then_check (inr x, s) f = f s

unfoldable pub check_subevent_tags :
    TagSettings → List TagInput → TagState → (TagError ⊎ ⊤) × TagState
check_subevent_tags o [] s = (inr tt, s)
check_subevent_tags o (i ∷ is) s = then_check (check_subevent_tag o i s) (check_subevent_tags o is)
