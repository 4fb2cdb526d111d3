-- ===== src/Merge/Stage.antt =====
-- `stageDetachedHalf`: a half is refused, kept until its partner arrives, or joined with it.
pub mod Step
pub mod Order
pub mod Sound
pub mod Refusal
pub mod Accept
pub mod Refined
use otsdaq_mu2e.Base.{
  ℕ, zero, ◌+◌, ◌-◌, ◌%◌, Bool, true, false, not, ◌&&◌, ◌⊎◌, inl, inr, Option, none, some, List, [],
  ◌∷◌, ◌++◌, if◌then◌else◌, ◌==◌, ltb, leb, length, u64, ⊤,
}
use otsdaq_mu2e.Base.Assoc.{has, lookup, insert, erase}
use otsdaq_mu2e.Merge.Types.{
  Side, dtc0, dtc1, is_even_odd, EventLibrary, Settings, MergeError, wrong_parity, already_merged,
  duplicate_half, PendingHalf, MergeState, pending_of, with_pending, count_unmatched, other_side,
}
use otsdaq_mu2e.Merge.Build.{build_merged}

-- The parity of a tag that a side delivers in the even/odd mode.
abbrev pub parity_of : Side → ℕ
parity_of dtc0 = 0
parity_of dtc1 = 1

-- What the base tag of a pair and the tag of the side's half differ by.
abbrev pub tag_offset : Settings → Side → ℕ
tag_offset o side = if is_even_odd o.merge_mode then parity_of side else 0

module _ ⦃l : EventLibrary⦄ where
  abbrev pub Merging : Type 0
  Merging = (MergeError ⊎ ⊤) × MergeState

  -- `abortWith`
  abbrev pub abort_with : MergeError → Side → MergeState → Merging
  abort_with why side s = (inl why, count_unmatched side s)

  -- `half0` and `half1`: the half of DTC_0 is the first.
  abbrev pub ordered_halves : Side → l.Event → l.Event → l.Event × l.Event
  ordered_halves dtc0 half partner = (half, partner)
  ordered_halves dtc1 half partner = (partner, half)

  -- `mine.emplace(key, {half, now})`
  unfoldable pub keep_half : Side → ℕ → l.Event → MergeState → MergeState
  keep_half side key half s =
      record (with_pending side
        (insert key (record { event = half; arrival = l.now s.readings }) (pending_of side s)) s) {
          readings = s.readings + 1;
        }

  -- The statistics, and the pair that is handed out.
  unfoldable pub record_merged : Side → ℕ → l.Event × l.Event → l.Event → MergeState → MergeState
  record_merged side key halves event s =
      let ns = l.now (s.readings + 1) - l.now s.readings in
      record (with_pending (other_side side) (erase key (pending_of (other_side side) s)) s) {
        merge_time_total_ns = u64 (s.merge_time_total_ns + ns);
        merge_time_max_ns = if ltb s.merge_time_max_ns ns then ns else s.merge_time_max_ns;
        merged_bytes_total = u64 (s.merged_bytes_total + l.byte_count event);
        merged_events_count = u64 (s.merged_events_count + 1);
        last_merged_base_tag = key;
        have_merged_tag = true;
        merged_out =
            s.merged_out
            ++ (record {
              event = event;
              num_subevents_from_dtc0 = length (l.sub_headers halves.0);
              base_tag = key;
            }
                ∷ []);
        readings = s.readings + 2;
      }

  -- `build_merged` throws after the first reading of the clock.
  unfoldable pub join_built :
      Side → ℕ → l.Event × l.Event → MergeError ⊎ l.Event → MergeState → Merging
  join_built side key halves (inl why) s = (inl why, record s { readings = s.readings + 1 })
  join_built side key halves (inr event) s = (inr tt, record_merged side key halves event s)

  unfoldable pub join_or_keep : Side → ℕ → l.Event → Option PendingHalf → MergeState → Merging
  join_or_keep side key half none s = (inr tt, keep_half side key half s)
  join_or_keep side key half (some partner) s =
      let halves = ordered_halves side half partner.event in
      join_built side key halves (build_merged halves.0 halves.1 key) s

  -- The checks of the key, its base tag, and what follows.
  unfoldable pub stage_key : Side → ℕ → l.Event → MergeState → Merging
  stage_key side key half s =
      if s.have_merged_tag && leb key s.last_merged_base_tag
      then abort_with (already_merged side key) side s
      else if has key (pending_of side s)
      then abort_with (duplicate_half side key) side s
      else join_or_keep side key half (lookup key (pending_of (other_side side) s)) s

  -- `stageDetachedHalf`
  unfoldable pub stage_half : Settings → Side → l.Event → MergeState → Merging
  stage_half o side half s =
      let tag = l.window_tag half in
      if is_even_odd o.merge_mode && not (tag % 2 == parity_of side)
      then abort_with (wrong_parity side tag) side s
      else stage_key side (tag - tag_offset o side) half s
