-- ===== src/Merge/Scan.antt =====
-- `mergeDetachedEvents`: all halves of a read are staged, and what is pending is checked.
pub mod Sound
pub mod Counts
pub mod Limits
pub mod Quiet
pub mod Paired
use otsdaq_mu2e.Base.{
  ℕ, ◌+◌, ◌-◌, ◌/◌, Bool, true, false, ◌⊎◌, inl, inr, Option, none, some, List, [], ◌∷◌,
  if◌then◌else◌, leb, ltb, length, ⊤,
}
use otsdaq_mu2e.Base.Assoc.{Map}
use otsdaq_mu2e.Merge.Types.{
  Side, dtc0, dtc1, EventLibrary, Settings, MergeError, pair_timeout, pair_overflow, PendingHalf,
  MergeState, uint64_max,
}
use otsdaq_mu2e.Merge.Stage.{Merging, stage_half}

module _ ⦃l : EventLibrary⦄ where
  -- What follows a step that has not thrown.
  abbrev pub then_merge : Merging → (MergeState → Merging) → Merging
  then_merge (inl why, s) f = (inl why, s)
  then_merge (inr done, s) f = f s

  unfoldable pub stage_all : Settings → Side → List l.Event → MergeState → Merging
  stage_all o side [] s = (inr tt, s)
  stage_all o side (e ∷ es) s = then_merge (stage_half o side e s) (stage_all o side es)

  -- `ageMs`
  abbrev pub age_ms : ℕ → PendingHalf → ℕ
  age_ms now ph = (now - ph.arrival) / 1_000_000

  -- `scan` without a reason: the first half that has waited too long.
  unfoldable pub scan_timeout : Settings → Side → ℕ → Map PendingHalf → Option MergeError
  scan_timeout o side now [] = none
  scan_timeout o side now ((key, ph) ∷ pend) =
      let rest = scan_timeout o side now pend in
      if leb (age_ms now ph) o.pair_timeout_ms
      then rest
      else some (pair_timeout side key (age_ms now ph))

  -- `scan` with the reason "OVERFLOW": the first half, when there are too many.
  abbrev pub first_half : Side → ℕ → Map PendingHalf → Option MergeError
  first_half side now [] = none
  first_half side now ((key, ph) ∷ pend) = some (pair_overflow side key (age_ms now ph))

  unfoldable pub scan_overflow : Settings → Side → ℕ → Map PendingHalf → Option MergeError
  scan_overflow o side now pend =
      if ltb o.pair_max_pending (length pend) then first_half side now pend else none

  abbrev pub or_blame : Option MergeError → Option MergeError → Option MergeError
  or_blame (some why) b = some why
  or_blame none b = b

  -- The four scans in their order: the first half that one of them throws for.
  unfoldable pub first_blame : Settings → ℕ → MergeState → Option MergeError
  first_blame o now s = or_blame (scan_timeout o dtc0 now s.pending_dtc0) (
      or_blame (scan_timeout o dtc1 now s.pending_dtc1) (
        or_blame (scan_overflow o dtc0 now s.pending_dtc0)
          (scan_overflow o dtc1 now s.pending_dtc1)))

  -- `pend.empty() ? UINT64_MAX : pend.begin()->first`
  abbrev pub oldest_tag : Map PendingHalf → ℕ
  oldest_tag [] = uint64_max
  oldest_tag ((key, ph) ∷ pend) = key

  unfoldable pub publish_pending : MergeState → MergeState
  publish_pending s = record s {
    pending_dtc0_count = length s.pending_dtc0;
    pending_dtc1_count = length s.pending_dtc1;
    oldest_pending_dtc0_tag = oldest_tag s.pending_dtc0;
    oldest_pending_dtc1_tag = oldest_tag s.pending_dtc1;
  }

  -- `scan(…)` throws with the sizes of the maps as the counts of unmatched halves; without a
  -- throw the counts for the status follow.
  unfoldable pub settle : Option MergeError → MergeState → Merging
  settle (some why) s = (
    inl why,
    record s {
      unmatched_dtc0_count = length s.pending_dtc0;
      unmatched_dtc1_count = length s.pending_dtc1;
    },
  )
  settle none s = (inr tt, publish_pending s)

  unfoldable pub check_pending : Settings → MergeState → Merging
  check_pending o s =
      settle (first_blame o (l.now s.readings) s) (record s { readings = s.readings + 1 })

  -- `mergeDetachedEvents`
  unfoldable pub merge_events : Settings → List l.Event → List l.Event → MergeState → Merging
  merge_events o from_dtc0 from_dtc1 s =
      then_merge (stage_all o dtc0 from_dtc0 s)
        λ s1. then_merge (stage_all o dtc1 from_dtc1 s1) (check_pending o)
