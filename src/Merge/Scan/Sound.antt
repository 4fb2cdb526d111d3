-- ===== src/Merge/Scan/Sound.antt =====
-- `mergeDetachedEvents` keeps the invariant of the merge.
use otsdaq_mu2e.Base.{◌≡◌, refl, inl, inr, Option, none, some, List, [], ◌∷◌}
use otsdaq_mu2e.Merge.Types.{
  Side, dtc0, dtc1, EventLibrary, Settings, MergeError, MergeState, reset_merge_state,
}
use otsdaq_mu2e.Merge.Stage.{Merging, stage_half}
use otsdaq_mu2e.Merge.Stage.Step.{stage_half_step}
use otsdaq_mu2e.Merge.Stage.Sound.{IsSound, StageStep-IsSound, same-IsSound}
use otsdaq_mu2e.Merge.Scan.{
  then_merge, stage_all, publish_pending, settle, check_pending, merge_events,
}

module _ ⦃l : EventLibrary⦄ where
  stage_half-IsSound :
      (o : Settings) (side : Side) (half : l.Event) (s : MergeState)
      → IsSound o s
      → IsSound o (stage_half o side half s).1
  stage_half-IsSound o side half s sound = StageStep-IsSound (stage_half_step o side half s) sound

  then_merge-IsSound :
      (o : Settings) (m : Merging) (f : MergeState → Merging)
      → IsSound o m.1
      → ((s : MergeState) → IsSound o s → IsSound o (f s).1)
      → IsSound o (then_merge m f).1
  then_merge-IsSound o (inl why, s) f sound next = sound
  then_merge-IsSound o (inr done, s) f sound next = next s sound

  stage_all-IsSound :
      (o : Settings) (side : Side) (es : List l.Event) (s : MergeState)
      → IsSound o s
      → IsSound o (stage_all o side es s).1
  unfolding stage_all
  stage_all-IsSound o side [] s sound = sound
  stage_all-IsSound o side (e ∷ es) s sound =
      then_merge-IsSound o (stage_half o side e s) (stage_all o side es)
        (stage_half-IsSound o side e s sound) (stage_all-IsSound o side es)

  settle-IsSound :
      (o : Settings) (b : Option MergeError) (s : MergeState)
      → IsSound o s
      → IsSound o (settle b s).1
  unfolding settle publish_pending
  settle-IsSound o (some why) s sound = same-IsSound s _ refl refl refl refl refl sound
  settle-IsSound o none s sound = same-IsSound s _ refl refl refl refl refl sound

  check_pending-IsSound :
      (o : Settings) (s : MergeState) → IsSound o s → IsSound o (check_pending o s).1
  unfolding check_pending
  check_pending-IsSound o s sound =
      settle-IsSound o _ _ (same-IsSound s _ refl refl refl refl refl sound)

  -- Whether it returns or throws, `mergeDetachedEvents` keeps the invariant.
  pub merge_events-IsSound :
      (o : Settings) (from_dtc0 from_dtc1 : List l.Event) (s : MergeState)
      → IsSound o s
      → IsSound o (merge_events o from_dtc0 from_dtc1 s).1
  unfolding merge_events
  merge_events-IsSound o from_dtc0 from_dtc1 s sound =
      then_merge-IsSound o (stage_all o dtc0 from_dtc0 s) _
        (stage_all-IsSound o dtc0 from_dtc0 s sound)
        λ s1 sound1.
          then_merge-IsSound o (stage_all o dtc1 from_dtc1 s1) (check_pending o)
            (stage_all-IsSound o dtc1 from_dtc1 s1 sound1) (check_pending-IsSound o)

  -- The state after `resetDetachedMergeState`, with an empty vector of the caller.
  pub reset-IsSound :
      (o : Settings) (s : MergeState) → s.merged_out ≡ [] → IsSound o (reset_merge_state s)
  unfolding reset_merge_state
  reset-IsSound o s none_out = record {
    keyed0 = tt;
    keyed1 = tt;
    disjoint = λ k. inl refl;
    pairs = rw none_out tt;
    ascending = rw none_out tt;
    covered = rw none_out tt;
  }
