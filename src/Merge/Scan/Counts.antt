-- ===== src/Merge/Scan/Counts.antt =====
-- What `mergeDetachedEvents` accounts for: no half of a side is lost or counted twice.
use otsdaq_mu2e.Base.{
  ℕ, suc, ◌+◌, ◌≡◌, refl, ◌⊎◌, inl, inr, Option, none, some, List, [], ◌∷◌, length, length-append,
  arith, ⊤,
}
use otsdaq_mu2e.Base.Assoc.{lookup, length-insert_new, length-erase}
use otsdaq_mu2e.Merge.Types.{
  Side, dtc0, dtc1, EventLibrary, Settings, MergeError, PendingHalf, MergeState, pending_of,
  other_side,
}
use otsdaq_mu2e.Merge.Stage.{Merging, keep_half, record_merged, stage_half}
use otsdaq_mu2e.Merge.Stage.Step.{StageStep, refused, unbuilt, kept, joined, stage_half_step}
use otsdaq_mu2e.Merge.Scan.{
  then_merge, stage_all, publish_pending, settle, check_pending, merge_events,
}

module _ ⦃l : EventLibrary⦄ where
  -- The halves of a side that are pending or merged.
  abbrev pub accounted : Side → MergeState → ℕ
  accounted side s = length (pending_of side s) + length s.merged_out

  abbrev pub Returned : MergeError ⊎ ⊤ → Type 0
  Returned r = r ≡ inr tt

  -- A half that is not refused adds one to the halves of its side.
  pub record Adds (side : Side) (n : ℕ) (s s' : MergeState) : Type 0 where
    pub mine : accounted side s' ≡ accounted side s + n
    pub theirs : accounted (other_side side) s' ≡ accounted (other_side side) s

  keep_half-Adds :
      (side : Side) (key : ℕ) (half : l.Event) (s : MergeState)
      → lookup key (pending_of side s) ≡ none
      → Adds side 1 s (keep_half side key half s)
  unfolding keep_half
  keep_half-Adds dtc0 key half s free = record {
    mine = omega (
      arith,
      length-insert_new key (record { event = half; arrival = l.now s.readings }) s.pending_dtc0
          free,
    );
    theirs = refl;
  }
  keep_half-Adds dtc1 key half s free = record {
    mine = omega (
      arith,
      length-insert_new key (record { event = half; arrival = l.now s.readings }) s.pending_dtc1
          free,
    );
    theirs = refl;
  }

  record_merged-Adds :
      (side : Side) (key : ℕ) (halves : l.Event × l.Event) (event : l.Event) (s : MergeState)
      (partner : PendingHalf)
      → lookup key (pending_of (other_side side) s) ≡ some partner
      → Adds side 1 s (record_merged side key halves event s)
  unfolding record_merged
  record_merged-Adds dtc0 key halves event s partner found = record {
    mine = omega (arith, length-append s.merged_out _);
    theirs =
        omega (arith, length-append s.merged_out _, length-erase key partner s.pending_dtc1 found);
  }
  record_merged-Adds dtc1 key halves event s partner found = record {
    mine = omega (arith, length-append s.merged_out _);
    theirs =
        omega (arith, length-append s.merged_out _, length-erase key partner s.pending_dtc0 found);
  }

  StageStep-Adds :
      {o : Settings} {side : Side} {half : l.Event} {s : MergeState} {r : MergeError ⊎ ⊤}
      {s' : MergeState}
      → StageStep o side half s r s'
      → Returned r
      → Adds side 1 s s'
  StageStep-Adds (refused why er es) ok = absurd (ground arith)
  StageStep-Adds (unbuilt why er es) ok = absurd (ground arith)
  StageStep-Adds {side = side} {half = half} {s = s} (kept key k mine theirs er es) ok =
      rw es (keep_half-Adds side key half s mine)
  StageStep-Adds {side = side} {half = half} {s = s}
        (joined key partner event k np mine theirs built er es) ok =
      rw es (record_merged-Adds side key _ event s partner theirs)

  stage_half-Adds :
      (o : Settings) (side : Side) (half : l.Event) (s : MergeState)
      → Returned (stage_half o side half s).0
      → Adds side 1 s (stage_half o side half s).1
  stage_half-Adds o side half s ok = StageStep-Adds (stage_half_step o side half s) ok

  then_merge-Adds :
      (side : Side) (n : ℕ) (s : MergeState) (m : Merging) (f : MergeState → Merging)
      → Returned (then_merge m f).0
      → (Returned m.0 → Adds side 1 s m.1)
      → ((t : MergeState) → Returned (f t).0 → Adds side n t (f t).1)
      → Adds side (suc n) s (then_merge m f).1
  then_merge-Adds side n s (inl why, t) f ok one more = absurd (ground arith)
  then_merge-Adds side n s (inr done, t) f ok one more =
      let a = one refl in
      let b = more t ok in
      record { mine = omega (arith, a.mine, b.mine); theirs = omega (arith, a.theirs, b.theirs) }

  stage_all-Adds :
      (o : Settings) (side : Side) (es : List l.Event) (s : MergeState)
      → Returned (stage_all o side es s).0
      → Adds side (length es) s (stage_all o side es s).1
  unfolding stage_all
  stage_all-Adds o side [] s ok = record { mine = omega arith; theirs = refl }
  stage_all-Adds o side (e ∷ es) s ok =
      then_merge-Adds side (length es) s (stage_half o side e s) (stage_all o side es) ok
        (stage_half-Adds o side e s) (stage_all-Adds o side es)

  settle_same :
      (b : Option MergeError) (s : MergeState) (side : Side)
      → accounted side (settle b s).1 ≡ accounted side s
  unfolding settle publish_pending
  settle_same (some why) s dtc0 = refl
  settle_same (some why) s dtc1 = refl
  settle_same none s dtc0 = refl
  settle_same none s dtc1 = refl

  check_pending_same :
      (o : Settings) (s : MergeState) (side : Side)
      → accounted side (check_pending o s).1 ≡ accounted side s
  unfolding check_pending
  check_pending_same o s dtc0 = settle_same _ (record s { readings = s.readings + 1 }) dtc0
  check_pending_same o s dtc1 = settle_same _ (record s { readings = s.readings + 1 }) dtc1

  pub then_merge-Returned :
      (m : Merging) (f : MergeState → Merging)
      → Returned (then_merge m f).0
      → Returned m.0 × Returned (f m.1).0 × (then_merge m f ≡ f m.1)
  then_merge-Returned (inl why, t) f ok = absurd (ground arith)
  then_merge-Returned (inr done, t) f ok = (refl, ok, refl)

  -- When `mergeDetachedEvents` does not throw, the halves of each side that are pending or merged
  -- have grown by exactly those that were given: no half is lost, and none counts twice.
  pub merge_events-accounted :
      (o : Settings) (from_dtc0 from_dtc1 : List l.Event) (s : MergeState)
      → Returned (merge_events o from_dtc0 from_dtc1 s).0
      → (accounted dtc0 (merge_events o from_dtc0 from_dtc1 s).1
          ≡ accounted dtc0 s + length from_dtc0)
        × (accounted dtc1 (merge_events o from_dtc0 from_dtc1 s).1
            ≡ accounted dtc1 s + length from_dtc1)
  unfolding merge_events
  merge_events-accounted o from_dtc0 from_dtc1 s ok =
      let first = stage_all o dtc0 from_dtc0 s in
      let (ok1, ok23, e1) = then_merge-Returned first _ ok in
      let second = stage_all o dtc1 from_dtc1 first.1 in
      let (ok2, ok3, e2) = then_merge-Returned second (check_pending o) ok23 in
      let a = stage_all-Adds o dtc0 from_dtc0 s ok1 in
      let b = stage_all-Adds o dtc1 from_dtc1 first.1 ok2 in
      let c0 = check_pending_same o second.1 dtc0 in
      let c1 = check_pending_same o second.1 dtc1 in
      rw e1
        (rw e2 (rw c0 (rw c1 (omega (arith, a.mine, b.theirs), omega (arith, a.theirs, b.mine)))))
