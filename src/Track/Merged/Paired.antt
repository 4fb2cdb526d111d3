-- ===== src/Track/Merged/Paired.antt =====
-- Reads that bring pairs: the merge and the handler together.
use otsdaq_mu2e.Base.{
  u64, ◌+◌, ℕ, ◌≡◌, refl, true, false, ◌<◌, inl, inr, List, [], ◌∷◌, map, All, arith, is_empty,
  if◌then◌else◌,
}
use otsdaq_mu2e.Merge.Types.{EventLibrary, Settings, MergeState, MergedEvent}
use otsdaq_mu2e.Merge.Stage.{Merging}
use otsdaq_mu2e.Merge.Build.Laws.{LibraryLaws, build_merged-IsJoined}
use otsdaq_mu2e.Merge.Stage.Step.{NotPassed}
use otsdaq_mu2e.Merge.Scan.Paired.{Pairing, merged_of, Rising, Paired, merge_events-Paired}
use otsdaq_mu2e.Track.Tag.{TagState, expected_sources, stride, use_source_set}
use otsdaq_mu2e.Track.Types.{Subevent, HandlerState, HandlerSettings}
use otsdaq_mu2e.Track.Fragments.{Handling}
use otsdaq_mu2e.Track.Merged.{
  ReadOutcome, end_reading, handle_read, merge_and_handle, handle_merged_events,
}
use otsdaq_mu2e.Track.Merged.Rounds.{
  AreRounds, BringsRound, Expects, AllOver, tag_behind, handle_merged_events-AllOver,
}

module _ ⦃l : EventLibrary⦄ (subevents : l.Event → List Subevent) (o : HandlerSettings) where
  -- All is merged and handled: the next tag is expected, nothing is pending, and no mismatch is
  -- counted or recorded.
  pub record AllRead (tag : ℕ) (t : TagState) (r : ReadOutcome subevents) : Type 0 where
    pub returned : r.0 ≡ inr tt
    pub pending0 : r.1.0.pending_dtc0 ≡ []
    pub pending1 : r.1.0.pending_dtc1 ≡ []
    pub expects : Expects subevents o tag r.1.1.tags
    pub count : r.1.1.tags.mismatched_tags_count ≡ t.mismatched_tags_count
    pub jumps : r.1.1.tags.mismatched_tag_jumps ≡ t.mismatched_tag_jumps

  end_reading-AllRead :
      (tag : ℕ) (t : TagState) (m : MergeState) (h : Handling)
      → m.pending_dtc0 ≡ []
      → m.pending_dtc1 ≡ []
      → AllOver subevents o tag t h
      → AllRead tag t (end_reading subevents m h)
  end_reading-AllRead tag t m (inl why, s) e0 e1 k = absurd (let h = k.returned in ground arith)
  end_reading-AllRead tag t m (inr done, s) e0 e1 k = record {
    returned = refl;
    pending0 = e0;
    pending1 = e1;
    expects = k.expects;
    count = k.count;
    jumps = k.jumps;
  }

  -- Without merged events there is nothing to handle.
  handle_out :
      (n : ℕ) (out : List MergedEvent) (m : MergeState) (s : HandlerState)
      → (if is_empty out
          then (inr tt, (m, s))
          else end_reading subevents m (handle_merged_events subevents o n out s))
        ≡ end_reading subevents m (handle_merged_events subevents o n out s)
  unfolding handle_merged_events
  handle_out n [] m s = refl
  handle_out n (e ∷ es) m s = refl

  module _ {p : Settings} where
    -- The pairs bring the tags that are expected, one after another.
    abbrev pub PairsBring : ℕ → List (Pairing p) → Type 0
    PairsBring tag [] = Unit
    PairsBring tag (q ∷ qs) =
        BringsRound subevents o tag (merged_of q)
        × PairsBring (u64 (tag + stride o.tag_settings)) qs

    -- What the merge builds is not corrupt.
    paired_rounds :
        (tag : ℕ) (qs : List (Pairing p))
        → LibraryLaws l
        → PairsBring tag qs
        → AreRounds subevents o tag (map merged_of qs)
    paired_rounds tag [] laws h = tt
    paired_rounds tag (q ∷ qs) laws h = (
      ((build_merged-IsJoined q.half0 q.half1 q.key q.event laws q.built).intact, h.0),
      paired_rounds (u64 (tag + stride o.tag_settings)) qs laws h.1,
    )

    module _ (unchecked : o.check_roc_emulator_data ≡ false)
        (sources : use_source_set o.tag_settings ≡ true) (any : 0 < expected_sources o.tag_settings)
        (stays : (i : ℕ) → o.exits i ≡ false) where
      handle_read-AllRead :
          (n tag : ℕ) (qs : List (Pairing p)) (m : MergeState) (r : Merging) (s : HandlerState)
          → LibraryLaws l
          → PairsBring tag qs
          → Paired qs (record m { merged_out = [] }) r
          → Expects subevents o tag s.tags
          → AllRead
              (tag_behind subevents o tag (map merged_of qs))
              s.tags
              (handle_read subevents o n r s)
      unfolding handle_read
      handle_read-AllRead n tag qs m (inl why, t) s laws brings k e =
          absurd (ground (arith, k.returned))
      handle_read-AllRead n tag qs m (inr done, t) s laws brings k e =
          let rounds : AreRounds subevents o tag (map merged_of qs) =
            paired_rounds tag qs laws brings in
          let all =
            handle_merged_events-AllOver subevents o unchecked sources any n tag (map merged_of qs)
              s stays rounds e in
          rw (handle_out n t.merged_out t s)
            (end_reading-AllRead _ s.tags t _ k.mine k.theirs (rw k.out all))

      -- The merge and the handler together, over a DTC library with the laws named: when a read
      -- brings the halves of both sides in the order of their base tags, each with its partner,
      -- all base tags above the last one merged, each pair can be built, the pairs bring the tags
      -- that are expected, each once from every source, with six blocks in each subevent, and
      -- nothing is pending, then nothing throws, nothing is pending afterwards, no mismatch is
      -- counted or recorded, and the tag behind the last is expected: where the sources of a tag
      -- are told apart, the thread is not told to exit, and emulated data are not checked.
      pub merge_and_handle-AllRead :
          (n tag : ℕ) (qs : List (Pairing p)) (m : MergeState) (s : HandlerState)
          → LibraryLaws l
          → m.pending_dtc0 ≡ []
          → m.pending_dtc1 ≡ []
          → All (λ q. NotPassed q.key m) qs
          → Rising qs
          → PairsBring tag qs
          → Expects subevents o tag s.tags
          → AllRead
              (tag_behind subevents o tag (map merged_of qs))
              s.tags
              (merge_and_handle subevents p o n (map (λ q. q.half0) qs) (map (λ q. q.half1) qs) m s)
      unfolding merge_and_handle
      merge_and_handle-AllRead n tag qs m s laws e0 e1 np rising brings e =
          handle_read-AllRead n tag qs m _ s laws brings
            (merge_events-Paired qs (record m { merged_out = [] }) e0 e1 np rising) e
