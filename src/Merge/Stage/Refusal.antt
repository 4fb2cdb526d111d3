-- ===== src/Merge/Stage/Refusal.antt =====
-- What `stageDetachedHalf` leaves as it was when it throws.
use otsdaq_mu2e.Base.{◌≡◌, refl, ◌⊎◌, inl, arith, ⊤}
use otsdaq_mu2e.Merge.Types.{
  Side, dtc0, dtc1, EventLibrary, Settings, MergeError, MergeState, count_unmatched,
}
use otsdaq_mu2e.Merge.Stage.{stage_half}
use otsdaq_mu2e.Merge.Stage.Step.{StageStep, refused, unbuilt, kept, joined, stage_half_step}

module _ ⦃l : EventLibrary⦄ where
  -- The pending halves and what has been merged are the same in both states.
  pub record SameHalves (s s' : MergeState) : Type 0 where
    pub pending0 : s'.pending_dtc0 ≡ s.pending_dtc0
    pub pending1 : s'.pending_dtc1 ≡ s.pending_dtc1
    pub out : s'.merged_out ≡ s.merged_out
    pub have : s'.have_merged_tag ≡ s.have_merged_tag
    pub last : s'.last_merged_base_tag ≡ s.last_merged_base_tag

  count_unmatched-SameHalves :
      (side : Side) (s : MergeState) → SameHalves s (count_unmatched side s)
  count_unmatched-SameHalves dtc0 s = record {
    pending0 = refl;
    pending1 = refl;
    out = refl;
    have = refl;
    last = refl;
  }
  count_unmatched-SameHalves dtc1 s = record {
    pending0 = refl;
    pending1 = refl;
    out = refl;
    have = refl;
    last = refl;
  }

  StageStep-SameHalves :
      {o : Settings} {side : Side} {half : l.Event} {s : MergeState} {r : MergeError ⊎ ⊤}
      {s' : MergeState} (why : MergeError)
      → StageStep o side half s r s'
      → r ≡ inl why
      → SameHalves s s'
  StageStep-SameHalves {side = side} {s = s} why (refused w er es) h =
      rw es (count_unmatched-SameHalves side s)
  StageStep-SameHalves why (unbuilt w er es) h =
      rw es (record { pending0 = refl; pending1 = refl; out = refl; have = refl; last = refl })
  StageStep-SameHalves why (kept key k mine theirs er es) h = absurd (ground arith)
  StageStep-SameHalves why (joined key partner event k np mine theirs built er es) h =
      absurd (ground arith)

  -- When `stageDetachedHalf` throws, for whatever reason, no pending half is touched, nothing is
  -- handed out, and the last merged base tag stays.
  pub stage_half-SameHalves :
      (o : Settings) (side : Side) (half : l.Event) (s : MergeState) (why : MergeError)
      → (stage_half o side half s).0 ≡ inl why
      → SameHalves s (stage_half o side half s).1
  stage_half-SameHalves o side half s why h =
      StageStep-SameHalves why (stage_half_step o side half s) h
