-- ===== src/Merge/Scan/Paired.antt =====
-- Streams that match: every half finds its partner, in order, and nothing stays behind.
use otsdaq_mu2e.Base.{
  ℕ, ◌+◌, ◌≡◌, ◌<◌, refl, ap, sym, ◌∙◌, true, inl, inr, none, some, List, [], ◌∷◌, ◌++◌, map,
  length, append_none, append_step, All-both, arith, All, All-append, All-weaken, ◌==◌,
}
use otsdaq_mu2e.Base.Assoc.{Map, lookup, insert_last, lookup_above}
use otsdaq_mu2e.Merge.Types.{
  dtc0, dtc1, EventLibrary, Settings, PendingHalf, MergedEvent, MergeState,
}
use otsdaq_mu2e.Merge.Build.{build_merged}
use otsdaq_mu2e.Merge.Stage.{
  Merging, keep_half, record_merged, join_built, join_or_keep, stage_half,
}
use otsdaq_mu2e.Merge.Stage.Step.{HasKey, NotPassed}
use otsdaq_mu2e.Merge.Scan.{then_merge, stage_all, publish_pending, check_pending, merge_events}
use otsdaq_mu2e.Merge.Scan.Counts.{Returned}
use otsdaq_mu2e.Merge.Stage.Accept.{stage_half-key, stage_key-free}
use otsdaq_mu2e.Merge.Scan.Quiet.{check_pending_quiet}

module _ ⦃l : EventLibrary⦄ where
  -- Two halves of one base tag, and the event that they make.
  pub record Pairing (o : Settings) : Type 0 where
    pub key : ℕ
    pub half0 : l.Event
    pub half1 : l.Event
    pub event : l.Event
    pub key0 : HasKey o dtc0 key half0
    pub key1 : HasKey o dtc1 key half1
    pub built : build_merged half0 half1 key ≡ inr event

  module _ {o : Settings} where
    abbrev pub merged_of : Pairing o → MergedEvent
    merged_of p = record {
      event = p.event;
      num_subevents_from_dtc0 = length (l.sub_headers p.half0);
      base_tag = p.key;
    }

    -- The base tags go up.
    abbrev pub Rising : List (Pairing o) → Type 0
    Rising [] = Unit
    Rising (p ∷ ps) = All (λ q. p.key < q.key) ps × Rising ps

    -- The halves of DTC_0 while they wait, the first since reading `n` of the clock.
    abbrev pub waiting : List (Pairing o) → ℕ → Map PendingHalf
    waiting [] n = []
    waiting (p ∷ ps) n = (p.key, record { event = p.half0; arrival = l.now n }) ∷ waiting ps (n + 1)

    record Kept (ps : List (Pairing o)) (s : MergeState) (m : Merging) : Type 0 where
      returned : Returned m.0
      mine : m.1.pending_dtc0 ≡ s.pending_dtc0 ++ waiting ps s.readings
      theirs : m.1.pending_dtc1 ≡ []
      have : m.1.have_merged_tag ≡ s.have_merged_tag
      last : m.1.last_merged_base_tag ≡ s.last_merged_base_tag
      out : m.1.merged_out ≡ s.merged_out

    -- A half of DTC_0 above all that is pending waits behind them.
    stage_half-keeps :
        (p : Pairing o) (s : MergeState)
        → NotPassed p.key s
        → All (λ e. e.0 < p.key) s.pending_dtc0
        → s.pending_dtc1 ≡ []
        → stage_half o dtc0 p.half0 s ≡ (inr tt, keep_half dtc0 p.key p.half0 s)
    unfolding join_or_keep
    stage_half-keeps p s np above empty =
        let alone : lookup p.key s.pending_dtc1 ≡ none = rw empty refl in
        rw (stage_half-key o dtc0 p.key p.half0 s p.key0) (
          rw (stage_key-free dtc0 p.key p.half0 s np (lookup_above p.key s.pending_dtc0 above))
            (rw alone refl))

    keep_half_pending :
        (p : Pairing o) (s : MergeState)
        → All (λ e. e.0 < p.key) s.pending_dtc0
        → (keep_half dtc0 p.key p.half0 s).pending_dtc0
          ≡ s.pending_dtc0 ++ ((p.key, record { event = p.half0; arrival = l.now s.readings }) ∷ [])
    unfolding keep_half
    keep_half_pending p s above = insert_last p.key _ s.pending_dtc0 above

    Kept-next :
        (p : Pairing o) (ps : List (Pairing o)) (s : MergeState) (m : Merging)
        → All (λ e. e.0 < p.key) s.pending_dtc0
        → Kept ps (keep_half dtc0 p.key p.half0 s) m
        → Kept (p ∷ ps) s m
    unfolding keep_half
    Kept-next p ps s m above k = record {
      returned = k.returned;
      mine =
          k.mine
          ∙ (ap (λ q. q ++ waiting ps (s.readings + 1)) (keep_half_pending p s above)
              ∙ append_step s.pending_dtc0 _ (waiting ps (s.readings + 1)));
      theirs = k.theirs;
      have = k.have;
      last = k.last;
      out = k.out;
    }

    above_kept :
        (p : Pairing o) (ps : List (Pairing o)) (s : MergeState)
        → All (λ e. e.0 < p.key) s.pending_dtc0
        → All (λ q. All (λ e. e.0 < q.key) s.pending_dtc0) ps
        → All (λ q. p.key < q.key) ps
        → All (λ q. All (λ e. e.0 < q.key) (keep_half dtc0 p.key p.half0 s).pending_dtc0) ps
    above_kept p ps s here above rising =
        rw (keep_half_pending p s here) (
          All-both _ _ _ ps (λ q old new. All-append _ s.pending_dtc0 _ old (new, tt)) above rising)

    stage_all-Kept :
        (ps : List (Pairing o)) (s : MergeState)
        → s.pending_dtc1 ≡ []
        → All (λ p. NotPassed p.key s) ps
        → All (λ p. All (λ e. e.0 < p.key) s.pending_dtc0) ps
        → Rising ps
        → Kept ps s (stage_all o dtc0 (map (λ p. p.half0) ps) s)
    unfolding stage_all keep_half
    stage_all-Kept [] s empty np above rising = record {
      returned = refl;
      mine = sym (append_none s.pending_dtc0);
      theirs = empty;
      have = refl;
      last = refl;
      out = refl;
    }
    stage_all-Kept (p ∷ ps) s empty np above rising =
        let s' = keep_half dtc0 p.key p.half0 s in
        rw (stage_half-keeps p s np.0 above.0 empty) (
          Kept-next p ps s _ above.0
            (stage_all-Kept ps s' empty np.1 (above_kept p ps s above.0 above.1 rising.0) rising.1))

    -- What the halves of DTC_1 find: the halves of DTC_0 with their tags, and nothing else.
    pub record Paired (ps : List (Pairing o)) (s : MergeState) (m : Merging) : Type 0 where
      pub returned : Returned m.0
      pub mine : m.1.pending_dtc0 ≡ []
      pub theirs : m.1.pending_dtc1 ≡ []
      pub out : m.1.merged_out ≡ s.merged_out ++ map merged_of ps

    stage_half-joins :
        (p : Pairing o) (arrival : ℕ) (pend : Map PendingHalf) (s : MergeState)
        → NotPassed p.key s
        → s.pending_dtc0 ≡ (p.key, record { event = p.half0; arrival = arrival }) ∷ pend
        → s.pending_dtc1 ≡ []
        → stage_half o dtc1 p.half1 s
          ≡ (inr tt, record_merged dtc1 p.key (p.half0, p.half1) p.event s)
    unfolding join_or_keep join_built
    stage_half-joins p arrival pend s np front empty =
        let free : lookup p.key s.pending_dtc1 ≡ none = rw empty refl in
        let self : (p.key == p.key) ≡ true = ground arith in
        let found : lookup p.key s.pending_dtc0
            ≡ some (record { event = p.half0; arrival = arrival }) =
          rw front (rw self refl) in
        rw (stage_half-key o dtc1 p.key p.half1 s p.key1)
          (rw (stage_key-free dtc1 p.key p.half1 s np free) (rw found (rw p.built refl)))

    record_merged_pending :
        (p : Pairing o) (arrival : ℕ) (pend : Map PendingHalf) (s : MergeState)
        → s.pending_dtc0 ≡ (p.key, record { event = p.half0; arrival = arrival }) ∷ pend
        → (record_merged dtc1 p.key (p.half0, p.half1) p.event s).pending_dtc0 ≡ pend
    unfolding record_merged
    record_merged_pending p arrival pend s front =
        let self : (p.key == p.key) ≡ true = ground arith in rw front (rw self refl)

    Paired-next :
        (p : Pairing o) (ps : List (Pairing o)) (s : MergeState) (m : Merging)
        → Paired ps (record_merged dtc1 p.key (p.half0, p.half1) p.event s) m
        → Paired (p ∷ ps) s m
    unfolding record_merged
    Paired-next p ps s m k = record {
      returned = k.returned;
      mine = k.mine;
      theirs = k.theirs;
      out = k.out ∙ append_step s.merged_out _ (map merged_of ps);
    }

    stage_all-Paired :
        (ps : List (Pairing o)) (n : ℕ) (s : MergeState)
        → s.pending_dtc0 ≡ waiting ps n
        → s.pending_dtc1 ≡ []
        → All (λ p. NotPassed p.key s) ps
        → Rising ps
        → Paired ps s (stage_all o dtc1 (map (λ p. p.half1) ps) s)
    unfolding stage_all record_merged
    stage_all-Paired [] n s front empty np rising = record {
      returned = refl;
      mine = front;
      theirs = empty;
      out = sym (append_none s.merged_out);
    }
    stage_all-Paired (p ∷ ps) n s front empty np rising =
        let s' = record_merged dtc1 p.key (p.half0, p.half1) p.event s in
        rw (stage_half-joins p (l.now n) (waiting ps (n + 1)) s np.0 front empty) (
          Paired-next p ps s _ (
            stage_all-Paired ps (n + 1) s'
              (record_merged_pending p (l.now n) (waiting ps (n + 1)) s front) empty
              (All-weaken _ _ ps (λ q later have. later) rising.0) rising.1))

    check_pending-Paired :
        (ps : List (Pairing o)) (s : MergeState) (t : MergeState)
        → Paired ps s (inr tt, t)
        → Paired ps s (check_pending o t)
    unfolding publish_pending
    check_pending-Paired ps s t k =
        rw (check_pending_quiet o t k.mine k.theirs)
          (record { returned = refl; mine = k.mine; theirs = k.theirs; out = k.out })

    then_merge-Paired :
        (ps : List (Pairing o)) (s : MergeState) (m : Merging)
        → Paired ps s m
        → Paired ps s (then_merge m (check_pending o))
    then_merge-Paired ps s (inl why, t) k = absurd (ground (arith, k.returned))
    then_merge-Paired ps s (inr done, t) k = check_pending-Paired ps s t k

    Paired-from :
        (ps : List (Pairing o)) (s : MergeState) (first : Merging)
        → s.pending_dtc0 ≡ []
        → All (λ p. NotPassed p.key s) ps
        → Rising ps
        → Kept ps s first
        → Paired ps s (
            then_merge first
              λ t. then_merge (stage_all o dtc1 (map (λ p. p.half1) ps) t) (check_pending o))
    Paired-from ps s (inl why, t) empty np rising k = absurd (ground (arith, k.returned))
    Paired-from ps s (inr done, t) empty np rising k =
        let front : t.pending_dtc0 ≡ waiting ps s.readings =
          k.mine ∙ ap (λ q. q ++ waiting ps s.readings) empty in
        let np' =
          All-weaken _ (λ p. NotPassed p.key t) ps (λ p old h. rw k.last (old (sym k.have ∙ h)))
            np in
        let second =
          then_merge-Paired ps t _ (stage_all-Paired ps s.readings t front k.theirs np' rising) in
        record {
          returned = second.returned;
          mine = second.mine;
          theirs = second.theirs;
          out = second.out ∙ ap (λ q. q ++ map merged_of ps) k.out;
        }

    -- When the halves of both sides come in the order of their base tags, each with its partner,
    -- all base tags are above the last one merged, each pair can be built, and nothing is pending,
    -- then `mergeDetachedEvents` does not throw, hands out every pair in order, and leaves nothing
    -- pending, however long it takes.
    pub merge_events-Paired :
        (ps : List (Pairing o)) (s : MergeState)
        → s.pending_dtc0 ≡ []
        → s.pending_dtc1 ≡ []
        → All (λ p. NotPassed p.key s) ps
        → Rising ps
        → Paired ps s (merge_events o (map (λ p. p.half0) ps) (map (λ p. p.half1) ps) s)
    unfolding merge_events
    merge_events-Paired ps s none0 none1 np rising =
        Paired-from ps s _ none0 np rising
          (stage_all-Kept ps s none1 np (All-weaken _ _ ps (λ p old. rw none0 tt) np) rising)
