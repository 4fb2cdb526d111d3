-- ===== src/Merge/Scan/Limits.antt =====
-- What is still pending when `mergeDetachedEvents` does not throw.
use otsdaq_mu2e.Base.{
  ℕ, ◌+◌, ◌-◌, ◌≡◌, ◌≤◌, refl, inl, inr, Option, none, some, List, [], ◌∷◌, length, arith, All,
  Bool-cases, leb,
}
use otsdaq_mu2e.Base.Assoc.{Map}
use otsdaq_mu2e.Merge.Types.{
  Side, dtc0, dtc1, EventLibrary, Settings, MergeError, PendingHalf, MergeState,
}
use otsdaq_mu2e.Merge.Scan.{
  stage_all, age_ms, scan_timeout, scan_overflow, or_blame, first_blame, publish_pending, settle,
  check_pending, merge_events,
}
use otsdaq_mu2e.Merge.Scan.Counts.{Returned, then_merge-Returned}

module _ ⦃l : EventLibrary⦄ where
  -- No half has waited longer than the timeout at the time `now`.
  abbrev pub Timely : Settings → ℕ → Map PendingHalf → Type 0
  Timely o now pend = All (λ e. age_ms now e.1 ≤ o.pair_timeout_ms) pend

  scan_timeout-Timely :
      (o : Settings) (side : Side) (now : ℕ) (pend : Map PendingHalf)
      → scan_timeout o side now pend ≡ none
      → Timely o now pend
  unfolding scan_timeout
  scan_timeout-Timely o side now [] h = tt
  scan_timeout-Timely o side now ((key, ph) ∷ pend) h =
      elim (Bool-cases (leb (age_ms now ph) o.pair_timeout_ms)) [
        | inl e ↦ (ground arith, scan_timeout-Timely o side now pend (ground arith))
        | inr e ↦ absurd (ground arith)
      ]

  scan_overflow_bound :
      (o : Settings) (side : Side) (now : ℕ) (pend : Map PendingHalf)
      → scan_overflow o side now pend ≡ none
      → length pend ≤ o.pair_max_pending
  unfolding scan_overflow
  scan_overflow_bound o side now [] h = omega arith
  scan_overflow_bound o side now ((key, ph) ∷ pend) h = ground arith

  or_blame-none : (a b : Option MergeError) → or_blame a b ≡ none → (a ≡ none) × (b ≡ none)
  or_blame-none (some why) b h = absurd (ground arith)
  or_blame-none none b h = (refl, h)

  -- What is pending is within both limits, and the counts for the status are those of the maps.
  pub record WithinLimits (o : Settings) (now : ℕ) (s : MergeState) : Type 0 where
    pub timely0 : Timely o now s.pending_dtc0
    pub timely1 : Timely o now s.pending_dtc1
    pub few0 : length s.pending_dtc0 ≤ o.pair_max_pending
    pub few1 : length s.pending_dtc1 ≤ o.pair_max_pending
    pub count0 : s.pending_dtc0_count ≡ length s.pending_dtc0
    pub count1 : s.pending_dtc1_count ≡ length s.pending_dtc1

  settle-none : (b : Option MergeError) (s : MergeState) → Returned (settle b s).0 → b ≡ none
  unfolding settle
  settle-none (some why) s ok = absurd (ground arith)
  settle-none none s ok = refl

  settle-readings : (b : Option MergeError) (s : MergeState) → (settle b s).1.readings ≡ s.readings
  unfolding settle publish_pending
  settle-readings (some why) s = refl
  settle-readings none s = refl

  publish-WithinLimits :
      (o : Settings) (now : ℕ) (s t : MergeState)
      → first_blame o now s ≡ none
      → t.pending_dtc0 ≡ s.pending_dtc0
      → t.pending_dtc1 ≡ s.pending_dtc1
      → WithinLimits o now (publish_pending t)
  unfolding first_blame publish_pending
  publish-WithinLimits o now s t quiet same0 same1 =
      let (a, b) = or_blame-none _ _ quiet in
      let (c, d) = or_blame-none _ _ b in
      let (e, f) = or_blame-none _ _ d in
      record {
        timely0 = rw same0 (scan_timeout-Timely o dtc0 now s.pending_dtc0 a);
        timely1 = rw same1 (scan_timeout-Timely o dtc1 now s.pending_dtc1 c);
        few0 = rw same0 (scan_overflow_bound o dtc0 now s.pending_dtc0 e);
        few1 = rw same1 (scan_overflow_bound o dtc1 now s.pending_dtc1 f);
        count0 = refl;
        count1 = refl;
      }

  settle-WithinLimits :
      (o : Settings) (now : ℕ) (s t : MergeState)
      → first_blame o now s ≡ none
      → t.pending_dtc0 ≡ s.pending_dtc0
      → t.pending_dtc1 ≡ s.pending_dtc1
      → WithinLimits o now (settle (first_blame o now s) t).1
  unfolding settle
  settle-WithinLimits o now s t quiet same0 same1 =
      rw quiet (publish-WithinLimits o now s t quiet same0 same1)

  check_pending-WithinLimits :
      (o : Settings) (s : MergeState)
      → Returned (check_pending o s).0
      → WithinLimits o (l.now ((check_pending o s).1.readings - 1)) (check_pending o s).1
  unfolding check_pending
  check_pending-WithinLimits o s ok =
      let last : (check_pending o s).1.readings - 1 ≡ s.readings = omega (
        arith,
        settle-readings (first_blame o (l.now s.readings) s)
            (record s { readings = s.readings + 1 }),
      ) in
      rw last (
        settle-WithinLimits o (l.now s.readings) s (record s { readings = s.readings + 1 })
          (settle-none (first_blame o (l.now s.readings) s) (record s { readings = s.readings + 1 })
            ok)
          refl refl)

  -- When `mergeDetachedEvents` does not throw, then at the time it has read last, no pending half
  -- is older than the timeout; no side has more pending halves than allowed; and the counts for the
  -- status are those of the maps.
  pub merge_events-WithinLimits :
      (o : Settings) (from_dtc0 from_dtc1 : List l.Event) (s : MergeState)
      → Returned (merge_events o from_dtc0 from_dtc1 s).0
      → WithinLimits o
          (l.now ((merge_events o from_dtc0 from_dtc1 s).1.readings - 1))
          (merge_events o from_dtc0 from_dtc1 s).1
  unfolding merge_events
  merge_events-WithinLimits o from_dtc0 from_dtc1 s ok =
      let first = stage_all o dtc0 from_dtc0 s in
      let (ok1, ok23, e1) = then_merge-Returned first _ ok in
      let second = stage_all o dtc1 from_dtc1 first.1 in
      let (ok2, ok3, e2) = then_merge-Returned second (check_pending o) ok23 in
      rw e1 (rw e2 (check_pending-WithinLimits o second.1 ok3))
