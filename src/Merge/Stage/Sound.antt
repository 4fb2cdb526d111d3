-- ===== src/Merge/Stage/Sound.antt =====
-- The invariant of the merge, and that `stageDetachedHalf` keeps it.
use otsdaq_mu2e.Base.{
  ℕ, ◌≡◌, ◌≤◌, ◌<◌, refl, true, ◌⊎◌, inr, none, some, length, arith, All, All-append, All-weaken, ⊤,
}
use otsdaq_mu2e.Base.Assoc.{lookup, insert, erase, All-insert, All-erase, All-lookup}
use otsdaq_mu2e.Merge.Types.{
  Side, dtc0, dtc1, EventLibrary, Settings, MergeError, PendingHalf, MergedEvent, MergeState,
  pending_of, other_side,
}
use otsdaq_mu2e.Merge.Build.{build_merged}
use otsdaq_mu2e.Merge.Stage.{ordered_halves, keep_half, record_merged}
use otsdaq_mu2e.Merge.Stage.Step.{HasKey, NotPassed, StageStep, refused, unbuilt, kept, joined}
use otsdaq_mu2e.Merge.Stage.Order.{
  Ascending, Disjoint, insert-Disjoint, erase-Disjoint, swap-Disjoint, append-Ascending,
}

module _ ⦃l : EventLibrary⦄ where
  -- A merged event is what `buildMergedDetachedEvent` makes of a half of each side with its base
  -- tag.
  pub record IsPair (o : Settings) (m : MergedEvent) : Type 0 where
    pub half0 : l.Event
    pub half1 : l.Event
    pub tag0 : HasKey o dtc0 m.base_tag half0
    pub tag1 : HasKey o dtc1 m.base_tag half1
    pub built : build_merged half0 half1 m.base_tag ≡ inr m.event
    pub subs : m.num_subevents_from_dtc0 ≡ length (l.sub_headers half0)

  -- Every merged event is covered by `lastMergedBaseTag_`.
  abbrev pub Covered : MergeState → MergedEvent → Type 0
  Covered s m = (s.have_merged_tag ≡ true) × (m.base_tag ≤ s.last_merged_base_tag)

  -- The base tag of a pending half is its key.
  abbrev pub Keyed : Settings → Side → ℕ × PendingHalf → Type 0
  Keyed o side e = HasKey o side e.0 e.1.event

  pub record IsSound (o : Settings) (s : MergeState) : Type 0 where
    pub keyed0 : All (Keyed o dtc0) s.pending_dtc0
    pub keyed1 : All (Keyed o dtc1) s.pending_dtc1
    pub disjoint : Disjoint s.pending_dtc0 s.pending_dtc1
    pub pairs : All (IsPair o) s.merged_out
    pub ascending : Ascending s.merged_out
    pub covered : All (Covered s) s.merged_out

  keep_half-IsSound :
      (o : Settings) (side : Side) (key : ℕ) (half : l.Event) (s : MergeState)
      → HasKey o side key half
      → lookup key (pending_of (other_side side) s) ≡ none
      → IsSound o s
      → IsSound o (keep_half side key half s)
  unfolding keep_half
  keep_half-IsSound o dtc0 key half s k free sound = record {
    keyed0 = All-insert (Keyed o dtc0) key _ s.pending_dtc0 k sound.keyed0;
    keyed1 = sound.keyed1;
    disjoint = insert-Disjoint key _ s.pending_dtc0 s.pending_dtc1 free sound.disjoint;
    pairs = sound.pairs;
    ascending = sound.ascending;
    covered = sound.covered;
  }
  keep_half-IsSound o dtc1 key half s k free sound = record {
    keyed0 = sound.keyed0;
    keyed1 = All-insert (Keyed o dtc1) key _ s.pending_dtc1 k sound.keyed1;
    disjoint = swap-Disjoint (insert key _ s.pending_dtc1) s.pending_dtc0 (
        insert-Disjoint key _ s.pending_dtc1 s.pending_dtc0 free
          (swap-Disjoint s.pending_dtc0 s.pending_dtc1 sound.disjoint));
    pairs = sound.pairs;
    ascending = sound.ascending;
    covered = sound.covered;
  }

  below_key :
      (o : Settings) (key : ℕ) (s : MergeState)
      → NotPassed key s
      → IsSound o s
      → All (λ n. n.base_tag < key) s.merged_out
  below_key o key s np sound =
      All-weaken (Covered s) (λ n. n.base_tag < key) s.merged_out (λ m c. ground arith)
        sound.covered

  -- The part of the invariant on what has been merged, after one more pair.
  record_merged-IsSound :
      (o : Settings) (side : Side) (key : ℕ) (half : l.Event) (partner : PendingHalf)
      (event : l.Event) (s : MergeState)
      → HasKey o side key half
      → NotPassed key s
      → lookup key (pending_of (other_side side) s) ≡ some partner
      → build_merged
          (ordered_halves side half partner.event).0
          (ordered_halves side half partner.event).1
          key
        ≡ inr event
      → IsSound o s
      → IsSound o (record_merged side key (ordered_halves side half partner.event) event s)
  unfolding record_merged
  record_merged-IsSound o dtc0 key half partner event s k np found built sound = record {
    keyed0 = sound.keyed0;
    keyed1 = All-erase (Keyed o dtc1) key s.pending_dtc1 sound.keyed1;
    disjoint = erase-Disjoint key s.pending_dtc0 s.pending_dtc1 sound.disjoint;
    pairs = All-append (IsPair o) s.merged_out _ sound.pairs (
      record {
        half0 = half;
        half1 = partner.event;
        tag0 = k;
        tag1 = All-lookup (Keyed o dtc1) key partner s.pending_dtc1 found sound.keyed1;
        built = built;
        subs = refl;
      },
      tt,
    );
    ascending = append-Ascending s.merged_out _ (below_key o key s np sound) sound.ascending;
    covered =
        All-append _ s.merged_out _
          (All-weaken _ _ s.merged_out (λ n b. (refl, omega arith)) (below_key o key s np sound))
          ((refl, omega arith), tt);
  }
  record_merged-IsSound o dtc1 key half partner event s k np found built sound = record {
    keyed0 = All-erase (Keyed o dtc0) key s.pending_dtc0 sound.keyed0;
    keyed1 = sound.keyed1;
    disjoint = swap-Disjoint s.pending_dtc1 (erase key s.pending_dtc0) (
        erase-Disjoint key s.pending_dtc1 s.pending_dtc0
          (swap-Disjoint s.pending_dtc0 s.pending_dtc1 sound.disjoint));
    pairs = All-append (IsPair o) s.merged_out _ sound.pairs (
      record {
        half0 = partner.event;
        half1 = half;
        tag0 = All-lookup (Keyed o dtc0) key partner s.pending_dtc0 found sound.keyed0;
        tag1 = k;
        built = built;
        subs = refl;
      },
      tt,
    );
    ascending = append-Ascending s.merged_out _ (below_key o key s np sound) sound.ascending;
    covered =
        All-append _ s.merged_out _
          (All-weaken _ _ s.merged_out (λ n b. (refl, omega arith)) (below_key o key s np sound))
          ((refl, omega arith), tt);
  }

  -- A change of the counts alone.
  pub same-IsSound :
      {o : Settings} (s s' : MergeState)
      → s'.pending_dtc0 ≡ s.pending_dtc0
      → s'.pending_dtc1 ≡ s.pending_dtc1
      → s'.merged_out ≡ s.merged_out
      → s'.have_merged_tag ≡ s.have_merged_tag
      → s'.last_merged_base_tag ≡ s.last_merged_base_tag
      → IsSound o s
      → IsSound o s'
  same-IsSound s s' p0 p1 out have last sound = record {
    keyed0 = rw p0 sound.keyed0;
    keyed1 = rw p1 sound.keyed1;
    disjoint = rw p0 (rw p1 sound.disjoint);
    pairs = rw out sound.pairs;
    ascending = rw out sound.ascending;
    covered = rw out (rw have (rw last sound.covered));
  }

  pub StageStep-IsSound :
      {o : Settings} {side : Side} {half : l.Event} {s : MergeState} {r : MergeError ⊎ ⊤}
      {s' : MergeState}
      → StageStep o side half s r s'
      → IsSound o s
      → IsSound o s'
  StageStep-IsSound {side = dtc0} {s = s} (refused why er es) sound =
      rw es (same-IsSound s _ refl refl refl refl refl sound)
  StageStep-IsSound {side = dtc1} {s = s} (refused why er es) sound =
      rw es (same-IsSound s _ refl refl refl refl refl sound)
  StageStep-IsSound {s = s} (unbuilt why er es) sound =
      rw es (same-IsSound s _ refl refl refl refl refl sound)
  StageStep-IsSound {o = o} {side = side} {half = half} {s = s} (kept key k mine theirs er es)
        sound =
      rw es (keep_half-IsSound o side key half s k theirs sound)
  StageStep-IsSound {o = o} {side = side} {half = half} {s = s}
        (joined key partner event k np mine theirs built er es) sound =
      rw es (record_merged-IsSound o side key half partner event s k np theirs built sound)
