-- ===== src/Merge/Stage/Refined.antt =====
-- What `stageDetachedHalf` promises, without the maps: two pools of halves, by base tag.
use otsdaq_mu2e.Base.{
  ℕ, ◌+◌, ◌≡◌, ◌≢◌, refl, ap, sym, ◌⊎◌, inl, inr, Option, none, some, List, [], ◌∷◌, ◌++◌, ⊤,
}
use otsdaq_mu2e.Base.Assoc.{
  lookup, lookup-insert_self, lookup-insert_ne, HasUniqueKeys, insert-HasUniqueKeys,
  erase-HasUniqueKeys, lookup-erase_self, lookup-erase_ne,
}
use otsdaq_mu2e.Merge.Types.{
  Side, dtc0, dtc1, EventLibrary, Settings, MergeError, PendingHalf, MergedEvent, MergeState,
  pending_of, other_side, count_unmatched,
}
use otsdaq_mu2e.Merge.Stage.{keep_half, record_merged, stage_half, ordered_halves}
use otsdaq_mu2e.Merge.Stage.Step.{
  HasKey, StageStep, refused, unbuilt, kept, joined, stage_half_step,
}

module _ ⦃l : EventLibrary⦄ where
  abbrev pub event_of : Option PendingHalf → Option l.Event
  event_of none = none
  event_of (some ph) = some ph.event

  -- The abstract state: the half that waits on a side for a base tag, and the base tags that have
  -- been merged, in order.
  pub record Pools : Type 0 where
    pub waiting : Side → ℕ → Option l.Event
    pub tags : List ℕ

  abbrev pub base_tags : List MergedEvent → List ℕ
  base_tags [] = []
  base_tags (m ∷ ms) = m.base_tag ∷ base_tags ms

  abbrev pub pools : MergeState → Pools
  pools s = record {
    waiting = λ side k. event_of (lookup k (pending_of side s));
    tags = base_tags s.merged_out;
  }

  -- A side after a change at one base tag.
  pub record Changed (side : Side) (key : ℕ) (half : Option l.Event) (p p' : Pools) : Type 0 where
    pub here : p'.waiting side key ≡ half
    pub elsewhere : (k : ℕ) → k ≢ key → p'.waiting side k ≡ p.waiting side k
    pub others : (k : ℕ) → p'.waiting (other_side side) k ≡ p.waiting (other_side side) k

  -- What may happen when a side delivers a half: it is refused, and nothing changes; it waits,
  -- where no half waits for its base tag; or the half that waits on the other side is taken, and
  -- the base tag is merged.
  pub data PoolStep (o : Settings) (side : Side) (half : l.Event) (r : MergeError ⊎ ⊤)
      (p p' : Pools) : Type 0 where
    refuses :
        (why : MergeError)
        → r ≡ inl why
        → ((d : Side) (k : ℕ) → p'.waiting d k ≡ p.waiting d k)
        → p'.tags ≡ p.tags
        → PoolStep o side half r p p'
    waits :
        (key : ℕ)
        → HasKey o side key half
        → r ≡ inr tt
        → p.waiting side key ≡ none
        → p.waiting (other_side side) key ≡ none
        → Changed side key (some half) p p'
        → p'.tags ≡ p.tags
        → PoolStep o side half r p p'
    pairs :
        (key : ℕ) (partner : l.Event)
        → HasKey o side key half
        → r ≡ inr tt
        → p.waiting side key ≡ none
        → p.waiting (other_side side) key ≡ some partner
        → Changed (other_side side) key none p p'
        → p'.tags ≡ p.tags ++ (key ∷ [])
        → PoolStep o side half r p p'

  pub record HasUniqueHalves (s : MergeState) : Type 0 where
    pub unique0 : HasUniqueKeys s.pending_dtc0
    pub unique1 : HasUniqueKeys s.pending_dtc1

  keep_half-Changed :
      (side : Side) (key : ℕ) (half : l.Event) (s : MergeState)
      → Changed side key (some half) (pools s) (pools (keep_half side key half s))
  unfolding keep_half
  keep_half-Changed dtc0 key half s = record {
    here = ap event_of (lookup-insert_self key _ s.pending_dtc0);
    elsewhere =
        λ k other. ap event_of (lookup-insert_ne key k _ s.pending_dtc0 (λ e. other (sym e)));
    others = λ k. refl;
  }
  keep_half-Changed dtc1 key half s = record {
    here = ap event_of (lookup-insert_self key _ s.pending_dtc1);
    elsewhere =
        λ k other. ap event_of (lookup-insert_ne key k _ s.pending_dtc1 (λ e. other (sym e)));
    others = λ k. refl;
  }

  base_tags-append :
      (ms : List MergedEvent) (m : MergedEvent)
      → base_tags (ms ++ (m ∷ [])) ≡ base_tags ms ++ (m.base_tag ∷ [])
  base_tags-append [] m = refl
  base_tags-append (n ∷ ms) m = rw (base_tags-append ms m) refl

  record_merged-Changed :
      (side : Side) (key : ℕ) (halves : l.Event × l.Event) (event : l.Event) (s : MergeState)
      → HasUniqueHalves s
      → Changed (other_side side) key none (pools s) (pools (record_merged side key halves event s))
  unfolding record_merged
  record_merged-Changed dtc0 key halves event s u = record {
    here = ap event_of (lookup-erase_self key s.pending_dtc1 u.unique1);
    elsewhere = λ k other. ap event_of (lookup-erase_ne key k s.pending_dtc1 (λ e. other (sym e)));
    others = λ k. refl;
  }
  record_merged-Changed dtc1 key halves event s u = record {
    here = ap event_of (lookup-erase_self key s.pending_dtc0 u.unique0);
    elsewhere = λ k other. ap event_of (lookup-erase_ne key k s.pending_dtc0 (λ e. other (sym e)));
    others = λ k. refl;
  }

  record_merged-tags :
      (side : Side) (key : ℕ) (halves : l.Event × l.Event) (event : l.Event) (s : MergeState)
      → (pools (record_merged side key halves event s)).tags ≡ (pools s).tags ++ (key ∷ [])
  unfolding record_merged
  record_merged-tags dtc0 key halves event s = base_tags-append s.merged_out _
  record_merged-tags dtc1 key halves event s = base_tags-append s.merged_out _

  keep_half-tags :
      (side : Side) (key : ℕ) (half : l.Event) (s : MergeState)
      → (pools (keep_half side key half s)).tags ≡ (pools s).tags
  unfolding keep_half
  keep_half-tags dtc0 key half s = refl
  keep_half-tags dtc1 key half s = refl

  count_unmatched-waiting :
      (side d : Side) (k : ℕ) (s : MergeState)
      → (pools (count_unmatched side s)).waiting d k ≡ (pools s).waiting d k
  count_unmatched-waiting dtc0 dtc0 k s = refl
  count_unmatched-waiting dtc0 dtc1 k s = refl
  count_unmatched-waiting dtc1 dtc0 k s = refl
  count_unmatched-waiting dtc1 dtc1 k s = refl

  count_unmatched-tags :
      (side : Side) (s : MergeState) → (pools (count_unmatched side s)).tags ≡ (pools s).tags
  count_unmatched-tags dtc0 s = refl
  count_unmatched-tags dtc1 s = refl

  readings-waiting :
      (d : Side) (k : ℕ) (s : MergeState)
      → (pools (record s { readings = s.readings + 1 })).waiting d k ≡ (pools s).waiting d k
  readings-waiting dtc0 k s = refl
  readings-waiting dtc1 k s = refl

  StageStep-PoolStep :
      {o : Settings} {side : Side} {half : l.Event} {s : MergeState} {r : MergeError ⊎ ⊤}
      {s' : MergeState}
      → StageStep o side half s r s'
      → HasUniqueHalves s
      → PoolStep o side half r (pools s) (pools s')
  StageStep-PoolStep {side = side} {s = s} (refused why er es) u =
      rw es
        (refuses why er (λ d k. count_unmatched-waiting side d k s) (count_unmatched-tags side s))
  StageStep-PoolStep {s = s} (unbuilt why er es) u =
      rw es (refuses why er (λ d k. readings-waiting d k s) refl)
  StageStep-PoolStep {side = side} {half = half} {s = s} (kept key k mine theirs er es) u = rw es (
      waits key k er (ap event_of mine) (ap event_of theirs) (keep_half-Changed side key half s)
        (keep_half-tags side key half s))
  StageStep-PoolStep {side = side} {half = half} {s = s}
        (joined key partner event k np mine theirs built er es) u =
      rw es (
        pairs key partner.event k er (ap event_of mine) (ap event_of theirs)
          (record_merged-Changed side key (ordered_halves side half partner.event) event s u)
          (record_merged-tags side key (ordered_halves side half partner.event) event s))

  keep_half-HasUniqueHalves :
      (side : Side) (key : ℕ) (half : l.Event) (s : MergeState)
      → lookup key (pending_of side s) ≡ none
      → HasUniqueHalves s
      → HasUniqueHalves (keep_half side key half s)
  unfolding keep_half
  keep_half-HasUniqueHalves dtc0 key half s free u = record {
    unique0 = insert-HasUniqueKeys key _ s.pending_dtc0 free u.unique0;
    unique1 = u.unique1;
  }
  keep_half-HasUniqueHalves dtc1 key half s free u = record {
    unique0 = u.unique0;
    unique1 = insert-HasUniqueKeys key _ s.pending_dtc1 free u.unique1;
  }

  record_merged-HasUniqueHalves :
      (side : Side) (key : ℕ) (halves : l.Event × l.Event) (event : l.Event) (s : MergeState)
      → HasUniqueHalves s
      → HasUniqueHalves (record_merged side key halves event s)
  unfolding record_merged
  record_merged-HasUniqueHalves dtc0 key halves event s u = record {
    unique0 = u.unique0;
    unique1 = erase-HasUniqueKeys key s.pending_dtc1 u.unique1;
  }
  record_merged-HasUniqueHalves dtc1 key halves event s u = record {
    unique0 = erase-HasUniqueKeys key s.pending_dtc0 u.unique0;
    unique1 = u.unique1;
  }

  count_unmatched-HasUniqueHalves :
      (side : Side) (s : MergeState) → HasUniqueHalves s → HasUniqueHalves (count_unmatched side s)
  count_unmatched-HasUniqueHalves dtc0 s u = record { unique0 = u.unique0; unique1 = u.unique1 }
  count_unmatched-HasUniqueHalves dtc1 s u = record { unique0 = u.unique0; unique1 = u.unique1 }

  StageStep-HasUniqueHalves :
      {o : Settings} {side : Side} {half : l.Event} {s : MergeState} {r : MergeError ⊎ ⊤}
      {s' : MergeState}
      → StageStep o side half s r s'
      → HasUniqueHalves s
      → HasUniqueHalves s'
  StageStep-HasUniqueHalves {side = side} {s = s} (refused why er es) u =
      rw es (count_unmatched-HasUniqueHalves side s u)
  StageStep-HasUniqueHalves (unbuilt why er es) u =
      rw es (record { unique0 = u.unique0; unique1 = u.unique1 })
  StageStep-HasUniqueHalves {side = side} {half = half} {s = s} (kept key k mine theirs er es) u =
      rw es (keep_half-HasUniqueHalves side key half s mine u)
  StageStep-HasUniqueHalves {side = side} {half = half} {s = s}
        (joined key partner event k np mine theirs built er es) u =
      rw es
        (record_merged-HasUniqueHalves side key (ordered_halves side half partner.event) event s u)

  -- Seen as two pools of halves, in a state in which no key of a map stands twice,
  -- `stageDetachedHalf` does one of the things that the pools allow, and keeps the keys unique: it
  -- refuses the half and changes neither the pools nor what is merged; or lets it wait where no
  -- half with its base tag waits; or takes the half of the other side with its base tag out of the
  -- pool and merges it.
  pub stage_half-PoolStep :
      (o : Settings) (side : Side) (half : l.Event) (s : MergeState)
      → HasUniqueHalves s
      → HasUniqueHalves (stage_half o side half s).1
        × PoolStep o side half
            (stage_half o side half s).0
            (pools s)
            (pools (stage_half o side half s).1)
  stage_half-PoolStep o side half s u =
      let step = stage_half_step o side half s in
      (StageStep-HasUniqueHalves step u, StageStep-PoolStep step u)
