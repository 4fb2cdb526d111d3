-- ===== src/Track/Merged/Rounds.antt =====
-- Merged events, one after another: the check of the tags on the pairs that the merge hands out.
use otsdaq_mu2e.Base.{
  ℕ, suc, ◌+◌, ◌≡◌, ap, ◌∙◌, ◌<◌, refl, Bool, true, false, ◌&&◌, ◌⊎◌, inl, inr, Option, none, some,
  List, [], ◌∷◌, if◌then◌else◌, leb, length, u64, arith, ⊤, All,
}
use otsdaq_mu2e.Merge.Types.{EventLibrary, MergedEvent}
use otsdaq_mu2e.Track.Tag.{
  TagState, TagInput, TagError, expected_sources, stride, use_source_set, check_subevent_tag,
  check_subevent_tags, then_check,
}
use otsdaq_mu2e.Track.Rounds.{RoundOver, IsSynced, AllTag, Fresh, check_subevent_tags-RoundOver}
use otsdaq_mu2e.Track.Types.{
  DataBlock, Subevent, HandlerState, HandlerSettings, HandlerError, bad_tag,
}
use otsdaq_mu2e.Track.Fragments.{
  Handling, then_handle, check_emulation, handle_block, handle_blocks,
}
use otsdaq_mu2e.Track.Handle.{
  tag_input, end_tag, handle_tag, start_transfer, should_save, end_transfer, count_header,
  handle_fragments, handle_subevent,
}
use otsdaq_mu2e.Track.Merged.{handle_merged_subevents, handle_merged_event, handle_merged_events}
use otsdaq_mu2e.Track.Handle.Ended.{handle_blocks-Ended}

-- The tags of a merged event with the arguments of `handleMergedDetachedEvents`.
abbrev pub merged_inputs : HandlerSettings → ℕ → ℕ → List Subevent → List TagInput
merged_inputs o num n [] = []
merged_inputs o num n (e ∷ es) =
    tag_input e (if leb num n && o.even_odd then 1 else 0) (if leb num n then 1 else 0)
    ∷ merged_inputs o num (suc n) es

abbrev pub AllWhole : List Subevent → Type 0
AllWhole = All (λ e. length e.data_blocks ≡ 6)

abbrev tag_result : TagError ⊎ ⊤ → HandlerError ⊎ ⊤
tag_result (inl why) = inl (bad_tag why)
tag_result (inr done) = inr tt

start_transfer-tags :
    (o : HandlerSettings) (time : Option ℕ) (s : HandlerState)
    → (start_transfer o time s).tags ≡ s.tags
unfolding start_transfer
start_transfer-tags o none s = refl
start_transfer-tags o (some time) s = refl

module _ (o : HandlerSettings) (unchecked : o.check_roc_emulator_data ≡ false) where
  handle_blocks-ok :
      (i : TagInput) (save : Bool) (bs : List DataBlock) (s : HandlerState)
      → (handle_blocks o i save bs s).0 ≡ inr tt
  unfolding handle_blocks handle_block check_emulation
  handle_blocks-ok i save [] s = refl
  handle_blocks-ok i save (b ∷ bs) s = rw unchecked (handle_blocks-ok i save bs _)

  -- Six blocks are counted without a throw, and leave the tags alone.
  record Counted (s : HandlerState) (r : Handling) : Type 0 where
    returned : r.0 ≡ inr tt
    tags : r.1.tags ≡ s.tags

  end_counting :
      (s : HandlerState) (r : Handling)
      → Counted s r
      → Counted s (then_handle r (λ t. (inr tt, end_transfer o t)))
  unfolding end_transfer
  end_counting s (inl why, t) k = absurd (let h = k.returned in ground arith)
  end_counting s (inr done, t) k = record { returned = refl; tags = k.tags }

  count_header-tags : (e : Subevent) (s : HandlerState) → (count_header o e s).tags ≡ s.tags
  unfolding count_header
  count_header-tags e s = start_transfer-tags o _ _

  handle_fragments-Counted :
      (i : TagInput) (e : Subevent) (s : HandlerState)
      → length e.data_blocks ≡ 6
      → Counted s (handle_fragments o i e s)
  unfolding handle_fragments
  handle_fragments-Counted i e s six =
      let returned = handle_blocks-ok i (should_save o e) e.data_blocks s in
      let ended = handle_blocks-Ended o i (should_save o e) e.data_blocks s returned in
      rw six (end_counting s _ (record { returned = returned; tags = ended.tags }))

  -- The handler goes as the check of the tags goes.
  record TagsAs (r : (TagError ⊎ ⊤) × TagState) (h : Handling) : Type 0 where
    result : h.0 ≡ tag_result r.0
    tags : h.1.tags ≡ r.1

  then-TagsAs :
      (r : (TagError ⊎ ⊤) × TagState) (h : Handling) (f : TagState → (TagError ⊎ ⊤) × TagState)
      (g : HandlerState → Handling)
      → TagsAs r h
      → ((s : HandlerState) → TagsAs (f s.tags) (g s))
      → TagsAs (then_check r f) (then_handle h g)
  then-TagsAs (inl why, t) (inl what, s) f g k next = record { result = k.result; tags = k.tags }
  then-TagsAs (inl why, t) (inr done, s) f g k next = absurd (let h = k.result in ground arith)
  then-TagsAs (inr done, t) (inl what, s) f g k next = absurd (let h = k.result in ground arith)
  then-TagsAs (inr done, t) (inr fine, s) f g k next = rw (← k.tags) (next s)

  end_tag-TagsAs :
      (i : TagInput) (e : Subevent) (r : (TagError ⊎ ⊤) × TagState) (s : HandlerState)
      → length e.data_blocks ≡ 6
      → TagsAs r (then_handle (end_tag r s) (λ t. handle_fragments o i e (count_header o e t)))
  end_tag-TagsAs i e (inl why, t) s six = record { result = refl; tags = refl }
  end_tag-TagsAs i e (inr done, t) s six =
      let u = record s { tags = t } in
      let counted = handle_fragments-Counted i e (count_header o e u) six in
      record { result = counted.returned; tags = counted.tags ∙ count_header-tags e u }

  handle_subevents-TagsAs :
      (num n : ℕ) (es : List Subevent) (s : HandlerState)
      → AllWhole es
      → TagsAs
          (check_subevent_tags o.tag_settings (merged_inputs o num n es) s.tags)
          (handle_merged_subevents o num n es s)
  unfolding handle_merged_subevents handle_subevent handle_tag check_subevent_tags
  handle_subevents-TagsAs num n [] s six = record { result = refl; tags = refl }
  handle_subevents-TagsAs num n (e ∷ es) s six =
      let i = tag_input e (if leb num n && o.even_odd then 1 else 0) (if leb num n then 1 else 0) in
      then-TagsAs _ _ _ _ (end_tag-TagsAs i e (check_subevent_tag o.tag_settings i s.tags) s six.0)
        (λ t. handle_subevents-TagsAs num (suc n) es t six.1)

module _ ⦃l : EventLibrary⦄ (subevents : l.Event → List Subevent) (o : HandlerSettings) where
  abbrev pub inputs_of : MergedEvent → List TagInput
  inputs_of m = merged_inputs o m.num_subevents_from_dtc0 0 (subevents m.event)

  -- The subevents of a merged event: one with the tag from each source, each with six blocks.
  pub record BringsRound (tag : ℕ) (m : MergedEvent) : Type 0 where
    pub whole : AllWhole (subevents m.event)
    pub tags : AllTag tag (inputs_of m)
    pub fresh : Fresh [] (inputs_of m)
    pub full : length (inputs_of m) ≡ expected_sources o.tag_settings

  abbrev pub IsRound : ℕ → MergedEvent → Type 0
  IsRound tag m = (l.is_corrupt m.event ≡ false) × BringsRound tag m

  -- The tags of the events go up by the stride.
  abbrev pub AreRounds : ℕ → List MergedEvent → Type 0
  AreRounds tag [] = Unit
  AreRounds tag (m ∷ ms) = IsRound tag m × AreRounds (u64 (tag + stride o.tag_settings)) ms

  -- The tag `tag` is expected, from no source so far, and the start is known.
  pub record Expects (tag : ℕ) (t : TagState) : Type 0 where
    pub next : t.next_event_window_tag ≡ tag
    pub none_seen : t.sources_seen ≡ []
    pub synced : IsSynced o.tag_settings t

  -- All is handled, and no mismatch is counted or recorded.
  pub record AllOver (tag : ℕ) (t : TagState) (h : Handling) : Type 0 where
    pub returned : h.0 ≡ inr tt
    pub expects : Expects tag h.1.tags
    pub count : h.1.tags.mismatched_tags_count ≡ t.mismatched_tags_count
    pub jumps : h.1.tags.mismatched_tag_jumps ≡ t.mismatched_tag_jumps

  -- The tag behind those of the events.
  abbrev pub tag_behind : ℕ → List MergedEvent → ℕ
  tag_behind tag [] = tag
  tag_behind tag (m ∷ ms) = tag_behind (u64 (tag + stride o.tag_settings)) ms

  module _ (unchecked : o.check_roc_emulator_data ≡ false)
      (sources : use_source_set o.tag_settings ≡ true)
      (any : 0 < expected_sources o.tag_settings) where
    round_over :
        (tag : ℕ) (is : List TagInput) (t : TagState) (h : Handling)
        → IsSynced o.tag_settings t
        → RoundOver o.tag_settings tag t (check_subevent_tags o.tag_settings is t)
        → TagsAs o unchecked (check_subevent_tags o.tag_settings is t) h
        → AllOver (u64 (tag + stride o.tag_settings)) t h
    round_over tag is t h synced r k = record {
      returned = k.result ∙ ap tag_result r.returned;
      expects = record {
        next = ap (λ u. u.next_event_window_tag) k.tags ∙ r.next;
        none_seen = ap (λ u. u.sources_seen) k.tags ∙ r.none_seen;
        synced = rw k.tags (rw r.synced synced);
      };
      count = ap (λ u. u.mismatched_tags_count) k.tags ∙ r.count;
      jumps = ap (λ u. u.mismatched_tag_jumps) k.tags ∙ r.jumps;
    }

    handle_round :
        (tag : ℕ) (m : MergedEvent) (s : HandlerState)
        → IsRound tag m
        → Expects tag s.tags
        → AllOver (u64 (tag + stride o.tag_settings)) s.tags (handle_merged_event subevents o m s)
    unfolding handle_merged_event
    handle_round tag m s r e = rw r.0 (
        round_over tag (inputs_of m) s.tags _ e.synced
          (check_subevent_tags-RoundOver o.tag_settings tag (inputs_of m) s.tags sources e.synced
            e.next e.none_seen r.1.tags r.1.fresh r.1.full any)
          (handle_subevents-TagsAs o unchecked m.num_subevents_from_dtc0 0 (subevents m.event) _
            r.1.whole))

    then-AllOver :
        (tag last : ℕ) (t : TagState) (h : Handling) (g : HandlerState → Handling)
        → AllOver tag t h
        → ((s : HandlerState) → Expects tag s.tags → AllOver last s.tags (g s))
        → AllOver last t (then_handle h g)
    then-AllOver tag last t (inl why, s) g k next = absurd (let h = k.returned in ground arith)
    then-AllOver tag last t (inr done, s) g k next =
        let rest = next s k.expects in
        record {
          returned = rest.returned;
          expects = rest.expects;
          count = rest.count ∙ k.count;
          jumps = rest.jumps ∙ k.jumps;
        }

    -- Merged events that bring, one after another, the tags that are expected, each once from every
    -- source, in any order, with six blocks in each subevent, are all handled, with no mismatch,
    -- and then the tag behind the last is expected: where the sources of a tag are told apart, the
    -- thread is not told to exit, and emulated data are not checked.
    pub handle_merged_events-AllOver :
        (n tag : ℕ) (ms : List MergedEvent) (s : HandlerState)
        → ((i : ℕ) → o.exits i ≡ false)
        → AreRounds tag ms
        → Expects tag s.tags
        → AllOver (tag_behind tag ms) s.tags (handle_merged_events subevents o n ms s)
    unfolding handle_merged_events
    handle_merged_events-AllOver n tag [] s stays rounds e = record {
      returned = refl;
      expects = e;
      count = refl;
      jumps = refl;
    }
    handle_merged_events-AllOver n tag (m ∷ ms) s stays rounds e = rw (stays n) (
        then-AllOver _ _ s.tags _ _ (handle_round tag m s rounds.0 e)
          (λ t f. handle_merged_events-AllOver (suc n) _ ms t stays rounds.1 f))
