-- ===== src/Track/Handle/Ended.antt =====
-- Blocks that are handled without a throw.
use otsdaq_mu2e.Base.{
  ◌%◌, ◌^◌, ◌≡◌, ap, sym, ◌∙◌, refl, Bool, inl, inr, List, [], ◌∷◌, arith, Bool-cases,
}
use otsdaq_mu2e.Track.Types.{DataBlock, Counts, HandlerState, HandlerSettings}
use otsdaq_mu2e.Track.Tag.{TagInput}
use otsdaq_mu2e.Track.Emulator.{Checking, check_emulator_block}
use otsdaq_mu2e.Track.Fragments.{
  Handling, then_handle, with_counts, count_block, end_emulation, check_emulation, save_payload,
  handle_block, handle_blocks,
}
use otsdaq_mu2e.Track.Handle.Totals.{count_all}

pub then_handle_sound :
    (r : Handling) (f : HandlerState → Handling)
    → (then_handle r f).0 ≡ inr tt
    → (r.0 ≡ inr tt) × (then_handle r f ≡ f r.1)
then_handle_sound (inl why, s) f h = absurd (ground arith)
then_handle_sound (inr done, s) f h = (refl, refl)

-- The check of the emulated data leaves the counts and the tags alone.
pub record Untouched (s t : HandlerState) : Type 0 where
  pub counts : t.counts ≡ s.counts
  pub tags : t.tags ≡ s.tags

end_emulation-Untouched : (r : Checking) (s : HandlerState) → Untouched s (end_emulation r s).1
end_emulation-Untouched (inl why, t) s = record { counts = refl; tags = refl }
end_emulation-Untouched (inr done, t) s = record { counts = refl; tags = refl }

pub check_emulation-Untouched :
    (o : HandlerSettings) (i : TagInput) (b : DataBlock) (s : HandlerState)
    → Untouched s (check_emulation o i b s).1
unfolding check_emulation
check_emulation-Untouched o i b s = elim (Bool-cases o.check_roc_emulator_data) [
  | inl on ↦
      rw on
        (end_emulation-Untouched (check_emulator_block (i.source_dtc_id % 2 ^ 8) b s.emulator) s)
  | inr off ↦ rw off (record { counts = refl; tags = refl })
]

-- The state after the blocks has the counts `c` and the tags of the state before.
pub record Ended (s : HandlerState) (c : Counts) (t : HandlerState) : Type 0 where
  pub counts : t.counts ≡ c
  pub tags : t.tags ≡ s.tags

handle_block-Ended :
    (o : HandlerSettings) (i : TagInput) (save : Bool) (b : DataBlock) (s : HandlerState)
    → (handle_block o i save b s).0 ≡ inr tt
    → Ended s
        (save_payload o save b (count_block o i save b s.counts))
        (handle_block o i save b s).1
unfolding handle_block
handle_block-Ended o i save b s h =
    let t = with_counts (count_block o i save b) s in
    let kept = check_emulation-Untouched o i b t in
    let last = (then_handle_sound (check_emulation o i b t) _ h).1 in
    rw last (record { counts = ap (save_payload o save b) kept.counts; tags = kept.tags })

pub handle_blocks-Ended :
    (o : HandlerSettings) (i : TagInput) (save : Bool) (bs : List DataBlock) (s : HandlerState)
    → (handle_blocks o i save bs s).0 ≡ inr tt
    → Ended s (count_all o i save bs s.counts) (handle_blocks o i save bs s).1
unfolding handle_blocks
handle_blocks-Ended o i save [] s h = record { counts = refl; tags = refl }
handle_blocks-Ended o i save (b ∷ bs) s h =
    let parts = then_handle_sound (handle_block o i save b s) (handle_blocks o i save bs) h in
    let first = handle_block-Ended o i save b s parts.0 in
    let rest =
      handle_blocks-Ended o i save bs (handle_block o i save b s).1
        (sym (ap (λ r. r.0) parts.1) ∙ h) in
    rw parts.1 (record {
      counts = rest.counts ∙ ap (count_all o i save bs) first.counts;
      tags = rest.tags ∙ first.tags;
    })
