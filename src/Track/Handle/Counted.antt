-- ===== src/Track/Handle/Counted.antt =====
-- A subevent that is handled without a throw.
use otsdaq_mu2e.Base.{
  ℕ, ◌≡◌, ◌≤◌, ap, sym, ◌∙◌, refl, ◌&&◌, ◌⊎◌, inl, inr, [], ◌++◌, ◌==◌, length, arith, ⊤, All,
  Bool-cases,
}
use otsdaq_mu2e.Track.Types.{Subevent, HandlerState, HandlerSettings}
use otsdaq_mu2e.Track.Tag.{TagInput, TagError, TagState, check_subevent_tag}
use otsdaq_mu2e.Track.Fragments.{handle_blocks}
use otsdaq_mu2e.Track.Handle.{
  tag_input, end_tag, handle_tag, should_save, end_transfer, count_header, handle_fragments,
  handle_subevent,
}
use otsdaq_mu2e.Track.Handle.Totals.{Grown, count_all-Grown, Grown-append, written, blocks_words}
use otsdaq_mu2e.Track.Handle.Ended.{then_handle_sound, handle_blocks-Ended}
use otsdaq_mu2e.Track.Handle.Header.{
  data_of, Grown-before, Grown-after, header_words, count_header-Grown,
}

end_tag-counts :
    (r : (TagError ⊎ ⊤) × TagState) (s : HandlerState) → (end_tag r s).1.counts ≡ s.counts
end_tag-counts (inl why, t) s = refl
end_tag-counts (inr done, t) s = refl

handle_fragments_sound :
    (o : HandlerSettings) (i : TagInput) (e : Subevent) (s : HandlerState)
    → (handle_fragments o i e s).0 ≡ inr tt
    → ((handle_blocks o i (should_save o e) e.data_blocks s).0 ≡ inr tt)
      × (handle_fragments o i e s
          ≡ (inr tt, end_transfer o (handle_blocks o i (should_save o e) e.data_blocks s).1))
unfolding handle_fragments
handle_fragments_sound o i e s h = elim (Bool-cases (length e.data_blocks == 6)) [
  | inr other ↦ absurd (ground arith)
  | inl six ↦
      rw six
        (then_handle_sound (handle_blocks o i (should_save o e) e.data_blocks s) _ (ground arith))
]

handle_fragments-Grown :
    (o : HandlerSettings) (i : TagInput) (e : Subevent) (s : HandlerState)
    → All (λ b. 16 ≤ b.byte_count) e.data_blocks
    → (handle_fragments o i e s).0 ≡ inr tt
    → Grown 0
        (written (should_save o e && o.has_file) (blocks_words e.data_blocks))
        e.data_blocks
        s.counts
        (handle_fragments o i e s).1.counts
unfolding end_transfer
handle_fragments-Grown o i e s whole h =
    let parts = handle_fragments_sound o i e s h in
    let ended = handle_blocks-Ended o i (should_save o e) e.data_blocks s parts.0 in
    rw parts.1 (
      Grown-after _ _ _ _ _ _ (count_all-Grown o i (should_save o e) e.data_blocks s.counts whole)
        (ap data_of ended.counts))

-- A subevent whose blocks have at least their header packets, when it is handled without a throw:
-- modulo 2 ^ 64, the bytes have grown by the header and the blocks, the fragments of a link by its
-- blocks, and the payload bytes of a link by those of its blocks, with as many links as before; and
-- the file has grown by the header and the blocks, each if it is to be saved, in their order.
pub handle_subevent-Grown :
    (o : HandlerSettings) (e : Subevent) (tag_offset source_group : ℕ) (s : HandlerState)
    → All (λ b. 16 ≤ b.byte_count) e.data_blocks
    → (handle_subevent o e tag_offset source_group s).0 ≡ inr tt
    → Grown o.header_size
        (header_words o e ++ written (should_save o e && o.has_file) (blocks_words e.data_blocks))
        e.data_blocks
        s.counts
        (handle_subevent o e tag_offset source_group s).1.counts
unfolding handle_subevent handle_tag
handle_subevent-Grown o e tag_offset source_group s whole h =
    let i = tag_input e tag_offset source_group in
    let tagged = handle_tag o i s in
    let parts = then_handle_sound tagged (λ t. handle_fragments o i e (count_header o e t)) h in
    let kept = end_tag-counts (check_subevent_tag o.tag_settings i s.tags) s in
    let header = count_header-Grown o e tagged.1 in
    let blocks =
      handle_fragments-Grown o i e (count_header o e tagged.1) whole
        (sym (ap (λ r. r.0) parts.1) ∙ h) in
    rw parts.1 (
      Grown-before _ _ _ _ _ _ (ap data_of kept)
        (Grown-append _ _ _ [] e.data_blocks _ _ _ header blocks))
