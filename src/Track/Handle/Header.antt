-- ===== src/Track/Handle/Header.antt =====
-- What the header of a subevent adds to the counts and to the file.
use otsdaq_mu2e.Base.{
  ℕ, ◌+◌, ◌%◌, ◌≡◌, ap, ◌∙◌, refl, ◌&&◌, inl, inr, not, ltb, Option, none, some, List, [], ◌∷◌,
  ◌==◌, u64, arith, Bool-cases,
}
use otsdaq_mu2e.Track.Types.{DataBlock, Subevent, Counts, HandlerState, HandlerSettings}
use otsdaq_mu2e.Track.Fragments.{with_counts, words_from, words_in}
use otsdaq_mu2e.Track.Handle.{
  subrun_bit, differ, count_subrun, start_transfer, should_save, save_header, count_link_status,
  count_links, count_header,
}
use otsdaq_mu2e.Track.Handle.Totals.{Grown, Grown-refl, written}

-- The counts that `Grown` speaks of.
abbrev pub data_of : Counts → ℕ × (List ℕ × (List ℕ × List ℕ))
data_of c = (c.total_subevent_bytes, (c.file, (c.fragments_count, c.payload_byte_count)))

pub Grown-after :
    (extra : ℕ) (ws : List ℕ) (bs : List DataBlock) (c d e : Counts)
    → Grown extra ws bs c d
    → data_of e ≡ data_of d
    → Grown extra ws bs c e
Grown-after extra ws bs c d e g k =
    let fragments : e.fragments_count ≡ d.fragments_count = ap (λ x. x.1.1.0) k in
    let payload : e.payload_byte_count ≡ d.payload_byte_count = ap (λ x. x.1.1.1) k in
    record {
      bytes = ap u64 (ap (λ x. x.0) k) ∙ g.bytes;
      file = ap (λ x. x.1.0) k ∙ g.file;
      fragments = λ link h. rw fragments (g.fragments link h);
      payload = λ link h. rw payload (g.payload link h);
      fragments_size = rw fragments g.fragments_size;
      payload_size = rw payload g.payload_size;
    }

pub Grown-before :
    (extra : ℕ) (ws : List ℕ) (bs : List DataBlock) (c d e : Counts)
    → data_of d ≡ data_of c
    → Grown extra ws bs d e
    → Grown extra ws bs c e
Grown-before extra ws bs c d e k g =
    let total : d.total_subevent_bytes ≡ c.total_subevent_bytes = ap (λ x. x.0) k in
    let file : d.file ≡ c.file = ap (λ x. x.1.0) k in
    let fragments : d.fragments_count ≡ c.fragments_count = ap (λ x. x.1.1.0) k in
    let payload : d.payload_byte_count ≡ c.payload_byte_count = ap (λ x. x.1.1.1) k in
    record {
      bytes = rw (← total) g.bytes;
      file = rw (← file) g.file;
      fragments = λ link h. rw (← fragments) (g.fragments link (rw fragments h));
      payload = λ link h. rw (← payload) (g.payload link (rw payload h));
      fragments_size = rw (← fragments) g.fragments_size;
      payload_size = rw (← payload) g.payload_size;
    }

count_subrun_data : (e : Subevent) (c : Counts) → data_of (count_subrun e c) ≡ data_of c
unfolding count_subrun
count_subrun_data e c = elim (Bool-cases (differ (subrun_bit e) c.last_subrun_bit)) [
  | inl d ↦ rw d refl
  | inr d ↦ rw d refl
]

start_transfer_data :
    (o : HandlerSettings) (time : Option ℕ) (s : HandlerState)
    → data_of (start_transfer o time s).counts ≡ data_of s.counts
unfolding start_transfer
start_transfer_data o none s = refl
start_transfer_data o (some time) s = refl

count_link_status_data :
    (o : HandlerSettings) (e : Subevent) (r : ℕ) (c : Counts)
    → data_of (count_link_status o e r c) ≡ data_of c
unfolding count_link_status
count_link_status_data o e r c = elim (Bool-cases (not (ltb 0 (e.link_status r)))) [
  | inl quiet ↦ rw quiet refl
  | inr noisy ↦ rw noisy (elim (Bool-cases (e.link_status r % 2 == 1)) [
    | inr other ↦ rw other refl
    | inl late ↦
        rw late
          (elim (Bool-cases (o.roc_link_enabled r)) [ inl on ↦ rw on refl | inr off ↦ rw off refl ])
  ])
]

count_links_data :
    (o : HandlerSettings) (e : Subevent) (rs : List ℕ) (c : Counts)
    → data_of (count_links o e rs c) ≡ data_of c
unfolding count_links
count_links_data o e [] c = refl
count_links_data o e (r ∷ rs) c =
    count_links_data o e rs (count_link_status o e r c) ∙ count_link_status_data o e r c

-- The words of the header that are saved.
abbrev pub header_words : HandlerSettings → Subevent → List ℕ
header_words o e =
    written (o.save_subevent_headers && should_save o e)
      (written o.has_file (words_from e.raw_header 0 (words_in o.header_size)))

save_header-Grown :
    (o : HandlerSettings) (e : Subevent) (c : Counts)
    → Grown o.header_size (header_words o e) [] c (
        save_header o
          (should_save o e)
          e
          (record c { total_subevent_bytes = u64 (c.total_subevent_bytes + o.header_size) }))
unfolding save_header
save_header-Grown o e c =
    let t = Grown-refl c in
    elim (Bool-cases (o.save_subevent_headers && should_save o e)) [
      | inr skips ↦ rw skips (record {
        bytes = omega arith;
        file = t.file;
        fragments = t.fragments;
        payload = t.payload;
        fragments_size = refl;
        payload_size = refl;
      })
      | inl saves ↦ rw saves (elim (Bool-cases o.has_file) [
        | inr closed ↦ rw closed (record {
          bytes = omega arith;
          file = t.file;
          fragments = t.fragments;
          payload = t.payload;
          fragments_size = refl;
          payload_size = refl;
        })
        | inl open_file ↦ rw open_file (record {
          bytes = omega arith;
          file = refl;
          fragments = t.fragments;
          payload = t.payload;
          fragments_size = refl;
          payload_size = refl;
        })
      ])
    ]

pub count_header-Grown :
    (o : HandlerSettings) (e : Subevent) (s : HandlerState)
    → Grown o.header_size (header_words o e) [] s.counts (count_header o e s).counts
unfolding count_header
count_header-Grown o e s =
    let counted = with_counts (count_subrun e) s in
    let started = start_transfer o counted.counts.transfer_start_time counted in
    let before =
      start_transfer_data o counted.counts.transfer_start_time counted
      ∙ count_subrun_data e s.counts in
    Grown-before _ _ _ _ started.counts _ before (
      Grown-after _ _ _ _ _ _ (save_header-Grown o e started.counts)
        (count_links_data o e o.roc_links _))
