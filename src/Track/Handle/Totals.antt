-- ===== src/Track/Handle/Totals.antt =====
-- What a subevent adds to the counts and to the file.
use otsdaq_mu2e.Base.{
  ℕ, zero, suc, ◌+◌, ◌-◌, ◌≡◌, ◌≤◌, ◌<◌, ap, sym, ◌∙◌, refl, Bool, true, false, ◌&&◌, inl, inr,
  List, [], ◌∷◌, ◌++◌, if◌then◌else◌, ◌==◌, length, get_or, u64, arith, All, Bool-cases,
  append_none,
}
use mathlib.Core.List.{append_assoc}
use otsdaq_mu2e.Track.Types.{DataBlock, Counts, HandlerSettings, add_at}
use otsdaq_mu2e.Track.Tag.{TagInput}
use otsdaq_mu2e.Track.Fragments.{
  words_from, words_in, payload_word, payload_delta, count_block, save_payload,
}

-- What a block adds to the file: its header packet and its payload.
abbrev pub block_words : DataBlock → List ℕ
block_words b = words_from b.raw 0 4 ++ words_from (payload_word b) 0 (words_in (b.byte_count - 16))

abbrev pub blocks_words : List DataBlock → List ℕ
blocks_words [] = []
blocks_words (b ∷ bs) = block_words b ++ blocks_words bs

abbrev pub bytes_of : List DataBlock → ℕ
bytes_of [] = 0
bytes_of (b ∷ bs) = b.byte_count + bytes_of bs

-- The blocks of a link, and the bytes of their payloads.
abbrev pub fragments_on : ℕ → List DataBlock → ℕ
fragments_on link [] = 0
fragments_on link (b ∷ bs) = (if b.link_id == link then 1 else 0) + fragments_on link bs

abbrev pub payload_on : ℕ → List DataBlock → ℕ
payload_on link [] = 0
payload_on link (b ∷ bs) = (if b.link_id == link then b.byte_count - 16 else 0) + payload_on link bs

-- The counts `d` are `c`, `extra` bytes and the blocks, modulo 2 ^ 64, and the file has grown by
-- `ws`.
pub record Grown (extra : ℕ) (ws : List ℕ) (bs : List DataBlock) (c d : Counts) : Type 0 where
  pub bytes : u64 d.total_subevent_bytes ≡ u64 (c.total_subevent_bytes + extra + bytes_of bs)
  pub file : d.file ≡ c.file ++ ws
  pub fragments :
      (link : ℕ)
      → link < length c.fragments_count
      → u64 (get_or d.fragments_count link 0)
        ≡ u64 (get_or c.fragments_count link 0 + fragments_on link bs)
  pub payload :
      (link : ℕ)
      → link < length c.payload_byte_count
      → u64 (get_or d.payload_byte_count link 0)
        ≡ u64 (get_or c.payload_byte_count link 0 + payload_on link bs)
  pub fragments_size : length d.fragments_count ≡ length c.fragments_count
  pub payload_size : length d.payload_byte_count ≡ length c.payload_byte_count

get_or-add_at :
    (link at n : ℕ) (xs : List ℕ)
    → at < length xs
    → u64 (get_or (add_at link n xs) at 0) ≡ u64 (get_or xs at 0 + (if link == at then n else 0))
get_or-add_at link at n [] h = absurd (omega arith)
get_or-add_at zero zero n (x ∷ xs) h = omega arith
get_or-add_at zero (suc at) n (x ∷ xs) h = ground arith
get_or-add_at (suc link) zero n (x ∷ xs) h = ground arith
get_or-add_at (suc link) (suc at) n (x ∷ xs) h =
    let rest = get_or-add_at link at n xs (omega arith) in ground arith

length-add_at : (link n : ℕ) (xs : List ℕ) → length (add_at link n xs) ≡ length xs
length-add_at link n [] = refl
length-add_at zero n (x ∷ xs) = refl
length-add_at (suc link) n (x ∷ xs) = ap suc (length-add_at link n xs)

abbrev pub written : Bool → List ℕ → List ℕ
written writes ws = if writes then ws else []

pub Grown-refl : (c : Counts) → Grown 0 [] [] c c
Grown-refl c = record {
  bytes = omega arith;
  file = sym (append_none c.file);
  fragments = λ link h. omega arith;
  payload = λ link h. omega arith;
  fragments_size = refl;
  payload_size = refl;
}

bytes_of-append : (hs bs : List DataBlock) → bytes_of (hs ++ bs) ≡ bytes_of hs + bytes_of bs
bytes_of-append [] bs = omega arith
bytes_of-append (h ∷ hs) bs = omega (arith, bytes_of-append hs bs)

fragments_on-append :
    (link : ℕ) (hs bs : List DataBlock)
    → fragments_on link (hs ++ bs) ≡ fragments_on link hs + fragments_on link bs
fragments_on-append link [] bs = omega arith
fragments_on-append link (h ∷ hs) bs = omega (arith, fragments_on-append link hs bs)

payload_on-append :
    (link : ℕ) (hs bs : List DataBlock)
    → payload_on link (hs ++ bs) ≡ payload_on link hs + payload_on link bs
payload_on-append link [] bs = omega arith
payload_on-append link (h ∷ hs) bs = omega (arith, payload_on-append link hs bs)

pub Grown-append :
    (extra : ℕ) (ws vs : List ℕ) (hs bs : List DataBlock) (c d e : Counts)
    → Grown extra ws hs c d
    → Grown 0 vs bs d e
    → Grown extra (ws ++ vs) (hs ++ bs) c e
Grown-append extra ws vs hs bs c d e f g = record {
  bytes = (let x = f.bytes in let y = g.bytes in omega (arith, bytes_of-append hs bs));
  file = g.file ∙ (ap (λ l. l ++ vs) f.file ∙ append_assoc c.file ws vs);
  fragments = λ link h.
      (let x = f.fragments link h in
        let y = g.fragments link (let z = f.fragments_size in omega arith) in
        omega (arith, fragments_on-append link hs bs));
  payload = λ link h.
      (let x = f.payload link h in
        let y = g.payload link (let z = f.payload_size in omega arith) in
        omega (arith, payload_on-append link hs bs));
  fragments_size = g.fragments_size ∙ f.fragments_size;
  payload_size = g.payload_size ∙ f.payload_size;
}

Grown-block :
    (o : HandlerSettings) (i : TagInput) (save : Bool) (b : DataBlock) (c : Counts)
    → 16 ≤ b.byte_count
    → Grown 0
        (written (save && o.has_file) (block_words b))
        (b ∷ [])
        c
        (save_payload o save b (count_block o i save b c))
unfolding save_payload count_block
Grown-block o i save b c whole =
    let n : (link : ℕ)
        → link < length c.fragments_count
        → u64 (get_or (add_at b.link_id 1 c.fragments_count) link 0)
          ≡ u64 (get_or c.fragments_count link 0 + fragments_on link (b ∷ [])) =
      λ link h. (let x = get_or-add_at b.link_id link 1 c.fragments_count h in ground arith) in
    let p : (link : ℕ)
        → link < length c.payload_byte_count
        → u64 (get_or (add_at b.link_id (payload_delta b) c.payload_byte_count) link 0)
          ≡ u64 (get_or c.payload_byte_count link 0 + payload_on link (b ∷ [])) =
      λ link h.
        (let x = get_or-add_at b.link_id link (payload_delta b) c.payload_byte_count h in
          ground arith) in
    let size = length-add_at b.link_id 1 c.fragments_count in
    let bytes = length-add_at b.link_id (payload_delta b) c.payload_byte_count in
    elim (Bool-cases (save && o.has_file)) [
      | inl w ↦ rw w (record {
        bytes = omega arith;
        file = append_assoc c.file (words_from b.raw 0 4) _;
        fragments = n;
        payload = p;
        fragments_size = size;
        payload_size = bytes;
      })
      | inr w ↦ rw w (record {
        bytes = omega arith;
        file = sym (append_none c.file);
        fragments = n;
        payload = p;
        fragments_size = size;
        payload_size = bytes;
      })
    ]

written-cons :
    (writes : Bool) (b : DataBlock) (bs : List DataBlock)
    → written writes (block_words b) ++ written writes (blocks_words bs)
      ≡ written writes (blocks_words (b ∷ bs))
written-cons true b bs = refl
written-cons false b bs = refl

-- The counts after the blocks, where no check throws.
abbrev pub count_all : HandlerSettings → TagInput → Bool → List DataBlock → Counts → Counts
count_all o i save [] c = c
count_all o i save (b ∷ bs) c =
    count_all o i save bs (save_payload o save b (count_block o i save b c))

pub count_all-Grown :
    (o : HandlerSettings) (i : TagInput) (save : Bool) (bs : List DataBlock) (c : Counts)
    → All (λ b. 16 ≤ b.byte_count) bs
    → Grown 0 (written (save && o.has_file) (blocks_words bs)) bs c (count_all o i save bs c)
count_all-Grown o i save [] c whole = elim (Bool-cases (save && o.has_file)) [
  | inl w ↦ rw w (Grown-refl c)
  | inr w ↦ rw w (Grown-refl c)
]
count_all-Grown o i save (b ∷ bs) c whole = rw (← written-cons (save && o.has_file) b bs) (
    Grown-append 0 _ _ (b ∷ []) bs c _ _ (Grown-block o i save b c whole.0)
      (count_all-Grown o i save bs _ whole.1))
