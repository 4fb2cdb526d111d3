-- ===== src/Merge/Build/Laws.antt =====
-- What `buildMergedDetachedEvent` returns, over a DTC library that keeps the bytes it is given.
use otsdaq_mu2e.Base.{
  ℕ, zero, suc, ◌+◌, ◌-◌, ◌^◌, ◌≡◌, ◌≤◌, ◌<◌, refl, ◌∙◌, false, ◌||◌, inl, inr, List, [], ◌∷◌, ◌++◌,
  length, length-append, take, drop, ltb, leb, arith, Bool-cases,
}
use otsdaq_mu2e.Merge.Types.{SubHeader, EventHeader, EventLibrary}
use otsdaq_mu2e.Merge.Build.{
  body_size, body_bytes, merged_size, merged_header, assemble, checked_event, with_first_sub,
  build_merged,
}

module _ {ℓ} {A : Type ℓ} where
  length-take : (n : ℕ) (xs : List A) → n ≤ length xs → length (take n xs) ≡ n
  length-take zero xs h = refl
  length-take (suc n) [] h = absurd (omega arith)
  length-take (suc n) (x ∷ xs) h = omega (arith, length-take n xs (omega arith))

  length-drop : (n : ℕ) (xs : List A) → length (drop n xs) ≡ length xs - n
  length-drop zero xs = omega arith
  length-drop (suc n) [] = omega arith
  length-drop (suc n) (x ∷ xs) = omega (arith, length-drop n xs)

  take_all : (n : ℕ) (xs : List A) → length xs ≡ n → take n xs ≡ xs
  take_all zero [] h = refl
  take_all zero (x ∷ xs) h = absurd (omega arith)
  take_all (suc n) [] h = refl
  take_all (suc n) (x ∷ xs) h = rw (take_all n xs (omega arith)) refl

  drop-append : (n : ℕ) (xs ys : List A) → length xs ≡ n → drop n (xs ++ ys) ≡ ys
  drop-append zero [] ys h = refl
  drop-append zero (x ∷ xs) ys h = absurd (omega arith)
  drop-append (suc n) [] ys h = absurd (omega arith)
  drop-append (suc n) (x ∷ xs) ys h = drop-append n xs ys (omega arith)

-- What the merge relies on: an event header has a fixed size, the buffer of an event holds all its
-- bytes, and an event that is set up over a buffer of the size its header gives has that buffer
-- and that size.
pub record LibraryLaws (l : EventLibrary) : Type 0 where
  pub length-header_bytes : (h : EventHeader) → length (l.header_bytes h) ≡ l.header_size
  pub buffer_full : (e : l.Event) → l.byte_count e ≤ length (l.buffer e)
  pub buffer-set_up :
      (h : EventHeader) (bytes : List ℕ)
      → length bytes ≡ h.inclusive_event_byte_count
      → l.buffer (l.set_up h bytes) ≡ bytes
  pub byte_count-set_up :
      (h : EventHeader) (bytes : List ℕ)
      → length bytes ≡ h.inclusive_event_byte_count
      → h.inclusive_event_byte_count < 2 ^ 24
      → l.byte_count (l.set_up h bytes) ≡ h.inclusive_event_byte_count

module _ ⦃l : EventLibrary⦄ where
  -- What the caller gets: the bytes of both halves in order, and an event that fits its header.
  pub record IsJoined (half0 half1 event : l.Event) : Type 0 where
    pub bodies : body_bytes event ≡ body_bytes half0 ++ body_bytes half1
    pub bytes : l.byte_count event ≡ merged_size half0 half1
    pub fits : merged_size half0 half1 < 2 ^ 24
    pub intact : l.is_corrupt event ≡ false

  length-body_bytes :
      (e : l.Event)
      → LibraryLaws l
      → l.header_size ≤ l.byte_count e
      → length (body_bytes e) ≡ body_size e
  unfolding body_bytes body_size
  length-body_bytes e laws h =
      length-take _ (drop l.header_size (l.buffer e))
        (omega (arith, length-drop l.header_size (l.buffer e), laws.buffer_full e))

  set_up_bodies :
      (hdr : EventHeader) (body : List ℕ)
      → LibraryLaws l
      → length (l.header_bytes hdr ++ body) ≡ hdr.inclusive_event_byte_count
      → l.byte_count (l.set_up hdr (l.header_bytes hdr ++ body)) ≡ hdr.inclusive_event_byte_count
      → length body ≡ hdr.inclusive_event_byte_count - l.header_size
      → body_bytes (l.set_up hdr (l.header_bytes hdr ++ body)) ≡ body
  unfolding body_bytes body_size
  set_up_bodies hdr body laws whole count rest = rw count (
      rw (laws.buffer-set_up hdr (l.header_bytes hdr ++ body) whole) (
        rw (drop-append l.header_size (l.header_bytes hdr) body (laws.length-header_bytes hdr))
          (take_all _ body rest)))

  -- The event that is set up over a header and the bodies of the halves.
  set_up-IsJoined :
      (half0 half1 : l.Event) (base : ℕ) (hdr : EventHeader)
      → LibraryLaws l
      → l.header_size ≤ l.byte_count half0
      → l.header_size ≤ l.byte_count half1
      → hdr.inclusive_event_byte_count ≡ merged_size half0 half1
      → merged_size half0 half1 < 2 ^ 24
      → l.is_corrupt (l.set_up hdr (l.header_bytes hdr ++ (body_bytes half0 ++ body_bytes half1)))
        ≡ false
      → IsJoined half0 half1
          (l.set_up hdr (l.header_bytes hdr ++ (body_bytes half0 ++ body_bytes half1)))
  unfolding merged_size
  set_up-IsJoined half0 half1 base hdr laws big0 big1 size fits intact =
      let body = body_bytes half0 ++ body_bytes half1 in
      let long : length body ≡ body_size half0 + body_size half1 = omega (
        arith,
        length-append (body_bytes half0) (body_bytes half1),
        length-body_bytes half0 laws big0,
        length-body_bytes half1 laws big1,
      ) in
      let whole : length (l.header_bytes hdr ++ body) ≡ hdr.inclusive_event_byte_count =
        omega (arith, length-append (l.header_bytes hdr) body, laws.length-header_bytes hdr) in
      let count = laws.byte_count-set_up hdr (l.header_bytes hdr ++ body) whole (omega arith) in
      record {
        bodies = set_up_bodies hdr body laws whole count (omega arith);
        bytes = count ∙ size;
        fits = fits;
        intact = intact;
      }

  checked_event-IsJoined :
      (half0 half1 : l.Event) (base : ℕ) (first : SubHeader) (event : l.Event)
      → LibraryLaws l
      → l.header_size ≤ l.byte_count half0
      → l.header_size ≤ l.byte_count half1
      → checked_event half0 half1 base first ≡ inr event
      → IsJoined half0 half1 event
  unfolding checked_event assemble merged_header
  checked_event-IsJoined half0 half1 base first event laws big0 big1 h =
      elim (Bool-cases (leb (2 ^ 24) (merged_size half0 half1))) [
        | inl e ↦ absurd (ground arith)
        | inr e ↦ elim (Bool-cases (l.is_corrupt (assemble half0 half1 base first))) [
          | inl f ↦ absurd (ground arith)
          | inr f ↦
              let same : assemble half0 half1 base first ≡ event = ground arith in
              rw (← same) (set_up-IsJoined half0 half1 base _ laws big0 big1 refl (ground arith) f)
        ]
      ]

  with_first_sub-IsJoined :
      (subs : List SubHeader) (half0 half1 : l.Event) (base : ℕ) (event : l.Event)
      → LibraryLaws l
      → l.header_size ≤ l.byte_count half0
      → l.header_size ≤ l.byte_count half1
      → with_first_sub subs half0 half1 base ≡ inr event
      → IsJoined half0 half1 event
  unfolding with_first_sub
  with_first_sub-IsJoined [] half0 half1 base event laws big0 big1 h = absurd (ground arith)
  with_first_sub-IsJoined (first ∷ subs) half0 half1 base event laws big0 big1 h =
      checked_event-IsJoined half0 half1 base first event laws big0 big1 h

  -- An event that `buildMergedDetachedEvent` returns, over a DTC library with the laws above, holds
  -- the bytes of the half of DTC_0 behind its event header and then those of DTC_1; its size is
  -- that of one header and both bodies, and fits in 24 bits; and it is not corrupt.
  pub build_merged-IsJoined :
      (half0 half1 : l.Event) (base : ℕ) (event : l.Event)
      → LibraryLaws l
      → build_merged half0 half1 base ≡ inr event
      → IsJoined half0 half1 event
  unfolding build_merged
  build_merged-IsJoined half0 half1 base event laws h =
      elim (Bool-cases
        (ltb (l.byte_count half0) l.header_size || ltb (l.byte_count half1) l.header_size)) [
          | inl e ↦ absurd (ground arith)
          | inr e ↦
              with_first_sub-IsJoined (l.sub_headers half0) half0 half1 base event laws
                (ground arith) (ground arith) (ground arith)
        ]
