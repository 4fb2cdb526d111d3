-- ===== src/RunPlan/SingleShot/Split.antt =====
-- The chunks of a single shot add up to its count, and each has a plan.
use otsdaq_mu2e.Base.{
  ℕ, zero, suc, ◌+◌, ◌-◌, ◌≡◌, ◌≤◌, ◌<◌, refl, ap, ◌∙◌, Bool, true, false, ◌||◌, inl, inr, Option,
  none, some, List, [], ◌∷◌, map, ltb, leb, length, take, arith, All, Bool-cases, length-replicate,
  ◌==◌,
}
use otsdaq_mu2e.RunPlan.Types.{standard_n, n_coarse}
use otsdaq_mu2e.RunPlan.Plan.{and_places, or_places}
use otsdaq_mu2e.RunPlan.SingleShot.{
  Chunk, coarse_batches, fine_chunk, fitting_chunk, next_chunk, split_rounds, split_count,
  ChunkMasks, change_at, arm_slots, no_shots, coarse_masks, fine_masks, coarse_armed, fine_armed,
  configure_chunk,
}

abbrev pub counts_of : List Chunk → ℕ
counts_of [] = 0
counts_of (c ∷ cs) = c.count + counts_of cs

-- A fine chunk has at most the active slots of a pass; a coarse one is the size of its loop.
abbrev pub FitsAt : ℕ → ℕ → Option ℕ → Type 0
FitsAt active count none = count ≤ active
FitsAt active count (some index) = (index < n_coarse) × (count ≡ standard_n (n_coarse - index))

-- A chunk of what remains.
record FitsIn (active remaining : ℕ) (c : Chunk) : Type 0 where
  some_events : 0 < c.count
  not_more : c.count ≤ remaining
  fits : FitsAt active c.count c.coarse

module _ (active : ℕ) (any : 0 < active) (remaining : ℕ) (left : 0 < remaining) where
  fine_chunk-FitsIn : FitsIn active remaining (fine_chunk active remaining)
  fine_chunk-FitsIn = record {
    some_events = ground arith;
    not_more = ground arith;
    fits = ground arith;
  }

  -- All sizes of the batches are sizes of their loops.
  AreBatches : List (ℕ × ℕ) → Type 0
  AreBatches = All (λ b. (0 < b.0) × (b.1 < n_coarse) × (b.0 ≡ standard_n (n_coarse - b.1)))

  fitting_chunk-FitsIn :
      (batches : List (ℕ × ℕ))
      → AreBatches batches
      → FitsIn active remaining (fitting_chunk active batches remaining)
  unfolding fitting_chunk AreBatches
  fitting_chunk-FitsIn [] ok = fine_chunk-FitsIn
  fitting_chunk-FitsIn ((size, index) ∷ batches) ok = elim (Bool-cases (leb size remaining)) [
    | inl e ↦
        rw e (record { some_events = ok.0.0; not_more = ground arith; fits = (ok.0.1, ok.0.2) })
    | inr e ↦ rw e (fitting_chunk-FitsIn batches ok.1)
  ]

  coarse_batches-AreBatches : AreBatches (coarse_batches n_coarse)
  unfolding AreBatches
  coarse_batches-AreBatches = (
    (omega arith, omega arith, refl),
    (
      (omega arith, omega arith, refl),
      (
        (omega arith, omega arith, refl),
        (
          (omega arith, omega arith, refl),
          (
            (omega arith, omega arith, refl),
            (
              (omega arith, omega arith, refl),
              (
                (omega arith, omega arith, refl),
                ((omega arith, omega arith, refl), ((omega arith, omega arith, refl), tt)),
              ),
            ),
          ),
        ),
      ),
    ),
  )

  next_chunk-FitsIn : (full : Bool) → FitsIn active remaining (next_chunk full active remaining)
  unfolding next_chunk
  next_chunk-FitsIn true = fitting_chunk-FitsIn (coarse_batches n_coarse) coarse_batches-AreBatches
  next_chunk-FitsIn false = fine_chunk-FitsIn

-- Masks of the sizes that a plan has places for.
pub record HasPlan (bits : ℕ) (ands slots : List ℕ) (c : Chunk) : Type 0 where
  pub masks : ChunkMasks
  pub made : configure_chunk bits ands slots c ≡ inr masks
  pub ands_size : length masks.0 ≡ and_places
  pub shots_size : length masks.1 ≡ or_places

length-map : (f : ℕ → ℕ) (xs : List ℕ) → length (map f xs) ≡ length xs
length-map f [] = refl
length-map f (x ∷ xs) = ap suc (length-map f xs)

length-change_at : (i : ℕ) (f : ℕ → ℕ) (xs : List ℕ) → length (change_at i f xs) ≡ length xs
length-change_at i f [] = refl
length-change_at zero f (x ∷ xs) = refl
length-change_at (suc i) f (x ∷ xs) = ap suc (length-change_at i f xs)

length-arm_slots :
    (bits : ℕ) (slots shots : List ℕ) → length (arm_slots bits slots shots) ≡ length shots
length-arm_slots bits [] shots = refl
length-arm_slots bits (slot ∷ slots) shots =
    length-arm_slots bits slots (change_at (n_coarse + slot) (λ x. bits) shots)
    ∙ length-change_at (n_coarse + slot) (λ x. bits) shots

module _ (bits : ℕ) (ands slots : List ℕ) (size : length ands ≡ and_places) where
  fine_masks-HasPlan :
      (count : ℕ)
      → 0 < count
      → count ≤ length slots
      → HasPlan bits ands slots (record { count = count; coarse = none })
  unfolding fine_masks
  fine_masks-HasPlan count some_events few =
      let fits : (ltb count 1 || ltb (length slots) count) ≡ false = ground arith in
      record {
        masks = fine_armed bits ands slots count;
        made = rw fits refl;
        ands_size = length-map _ ands ∙ size;
        shots_size =
            length-arm_slots bits (take count slots) no_shots ∙ length-replicate or_places 0;
      }

  coarse_masks-HasPlan :
      (count index : ℕ)
      → index < n_coarse
      → HasPlan bits ands slots (record { count = count; coarse = some index })
  unfolding coarse_masks and_places
  coarse_masks-HasPlan count index low =
      let known : leb n_coarse index ≡ false = ground arith in
      let inside : leb (length ands) (standard_n 0 + (n_coarse - index)) ≡ false = ground arith in
      record {
        masks = coarse_armed bits ands index;
        made = rw known (rw inside refl);
        ands_size = length-change_at _ _ _ ∙ (length-map _ ands ∙ size);
        shots_size = length-change_at index (λ x. bits) no_shots ∙ length-replicate or_places 0;
      }

  masks_at-HasPlan :
      (count : ℕ) (coarse : Option ℕ)
      → 0 < count
      → FitsAt (length slots) count coarse
      → HasPlan bits ands slots (record { count = count; coarse = coarse })
  masks_at-HasPlan count none some_events fits = fine_masks-HasPlan count some_events fits
  masks_at-HasPlan count (some index) some_events fits = coarse_masks-HasPlan count index fits.0

  -- The chunks of what remains, in enough rounds.
  split_rounds_lem :
      (full : Bool) (rounds remaining : ℕ)
      → 0 < length slots
      → remaining ≤ rounds
      → (counts_of (split_rounds full (length slots) rounds remaining) ≡ remaining)
        × All (HasPlan bits ands slots) (split_rounds full (length slots) rounds remaining)
  unfolding split_rounds
  split_rounds_lem full zero remaining any enough = (omega arith, tt)
  split_rounds_lem full (suc rounds) remaining any enough = elim (Bool-cases (remaining == 0)) [
    | inl e ↦ rw e (ground arith, tt)
    | inr e ↦
        let chunk = next_chunk full (length slots) remaining in
        let fits = next_chunk-FitsIn (length slots) any remaining (ground arith) full in
        let few = fits.not_more in
        let some_events = fits.some_events in
        let rest = split_rounds_lem full rounds (remaining - chunk.count) any (omega arith) in
        rw e (
          (let sum = rest.0 in omega arith),
          (masks_at-HasPlan chunk.count chunk.coarse fits.some_events fits.fits, rest.1),
        )
  ]

  -- Where at least one fine slot is on, and the existing AND masks have the size of a plan: the
  -- chunks of a single shot of any count add up to this count, and `configureSingleShotChunk` throws
  -- for none of them, but gives masks of the sizes of a plan.
  pub split_count_lem :
      (full : Bool) (count : ℕ)
      → 0 < length slots
      → (counts_of (split_count full (length slots) count) ≡ count)
        × All (HasPlan bits ands slots) (split_count full (length slots) count)
  split_count_lem full count any = split_rounds_lem full count count any (omega arith)
