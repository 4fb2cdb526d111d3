-- ===== src/RunPlan/SingleShot.antt =====
-- The plans of `SharedRunPlanSubsystemSingleShotJoin`: how the count of events is split into chunks,
-- and the masks of the plan of a chunk.
pub mod Split
use otsdaq_mu2e.Base.{
  ℕ, zero, suc, ◌+◌, ◌-◌, ◌%◌, Bool, true, false, ◌&&◌, ◌||◌, ◌⊎◌, inl, inr, Option, none, some,
  List, [], ◌∷◌, map, if◌then◌else◌, ◌==◌, ltb, leb, length, take, replicate, bit_and, bit_or,
}
use otsdaq_mu2e.RunPlan.Types.{standard_n, n_coarse, not64}
use otsdaq_mu2e.RunPlan.Plan.{or_places}

-- `shouldSet`
unfoldable pub is_on_slot : ℕ → ℕ → ℕ → Bool
is_on_slot m n i =
    (n == standard_n 0 && ltb i m) || (ltb n (standard_n 0) && ltb (if n == 0 then 0 else i % n) m)

-- `onFineSlots`, of `count` slots from `i` on
unfoldable pub on_fine_slots : ℕ → ℕ → ℕ → ℕ → List ℕ
on_fine_slots m n zero i = []
on_fine_slots m n (suc count) i =
    let rest = on_fine_slots m n count (i + 1) in if is_on_slot m n i then i ∷ rest else rest

-- `chunkCounts` and `chunkCoarseMaskIndices`; `none` stands for the -1 of a fine chunk.
pub record Chunk : Type 0 where
  pub count : ℕ
  pub coarse : Option ℕ

-- `coarseBatchSizes` and `coarseBatchMaskIndices`, from the loop `i` down to 1
abbrev pub coarse_batches : ℕ → List (ℕ × ℕ)
coarse_batches zero = []
coarse_batches (suc i) = (standard_n (suc i), n_coarse - suc i) ∷ coarse_batches i

-- The fine chunk of what remains.
abbrev pub fine_chunk : ℕ → ℕ → Chunk
fine_chunk active remaining = record {
  count = if ltb active remaining then active else remaining;
  coarse = none;
}

-- The first coarse batch that fits, or else the fine chunk.
unfoldable pub fitting_chunk : ℕ → List (ℕ × ℕ) → ℕ → Chunk
fitting_chunk active [] remaining = fine_chunk active remaining
fitting_chunk active ((size, index) ∷ batches) remaining =
    let rest = fitting_chunk active batches remaining in
    if leb size remaining then record { count = size; coarse = some index } else rest

unfoldable pub next_chunk : Bool → ℕ → ℕ → Chunk
next_chunk full active remaining =
    if full
    then fitting_chunk active (coarse_batches n_coarse) remaining
    else fine_chunk active remaining

-- The loop while something remains, for at most `rounds` rounds.
unfoldable pub split_rounds : Bool → ℕ → ℕ → ℕ → List Chunk
split_rounds full active zero remaining = []
split_rounds full active (suc rounds) remaining =
    let chunk = next_chunk full active remaining in
    let rest = split_rounds full active rounds (remaining - chunk.count) in
    if remaining == 0 then [] else chunk ∷ rest

-- Each round takes one event at least.
abbrev pub split_count : Bool → ℕ → ℕ → List Chunk
split_count full active count = split_rounds full active count count

-- The internal errors of `configureSingleShotChunk`.
pub data ChunkError : Type 0 where
  coarse_mask_index coarse_end_index fine_count : ℕ → ChunkError

-- `mask[i] = f(mask[i])`
abbrev pub change_at : ℕ → (ℕ → ℕ) → List ℕ → List ℕ
change_at i f [] = []
change_at zero f (x ∷ xs) = f x ∷ xs
change_at (suc i) f (x ∷ xs) = x ∷ change_at i f xs

-- The single shots at the given fine slots.
abbrev pub arm_slots : ℕ → List ℕ → List ℕ → List ℕ
arm_slots bits [] shots = shots
arm_slots bits (slot ∷ slots) shots =
    arm_slots bits slots (change_at (n_coarse + slot) (λ x. bits) shots)

abbrev pub no_shots : List ℕ
no_shots = replicate or_places 0

-- `chunkAndMasks` and `chunkSingleShotMasks`
abbrev pub ChunkMasks : Type 0
ChunkMasks = List ℕ × List ℕ

-- A coarse chunk keeps the bits at all AND points but the end of its loop.
abbrev pub coarse_armed : ℕ → List ℕ → ℕ → ChunkMasks
coarse_armed bits ands index = (
  change_at (standard_n 0 + (n_coarse - index)) (λ mask. bit_and mask (not64 bits))
      (map (λ mask. bit_or mask bits) ands),
  change_at index (λ x. bits) no_shots,
)

unfoldable pub coarse_masks : ℕ → List ℕ → ℕ → ChunkError ⊎ ChunkMasks
coarse_masks bits ands index =
    let end_index = standard_n 0 + (n_coarse - index) in
    if leb n_coarse index
    then inl (coarse_mask_index index)
    else if leb (length ands) end_index
    then inl (coarse_end_index end_index)
    else inr (coarse_armed bits ands index)

-- A fine chunk clears them at all AND points, and fires at the first slots.
abbrev pub fine_armed : ℕ → List ℕ → List ℕ → ℕ → ChunkMasks
fine_armed bits ands slots count =
    (map (λ mask. bit_and mask (not64 bits)) ands, arm_slots bits (take count slots) no_shots)

unfoldable pub fine_masks : ℕ → List ℕ → List ℕ → ℕ → ChunkError ⊎ ChunkMasks
fine_masks bits ands slots count =
    if ltb count 1 || ltb (length slots) count
    then inl (fine_count count)
    else inr (fine_armed bits ands slots count)

abbrev pub masks_at : ℕ → List ℕ → List ℕ → ℕ → Option ℕ → ChunkError ⊎ ChunkMasks
masks_at bits ands slots count none = fine_masks bits ands slots count
masks_at bits ands slots count (some index) = coarse_masks bits ands index

-- `configureSingleShotChunk`, with `setBitsMask48`, the existing AND masks and the fine slots
abbrev pub configure_chunk : ℕ → List ℕ → List ℕ → Chunk → ChunkError ⊎ ChunkMasks
configure_chunk bits ands slots chunk = masks_at bits ands slots chunk.count chunk.coarse
