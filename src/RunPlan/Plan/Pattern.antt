-- ===== src/RunPlan/Plan/Pattern.antt =====
-- The operands of a plan, place by place and bit by bit: which events carry the bits of a
-- subsystem, and that those of the others stay.
use otsdaq_mu2e.Base.{
  ℕ, ◌+◌, ◌-◌, ◌*◌, ◌%◌, ◌^◌, ◌≡◌, ◌<◌, Bool, true, not, ◌&&◌, ◌||◌, get_or, arith, Bool-cases, inl,
  inr, if◌then◌else◌, ltb, leb, bit_and, bit_or,
}
use otsdaq_mu2e.RunPlan.Types.{n_coarse, u64, not64, all48, OnRequest}
use otsdaq_mu2e.Base.Bits.{
  bit, bit-bit_and, bit-bit_or, bit-zero, bit_bound, bit-ones, bit-complement, bit_and_le,
}
use otsdaq_mu2e.RunPlan.Plan.{
  field_mask, set_bits_mask, should_clear, should_set, fine_phase, fine_keep, fine_and, fine_or,
}

-- A window of `m` events in a circle of 100 that begins at `offset`: event `i` is in it.
abbrev pub in_window : ℕ → ℕ → ℕ → Bool
in_window m offset i =
    (leb (offset % 100) i && ltb i (offset % 100 + m)) || ltb (i + 100) (offset % 100 + m)

fine_phase_window : (m offset i : ℕ) → i < 100 → ltb (fine_phase offset i) m ≡ in_window m offset i
unfolding fine_phase
fine_phase_window m offset i h = ground arith

-- For N = 100, a fine position sets the bits if and only if it is in the window.
should_set_window :
    (q : OnRequest) (i : ℕ)
    → q.apply_or ≡ true
    → q.n_part ≡ 100
    → i < 100
    → should_set q i ≡ in_window q.m_part q.offset i
unfolding should_set
should_set_window q i a n h = rw a (rw n (ground (arith, fine_phase_window q.m_part q.offset i h)))

should_clear_window :
    (q : OnRequest) (i : ℕ)
    → q.n_part ≡ 100
    → i < 100
    → should_clear q i ≡ not (in_window q.m_part q.offset i)
unfolding should_clear
should_clear_window q i n h = rw n (ground (arith, fine_phase_window q.m_part q.offset i h))

pub bit-not64 : (k x : ℕ) → k < 48 → x < 2 ^ 64 → bit k (bit_and all48 (not64 x)) ≡ 1 - bit k x
bit-not64 k x h g = omega (
  arith,
  bit-bit_and k all48 (not64 x),
  bit-ones 48 k h,
  bit-complement 64 k x (omega arith) (omega arith),
)

pub set_bits_mask_bound : (q : OnRequest) → set_bits_mask q < 2 ^ 64
unfolding set_bits_mask
set_bits_mask_bound q =
    omega (arith, bit_and_le (u64 (q.value * 2 ^ q.start_bit)) (field_mask q.start_bit q.bit_count))

abbrev pub one_if : Bool → ℕ
one_if b = if b then 1 else 0

-- The mode bits after the AND and the OR of a fine position: 1 keeps a bit in the AND.
abbrev pub after_slot : OnRequest → ℕ → ℕ → ℕ
after_slot q i mode = bit_or (bit_and mode (fine_and q i)) (fine_or q i)

pub bit-after_slot :
    (q : OnRequest) (i k mode : ℕ)
    → q.apply_or ≡ true
    → q.n_part ≡ 100
    → i < 100
    → k < 48
    → bit k (set_bits_mask q) ≡ 1
    → bit k (get_or q.or_masks (n_coarse + i) 0) ≡ 0
    → bit k (after_slot q i mode) ≡ one_if (in_window q.m_part q.offset i)
unfolding fine_and fine_keep fine_or
bit-after_slot q i k mode a n h g own free =
    let set = should_set_window q i a n h in
    let clear = should_clear_window q i n h in
    let ormask = get_or q.or_masks (n_coarse + i) 0 in
    let andmask = get_or q.and_masks i 0 in
    let kept = bit_and all48 (not64 (set_bits_mask q)) in
    elim (Bool-cases (in_window q.m_part q.offset i)) [
      | inl e ↦ rw set (
          rw clear (
            rw e (
              omega (
                arith,
                bit-bit_or k (bit_and mode (bit_and andmask all48))
                    (bit_or ormask (set_bits_mask q)),
                bit-bit_or k ormask (set_bits_mask q),
                bit_bound k (bit_and mode (bit_and andmask all48)),
              ))))
      | inr e ↦ rw set (
          rw clear (
            rw e (
              omega (
                arith,
                bit-bit_or k (bit_and mode (bit_and andmask kept)) (bit_or ormask 0),
                bit-bit_or k ormask 0,
                bit-zero k,
                bit-bit_and k mode (bit_and andmask kept),
                bit-bit_and k andmask kept,
                bit-not64 k (set_bits_mask q) g (set_bits_mask_bound q),
              ))))
    ]
