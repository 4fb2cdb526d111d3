-- ===== src/RunPlan/Plan/Shape.antt =====
-- The operations of the plans of the two generators, and their operands in order.
use otsdaq_mu2e.Base.{ℕ, zero, suc, ◌+◌, ◌-◌, ◌≡◌, refl, List, [], ◌∷◌, ◌++◌, map, get_or, arith}
use otsdaq_mu2e.RunPlan.Types.{
  n_coarse, Op, set_tag, label, or_singleshot, or_mode, and_mode, loop, heartbeat, marker, wait,
  inc_tag, do_loop, goto_label, OnRequest, OffRequest,
}
use otsdaq_mu2e.RunPlan.Plan.{
  coarse_on, coarse_off, coarse_off_or, fine_on, fine_slot_on, fine_off, fine_slot_off,
  fine_off_and, fine_off_or, event_ops, loop_ends, end_mask, plan_on, plan_off,
}

-- An operation without the operands that the two generators choose.
abbrev pub shape : Op → Op
shape (set_tag n) = set_tag 0
shape (or_singleshot s c v) = or_singleshot 0 0 0
shape (or_mode s c v) = or_mode 0 0 0
shape (and_mode s c v) = and_mode 0 0 0
shape label = label
shape (loop n) = loop n
shape heartbeat = heartbeat
shape marker = marker
shape (wait n u) = wait n u
shape inc_tag = inc_tag
shape do_loop = do_loop
shape goto_label = goto_label

shape-coarse_off_or : (q : OffRequest) (i : ℕ) → shape (coarse_off_or q i) ≡ or_mode 0 0 0
unfolding coarse_off_or
shape-coarse_off_or q i = ground arith

shape-fine_off_and : (q : OffRequest) (i : ℕ) → shape (fine_off_and q i) ≡ and_mode 0 0 0
unfolding fine_off_and
shape-fine_off_and q i = ground arith

shape-fine_off_or : (q : OffRequest) (i : ℕ) → shape (fine_off_or q i) ≡ or_mode 0 0 0
unfolding fine_off_or
shape-fine_off_or q i = ground arith

shape-coarse :
    (q : OnRequest) (q' : OffRequest) (l : ℕ)
    → map shape (coarse_on q l) ≡ map shape (coarse_off q' l)
unfolding coarse_on coarse_off
shape-coarse q q' zero = refl
shape-coarse q q' (suc l) =
    rw (shape-coarse_off_or q' (n_coarse - suc l)) (rw (shape-coarse q q' l) refl)

shape-fine :
    (q : OnRequest) (q' : OffRequest) (n i : ℕ)
    → q.split_number ≡ q'.split_number
    → q.split_units ≡ q'.split_units
    → map shape (fine_on q n i) ≡ map shape (fine_off q' n i)
unfolding fine_on fine_off fine_slot_on fine_slot_off event_ops
shape-fine q q' zero i e f = refl
shape-fine q q' (suc n) i e f =
    rw (shape-fine_off_and q' i)
      (rw (shape-fine_off_or q' i) (rw (shape-fine q q' n (i + 1) e f) (rw e (rw f refl))))

shape-loop_ends :
    (f g : ℕ → ℕ) (n l : ℕ) → map shape (loop_ends f n l) ≡ map shape (loop_ends g n l)
unfolding loop_ends
shape-loop_ends f g zero l = refl
shape-loop_ends f g (suc n) l = rw (shape-loop_ends f g n (l + 1)) refl

map-append : {A B : Type 0} (f : A → B) (xs ys : List A) → map f (xs ++ ys) ≡ map f xs ++ map f ys
map-append f [] ys = refl
map-append f (x ∷ xs) ys = rw (map-append f xs ys) refl

-- For the same duration of an event, the plans that the two generators write have the same
-- operations in the same order: they differ in the operands of SET_TAG and of the operations on
-- mode bits only.
pub plan_on-plan_off :
    (q : OnRequest) (q' : OffRequest)
    → q.split_number ≡ q'.split_number
    → q.split_units ≡ q'.split_units
    → map shape (plan_on q) ≡ map shape (plan_off q')
unfolding plan_on plan_off
plan_on-plan_off q q' e f = simp (
  map-append,
  shape-coarse q q' n_coarse,
  shape-fine q q' 100 0 e f,
  shape-loop_ends (λ i. get_or q.and_masks i 0) (end_mask q') n_coarse 1,
)
