-- ===== src/RunPlan/Plan/Operands.antt =====
-- The operands of the AND and OR operations of a plan, in the order in which the comparison with
-- the CFO reads them back: a subsystem that joins or leaves changes its own bits only.
use otsdaq_mu2e.Base.{
  ℕ, zero, suc, ◌+◌, ◌-◌, ◌≡◌, refl, ap, List, [], ◌∷◌, ◌++◌, map, get_or, arith, length,
}
use otsdaq_mu2e.RunPlan.Types.{
  standard_n, Op, set_tag, label, or_singleshot, or_mode, and_mode, loop, heartbeat, marker, wait,
  inc_tag, do_loop, goto_label,
}
use otsdaq_mu2e.Base.Bits.{bit}
use otsdaq_mu2e.RunPlan.Plan.{loop_ends}

unfoldable pub and_operands : List Op → List ℕ
and_operands [] = []
and_operands (and_mode s c v ∷ ops) = v ∷ and_operands ops
and_operands (or_mode s c v ∷ ops) = and_operands ops
and_operands (heartbeat ∷ ops) = and_operands ops
and_operands (set_tag n ∷ ops) = and_operands ops
and_operands (label ∷ ops) = and_operands ops
and_operands (or_singleshot s c v ∷ ops) = and_operands ops
and_operands (loop n ∷ ops) = and_operands ops
and_operands (marker ∷ ops) = and_operands ops
and_operands (wait n u ∷ ops) = and_operands ops
and_operands (inc_tag ∷ ops) = and_operands ops
and_operands (do_loop ∷ ops) = and_operands ops
and_operands (goto_label ∷ ops) = and_operands ops

unfoldable pub or_operands : List Op → List ℕ
or_operands [] = []
or_operands (or_mode s c v ∷ ops) = v ∷ or_operands ops
or_operands (and_mode s c v ∷ ops) = or_operands ops
or_operands (heartbeat ∷ ops) = or_operands ops
or_operands (set_tag n ∷ ops) = or_operands ops
or_operands (label ∷ ops) = or_operands ops
or_operands (or_singleshot s c v ∷ ops) = or_operands ops
or_operands (loop n ∷ ops) = or_operands ops
or_operands (marker ∷ ops) = or_operands ops
or_operands (wait n u ∷ ops) = or_operands ops
or_operands (inc_tag ∷ ops) = or_operands ops
or_operands (do_loop ∷ ops) = or_operands ops
or_operands (goto_label ∷ ops) = or_operands ops

-- `f` at the places from `i` on.
abbrev pub at_places : (ℕ → ℕ) → ℕ → ℕ → List ℕ
at_places f zero i = []
at_places f (suc n) i = f i ∷ at_places f n (i + 1)

at_places-shift : (f : ℕ → ℕ) (n i : ℕ) → at_places f n (i + 1) ≡ at_places (λ j. f (suc j)) n i
at_places-shift f zero i = refl
at_places-shift f (suc n) i =
    let e : i + 1 ≡ suc i = omega arith in
    rw (at_places-shift f n (i + 1)) (ap (λ x. f x ∷ at_places (λ j. f (suc j)) n (i + 1)) e)

pub at_places-ext :
    (f g : ℕ → ℕ) → ((i : ℕ) → f i ≡ g i) → (n i : ℕ) → at_places f n i ≡ at_places g n i
at_places-ext f g h zero i = refl
at_places-ext f g h (suc n) i = rw (h i) (rw (at_places-ext f g h n (i + 1)) refl)

-- A list is the table of its elements.
pub at_places-get_or :
    (f : ℕ → ℕ) (xs : List ℕ) → at_places (λ i. f (get_or xs i 0)) (length xs) 0 ≡ map f xs
at_places-get_or f [] = refl
at_places-get_or f (x ∷ xs) =
    rw (at_places-shift (λ i. f (get_or (x ∷ xs) i 0)) (length xs) 0)
      (ap (λ ys. f x ∷ ys) (at_places-get_or f xs))

pub and-loop_ends :
    (k : ℕ) (f : ℕ → ℕ) (n l : ℕ)
    → map (bit k) (and_operands (loop_ends f n (suc l) ++ (goto_label ∷ [])))
      ≡ at_places (λ i. bit k (f i)) n (standard_n 0 + 1 + l)
unfolding and_operands loop_ends
and-loop_ends k f zero l = refl
and-loop_ends k f (suc n) l =
    let place : suc l - 1 ≡ l = omega arith in
    let up : suc l + 1 ≡ suc (l + 1) = omega arith in
    let next : standard_n 0 + 1 + (l + 1) ≡ standard_n 0 + 1 + l + 1 = omega arith in
    rw place (rw up (rw (and-loop_ends k f n (l + 1)) (rw next refl)))

pub or-loop_ends : (f : ℕ → ℕ) (n l : ℕ) → or_operands (loop_ends f n l ++ (goto_label ∷ [])) ≡ []
unfolding or_operands loop_ends
or-loop_ends f zero l = refl
or-loop_ends f (suc n) l = or-loop_ends f n (l + 1)
