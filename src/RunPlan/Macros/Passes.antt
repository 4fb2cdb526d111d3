-- ===== src/RunPlan/Macros/Passes.antt =====
-- The two passes of a join.
use otsdaq_mu2e.Base.{
  ℕ, ◌≡◌, refl, ap, sym, ◌∙◌, Bool, true, false, ◌&&◌, ◌⊎◌, inl, inr, Option, none, some, List, [],
  ◌∷◌, map, length, get_or, bit_or, arith, Bool-cases, ◌==◌,
}
use otsdaq_mu2e.Base.Bits.{zero-bit_or, bit_or_comm}
use otsdaq_mu2e.RunPlan.Types.{Op, PlanError, OnRequest}
use otsdaq_mu2e.RunPlan.Ratio.{mn_fix_ratio}
use otsdaq_mu2e.RunPlan.Plan.{
  set_bits_mask, plan_on, coarse_on, coarse_or, fine_on, fine_slot_on, fine_and, fine_keep, fine_or,
  should_clear, should_set, event_ops, loop_ends, checked_on, with_ratio, periodic_mode_on,
}
use otsdaq_mu2e.RunPlan.Plan.Operands.{
  and_operands, or_operands, at_places, at_places-ext, at_places-get_or,
}
use otsdaq_mu2e.RunPlan.Plan.Events.{checked_on-plan_on}
use otsdaq_mu2e.RunPlan.Plan.Join.{checked_plan}
use otsdaq_mu2e.RunPlan.Extract.{Extraction}
use otsdaq_mu2e.RunPlan.Macros.{
  mode_bit, Host, MacroError, CfoState, Ending, then_macro, JoinArgs, Field, on_field, duty_ratio,
  end_load, set_plan, masks_of, join_request, join_passes, join_with, join_field, is_in_plan,
  subsystem_join,
}
use otsdaq_mu2e.RunPlan.Macros.Held.{HostLaws, extract_operands}

abbrev with_or : Bool → OnRequest → OnRequest
with_or b q = record q { apply_or = b }

and_passes :
    (q : OnRequest)
    → and_operands (plan_on (with_or false q)) ≡ and_operands (plan_on (with_or true q))
unfolding plan_on coarse_on fine_on fine_slot_on fine_and fine_keep should_clear event_ops loop_ends
    and_operands set_bits_mask
and_passes q = refl

or_places_kept :
    (q : OnRequest)
    → or_operands (plan_on (with_or false q))
      ≡ at_places (λ i. bit_or (get_or q.or_masks i 0) 0) 109 0
unfolding plan_on coarse_on coarse_or fine_on fine_slot_on fine_or should_set event_ops loop_ends
    or_operands
or_places_kept q = refl

map-id : (xs : List ℕ) → map (λ x. x) xs ≡ xs
map-id [] = refl
map-id (x ∷ xs) = ap (λ l. x ∷ l) (map-id xs)

or_kept :
    (q : OnRequest) → length q.or_masks ≡ 109 → or_operands (plan_on (with_or false q)) ≡ q.or_masks
or_kept q size =
    or_places_kept q
    ∙ (at_places-ext (λ i. bit_or (get_or q.or_masks i 0) 0) (λ i. get_or q.or_masks i 0)
          (λ i. bit_or_comm (get_or q.or_masks i 0) 0 ∙ zero-bit_or (get_or q.or_masks i 0)) 109 0
        ∙ (ap (λ n. at_places (λ i. get_or q.or_masks i 0) n 0) (sym size)
            ∙ (at_places-get_or (λ x. x) q.or_masks ∙ map-id q.or_masks)))

-- The plans of the two passes: the ANDs are those of the last one, the ORs are the given ones.
record Passes (q : OnRequest) (first last : List Op) : Type 0 where
  ands : and_operands first ≡ and_operands last
  ors : or_operands first ≡ q.or_masks

checked-Passes :
    (q : OnRequest) {first last : List Op}
    → checked_on (with_or false q) ≡ inr first
    → checked_on (with_or true q) ≡ inr last
    → Passes q first last
checked-Passes q {first = first} {last = last} h g =
    let made = checked_plan (with_or false q) {ops = first} h in
    let a : first ≡ plan_on (with_or false q) =
      checked_on-plan_on (with_or false q) {ops = first} h in
    let b : last ≡ plan_on (with_or true q) = checked_on-plan_on (with_or true q) {ops = last} g in
    record {
      ands = ap and_operands a ∙ (and_passes q ∙ sym (ap and_operands b));
      ors = ap or_operands a ∙ or_kept q made.ors;
    }

ratio-Passes :
    (q : OnRequest) (r : PlanError ⊎ (ℕ × ℕ)) {first last : List Op}
    → with_ratio (with_or false q) r ≡ inr first
    → with_ratio (with_or true q) r ≡ inr last
    → Passes q first last
unfolding with_ratio
ratio-Passes q (inl why) h g = absurd (ground arith)
ratio-Passes q (inr (m, n)) {first = first} {last = last} h g =
    let p =
      checked-Passes (record q { m_part = m; n_part = n }) {first = first} {last = last} h g in
    record { ands = p.ands; ors = p.ors }

on-Passes :
    (q : OnRequest) {first last : List Op}
    → periodic_mode_on (with_or false q) ≡ inr first
    → periodic_mode_on (with_or true q) ≡ inr last
    → Passes q first last
unfolding periodic_mode_on
on-Passes q {first = first} {last = last} h g =
    let resolved = mn_fix_ratio q.m_part q.n_part in
    elim (Bool-cases (q.value == 0 && (q.m_part == 1 && q.n_part == 1))) [
      | inl e ↦
          let low : periodic_mode_on (with_or false q) ≡ checked_on (with_or false q) = rw e refl in
          let high : periodic_mode_on (with_or true q) ≡ checked_on (with_or true q) = rw e refl in
          checked-Passes q {first = first} {last = last} (sym low ∙ h) (sym high ∙ g)
      | inr e ↦
          let low : periodic_mode_on (with_or false q) ≡ with_ratio (with_or false q) resolved =
            rw e refl in
          let high : periodic_mode_on (with_or true q) ≡ with_ratio (with_or true q) resolved =
            rw e refl in
          ratio-Passes q resolved {first = first} {last = last} (sym low ∙ h) (sym high ∙ g)
    ]

-- A plan was made and set.
record WasSet (r : PlanError ⊎ List Op) (s t : CfoState) : Type 0 where
  ops : List Op
  made : r ≡ inr ops
  plans : t.plans ≡ ops ∷ s.plans

end_load-plans :
    (ops : List Op) (l : Bool × List ℕ) (s : CfoState)
    → (end_load ops l s).0 ≡ inr tt
    → (end_load ops l s).1.plans ≡ ops ∷ s.plans
end_load-plans ops (true, memory) s h = refl
end_load-plans ops (false, memory) s h = absurd (ground arith)

set_plan-WasSet :
    (h : Host) (r : PlanError ⊎ List Op) (s : CfoState)
    → (set_plan h r s).0 ≡ inr tt
    → WasSet r s (set_plan h r s).1
unfolding set_plan
set_plan-WasSet h (inl why) s e = absurd (ground arith)
set_plan-WasSet h (inr ops) s e = record {
  ops = ops;
  made = refl;
  plans = end_load-plans ops (h.load (h.compile ops) s.memory) s e;
}

then_macro_sound :
    (r : Ending) (f : CfoState → Ending)
    → (then_macro r f).0 ≡ inr tt
    → (r.0 ≡ inr tt) × (then_macro r f ≡ f r.1)
then_macro_sound (inl why, s) f e = absurd (ground arith)
then_macro_sound (inr done, s) f e = (refl, refl)

-- Two plans were set: the first has the ANDs of the last, and the ORs of the plan held before.
pub record Prepared (held : List Op) (s t : CfoState) : Type 0 where
  pub first : List Op
  pub last : List Op
  pub plans : t.plans ≡ last ∷ first ∷ s.plans
  pub ands : and_operands first ≡ and_operands last
  pub ors : or_operands first ≡ or_operands held

module _ (h : Host) (held : List Op) (a : JoinArgs) where
  join_passes-Prepared :
      (f : Field) (r : ℕ × ℕ) (e : PlanError ⊎ Extraction) (s : CfoState)
      → ((x : Extraction) → e ≡ inr x → x.or_masks ≡ some (or_operands held))
      → (join_passes h a f r e s).0 ≡ inr tt
      → Prepared held s (join_passes h a f r e s).1
  unfolding join_passes
  join_passes-Prepared f r (inl why) s reads ok = absurd (ground arith)
  join_passes-Prepared f r (inr x) s reads ok =
      let low = periodic_mode_on (join_request h a f r x false) in
      let high = periodic_mode_on (join_request h a f r x true) in
      let parts = then_macro_sound (set_plan h low s) (set_plan h high) ok in
      let one = set_plan-WasSet h low s parts.0 in
      let middle = (set_plan h low s).1 in
      let two = set_plan-WasSet h high middle (sym (ap (λ y. y.0) parts.1) ∙ ok) in
      let pass =
        on-Passes (join_request h a f r x true) {first = one.ops} {last = two.ops} one.made
          two.made in
      rw parts.1 (record {
        first = one.ops;
        last = two.ops;
        plans = two.plans ∙ ap (λ ps. two.ops ∷ ps) one.plans;
        ands = pass.ands;
        ors = pass.ors ∙ ap masks_of (reads x refl);
      })

  join_with-Prepared :
      (laws : HostLaws h) (f : Field) (r : MacroError ⊎ (ℕ × ℕ)) (s : CfoState)
      → s.memory ≡ h.compile held
      → (join_with h a f r s).0 ≡ inr tt
      → Prepared held s (join_with h a f r s).1
  unfolding join_with
  join_with-Prepared laws f (inl why) s stored ok = absurd (ground arith)
  join_with-Prepared laws f (inr r) s stored ok =
      join_passes-Prepared f r _ s (λ x e. (extract_operands h laws s held {x = x} stored e).1) ok

  join_field-Prepared :
      (laws : HostLaws h) (b : Option ℕ) (s : CfoState)
      → s.memory ≡ h.compile held
      → (join_field h a b s).0 ≡ inr tt
      → Prepared held s (join_field h a b s).1
  unfolding join_field
  join_field-Prepared laws none s stored ok = absurd (ground arith)
  join_field-Prepared laws (some b) s stored ok =
      join_with-Prepared laws (on_field a a.subsystem b) (duty_ratio h a.duty_cycle) s stored ok

  -- On a host with the laws named, a join that returns has set two plans, one after another: the
  -- first has the AND operands of the second at every place, and all OR operands of the plan that
  -- was held before, so that no OR is added before the ANDs are in place.
  pub subsystem_join-Prepared :
      (laws : HostLaws h) (s : CfoState)
      → s.memory ≡ h.compile held
      → (subsystem_join h a s).0 ≡ inr tt
      → Prepared held s (subsystem_join h a s).1
  unfolding subsystem_join
  subsystem_join-Prepared laws s stored ok = elim (Bool-cases (is_in_plan s)) [
    | inl on ↦ rw on (join_field-Prepared laws (mode_bit a.subsystem) s stored (ground arith))
    | inr off ↦ absurd (ground arith)
  ]
