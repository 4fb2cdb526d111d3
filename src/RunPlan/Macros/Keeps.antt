-- ===== src/RunPlan/Macros/Keeps.antt =====
-- Whatever joins and leaves, the plan in the memory of the CFO keeps the bits of the others.
use otsdaq_mu2e.Base.{
  All, ℕ, ◌≡◌, ◌≢◌, ◌<◌, refl, ap, ◌∙◌, Bool, true, false, ◌⊎◌, inl, inr, Option, none, some, List,
  [], ◌∷◌, map, length, arith, Bool-cases,
}
use otsdaq_mu2e.Base.Bits.{bit}
use otsdaq_mu2e.RunPlan.Types.{Op, PlanError, OffRequest}
use otsdaq_mu2e.RunPlan.Plan.{
  and_places, set_bits_mask, clear_bits_mask, use_masks, periodic_mode_on, periodic_mode_off,
}
use otsdaq_mu2e.RunPlan.Plan.Join.{periodic_mode_on_keeps}
use otsdaq_mu2e.RunPlan.Plan.Leave.{periodic_mode_off_keeps}
use otsdaq_mu2e.RunPlan.Extract.{Extraction}
use otsdaq_mu2e.RunPlan.Macros.{
  mode_bit, Host, MacroError, load_failed, CfoState, JoinArgs, LeaveArgs, Field, on_field,
  off_field, masks_of, join_request, join_passes, join_with, join_field, is_in_plan, subsystem_join,
  leave_request, leave_plan, leave_field, subsystem_leave,
}
use otsdaq_mu2e.RunPlan.Macros.Held.{
  Macro, join, leave, run_macro, bits_on, bits_off, joining_bits, leaving_bits, bits_of, HostLaws,
  Watched, HasBits, Holds, Loads, Reads, set_plan-Holds, then_macro-Holds, extract-Reads,
}

-- The macros one after another, each also when one before has thrown.
abbrev pub run_macros : Host → List Macro → CfoState → CfoState
run_macros h [] s = s
run_macros h (m ∷ ms) s = run_macros h ms (run_macro h m s).1

-- No load fails.
abbrev pub AllLoad : Host → List Macro → CfoState → Type 0
AllLoad h [] s = Unit
AllLoad h (m ∷ ms) s = ((run_macro h m s).0 ≢ inl load_failed) × AllLoad h ms (run_macro h m s).1

module _ (h : Host) (laws : HostLaws h) (w : Watched) where
  -- With masks, the plan of a leave has masks.
  masks-use : (q : OffRequest) → length q.and_masks ≡ and_places → use_masks q ≡ true
  unfolding use_masks and_places
  masks-use q size = ground arith

  join_request-HasBits :
      (a : JoinArgs) (f : Field) (r : ℕ × ℕ) (x : Extraction) (apply_or : Bool)
      → w.k < 48
      → bit w.k (bits_on f) ≡ 0
      → Reads w x
      → (ops : List Op) → periodic_mode_on (join_request h a f r x apply_or) ≡ inr ops
      → HasBits w ops
  unfolding set_bits_mask
  join_request-HasBits a f r x apply_or low other rd ops made =
      let parts = periodic_mode_on_keeps (join_request h a f r x apply_or) ops w.k made low other in
      record {
        and_bits = parts.0 ∙ (ap (λ m. map (bit w.k) (masks_of m)) rd.and_masks ∙ rd.bits.and_bits);
        or_bits = parts.1 ∙ (ap (λ m. map (bit w.k) (masks_of m)) rd.or_masks ∙ rd.bits.or_bits);
      }

  leave_request-HasBits :
      (f : ℕ × ℕ) (x : Extraction)
      → w.k < 48
      → bit w.k (bits_off f) ≡ 0
      → Reads w x
      → (ops : List Op) → periodic_mode_off (leave_request h f x) ≡ inr ops
      → HasBits w ops
  unfolding clear_bits_mask
  leave_request-HasBits f x low other rd ops made =
      let masked =
        masks-use (leave_request h f x) (ap (λ m. length (masks_of m)) rd.and_masks ∙ rd.size) in
      let parts = periodic_mode_off_keeps (leave_request h f x) ops w.k masked made low other in
      record {
        and_bits = parts.0 ∙ (ap (λ m. map (bit w.k) (masks_of m)) rd.and_masks ∙ rd.bits.and_bits);
        or_bits = parts.1 ∙ (ap (λ m. map (bit w.k) (masks_of m)) rd.or_masks ∙ rd.bits.or_bits);
      }

  join_passes-Holds :
      (a : JoinArgs) (f : Field) (r : ℕ × ℕ) (e : PlanError ⊎ Extraction) (s : CfoState)
      → w.k < 48
      → bit w.k (bits_on f) ≡ 0
      → ((x : Extraction) → e ≡ inr x → Reads w x)
      → Holds h w s
      → Loads (join_passes h a f r e s)
      → Holds h w (join_passes h a f r e s).1
  unfolding join_passes
  join_passes-Holds a f r (inl why) s low other reads known ok = known
  join_passes-Holds a f r (inr x) s low other reads known ok =
      let rd = reads x refl in
      then_macro-Holds h laws w _ _
        (set_plan-Holds h laws w _ s (join_request-HasBits a f r x false low other rd) known)
        (λ t held.
          set_plan-Holds h laws w _ t (join_request-HasBits a f r x true low other rd) held)
        ok

  join_with-Holds :
      (a : JoinArgs) (f : Field) (r : MacroError ⊎ (ℕ × ℕ)) (s : CfoState)
      → w.k < 48
      → bit w.k (bits_on f) ≡ 0
      → Holds h w s
      → Loads (join_with h a f r s)
      → Holds h w (join_with h a f r s).1
  unfolding join_with
  join_with-Holds a f (inl why) s low other known ok = known
  join_with-Holds a f (inr r) s low other known ok =
      join_passes-Holds a f r _ s low other (λ x e. extract-Reads h laws w s {x = x} known e) known
        ok

  join_field-Holds :
      (a : JoinArgs) (b : Option ℕ) (s : CfoState)
      → w.k < 48
      → bit w.k (joining_bits a b) ≡ 0
      → Holds h w s
      → Loads (join_field h a b s)
      → Holds h w (join_field h a b s).1
  unfolding join_field
  join_field-Holds a none s low other known ok = known
  join_field-Holds a (some b) s low other known ok =
      join_with-Holds a (on_field a a.subsystem b) _ s low other known ok

  leave_plan-Holds :
      (f : ℕ × ℕ) (e : PlanError ⊎ Extraction) (s : CfoState)
      → w.k < 48
      → bit w.k (bits_off f) ≡ 0
      → ((x : Extraction) → e ≡ inr x → Reads w x)
      → Holds h w s
      → Loads (leave_plan h f e s)
      → Holds h w (leave_plan h f e s).1
  unfolding leave_plan
  leave_plan-Holds f (inl why) s low other reads known ok = known
  leave_plan-Holds f (inr x) s low other reads known ok =
      set_plan-Holds h laws w _ s (leave_request-HasBits f x low other (reads x refl)) known ok

  leave_field-Holds :
      (a : LeaveArgs) (b : Option ℕ) (s : CfoState)
      → w.k < 48
      → bit w.k (leaving_bits a b) ≡ 0
      → Holds h w s
      → Loads (leave_field h a b s)
      → Holds h w (leave_field h a b s).1
  unfolding leave_field
  leave_field-Holds a none s low other known ok = known
  leave_field-Holds a (some b) s low other known ok =
      leave_plan-Holds (off_field a a.subsystem b) _ s low other
        (λ x e. extract-Reads h laws w s {x = x} known e) known ok

  run_macro-Holds :
      (m : Macro) (s : CfoState)
      → w.k < 48
      → bit w.k (bits_of m) ≡ 0
      → Holds h w s
      → Loads (run_macro h m s)
      → Holds h w (run_macro h m s).1
  unfolding subsystem_join subsystem_leave
  run_macro-Holds (join a) s low other known ok = elim (Bool-cases (is_in_plan s)) [
    | inl on ↦ rw on (join_field-Holds a (mode_bit a.subsystem) s low other known (ground arith))
    | inr off ↦ rw off known
  ]
  run_macro-Holds (leave a) s low other known ok = elim (Bool-cases (is_in_plan s)) [
    | inl on ↦ rw on (leave_field-Holds a (mode_bit a.subsystem) s low other known (ground arith))
    | inr off ↦ rw off known
  ]

  -- On a host with the laws named, whatever subsystems join and leave, one after another, also when
  -- some of these macros throw, as long as no load fails: where a mode bit below 48 belongs to none
  -- of them, the plan in the memory has the same values of this bit as before, at every place of
  -- the AND and of the OR operations.
  pub run_macros-Holds :
      (ms : List Macro) (s : CfoState)
      → w.k < 48
      → All (λ m. bit w.k (bits_of m) ≡ 0) ms
      → AllLoad h ms s
      → Holds h w s
      → Holds h w (run_macros h ms s)
  run_macros-Holds [] s low others ok known = known
  run_macros-Holds (m ∷ ms) s low others ok known =
      run_macros-Holds ms (run_macro h m s).1 low others.1 ok.1
        (run_macro-Holds m s low others.0 known ok.0)
