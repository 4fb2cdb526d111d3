-- ===== src/RunPlan/Ratio/Duration.antt =====
-- What `parseEventDurationForRunPlan` splits.
use mathlib.Core.List.{append-nil}
use mathlib.Core.Path.{subst}
use otsdaq_mu2e.Base.{
  ℕ, ◌≡◌, ◌≢◌, ◌↔◌, refl, ap, sym, ◌∙◌, true, false, ◌⊎◌, inl, inr, List, [], ◌∷◌, ◌++◌, is_empty,
  get_or, arith, All, Bool-cases,
}
use otsdaq_mu2e.RunPlan.Types.{no_units}
use otsdaq_mu2e.RunPlan.Ratio.{starts_units, split_units_at, parse_event_duration}

-- The first letters of "s", "ms", "us", "ns" and "clocks".
abbrev pub IsUnitLetter : ℕ → Type 0
IsUnitLetter c = (c ≡ 115) ⊎ ((c ≡ 109) ⊎ ((c ≡ 117) ⊎ ((c ≡ 110) ⊎ (c ≡ 99))))

abbrev pub IsPlain : ℕ → Type 0
IsPlain c = (c ≢ 115) × (c ≢ 109) × (c ≢ 117) × (c ≢ 110) × (c ≢ 99)

starts_units-IsUnitLetter : (c : ℕ) → (starts_units c ≡ true) ↔ IsUnitLetter c
unfolding starts_units
starts_units-IsUnitLetter c = (λ h. ground arith, λ h. ground arith)

starts_units-IsPlain : (c : ℕ) → (starts_units c ≡ false) ↔ IsPlain c
unfolding starts_units
starts_units-IsPlain c = (λ h. ground arith, λ h. ground arith)

split_units-IsPlain : (text : List ℕ) → All IsPlain (split_units_at text).0
unfolding split_units_at
split_units-IsPlain [] = tt
split_units-IsPlain (c ∷ cs) = elim (Bool-cases (starts_units c)) [
  | inl e ↦ rw e tt
  | inr e ↦ rw e ((starts_units-IsPlain c).0 e, split_units-IsPlain cs)
]

split_units_whole : (text : List ℕ) → (split_units_at text).0 ++ (split_units_at text).1 ≡ text
unfolding split_units_at
split_units_whole [] = refl
split_units_whole (c ∷ cs) = elim (Bool-cases (starts_units c)) [
  | inl e ↦ rw e refl
  | inr e ↦ rw e (rw (split_units_whole cs) refl)
]

split_units_start :
    (text : List ℕ)
    → is_empty (split_units_at text).1 ≡ false
    → starts_units (get_or (split_units_at text).1 0 0) ≡ true
unfolding split_units_at
split_units_start [] h = absurd (ground arith)
split_units_start (c ∷ cs) h = elim (Bool-cases (starts_units c)) [
  | inl e ↦ rw e e
  | inr e ↦
      let tail : is_empty (split_units_at cs).1 ≡ false = ground arith in
      rw e (split_units_start cs tail)
]

parse_event_duration_sound :
    (text : List ℕ) {value units : List ℕ}
    → parse_event_duration text ≡ inr (value, units)
    → (value ++ units ≡ text) × All IsPlain value × IsUnitLetter (get_or units 0 0)
unfolding parse_event_duration
parse_event_duration_sound text {value = value} {units = units} h =
    let nonempty : is_empty (split_units_at text).1 ≡ false = ground arith in
    let parts : split_units_at text ≡ (value, units) = ground arith in
    rw (ap (λ p. p.0) (sym parts)) (
      rw (ap (λ p. p.1) (sym parts)) (
        split_units_whole text,
        split_units-IsPlain text,
        (starts_units-IsUnitLetter _).0 (split_units_start text nonempty),
      ))

split_units_here :
    (value : List ℕ) (c : ℕ) (rest : List ℕ)
    → All IsPlain value
    → starts_units c ≡ true
    → split_units_at (value ++ (c ∷ rest)) ≡ (value, c ∷ rest)
unfolding split_units_at
split_units_here [] c rest plain unit = rw unit refl
split_units_here (x ∷ value) c rest plain unit =
    rw ((starts_units-IsPlain x).1 plain.0) (rw (split_units_here value c rest plain.1 unit) refl)

parse_event_duration_complete :
    (value : List ℕ) (c : ℕ) (rest : List ℕ)
    → All IsPlain value
    → starts_units c ≡ true
    → parse_event_duration (value ++ (c ∷ rest)) ≡ inr (value, c ∷ rest)
unfolding parse_event_duration
parse_event_duration_complete value c rest plain unit =
    rw (split_units_here value c rest plain unit) refl

parse_event_duration_joined :
    (value units : List ℕ)
    → All IsPlain value
    → IsUnitLetter (get_or units 0 0)
    → parse_event_duration (value ++ units) ≡ inr (value, units)
parse_event_duration_joined value [] plain unit = absurd (ground arith)
parse_event_duration_joined value (c ∷ rest) plain unit =
    parse_event_duration_complete value c rest plain ((starts_units-IsUnitLetter c).1 unit)

split_units_plain : (text : List ℕ) → All IsPlain text → split_units_at text ≡ (text, [])
unfolding split_units_at
split_units_plain [] plain = refl
split_units_plain (c ∷ cs) plain =
    rw ((starts_units-IsPlain c).1 plain.0) (rw (split_units_plain cs plain.1) refl)

nothing_left : (xs : List ℕ) → is_empty xs ≡ true → xs ≡ []
nothing_left [] h = refl
nothing_left (x ∷ xs) h = absurd (ground arith)

parse_event_duration_refused :
    (text : List ℕ) → parse_event_duration text ≡ inl (no_units text) → All IsPlain text
unfolding parse_event_duration
parse_event_duration_refused text h =
    let none_left : is_empty (split_units_at text).1 ≡ true = ground arith in
    let ends : (split_units_at text).1 ≡ [] = nothing_left (split_units_at text).1 none_left in
    let whole : (split_units_at text).0 ≡ text =
      sym (append-nil (split_units_at text).0)
      ∙ ap (λ units. (split_units_at text).0 ++ units) (sym ends)
      ∙ split_units_whole text in
    subst (All IsPlain) whole (split_units-IsPlain text)

parse_event_duration_plain :
    (text : List ℕ) → All IsPlain text → parse_event_duration text ≡ inl (no_units text)
unfolding parse_event_duration
parse_event_duration_plain text plain = rw (split_units_plain text plain) refl

-- `parseEventDurationForRunPlan` returns a value and units if and only if they are the text cut in
-- two at its first letter out of s, m, u, n and c, and it throws that there are no units if and only
-- if the text has none of these letters.
pub parse_event_duration_lem :
    (text value units : List ℕ)
    → ((parse_event_duration text ≡ inr (value, units))
        ↔ ((value ++ units ≡ text) × All IsPlain value × IsUnitLetter (get_or units 0 0)))
      × ((parse_event_duration text ≡ inl (no_units text)) ↔ All IsPlain text)
parse_event_duration_lem text value units = (
  (
    parse_event_duration_sound text,
    λ h. rw (← h.0) (parse_event_duration_joined value units h.1 h.2),
  ),
  (parse_event_duration_refused text, parse_event_duration_plain text),
)
