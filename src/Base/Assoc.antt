-- ===== src/Base/Assoc.antt =====
-- `std::map` with number keys: an association list in the order of the keys.
use Prim.Native.Nat.{ℕ, suc, ◌<◌}
use mathlib.Core.Path.{◌≡◌, refl, ◌∙◌}
use mathlib.Core.Logic.{◌≢◌, inl, inr}
use mathlib.Core.Bool.{Bool, true, false}
use mathlib.Core.List.{List, [], ◌∷◌, ◌++◌}
use mathlib.Core.Option.{Option, none, some}
use native.Mathlib.Omega.{arith}
use otsdaq_mu2e.Base.Tests.{ltb, ◌==◌, if◌then◌else◌, Bool-cases}
use otsdaq_mu2e.Base.Lists.{length, All}

abbrev pub Map {ℓ} : Type ℓ → Type ℓ
Map V = List (ℕ × V)

module _ {ℓ} {V : Type ℓ} where
  abbrev pub lookup : ℕ → Map V → Option V
  lookup k [] = none
  lookup k ((j, v) ∷ m) = if j == k then some v else lookup k m

  -- `m.count(k)` as a test
  abbrev pub has : ℕ → Map V → Bool
  has k m = elim (lookup k m) [ none ↦ false | some _ ↦ true ]

  pub lookup-not_has : (k : ℕ) (m : Map V) → has k m ≡ false → lookup k m ≡ none
  lookup-not_has k m h = ground (arith, lookup k m)

  -- `m[k]` on a map whose values default to `d`
  abbrev pub find_or : V → ℕ → Map V → V
  find_or d k m = elim (lookup k m) [ none ↦ d | some v ↦ v ]

  -- `m[k] = v`; the keys stay in ascending order
  abbrev pub insert : ℕ → V → Map V → Map V
  insert k v [] = (k, v) ∷ []
  insert k v ((j, w) ∷ m) =
      if j == k then (k, v) ∷ m else if ltb k j then (k, v) ∷ (j, w) ∷ m else (j, w) ∷ insert k v m

  pub lookup-insert_self : (k : ℕ) (v : V) (m : Map V) → lookup k (insert k v m) ≡ some v
  lookup-insert_self k v [] = ground arith
  lookup-insert_self k v ((j, w) ∷ m) = ground (arith, lookup-insert_self k v m)

  pub lookup-insert_ne :
      (k j : ℕ) (v : V) (m : Map V) → k ≢ j → lookup j (insert k v m) ≡ lookup j m
  lookup-insert_ne k j v [] h = ground arith
  lookup-insert_ne k j v ((i, w) ∷ m) h = ground (arith, lookup-insert_ne k j v m h)

  -- `m.erase(m.find(k))`
  abbrev pub erase : ℕ → Map V → Map V
  erase k [] = []
  erase k ((j, v) ∷ m) = if j == k then m else (j, v) ∷ erase k m

  pub length-insert_new :
      (k : ℕ) (v : V) (m : Map V) → lookup k m ≡ none → length (insert k v m) ≡ suc (length m)
  length-insert_new k v [] h = refl
  length-insert_new k v ((j, w) ∷ m) h = ground (arith, length-insert_new k v m)

  -- A key above all keys of a map goes to its end.
  pub insert_last :
      (k : ℕ) (v : V) (m : Map V) → All (λ e. e.0 < k) m → insert k v m ≡ m ++ ((k, v) ∷ [])
  insert_last k v [] h = refl
  insert_last k v ((j, w) ∷ m) h =
      let apart : (j == k) ≡ false = ground arith in
      let later : ltb k j ≡ false = ground arith in
      rw apart (rw later (rw (insert_last k v m h.1) refl))

  pub lookup_above : (k : ℕ) (m : Map V) → All (λ e. e.0 < k) m → lookup k m ≡ none
  lookup_above k [] h = refl
  lookup_above k ((j, w) ∷ m) h =
      let apart : (j == k) ≡ false = ground arith in rw apart (lookup_above k m h.1)

  pub length-erase :
      (k : ℕ) (v : V) (m : Map V) → lookup k m ≡ some v → suc (length (erase k m)) ≡ length m
  length-erase k v [] h = absurd (ground arith)
  length-erase k v ((j, w) ∷ m) h = ground (arith, length-erase k v m)

  pub lookup-erase_none : (k j : ℕ) (m : Map V) → lookup j m ≡ none → lookup j (erase k m) ≡ none
  lookup-erase_none k j [] h = refl
  lookup-erase_none k j ((i, w) ∷ m) h = ground (arith, lookup-erase_none k j m)

module _ {ℓ κ} {V : Type ℓ} (P : ℕ × V → Type κ) where
  pub All-insert : (k : ℕ) (v : V) (m : Map V) → P (k, v) → All P m → All P (insert k v m)
  All-insert k v [] new old = (new, tt)
  All-insert k v ((j, w) ∷ m) new old = elim (Bool-cases (j == k)) [
    | inl e ↦ rw e (new, old.1)
    | inr e ↦ rw e (elim (Bool-cases (ltb k j)) [
      | inl f ↦ rw f (new, old)
      | inr f ↦ rw f (old.0, All-insert k v m new old.1)
    ])
  ]

  pub All-erase : (k : ℕ) (m : Map V) → All P m → All P (erase k m)
  All-erase k [] old = tt
  All-erase k ((j, w) ∷ m) old = elim (Bool-cases (j == k)) [
    | inl e ↦ rw e old.1
    | inr e ↦ rw e (old.0, All-erase k m old.1)
  ]

  pub All-lookup : (k : ℕ) (v : V) (m : Map V) → lookup k m ≡ some v → All P m → P (k, v)
  All-lookup k v [] h old = absurd (ground arith)
  All-lookup k v ((j, w) ∷ m) h old = elim (Bool-cases (j == k)) [
    | inl e ↦
        let same : j ≡ k = ground arith in
        let found : w ≡ v = ground arith in rw (← same) (rw (← found) old.0)
    | inr e ↦ All-lookup k v m (ground arith) old.1
  ]

module _ {ℓ} {V : Type ℓ} where
  -- No key stands twice in the list.
  abbrev pub HasUniqueKeys : Map V → Type ℓ
  HasUniqueKeys [] = Unit
  HasUniqueKeys ((k, v) ∷ m) = (lookup k m ≡ none) × HasUniqueKeys m

  pub insert-HasUniqueKeys :
      (k : ℕ) (v : V) (m : Map V)
      → lookup k m ≡ none
      → HasUniqueKeys m
      → HasUniqueKeys (insert k v m)
  insert-HasUniqueKeys k v [] free h = (refl, tt)
  insert-HasUniqueKeys k v ((j, w) ∷ m) free h = elim (Bool-cases (j == k)) [
    | inl e ↦ absurd (ground arith)
    | inr e ↦ rw e (elim (Bool-cases (ltb k j)) [
      | inl f ↦ rw f (free, h)
      | inr f ↦ rw f (
        lookup-insert_ne k j v m (λ same. ground arith) ∙ h.0,
        insert-HasUniqueKeys k v m (ground arith) h.1,
      )
    ])
  ]

  pub erase-HasUniqueKeys : (k : ℕ) (m : Map V) → HasUniqueKeys m → HasUniqueKeys (erase k m)
  erase-HasUniqueKeys k [] h = tt
  erase-HasUniqueKeys k ((j, w) ∷ m) h = elim (Bool-cases (j == k)) [
    | inl e ↦ rw e h.1
    | inr e ↦ rw e (lookup-erase_none k j m h.0, erase-HasUniqueKeys k m h.1)
  ]

  pub lookup-erase_self : (k : ℕ) (m : Map V) → HasUniqueKeys m → lookup k (erase k m) ≡ none
  lookup-erase_self k [] h = refl
  lookup-erase_self k ((j, w) ∷ m) h = elim (Bool-cases (j == k)) [
    | inl e ↦ let same : j ≡ k = ground arith in rw e (rw (← same) h.0)
    | inr e ↦ rw e (rw e (lookup-erase_self k m h.1))
  ]

  pub lookup-erase_ne : (k j : ℕ) (m : Map V) → k ≢ j → lookup j (erase k m) ≡ lookup j m
  lookup-erase_ne k j [] h = refl
  lookup-erase_ne k j ((i, w) ∷ m) h = ground (arith, lookup-erase_ne k j m h)
