-- ===== src/Merge/Stage/Order.antt =====
-- Two maps without a common key, and merged events whose base tags go up.
use otsdaq_mu2e.Base.{
  ℕ, ◌≡◌, ◌<◌, ◌⊎◌, inl, inr, none, List, [], ◌∷◌, ◌++◌, arith, All, All-append, Bool-cases, ◌==◌,
}
use otsdaq_mu2e.Base.Assoc.{Map, lookup, insert, erase, lookup-insert_ne, lookup-erase_none}
use otsdaq_mu2e.Merge.Types.{EventLibrary, PendingHalf, MergedEvent}

module _ ⦃l : EventLibrary⦄ where
  abbrev pub Ascending : List MergedEvent → Type 0
  Ascending [] = Unit
  Ascending (m ∷ ms) = All (λ n. m.base_tag < n.base_tag) ms × Ascending ms

  abbrev pub Disjoint : Map PendingHalf → Map PendingHalf → Type 0
  Disjoint p q = (k : ℕ) → (lookup k p ≡ none) ⊎ (lookup k q ≡ none)

  pub insert-Disjoint :
      (k : ℕ) (h : PendingHalf) (p q : Map PendingHalf)
      → lookup k q ≡ none
      → Disjoint p q
      → Disjoint (insert k h p) q
  insert-Disjoint k h p q free dis j = elim (Bool-cases (j == k)) [
    | inl e ↦ let same : j ≡ k = ground arith in rw same (inr free)
    | inr e ↦ rw (lookup-insert_ne k j h p (λ same. ground arith)) (dis j)
  ]

  pub erase-Disjoint : (k : ℕ) (p q : Map PendingHalf) → Disjoint p q → Disjoint p (erase k q)
  erase-Disjoint k p q dis j = elim (dis j) [
    | inl e ↦ inl e
    | inr e ↦ inr (lookup-erase_none k j q e)
  ]

  pub swap-Disjoint : (p q : Map PendingHalf) → Disjoint p q → Disjoint q p
  swap-Disjoint p q dis j = elim (dis j) [ inl e ↦ inr e | inr e ↦ inl e ]

  pub append-Ascending :
      (ms : List MergedEvent) (m : MergedEvent)
      → All (λ n. n.base_tag < m.base_tag) ms
      → Ascending ms
      → Ascending (ms ++ (m ∷ []))
  append-Ascending [] m below asc = (tt, tt)
  append-Ascending (n ∷ ms) m below asc =
      (All-append _ ms (m ∷ []) asc.0 (below.0, tt), append-Ascending ms m below.1 asc.1)
