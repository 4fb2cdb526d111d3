-- ===== src/Spi/Exec/Gives.antt =====
-- What an action did when it has returned: one inversion for each way to build an action.
use otsdaq_mu2e.Base.{ℕ, ◌≡◌, refl, ap, sym, Bool, true, false, ◌⊎◌, inl, inr, List, ◌∷◌, ⊤, arith}
use otsdaq_mu2e.Flash.Exec.{Answer, value, throws}
use otsdaq_mu2e.Spi.Exec.{
  SpiEvent, got, sent, took, freed, napped, Trace, is_held, Roc, SpiError, Ending, done, thrown,
  waiting, polling, Spi, give, raise, choose, carry_on, ◌>>=◌, ◌>>◌, outcome_of, release, guarded,
  nap, get_register, send_command,
}

-- The action returns `a` and leaves the trace `h'`.
abbrev pub Gives : {A : Type 0} → Spi A → Trace → A → Trace → Type 0
Gives m h a h' = m h ≡ (done a, h')

-- The later trace holds all of the earlier one.
pub data Extends (h : Trace) : Trace → Type 0 where
  same : Extends h h
  later : {g : Trace} (e : SpiEvent) → Extends h g → Extends h (e ∷ g)

pub Extends-trans : {h g k : Trace} → Extends h g → Extends g k → Extends h k
Extends-trans a same = a
Extends-trans a (later e b) = later e (Extends-trans a b)

module _ {A : Type 0} where
  pub raise-Gives : (e : SpiError) (h : Trace) (a : A) (h' : Trace) → ¬ Gives (raise e) h a h'
  unfolding raise
  raise-Gives e h a h' eq = ground arith

  pub give-Gives :
      (b : A) (h : Trace) (a : A) (h' : Trace) → Gives (give b) h a h' → (a ≡ b) × (h' ≡ h)
  unfolding give
  give-Gives b h a h' eq = ground arith

  pub choose-Gives :
      (b : Bool) (m n : Spi A) (h : Trace) (a : A) (h' : Trace)
      → Gives (choose b m n) h a h'
      → ((b ≡ true) × Gives m h a h') ⊎ ((b ≡ false) × Gives n h a h')
  unfolding choose
  choose-Gives true m n h a h' eq = inl (refl, eq)
  choose-Gives false m n h a h' eq = inr (refl, eq)

  release-Gives :
      (e : Ending A) (g : Trace) (a : A) (h' : Trace)
      → release (e, g) ≡ (done a, h')
      → (e ≡ done a) × (h' ≡ freed ∷ g)
  unfolding release
  release-Gives (done b) g a h' eq = ground arith
  release-Gives (thrown x) g a h' eq = absurd (ground arith)
  release-Gives waiting g a h' eq = absurd (ground arith)
  release-Gives polling g a h' eq = absurd (ground arith)

  pub guarded-Gives :
      (m : Spi A) (h : Trace) (a : A) (h' : Trace)
      → Gives (guarded m) h a h'
      → (g : Trace) × Gives m (took ∷ h) a g × (h' ≡ freed ∷ g)
  unfolding guarded
  guarded-Gives m h a h' eq =
      elim (choose-Gives (is_held h) (λ g. (waiting, g)) (λ g. release (m (took ∷ g))) h a h' eq) [
        | inl x ↦ absurd (ground (arith, x.1))
        | inr x ↦
            let r = release-Gives (m (took ∷ h)).0 (m (took ∷ h)).1 a h' x.1 in
            ((m (took ∷ h)).1, ap (λ e. (e, (m (took ∷ h)).1)) r.0, r.1)
      ]

module _ {A B : Type 0} where
  carry_on-Gives :
      (f : A → Spi B) (e : Ending A) (g : Trace) (b : B) (h' : Trace)
      → carry_on e f g ≡ (done b, h')
      → (a : A) × (e ≡ done a) × Gives (f a) g b h'
  unfolding carry_on raise
  carry_on-Gives f (done a) g b h' eq = (a, refl, eq)
  carry_on-Gives f (thrown x) g b h' eq = absurd (ground arith)
  carry_on-Gives f waiting g b h' eq = absurd (ground arith)
  carry_on-Gives f polling g b h' eq = absurd (ground arith)

  pub bind-Gives :
      (m : Spi A) (f : A → Spi B) (h : Trace) (b : B) (h' : Trace)
      → Gives (m >>= f) h b h'
      → (a : A) × (g : Trace) × Gives m h a g × Gives (f a) g b h'
  unfolding ◌>>=◌
  bind-Gives m f h b h' eq =
      let r = carry_on-Gives f (m h).0 (m h).1 b h' eq in
      (r.0, (m h).1, ap (λ e. (e, (m h).1)) r.1, r.2)

module _ {B : Type 0} where
  pub then-Gives :
      (m : Spi ⊤) (k : Spi B) (h : Trace) (b : B) (h' : Trace)
      → Gives (m >> k) h b h'
      → (g : Trace) × Gives m h tt g × Gives k g b h'
  unfolding ◌>>◌
  then-Gives m k h b h' eq = let r = bind-Gives m (λ _. k) h b h' eq in (r.1, r.2, r.3)

outcome-value : {A : Type 0} (x : Answer A) (a : A) → outcome_of x ≡ done a → x ≡ value a
unfolding outcome_of
outcome-value (value v) a eq = ground arith
outcome-value (throws n) a eq = absurd (ground arith)

pub nap-Gives : (h : Trace) (a : ⊤) (h' : Trace) → Gives nap h a h' → h' ≡ napped ∷ h
unfolding nap
nap-Gives h a h' eq = ap (λ x. x.1) (sym eq)

module _ ⦃roc : Roc⦄ where
  pub get-Gives :
      (r : ℕ) (h : Trace) (v : ℕ) (h' : Trace)
      → Gives (get_register r) h v h'
      → (roc.register_of h r ≡ value v) × (h' ≡ got r ∷ h)
  unfolding get_register
  get-Gives r h v h' eq =
      (outcome-value (roc.register_of h r) v (ap (λ x. x.0) eq), ap (λ x. x.1) (sym eq))

  pub send-Gives :
      (c : List ℕ) (h : Trace) (a : ⊤) (h' : Trace)
      → Gives (send_command c) h a h'
      → h' ≡ sent c ∷ h
  unfolding send_command
  send-Gives c h a h' eq = ap (λ x. x.1) (sym eq)
