-- ===== src/Spi/Exec/Naps.antt =====
-- How long an action waits: the number of naps of 10 ms after which it has ended. One rule for each
-- way to build an action.
use otsdaq_mu2e.Base.{ℕ, suc, ◌+◌, ◌≡◌, ◌≤◌, refl, Bool, true, false, List, [], ◌∷◌, arith, ⊤}
use otsdaq_mu2e.Flash.Exec.{Answer, value, throws}
use otsdaq_mu2e.Spi.Exec.{
  got, sent, fetched, took, freed, napped, Trace, is_held, Roc, SpiError, Ending, done, thrown,
  waiting, polling, Spi, give, raise, lock_busy, choose, carry_on, ◌>>=◌, ◌>>◌, outcome_of, release,
  guarded, release_thrown, or_release, with_try_lock, unlock, nap, get_register, send_command,
  fetch_words,
}

abbrev pub naps : Trace → ℕ
naps [] = 0
naps (got a ∷ h) = naps h
naps (sent c ∷ h) = naps h
naps (fetched n ∷ h) = naps h
naps (took ∷ h) = naps h
naps (freed ∷ h) = naps h
naps (napped ∷ h) = suc (naps h)

-- The action has returned or thrown, or waits for the lock; it does not poll without end.
abbrev pub IsOver : {A : Type 0} → Ending A → Type 0
IsOver (done a) = Unit
IsOver (thrown e) = Unit
IsOver waiting = Unit
IsOver polling = ⊥

-- Whatever the ROC answers, the action is over after at most `n` naps.
pub record EndsIn {A : Type 0} (n : ℕ) (m : Spi A) : Type 0 where
  pub bound : (h : Trace) → naps (m h).1 ≤ naps h + n
  pub over : (h : Trace) → IsOver (m h).0

module _ {A : Type 0} where
  pub EndsIn-give : (n : ℕ) (a : A) → EndsIn n (give a)
  unfolding give
  EndsIn-give n a = record { bound = λ h. omega arith; over = λ h. tt }

  pub EndsIn-raise : (n : ℕ) (e : SpiError) → EndsIn n (raise {A = A} e)
  unfolding raise
  EndsIn-raise n e = record { bound = λ h. omega arith; over = λ h. tt }

  pub EndsIn-choose :
      (n : ℕ) (b : Bool) (k m : Spi A) → EndsIn n k → EndsIn n m → EndsIn n (choose b k m)
  unfolding choose
  EndsIn-choose n true k m kk km = kk
  EndsIn-choose n false k m kk km = km

  pub EndsIn-more : (j n : ℕ) (m : Spi A) → j ≤ n → EndsIn j m → EndsIn n m
  EndsIn-more j n m le km = record { bound = λ h. omega (arith, km.bound h); over = km.over }

  release_bound : (e : Ending A) (h : Trace) → naps (release (e, h)).1 ≡ naps h
  unfolding release
  release_bound (done a) h = refl
  release_bound (thrown e) h = refl
  release_bound waiting h = refl
  release_bound polling h = refl

  release-IsOver : (e : Ending A) (h : Trace) → IsOver e → IsOver (release (e, h)).0
  unfolding release
  release-IsOver (done a) h k = tt
  release-IsOver (thrown e) h k = tt
  release-IsOver waiting h k = tt
  release-IsOver polling h k = k

  pub EndsIn-guarded : (n : ℕ) (m : Spi A) → EndsIn n m → EndsIn n (guarded m)
  unfolding guarded
  EndsIn-guarded n m km = record {
    bound = λ h.
        (EndsIn-choose n (is_held h) (λ g. (waiting, g)) (λ g. release (m (took ∷ g))) idle
            inside).bound
          h;
    over = λ h.
        (EndsIn-choose n (is_held h) (λ g. (waiting, g)) (λ g. release (m (took ∷ g))) idle
            inside).over
          h;
  }
    where
      idle : EndsIn {A = A} n (λ g. (waiting, g))
      idle = record { bound = λ g. omega arith; over = λ g. tt }

      inside : EndsIn n (λ g. release (m (took ∷ g)))
      inside = record {
        bound = λ g.
            omega (arith, release_bound (m (took ∷ g)).0 (m (took ∷ g)).1, km.bound (took ∷ g));
        over = λ g. release-IsOver (m (took ∷ g)).0 (m (took ∷ g)).1 (km.over (took ∷ g));
      }

  thrown_bound : (e : Ending A) (h : Trace) → naps (release_thrown (e, h)).1 ≡ naps h
  unfolding release_thrown
  thrown_bound (done a) h = refl
  thrown_bound (thrown e) h = refl
  thrown_bound waiting h = refl
  thrown_bound polling h = refl

  thrown-IsOver : (e : Ending A) (h : Trace) → IsOver e → IsOver (release_thrown (e, h)).0
  unfolding release_thrown
  thrown-IsOver (done a) h k = tt
  thrown-IsOver (thrown e) h k = tt
  thrown-IsOver waiting h k = tt
  thrown-IsOver polling h k = k

  pub EndsIn-or_release : (n : ℕ) (m : Spi A) → EndsIn n m → EndsIn n (or_release m)
  unfolding or_release
  EndsIn-or_release n m km = record {
    bound = λ h. omega (arith, thrown_bound (m h).0 (m h).1, km.bound h);
    over = λ h. thrown-IsOver (m h).0 (m h).1 (km.over h);
  }

  pub EndsIn-try_lock : (n : ℕ) (m : Spi A) → EndsIn n m → EndsIn n (with_try_lock m)
  unfolding with_try_lock
  EndsIn-try_lock n m km = record {
    bound = λ h. (EndsIn-choose n (is_held h) _ _ (EndsIn-raise n lock_busy) inside).bound h;
    over = λ h. (EndsIn-choose n (is_held h) _ _ (EndsIn-raise n lock_busy) inside).over h;
  }
    where
      inside : EndsIn n (λ g. m (took ∷ g))
      inside = record {
        bound = λ g. omega (arith, km.bound (took ∷ g));
        over = λ g. km.over (took ∷ g);
      }

module _ {A B : Type 0} where
  carry_on_bound :
      (i : ℕ) (f : A → Spi B) (e : Ending A) (h : Trace)
      → ((a : A) → EndsIn i (f a))
      → naps (carry_on e f h).1 ≤ naps h + i
  unfolding carry_on raise
  carry_on_bound i f (done a) h kf = (kf a).bound h
  carry_on_bound i f (thrown e) h kf = omega arith
  carry_on_bound i f waiting h kf = omega arith
  carry_on_bound i f polling h kf = omega arith

  carry_on-IsOver :
      (i : ℕ) (f : A → Spi B) (e : Ending A) (h : Trace)
      → IsOver e
      → ((a : A) → EndsIn i (f a))
      → IsOver (carry_on e f h).0
  unfolding carry_on raise
  carry_on-IsOver i f (done a) h k kf = (kf a).over h
  carry_on-IsOver i f (thrown e) h k kf = tt
  carry_on-IsOver i f waiting h k kf = tt
  carry_on-IsOver i f polling h k kf = k

  pub EndsIn-bind :
      (j i n : ℕ) (m : Spi A) (f : A → Spi B)
      → j + i ≤ n
      → EndsIn j m
      → ((a : A) → EndsIn i (f a))
      → EndsIn n (m >>= f)
  unfolding ◌>>=◌
  EndsIn-bind j i n m f le km kf = record {
    bound = λ h. omega (arith, km.bound h, carry_on_bound i f (m h).0 (m h).1 kf);
    over = λ h. carry_on-IsOver i f (m h).0 (m h).1 (km.over h) kf;
  }

module _ {B : Type 0} where
  pub EndsIn-then :
      (j i n : ℕ) (m : Spi ⊤) (k : Spi B) → j + i ≤ n → EndsIn j m → EndsIn i k → EndsIn n (m >> k)
  unfolding ◌>>◌
  EndsIn-then j i n m k le km kk = EndsIn-bind j i n m (λ _. k) le km (λ _. kk)

outcome-IsOver : {A : Type 0} (a : Answer A) → IsOver (outcome_of a)
unfolding outcome_of
outcome-IsOver (value v) = tt
outcome-IsOver (throws n) = tt

pub EndsIn-unlock : EndsIn 0 unlock
unfolding unlock
EndsIn-unlock = record { bound = λ h. omega arith; over = λ h. tt }

pub EndsIn-nap : EndsIn 1 nap
unfolding nap
EndsIn-nap = record { bound = λ h. omega arith; over = λ h. tt }

module _ ⦃roc : Roc⦄ where
  pub EndsIn-get : (a : ℕ) → EndsIn 0 (get_register a)
  unfolding get_register
  EndsIn-get a = record {
    bound = λ h. omega arith;
    over = λ h. outcome-IsOver (roc.register_of h a);
  }

  pub EndsIn-send : (c : List ℕ) → EndsIn 0 (send_command c)
  unfolding send_command
  EndsIn-send c = record {
    bound = λ h. omega arith;
    over = λ h. outcome-IsOver (roc.sent_answer h c);
  }

  pub EndsIn-fetch : (n : ℕ) → EndsIn 0 (fetch_words n)
  unfolding fetch_words
  EndsIn-fetch n = record {
    bound = λ h. omega arith;
    over = λ h. outcome-IsOver (roc.fetched_words h n);
  }

  -- What does not nap at all.
  pub at_once :
      {A B : Type 0} (m : Spi A) (f : A → Spi B)
      → EndsIn 0 m
      → ((a : A) → EndsIn 0 (f a))
      → EndsIn 0 (m >>= f)
  at_once m f = EndsIn-bind 0 0 0 m f (omega arith)

  pub at_once_then :
      {B : Type 0} (m : Spi ⊤) (k : Spi B) → EndsIn 0 m → EndsIn 0 k → EndsIn 0 (m >> k)
  at_once_then m k = EndsIn-then 0 0 0 m k (omega arith)

pub ruleset at_once_rules = (
  EndsIn-give, EndsIn-raise, EndsIn-choose, at_once, at_once_then, EndsIn-unlock, EndsIn-get,
  EndsIn-send, EndsIn-fetch,
)
