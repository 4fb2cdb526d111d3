-- ===== src/Spi/Exec/Lock.antt =====
-- The action lock: who holds it while commands go out, and who holds it at the end of an action.
-- One rule for each way to build an action.
use otsdaq_mu2e.Base.{ℕ, ◌≡◌, refl, Bool, true, false, List, [], ◌∷◌, ⊤}
use otsdaq_mu2e.Flash.Exec.{Answer, value, throws}
use otsdaq_mu2e.Spi.Exec.{
  got, sent, fetched, took, freed, napped, Trace, is_held, Roc, SpiError, Ending, done, thrown,
  waiting, polling, Spi, give, raise, keep_polling, choose, carry_on, ◌>>=◌, ◌>>◌, outcome_of,
  release, guarded, release_thrown, or_release, with_try_lock, unlock, nap, get_register,
  send_command, fetch_words,
}

-- What holds of the lock before an action, and what then holds behind it, whether it returns,
-- throws, waits or polls; and every command so far was sent under the lock.
abbrev pub SentUnderLock : Trace → Type 0
SentUnderLock [] = Unit
SentUnderLock (got a ∷ h) = SentUnderLock h
SentUnderLock (sent c ∷ h) = (is_held h ≡ true) × SentUnderLock h
SentUnderLock (fetched n ∷ h) = SentUnderLock h
SentUnderLock (took ∷ h) = SentUnderLock h
SentUnderLock (freed ∷ h) = SentUnderLock h
SentUnderLock (napped ∷ h) = SentUnderLock h

-- The lock behind an action: `ret` when it has returned, `thr` when it has thrown, and taken while
-- it waits or polls.
abbrev pub LockAfter : {A : Type 0} → Bool → Bool → Ending A → Trace → Type 0
LockAfter ret thr (done a) h = is_held h ≡ ret
LockAfter ret thr (thrown e) h = is_held h ≡ thr
LockAfter ret thr waiting h = is_held h ≡ true
LockAfter ret thr polling h = is_held h ≡ true

-- An action that is begun with the lock in the state `pre`.
pub record Locks {A : Type 0} (pre ret thr : Bool) (m : Spi A) : Type 0 where
  pub lock : (h : Trace) → is_held h ≡ pre → LockAfter ret thr (m h).0 (m h).1
  pub sends : (h : Trace) → is_held h ≡ pre → SentUnderLock h → SentUnderLock (m h).1

module _ {A : Type 0} where
  pub Locks-give : {p t : Bool} (a : A) → Locks p p t (give a)
  unfolding give
  Locks-give a = record { lock = λ h k. k; sends = λ h k s. s }

  pub Locks-raise : {p r : Bool} (e : SpiError) → Locks p r p (raise {A = A} e)
  unfolding raise
  Locks-raise e = record { lock = λ h k. k; sends = λ h k s. s }

  pub Locks-polling : {r t : Bool} → Locks true r t (keep_polling {A = A})
  unfolding keep_polling
  Locks-polling = record { lock = λ h k. k; sends = λ h k s. s }

  pub Locks-choose :
      {p r t : Bool} (b : Bool) (m n : Spi A)
      → Locks p r t m
      → Locks p r t n
      → Locks p r t (choose b m n)
  unfolding choose
  Locks-choose true m n km kn = km
  Locks-choose false m n km kn = kn

  release-LockAfter :
      (e : Ending A) (h : Trace)
      → LockAfter true true e h
      → LockAfter false false (release (e, h)).0 (release (e, h)).1
  unfolding release
  release-LockAfter (done a) h k = refl
  release-LockAfter (thrown e) h k = refl
  release-LockAfter waiting h k = k
  release-LockAfter polling h k = k

  release-SentUnderLock :
      (e : Ending A) (h : Trace) → SentUnderLock h → SentUnderLock (release (e, h)).1
  unfolding release
  release-SentUnderLock (done a) h s = s
  release-SentUnderLock (thrown e) h s = s
  release-SentUnderLock waiting h s = s
  release-SentUnderLock polling h s = s

  pub Locks-guarded : (m : Spi A) → Locks true true true m → Locks false false false (guarded m)
  unfolding guarded choose
  Locks-guarded m km = record {
    lock =
        λ h k. rw k (release-LockAfter (m (took ∷ h)).0 (m (took ∷ h)).1 (km.lock (took ∷ h) refl));
    sends = λ h k s.
        rw k (release-SentUnderLock (m (took ∷ h)).0 (m (took ∷ h)).1 (km.sends (took ∷ h) refl s));
  }

  thrown-LockAfter :
      (e : Ending A) (h : Trace)
      → LockAfter true true e h
      → LockAfter true false (release_thrown (e, h)).0 (release_thrown (e, h)).1
  unfolding release_thrown
  thrown-LockAfter (done a) h k = k
  thrown-LockAfter (thrown e) h k = refl
  thrown-LockAfter waiting h k = k
  thrown-LockAfter polling h k = k

  thrown-SentUnderLock :
      (e : Ending A) (h : Trace) → SentUnderLock h → SentUnderLock (release_thrown (e, h)).1
  unfolding release_thrown
  thrown-SentUnderLock (done a) h s = s
  thrown-SentUnderLock (thrown e) h s = s
  thrown-SentUnderLock waiting h s = s
  thrown-SentUnderLock polling h s = s

  pub Locks-or_release : (m : Spi A) → Locks true true true m → Locks true true false (or_release m)
  unfolding or_release
  Locks-or_release m km = record {
    lock = λ h k. thrown-LockAfter (m h).0 (m h).1 (km.lock h k);
    sends = λ h k s. thrown-SentUnderLock (m h).0 (m h).1 (km.sends h k s);
  }

  pub Locks-try_lock :
      {r t : Bool} (m : Spi A) → Locks true r t m → Locks false r t (with_try_lock m)
  unfolding with_try_lock choose
  Locks-try_lock m km = record {
    lock = λ h k. rw k (km.lock (took ∷ h) refl);
    sends = λ h k s. rw k (km.sends (took ∷ h) refl s);
  }

module _ {A B : Type 0} {q r t : Bool} where
  after_lock :
      (f : A → Spi B) (e : Ending A) (h : Trace)
      → ((a : A) → Locks q r t (f a))
      → LockAfter q t e h
      → LockAfter r t (carry_on e f h).0 (carry_on e f h).1
  unfolding carry_on raise
  after_lock f (done a) h kf k = (kf a).lock h k
  after_lock f (thrown e) h kf k = k
  after_lock f waiting h kf k = k
  after_lock f polling h kf k = k

  after_sends :
      (f : A → Spi B) (e : Ending A) (h : Trace)
      → ((a : A) → Locks q r t (f a))
      → LockAfter q t e h
      → SentUnderLock h
      → SentUnderLock (carry_on e f h).1
  unfolding carry_on raise
  after_sends f (done a) h kf k s = (kf a).sends h k s
  after_sends f (thrown e) h kf k s = s
  after_sends f waiting h kf k s = s
  after_sends f polling h kf k s = s

module _ {A B : Type 0} {p q r t : Bool} where
  pub Locks-bind :
      (m : Spi A) (f : A → Spi B)
      → Locks p q t m
      → ((a : A) → Locks q r t (f a))
      → Locks p r t (m >>= f)
  unfolding ◌>>=◌
  Locks-bind m f km kf = record {
    lock = λ h k. after_lock f (m h).0 (m h).1 kf (km.lock h k);
    sends = λ h k s. after_sends f (m h).0 (m h).1 kf (km.lock h k) (km.sends h k s);
  }

module _ {B : Type 0} {p q r t : Bool} where
  pub Locks-then : (m : Spi ⊤) (k : Spi B) → Locks p q t m → Locks q r t k → Locks p r t (m >> k)
  unfolding ◌>>◌
  Locks-then m k km kk = Locks-bind m (λ _. k) km (λ _. kk)

pub Locks-unlock : {p t : Bool} → Locks p false t unlock
unfolding unlock
Locks-unlock = record { lock = λ h k. refl; sends = λ h k s. s }

pub Locks-nap : {p t : Bool} → Locks p p t nap
unfolding nap
Locks-nap = record { lock = λ h k. k; sends = λ h k s. s }

outcome-LockAfter :
    {A : Type 0} {p : Bool} (a : Answer A) (h : Trace)
    → is_held h ≡ p
    → LockAfter p p (outcome_of a) h
unfolding outcome_of
outcome-LockAfter (value v) h k = k
outcome-LockAfter (throws n) h k = k

module _ ⦃roc : Roc⦄ where
  pub Locks-get : {p : Bool} (a : ℕ) → Locks p p p (get_register a)
  unfolding get_register
  Locks-get a = record {
    lock = λ h k. outcome-LockAfter (roc.register_of h a) (got a ∷ h) k;
    sends = λ h k s. s;
  }

  pub Locks-fetch : {p : Bool} (n : ℕ) → Locks p p p (fetch_words n)
  unfolding fetch_words
  Locks-fetch n = record {
    lock = λ h k. outcome-LockAfter (roc.fetched_words h n) (fetched n ∷ h) k;
    sends = λ h k s. s;
  }

  pub Locks-send : (c : List ℕ) → Locks true true true (send_command c)
  unfolding send_command
  Locks-send c = record {
    lock = λ h k. outcome-LockAfter (roc.sent_answer h c) (sent c ∷ h) k;
    sends = λ h k s. (k, s);
  }
