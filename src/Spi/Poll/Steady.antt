-- ===== src/Spi/Poll/Steady.antt =====
-- Actions that leave the action lock as it is: `isActionDone` and the waits for it.
use otsdaq_mu2e.Base.{ℕ, zero, suc, Bool, true, false, ◌&&◌, List, ⊤}
use otsdaq_mu2e.Spi.Exec.{
  Roc, Phase, SpiError, Spi, give, raise, choose, ◌>>=◌, ◌>>◌, nap, get_register, send_command,
  fetch_words,
}
use otsdaq_mu2e.Spi.Poll.{
  done_status, report_done, action_done, is_action_done, report_timeout, await_done, await_cycle,
}
use otsdaq_mu2e.Spi.Exec.Lock.{
  Locks, Locks-give, Locks-raise, Locks-choose, Locks-then, Locks-bind, Locks-nap, Locks-get,
  Locks-fetch, Locks-send,
}

-- An action that leaves the lock as it is.
pub record Steady {A : Type 0} (b : Bool) (m : Spi A) : Type 0 where
  pub locks : Locks b b b m

module _ {A : Type 0} {b : Bool} where
  pub Steady-give : (a : A) → Steady b (give a)
  Steady-give a = record { locks = Locks-give a }

  pub Steady-raise : (e : SpiError) → Steady b (raise {A = A} e)
  Steady-raise e = record { locks = Locks-raise e }

  pub Steady-choose : (x : Bool) (m n : Spi A) → Steady b m → Steady b n → Steady b (choose x m n)
  Steady-choose x m n km kn = record { locks = Locks-choose x m n km.locks kn.locks }

  pub Steady-then : (m : Spi ⊤) (k : Spi A) → Steady b m → Steady b k → Steady b (m >> k)
  Steady-then m k km kk = record { locks = Locks-then m k km.locks kk.locks }

module _ {A B : Type 0} {b : Bool} where
  pub Steady-bind :
      (m : Spi A) (f : A → Spi B) → Steady b m → ((a : A) → Steady b (f a)) → Steady b (m >>= f)
  Steady-bind m f km kf = record { locks = Locks-bind m f km.locks (λ a. (kf a).locks) }

module _ {b : Bool} where
  pub Steady-nap : Steady b nap
  Steady-nap = record { locks = Locks-nap }

  module _ ⦃roc : Roc⦄ where
    pub Steady-get : (a : ℕ) → Steady b (get_register a)
    Steady-get a = record { locks = Locks-get a }

    pub Steady-fetch : (n : ℕ) → Steady b (fetch_words n)
    Steady-fetch n = record { locks = Locks-fetch n }

module _ ⦃roc : Roc⦄ where
  pub Steady-send : (c : List ℕ) → Steady true (send_command c)
  Steady-send c = record { locks = Locks-send c }

pub ruleset steady_rules = (
  Steady-give, Steady-raise, Steady-choose, Steady-then, Steady-bind, Steady-nap, Steady-get,
  Steady-fetch, Steady-send,
)

module _ {b : Bool} ⦃roc : Roc⦄ where
  done_status-Steady : (w : Bool) → Steady b (done_status w)
  unfolding done_status
  done_status-Steady w = search steady_rules depth 9

  never_chosen :
      {A : Type 0} (x : Bool) (m n : Spi A) → Steady b n → Steady b (choose (x && false) m n)
  unfolding choose
  never_chosen true m n kn = kn
  never_chosen false m n kn = kn

  -- The lock is freed only on request.
  pub is_action_done-Steady : Steady b is_action_done
  unfolding is_action_done action_done report_done
  is_action_done-Steady = search (steady_rules, done_status-Steady, never_chosen) depth 12

  report_timeout-Steady : (r : Bool) (phase : Phase) → Steady b (report_timeout r phase)
  unfolding report_timeout
  report_timeout-Steady true phase = search steady_rules depth 9
  report_timeout-Steady false phase = search steady_rules depth 9

  pub await_done-Steady :
      (want : Bool) (left : ℕ) (r : Bool) (phase : Phase) → Steady b (await_done want left r phase)
  unfolding await_done
  await_done-Steady want zero r phase =
      search (steady_rules, is_action_done-Steady, report_timeout-Steady) depth 9
  await_done-Steady want (suc left) r phase = Steady-bind _ _ is_action_done-Steady λ d.
      Steady-choose _ _ _ (Steady-give tt)
        (Steady-then _ _ Steady-nap (await_done-Steady want left r phase))

  pub await_cycle-Steady : (x y : ℕ) (r : Bool) → Steady b (await_cycle x y r)
  unfolding await_cycle
  await_cycle-Steady x y r = search (steady_rules, await_done-Steady) depth 9
