-- ===== src/Flash/Exec/Sends.antt =====
-- What an action sends to the ROCs: every command of the history satisfies `Q`, which may speak of
-- the ROC, the words and the history before the command. One rule for each way to build an action.
use otsdaq_mu2e.Base.{
  ℕ, ◌≡◌, refl, Bool, true, false, Option, none, some, List, [], ◌∷◌, if◌then◌else◌, ⊤,
}
use otsdaq_mu2e.Flash.Types.{Reason}
use otsdaq_mu2e.Flash.Exec.{
  branch◌then◌else◌, on_option, Event, read, wrote, block, resynced, locked, unlocked, clocked,
  slept, History, Session, Action, Outcome, returned, threw, stalled, pure, throw, stall, gets,
  modify, attempt, ◌>>=◌, ◌>>◌, fold_m, for_each, continue,
}

-- A condition on a command: the ROC, the words, and the history before it.
abbrev pub Condition : Type 1
Condition = ℕ → List ℕ → History → Type 0

abbrev pub EventMeets : Condition → Event → History → Type 0
EventMeets Q (wrote r a words) h = Q r words h
EventMeets Q (read r a) h = Unit
EventMeets Q (block r a n) h = Unit
EventMeets Q (resynced r) h = Unit
EventMeets Q locked h = Unit
EventMeets Q unlocked h = Unit
EventMeets Q clocked h = Unit
EventMeets Q (slept n) h = Unit

abbrev pub AllSent : Condition → History → Type 0
AllSent Q [] = Unit
AllSent Q (e ∷ h) = EventMeets Q e h × AllSent Q h

-- Whether `m` returns, throws or stalls, all that has been sent satisfies `Q` if what was sent
-- before does.
pub record Sends {A : Type 0} (Q : Condition) (m : Action A) : Type 0 where
  pub at : (s : Session) → AllSent Q s.history → AllSent Q (m s).1.history

module _ {Q : Condition} {A : Type 0} where
  pub Sends-pure : (a : A) → Sends Q (pure a)
  unfolding pure
  Sends-pure a = record { at = λ s h. h }

  pub Sends-throw : (e : Reason) → Sends Q (throw {A = A} e)
  unfolding throw
  Sends-throw e = record { at = λ s h. h }

  pub Sends-stall : Sends Q (stall {A = A})
  unfolding stall
  Sends-stall = record { at = λ s h. h }

  pub Sends-gets : (f : Session → A) → Sends Q (gets f)
  unfolding gets
  Sends-gets f = record { at = λ s h. h }

  pub Sends-branch :
      (b : Bool) (m n : Action A)
      → (b ≡ true → Sends Q m)
      → (b ≡ false → Sends Q n)
      → Sends Q (branch b then m else n)
  unfolding branch◌then◌else◌
  Sends-branch true m n km kn = km refl
  Sends-branch false m n km kn = kn refl

  pub Sends-option :
      {C : Type 0} (o : Option C) (m : Action A) (n : C → Action A)
      → Sends Q m
      → ((c : C) → Sends Q (n c))
      → Sends Q (on_option o m n)
  unfolding on_option
  Sends-option none m n km kn = km
  Sends-option (some c) m n km kn = kn c

  pub Sends-attempt : (m : Action A) → Sends Q m → Sends Q (attempt m)
  unfolding attempt
  Sends-attempt m km = record { at = λ s h. km.at s h }

module _ {Q : Condition} {A B : Type 0} where
  Sends-continue :
      (r : Outcome A) (f : A → Action B) → ((a : A) → Sends Q (f a)) → Sends Q (continue r f)
  unfolding throw stall
  Sends-continue (returned a) f kf = kf a
  Sends-continue (threw e) f kf = Sends-throw e
  Sends-continue stalled f kf = Sends-stall

  pub Sends-bind :
      (m : Action A) (f : A → Action B) → Sends Q m → ((a : A) → Sends Q (f a)) → Sends Q (m >>= f)
  unfolding ◌>>=◌
  Sends-bind m f km kf = record { at = λ s h. (Sends-continue (m s).0 f kf).at (m s).1 (km.at s h) }

module _ {Q : Condition} {A B : Type 0} where
  pub Sends-fold :
      (f : B → A → Action B) (b : B) (xs : List A)
      → ((b : B) (x : A) → Sends Q (f b x))
      → Sends Q (fold_m f b xs)
  unfolding fold_m
  Sends-fold f b [] kf = Sends-pure b
  Sends-fold f b (x ∷ xs) kf =
      Sends-bind (f b x) (λ b'. fold_m f b' xs) (kf b x) (λ b'. Sends-fold f b' xs kf)

module _ {Q : Condition} where
  pub Sends-modify :
      (f : Session → Session) → ((s : Session) → (f s).history ≡ s.history) → Sends Q (modify f)
  unfolding modify
  Sends-modify f same = record { at = λ s h. rw (same s) h }

module _ {Q : Condition} {B : Type 0} where
  pub Sends-then : (m : Action ⊤) (k : Action B) → Sends Q m → Sends Q k → Sends Q (m >> k)
  unfolding ◌>>◌
  Sends-then m k km kk = Sends-bind m (λ _. k) km (λ _. kk)

module _ {Q : Condition} {B : Type 0} where
  pub Sends-for_each :
      (f : B → Action ⊤) (xs : List B) → ((x : B) → Sends Q (f x)) → Sends Q (for_each f xs)
  unfolding for_each
  Sends-for_each f [] kf = Sends-pure tt
  Sends-for_each f (x ∷ xs) kf = Sends-then (f x) (for_each f xs) (kf x) (Sends-for_each f xs kf)

pub ruleset sends_rules = (
  Sends-pure, Sends-throw, Sends-stall, Sends-gets, Sends-branch, Sends-option, Sends-attempt,
  Sends-bind, Sends-then, Sends-fold, Sends-for_each,
)
