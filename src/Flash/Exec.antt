-- ===== src/Flash/Exec.antt =====
-- What a method of `FlashSession` does: it reads and changes the session, talks to the ROCs, the
-- DCS lock and the clock, and returns or throws. The ROCs, the lock and the clock are not code of
-- this repository: a `Platform` answers each access by any function of all that went before.
pub mod Sends
use otsdaq_mu2e.Base.{
  ℕ, zero, suc, ◌+◌, ◌-◌, ◌/◌, ◌%◌, ◌^◌, ◌≡◌, ◌⊎◌, inl, inr, Bool, true, false, Option, none, some,
  List, [], ◌∷◌, ⊤,
}
use otsdaq_mu2e.Base.Assoc.{Map, find_or, insert}
use otsdaq_mu2e.Flash.Types.{
  RocState, RocResult, fresh_result, Reason, Note, link_error, has_failed, is_failed,
}

-- One access to the world outside the session; `wrote` names the ROC, the register and the words.
pub data Event : Type 0 where
  read : ℕ → ℕ → Event
  wrote : ℕ → ℕ → List ℕ → Event
  block : ℕ → ℕ → ℕ → Event
  resynced : ℕ → Event
  locked unlocked clocked : Event
  slept : ℕ → Event

-- All accesses so far, the latest first.
abbrev pub History : Type 0
History = List Event

-- How a link answers: a value, or an exception with its `what()`.
pub data Answer (A : Type 0) : Type 0 where
  value : A → Answer A
  throws : ℕ → Answer A

-- `RocPort` (`read_register`, `write_block`, `read_block`, `resync_link`), the steady clock in
-- nanoseconds, and the bound on the rounds of each polling loop.
pub record Platform : Type 0 where
  pub register_value : History → ℕ → ℕ → Answer ℕ
  pub write_answer : History → ℕ → ℕ → List ℕ → Answer ⊤
  pub block_words : History → ℕ → ℕ → ℕ → Answer (List ℕ)
  pub resync_answer : History → ℕ → Answer Bool
  pub now : History → ℕ
  pub rounds : ℕ

-- The members of `FlashSession` that change, and the history.
pub record Session : Type 0 where
  pub history : History
  pub results : Map RocResult
  pub tag : ℕ
  pub version_before : Map ℕ

-- `stalled`: a polling loop has used up its rounds.
pub data Outcome (A : Type 0) : Type 0 where
  returned : A → Outcome A
  threw : Reason → Outcome A
  stalled : Outcome A

abbrev pub Action : Type 0 → Type 0
Action A = Session → Outcome A × Session

module _ {A : Type 0} where
  unfoldable pub pure : A → Action A
  pure a s = (returned a, s)

  unfoldable pub throw : Reason → Action A
  throw e s = (threw e, s)

  unfoldable pub stall : Action A
  stall s = (stalled, s)

  unfoldable pub gets : (Session → A) → Action A
  gets f s = (returned (f s), s)

  -- `try { m } catch(const std::exception& e)`: the exception as a value. What `m` changed before
  -- it threw stays changed.
  abbrev pub catch_result : Outcome A → Outcome (Reason ⊎ A)
  catch_result (returned a) = returned (inr a)
  catch_result (threw e) = returned (inl e)
  catch_result stalled = stalled

  unfoldable pub attempt : Action A → Action (Reason ⊎ A)
  attempt m s = let (r, s') = m s in (catch_result r, s')

module _ {A B : Type 0} where
  abbrev pub continue : Outcome A → (A → Action B) → Action B
  continue (returned a) f = f a
  continue (threw e) f = throw e
  continue stalled f = stall

infixl 5 ◌>>=◌ ◌>>◌
unfoldable pub ◌>>=◌ : {A B : Type 0} → Action A → (A → Action B) → Action B
◌>>=◌ m f s = let (r, s') = m s in continue r f s'

unfoldable pub ◌>>◌ : {B : Type 0} → Action ⊤ → Action B → Action B
m >> k = m >>= λ _. k

unfoldable pub modify : (Session → Session) → Action ⊤
modify f s = (returned tt, f s)

-- A test between two actions. Unlike `if`, it is shut, so that a rule can be stated for it.
infix 1 branch◌then◌else◌
unfoldable pub branch◌then◌else◌ : {A : Type 0} → Bool → Action A → Action A → Action A
branch true then m else n = m
branch false then m else n = n

-- A test whether there is a value, and the action in either case.
unfoldable pub on_option : {A B : Type 0} → Option B → Action A → (B → Action A) → Action A
on_option none m f = m
on_option (some b) m f = f b

-- `for(auto x : xs) body(x)`, over a state of local variables.
unfoldable pub fold_m : {A B : Type 0} → (B → A → Action B) → B → List A → Action B
fold_m f b [] = pure b
fold_m f b (x ∷ xs) = f b x >>= λ b'. fold_m f b' xs

unfoldable pub for_each : {A : Type 0} → (A → Action ⊤) → List A → Action ⊤
for_each f [] = pure tt
for_each f (x ∷ xs) = f x >> for_each f xs
