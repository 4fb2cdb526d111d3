-- ===== src/Flash/Segment/Legacy.antt =====
-- `waitLegacyDone` and `waitLegacyAll`: the completion of a command of an older MiV, which sends
-- no reply: DONE drops and is set again, or a minimum time has passed.
pub mod Sends
use otsdaq_mu2e.Base.{
  ℕ, zero, suc, ◌+◌, ◌-◌, ◌/◌, Bool, true, false, not, ◌&&◌, ◌||◌, ◌⊎◌, inl, inr, Option, none,
  some, List, [], ◌∷◌, if◌then◌else◌, ◌==◌, ltb, leb, bit15, length, is_empty, ⊤,
}
use otsdaq_mu2e.Base.Assoc.{Map, lookup, has, find_or, insert}
use otsdaq_mu2e.Flash.Types.{Options, Stage, Reason, during, done_not_seen, reg_done}
use otsdaq_mu2e.Flash.Exec.{
  branch◌then◌else◌, Platform, Session, Action, pure, stall, gets, attempt, fold_m, ◌>>=◌, ◌>>◌,
}
use otsdaq_mu2e.Flash.Port.{read_register, ms_since, sleep_ms}

-- `if(!err.count(r)) err[r] = why`
abbrev pub set_if_new : ℕ → Reason → Map Reason → Map Reason
set_if_new r why err = if has r err then err else insert r why err

-- The local variables of `waitLegacyAll`; `left` is the number of ROCs not yet done.
pub record Waiting : Type 0 where
  pub saw_busy : Map Bool
  pub done : Map Bool
  pub left : ℕ
  pub err : Map Reason

abbrev pub mark_done : ℕ → Waiting → Waiting
mark_done r w = record w { done = insert r true w.done; left = w.left - 1 }

module _ ⦃p : Platform⦄ where
  -- The test of the timeout in `waitLegacyDone`, and the next round.
  unfoldable pub late_or_again :
      Options → ℕ → ℕ → ℕ → Action (Option Reason) → Action (Option Reason)
  late_or_again o sent timeout d again = do
    t ← ms_since sent
    branch ltb timeout t
        then pure (some (done_not_seen timeout d))
        else (sleep_ms o.poll_ms >> again)

  -- One round of `waitLegacyDone`; the rest of the loop is told whether a drop has been seen.
  unfoldable pub legacy_done_round :
      (Bool → Action (Option Reason)) → Options → ℕ → Bool → ℕ → ℕ → ℕ → Action (Option Reason)
  legacy_done_round again o r saw_busy sent timeout min_ms = do
    d ← read_register r reg_done
    branch not (bit15 d)
        then late_or_again o sent timeout d (again true)
        else branch saw_busy
        then pure none
        else branch ltb 0 min_ms
        then (do
          t ← ms_since sent
          branch leb min_ms t then pure none else late_or_again o sent timeout d (again saw_busy))
        else late_or_again o sent timeout d (again saw_busy)

  unfoldable pub legacy_done_rounds : ℕ → Options → ℕ → Bool → ℕ → ℕ → ℕ → Action (Option Reason)
  legacy_done_rounds zero o r saw_busy sent timeout min_ms = stall
  legacy_done_rounds (suc fuel) o r saw_busy sent timeout min_ms =
      legacy_done_round (λ busy. legacy_done_rounds fuel o r busy sent timeout min_ms) o r saw_busy
        sent timeout min_ms

  -- `waitLegacyDone`: `none` is success
  unfoldable pub wait_legacy_done : Options → ℕ → ℕ → ℕ → ℕ → Action (Option Reason)
  wait_legacy_done o r sent timeout min_ms =
      legacy_done_rounds p.rounds o r false sent timeout min_ms

  -- The test of the timeout in `waitLegacyAll`.
  unfoldable pub legacy_late : Stage → ℕ → ℕ → ℕ → ℕ → Waiting → Action Waiting
  legacy_late what timeout r sent d w = do
    t ← ms_since sent
    pure (
        if ltb timeout t
        then mark_done r
            (record w { err = set_if_new r (during what (done_not_seen timeout d)) w.err })
        else w)

  -- The body of the `try` in `waitLegacyAll` for one ROC.
  unfoldable pub legacy_poll : Stage → ℕ → ℕ → Waiting → ℕ → ℕ → Action Waiting
  legacy_poll what timeout min_ms w r sent = do
    d ← read_register r reg_done
    branch not (bit15 d)
        then legacy_late what timeout r sent d (record w { saw_busy = insert r true w.saw_busy })
        else branch find_or false r w.saw_busy
        then pure (mark_done r w)
        else (do
          t ← ms_since sent
          branch leb min_ms t then pure (mark_done r w) else legacy_late what timeout r sent d w)

  -- The `catch` of `waitLegacyAll`: a ROC whose link throws is done, with an error.
  unfoldable pub legacy_polled : Stage → Waiting → ℕ → Reason ⊎ Waiting → Waiting
  legacy_polled what w r (inl e) =
      mark_done r (record w { err = set_if_new r (during what e) w.err })
  legacy_polled what w r (inr w') = w'

  unfoldable pub legacy_visit : Stage → ℕ → ℕ → Waiting → ℕ × ℕ → Action Waiting
  legacy_visit what timeout min_ms w (r, sent) =
      branch find_or false r w.done
      then pure w
      else (attempt (legacy_poll what timeout min_ms w r sent) >>= λ got.
          pure (legacy_polled what w r got))

  -- One round of `waitLegacyAll`.
  unfoldable pub legacy_round :
      (Waiting → Action (Map Reason))
      → Options
      → Stage
      → Map ℕ
      → ℕ
      → ℕ
      → Waiting
      → Action (Map Reason)
  legacy_round again o what sent timeout min_ms w = branch w.left == 0 then pure w.err else (do
    w' ← fold_m (legacy_visit what timeout min_ms) w sent
    branch w'.left == 0 then again w' else (sleep_ms o.poll_ms >> again w'))

  unfoldable pub legacy_rounds : ℕ → Options → Stage → Map ℕ → ℕ → ℕ → Waiting → Action (Map Reason)
  legacy_rounds zero o what sent timeout min_ms w = stall
  legacy_rounds (suc fuel) o what sent timeout min_ms w =
      legacy_round (legacy_rounds fuel o what sent timeout min_ms) o what sent timeout min_ms w

  -- `waitLegacyAll`: the errors after it
  unfoldable pub wait_legacy_all :
      Options → Map ℕ → ℕ → ℕ → Stage → Map Reason → Action (Map Reason)
  wait_legacy_all o sent timeout min_ms what err =
      legacy_rounds p.rounds o what sent timeout min_ms
        (record { saw_busy = []; done = []; left = length sent; err = err })
