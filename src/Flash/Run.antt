-- ===== src/Flash/Run.antt =====
-- `FlashSession::run`: the whole session.
pub mod Sends
pub mod Safety
use otsdaq_mu2e.Base.{ℕ, Bool, true, false, ◌&&◌, ◌⊎◌, inl, inr, List, [], ◌∷◌, if◌then◌else◌, ⊤}
use otsdaq_mu2e.Base.Assoc.{Map, insert}
use otsdaq_mu2e.Flash.Types.{
  Options, Job, Reason, RocState, RocResult, fresh_result, is_verified, is_programmed,
}
use otsdaq_mu2e.Flash.Exec.{
  branch◌then◌else◌, Platform, Session, Action, pure, throw, gets, modify, ◌>>=◌, ◌>>◌,
}
use otsdaq_mu2e.Flash.Preflight.{preflight}
use otsdaq_mu2e.Flash.Probe.{probe_all}
use otsdaq_mu2e.Flash.Upload.{upload}
use otsdaq_mu2e.Flash.Activate.{activate}

-- `res_[r] = RocResult()` for every ROC
unfoldable pub fresh_results : List ℕ → Map RocResult
fresh_results [] = []
fresh_results (r ∷ rs) = insert r fresh_result (fresh_results rs)

-- The end state that was asked for.
abbrev pub is_end_state : Options → RocState → Bool
is_end_state o st = if o.program then is_programmed st else is_verified st

-- The loop over `res_` that ends `run`.
unfoldable pub all_reached : Options → Map RocResult → Bool
all_reached o [] = true
all_reached o ((r, x) ∷ m) = is_end_state o x.state && all_reached o m

-- The members of a `FlashSession` as its constructor leaves them.
abbrev pub new_session : Session
new_session = record { history = []; results = []; tag = 0; version_before = [] }

module _ ⦃p : Platform⦄ where
  -- `run` after `preflight`, on the padded image.
  unfoldable pub run_checked : Job → Action Bool
  run_checked j = do
    probe_all j
    upload j
    branch j.opt.program then activate j else pure tt
    gets λ s. all_reached j.opt s.results

  unfoldable pub run_after : Reason ⊎ Job → Action Bool
  run_after (inl why) = throw why
  run_after (inr j) = run_checked j

  -- `run`
  unfoldable pub run : Job → Action Bool
  run j = do modify λ s. record s { results = fresh_results j.rocs }; run_after (preflight j)
