-- ===== src/Flash/Run/Sends.antt =====
-- What a session sends, as a whole: by the conditions that hold for its commands.
use otsdaq_mu2e.Base.{ℕ, ◌≡◌, refl, ◌⊎◌, inl, inr, true}
use otsdaq_mu2e.Flash.Types.{Job, Reason, cmd, act_prog_addr}
use otsdaq_mu2e.Flash.Exec.{Platform}
use otsdaq_mu2e.Flash.Exec.Sends.{Condition, Sends, Sends-throw, Sends-modify, sends_rules}
use otsdaq_mu2e.Flash.Link.Sends.{Permits}
use otsdaq_mu2e.Flash.Verify.Sends.{MayRead}
use otsdaq_mu2e.Flash.Segment.Write.Sends.{MayWrite}
use otsdaq_mu2e.Flash.Probe.Sends.{probe_all-Sends}
use otsdaq_mu2e.Flash.Upload.Sends.{upload-Sends}
use otsdaq_mu2e.Flash.Activate.Sends.{activate-Sends}
use otsdaq_mu2e.Flash.Preflight.{preflight}
use otsdaq_mu2e.Flash.Run.{run_checked, run_after, run}

-- The commands that a job may send: reads; erase and write commands only if the image is to be
-- written; the IAP only if the ROCs are to be programmed.
pub record MaySend ⦃p : Platform⦄ (Q : Condition) (j : Job) : Type 0 where
  pub reads : MayRead Q
  pub writes : j.opt.write_image ≡ true → MayWrite Q j
  pub iap : j.opt.program ≡ true → (r : ℕ) → Permits Q r (cmd act_prog_addr j.opt.start_address 0)

module _ ⦃p : Platform⦄ {Q : Condition} where
  run_checked-Sends : (j : Job) → MaySend Q j → Sends Q (run_checked j)
  unfolding run_checked
  run_checked-Sends j may =
      let reads = may.reads in
      let writes = may.writes in
      let iap = may.iap in
      search (sends_rules, probe_all-Sends, upload-Sends, activate-Sends) depth 9

  run_after-Sends :
      (checked : Reason ⊎ Job)
      → ((j : Job) → checked ≡ inr j → MaySend Q j)
      → Sends Q (run_after checked)
  unfolding run_after
  run_after-Sends (inl why) may = Sends-throw why
  run_after-Sends (inr j) may = run_checked-Sends j (may j refl)

  pub run-Sends : (j : Job) → ((j' : Job) → preflight j ≡ inr j' → MaySend Q j') → Sends Q (run j)
  unfolding run
  run-Sends j may = search (sends_rules, Sends-modify, run_after-Sends)
