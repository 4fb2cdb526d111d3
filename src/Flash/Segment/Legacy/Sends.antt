-- ===== src/Flash/Segment/Legacy/Sends.antt =====
-- Waiting for an older MiV sends nothing.
use otsdaq_mu2e.Base.{ℕ, zero, suc}
use otsdaq_mu2e.Base.Assoc.{Map}
use otsdaq_mu2e.Flash.Types.{Options, Stage, Reason}
use otsdaq_mu2e.Flash.Exec.{Platform, Action}
use otsdaq_mu2e.Flash.Exec.Sends.{Condition, Sends, Sends-stall}
use otsdaq_mu2e.Flash.Port.Sends.{port_rules}
use otsdaq_mu2e.Flash.Segment.Legacy.{
  Waiting, legacy_late, legacy_poll, legacy_visit, legacy_round, legacy_rounds, wait_legacy_all,
}

module _ ⦃p : Platform⦄ {Q : Condition} where
  legacy_late-Sends :
      (what : Stage) (timeout r sent d : ℕ) (w : Waiting)
      → Sends Q (legacy_late what timeout r sent d w)
  unfolding legacy_late
  legacy_late-Sends what timeout r sent d w = search port_rules

  legacy_poll-Sends :
      (what : Stage) (timeout min_ms : ℕ) (w : Waiting) (r sent : ℕ)
      → Sends Q (legacy_poll what timeout min_ms w r sent)
  unfolding legacy_poll
  legacy_poll-Sends what timeout min_ms w r sent = search (port_rules, legacy_late-Sends) depth 9

  legacy_visit-Sends :
      (what : Stage) (timeout min_ms : ℕ) (w : Waiting) (x : ℕ × ℕ)
      → Sends Q (legacy_visit what timeout min_ms w x)
  unfolding legacy_visit
  legacy_visit-Sends what timeout min_ms w (r, sent) = search (port_rules, legacy_poll-Sends)

  legacy_round-Sends :
      (again : Waiting → Action (Map Reason)) (o : Options) (what : Stage) (sent : Map ℕ)
      (timeout min_ms : ℕ) (w : Waiting)
      → ((w : Waiting) → Sends Q (again w))
      → Sends Q (legacy_round again o what sent timeout min_ms w)
  unfolding legacy_round
  legacy_round-Sends again o what sent timeout min_ms w k =
      search (port_rules, legacy_visit-Sends) depth 9

  legacy_rounds-Sends :
      (fuel : ℕ) (o : Options) (what : Stage) (sent : Map ℕ) (timeout min_ms : ℕ) (w : Waiting)
      → Sends Q (legacy_rounds fuel o what sent timeout min_ms w)
  unfolding legacy_rounds
  legacy_rounds-Sends zero o what sent timeout min_ms w = Sends-stall
  legacy_rounds-Sends (suc fuel) o what sent timeout min_ms w =
      legacy_round-Sends _ o what sent timeout min_ms w
        (legacy_rounds-Sends fuel o what sent timeout min_ms)

  pub wait_legacy_all-Sends :
      (o : Options) (sent : Map ℕ) (timeout min_ms : ℕ) (what : Stage) (err : Map Reason)
      → Sends Q (wait_legacy_all o sent timeout min_ms what err)
  unfolding wait_legacy_all
  wait_legacy_all-Sends o sent timeout min_ms what err =
      legacy_rounds-Sends p.rounds o what sent timeout min_ms _
