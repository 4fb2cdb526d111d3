-- ===== src/Flash/Probe/Sends.antt =====
-- `probeAll` sends only commands that read the flash.
use otsdaq_mu2e.Base.{ℕ, zero, suc, ◌⊎◌, inl, inr, Bool, ⊤}
use otsdaq_mu2e.Base.Assoc.{Map}
use otsdaq_mu2e.Flash.Types.{Options, Job, Reason}
use otsdaq_mu2e.Flash.Exec.{Platform, Action}
use otsdaq_mu2e.Flash.Exec.Sends.{Condition, Sends, Sends-pure, Sends-stall}
use otsdaq_mu2e.Flash.Port.Sends.{port_rules}
use otsdaq_mu2e.Flash.Link.Sends.{link_rules, send_when_idle-Sends, send_tagged-Sends}
use otsdaq_mu2e.Flash.Reply.Sends.{read_reply-Sends}
use otsdaq_mu2e.Flash.Verify.Sends.{MayRead}
use otsdaq_mu2e.Flash.Probe.{
  set_new_miv, fail_on_throw, probe_send, probe_start, probe_counted, probe_poll, probe_round,
  probe_rounds, size_round, size_rounds, probe_legacy_read_size, probe_finish, probe_all,
}

module _ {Q : Condition} where
  set_new_miv-Sends : (r : ℕ) (b : Bool) → Sends Q (set_new_miv r b)
  unfolding set_new_miv
  set_new_miv-Sends r b = search port_rules

  fail_on_throw-Sends :
      {A : Type 0} (r : ℕ) (a : A) (got : Reason ⊎ A) → Sends Q (fail_on_throw r a got)
  unfolding fail_on_throw
  fail_on_throw-Sends r a (inl e) = search port_rules
  fail_on_throw-Sends r a (inr b) = Sends-pure b

  module _ ⦃p : Platform⦄ where
    probe_send-Sends :
        (o : Options) (tags : Map ℕ) (r : ℕ) → MayRead Q → Sends Q (probe_send o tags r)
    unfolding probe_send
    probe_send-Sends o tags r may =
        let ok = may.crc r o.start_address 2 in search (link_rules, send_tagged-Sends) depth 12

    probe_start-Sends :
        (o : Options) (tags : Map ℕ) (r : ℕ) → MayRead Q → Sends Q (probe_start o tags r)
    unfolding probe_start
    probe_start-Sends o tags r may = search (link_rules, probe_send-Sends, fail_on_throw-Sends)

    probe_counted-Sends :
        (answered : Map Bool) (r tag : ℕ) (got : Reason ⊎ ℕ)
        → Sends Q (probe_counted answered r tag got)
    unfolding probe_counted
    probe_counted-Sends answered r tag (inl e) = Sends-pure answered
    probe_counted-Sends answered r tag (inr count) =
        search (link_rules, read_reply-Sends, set_new_miv-Sends) depth 9

    probe_poll-Sends : (answered : Map Bool) (x : ℕ × ℕ) → Sends Q (probe_poll answered x)
    unfolding probe_poll
    probe_poll-Sends answered (r, tag) = search (link_rules, probe_counted-Sends)

    probe_round-Sends :
        (again : Map Bool → Action ⊤) (o : Options) (tags : Map ℕ) (t0 : ℕ) (answered : Map Bool)
        → ((answered : Map Bool) → Sends Q (again answered))
        → Sends Q (probe_round again o tags t0 answered)
    unfolding probe_round
    probe_round-Sends again o tags t0 answered k = search (link_rules, probe_poll-Sends) depth 9

    probe_rounds-Sends :
        (fuel : ℕ) (o : Options) (tags : Map ℕ) (t0 : ℕ) (answered : Map Bool)
        → Sends Q (probe_rounds fuel o tags t0 answered)
    unfolding probe_rounds
    probe_rounds-Sends zero o tags t0 answered = Sends-stall
    probe_rounds-Sends (suc fuel) o tags t0 answered =
        probe_round-Sends _ o tags t0 answered (probe_rounds-Sends fuel o tags t0)

    size_round-Sends :
        (again : ℕ → Action ℕ) (o : Options) (r t0 last : ℕ)
        → ((last : ℕ) → Sends Q (again last))
        → Sends Q (size_round again o r t0 last)
    unfolding size_round
    size_round-Sends again o r t0 last k = search link_rules depth 9

    size_rounds-Sends :
        (fuel : ℕ) (o : Options) (r t0 last : ℕ) → Sends Q (size_rounds fuel o r t0 last)
    unfolding size_rounds
    size_rounds-Sends zero o r t0 last = Sends-stall
    size_rounds-Sends (suc fuel) o r t0 last =
        size_round-Sends _ o r t0 last (size_rounds-Sends fuel o r t0)

    probe_legacy_read_size-Sends :
        (o : Options) (r : ℕ) → MayRead Q → Sends Q (probe_legacy_read_size o r)
    unfolding probe_legacy_read_size
    probe_legacy_read_size-Sends o r may =
        let ok = may.flash r o.start_address 1016 in
        search (link_rules, send_when_idle-Sends, size_rounds-Sends) depth 14

    probe_finish-Sends : (o : Options) (x : ℕ × ℕ) → MayRead Q → Sends Q (probe_finish o x)
    unfolding probe_finish
    probe_finish-Sends o (r, tag) may =
        search (link_rules, probe_legacy_read_size-Sends, fail_on_throw-Sends) depth 12

    pub probe_all-Sends : (j : Job) → MayRead Q → Sends Q (probe_all j)
    unfolding probe_all
    probe_all-Sends j may =
        search (link_rules, probe_start-Sends, probe_rounds-Sends, probe_finish-Sends) depth 9
