-- ===== src/Flash/Reply/Sends.antt =====
-- Waiting for a reply and reading it sends nothing.
use otsdaq_mu2e.Base.{ℕ, zero, suc, ◌⊎◌, inl, inr, Option}
use otsdaq_mu2e.Flash.Types.{Options, Reason}
use otsdaq_mu2e.Flash.Exec.{Platform, Action}
use otsdaq_mu2e.Flash.Exec.Sends.{Condition, Sends, Sends-stall, Sends-pure}
use otsdaq_mu2e.Flash.Port.Sends.{port_rules}
use otsdaq_mu2e.Flash.Link.Sends.{link_rules}
use otsdaq_mu2e.Flash.Reply.{
  Reply, after_read, read_reply, no_reply_reason, await_round, await_reply, collect_tagged,
  wait_tagged_result,
}

module _ {Q : Condition} where
  after_read-Sends : (r : ℕ) (got : Reason ⊎ Reply) → Sends Q (after_read r got)
  unfolding after_read
  after_read-Sends r (inl e) = search port_rules
  after_read-Sends r (inr reply) = Sends-pure reply

  module _ ⦃p : Platform⦄ where
    pub read_reply-Sends : (r n : ℕ) → Sends Q (read_reply r n)
    unfolding read_reply
    read_reply-Sends r n = search (link_rules, after_read-Sends) depth 9

    no_reply_reason-Sends : (r timeout : ℕ) → Sends Q (no_reply_reason r timeout)
    unfolding no_reply_reason
    no_reply_reason-Sends r timeout = search port_rules

    await_round-Sends :
        (again : Action (Option Reason)) (o : Options) (r n t0 timeout : ℕ)
        → Sends Q again
        → Sends Q (await_round again o r n t0 timeout)
    unfolding await_round
    await_round-Sends again o r n t0 timeout k = search (link_rules, no_reply_reason-Sends) depth 12

    await_reply-Sends :
        (fuel : ℕ) (o : Options) (r n t0 timeout : ℕ) → Sends Q (await_reply fuel o r n t0 timeout)
    unfolding await_reply
    await_reply-Sends zero o r n t0 timeout = Sends-stall
    await_reply-Sends (suc fuel) o r n t0 timeout =
        await_round-Sends _ o r n t0 timeout (await_reply-Sends fuel o r n t0 timeout)

    pub collect_tagged-Sends :
        (o : Options) (r tag n timeout : ℕ) → Sends Q (collect_tagged o r tag n timeout)
    unfolding collect_tagged
    collect_tagged-Sends o r tag n timeout =
        search (link_rules, await_reply-Sends, read_reply-Sends) depth 9

    pub wait_tagged_result-Sends :
        (o : Options) (r tag timeout : ℕ) → Sends Q (wait_tagged_result o r tag timeout)
    unfolding wait_tagged_result
    wait_tagged_result-Sends o r tag timeout =
        search (link_rules, await_reply-Sends, read_reply-Sends) depth 9
