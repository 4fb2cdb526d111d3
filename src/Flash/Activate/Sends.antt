-- ===== src/Flash/Activate/Sends.antt =====
-- `activate` sends one command: the request of the IAP, to the ROCs that it finds verified.
use otsdaq_mu2e.Base.{
  ℕ, zero, suc, ◌≡◌, ◌⊎◌, inl, inr, Bool, true, List, [], ◌∷◌, All, All-filter, ⊤,
}
use otsdaq_mu2e.Base.Assoc.{Map}
use otsdaq_mu2e.Flash.Types.{Options, Job, Reason, is_verified, cmd, act_prog_addr}
use otsdaq_mu2e.Flash.Exec.{Platform, Session, Action, fold_m, gets, ◌>>=◌}
use otsdaq_mu2e.Flash.Exec.Sends.{
  Condition, Sends, AllSent, Sends-pure, Sends-stall, Sends-bind, Sends-gets, Sends-modify,
}
use otsdaq_mu2e.Flash.Port.{result_of}
use otsdaq_mu2e.Flash.Port.Sends.{port_rules}
use otsdaq_mu2e.Flash.Link.Sends.{Permits, link_rules, send_when_idle-Sends}
use otsdaq_mu2e.Flash.Activate.{
  Iap, Verdict, down, waiting, refused, back, Reading, apply_verdict, drop_timeout, back_timeout,
  resync, read_iap, iap_visit, iap_poll, iap_round, iap_rounds, iap_request,
  iap_requested_or_failed, iap_start, activate,
}

All-always : (P : ℕ → Type 0) (rs : List ℕ) → ((r : ℕ) → P r) → All P rs
All-always P [] ok = tt
All-always P (r ∷ rs) ok = (ok r, All-always P rs ok)

module _ {Q : Condition} where
  apply_verdict-Sends : (r t : ℕ) (s : Iap) (v : Verdict) → Sends Q (apply_verdict r t s v)
  unfolding apply_verdict
  apply_verdict-Sends r t s down = Sends-pure _
  apply_verdict-Sends r t s waiting = Sends-pure _
  apply_verdict-Sends r t s (refused why) = search port_rules
  apply_verdict-Sends r t s (back ver) = search port_rules

  drop_timeout-Sends :
      (o : Options) (r t : ℕ) (x : Reading) (s : Iap) → Sends Q (drop_timeout o r t x s)
  unfolding drop_timeout
  drop_timeout-Sends o r t x s = search port_rules

  back_timeout-Sends :
      (o : Options) (r t : ℕ) (x : Reading) (s : Iap) → Sends Q (back_timeout o r t x s)
  unfolding back_timeout
  back_timeout-Sends o r t x s = search port_rules

  iap_requested_or_failed-Sends :
      (r : ℕ) (sent : Map ℕ) (got : Reason ⊎ Map ℕ) → Sends Q (iap_requested_or_failed r sent got)
  unfolding iap_requested_or_failed
  iap_requested_or_failed-Sends r sent (inl e) = search port_rules
  iap_requested_or_failed-Sends r sent (inr sent') = Sends-pure sent'

  module _ ⦃p : Platform⦄ where
    resync-Sends : (o : Options) (r t : ℕ) (s : Iap) → Sends Q (resync o r t s)
    unfolding resync
    resync-Sends o r t s = search port_rules depth 9

    read_iap-Sends : (r : ℕ) → Sends Q (read_iap r)
    unfolding read_iap
    read_iap-Sends r = search port_rules

    iap_visit-Sends : (o : Options) (s : Iap) (r sent : ℕ) → Sends Q (iap_visit o s r sent)
    unfolding iap_visit
    iap_visit-Sends o s r sent =
        search
          (
            port_rules, read_iap-Sends, apply_verdict-Sends, drop_timeout-Sends, resync-Sends,
            back_timeout-Sends,
          )
          depth 12

    iap_poll-Sends : (o : Options) (b : Iap × Bool) (x : ℕ × ℕ) → Sends Q (iap_poll o b x)
    unfolding iap_poll
    iap_poll-Sends o (s, pending) (r, sent) = search (port_rules, iap_visit-Sends)

    iap_round-Sends :
        (again : Iap → Action ⊤) (o : Options) (sent : Map ℕ) (s : Iap)
        → ((s : Iap) → Sends Q (again s))
        → Sends Q (iap_round again o sent s)
    unfolding iap_round
    iap_round-Sends again o sent s k = search (port_rules, iap_poll-Sends)

    iap_rounds-Sends :
        (fuel : ℕ) (o : Options) (sent : Map ℕ) (s : Iap) → Sends Q (iap_rounds fuel o sent s)
    unfolding iap_rounds
    iap_rounds-Sends zero o sent s = Sends-stall
    iap_rounds-Sends (suc fuel) o sent s = iap_round-Sends _ o sent s (iap_rounds-Sends fuel o sent)

    iap_request-Sends :
        (o : Options) (sent : Map ℕ) (r : ℕ)
        → Permits Q r (cmd act_prog_addr o.start_address 0)
        → Sends Q (iap_request o sent r)
    unfolding iap_request
    iap_request-Sends o sent r ok = search (link_rules, Sends-modify, send_when_idle-Sends) depth 12

    iap_start-Sends :
        (o : Options) (sent : Map ℕ) (r : ℕ)
        → Permits Q r (cmd act_prog_addr o.start_address 0)
        → Sends Q (iap_start o sent r)
    unfolding iap_start
    iap_start-Sends o sent r ok =
        search (link_rules, iap_request-Sends, iap_requested_or_failed-Sends)

    iap_starts-Sends :
        (o : Options) (sent : Map ℕ) (go : List ℕ)
        → All (λ r. Permits Q r (cmd act_prog_addr o.start_address 0)) go
        → Sends Q (fold_m (iap_start o) sent go)
    unfolding fold_m
    iap_starts-Sends o sent [] ok = Sends-pure sent
    iap_starts-Sends o sent (r ∷ go) ok =
        Sends-bind _ _ (iap_start-Sends o sent r ok.0) λ sent'. iap_starts-Sends o sent' go ok.1

    pub activate-Sends :
        (j : Job)
        → ((r : ℕ) → Permits Q r (cmd act_prog_addr j.opt.start_address 0))
        → Sends Q (activate j)
    unfolding activate
    activate-Sends j ok = Sends-bind _ _ (Sends-gets _) λ go.
        Sends-bind _ _ (iap_starts-Sends j.opt [] go (All-always _ go ok))
          λ sent. iap_rounds-Sends p.rounds j.opt sent _

module _ ⦃p : Platform⦄ where
  -- A command is permitted to a ROC that is verified when `activate` begins.
  pub activate-AllSent :
      (Q : Condition) (j : Job) (s : Session)
      → ((r : ℕ)
          → is_verified (result_of r s).state ≡ true
          → Permits Q r (cmd act_prog_addr j.opt.start_address 0))
      → AllSent Q s.history
      → AllSent Q (activate j s).1.history
  unfolding activate gets ◌>>=◌
  activate-AllSent Q j s ok h =
      (Sends-bind _ _
          (iap_starts-Sends {Q = Q} j.opt [] _
            (All-filter (λ r. is_verified (result_of r s).state) j.rocs ok))
          λ sent. iap_rounds-Sends p.rounds j.opt sent _).at
        s h
