-- ===== src/Recovery/Resumption.antt =====
-- When a restarted process may enter positions again.
use mathlib.Core.Bool.{and-true, and-false}
use atlas_ai_trading.KillSwitch.{is_armed, read_state, record_is_armed}
use atlas_ai_trading.Prelude.{
  Bool, Bool-cases, List, ap, arith, false, inl, inr, not, refl, sym, true, ◌&&◌, ◌∙◌, ◌≡◌,
}
use atlas_ai_trading.Prelude.Text.{Text}
use atlas_ai_trading.Reconcile.{ReconciliationReport, RemoteOrder, is_clean, reconcile}
use atlas_ai_trading.Reconcile.Arming.{reconcile_clean, reconcile_ok, repaired_world, the_report}
use atlas_ai_trading.Recovery.{
  RecoveryReport, armed_issues, conclude, may_resume_entries, order_issues, recover,
}
use atlas_ai_trading.World.{
  Error, KillSwitchRecord, Result, World, bind-ok, bind-raised, ok, raised,
}

-- A recovery that ends with a report that lets entries resume.
unfoldable pub resumes_of : Result RecoveryReport → Bool
unfolding may_resume_entries
resumes_of (ok r) = may_resume_entries r
resumes_of (raised e) = false

-- A report that is not clean keeps entries off.
conclude-unclean :
    (issues : List Text) (r : ReconciliationReport) (w : World)
    → is_clean r ≡ false
    → resumes_of (conclude issues r w).0 ≡ false
unfolding conclude resumes_of may_resume_entries
conclude-unclean issues r w c = ground arith

conclude-clean :
    (state : KillSwitchRecord) (r : ReconciliationReport) (w : World)
    → is_clean r ≡ true
    → record_is_armed state ≡ is_armed w
    → resumes_of (conclude (armed_issues state) r w).0 ≡ not (is_armed w)
unfolding conclude resumes_of may_resume_entries armed_issues order_issues
conclude-clean state r w c a = ground arith

recover_ok :
    (xs : List RemoteOrder) (w v : World) (r : ReconciliationReport)
    → reconcile xs w ≡ (ok r, v)
    → recover xs w ≡ conclude (armed_issues (read_state w)) r v
unfolding recover
recover_ok xs w v r q = bind-ok (reconcile xs) (conclude (armed_issues (read_state w))) r w v q

recover_raised :
    (xs : List RemoteOrder) (w v : World) (e : Error)
    → reconcile xs w ≡ (raised e, v)
    → recover xs w ≡ (raised e, v)
unfolding recover
recover_raised xs w v e q =
    bind-raised (reconcile xs) (conclude (armed_issues (read_state w))) e w v q

recover-unclean :
    (xs : List RemoteOrder) (w : World)
    → is_clean (the_report xs w) ≡ false
    → resumes_of (recover xs w).0 ≡ false
unfolding resumes_of
recover-unclean xs w c = elim (reconcile_ok xs w) [
  | inl q ↦
      let v = (reconcile xs w).1 in
      ap (λ p. resumes_of p.0)
        (recover_ok xs w v (the_report xs w)
          (ap {B = Result ReconciliationReport × World} (λ r. (r, v)) q))
      ∙ conclude-unclean (armed_issues (read_state w)) (the_report xs w) v c
  | inr (e, q) ↦
      let v = (reconcile xs w).1 in
      ap (λ p. resumes_of p.0)
        (recover_raised xs w v e (ap {B = Result ReconciliationReport × World} (λ r. (r, v)) q))
]

still_read : (xs : List RemoteOrder) (w : World) → is_armed (repaired_world xs w) ≡ is_armed w
unfolding is_armed
still_read xs w = refl

read_is_armed : (w : World) → record_is_armed (read_state w) ≡ is_armed w
unfolding is_armed
read_is_armed w = refl

-- A restarted process may enter positions exactly if the kill switch was read as released before and
-- the reconciliation finds every ATLAS order of the exchange among the local open orders; otherwise
-- it may not, or the recovery raises.
pub recover-resumes :
    (xs : List RemoteOrder) (w : World)
    → resumes_of (recover xs w).0 ≡ (not (is_armed w) && is_clean (the_report xs w))
recover-resumes xs w = elim (Bool-cases (is_clean (the_report xs w))) [
  | inl c ↦ rw c (
      ap (λ p. resumes_of p.0)
        (recover_ok xs w (repaired_world xs w) (the_report xs w) (reconcile_clean xs w c))
      ∙ conclude-clean (read_state w) (the_report xs w) (repaired_world xs w) c
          (read_is_armed w ∙ sym (still_read xs w))
      ∙ ap not (still_read xs w)
      ∙ sym (and-true (not (is_armed w))))
  | inr c ↦ rw c (recover-unclean xs w c ∙ sym (and-false (not (is_armed w))))
]
