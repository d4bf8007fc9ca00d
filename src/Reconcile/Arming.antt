-- ===== src/Reconcile/Arming.antt =====
-- When `reconcile` arms the kill switch, and when it fails to.
use atlas_ai_trading.KillSwitch.{arm, is_armed, is_valid_record}
use atlas_ai_trading.KillSwitch.Latch.{arm-halts, arm-invalid}
use atlas_ai_trading.Prelude.{
  All, Bool-cases, List, [], any, ap, arith, false, inl, inr, length, length-append, true, ◌*◌,
  ◌++◌, ◌+◌, ◌∷◌, ◌≡◌, ◌≢◌, ◌≤◌, ◌⊎◌,
}
use atlas_ai_trading.Prelude.Text.{Text, repr_tail, repr_texts, show_ℕ, text}
use atlas_ai_trading.Reconcile.{
  ReconciliationReport, RemoteOrder, divergence_reason, is_clean, reconcile, reconcile_actor,
  remote_of, repairs, report_on,
}
use atlas_ai_trading.Reconcile.Unrecorded.{is_unknown, report-unclean}
use atlas_ai_trading.World.{
  Error, KillSwitchRecord, Result, Result-cases, World, invalid_record, ok, raised, reconciled,
  reconciliation, reconciliation_failure, sqlite_error,
}

-- The state in which `reconcile` arms, or returns.
abbrev pub repaired_world : List RemoteOrder → World → World
repaired_world xs w =
    let remote = remote_of xs in
    let report = report_on w remote in
    record w {
      orders = (repairs w remote).orders;
      audit =
          w.audit
          ++ record {
            event_type = reconciliation;
            payload = reconciled report.matched report.repaired report.unreconcilable;
            actor = reconcile_actor;
            at = w.clock;
          }
            ∷ [];
    }

abbrev pub the_report : List RemoteOrder → World → ReconciliationReport
the_report xs w = report_on w (remote_of xs)

abbrev pub reason_of : List RemoteOrder → World → Text
reason_of xs w = divergence_reason (the_report xs w).unreconcilable

pub reconcile_clean :
    (xs : List RemoteOrder) (w : World)
    → is_clean (the_report xs w) ≡ true
    → reconcile xs w ≡ (ok (the_report xs w), repaired_world xs w)
unfolding reconcile
reconcile_clean xs w c = ground arith

abbrev pub arm_result : List RemoteOrder → World → Result KillSwitchRecord × World
arm_result xs w = arm reconciliation_failure (reason_of xs w) reconcile_actor (repaired_world xs w)

-- Where the report is not clean, the state is the one in which `arm` ends, and what it raises is raised.
pub reconcile_world :
    (xs : List RemoteOrder) (w : World)
    → is_clean (the_report xs w) ≡ false
    → (reconcile xs w).1 ≡ (arm_result xs w).1
unfolding reconcile
reconcile_world xs w c = ground arith

pub reconcile_raises :
    (xs : List RemoteOrder) (w : World) (e : Error)
    → is_clean (the_report xs w) ≡ false
    → (arm_result xs w).0 ≡ raised e
    → (reconcile xs w).0 ≡ raised e
unfolding reconcile
reconcile_raises xs w e c r = ground arith

reconcile_returns :
    (xs : List RemoteOrder) (w : World) (k : KillSwitchRecord)
    → is_clean (the_report xs w) ≡ false
    → (arm_result xs w).0 ≡ ok k
    → (reconcile xs w).0 ≡ ok (the_report xs w)
unfolding reconcile
reconcile_returns xs w k c r = ground arith

-- What `reconcile` returns, if it returns.
pub reconcile_ok :
    (xs : List RemoteOrder) (w : World)
    → ((reconcile xs w).0 ≡ ok (the_report xs w)) ⊎ ((e : Error) × ((reconcile xs w).0 ≡ raised e))
reconcile_ok xs w = elim (Bool-cases (is_clean (the_report xs w))) [
  | inl c ↦ inl (ap (λ p. p.0) (reconcile_clean xs w c))
  | inr c ↦ elim (Result-cases (arm_result xs w)) [
    | inl (k, v, q) ↦ inl (reconcile_returns xs w k c (ap (λ p. p.0) q))
    | inr (e, v, q) ↦ inr (e, reconcile_raises xs w e c (ap (λ p. p.0) q))
  ]
]

-- A reason of at most 500 characters is one that `arm` takes.
reason-valid :
    (ids : List Text)
    → length (divergence_reason ids) ≤ 500
    → is_valid_record (divergence_reason ids) reconcile_actor ≡ true
unfolding is_valid_record divergence_reason
reason-valid ids h = ground arith

-- Where some order of the exchange has an ATLAS id and is not among the local open orders, the reason
-- that names such orders is at most 500 characters and the database takes the write, reconcile leaves
-- the kill switch armed.
pub reconcile-arms :
    (xs : List RemoteOrder) (w : World)
    → any (is_unknown w) xs ≡ true
    → length (divergence_reason (the_report xs w).unreconcilable) ≤ 500
    → (reconcile xs w).0 ≢ raised sqlite_error
    → is_armed (reconcile xs w).1 ≡ true
reconcile-arms xs w unknown few taken =
    let c = report-unclean xs w unknown in
    rw (reconcile_world xs w c) (
      arm-halts reconciliation_failure (reason_of xs w) reconcile_actor (repaired_world xs w)
        (reason-valid (the_report xs w).unreconcilable few)
        (λ r. taken (reconcile_raises xs w sqlite_error c r)))

length-repr_tail :
    (ids : List Text) → All (λ s. 36 ≤ length s) ids → 40 * length ids + 1 ≤ length (repr_tail ids)
unfolding repr_tail
length-repr_tail [] h = omega arith
length-repr_tail (s ∷ ss) h = omega (
  arith,
  length-repr_tail ss h.1,
  length-append s (39 ∷ []),
  length-append (s ++ 39 ∷ []) (repr_tail ss),
)

length-repr_texts :
    (ids : List Text) → All (λ s. 36 ≤ length s) ids → 40 * length ids ≤ length (repr_texts ids)
unfolding repr_texts
length-repr_texts [] h = omega arith
length-repr_texts (s ∷ ss) h = omega (
  arith,
  length-repr_tail ss h.1,
  length-append s (39 ∷ []),
  length-append (s ++ 39 ∷ []) (repr_tail ss),
)

length-divergence_reason :
    (ids : List Text)
    → All (λ s. 36 ≤ length s) ids
    → 55 + 40 * length ids ≤ length (divergence_reason ids)
unfolding divergence_reason
length-divergence_reason ids h = omega (
  arith,
  length-append (show_ℕ (length ids))
      (text " ATLAS order(s) with no local record: " ++ repr_texts ids),
  length-repr_texts ids h,
)

reason-invalid :
    (ids : List Text)
    → 12 ≤ length ids
    → All (λ s. 36 ≤ length s) ids
    → is_valid_record (divergence_reason ids) reconcile_actor ≡ false
unfolding is_valid_record
reason-invalid ids many wide = ground (arith, length-divergence_reason ids wide)

unclean_of_many : (r : ReconciliationReport) → 12 ≤ length r.unreconcilable → is_clean r ≡ false
unclean_of_many r many = ground arith

-- Twelve or more such orders, with client order ids of the 36 characters that ATLAS gives them, make a
-- reason that `KillSwitchRecord` refuses: `reconcile` raises, and the kill switch is as it was before.
pub reconcile-fails_to_arm :
    (xs : List RemoteOrder) (w : World)
    → 12 ≤ length (the_report xs w).unreconcilable
    → All (λ s. 36 ≤ length s) (the_report xs w).unreconcilable
    → let (r, w') = reconcile xs w in (r ≡ raised invalid_record) × (is_armed w' ≡ is_armed w)
unfolding is_armed
reconcile-fails_to_arm xs w many wide =
    let unclean = unclean_of_many (the_report xs w) many in
    let stays : arm_result xs w ≡ (raised invalid_record, repaired_world xs w) =
      arm-invalid reconciliation_failure (reason_of xs w) reconcile_actor (repaired_world xs w)
        (reason-invalid (the_report xs w).unreconcilable many wide) in
    (
      reconcile_raises xs w invalid_record unclean (ap (λ p. p.0) stays),
      rw (reconcile_world xs w unclean, stays),
    )
