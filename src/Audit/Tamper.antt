-- ===== src/Audit/Tamper.antt =====
-- What `verify_chain` detects of a changed table, and what it cannot.
use native.Mathlib.Nat.{add-zero}
use mathlib.Core.Path.{ap₂}
use mathlib.Core.List.{append_assoc}
use atlas_ai_trading.Audit.{
  AuditRow, HashFunction, head_of, verified_events, verify_chain, verify_from,
}
use atlas_ai_trading.Audit.Chain.{
  accept_step, chain, events, head-chain, length-events, link, verify_chain_iff, verify_step,
}
use atlas_ai_trading.Prelude.{
  List, [], ap, arith, last, length, length-append, refl, suc, sym, ℕ, ◌++◌, ◌+◌, ◌∙◌, ◌∷◌, ◌≡◌,
  ◌≢◌,
}
use atlas_ai_trading.World.{Entry}

module _ (h : HashFunction) where
  open h use {Hash, hash_discrete, genesis_hash, compute_event_hash}

  -- No two events of the log collide: SHA-256 is assumed to make different hashes of different events.
  abbrev pub IsCollisionFree : Type 0
  IsCollisionFree =
      (i : ℕ) (d e : Entry) (p q : Hash)
      → compute_event_hash i d p ≡ compute_event_hash i e q
      → (d ≡ e) × (p ≡ q)

  -- The hash that the next event would link to.
  abbrev pub last_hash : List (AuditRow h) → Hash
  last_hash rows = (head_of h (last rows)).1

  link-injective :
      IsCollisionFree
      → (i : ℕ) (p q : Hash) (ds es : List Entry) → length ds ≡ length es
      → link h i p ds ≡ link h i q es
      → (p ≡ q) × (ds ≡ es)
  link-injective free i p q [] [] n e = (e, refl)
  link-injective free i p q [] (x ∷ es) n e = absurd (omega arith)
  link-injective free i p q (x ∷ ds) [] n e = absurd (omega arith)
  link-injective free i p q (x ∷ ds) (y ∷ es) n e =
      let (hashes, rest) =
        link-injective free (i + 1) (compute_event_hash i x p) (compute_event_hash i y q) ds es
          (omega arith) e in
      let (same, before) = free i x y p q hashes in (before, ap₂ ◌∷◌ same rest)

  -- Two accepted tables with as many rows and the same last hash are equal: no event of an accepted
  -- log can be modified, replaced or reordered while the last hash is kept.
  pub same_end :
      (rows others : List (AuditRow h))
      → IsCollisionFree
      → verify_chain h rows ≡ verified_events (length rows)
      → verify_chain h others ≡ verified_events (length others)
      → length rows ≡ length others
      → last_hash rows ≡ last_hash others
      → rows ≡ others
  same_end rows others free a b n e =
      let left : rows ≡ chain h (events h rows) = (verify_chain_iff h rows).0 a in
      let right : others ≡ chain h (events h others) = (verify_chain_iff h others).0 b in
      let links : link h 0 genesis_hash (events h rows) ≡ link h 0 genesis_hash (events h others) =
        sym (ap (λ (x : ℕ × Hash). x.1) (head-chain h (events h rows)))
        ∙ sym (ap last_hash left)
        ∙ e
        ∙ ap last_hash right
        ∙ ap (λ (x : ℕ × Hash). x.1) (head-chain h (events h others)) in
      let same =
        link-injective free 0 genesis_hash genesis_hash (events h rows) (events h others)
          (omega (arith, length-events h rows, length-events h others)) links in
      left ∙ ap (chain h) same.1 ∙ sym right

  seq_at :
      (i n : ℕ) (p : Hash) (xs : List (AuditRow h)) (r : AuditRow h) (ys : List (AuditRow h))
      → verify_from h i p (xs ++ r ∷ ys) ≡ verified_events n
      → r.seq ≡ i + length xs
  seq_at i n p [] r ys e = (verify_step h i n p r ys e).0 ∙ sym (add-zero i)
  seq_at i n p (x ∷ xs) r ys e =
      omega
        (arith, seq_at (i + 1) n x.event_hash xs r ys (verify_step h i n p x (xs ++ r ∷ ys) e).3)

  -- Deleting a row that is not the last one, from a table that is accepted, is detected.
  pub deletion_detected :
      (xs : List (AuditRow h)) (r s : AuditRow h) (ys : List (AuditRow h)) (n m : ℕ)
      → verify_chain h (xs ++ r ∷ s ∷ ys) ≡ verified_events n
      → verify_chain h (xs ++ s ∷ ys) ≢ verified_events m
  unfolding verify_chain
  deletion_detected xs r s ys n m a b = omega (
    arith,
    seq_at 0 n genesis_hash (xs ++ r ∷ []) s ys (rw append_assoc a),
    length-append xs (r ∷ []),
    seq_at 0 m genesis_hash xs s ys b,
  )

  verify_from-prefix :
      (i n : ℕ) (p : Hash) (xs ys : List (AuditRow h))
      → verify_from h i p (xs ++ ys) ≡ verified_events n
      → verify_from h i p xs ≡ verified_events (i + length xs)
  unfolding verify_from
  verify_from-prefix i n p [] ys e = ap verified_events (omega arith)
  verify_from-prefix i n p (x ∷ xs) ys e =
      let (a, b, c, d) = verify_step h i n p x (xs ++ ys) e in
      accept_step h i (i + suc (length xs)) p x xs a b c
        (verify_from-prefix (i + 1) n x.event_hash xs ys d ∙ ap verified_events (omega arith))

  -- Deleting the last rows of a table that is accepted leaves a table that is accepted.
  pub truncation_undetected :
      (xs ys : List (AuditRow h)) (n : ℕ)
      → verify_chain h (xs ++ ys) ≡ verified_events n
      → verify_chain h xs ≡ verified_events (length xs)
  unfolding verify_chain
  truncation_undetected xs ys n e =
      verify_from-prefix 0 n genesis_hash xs ys e ∙ ap verified_events (omega arith)
