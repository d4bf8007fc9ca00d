-- ===== src/Audit/Chain.antt =====
-- src/atlas/audit.py: the chain of `append`, and what `verify_chain` accepts.
use native.Mathlib.Nat.{add-zero, zero-add}
use mathlib.Core.Path.{ap₂}
use atlas_ai_trading.Audit.{
  AuditRow, HashFunction, append, head_of, verified_events, verify_chain, verify_from,
}
use atlas_ai_trading.Prelude.{
  List, [], ap, arith, false, if_pos, last, length, not, refl, suc, sym, ℕ, ◌++◌, ◌+◌, ◌==◌, ◌↔◌,
  ◌∙◌, ◌∷◌, ◌≡◌,
}
use atlas_ai_trading.World.{Entry}

shift : (i n : ℕ) → i + 1 + n ≡ i + suc n
shift i n = omega arith

seq_refl : (i : ℕ) → not (i == i) ≡ false
seq_refl i = ground arith

module _ (h : HashFunction) where
  open h use {Hash, hash_discrete, genesis_hash, compute_event_hash}

  -- The abstract log is its list of events; these are the rows that stand for it.
  abbrev chain_row : ℕ → Hash → Entry → AuditRow h
  chain_row i p e = record {
    seq = i;
    event = e;
    prev_hash = p;
    event_hash = compute_event_hash i e p;
  }

  abbrev pub chain_from : ℕ → Hash → List Entry → List (AuditRow h)
  chain_from i p [] = []
  chain_from i p (e ∷ es) = chain_row i p e ∷ chain_from (i + 1) (compute_event_hash i e p) es

  abbrev pub chain : List Entry → List (AuditRow h)
  chain es = chain_from 0 genesis_hash es

  abbrev pub events : List (AuditRow h) → List Entry
  events [] = []
  events (r ∷ rows) = r.event ∷ events rows

  -- The hash of the last event.
  abbrev pub link : ℕ → Hash → List Entry → Hash
  link i p [] = p
  link i p (e ∷ es) = link (i + 1) (compute_event_hash i e p) es

  pub length-events : (rows : List (AuditRow h)) → length (events rows) ≡ length rows
  length-events [] = refl
  length-events (r ∷ rows) = omega (arith, length-events rows)

  verify_from-chain :
      (i : ℕ) (p : Hash) (es : List Entry)
      → verify_from h i p (chain_from i p es) ≡ verified_events (i + length es)
  unfolding verify_from
  verify_from-chain i p [] = ap verified_events (omega arith)
  verify_from-chain i p (e ∷ es) =
      rw (seq_refl i, if_pos (hash_discrete p p) refl, if_pos (hash_discrete _ _) refl)
        (verify_from-chain (i + 1) (compute_event_hash i e p) es ∙ ap verified_events (omega arith))

  -- What an accepted first row shows.
  pub verify_step :
      (i n : ℕ) (p : Hash) (r : AuditRow h) (rows : List (AuditRow h))
      → verify_from h i p (r ∷ rows) ≡ verified_events n
      → (r.seq ≡ i)
        × (r.prev_hash ≡ p)
        × (compute_event_hash r.seq r.event r.prev_hash ≡ r.event_hash)
        × (verify_from h (i + 1) r.event_hash rows ≡ verified_events n)
  unfolding verify_from
  verify_step i n p r rows e = ground arith

  -- A row that is in its place, linked and hashed as it stands is passed over.
  pub accept_step :
      (i n : ℕ) (p : Hash) (r : AuditRow h) (rows : List (AuditRow h))
      → r.seq ≡ i
      → r.prev_hash ≡ p
      → compute_event_hash r.seq r.event r.prev_hash ≡ r.event_hash
      → verify_from h (i + 1) r.event_hash rows ≡ verified_events n
      → verify_from h i p (r ∷ rows) ≡ verified_events n
  unfolding verify_from
  accept_step i n p r rows a b c d = ground arith

  row_eq :
      (i : ℕ) (p : Hash) (r : AuditRow h)
      → r.seq ≡ i
      → r.prev_hash ≡ p
      → compute_event_hash r.seq r.event r.prev_hash ≡ r.event_hash
      → r ≡ chain_row i p r.event
  row_eq i p r a b c =
      let d : r.event_hash ≡ compute_event_hash i r.event p =
        sym c
        ∙ ap (λ k. compute_event_hash k r.event r.prev_hash) a
        ∙ ap (compute_event_hash i r.event) b in
      λ k. record { seq = a k; event = r.event; prev_hash = b k; event_hash = d k }

  verify_from_sound :
      (i n : ℕ) (p : Hash) (rows : List (AuditRow h))
      → verify_from h i p rows ≡ verified_events n
      → rows ≡ chain_from i p (events rows)
  verify_from_sound i n p [] e = refl
  verify_from_sound i n p (r ∷ rows) e =
      let (a, b, c, d) = verify_step i n p r rows e in
      let whole : r ≡ chain_row i p r.event = row_eq i p r a b c in
      ap₂ ◌∷◌ whole (
        verify_from_sound (i + 1) n r.event_hash rows d
        ∙ ap (λ (x : AuditRow h). chain_from (i + 1) x.event_hash (events rows)) whole)

  chain_from-append :
      (i : ℕ) (p : Hash) (es : List Entry) (e : Entry)
      → chain_from i p (es ++ e ∷ [])
        ≡ chain_from i p es ++ chain_row (i + length es) (link i p es) e ∷ []
  chain_from-append i p [] e = rw (add-zero i)
  chain_from-append i p (x ∷ es) e =
      rw (chain_from-append (i + 1) (compute_event_hash i x p) es e, shift i (length es))

  last-chain :
      (i : ℕ) (p : Hash) (x : Entry) (es : List Entry)
      → head_of h (last (chain_from i p (x ∷ es))) ≡ (i + length (x ∷ es), link i p (x ∷ es))
  last-chain i p x [] = refl
  last-chain i p x (y ∷ es) =
      last-chain (i + 1) (compute_event_hash i x p) y es
      ∙ ap (λ k. (k, link i p (x ∷ y ∷ es))) (shift i (suc (length es)))

  -- The head that `append` reads is the length of the chain and its last link.
  pub head-chain :
      (es : List Entry) → head_of h (last (chain es)) ≡ (length es, link 0 genesis_hash es)
  head-chain [] = refl
  head-chain (x ∷ es) =
      last-chain 0 genesis_hash x es ∙ ap (λ k. (k, link 0 genesis_hash (x ∷ es))) (omega arith)

  -- Appending an event to the chain of a list of events gives the chain of the longer list.
  pub append-chain : (es : List Entry) (e : Entry) → append h (chain es) e ≡ chain (es ++ e ∷ [])
  unfolding append
  append-chain es e =
      rw (head-chain es, chain_from-append 0 genesis_hash es e, zero-add (length es))

  -- `verify_chain` accepts a table, with its number of rows, exactly if the table is the chain of the
  -- events in its rows: every row at its place, linked to the one before it, and hashed as it stands.
  pub verify_chain_iff :
      (rows : List (AuditRow h))
      → (verify_chain h rows ≡ verified_events (length rows)) ↔ (rows ≡ chain (events rows))
  unfolding verify_chain
  verify_chain_iff rows = (
    verify_from_sound 0 (length rows) genesis_hash rows,
    λ e.
        ap (verify_from h 0 genesis_hash) e
        ∙ verify_from-chain 0 genesis_hash (events rows)
        ∙ ap verified_events (omega (arith, length-events rows)),
  )
