-- ===== src/Audit.antt =====
-- src/atlas/audit.py: the hash-chained event log over the table `audit_events`, whose rows are kept in
-- the order of their sequence numbers. SHA-256 over canonical JSON is a parameter.
pub mod Chain
pub mod Tamper
use atlas_ai_trading.Prelude.{
  List, Option, [], drop, if◌then◌else◌, ite, last, length, none, not, some, ℕ, ◌++◌, ◌+◌, ◌-◌,
  ◌==◌, ◌∷◌,
}
use atlas_ai_trading.World.{Entry}

-- `compute_event_hash` and the values that it makes. `GENESIS_HASH` is the link of the first event.
pub record HashFunction : Type 1 where
  pub Hash : Type 0
  pub hash_discrete : Discrete Hash
  pub genesis_hash : Hash
  pub compute_event_hash : ℕ → Entry → Hash → Hash

pub data AuditError : Type 0 where
  sequence_gap broken_link modified_event : ℕ → AuditError

pub data Verified : Type 0 where
  verified_events : ℕ → Verified
  integrity_error_at : AuditError → Verified

module _ (h : HashFunction) where
  open h use {Hash, hash_discrete, genesis_hash, compute_event_hash}

  -- A row of `audit_events`.
  pub record AuditRow : Type 0 where
    pub seq : ℕ
    pub event : Entry
    pub prev_hash : Hash
    pub event_hash : Hash

  -- `_head`: the next sequence number and the link, from the row of the highest sequence number.
  abbrev pub head_of : Option AuditRow → ℕ × Hash
  head_of none = (0, genesis_hash)
  head_of (some r) = (r.seq + 1, r.event_hash)

  -- `append`: the sequence number is allocated and the row inserted in one transaction.
  unfoldable pub append : List AuditRow → Entry → List AuditRow
  append rows e =
      let (seq, prev) = head_of (last rows) in
      rows
      ++ record {
        seq = seq;
        event = e;
        prev_hash = prev;
        event_hash = compute_event_hash seq e prev;
      }
        ∷ []

  -- The loop of `verify_chain`, from the row of this index and the hash that it must link to.
  pub verify_from : ℕ → Hash → List AuditRow → Verified
  verify_from index expected [] = verified_events index
  verify_from index expected (r ∷ rows) =
      let rest = verify_from (index + 1) r.event_hash rows in
      if not (r.seq == index)
      then integrity_error_at (sequence_gap r.seq)
      else ite (hash_discrete r.prev_hash expected)
          (ite (hash_discrete (compute_event_hash r.seq r.event r.prev_hash) r.event_hash) rest
            (integrity_error_at (modified_event r.seq)))
          (integrity_error_at (broken_link r.seq))

  unfoldable pub verify_chain : List AuditRow → Verified
  verify_chain = verify_from 0 genesis_hash

  -- `tail`: the last `limit` events, oldest first. `count`: how many there are.
  unfoldable pub tail_of : ℕ → List AuditRow → List AuditRow
  tail_of limit rows = drop (length rows - limit) rows

  unfoldable pub count : List AuditRow → ℕ
  count rows = length rows
