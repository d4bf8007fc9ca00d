-- ===== src/Broker/Transport.antt =====
-- `UrllibBrokerTransport._call` and `classify_rejection` of src/atlas/execution/broker.py: one request
-- is tried again after faults that may pass. The network is a function from the number of the attempt
-- to what becomes of it.
pub mod Bounds
use atlas_ai_trading.Prelude.{
  Bool, List, Option, [], if◌then◌else◌, ltb, none, some, suc, true, zero, ℕ, ◌&&◌, ◌++◌, ◌==◌, ◌^◌,
  ◌||◌, ◌∷◌,
}
use atlas_ai_trading.World.{Error, Result, market_data_error, ok, order_rejection, raised}

-- `RETRYABLE_STATUS`
unfoldable pub is_retryable_status : ℕ → Bool
is_retryable_status s = s == 408 || s == 429 || s == 500 || s == 502 || s == 503 || s == 504

-- The classes of the exception that is raised for an HTTP status; its message is left out.
unfoldable pub classify_rejection : ℕ → Error
classify_rejection status = order_rejection (is_retryable_status status) (some status)

-- How one request ends: a body, an HTTP error, a connection error or timeout, or a body that is not JSON.
pub data Attempt (A : Type 0) : Type 0 where
  responded : A → Attempt A
  http_error : ℕ → Attempt A
  connection_error unparseable : Attempt A

-- What a call came to, how many requests it sent, and for how long it slept between them.
pub record Call (A : Type 0) : Type 0 where
  pub outcome : Result A
  pub requests : ℕ
  pub sleeps : List ℕ

-- `backoff_base ** attempt`, if another attempt follows.
abbrev pause : (base attempt left : ℕ) → List ℕ
pause base attempt left = if ltb 0 left && ltb 0 base then base ^ attempt ∷ [] else []

-- An attempt ends the call, or lets it go on.
unfoldable pub ending : {A : Type 0} → Attempt A → Option (Result A)
unfolding is_retryable_status
ending (responded a) = some (ok a)
ending (http_error s) = if is_retryable_status s then none else some (raised (classify_rejection s))
ending connection_error = none
ending unparseable = some (raised market_data_error)

abbrev retried : {A : Type 0} → List ℕ → Call A → Call A
retried slept c = record {
  outcome = c.outcome;
  requests = suc c.requests;
  sleeps = slept ++ c.sleeps;
}

abbrev exhausted : {A : Type 0} → Call A
exhausted = record { outcome = raised (order_rejection true none); requests = 0; sleeps = [] }

-- The rounds of the loop from an attempt on, of which some are left.
unfoldable pub call_from : {A : Type 0} → ℕ → (ℕ → Attempt A) → (left attempt : ℕ) → Call A
call_from base network zero attempt = exhausted
call_from base network (suc left) attempt =
    let rest = retried (pause base attempt left) (call_from base network left (suc attempt)) in
    elim (ending (network attempt)) [
      | some r ↦ record { outcome = r; requests = 1; sleeps = [] }
      | none ↦ rest
    ]

unfoldable pub call : {A : Type 0} → (retries base : ℕ) → (ℕ → Attempt A) → Call A
unfolding call_from
call retries base network = call_from base network retries 0
