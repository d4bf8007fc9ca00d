-- ===== src/Broker/Transport/Bounds.antt =====
-- What the retry loop `_call` returns, and after how many requests.
use mathlib.Core.Path.{subst, ap}
use atlas_ai_trading.Broker.Transport.{
  Attempt, call, call_from, classify_rejection, connection_error, ending, http_error,
  is_retryable_status, responded, unparseable,
}
use atlas_ai_trading.Prelude.{
  Bool, [], any, arith, false, none, refl, some, suc, true, zero, ℕ, ◌+◌, ◌<◌, ◌==◌, ◌∷◌, ◌≡◌, ◌≤◌,
}
use atlas_ai_trading.World.{Result, market_data_error, ok, order_rejection, raised}

requests-le :
    {A : Type 0} (base : ℕ) (network : ℕ → Attempt A) (left attempt : ℕ)
    → (call_from base network left attempt).requests ≤ left
unfolding call_from
requests-le base network zero attempt = omega arith
requests-le base network (suc left) attempt =
    ground (arith, requests-le base network left (suc attempt))

-- At most `retries` requests are sent, whatever the network does.
pub call-bounded :
    {A : Type 0} (retries base : ℕ) (network : ℕ → Attempt A)
    → (call retries base network).requests ≤ retries
unfolding call
call-bounded retries base network = requests-le base network retries 0

-- Attempts that let the call go on.
abbrev pub IsTransient : {A : Type 0} → Attempt A → Type 0
IsTransient a = ending a ≡ none

ends_from :
    {A : Type 0} (base : ℕ) (network : ℕ → Attempt A) (n left attempt m : ℕ) (r : Result A)
    → ((i : ℕ) → attempt ≤ i → i < m → IsTransient (network i))
    → ending (network m) ≡ some r
    → m ≡ attempt + n
    → n < left
    → ((call_from base network left attempt).outcome ≡ r)
      × ((call_from base network left attempt).requests ≡ suc n)
unfolding call_from
ends_from base network n zero attempt m r t e p h = absurd (omega arith)
ends_from base network zero (suc left) attempt m r t e p h =
    let now : m ≡ attempt = omega arith in
    let first = subst (λ i. ending (network i) ≡ some r) now e in rw (call_from, first) (refl, refl)
ends_from base network (suc n) (suc left) attempt m r t e p h =
    let rest =
      ends_from base network n left (suc attempt) m r (λ i below above. t i (omega arith) above) e
        (omega arith) (omega arith) in
    rw (call_from, t attempt (omega arith) (omega arith)) (rest.0, ap suc rest.1)

-- Faults that may pass: a connection error or timeout, and six statuses.
abbrev pub may_pass : {A : Type 0} → Attempt A → Bool
may_pass (responded a) = false
may_pass (http_error s) = any (λ t. t == s) (408 ∷ 429 ∷ 500 ∷ 502 ∷ 503 ∷ 504 ∷ [])
may_pass connection_error = true
may_pass unparseable = false

-- What the caller is told of the other attempts.
abbrev pub told : {A : Type 0} → Attempt A → Result A
told (responded a) = ok a
told (http_error s) = raised (order_rejection false (some s))
told connection_error = raised (order_rejection true none)
told unparseable = raised market_data_error

passing-IsTransient : {A : Type 0} (a : Attempt A) → may_pass a ≡ true → IsTransient a
unfolding ending is_retryable_status
passing-IsTransient (responded a) h = absurd cc
passing-IsTransient (http_error s) h = ground arith
passing-IsTransient connection_error h = refl
passing-IsTransient unparseable h = absurd cc

ending-told : {A : Type 0} (a : Attempt A) → may_pass a ≡ false → ending a ≡ some (told a)
unfolding ending is_retryable_status classify_rejection
ending-told (responded a) h = refl
ending-told (http_error s) h = ground arith
ending-told connection_error h = absurd cc
ending-told unparseable h = refl

-- Where the attempts before one within the `retries` are connection errors, timeouts or the statuses
-- 408, 429, 500, 502, 503 and 504, and that one is none of these, the call ends with it and sends no
-- further request: it returns the body, or raises a rejection that is not retryable with any other
-- status, or MarketDataError for a body that is not JSON.
pub call-ends :
    {A : Type 0} (retries base : ℕ) (network : ℕ → Attempt A) (n : ℕ)
    → ((i : ℕ) → i < n → may_pass (network i) ≡ true)
    → may_pass (network n) ≡ false
    → n < retries
    → ((call retries base network).outcome ≡ told (network n))
      × ((call retries base network).requests ≡ suc n)
unfolding call
call-ends retries base network n t e h =
    ends_from base network n retries 0 n (told (network n))
      (λ i z below. passing-IsTransient (network i) (t i below)) (ending-told (network n) e)
      (omega arith) h

exhausts_from :
    {A : Type 0} (base : ℕ) (network : ℕ → Attempt A) (left attempt : ℕ)
    → ((i : ℕ) → attempt ≤ i → i < attempt + left → IsTransient (network i))
    → ((call_from base network left attempt).outcome ≡ raised (order_rejection true none))
      × ((call_from base network left attempt).requests ≡ left)
unfolding call_from
exhausts_from base network zero attempt t = (refl, refl)
exhausts_from base network (suc left) attempt t =
    let rest =
      exhausts_from base network left (suc attempt)
        (λ i below above. t i (omega arith) (omega arith)) in
    rw (call_from, t attempt (omega arith) (omega arith)) (rest.0, ap suc rest.1)

-- Where every attempt meets a fault that may pass, exactly `retries` requests are sent, and the call
-- raises a rejection without a status, which leaves open whether the order exists.
pub call-exhausts :
    {A : Type 0} (retries base : ℕ) (network : ℕ → Attempt A)
    → ((i : ℕ) → i < retries → IsTransient (network i))
    → ((call retries base network).outcome ≡ raised (order_rejection true none))
      × ((call retries base network).requests ≡ retries)
unfolding call
call-exhausts retries base network t =
    exhausts_from base network retries 0 (λ i z above. t i (omega arith))
