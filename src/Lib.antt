-- ===== src/Lib.antt =====
-- A model of ATLAS, an automated trading system (src/atlas): its trading core, from the gates that let
-- a strategy trade to the orders, fills and positions, and the halt that stops it.
--
-- The parts and how they interact. All methods run over one state, `World`, which holds the rows of
-- the database (src/atlas/db/schema.sql), the file of the kill switch, the clock, the source of uuid4,
-- the replies that the exchange will give and what was sent to it. A method is an action: it takes the
-- state and gives a result, a value or the exception that it raises, and the state after it; what was
-- written before a raise stays written.
--
--   Prelude      lists, options, texts, integers, and tables with unique keys
--   Decimal      Python's decimal.Decimal with 28 digits, half-even; Decimal/Order its comparison
--   World        the state, its rows and exceptions (src/atlas/models.py), and the actions
--   KillSwitch   src/atlas/killswitch.py: arm, disarm, initialise, read_state, the gates
--   Audit        src/atlas/audit.py: append, verify_chain, tail, count
--   Ledger       src/atlas/execution/ledger.py: every method of Ledger
--   Reconcile    src/atlas/execution/reconcile.py: reconcile, reconcile_balance
--   Broker       src/atlas/execution/broker.py: place, place_oco, _parse_oco, the balances; and
--                Broker/Transport: the retry loop _call with classify_rejection
--   Brackets     src/atlas/execution/brackets.py and idempotency.py: open_bracketed_position
--   Ingest       src/atlas/execution/ingest.py: ingest, ingest_all, _close_if_exit_filled
--   Sizing       src/atlas/risk/sizing.py; Limits: src/atlas/risk/limits.py
--   Filters      src/atlas/risk/filters.py: parse_symbol_filters, ExchangeFilterCache
--   Selection    src/atlas/selection/gates.py: evaluate_gates
--   Registry     src/atlas/strategy/registry.py; Monitor: src/atlas/monitor/rules.py, supervisor.py
--   Promotion    src/atlas/promotion/gate.py: promote, risk_multiplier_for
--   Market       src/atlas/data/models.py; Market/Validation: src/atlas/data/validate.py
--   Indicators   src/atlas/strategy/indicators.py; Spec: src/atlas/strategy/spec.py
--   Evaluator    src/atlas/strategy/evaluator.py: evaluate, explain; Lookups is evaluate with the KeyError
--                of a missing series, which the specs that the constructor accepts never raise
--   Backtest     src/atlas/backtest/engine.py, costs.py, guard.py, trade.py: run_backtest;
--                Backtest/Stats: src/atlas/backtest/stats.py
--   Regime       src/atlas/intel/regime.py; Monitor/Health: src/atlas/monitor/health.py
--   Incubation   src/atlas/incubation/tracker.py; Incubation/Divergence: divergence.py
--   Trading      src/atlas/runtime/trading_service.py and decisions.py: Entries has what one strategy
--                leads to, Tick the order of a tick; Steps/Rules and Tick/Kept carry a
--                predicate that every change of the loop keeps to the result of the tick
--   Scheduler    src/atlas/runtime/scheduler.py: IntervalScheduler, TickReport
--   Recovery     src/atlas/runtime/recovery.py: recover, RecoveryReport
--   Tests        concrete states and runs
--
-- The broker asks the kill switch before it sends and logs to the audit log; bracketed entries use the
-- broker and the ledger, ingestion and reconciliation the ledger, reconciliation arms the kill switch,
-- the supervisor and the promotion gate write to the registry. Recovery reads the kill switch,
-- reconciles, and reads it again. A spec is evaluated over the bars with the indicators that it names;
-- a backtest fills the signals at the size that the sizing answers, and incubation follows the same
-- signals without capital. A tick is all of the parts that trade: it reconciles, checks the account,
-- decides on each symbol and supervises. The scheduler runs a tick on any type of states.
--
-- Names follow the code. Rows stand in the order of their insertion. Identifiers made by uuid4 are
-- numbers, all distinct, since `uuids` counts up; exchange trade ids and times are numbers too. A text
-- is a list of character codes, and `upper` is that of ASCII. A decimal has no exponent limits and no
-- NaN. `none` of an optional decimal is the exception of a division by zero.
--
-- Recursion on fuel: the digits of a number n are counted, and written, with n rounds at most, which
-- are enough since each drops a digit; the root of a number n is built with twice as many rounds as n
-- has digits, each of which drops two binary digits. All other loops are recursion on the data; the
-- retry loop is recursion on the retries that are left, and the scheduler's on the ticks that are left.
--
-- Parameters: the hash of the audit chain (SHA-256 over canonical JSON), the digest of client order
-- ids, the network of the transport, what exchangeInfo answers, the trades that the exchange lists, the
-- texts of monitor details, of amounts and of ages, what the stored payload of a spec reads as, and the
-- filters that a provider answers in a tick. What other processes may do while a POST is under way is
-- part of its reply: they may arm the kill switch.
--
-- Not modelled: signing and HTTP, JSON, configuration, the command line, notifications, the download
-- and the store of market data, hashes of specs and series, research, and the process that gathers the
-- arguments of a tick. Of payloads and reasons only what the code computes is kept; the texts of limit
-- breaches, of gate details and of decisions, and the notes of a tick, are left out. A transaction of
-- the database is one step.
pub mod Prelude
pub mod Decimal
pub mod World
pub mod KillSwitch
pub mod Audit
pub mod Ledger
pub mod Reconcile
pub mod Broker
pub mod Scheduler
pub mod Sizing
pub mod Spec
pub mod Limits
pub mod Selection
pub mod Recovery
pub mod Registry
pub mod Market
pub mod Monitor
pub mod Promotion
pub mod Evaluator
pub mod Filters
pub mod Indicators
pub mod Ingest
pub mod Backtest
pub mod Brackets
pub mod Tests
pub mod Regime
pub mod Trading
pub mod Incubation
