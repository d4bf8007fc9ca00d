-- ===== src/Tests.antt =====
-- Concrete states and the runs of the code on them.
mod Fixtures
mod Stores
mod Ledgers
mod Exchanges
mod Lifecycles
mod Numbers
mod Runtime
mod Strategies
mod Ticks
mod Entering
