-- ===== src/World.antt =====
-- The state that the components share (the tables of src/atlas/db/schema.sql, the kill-switch file,
-- the exchange's answers, clock and uuid source), and the monad in which their methods run.
mod Rows
mod Monad
mod Returns
mod Frames
pub use Rows.*
pub use Monad.*
pub use Returns.*
pub use Frames.*
