-- ===== src/Runtime.antt =====
-- What the handlers run in: the errors of src/error.rs, the tables of migrations/, the machine that
-- the agent runs on as an interface, and a monad over the state with errors and panics.
mod Errors
mod Tables
mod Interface
mod Payload
mod Answers
mod Monad
pub mod Laws
pub mod Frame
pub mod Growth
pub mod Ends
pub mod Web
pub mod Reads
unfoldable pub use Errors.*
unfoldable pub use Tables.*
unfoldable pub use Interface.*
unfoldable pub use Payload.*
unfoldable pub use Answers.*
unfoldable pub use Monad.*
