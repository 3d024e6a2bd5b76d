-- ===== src/Shell/Laws.antt =====
-- What a remote shell makes of a command line that the quoting built.
pub mod Running
mod Commands
mod Guards
pub use Commands.*
pub use Guards.*
