-- ===== src/Machine.antt =====
-- The interpreter's global state (extern.c, ztypes.h), the runs of code over it, and the accesses
-- to its memory areas: the data area `datap`, the evaluation stack, and the story file's code bytes
-- (the macros of ztypes.h; memory.c; the push and pop idioms of all opcode files).
mod Defs
mod Access
mod Laws
pub use Defs.*
unfoldable pub use Access.*
pub use Laws.*
