-- ===== src/GdbStub.antt =====
-- lib/gdb-stub: the server's side of the remote protocol of GDB, without its sockets.
mod Text
pub mod OrderedMap
pub mod Packet
pub mod Expression
pub mod Accessor
pub mod AddrRange
pub mod StopPoint
pub mod Command
pub mod Response
unfoldable pub use Text.*
