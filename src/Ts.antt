-- ===== src/Ts.antt =====
-- The transport-stream library, ts/*.go.
pub mod Words
pub mod Packet
pub mod Crc
pub mod Section
pub mod Assembler
pub mod Descriptors
pub mod TableId
pub mod Psi
pub mod Pat
pub mod Pmt
pub mod Sdt
pub mod Nit
pub mod DsmccStream
pub mod SectionSet
pub mod Demux
pub mod Parsers
mod Examples
