-- ===== src/Parser.antt =====
-- backend/app/services/crash_parser.py: a payload of a device made into one canonical record.
pub mod Value
pub mod Address
pub mod Fault
pub mod Registers
pub mod StackWords
pub mod Timestamp
pub mod Parse
mod Tests
