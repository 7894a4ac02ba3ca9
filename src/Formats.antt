-- ===== src/Formats.antt =====
-- packages/formats/src: validators of string formats.
pub mod Date
pub mod Ip
mod Tests
