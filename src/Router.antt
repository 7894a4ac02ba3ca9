-- ===== src/Router.antt =====
-- packages/router/src/matcher.ts: path templates, the route table, and matching.
pub mod Segments
pub mod Compound
pub mod Table
pub mod Wire
pub mod Match
pub mod Precedence
mod Tests
