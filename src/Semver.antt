-- ===== src/Semver.antt =====
-- src/core/semver.cpp and src/include/vpp/core/semver.h: the versions of the package layer. The
-- definitions are in the modules Types, Compare, Parse and Range, the proofs in the others.
-- A text and a cursor into it are the bytes from the cursor on.
pub mod Types
pub mod Compare
pub mod Parse
pub mod Range
mod Tests
