-- ===== src/Versions.antt =====
-- fruitsalade/webapp/js/views/versions.js: the comparison of two versions of a file.
pub mod Diff
pub mod Replays
pub mod Tables
pub mod Matrix
pub mod Best
mod Examples
