-- ===== src/Transfers/Chunks.antt =====
-- The chunked upload of fruitsalade/webapp/js/transfers.js: which chunks are sent, in which order,
-- and what bytes they hold.
pub mod Missing
pub mod Bytes
pub mod Serve
pub mod Whole
