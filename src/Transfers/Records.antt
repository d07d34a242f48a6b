-- ===== src/Transfers/Records.antt =====
-- The ids and the stored records of fruitsalade/webapp/js/transfers.js: every object of the array
-- is stored, under an id of its own.
pub mod Rules
pub mod Answers
pub mod Users
pub mod Bulk
pub mod Clear
