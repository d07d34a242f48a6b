-- ===== src/Transfers/Discipline.antt =====
-- One upload at a time, and never idle: the discipline of the queue of
-- fruitsalade/webapp/js/transfers.js, kept by everything that can happen to the page.
pub mod Rules
pub mod Answers
pub mod Users
pub mod Bulk
