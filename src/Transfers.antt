-- ===== src/Transfers.antt =====
-- fruitsalade/webapp/js/transfers.js: the queue of uploads with pause, resume and retry, kept in
-- the browser's database.
pub mod Model
pub mod Store
pub mod Upload
pub mod Queue
pub mod Discipline
pub mod Records
pub mod Reload
pub mod Runs
pub mod PauseAll
pub mod Chunks
pub mod Leaving
pub mod Offline
mod Examples
pub mod Replies
pub mod Actions
pub mod Events
