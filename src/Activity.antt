-- ===== src/Activity.antt =====
-- fruitsalade/webapp/js/views/activity.js: the feed of operations on files.
pub mod Model
pub mod Groups
pub mod Paging
pub mod Complete
mod Examples
