-- ===== src/Browser.antt =====
-- fruitsalade/webapp/js/views/browser.js: the file browser.
pub mod Listing
pub mod Order
pub mod Folders
pub mod Selection
pub mod Search
pub mod Trees
pub mod Batch
pub mod Rename
pub mod Listeners
mod Examples
