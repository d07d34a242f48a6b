-- ===== src/TreeView.antt =====
-- fruitsalade/webapp/js/views/tree.js: the tree of folders in the sidebar.
pub mod Model
pub mod Marks
pub mod Runs
pub mod Reveals
mod Examples
