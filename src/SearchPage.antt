-- ===== src/SearchPage.antt =====
-- fruitsalade/webapp/js/views/search.js: the page of the search.
pub mod Model
pub mod Recent
pub mod Highlight
mod Examples
