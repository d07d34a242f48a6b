-- ===== src/Lib.antt =====
-- The webapp of FruitSalade: the JavaScript under fruitsalade/webapp, a single-page client of the
-- file server, with its upload queue.
--
-- Parts and files:
--   Base: shared names, Boolean tests, lists of ids, maps as functions, stable sorting, paths as
--     texts with slashes.
--   Transfers: the upload queue, fruitsalade/webapp/js/transfers.js.
--     Model holds its data. A transfer object is found in `heap` by the id that the database gave
--     it; the array `transfers` is the list of these ids. The database is a map from ids to
--     records, written in the order of the calls; `clock` is what Date.now() reads.
--     Store, Upload, Replies and Actions hold its functions: writes and panel flags, uploads up to
--     their requests, the callbacks of the requests, and what the user and the browser ask.
--     Events runs them one after another: each handler runs to its end, and the network may answer
--     at any time, in any order, with anything. A run starts when the database has been read.
--     Queue, Discipline, Records, Reload, Runs, PauseAll, Chunks, Leaving and Offline prove;
--     Examples holds tests.
--   In Transfers the panel's HTML, formatSpeed, formatETA and the file picker are left out, since
--   they read the state and change none of it. Failures of the database are left out: every write
--   succeeds. The events that other parts of the page send are not modelled either.
--   ServiceWorker: the caches of the webapp, fruitsalade/webapp/service-worker.js.
--     Model holds the caches and the three handlers; what a fetch gives is an argument. A request is
--     handled to its end before the next one. Laws is about the two strategies, Good and Runs are
--     about every life of the worker.
--   Notifications: the notification center, fruitsalade/webapp/js/notifications.js.
--     Model holds its variables, the toasts of the document and the handlers; Counts is about the
--     counter, the badge and the event source, Bursts about the toasts, Times about
--     relative times. The HTML is left out.
--   Api: the session and the requests, fruitsalade/webapp/js/api.js. Model holds them; Paths
--     models and proves the encoding of paths.
--   App: the router and the frame of the page, fruitsalade/webapp/js/app.js. Model holds what of the
--     document is shown, with the session of Api and the notification center in it, and the texts that
--     decodeURIComponent takes as an argument; Guards is about navigation, Frames and Visits about what is shown together, SigningOut about the ends of a
--     session, Menus about the menu and theme.
--     What the views draw, the tree view and the install banner are left out.
--   Utils: toasts, dialogs and the kinds of files, fruitsalade/webapp/js/utils.js. Toast, Modal and
--     FileTypes are the models; Progress, Dialogs and Extensions prove.
--   Browser: the file browser, fruitsalade/webapp/js/views/browser.js.
--     Listing holds the entries and their order, Folders the upload of files and folders to the
--     queue of Transfers, Selection the selected paths with the check boxes and keys, Search the
--     search field, Batch the requests for many paths, Rename the inline rename, Listeners what an
--     opened folder leaves on the page, Trees the tree of the server and what a search finds in it.
--     Selection and Search are about one opened folder; handlers that older folders left at the
--     document are in Listeners only, as far as they load folders.
--     Order and the children of these prove. `localeCompare` is an
--     argument. The HTML, the menu of a row and its dialogs are left out.
--   TreeView: the folder tree of the sidebar, fruitsalade/webapp/js/views/tree.js. Model holds the
--     list items of the document; Marks and Runs are about the active item and the arrows, Reveals
--     about which folders are open.
--   Activity: the activity feed, fruitsalade/webapp/js/views/activity.js. Model holds it; Groups is
--     about the dates, Paging and Complete about Load More, with the server's log as an argument.
--   SearchPage: the search page, fruitsalade/webapp/js/views/search.js. Model holds it; Recent is
--     about the stored searches, Highlight models and proves the marks of a match.
--   Login: the login form and that of the second factor, fruitsalade/webapp/js/views/login.js. Model
--     holds them with the session of Api; Signing is about who is signed in.
--   Versions: the comparison of two versions, fruitsalade/webapp/js/views/versions.js, on the lines of
--     the texts. Diff holds it; Replays is about its operations, Tables about what is shown,
--     Matrix about the matrix, Best about the lines it keeps. The list of versions and the conflicts are left out.
--   Fuel: the search of the next chunk counts its rounds, as many as there are chunks left, so that
--     it looks at every one; the way back through the matrix of Versions has as many rounds as the
--     two versions have lines, each of which takes one line at least. All other loops run over lists.
--   Not modelled: the other views under fruitsalade/webapp/js/views, which draw what the server sends, and
--     the server itself, whose answers are arguments.
pub mod Api
pub mod App
pub mod Base
pub mod Browser
pub mod Transfers
pub mod Utils
pub mod ServiceWorker
pub mod Notifications
pub mod TreeView
pub mod Activity
pub mod SearchPage
pub mod Login
pub mod Versions
