-- ===== src/Browser/Examples.antt =====
-- The theorems about fruitsalade/webapp/js/views/browser.js at concrete inputs.
use fruit_salade.Base.{
  ℕ, suc, String, ◌≡◌, refl, ◌⊎◌, Bool, true, false, not, ◌&&◌, ◌||◌, none, some, List, [], ◌∷◌,
  map, arith, same_text, begins_with, has_part, listed, keep, insert_sorted, sort, IsOrdered, split,
  append, has_slash, parent_of, base_of, depth,
}
use Prim.Native.Nat.{Ordering, compare}
use mathlib.Core.List.{Perm}
use fruit_salade.Transfers.Model.{File, State}
use fruit_salade.Transfers.Actions.{fresh_page, new_record, enqueue}
use fruit_salade.Browser.Listing.{
  shown_results, Item, by_size, SortState, first_order, not_above, click_head, compare_field,
  compare_items, sort_items, IsLocale,
}
use fruit_salade.Browser.Order.{sort_items_lem}
use fruit_salade.Browser.Folders.{
  FolderFile, extend_dir, dir_paths, add_key, add_keys, collect_dirs, digits, array_index,
  object_keys, dir_list, full_path, make_dirs, enqueue_all, upload_folder_files,
}
use fruit_salade.Browser.Folders.ParentsFirst.{parents_first}
use fruit_salade.Browser.Folders.Queued.{
  dir_list-own_folder, StopsAt, IsQueued, upload_folder_files_lem,
}
use fruit_salade.Browser.Selection.{
  Row, arrow_down, space, PickEvent, renders_view, clicks_box, clicks_header, presses_key, pick,
  picks, no_rows,
}
use fruit_salade.Browser.Selection.Synced.{picks-IsSynced}
use fruit_salade.Browser.Selection.Refines.{meaning, set_of, set_of-pick}
use fruit_salade.Browser.Search.{
  results, types, timer_fires, clicks_clear, search_answered, after_searches, no_search,
}
use fruit_salade.Browser.Search.Tracked.{cleared_search}
use fruit_salade.Browser.Trees.{
  flatten_tree, Node, node, no_nodes, and_node, is_searched, matches, search_tree, count_nodes,
  count_kept,
}
use fruit_salade.Browser.Trees.Found.{shown_results_lem}
use fruit_salade.Browser.Batch.{begin_batch, answer_all, failures, report_of, answer_all_lem}
use fruit_salade.Browser.Rename.{renamed, renamed_lem}
use fruit_salade.Browser.Listeners.{
  leave_browser, complete_transfers, open_all, empty_page, render_browser,
}

-- A comparison of texts by their lengths stands for `localeCompare`.
abbrev text_size : String → ℕ
text_size String.[] = 0
text_size (String.◌∷◌ c s) = suc (text_size s)

abbrev by_length : String → String → Ordering
by_length a b = compare (text_size a) (text_size b)

by_length-IsLocale : IsLocale by_length
by_length-IsLocale = record { turns = λ a b. ground arith; chains = λ a b c h k. ground arith }

abbrev item : String → Bool → ℕ → Item
item name is_dir size = record {
  path = name;
  name = name;
  is_dir = is_dir;
  size = size;
  version = 1;
  mod_time = "";
}

abbrev some_items : List Item
some_items = item "b.txt" false 20 ∷ item "docs" true 0 ∷ item "a.txt" false 30 ∷ []

largest_first : SortState
largest_first = click_head by_size (click_head by_size first_order)

largest_first_sorts :
    map (λ i. i.name) (sort_items by_length largest_first some_items)
    ≡ "docs" ∷ "a.txt" ∷ "b.txt" ∷ []
unfolding largest_first sort_items compare_items compare_field click_head sort insert_sorted
largest_first_sorts = refl

sort_items_lem_example :
    Perm (sort_items by_length largest_first some_items) some_items
    × IsOrdered (λ a b. a.is_dir || not b.is_dir) (sort_items by_length largest_first some_items)
    × IsOrdered
        (λ a b. not_above (compare_items by_length largest_first a b))
        (sort_items by_length largest_first some_items)
    × ((test : Item → Bool)
        → ((a b : Item)
            → test a ≡ true
            → test b ≡ true
            → not_above (compare_items by_length largest_first a b) ≡ true)
        → keep test (sort_items by_length largest_first some_items) ≡ keep test some_items)
sort_items_lem_example = sort_items_lem by_length by_length-IsLocale largest_first some_items

abbrev photo : File
photo = record { name = "p.jpg"; bytes = 5 ∷ [] }

abbrev dropped : String → FolderFile
dropped path = record { file = photo; relative_path = path }

abbrev album : List FolderFile
album = dropped "album/2024/june/p.jpg" ∷ dropped "album/q.jpg" ∷ []

album-dirs : dir_list album ≡ "album" ∷ "album/2024" ∷ "album/2024/june" ∷ []
unfolding dir_list collect_dirs add_keys add_key dir_paths extend_dir object_keys array_index digits
    split depth sort insert_sorted keep listed append
album-dirs = refl

parents_first_example :
    (listed (parent_of "album/2024") ("album" ∷ []) ≡ true)
    ⊎ ((parent_of "album/2024" ≡ "__proto__")
        × (listed (parent_of "album/2024") (dir_list album) ≡ false))
parents_first_example =
    parents_first album ("album" ∷ []) "album/2024" ("album/2024/june" ∷ []) album-dirs
      (unfold has_slash in refl)

dir_list-own_folder_example :
    listed
      (parent_of "album/2024/june/p.jpg")
      (dir_list (dropped "album/q.jpg" ∷ dropped "album/2024/june/p.jpg" ∷ []))
    ≡ true
dir_list-own_folder_example =
    dir_list-own_folder (dropped "album/q.jpg" ∷ []) (dropped "album/2024/june/p.jpg") []
      (unfold split in refl) (unfold has_slash in refl) (unfold parent_of has_slash in refl)

-- No directory comes of `__proto__`, though one comes of what is in it.
album_in_proto : dir_list (dropped "__proto__/sub/p.jpg" ∷ []) ≡ "__proto__/sub" ∷ []
unfolding dir_list collect_dirs add_keys add_key dir_paths extend_dir object_keys array_index digits
    split depth sort insert_sorted keep listed append
album_in_proto = refl

abbrev idle : State
idle = fresh_page (λ n. none) 1 0

abbrev only_album : String → Bool
only_album path = same_text path "/home/album"

upload_folder_files_lem_example :
    ((upload_folder_files only_album "/home" album idle).error_shown ≡ false)
      × ((upload_folder_files only_album "/home" album idle).made
          ≡ map (full_path "/home") (dir_list album))
      × IsQueued "/home" album idle (upload_folder_files only_album "/home" album idle).queue
    ⊎ ((upload_folder_files only_album "/home" album idle).error_shown ≡ true)
      × ((upload_folder_files only_album "/home" album idle).queue ≡ idle)
      × StopsAt only_album "/home"
          (dir_list album)
          (upload_folder_files only_album "/home" album idle).made
upload_folder_files_lem_example = upload_folder_files_lem only_album "/home" album idle

abbrev row : String → Row
row path = record { path = some path; is_dir = false }

abbrev some_picks : List PickEvent
some_picks =
    renders_view (row "/a" ∷ row "/b" ∷ row "/c" ∷ [])
    ∷ clicks_box false 0
    ∷ clicks_box true 2
    ∷ presses_key arrow_down
    ∷ presses_key space
    ∷ []

set_of-pick_example :
    set_of (pick clicks_header (picks some_picks no_rows)) "/a"
    ≡ meaning clicks_header (picks some_picks no_rows) (set_of (picks some_picks no_rows)) "/a"
set_of-pick_example =
    set_of-pick clicks_header (picks some_picks no_rows) "/a" (picks-IsSynced some_picks)

cleared_search_example :
    let t =
      after_searches
        (types "a" ∷ clicks_clear ∷ timer_fires ∷ search_answered 0 true ∷ [])
        no_search in
    (t.table ≡ results "a") × (t.text ≡ "") × (t.clear_shown ≡ false)
cleared_search_example = cleared_search "a" no_search refl

answer_all_lem_example :
    ((answer_all (("/d/b", false) ∷ []) (begin_batch ("/d/a" ∷ "/d/b" ∷ []))).reports ≡ [])
    × ((answer_all
          (("/d/b", false) ∷ ("/d/a", true) ∷ [])
          (begin_batch ("/d/a" ∷ "/d/b" ∷ []))).reports
        ≡ report_of (failures (("/d/b", false) ∷ ("/d/a", true) ∷ [])) 2 ∷ [])
answer_all_lem_example =
    answer_all_lem ("/d/a" ∷ "/d/b" ∷ []) (("/d/b", false) ∷ []) ("/d/a", true) refl

renamed_lem_example :
    (parent_of (renamed "/d/a" "b") ≡ parent_of "/d/a")
    × (base_of (renamed "/d/a" "b") ≡ "b")
    × (renamed (renamed "/d/a" "b") (base_of "/d/a") ≡ "/d/a")
renamed_lem_example = renamed_lem "/d/a" "b" (unfold has_slash in refl) (unfold has_slash in refl)

abbrev some_tree : Node
some_tree = node (item "/" true 0) (
    and_node
      (node (item "/apple" true 0) (and_node (node (item "/apple/b" false 3) no_nodes) no_nodes))
      (and_node (node (item "/c" false 4) no_nodes) no_nodes))

abbrev as_is : String → String
as_is s = s

abbrev is_file : Item → Bool
is_file i = not i.is_dir

shown_results_lem_example :
    count_kept is_file (shown_results by_length (search_tree as_is "apple" (some some_tree)))
    ≡ count_nodes (λ i. (is_file i && matches as_is "apple" i) && is_searched i) some_tree
shown_results_lem_example =
    shown_results_lem by_length as_is "apple" some_tree is_file
      (unfold search_tree flatten_tree matches keep has_part begins_with in omega arith)

-- The files of the album, queued at once.
album_queued :
    ((upload_folder_files (λ path. true) "/home" album idle).queue.db 2)
    ≡ some (new_record photo "/home/album/q.jpg" 0)
unfolding upload_folder_files make_dirs enqueue_all enqueue full_path append dir_list collect_dirs
    add_keys add_key dir_paths extend_dir object_keys array_index digits split depth sort
    insert_sorted keep listed fresh_page
album_queued = refl

-- Two folders are opened: a finished transfer loads both, and none when the browser was left.
loads_old_folder :
    (complete_transfers (open_all ("/" ∷ "/d" ∷ []) empty_page)).loads
    ≡ "/" ∷ "/d" ∷ "/" ∷ "/d" ∷ []
unfolding complete_transfers open_all render_browser
loads_old_folder = refl

loads_nothing :
    (complete_transfers (leave_browser (open_all ("/" ∷ "/d" ∷ []) empty_page))).loads
    ≡ "/" ∷ "/d" ∷ []
unfolding complete_transfers leave_browser open_all render_browser
loads_nothing = refl
