-- ===== src/Browse/Page.antt =====
-- frontend/src/features/files/FilesPage.tsx: the directory that the page shows, with `loadDirectory`
-- cut at its await. An answer that fails is the message of its error, on the left.
use terminal_hub.Common.{
  ℕ, ◌+◌, Bool, true, false, not, ◌||◌, Option, none, some, List, [], ◌∷◌, Text, ◌==◌,
  if◌then◌else◌, maybe, ◌⊎◌, inl, inr,
}
use terminal_hub.Browse.Query.{
  Entry, Listing, Query, is_blank_text, workspace_query, target_path, or_no_text,
}

-- `sent` is the log of the requests, newest first, each with the number that it was given.
pub record Page : Type 0 where
  pub root_path : Text
  pub current_path : Text
  pub parent_path : Text
  pub entries : List Entry
  pub loading : Bool
  pub error : Option Text
  pub show_hidden : Bool
  pub browse_request_id : ℕ
  pub sent : List (ℕ × Query)

-- `loadDirectory` up to its await
unfoldable pub load_directory : Option Text → Option Bool → Page → Page
unfolding workspace_query
load_directory path override s = record s {
  browse_request_id = s.browse_request_id + 1;
  loading = true;
  error = none;
  sent =
      (s.browse_request_id + 1, workspace_query path (maybe override s.show_hidden (λ b. b)))
      ∷ s.sent;
}

abbrev pub show_listing : Listing → Page → Page
show_listing listing s = record s {
  root_path = listing.root;
  current_path = listing.current;
  parent_path = or_no_text listing.parent;
  entries = listing.entries;
}

-- what an answer that is not outdated does, the `finally` block included
unfoldable pub settle : Text ⊎ Listing → Page → Page
settle (inl message) s = record s { error = some message; loading = false }
settle (inr listing) s = record (show_listing listing s) { loading = false }

-- `loadDirectory` behind its await, in the call that was given the number
unfoldable pub directory_loaded : ℕ → Text ⊎ Listing → Page → Page
unfolding settle
directory_loaded request_id answer s =
    if request_id == s.browse_request_id then settle answer s else s

-- `refreshCurrentDirectory` of the render that showed the path
unfoldable pub refresh_current_directory : Text → Page → Page
unfolding load_directory
refresh_current_directory current_path s = load_directory (target_path current_path) none s

-- The buttons: the first and the third are disabled while the page loads.
unfoldable pub go_up : Page → Page
unfolding load_directory
go_up s =
    if s.loading || is_blank_text s.parent_path
    then s
    else load_directory (some s.parent_path) none s

unfoldable pub refresh : Page → Page
unfolding refresh_current_directory
refresh s = if s.loading then s else refresh_current_directory s.current_path s

unfoldable pub toggle_hidden : Page → Page
unfolding load_directory
toggle_hidden s =
    if s.loading
    then s
    else load_directory (target_path s.current_path) (some (not s.show_hidden))
        (record s { show_hidden = not s.show_hidden })

-- The events: the page is opened, a directory is clicked, a button is pressed, the uploads of a
-- render are summed up, or a request is answered.
pub data Event : Type 0 where
  entered : Event
  clicked : Text → Event
  upped refreshed toggled : Event
  uploads_ended : Text → Event
  answered : ℕ → Text ⊎ Listing → Event

unfoldable pub handle : Event → Page → Page
unfolding load_directory refresh_current_directory go_up refresh toggle_hidden directory_loaded
handle entered s = load_directory none none s
handle (clicked path) s = load_directory (some path) none s
handle upped s = go_up s
handle refreshed s = refresh s
handle toggled s = toggle_hidden s
handle (uploads_ended path) s = refresh_current_directory path s
handle (answered request_id answer) s = directory_loaded request_id answer s

unfoldable pub run : List Event → Page → Page
unfolding handle
run [] s = s
run (e ∷ es) s = run es (handle e s)

-- a new page
abbrev pub initial : Page
initial = record {
  root_path = [];
  current_path = [];
  parent_path = [];
  entries = [];
  loading = true;
  error = none;
  show_hidden = false;
  browse_request_id = 0;
  sent = [];
}
