-- ===== src/Workspace/View.antt =====
-- What FilesPage.tsx shows of its state: the table of the directory and the list of uploads. Markup
-- that no state changes is left out; the texts of dates and of numbers are parameters.
use terminal_hub.Common.{
  ℕ, Bool, Option, none, some, List, [], ◌∷◌, ◌++◌, map, Text, codes, ◌==◌, if◌then◌else◌, length,
}
use terminal_hub.Browse.Query.{Entry, is_blank_text}
use terminal_hub.Uploads.State.{Status, queued, uploading, completed, failed, skipped, Item}
use terminal_hub.Uploads.Totals.{displayed_upload_items}
use terminal_hub.Workspace.{Workspace, is_downloading}
use terminal_hub.Workspace.Sizes.{format_bytes}

abbrev status_name : Status → Text
status_name queued = codes "queued"
status_name uploading = codes "uploading"
status_name completed = codes "completed"
status_name failed = codes "failed"
status_name skipped = codes "skipped"

unfoldable pub upload_status_class : Status → Text
upload_status_class completed = codes "text-emerald-300 border-emerald-600/40 bg-emerald-700/20"
upload_status_class failed = codes "text-red-300 border-red-600/40 bg-red-700/20"
upload_status_class skipped = codes "text-amber-300 border-amber-600/40 bg-amber-700/20"
upload_status_class uploading = codes "text-blue-300 border-blue-600/40 bg-blue-700/20"
upload_status_class queued = codes "text-zinc-300 border-zinc-700 bg-zinc-800/60"

unfoldable pub upload_progress_class : Status → Text
upload_progress_class failed = codes "bg-red-500"
upload_progress_class completed = codes "bg-emerald-500"
upload_progress_class skipped = codes "bg-amber-500"
upload_progress_class uploading = codes "bg-blue-500"
upload_progress_class queued = codes "bg-blue-500"

-- `toLocaleString` of a date with `dateStyle` and `timeStyle`, `none` for an invalid one
unfoldable pub format_date_time : (Text → Option Text) → Text → Text
format_date_time date value = elim (date value) [ none ↦ codes "Unknown" | some text ↦ text ]

-- a row of the table
pub record Row : Type 0 where
  pub title : Text
  pub name : Text
  pub size : Text
  pub modified : Text
  pub action : Text
  pub disabled : Bool

-- `directoryBodyContent`
pub data Body : Type 0 where
  loading_files : Body
  empty_directory : Body
  table : List Row → Body

-- an upload of the list; the width of its bar is a percentage
pub record Article : Type 0 where
  pub file_name : Text
  pub destination_path : Text
  pub status : Text
  pub status_class : Text
  pub progress_class : Text
  pub width : Text
  pub sizes : Text
  pub message : Text

module _ (string_of : ℕ → Text) (date : Text → Option Text) where
  unfoldable pub row_of : Workspace → Entry → Row
  unfolding format_date_time format_bytes
  row_of s entry =
      let running = is_downloading entry s in
      record {
        title = entry.path;
        name = entry.name;
        size = if entry.is_directory then 0x2014 ∷ [] else format_bytes string_of entry.size;
        modified = format_date_time date entry.modified_at;
        action =
            if entry.is_directory
            then codes "Open"
            else if running
            then codes "Downloading"
            else codes "Download";
        disabled = running;
      }

  unfoldable pub directory_body_content : Workspace → Body
  unfolding row_of
  directory_body_content s =
      if s.page.loading
      then loading_files
      else if length s.page.entries == 0
      then empty_directory
      else table (map (row_of s) s.page.entries)

  -- the line above the table
  unfoldable pub count_text : Workspace → Text
  count_text s =
      if s.page.loading
      then codes "Loading..."
      else string_of (length s.page.entries) ++ codes " items"

  unfoldable pub article_of : Item → Article
  unfolding upload_status_class upload_progress_class format_bytes
  article_of item = record {
    file_name = item.file_name;
    destination_path = item.destination_path;
    status = status_name item.status;
    status_class = upload_status_class item.status;
    progress_class = upload_progress_class item.status;
    width = string_of item.progress_percent ++ codes "%";
    sizes =
        format_bytes string_of item.sent_bytes
        ++ (codes " / " ++ format_bytes string_of item.total_bytes);
    message = item.message;
  }

  -- the list of uploads, none of which gives a text of its own
  unfoldable pub articles : Workspace → List Article
  unfolding displayed_upload_items article_of
  articles s = map article_of (displayed_upload_items s.queue)

-- the error above the table
unfoldable pub shown_error : Workspace → Option Text
shown_error s = elim s.page.error [
  | none ↦ none
  | some message ↦ if is_blank_text message then none else some message
]

-- whether files cannot be selected
unfoldable pub is_select_disabled : Workspace → Bool
is_select_disabled s = is_blank_text s.page.current_path
