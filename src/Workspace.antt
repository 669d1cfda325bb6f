-- ===== src/Workspace.antt =====
-- frontend/src/features/files/FilesPage.tsx as a whole: the directory of Browse/Page and the queue of
-- Uploads/Steps on one page, with the drop zone and the downloads of its entries, each cut at its
-- await.
pub mod Refreshed
pub mod Downloads
pub mod Sizes
pub mod View
use terminal_hub.Common.{
  ℕ, zero, suc, Bool, true, false, ◌&&◌, not, Option, none, some, List, [], ◌∷◌, ◌++◌, Text, codes,
  if◌then◌else◌, maybe, text_eq, ◌⊎◌, inl, inr, length, ◌==◌,
}
use terminal_hub.Browse.Query.{Entry}
use terminal_hub.Browse.Page.{Page, clicked, refresh_current_directory}
use terminal_hub.Browse.Page
use terminal_hub.Uploads.State.{UploadFile, Queue, Effect, summary, not_ready, refresh}
use terminal_hub.Uploads.Steps.{enqueued}
use terminal_hub.Uploads.Steps

pub data Toast : Type 0 where
  toast_success toast_error : Text → Toast

-- `downloads` are the entries whose downloads await the server, newest first.
pub record Workspace : Type 0 where
  pub page : Page
  pub queue : Queue
  pub is_drag_over : Bool
  pub downloading_path : Option Text
  pub downloads : List Entry
  pub toasts : List Toast

-- a new page
unfoldable pub initial : Workspace
unfolding Steps.initial
initial = record {
  page = Page.initial;
  queue = Steps.initial;
  is_drag_over = false;
  downloading_path = none;
  downloads = [];
  toasts = [];
}

-- the calls of `refreshCurrentDirectory` that the queue has logged, newest first
unfoldable pub refresh_all : List Effect → Page → Page
unfolding refresh_current_directory
refresh_all [] p = p
refresh_all (refresh path ∷ log) p = refresh_current_directory path (refresh_all log p)
refresh_all (not_ready ∷ log) p = refresh_all log p
refresh_all (summary completed skipped failed ∷ log) p = refresh_all log p

-- an event of the queue, with what it calls on the page
unfoldable pub with_queue : Steps.Event → Workspace → Workspace
unfolding Steps.handle refresh_all
with_queue e s =
    let after = Steps.handle e (record s.queue { log = [] }) in
    record s {
      queue = record after { log = after.log ++ s.queue.log };
      page = refresh_all after.log s.page;
    }

-- `enqueueFileList`, in the render that shows the page
unfoldable pub enqueue_file_list : Option (List UploadFile) → Workspace → Workspace
unfolding with_queue
enqueue_file_list none s = s
enqueue_file_list (some files) s =
    if length files == 0 then s else with_queue (enqueued s.page.current_path files) s

unfoldable pub handle_drag_over : Workspace → Workspace
handle_drag_over s = record s { is_drag_over = true }

unfoldable pub handle_drag_leave : Workspace → Workspace
handle_drag_leave s = record s { is_drag_over = false }

unfoldable pub handle_drop : List UploadFile → Workspace → Workspace
unfolding enqueue_file_list
handle_drop files s = enqueue_file_list (some files) (record s { is_drag_over = false })

-- `handleEntryClick` up to the await of a download
unfoldable pub handle_entry_click : Entry → Workspace → Workspace
handle_entry_click entry s =
    if entry.is_directory
    then record s { page = Page.handle (clicked entry.path) s.page }
    else record s { downloading_path = some entry.path; downloads = entry ∷ s.downloads }

-- `isDownloading` of an entry's row
abbrev pub is_downloading : Entry → Workspace → Bool
is_downloading entry s = maybe s.downloading_path false (λ path. text_eq path entry.path)

-- the button at the end of a row
unfoldable pub press_action : Entry → Workspace → Workspace
unfolding handle_entry_click
press_action entry s = if is_downloading entry s then s else handle_entry_click entry s

-- the download with a number among those that await, and the others
unfoldable pub pull_download : ℕ → List Entry → Option (Entry × List Entry)
pull_download n [] = none
pull_download zero (x ∷ xs) = some (x, xs)
pull_download (suc n) (x ∷ xs) = maybe (pull_download n xs) none (λ p. some (p.0, x ∷ p.1))

abbrev ended_text : Option Text → Entry → Toast
ended_text none entry = toast_success (codes "Download started: " ++ entry.name)
ended_text (some message) entry = toast_error message

-- behind the await: `none`, or the message of the error
unfoldable pub download_ended : ℕ → Option Text → Workspace → Workspace
unfolding pull_download
download_ended n failure s = maybe (pull_download n s.downloads) s (λ p. record s {
  downloads = p.1;
  toasts = ended_text failure p.0 ∷ s.toasts;
  downloading_path = none;
})

-- Events of the directory and of the queue, and those of the rest of the page.
pub data Event : Type 0 where
  browsed : Page.Event → Event
  uploads : Steps.Event → Event
  dragged_over drag_left : Event
  dropped : List UploadFile → Event
  chosen : Option (List UploadFile) → Event
  entry_clicked action_pressed : Entry → Event
  download_answered : ℕ → Option Text → Event

unfoldable pub handle : Event → Workspace → Workspace
unfolding with_queue enqueue_file_list handle_drag_over handle_drag_leave handle_drop
    handle_entry_click press_action download_ended
handle (browsed e) s = record s { page = Page.handle e s.page }
handle (uploads e) s = with_queue e s
handle dragged_over s = handle_drag_over s
handle drag_left s = handle_drag_leave s
handle (dropped files) s = handle_drop files s
handle (chosen files) s = enqueue_file_list files s
handle (entry_clicked entry) s = handle_entry_click entry s
handle (action_pressed entry) s = press_action entry s
handle (download_answered n failure) s = download_ended n failure s

unfoldable pub run : List Event → Workspace → Workspace
unfolding handle
run [] s = s
run (e ∷ es) s = run es (handle e s)
