-- ===== src/Workspace/Downloads.antt =====
-- What FilesPage.tsx shows of its downloads.
use terminal_hub.Common.{
  ◌≡◌, true, false, Option, none, some, List, [], ◌∷◌, map, Text, text_eq_refl, includes, arith,
  length, ◌==◌, maybe_elim, if_elim,
}
use terminal_hub.Browse.Query.{Entry}
use terminal_hub.Uploads.State.{UploadFile}
use terminal_hub.Workspace.{
  Workspace, initial, with_queue, enqueue_file_list, handle_drag_over, handle_drag_leave,
  handle_drop, handle_entry_click, is_downloading, press_action, pull_download, download_ended,
  Event, browsed, uploads, dragged_over, drag_left, dropped, chosen, entry_clicked, action_pressed,
  download_answered, handle, run,
}

-- a row that says so is being downloaded
abbrev pub Runs : Option Text → List Entry → Type 0
Runs none downloads = Unit
Runs (some path) downloads = includes path (map (λ x. x.path) downloads) ≡ true

abbrev pub IsTrue : Workspace → Type 0
IsTrue s = Runs s.downloading_path s.downloads

clicked-IsTrue : (entry : Entry) (s : Workspace) → IsTrue s → IsTrue (handle_entry_click entry s)
unfolding handle_entry_click includes
clicked-IsTrue entry s h =
    if_elim IsTrue entry.is_directory (λ _. h) (λ _. ground (arith, text_eq_refl entry.path))

enqueued-IsTrue :
    (files : Option (List UploadFile)) (s : Workspace)
    → IsTrue s
    → IsTrue (enqueue_file_list files s)
unfolding enqueue_file_list with_queue
enqueued-IsTrue none s h = h
enqueued-IsTrue (some files) s h = if_elim IsTrue (length files == 0) (λ _. h) (λ _. h)

handle-IsTrue : (e : Event) (s : Workspace) → IsTrue s → IsTrue (handle e s)
unfolding handle with_queue handle_drag_over handle_drag_leave handle_drop press_action
    download_ended
handle-IsTrue (browsed e) s h = h
handle-IsTrue (uploads e) s h = h
handle-IsTrue dragged_over s h = h
handle-IsTrue drag_left s h = h
handle-IsTrue (dropped files) s h =
    enqueued-IsTrue (some files) (record s { is_drag_over = false }) h
handle-IsTrue (chosen files) s h = enqueued-IsTrue files s h
handle-IsTrue (entry_clicked entry) s h = clicked-IsTrue entry s h
handle-IsTrue (action_pressed entry) s h =
    if_elim IsTrue (is_downloading entry s) (λ _. h) (λ _. clicked-IsTrue entry s h)
handle-IsTrue (download_answered n failure) s h =
    maybe_elim IsTrue (pull_download n s.downloads) (λ _. h) (λ p _. tt)

run-IsTrue : (es : List Event) (s : Workspace) → IsTrue s → IsTrue (run es s)
unfolding run
run-IsTrue [] s h = h
run-IsTrue (e ∷ es) s h = run-IsTrue es (handle e s) (handle-IsTrue e s h)

-- A row that is shown as being downloaded is: whatever happens on a new page, a download of its path
-- awaits the server.
run-IsTrue-initial : (es : List Event) → IsTrue (run es initial)
unfolding initial
run-IsTrue-initial es = run-IsTrue es initial tt

-- Not every download is shown: of two that run, the one that was begun last is no longer shown once
-- the other one ends, and its row can be pressed to download it once more.
second_download :
    (first second : Entry) (failure : Option Text) (s : Workspace)
    → first.is_directory ≡ false
    → second.is_directory ≡ false
    → let t =
        run (entry_clicked first ∷ entry_clicked second ∷ download_answered 1 failure ∷ []) s in
      (t.downloads ≡ second ∷ s.downloads)
      × (is_downloading second t ≡ false)
      × ((handle (action_pressed second) t).downloads ≡ second ∷ second ∷ s.downloads)
unfolding run handle handle_entry_click download_ended pull_download press_action
second_download first second failure s h k = ground (arith, h, k)
