-- ===== src/Uploads/Steps.antt =====
-- FilesPage.tsx, the upload queue: `updateUploadItem`, `finalizeUploadsIfIdle`, `runUploadTask` cut
-- at its awaits, `pumpUploadQueue` and `enqueueFiles`. Percentages are rounded exactly, where the
-- source rounds a quotient of doubles.
use terminal_hub.Common.{
  ℕ, suc, ◌+◌, ◌-◌, ◌*◌, ◌/◌, min, max, Bool, true, false, not, ◌&&◌, ◌||◌, Option, none, some,
  List, [], ◌∷◌, ◌++◌, map, Text, codes, ltb, ◌==◌, if◌then◌else◌, maybe, take, length, select,
  trim,
}
use terminal_hub.Uploads.State.{
  Status, queued, uploading, completed, failed, skipped, UploadFile, Task, Item, Flight, summary,
  not_ready, refresh, Queue,
}

abbrev pub max_parallel_uploads : ℕ
max_parallel_uploads = 3

abbrev pub max_upload_history_items : ℕ
max_upload_history_items = 150

abbrev pub http_status_conflict : ℕ
http_status_conflict = 409

unfoldable pub update_items : ℕ → (Item → Item) → List Item → List Item
update_items id f [] = []
update_items id f (x ∷ xs) = (if x.id == id then f x else x) ∷ update_items id f xs

unfoldable pub update_upload_item : ℕ → (Item → Item) → Queue → Queue
unfolding update_items
update_upload_item id f s = record s { upload_items = update_items id f s.upload_items }

abbrev pub is_completed : Status → Bool
is_completed completed = true
is_completed _ = false

abbrev pub is_skipped : Status → Bool
is_skipped skipped = true
is_skipped _ = false

abbrev pub is_failed : Status → Bool
is_failed failed = true
is_failed _ = false

-- the loop over `maxBatchID`
unfoldable pub max_batch : ℕ → List Item → ℕ
max_batch m [] = m
max_batch m (x ∷ xs) = max_batch (max m x.batch_id) xs

abbrev pub count_status : (Status → Bool) → List Item → ℕ
count_status test xs = length (select (λ x. test x.status) xs)

abbrev pub unsummarized : Queue → List Item
unsummarized s = select (λ x. ltb s.last_completed_batch_id x.batch_id) s.upload_items

abbrev pub is_idle : Queue → Bool
is_idle s = s.active_upload_count == 0 && length s.pending_uploads == 0

-- `refreshCurrentDirectory` is that of the closure's render, with its `currentPath`.
unfoldable pub finalize_uploads_if_idle : Text → Queue → Queue
finalize_uploads_if_idle current_path s =
    let items = unsummarized s in
    let counts =
      summary (count_status is_completed items) (count_status is_skipped items)
        (count_status is_failed items) in
    if not (is_idle s) || length items == 0 then s else record s {
      last_completed_batch_id = max_batch s.last_completed_batch_id items;
      log = refresh current_path ∷ counts ∷ s.log;
    }

abbrev pub start_task : Text → Task → Queue → Queue
start_task current_path task s = record s {
  active_upload_count = s.active_upload_count + 1;
  in_flight = s.in_flight ++ (record { task = task; retrying = false; origin = current_path } ∷ []);
}

-- The `while` loop: a round shifts the head of the queue.
unfoldable pub start_uploads : Text → List Task → Queue → Queue
start_uploads current_path [] s = record s { pending_uploads = [] }
start_uploads current_path (task ∷ tasks) s =
    let started = start_uploads current_path tasks (start_task current_path task s) in
    if ltb s.active_upload_count max_parallel_uploads
    then started
    else record s { pending_uploads = task ∷ tasks }

unfoldable pub pump_upload_queue : Text → Queue → Queue
unfolding start_uploads finalize_uploads_if_idle
pump_upload_queue current_path s =
    finalize_uploads_if_idle current_path (start_uploads current_path s.pending_uploads s)

-- the `.finally` behind `runUploadTask`; `rest` are the other flights
unfoldable pub settle : Text → List Flight → Queue → Queue
unfolding pump_upload_queue
settle current_path rest s =
    pump_upload_queue current_path
      (record s { in_flight = rest; active_upload_count = s.active_upload_count - 1 })

-- `Math.round((clampedLoaded / safeTotal) * 100)`
unfoldable pub percent_of : ℕ → ℕ → ℕ
percent_of part whole = if whole == 0 then 100 else (200 * part + whole) / (2 * whole)

unfoldable pub with_progress : ℕ → ℕ → Task → Item → Item
unfolding percent_of
with_progress loaded total task item =
    let safe_total = if total == 0 then task.file.size else total in
    let clamped_loaded = min (max loaded 0) safe_total in
    record item {
      sent_bytes = clamped_loaded;
      total_bytes = safe_total;
      progress_percent = percent_of clamped_loaded safe_total;
      status = uploading;
      message = codes "Uploading...";
    }

abbrev pub with_success : Text → Item → Item
with_success text item = record item {
  sent_bytes = item.total_bytes;
  progress_percent = 100;
  status = completed;
  message = text;
}

abbrev pub with_status : Status → Text → Item → Item
with_status status text item = record item { status = status; message = text }

-- How a request ends: the `overwritten` of its answer, an `UploadWorkspaceRequestError` with its
-- status, or another error with the message that is shown for it.
pub data Outcome : Type 0 where
  uploaded : Bool → Outcome
  rejected : ℕ → Text → Outcome
  broken : Text → Outcome

abbrev pub success_text : Bool → Text
success_text overwritten = if overwritten then codes "Uploaded (overwritten)" else codes "Uploaded"

-- what follows the first `await`; `confirmed` is the answer of `window.confirm`
unfoldable pub first_answer : Outcome → Bool → Flight → List Flight → Queue → Queue
unfolding settle update_upload_item
first_answer (uploaded overwritten) confirmed f rest s =
    settle f.origin rest (update_upload_item f.task.id (with_success (success_text overwritten)) s)
first_answer (rejected status text) confirmed f rest s =
    if status == http_status_conflict
    then if confirmed
      then record s { in_flight = record f { retrying = true } ∷ rest }
      else settle f.origin rest
          (update_upload_item f.task.id (with_status skipped (codes "Skipped (already exists)")) s)
    else settle f.origin rest (update_upload_item f.task.id (with_status failed text) s)
first_answer (broken text) confirmed f rest s =
    settle f.origin rest (update_upload_item f.task.id (with_status failed text) s)

-- what follows the second `await`
unfoldable pub second_answer : Outcome → Flight → List Flight → Queue → Queue
unfolding settle update_upload_item
second_answer (uploaded overwritten) f rest s =
    settle f.origin rest
      (update_upload_item f.task.id (with_success (codes "Uploaded (overwritten)")) s)
second_answer (rejected status text) f rest s =
    settle f.origin rest (update_upload_item f.task.id (with_status failed text) s)
second_answer (broken text) f rest s =
    settle f.origin rest (update_upload_item f.task.id (with_status failed text) s)

abbrev to_task : ℕ → ℕ → Text → UploadFile → Task
to_task id batch_id destination_path file = record {
  id = id;
  batch_id = batch_id;
  file = file;
  destination_path = destination_path;
  file_name = file.name;
}

-- `files.map`, which counts `nextUploadIDRef` up
unfoldable pub to_tasks : ℕ → ℕ → Text → List UploadFile → List Task
to_tasks id batch_id destination_path [] = []
to_tasks id batch_id destination_path (file ∷ files) =
    to_task id batch_id destination_path file ∷ to_tasks (suc id) batch_id destination_path files

abbrev pub to_item : Task → Item
to_item task = record {
  id = task.id;
  batch_id = task.batch_id;
  file_name = task.file_name;
  destination_path = task.destination_path;
  total_bytes = task.file.size;
  sent_bytes = 0;
  progress_percent = 0;
  status = queued;
  message = codes "Queued";
}

-- the queue with the tasks of a new batch
unfoldable pub add_batch : Text → List UploadFile → Queue → Queue
unfolding to_tasks
add_batch destination_path files s =
    let tasks = to_tasks s.next_upload_id s.next_batch_id destination_path files in
    record s {
      next_batch_id = s.next_batch_id + 1;
      next_upload_id = s.next_upload_id + length files;
      pending_uploads = s.pending_uploads ++ tasks;
      upload_items = take max_upload_history_items (map to_item tasks ++ s.upload_items);
    }

unfoldable pub enqueue_files : Text → List UploadFile → Queue → Queue
unfolding add_batch pump_upload_queue
enqueue_files current_path files s =
    if length files == 0
    then s
    else if length (trim current_path) == 0
    then record s { log = not_ready ∷ s.log }
    else pump_upload_queue current_path (add_batch (trim current_path) files s)

-- the flight of a task, and the others
unfoldable pub pull : ℕ → List Flight → Option (Flight × List Flight)
pull id [] = none
pull id (f ∷ fs) =
    let later = maybe (pull id fs) none (λ p. some (p.0, f ∷ p.1)) in
    if f.task.id == id then some (f, fs) else later

-- the button "Clear", which is there while there are items
unfoldable pub clear : Queue → Queue
clear s =
    if length s.upload_items == 0
    then s
    else record s { upload_items = []; last_completed_batch_id = 0 }

-- Files are dropped or chosen, a request makes progress, a request ends, or the items are cleared.
pub data Event : Type 0 where
  enqueued : Text → List UploadFile → Event
  progressed : ℕ → ℕ → ℕ → Event
  answered : ℕ → Outcome → Bool → Event
  cleared : Event

abbrev pub answer : Outcome → Bool → Flight × List Flight → Queue → Queue
answer outcome confirmed (f, rest) s =
    if f.retrying then second_answer outcome f rest s else first_answer outcome confirmed f rest s

unfoldable pub handle : Event → Queue → Queue
unfolding enqueue_files update_upload_item with_progress first_answer second_answer clear
handle (enqueued current_path files) s = enqueue_files current_path files s
handle (progressed id loaded total) s =
    maybe (pull id s.in_flight) s
      (λ p. update_upload_item id (with_progress loaded total p.0.task) s)
handle (answered id outcome confirmed) s =
    maybe (pull id s.in_flight) s (λ p. answer outcome confirmed p s)
handle cleared s = clear s

unfoldable pub run : List Event → Queue → Queue
unfolding handle
run [] s = s
run (e ∷ es) s = run es (handle e s)

-- the refs and the state of a new page
unfoldable pub initial : Queue
initial = record {
  upload_items = [];
  pending_uploads = [];
  active_upload_count = 0;
  next_upload_id = 1;
  next_batch_id = 1;
  last_completed_batch_id = 0;
  in_flight = [];
  log = [];
}
