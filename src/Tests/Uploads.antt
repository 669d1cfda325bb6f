-- ===== src/Tests/Uploads.antt =====
-- Uploads of concrete files.
use terminal_hub.Common.{◌≡◌, ◌<◌, ◌⊎◌, none, refl, true, false, List, [], ◌∷◌, codes}
use terminal_hub.Uploads.State.{UploadFile, Flight, Task, Queue}
use terminal_hub.Uploads.Steps.{
  Event, clear, enqueued, progressed, answered, uploaded, rejected, handle, run, initial, pull,
  is_idle,
}
use terminal_hub.Uploads.Limits.{IsValid, run-IsValid-initial}
use terminal_hub.Uploads.Progress.{requests_left, answered_left}
use terminal_hub.Uploads.Cleared.{run-clear_silent}
use terminal_hub.Uploads.Totals.{IsPlausible, aggregate_progress, run-aggregate_progress}

abbrev file : UploadFile
file = record { name = codes "a.txt"; size = 10 }

abbrev four : List Event
four = enqueued (codes "/tmp") (file ∷ file ∷ file ∷ file ∷ []) ∷ []

run-IsValid-initial_example : IsValid (run four initial)
run-IsValid-initial_example = run-IsValid-initial four

abbrev one : List Event
one =
    enqueued (codes "/tmp") (file ∷ []) ∷ progressed 1 4 10 ∷ answered 1 (uploaded false) false ∷ []

abbrev waiting : Task
waiting = record {
  id = 7;
  batch_id = 1;
  file = file;
  destination_path = codes "/tmp";
  file_name = codes "a.txt";
}

abbrev flying : Flight
flying = record { task = waiting; retrying = false; origin = codes "/tmp" }

abbrev busy : Queue
busy = record {
  upload_items = [];
  pending_uploads = [];
  active_upload_count = 1;
  next_upload_id = 8;
  next_batch_id = 2;
  last_completed_batch_id = 0;
  in_flight = flying ∷ [];
  log = [];
}

answered_left_example :
    requests_left (handle (answered 7 (rejected 409 []) true) busy) < requests_left busy
answered_left_example =
    answered_left 7 (rejected 409 []) true busy (flying, []) (unfold pull in refl)

run-aggregate_progress_example :
    IsPlausible (aggregate_progress (run four initial))
    × ((is_idle (run four initial) ≡ false) ⊎ (aggregate_progress (run four initial) ≡ none))
run-aggregate_progress_example = run-aggregate_progress four

abbrev ended : List Event
ended = answered 1 (uploaded false) false ∷ answered 2 (rejected 500 []) false ∷ []

run-clear_silent_example :
    ((run ended (clear (run four initial))).log ≡ (run four initial).log)
    × ((run ended (clear (run four initial))).upload_items ≡ [])
run-clear_silent_example = run-clear_silent ended (run four initial) (tt, (tt, tt))
