-- ===== src/Tests/Transfer.antt =====
-- Uploads by the panel of a terminal.
use terminal_hub.Common.{
  zero, suc, ℕ, ◌≡◌, ◌≢◌, refl, true, false, some, none, List, [], ◌∷◌, Text, codes, inr, ◌⊎◌, trim,
}
use terminal_hub.Uploads.State.{UploadFile, Queue, Flight, Task, Item, uploading, completed}
use terminal_hub.Uploads.Steps.{enqueued, initial, handle, pull}
use terminal_hub.Files.Upload.{Parsed}
use terminal_hub.Transfer.Request.{Reply, response, upload_rounds, run_upload_request, success}
use terminal_hub.Transfer.Rounds.{IsAsked, upload-ends}
use terminal_hub.Transfer.Ended.{HasStatus}
use terminal_hub.Transfer.Listed.{is_listed, status_of}
use terminal_hub.Transfer.Agreement.{served, panel_status, queue_events, uploads-agree}
use terminal_hub.Transfer.Panel
use terminal_hub.Uploads.Steps
use terminal_hub.Transfer.Panel.{
  Event, file_chosen, upload_pressed, upload_settled, upload_path_typed, download_pressed,
}
use terminal_hub.Transfer.Status.{IsSteady, IsSteady-run}
use terminal_hub.Transfer.Given.{HasGivenRequests}
use terminal_hub.Transfer.Sources.{run-HasGivenRequests}
use terminal_hub.Transfer.Pickers.{
  download, flow_chosen, in_panel, browse_pressed, select_pressed, in_picker,
}
use terminal_hub.Transfer.Pickers
use terminal_hub.Browse.Picker.{answered}
use terminal_hub.Browse.Picker
use terminal_hub.Browse.Query.{Entry, Listing}

-- a conflict, and then the size
abbrev conflict_then_ok : ℕ → Reply
conflict_then_ok zero = response 409 (codes "exists") none
conflict_then_ok (suc n) = response 200 [] (some (some 10))

upload-ends_example :
    let e = upload_rounds 5 conflict_then_ok true 0 false in
    (e.result ≢ none)
    × IsAsked true (conflict_then_ok 0) e.sent
    × (e ≡ run_upload_request conflict_then_ok true)
upload-ends_example = upload-ends 3 conflict_then_ok true

abbrev digits : ℕ → Text
digits _ = codes "409"

abbrev parse_any : Text → Text ⊎ Parsed
parse_any t = inr (record { path = some t; filename = none; size = some 3; overwritten = true })

abbrev file : UploadFile
file = record { name = codes "a.txt"; size = 3 }

abbrev task : Task
task = record {
  id = 7;
  batch_id = 1;
  file = file;
  destination_path = codes "/tmp";
  file_name = codes "a.txt";
}

abbrev flight : Flight
flight = record { task = task; retrying = false; origin = codes "/tmp" }

-- the item of the task, beside one of an upload that is over
abbrev listed_item : Item
listed_item = record {
  id = 7;
  batch_id = 1;
  file_name = codes "a.txt";
  destination_path = codes "/tmp";
  status = uploading;
  total_bytes = 3;
  sent_bytes = 0;
  progress_percent = 0;
  message = [];
}

abbrev uploading_one : Queue
uploading_one = record initial {
  upload_items = record listed_item { id = 6; status = completed } ∷ listed_item ∷ [];
  in_flight = flight ∷ [];
  active_upload_count = 1;
}

abbrev conflict_events : List Steps.Event
conflict_events = queue_events digits parse_any 3 7 (served 409 []) (served 200 []) true

uploads-agree_example :
    let items = (Steps.run conflict_events uploading_one).upload_items in
    let status = panel_status digits parse_any 3 (served 409 []) (served 200 []) true in
    (status_of 7 items ≡ some status) × HasStatus 7 status items
uploads-agree_example =
    uploads-agree digits parse_any 3 (served 409 []) (served 200 []) true 7 flight [] uploading_one
      (unfold pull initial in refl) refl (unfold is_listed in refl)

abbrev clicks : List Event
clicks =
    file_chosen (some file)
    ∷ upload_path_typed (codes "/tmp")
    ∷ upload_pressed
    ∷ upload_pressed
    ∷ upload_settled (success (some 3))
    ∷ []

IsSteady-run_example : IsSteady (Panel.run digits true clicks (Panel.initial []))
IsSteady-run_example = IsSteady-run digits true [] clicks

-- no path, or one from the root
abbrev IsAbsolute : Text → Type 0
IsAbsolute [] = Unit
IsAbsolute (c ∷ _) = c ≡ 47

abbrev logs : Entry
logs = record {
  name = codes "logs";
  path = codes "/srv/logs";
  is_directory = true;
  size = 0;
  modified_at = [];
}

abbrev note : Entry
note = record {
  name = codes "note.txt";
  path = codes "/srv/note.txt";
  is_directory = false;
  size = 5;
  modified_at = [];
}

abbrev srv : Listing
srv = record {
  root = codes "/";
  current = codes "/srv";
  parent = some (codes "/");
  entries = logs ∷ note ∷ [];
}

abbrev selection : List Pickers.Event
selection =
    flow_chosen download
    ∷ browse_pressed
    ∷ in_picker download (answered (inr srv))
    ∷ select_pressed 1
    ∷ in_panel download_pressed
    ∷ []

abbrev selected : Pickers.Transfers
selected = Pickers.run digits (some (codes "s1")) selection (Pickers.initial (codes "/tmp"))

selection_log :
    selected.panel.log
    ≡ Panel.request_download (codes "/srv/note.txt") (some (codes "note.txt")) ∷ []
unfolding Pickers.run Picker.handle trim
selection_log = refl

run-HasGivenRequests_example : HasGivenRequests IsAbsolute selected.panel
run-HasGivenRequests_example =
    run-HasGivenRequests IsAbsolute digits (some (codes "s1")) tt (codes "/tmp") selection refl
      (tt, (tt, ((refl, ((λ _. refl), ((λ _. refl), tt))), (tt, (tt, tt)))))
