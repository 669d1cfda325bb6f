-- ===== src/Tests/Workspace.antt =====
-- The files page with one upload that ends.
use terminal_hub.Common.{
  ◌≡◌, refl, false, [], ◌∷◌, codes, trim, trim_start, trim_end, is_space, one_of, select,
}
use terminal_hub.Browse.Page.{refresh_current_directory}
use terminal_hub.Uploads.State.{UploadFile, Flight}
use terminal_hub.Uploads.Steps.{answered, uploaded, pull, is_idle}
use terminal_hub.Uploads.Steps
use terminal_hub.Workspace.{Workspace, initial, uploads, handle, with_queue}
use terminal_hub.Workspace.Refreshed.{last_answer}

abbrev file : UploadFile
file = record { name = codes "a.txt"; size = 10 }

-- a page that shows a directory, and one upload to it
abbrev uploading : Workspace
uploading = handle (uploads (Steps.enqueued (codes "/srv") (file ∷ []))) initial

abbrev flying : Flight
flying = record {
  task = record {
    id = 1;
    batch_id = 1;
    file = file;
    destination_path = codes "/srv";
    file_name = codes "a.txt";
  };
  retrying = false;
  origin = codes "/srv";
}

last_answer_example :
    (handle (uploads (answered 1 (uploaded false) false)) uploading).page
    ≡ refresh_current_directory (codes "/srv") uploading.page
last_answer_example =
    last_answer 1 (uploaded false) false flying [] uploading
      (unfold initial Steps.initial handle with_queue Steps.handle Steps.enqueue_files
          Steps.add_batch Steps.to_tasks Steps.pump_upload_queue Steps.start_uploads
          Steps.finalize_uploads_if_idle trim trim_start trim_end is_space one_of select pull
          Steps.first_answer Steps.settle Steps.update_upload_item Steps.update_items in
        refl)
      (unfold initial Steps.initial handle with_queue Steps.handle Steps.enqueue_files
          Steps.add_batch Steps.to_tasks Steps.pump_upload_queue Steps.start_uploads
          Steps.finalize_uploads_if_idle trim trim_start trim_end is_space one_of select pull
          Steps.first_answer Steps.settle Steps.update_upload_item Steps.update_items in
        refl)
      (unfold initial Steps.initial handle with_queue Steps.handle Steps.enqueue_files
          Steps.add_batch Steps.to_tasks Steps.pump_upload_queue Steps.start_uploads
          Steps.finalize_uploads_if_idle trim trim_start trim_end is_space one_of select pull
          Steps.first_answer Steps.settle Steps.update_upload_item Steps.update_items in
        refl)
      (unfold initial Steps.initial handle with_queue Steps.handle Steps.enqueue_files
          Steps.add_batch Steps.to_tasks Steps.pump_upload_queue Steps.start_uploads
          Steps.finalize_uploads_if_idle trim trim_start trim_end is_space one_of select pull
          Steps.first_answer Steps.settle Steps.update_upload_item Steps.update_items in
        refl)
