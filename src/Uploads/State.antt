-- ===== src/Uploads/State.antt =====
-- The state of the upload queue in frontend/src/features/files/FilesPage.tsx. An identifier
-- `upload-<n>` is its number. Setting React state is taken to be done at once, as the code itself
-- does in `uploadItemsRef`.
use terminal_hub.Common.{ℕ, Bool, List, Text}

pub data Status : Type 0 where
  queued uploading completed failed skipped : Status

-- a browser's `File`: what the queue reads of it
pub record UploadFile : Type 0 where
  pub name : Text
  pub size : ℕ

pub record Task : Type 0 where
  pub id : ℕ
  pub batch_id : ℕ
  pub file : UploadFile
  pub destination_path : Text
  pub file_name : Text

pub record Item : Type 0 where
  pub id : ℕ
  pub batch_id : ℕ
  pub file_name : Text
  pub destination_path : Text
  pub total_bytes : ℕ
  pub sent_bytes : ℕ
  pub progress_percent : ℕ
  pub status : Status
  pub message : Text

-- A call of `runUploadTask` that is not settled: its task, whether it is in its second request, and
-- the `currentPath` of the render whose `pumpUploadQueue` started it.
pub record Flight : Type 0 where
  pub task : Task
  pub retrying : Bool
  pub origin : Text

-- What the queue does outside its state: the summaries (uploaded, skipped, failed), the refusal,
-- and the path that `refreshCurrentDirectory` loads.
pub data Effect : Type 0 where
  summary : ℕ → ℕ → ℕ → Effect
  not_ready : Effect
  refresh : Text → Effect

pub record Queue : Type 0 where
  pub upload_items : List Item
  pub pending_uploads : List Task
  pub active_upload_count : ℕ
  pub next_upload_id : ℕ
  pub next_batch_id : ℕ
  pub last_completed_batch_id : ℕ
  pub in_flight : List Flight
  pub log : List Effect
