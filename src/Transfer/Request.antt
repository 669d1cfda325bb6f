-- ===== src/Transfer/Request.antt =====
-- `buildUploadPayload` and `runUploadRequest` of useFileTransfer.ts. What the server answers to the
-- n-th request is the parameter `ask`; `window.confirm` answers `confirmed`.
use terminal_hub.Common.{
  ℕ, zero, suc, Bool, true, false, not, ◌&&◌, ◌||◌, Option, none, some, List, [], ◌∷◌, ◌++◌, Text,
  codes, ltb, leb, ◌==◌, if◌then◌else◌, length, trim, ◌⊎◌, inl, inr,
}
use terminal_hub.Uploads.State.{UploadFile}

pub record UploadPayload : Type 0 where
  pub file : UploadFile
  pub upload_path : Text
  pub upload_filename : Text

-- `buildUploadPayload`, with the message of its error on the left
unfoldable pub build_upload_payload : Option UploadFile → Text → Text → Text ⊎ UploadPayload
build_upload_payload none path filename = inl (codes "Select a file before uploading.")
build_upload_payload (some file) path filename =
    if length (trim path) == 0 || length (trim filename) == 0
    then inl (codes "Upload path and filename are required.")
    else inr (record { file = file; upload_path = trim path; upload_filename = trim filename })

-- What a request comes to: an exception of `fetch`, or a response, with its status, its text, and
-- what `json()` makes of the text: an exception, or the size, if there is one.
pub data Reply : Type 0 where
  unreachable : Reply
  response : ℕ → Text → Option (Option ℕ) → Reply

-- `UploadResult`, or an exception
pub data UploadResult : Type 0 where
  success : Option ℕ → UploadResult
  canceled : UploadResult
  error : Text → UploadResult
  thrown : UploadResult

-- `sent` are the requests, in order: whether each asked to overwrite. The result is `none` where the
-- fuel ran out.
pub record Exchange : Type 0 where
  pub result : Option UploadResult
  pub sent : List Bool

-- `response.ok`
abbrev pub is_ok : ℕ → Bool
is_ok status = leb 200 status && ltb status 300

abbrev parsed_size : Option (Option ℕ) → UploadResult
parsed_size none = thrown
parsed_size (some size) = success size

-- a response that ends the loop
unfoldable pub final_result : ℕ → Text → Option (Option ℕ) → UploadResult
final_result status text body =
    if is_ok status then parsed_size body else error (codes "Upload failed: " ++ text)

abbrev pub ended : Bool → UploadResult → Exchange
ended overwrite result = record { result = some result; sent = overwrite ∷ [] }

abbrev pub after_request : Bool → Exchange → Exchange
after_request overwrite e = record e { sent = overwrite ∷ e.sent }

-- what a round does with its reply; `later` are the rounds that follow
unfoldable pub round : Bool → Bool → Reply → Exchange → Exchange
unfolding final_result
round confirmed overwrite unreachable later = ended overwrite thrown
round confirmed overwrite (response status text body) later =
    if status == 409 && not overwrite
    then if confirmed then after_request overwrite later else ended overwrite canceled
    else ended overwrite (final_result status text body)

-- The loop of `runUploadRequest`, with fuel: the n-th request is made with `overwrite`.
unfoldable pub upload_rounds : ℕ → (ℕ → Reply) → Bool → ℕ → Bool → Exchange
unfolding round
upload_rounds zero ask confirmed n overwrite = record { result = none; sent = [] }
upload_rounds (suc fuel) ask confirmed n overwrite =
    round confirmed overwrite (ask n) (upload_rounds fuel ask confirmed (suc n) true)

unfoldable pub run_upload_request : (ℕ → Reply) → Bool → Exchange
unfolding upload_rounds
run_upload_request ask confirmed = upload_rounds 2 ask confirmed 0 false
