-- ===== src/Files/Upload.antt =====
-- `uploadWorkspaceFile` of frontend/src/features/files/api.ts: the request as a state machine over
-- the events of its XMLHttpRequest and of its abort signal. `JSON.parse`, with the types of the
-- fields that are read, is the parameter `parse_json`: the message of its exception, or the fields.
use terminal_hub.Common.{
  ℕ, min, Bool, true, false, ◌&&◌, Option, none, some, List, [], ◌∷◌, ◌++◌, Text, codes, ltb, leb,
  ◌==◌, if◌then◌else◌, maybe, length, trim, ◌⊎◌, inl, inr,
}
use terminal_hub.Uploads.Steps.{Outcome, uploaded, rejected, broken}

-- `UploadWorkspaceFileResponse`
pub record UploadResponse : Type 0 where
  pub path : Text
  pub filename : Text
  pub size : ℕ
  pub overwritten : Bool

-- `JSON.parse`'s fields: those of the expected type, and whether `overwritten` is true
pub record Parsed : Type 0 where
  pub path : Option Text
  pub filename : Option Text
  pub size : Option ℕ
  pub overwritten : Bool

-- The errors: an `UploadWorkspaceRequestError` with its status, message and text, or a plain one.
pub data UploadError : Type 0 where
  request_error : ℕ → Text → Text → UploadError
  plain_error : Text → UploadError

-- What the request does outside: the session event, the calls of `onProgress`, `xhr.abort()` and
-- `xhr.send()`.
pub data Effect : Type 0 where
  session_invalid abort_request send_request : Effect
  progress : ℕ → ℕ → Effect

-- `result` is the state of the promise, `listening` holds while the signal has the listener.
pub record Request : Type 0 where
  pub settled : Bool
  pub result : Option (UploadError ⊎ UploadResponse)
  pub listening : Bool
  pub log : List Effect

-- `String(status)` is a parameter.
module _ (string_of : ℕ → Text) where
  unfoldable pub create_upload_request_error : ℕ → Text → UploadError
  create_upload_request_error status text =
      let detail =
        if length (trim text) == 0 then codes "HTTP " ++ string_of status else trim text in
      request_error status (codes "Upload failed: " ++ detail) text

unfoldable pub parse_upload_response : Parsed → UploadResponse
parse_upload_response parsed = record {
  path = maybe parsed.path [] (λ t. t);
  filename = maybe parsed.filename [] (λ t. t);
  size = maybe parsed.size 0 (λ n. n);
  overwritten = parsed.overwritten;
}

-- What `runUploadTask` sees of a settled request: `isUploadWorkspaceRequestError` tells the errors
-- apart.
unfoldable pub outcome_of : UploadError ⊎ UploadResponse → Outcome
outcome_of (inl (request_error status message text)) = rejected status message
outcome_of (inl (plain_error message)) = broken message
outcome_of (inr response) = uploaded response.overwritten

-- `resolve` and `reject`: a promise keeps its first result
unfoldable pub settle_promise : UploadError ⊎ UploadResponse → Request → Request
settle_promise r s = record s { result = maybe s.result (some r) (λ first. some first) }

-- `finishWithSuccess` and `finishWithError`
unfoldable pub finish : UploadError ⊎ UploadResponse → Request → Request
unfolding settle_promise
finish r s =
    if s.settled then s else settle_promise r (record s { settled = true; listening = false })

abbrev pub canceled : UploadError ⊎ UploadResponse
canceled = inl (plain_error (codes "Upload canceled"))

abbrev pub note : Effect → Request → Request
note e s = record s { log = e ∷ s.log }

unfoldable pub on_abort : Request → Request
unfolding finish
on_abort s = finish canceled (note abort_request s)

-- `signal` is absent, present or aborted already
pub data Signal : Type 0 where
  no_signal live_signal aborted_signal : Signal

abbrev pub new_request : Request
new_request = record { settled = false; result = none; listening = false; log = [] }

unfoldable pub start : Signal → Request
unfolding finish
start aborted_signal = finish canceled new_request
start no_signal = note send_request new_request
start live_signal = note send_request (record new_request { listening = true })

-- The events: progress (`lengthComputable`, `loaded`, `total`), `error`, `abort` and `load` (status
-- and text) of the request, and `abort` of the signal.
pub data Event : Type 0 where
  progressed : Bool → ℕ → ℕ → Event
  errored aborted : Event
  loaded : ℕ → Text → Event
  signalled : Event

-- the request's `onprogress`, given an `onProgress`
unfoldable pub on_progress : ℕ → Bool → ℕ → ℕ → Request → Request
on_progress file_size computable sent whole s =
    let total = if computable && ltb 0 whole then whole else file_size in
    note (progress (min sent total) total) s

module _ (string_of : ℕ → Text) (parse_json : Text → Text ⊎ Parsed) (file_size : ℕ) where
  abbrev pub parsed_result : Text ⊎ Parsed → UploadError ⊎ UploadResponse
  parsed_result (inl message) = inl (plain_error message)
  parsed_result (inr parsed) = inr (parse_upload_response parsed)

  -- what `onload` finishes with
  unfoldable pub load_result : ℕ → Text → UploadError ⊎ UploadResponse
  load_result status text =
      if leb 200 status && ltb status 300
      then parsed_result (parse_json text)
      else inl (create_upload_request_error string_of status text)

  unfoldable pub on_load : ℕ → Text → Request → Request
  unfolding finish load_result
  on_load status text s =
      finish (load_result status text) (if status == 401 then note session_invalid s else s)

  unfoldable pub handle : Event → Request → Request
  unfolding finish on_abort on_progress on_load
  handle (progressed computable sent whole) s = on_progress file_size computable sent whole s
  handle errored s = finish (inl (plain_error (codes "Upload failed: network error"))) s
  handle aborted s = finish canceled s
  handle (loaded status text) s = on_load status text s
  handle signalled s = if s.listening then on_abort s else s

  unfoldable pub run : List Event → Request → Request
  unfolding handle
  run [] s = s
  run (e ∷ es) s = run es (handle e s)
