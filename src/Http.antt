-- ===== src/Http.antt =====
-- The calls that the client makes of the server: frontend/src/shared/http/client.ts and the clients of
-- features/auth/api.ts, crons/api.ts, sessions/api.ts, files/api.ts, terminal/fileBrowserApi.ts and
-- terminal/useFileTransfer.ts. A body is a file, or the value that `JSON.stringify` is given; a query
-- are the parameters before they are encoded.
pub mod Server
pub mod Reached
pub mod Refused
use terminal_hub.Common.{
  ℕ, Bool, true, false, not, ◌&&◌, ◌||◌, Option, none, some, List, [], ◌∷◌, ◌++◌, Text, codes, ltb,
  leb, ◌==◌, if◌then◌else◌, maybe, is_nil, trim, ◌⊎◌, inl, inr,
}
use terminal_hub.Uploads.State.{UploadFile}
use terminal_hub.Files.Upload.{UploadError, request_error, plain_error, create_upload_request_error}
use terminal_hub.Cron.Api.{CreateCronRequest, UpdateCronRequest}
use terminal_hub.Sessions.Dialogs.{CreateSessionRequest}
use terminal_hub.Browse.Query.{Query, workspace_query, session_query, is_blank_text, or_no_text}

pub data Method : Type 0 where
  get post put delete : Method

pub data Content : Type 0 where
  credentials : Text → Text → Content
  new_cron : CreateCronRequest → Content
  cron_updates : UpdateCronRequest → Content
  new_session : CreateSessionRequest → Content
  session_name : Text → Content
  raw_file : UploadFile → Content

-- a file with its type, which may be empty, where it goes, and whether it may overwrite
pub record Upload : Type 0 where
  pub file : UploadFile
  pub file_type : Text
  pub upload_path : Text
  pub filename : Option Text
  pub overwrite : Bool

-- The functions of the clients, with their arguments. The last three are those of a terminal:
-- `browseFiles`, `sendUploadRequest`, and the request of `downloadFile`; its socket asks `auth_status`
-- too (Connection/Flow).
pub data Call : Type 0 where
  auth_status auth_logout : Call
  auth_login : Text → Text → Call
  list_crons : Call
  get_cron delete_cron run_cron_now enable_cron disable_cron get_cron_history : Text → Call
  create_cron : CreateCronRequest → Call
  update_cron : Text → UpdateCronRequest → Call
  list_sessions : Call
  create_session : CreateSessionRequest → Call
  delete_session : Text → Call
  update_session_name : Text → Text → Call
  browse_workspace_files : Option Text → Bool → Call
  download_workspace_file : Text → Option Text → Call
  upload_workspace_file : Upload → Call
  browse_files : Text → Option Text → Bool → Call
  send_upload_request : Upload → Call
  download_file : Text → Text → Call

-- the arguments of `apiFetch`, or what an XMLHttpRequest is given
pub record Request : Type 0 where
  pub method : Method
  pub path : Text
  pub query : Query
  pub headers : List (Text × Text)
  pub content : Option Content
  pub skip_auth_redirect : Bool

abbrev plain : Method → Text → Request
plain method path = record {
  method = method;
  path = path;
  query = [];
  headers = [];
  content = none;
  skip_auth_redirect = false;
}

abbrev with_content : Method → Text → Content → Request
with_content method path content = record (plain method path) {
  headers = (codes "Content-Type", codes "application/json") ∷ [];
  content = some content;
}

abbrev cron_path : Text → Text → Text
cron_path id action = codes "/crons/" ++ (id ++ action)

-- the query of `downloadWorkspaceFile`
abbrev download_query : Text → Option Text → Query
download_query path filename =
    (codes "path", trim path)
    ∷ (if is_blank_text (or_no_text filename)
        then []
        else (codes "filename", trim (or_no_text filename)) ∷ [])

-- each function of the clients, up to its call of `apiFetch`
abbrev pub status_request : Request
status_request = record (plain get (codes "/auth/status")) { skip_auth_redirect = true }

abbrev pub login_request : Text → Text → Request
login_request username password =
    record (with_content post (codes "/auth/login") (credentials username password)) {
      skip_auth_redirect = true;
    }

abbrev pub logout_request : Request
logout_request = record (plain post (codes "/auth/logout")) { skip_auth_redirect = true }

abbrev pub list_crons_request : Request
list_crons_request = plain get (codes "/crons")

abbrev pub get_cron_request : Text → Request
get_cron_request id = plain get (cron_path id [])

abbrev pub create_cron_request : CreateCronRequest → Request
create_cron_request r = with_content post (codes "/crons") (new_cron r)

abbrev pub update_cron_request : Text → UpdateCronRequest → Request
update_cron_request id r = with_content put (cron_path id []) (cron_updates r)

abbrev pub delete_cron_request : Text → Request
delete_cron_request id = plain delete (cron_path id [])

abbrev pub run_cron_now_request : Text → Request
run_cron_now_request id = plain post (cron_path id (codes "/run"))

abbrev pub enable_cron_request : Text → Request
enable_cron_request id = plain post (cron_path id (codes "/enable"))

abbrev pub disable_cron_request : Text → Request
disable_cron_request id = plain post (cron_path id (codes "/disable"))

abbrev pub get_cron_history_request : Text → Request
get_cron_history_request id = plain get (cron_path id (codes "/history"))

abbrev pub list_sessions_request : Request
list_sessions_request = plain get (codes "/sessions")

abbrev pub create_session_request : CreateSessionRequest → Request
create_session_request r = with_content post (codes "/sessions") (new_session r)

abbrev pub delete_session_request : Text → Request
delete_session_request id = plain delete (codes "/sessions/" ++ id)

abbrev pub update_session_name_request : Text → Text → Request
update_session_name_request id name =
    with_content put (codes "/sessions/" ++ id) (session_name name)

abbrev pub browse_request : Query → Request
browse_request query = record (plain get (codes "/files/browse")) { query = query }

abbrev pub download_request : Text → Option Text → Request
download_request path filename = record (plain get (codes "/download")) {
  query = download_query path filename;
}

-- `file.type || "application/octet-stream"`
abbrev content_type : Text → Text
content_type file_type = if is_nil file_type then codes "application/octet-stream" else file_type

-- an upload as `sendUploadRequest` sends it, given the name of the file
unfoldable pub upload_request : Upload → Text → Request
upload_request u filename = record (plain post (codes "/upload")) {
  headers =
      (codes "Content-Type", content_type u.file_type)
      ∷ (codes "X-Terminal-Hub-Upload-Path", u.upload_path)
      ∷ (codes "X-Terminal-Hub-Upload-Filename", filename)
      ∷ (
        codes "X-Terminal-Hub-Upload-Overwrite",
        if u.overwrite then codes "true" else codes "false",
      )
      ∷ [];
  content = some (raw_file u.file);
}

-- `(filename ?? file.name).trim()`
abbrev pub resolved_filename : Upload → Text
resolved_filename u = trim (maybe u.filename u.file.name (λ name. name))

-- the XMLHttpRequest of `uploadWorkspaceFile`, which is opened at "/api/upload"
unfoldable pub upload_workspace_request : Upload → Request
unfolding upload_request
upload_workspace_request u = upload_request u (resolved_filename u)

unfoldable pub request : Call → Request
unfolding workspace_query session_query upload_request upload_workspace_request
request auth_status = status_request
request auth_logout = logout_request
request (auth_login username password) = login_request username password
request list_crons = list_crons_request
request (get_cron id) = get_cron_request id
request (delete_cron id) = delete_cron_request id
request (run_cron_now id) = run_cron_now_request id
request (enable_cron id) = enable_cron_request id
request (disable_cron id) = disable_cron_request id
request (get_cron_history id) = get_cron_history_request id
request (create_cron r) = create_cron_request r
request (update_cron id updates) = update_cron_request id updates
request list_sessions = list_sessions_request
request (create_session r) = create_session_request r
request (delete_session id) = delete_session_request id
request (update_session_name id name) = update_session_name_request id name
request (browse_workspace_files path show_hidden) =
    browse_request (workspace_query path show_hidden)
request (browse_files session_id path show_hidden) =
    browse_request (session_query session_id path show_hidden)
request (download_workspace_file path filename) = download_request path filename
request (upload_workspace_file u) = upload_workspace_request u
request (send_upload_request u) = upload_request u (or_no_text u.filename)
request (download_file path filename) = download_request path (some filename)

-- what a call throws, or shows, before it asks for anything, or its request
unfoldable pub send : Call → Text ⊎ Request
unfolding request
send (download_workspace_file path filename) =
    if is_blank_text path
    then inl (codes "File path is required")
    else inr (request (download_workspace_file path filename))
send (download_file path filename) =
    if is_blank_text path
    then inl (codes "Download path is required.")
    else inr (request (download_file path filename))
send c = inr (request c)

-- the path that `fetch` is given
abbrev pub url_path : Request → Text
url_path r = codes "/api" ++ r.path

-- What the clients read of a response, its body as a text.
pub record Response : Type 0 where
  pub status : ℕ
  pub status_text : Text
  pub body : Text

-- `response.ok`
abbrev pub is_ok : Response → Bool
is_ok r = leb 200 r.status && ltb r.status 300

-- the text in front of the detail of an error
unfoldable pub prefix_of : Call → Text
prefix_of auth_status = codes "Failed to check auth status"
prefix_of auth_logout = []
prefix_of (auth_login username password) = []
prefix_of list_crons = codes "Failed to list cron jobs"
prefix_of (get_cron id) = codes "Failed to get cron job"
prefix_of (delete_cron id) = codes "Failed to delete cron job"
prefix_of (run_cron_now id) = codes "Failed to run cron job"
prefix_of (enable_cron id) = codes "Failed to enable cron job"
prefix_of (disable_cron id) = codes "Failed to disable cron job"
prefix_of (get_cron_history id) = codes "Failed to get cron history"
prefix_of (create_cron r) = codes "Failed to create cron job"
prefix_of (update_cron id updates) = codes "Failed to update cron job"
prefix_of list_sessions = codes "Failed to list sessions"
prefix_of (create_session r) = codes "Failed to create session"
prefix_of (delete_session id) = codes "Failed to delete session"
prefix_of (update_session_name id name) = codes "Failed to update session"
prefix_of (browse_workspace_files path show_hidden) = codes "Failed to browse files"
prefix_of (browse_files session_id path show_hidden) = codes "Failed to browse files"
prefix_of (download_workspace_file path filename) = codes "Failed to download file"
prefix_of (upload_workspace_file u) = []
prefix_of (send_upload_request u) = []
prefix_of (download_file path filename) = []

-- the message of `throwApiError`
unfoldable pub throw_api_error : Response → Text → Text
throw_api_error r prefix =
    prefix ++ (codes ": " ++ (if is_nil r.body then r.status_text else r.body))

-- what a call reads of a response that is ok: nothing, its JSON, a member of that, or its bytes
pub data Reading : Type 0 where
  nothing whole bytes : Reading
  member : Text → Reading

unfoldable pub reading_of : Call → Reading
reading_of auth_status = whole
reading_of auth_logout = nothing
reading_of (auth_login username password) = nothing
reading_of list_crons = member (codes "jobs")
reading_of (get_cron id) = whole
reading_of (delete_cron id) = nothing
reading_of (run_cron_now id) = whole
reading_of (enable_cron id) = nothing
reading_of (disable_cron id) = nothing
reading_of (get_cron_history id) = member (codes "executions")
reading_of (create_cron r) = whole
reading_of (update_cron id updates) = whole
reading_of list_sessions = whole
reading_of (create_session r) = whole
reading_of (delete_session id) = nothing
reading_of (update_session_name id name) = nothing
reading_of (browse_workspace_files path show_hidden) = whole
reading_of (browse_files session_id path show_hidden) = whole
reading_of (download_workspace_file path filename) = bytes
reading_of (upload_workspace_file u) = whole
reading_of (send_upload_request u) = whole
reading_of (download_file path filename) = bytes

-- How a call settles: with a value, with the message of an error of the client that it throws, with
-- that of `response.json()` on a body that is none, or, at a terminal, with a text that is shown and
-- no error, or with the question whether to overwrite a file.
pub data Outcome (Json : Type 0) : Type 0 where
  done : Outcome Json
  value : Json → Outcome Json
  file : Text → Outcome Json
  rejected : Text → Outcome Json
  unreadable : Outcome Json
  shown : Text → Outcome Json
  conflict : Outcome Json

abbrev upload_message : UploadError → Text
upload_message (request_error status message text) = message
upload_message (plain_error message) = message

-- `String(n)`, `JSON.parse`, a member of a value, and the member `message` where it is a text
module _ {Json : Type 0} (string_of : ℕ → Text) (parse : Text → Option Json)
    (member_of : Text → Json → Json) (message_of : Json → Option Text) where
  unfoldable pub read : Reading → Text → Outcome Json
  read nothing body = done
  read bytes body = file body
  read whole body = maybe (parse body) unreadable (λ json. value json)
  read (member name) body = maybe (parse body) unreadable (λ json. value (member_of name json))

  -- the error of `login`
  unfoldable pub login_error : Response → Outcome Json
  login_error r =
      maybe (parse r.body) unreadable
        (λ json. rejected (maybe (message_of json) (codes "Login failed") (λ m. m)))

  -- the error of a call of any other client
  unfoldable pub failure : Call → Response → Outcome Json
  unfolding throw_api_error prefix_of create_upload_request_error
  failure (upload_workspace_file u) r =
      rejected (upload_message (create_upload_request_error string_of r.status r.body))
  failure (send_upload_request u) r =
      if r.status == 409 && not u.overwrite
      then conflict
      else shown (codes "Upload failed: " ++ r.body)
  failure (download_file path filename) r = shown (codes "Download failed: " ++ r.body)
  failure c r = rejected (throw_api_error r (prefix_of c))

  unfoldable pub outcome : Call → Response → Outcome Json
  unfolding read login_error reading_of failure
  outcome auth_logout r = done
  outcome (auth_login username password) r = if is_ok r then done else login_error r
  outcome c r = if is_ok r then read (reading_of c) r.body else failure c r
