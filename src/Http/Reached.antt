-- ===== src/Http/Reached.antt =====
-- That the calls of the client reach the handlers of the server that they are meant for.
use terminal_hub.Common.{
  ℕ, ◌≡◌, refl, ap, ◌∙◌, Bool, true, false, ◌&&◌, ◌||◌, none, some, [], ◌∷◌, ◌++◌, Text, codes, leb,
  ◌==◌, is_nil, All, arith, text_eq,
}
use terminal_hub.Cron.Jobs.{starts_with}
use terminal_hub.Sessions.Grid.{ws_path}
use terminal_hub.Http.{
  Method, get, post, put, delete, Call, auth_status, auth_logout, auth_login, list_crons, get_cron,
  delete_cron, run_cron_now, enable_cron, disable_cron, get_cron_history, create_cron, update_cron,
  list_sessions, create_session, delete_session, update_session_name, browse_workspace_files,
  browse_files, download_workspace_file, upload_workspace_file, send_upload_request, download_file,
  upload_request, upload_workspace_request, request, url_path,
}
use terminal_hub.Http.Server.{
  Handler, handle_login, handle_logout, handle_auth_status, handle_list_sessions,
  handle_create_session, handle_delete_session, handle_update_session, handle_file_browse,
  handle_file_download, handle_file_upload, handle_list_crons, handle_create_cron, handle_get_cron,
  handle_update_cron, handle_delete_cron, handle_cron_run_now, handle_cron_history,
  handle_cron_enable, handle_cron_disable, trim_prefix, trim_slash, split_two, cron_action,
  handle_cron_by_id, handle_session_by_id, web_socket_by_id, handle_web_socket, dispatch,
  cron_operation,
}

-- the handler that a call is meant for
abbrev pub meant : Call → Handler
meant auth_status = handle_auth_status
meant auth_logout = handle_logout
meant (auth_login username password) = handle_login
meant list_crons = handle_list_crons
meant (get_cron id) = handle_get_cron id
meant (delete_cron id) = handle_delete_cron id
meant (run_cron_now id) = handle_cron_run_now id
meant (enable_cron id) = handle_cron_enable id
meant (disable_cron id) = handle_cron_disable id
meant (get_cron_history id) = handle_cron_history id
meant (create_cron r) = handle_create_cron
meant (update_cron id updates) = handle_update_cron id
meant list_sessions = handle_list_sessions
meant (create_session r) = handle_create_session
meant (delete_session id) = handle_delete_session id
meant (update_session_name id name) = handle_update_session id
meant (browse_workspace_files path show_hidden) = handle_file_browse
meant (browse_files session_id path show_hidden) = handle_file_browse
meant (download_workspace_file path filename) = handle_file_download
meant (upload_workspace_file u) = handle_file_upload
meant (send_upload_request u) = handle_file_upload
meant (download_file path filename) = handle_file_download

-- ASCII letters and digits, `-` and `_`, which a URL leaves as they are
abbrev pub is_id_unit : ℕ → Bool
is_id_unit c =
    leb b'0' c && leb c b'9'
    || leb b'A' c && leb c b'Z'
    || leb b'a' c && leb c b'z'
    || c == b'-'
    || c == b'_'

abbrev pub IsId : Text → Type 0
IsId id = (is_nil id ≡ false) × All (λ c. is_id_unit c ≡ true) id

-- What a call wants to be served: that crons are enabled, for the calls that are about them, and the
-- identifier in its path, if there is one.
abbrev pub IsServed : Bool → Call → Type 0
IsServed has_crons auth_status = Unit
IsServed has_crons auth_logout = Unit
IsServed has_crons (auth_login username password) = Unit
IsServed has_crons list_crons = has_crons ≡ true
IsServed has_crons (get_cron id) = (has_crons ≡ true) × IsId id
IsServed has_crons (delete_cron id) = (has_crons ≡ true) × IsId id
IsServed has_crons (run_cron_now id) = (has_crons ≡ true) × IsId id
IsServed has_crons (enable_cron id) = (has_crons ≡ true) × IsId id
IsServed has_crons (disable_cron id) = (has_crons ≡ true) × IsId id
IsServed has_crons (get_cron_history id) = (has_crons ≡ true) × IsId id
IsServed has_crons (create_cron r) = has_crons ≡ true
IsServed has_crons (update_cron id updates) = (has_crons ≡ true) × IsId id
IsServed has_crons list_sessions = Unit
IsServed has_crons (create_session r) = Unit
IsServed has_crons (delete_session id) = IsId id
IsServed has_crons (update_session_name id name) = IsId id
IsServed has_crons (browse_workspace_files path show_hidden) = Unit
IsServed has_crons (download_workspace_file path filename) = Unit
IsServed has_crons (upload_workspace_file u) = Unit
IsServed has_crons (browse_files session_id path show_hidden) = Unit
IsServed has_crons (send_upload_request u) = Unit
IsServed has_crons (download_file path filename) = Unit

no_slash : (c : ℕ) → is_id_unit c ≡ true → (c == b'/') ≡ false
no_slash c h = ground (arith, h)

split_two-id : (id : Text) → All (λ c. is_id_unit c ≡ true) id → split_two (id ++ []) ≡ (id, none)
unfolding split_two
split_two-id [] h = refl
split_two-id (c ∷ id) (p, h) = ground (arith, no_slash c p, split_two-id id h)

split_two-action :
    (id action : Text)
    → All (λ c. is_id_unit c ≡ true) id
    → split_two (id ++ (b'/' ∷ action)) ≡ (id, some action)
unfolding split_two
split_two-action [] action h = refl
split_two-action (c ∷ id) action (p, h) = ground (arith, no_slash c p, split_two-action id action h)

trim_slash-id : (id : Text) → All (λ c. is_id_unit c ≡ true) id → trim_slash id ≡ id
unfolding trim_slash
trim_slash-id [] h = refl
trim_slash-id (c ∷ []) (p, h) = ground (arith, no_slash c p)
trim_slash-id (c ∷ d ∷ id) (p, h) = ap (λ r. c ∷ r) (trim_slash-id (d ∷ id) h)

-- the two patterns with an identifier
dispatch-cron :
    (method : Method) (rest : Text)
    → dispatch true method (codes "/api" ++ (codes "/crons/" ++ rest))
      ≡ handle_cron_by_id (split_two rest) method
unfolding dispatch text_eq starts_with trim_prefix
dispatch-cron method rest = refl

dispatch-session :
    (has_crons : Bool) (method : Method) (rest : Text)
    → dispatch has_crons method (codes "/api" ++ (codes "/sessions/" ++ rest))
      ≡ handle_session_by_id rest method
unfolding dispatch text_eq starts_with trim_prefix
dispatch-session true method rest = refl
dispatch-session false method rest = refl

direct :
    (method : Method) (id : Text)
    → IsId id
    → dispatch true method (codes "/api" ++ (codes "/crons/" ++ (id ++ [])))
      ≡ cron_operation id method
direct method id (h, k) =
    dispatch-cron method (id ++ [])
    ∙ ap (λ p. handle_cron_by_id p method) (split_two-id id k)
    ∙ unfold handle_cron_by_id in rw h refl

acted :
    (method : Method) (id action : Text)
    → IsId id
    → dispatch true method (codes "/api" ++ (codes "/crons/" ++ (id ++ (b'/' ∷ action))))
      ≡ cron_action id action method
acted method id action (h, k) =
    dispatch-cron method (id ++ (b'/' ∷ action))
    ∙ ap (λ p. handle_cron_by_id p method) (split_two-action id action k)
    ∙ unfold handle_cron_by_id in rw h refl

-- a call about crons, which are enabled
by_id :
    (has_crons : Bool) (method : Method) (path : Text) (h : Handler)
    → has_crons ≡ true
    → dispatch true method path ≡ h
    → dispatch has_crons method path ≡ h
by_id has_crons method path h e k = rw e k

-- The socket of a session's card, and of its page, is served with its identifier.
dispatch-socket :
    (has_crons : Bool) (id : Text)
    → IsId id
    → dispatch has_crons get (ws_path id) ≡ handle_web_socket id
unfolding dispatch text_eq starts_with trim_prefix web_socket_by_id ws_path
dispatch-socket true id (h, k) = rw (trim_slash-id id k, h) refl
dispatch-socket false id (h, k) = rw (trim_slash-id id k, h) refl

-- Every call of the clients, the uploads and downloads of the files page and of a terminal included,
-- reaches the handler of the server that it is meant for, with its method and with its identifier,
-- where that is a word of letters, digits, `-` and `_`, and, for a call about cron jobs, where the
-- server has them enabled.
pub dispatch-request :
    (has_crons : Bool) (c : Call)
    → IsServed has_crons c
    → dispatch has_crons (request c).method (url_path (request c)) ≡ meant c
unfolding request cron_operation cron_action text_eq upload_workspace_request upload_request
dispatch-request b auth_status h = unfold dispatch in refl
dispatch-request b auth_logout h = unfold dispatch in refl
dispatch-request b (auth_login username password) h = unfold dispatch in refl
dispatch-request b list_crons h = by_id b get _ _ h (unfold dispatch starts_with in refl)
dispatch-request b (create_cron r) h = by_id b post _ _ h (unfold dispatch starts_with in refl)
dispatch-request b list_sessions h = unfold dispatch in refl
dispatch-request b (create_session r) h = unfold dispatch in refl
dispatch-request b (browse_workspace_files path show_hidden) h = unfold dispatch starts_with in refl
dispatch-request b (browse_files session_id path show_hidden) h =
    unfold dispatch starts_with in refl
dispatch-request b (download_workspace_file path filename) h = unfold dispatch starts_with in refl
dispatch-request b (download_file path filename) h = unfold dispatch starts_with in refl
dispatch-request b (upload_workspace_file u) h = unfold dispatch starts_with in refl
dispatch-request b (send_upload_request u) h = unfold dispatch starts_with in refl
dispatch-request b (get_cron id) (e, h) = by_id b get _ _ e (direct get id h)
dispatch-request b (delete_cron id) (e, h) = by_id b delete _ _ e (direct delete id h)
dispatch-request b (update_cron id updates) (e, h) = by_id b put _ _ e (direct put id h)
dispatch-request b (run_cron_now id) (e, h) = by_id b post _ _ e (acted post id (codes "run") h)
dispatch-request b (enable_cron id) (e, h) = by_id b post _ _ e (acted post id (codes "enable") h)
dispatch-request b (disable_cron id) (e, h) = by_id b post _ _ e (acted post id (codes "disable") h)
dispatch-request b (get_cron_history id) (e, h) =
    by_id b get _ _ e (acted get id (codes "history") h)
dispatch-request b (delete_session id) (h, k) =
    dispatch-session b delete id ∙ unfold handle_session_by_id in rw (trim_slash-id id k, h) refl
dispatch-request b (update_session_name id name) (h, k) =
    dispatch-session b put id ∙ unfold handle_session_by_id in rw (trim_slash-id id k, h) refl
