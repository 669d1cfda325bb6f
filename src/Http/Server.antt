-- ===== src/Http/Server.antt =====
-- internal/server/server.go: which handler a request reaches, by the patterns that are registered with
-- `http.HandleFunc`, of which the longest that fits is taken, and by the methods and the parts of the
-- path that the handlers look at first. What the handlers do then, and the sessions of users that the
-- middleware asks for, are not modelled.
use terminal_hub.Common.{
  Bool, ◌&&◌, Option, none, some, [], ◌∷◌, Text, codes, ◌==◌, if◌then◌else◌, maybe, is_nil, text_eq,
}
use terminal_hub.Cron.Jobs.{starts_with}
use terminal_hub.Http.{Method, get, post, put, delete}

-- What a request reaches. `frontend` is the handler of "/", which serves the front end.
pub data Handler : Type 0 where
  handle_login handle_logout handle_auth_status : Handler
  handle_list_sessions handle_create_session : Handler
  handle_delete_session handle_update_session : Text → Handler
  handle_file_browse handle_file_download handle_file_upload : Handler
  handle_list_crons handle_create_cron : Handler
  handle_get_cron handle_update_cron handle_delete_cron : Text → Handler
  handle_cron_run_now handle_cron_history handle_cron_enable handle_cron_disable : Text → Handler
  handle_web_socket : Text → Handler
  frontend : Handler
  method_not_allowed id_required : Handler

-- `strings.TrimPrefix`
unfoldable pub trim_prefix : Text → Text → Text
unfolding starts_with
trim_prefix [] s = s
trim_prefix (p ∷ ps) [] = []
trim_prefix (p ∷ ps) (c ∷ s) =
    let rest = trim_prefix ps s in if starts_with (p ∷ ps) (c ∷ s) then rest else c ∷ s

-- `strings.TrimSuffix` of one slash
unfoldable pub trim_slash : Text → Text
trim_slash [] = []
trim_slash (c ∷ []) = if c == b'/' then [] else c ∷ []
trim_slash (c ∷ d ∷ s) = c ∷ trim_slash (d ∷ s)

-- `strings.SplitN(path, "/", 2)`
unfoldable pub split_two : Text → Text × Option Text
split_two [] = ([], none)
split_two (c ∷ s) =
    let rest = split_two s in if c == b'/' then ([], some s) else (c ∷ rest.0, rest.1)

abbrev only_get : Handler → Method → Handler
only_get h get = h
only_get h post = method_not_allowed
only_get h put = method_not_allowed
only_get h delete = method_not_allowed

abbrev only_post : Handler → Method → Handler
only_post h get = method_not_allowed
only_post h post = h
only_post h put = method_not_allowed
only_post h delete = method_not_allowed

abbrev get_or_post : Handler → Handler → Method → Handler
get_or_post g p get = g
get_or_post g p post = p
get_or_post g p put = method_not_allowed
get_or_post g p delete = method_not_allowed

-- the direct operations of `handleCronByID`
unfoldable pub cron_operation : Text → Method → Handler
cron_operation id get = handle_get_cron id
cron_operation id put = handle_update_cron id
cron_operation id delete = handle_delete_cron id
cron_operation id post = method_not_allowed

unfoldable pub cron_action : Text → Text → Method → Handler
unfolding text_eq cron_operation
cron_action id action method =
    if text_eq action (codes "run")
    then only_post (handle_cron_run_now id) method
    else if text_eq action (codes "history")
    then only_get (handle_cron_history id) method
    else if text_eq action (codes "enable")
    then only_post (handle_cron_enable id) method
    else if text_eq action (codes "disable")
    then only_post (handle_cron_disable id) method
    else cron_operation id method

-- `handleCronByID`, given the path behind the prefix
unfoldable pub handle_cron_by_id : Text × Option Text → Method → Handler
unfolding cron_operation cron_action
handle_cron_by_id (id, action) method =
    if is_nil id
    then id_required
    else maybe action (cron_operation id method) (λ a. cron_action id a method)

-- the handler of "/api/sessions/", given the path behind it
unfoldable pub handle_session_by_id : Text → Method → Handler
unfolding trim_slash
handle_session_by_id path delete =
    if is_nil (trim_slash path) then id_required else handle_delete_session (trim_slash path)
handle_session_by_id path put =
    if is_nil (trim_slash path) then id_required else handle_update_session (trim_slash path)
handle_session_by_id path get = method_not_allowed
handle_session_by_id path post = method_not_allowed

-- `handleWebSocket`, given the path behind the prefix
unfoldable pub web_socket_by_id : Text → Handler
unfolding trim_slash
web_socket_by_id path =
    if is_nil (trim_slash path) then id_required else handle_web_socket (trim_slash path)

-- the patterns; those of crons are registered where there is a `cronManager`
unfoldable pub dispatch : Bool → Method → Text → Handler
unfolding text_eq starts_with trim_prefix split_two handle_cron_by_id handle_session_by_id
    web_socket_by_id
dispatch has_crons method path =
    if text_eq path (codes "/api/auth/login")
    then only_post handle_login method
    else if text_eq path (codes "/api/auth/logout")
    then only_post handle_logout method
    else if text_eq path (codes "/api/auth/status")
    then only_get handle_auth_status method
    else if text_eq path (codes "/api/sessions")
    then get_or_post handle_list_sessions handle_create_session method
    else if starts_with (codes "/api/sessions/") path
    then handle_session_by_id (trim_prefix (codes "/api/sessions/") path) method
    else if text_eq path (codes "/api/files/browse")
    then only_get handle_file_browse method
    else if text_eq path (codes "/api/download")
    then only_get handle_file_download method
    else if text_eq path (codes "/api/upload")
    then only_post handle_file_upload method
    else if has_crons && text_eq path (codes "/api/crons")
    then get_or_post handle_list_crons handle_create_cron method
    else if has_crons && starts_with (codes "/api/crons/") path
    then handle_cron_by_id (split_two (trim_prefix (codes "/api/crons/") path)) method
    else if starts_with (codes "/ws/") path
    then web_socket_by_id (trim_prefix (codes "/ws/") path)
    else frontend
