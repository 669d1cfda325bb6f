-- ===== src/Tests/Http.antt =====
-- Calls of the server.
use terminal_hub.Common.{◌≡◌, refl, true, false, Option, none, some, [], ◌++◌, Text, codes, ◌⊎◌}
use terminal_hub.Auth.Provider.{Auth, at, initial, rendered, run}
use terminal_hub.Auth.Refused.{IsOut}
use terminal_hub.Http.{get_cron_history, list_crons, request, url_path, Response, outcome, rejected}
use terminal_hub.Http.Server.{dispatch, handle_cron_history}
use terminal_hub.Http.Reached.{dispatch-request}
use terminal_hub.Http.Refused.{is_auth, events_of, refusal, detail, call-IsOut}

dispatch-request_example :
    dispatch true
      (request (get_cron_history (codes "job-1"))).method
      (url_path (request (get_cron_history (codes "job-1"))))
    ≡ handle_cron_history (codes "job-1")
dispatch-request_example =
    dispatch-request true (get_cron_history (codes "job-1"))
      (refl, (refl, (refl, (refl, (refl, (refl, (refl, tt)))))))

abbrev unauthorized : Response
unauthorized = record { status = 401; status_text = codes "Unauthorized"; body = [] }

abbrev user : Auth
user = record (initial (at (codes "/crons"))) { is_authenticated = true; loading = false }

-- any text is JSON, and has no message
abbrev parse : Text → Option Text
parse t = some t

abbrev refused_detail : Text
refused_detail = refusal list_crons ++ (codes ": " ++ detail (λ n. []) list_crons unauthorized)

call-IsOut_example :
    let events = events_of list_crons unauthorized.status in
    ((is_auth list_crons ≡ true) × (run at events user ≡ user))
    ⊎ ((is_auth list_crons ≡ false)
        × IsOut (rendered at (run at events user))
        × (outcome (λ n. []) parse (λ name json. json) (λ json. none) list_crons unauthorized
            ≡ rejected refused_detail))
call-IsOut_example =
    call-IsOut (λ n. []) parse (λ name json. json) (λ json. none) at list_crons unauthorized user
      refl
