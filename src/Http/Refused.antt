-- ===== src/Http/Refused.antt =====
-- What a response with status 401 does to the user, through any of the calls.
use terminal_hub.Common.{
  ℕ, List, [], ◌∷◌, ◌==◌, ◌∙◌, length, trim, ◌≡◌, refl, Bool, true, false, Option, ◌++◌, Text,
  codes, if◌then◌else◌, is_nil, ◌⊎◌, inl, inr, Bool-cases, arith,
}
use terminal_hub.Auth.Provider.{Location, Auth, Event, session_invalid, rendered, run, api_fetch}
use terminal_hub.Auth.Redirects.{unauthorized-at_login}
use terminal_hub.Auth.Refused.{IsOut}
use terminal_hub.Files.Upload.{create_upload_request_error}
use terminal_hub.Http.{
  Call, auth_status, auth_logout, auth_login, request, Response, is_ok, prefix_of, throw_api_error,
  rejected, shown, outcome, failure, upload_workspace_file, send_upload_request, download_file,
  Outcome,
}

-- the calls of the session itself, which are left alone
abbrev pub is_auth : Call → Bool
is_auth auth_status = true
is_auth auth_logout = true
is_auth (auth_login username password) = true
is_auth _ = false

skips : (c : Call) → (request c).skip_auth_redirect ≡ is_auth c
unfolding request
skips auth_status = refl
skips _ = refl

-- The session events of a response: `apiFetch` and, for the upload of the files page, `xhr.onload`.
unfoldable pub events_of : Call → ℕ → List Event
unfolding api_fetch
events_of (upload_workspace_file u) status = if status == 401 then session_invalid ∷ [] else []
events_of c status = api_fetch status (request c).skip_auth_redirect

events-api_fetch : (c : Call) (status : ℕ) → events_of c status ≡ api_fetch status (is_auth c)
unfolding events_of api_fetch
events-api_fetch (upload_workspace_file u) status = ground arith
events-api_fetch c status = rw (skips c) refl

-- the text in front of the detail of a refusal, and the detail
abbrev pub refusal : Call → Text
refusal (upload_workspace_file u) = codes "Upload failed"
refusal (send_upload_request u) = codes "Upload failed"
refusal (download_file path filename) = codes "Download failed"
refusal c = prefix_of c

module _ (string_of : ℕ → Text) where
  abbrev pub detail : Call → Response → Text
  detail (upload_workspace_file u) r =
      if length (trim r.body) == 0 then codes "HTTP " ++ string_of r.status else trim r.body
  detail (send_upload_request u) r = r.body
  detail (download_file path filename) r = r.body
  detail c r = if is_nil r.body then r.status_text else r.body

-- Whether a call of a terminal shows its refusal instead of throwing it.
abbrev pub is_shown : Call → Bool
is_shown (send_upload_request u) = true
is_shown (download_file path filename) = true
is_shown _ = false

module _ {Json : Type 0} (string_of : ℕ → Text) (parse : Text → Option Json)
    (member_of : Text → Json → Json) (message_of : Json → Option Text) where
  -- how a call ends that is refused with a text
  abbrev pub refused : Call → Text → Outcome Json
  refused c text = if is_shown c then shown text else rejected text

  outcome-failure :
      (c : Call) (r : Response)
      → is_auth c ≡ false
      → is_ok r ≡ false
      → outcome string_of parse member_of message_of c r
        ≡ failure string_of parse member_of message_of c r
  unfolding outcome
  outcome-failure auth_status r h k = cc
  outcome-failure _ r h k = ground (arith, h, k)

  failure-refused :
      (c : Call) (r : Response)
      → r.status ≡ 401
      → failure string_of parse member_of message_of c r
        ≡ refused c (refusal c ++ (codes ": " ++ detail string_of c r))
  unfolding failure throw_api_error create_upload_request_error
  failure-refused (upload_workspace_file u) r h = refl
  failure-refused (send_upload_request u) r h = ground (arith, h)
  failure-refused (download_file path filename) r h = refl
  failure-refused c r h = refl

  -- A response with status 401 leaves the user alone if the call is one of those of the session itself.
  -- After any other call, wherever the user is, the page of the login is rendered next, with the user
  -- logged out; and the call ends with the detail that the response gives, which the upload and the
  -- download of a terminal show as a text of theirs, and every other call throws as an error.
  pub call-IsOut :
      (parse_path : Text → Location) (c : Call) (r : Response) (s : Auth)
      → r.status ≡ 401
      → let events = events_of c r.status in
        ((is_auth c ≡ true) × (run parse_path events s ≡ s))
        ⊎ ((is_auth c ≡ false)
            × IsOut (rendered parse_path (run parse_path events s))
            × (outcome string_of parse member_of message_of c r
                ≡ refused c (refusal c ++ (codes ": " ++ detail string_of c r))))
  call-IsOut parse_path c r s h = elim (Bool-cases (is_auth c)) [
    | inl yes_auth ↦
        inl (yes_auth, rw (events-api_fetch c r.status, h, yes_auth) (unfold api_fetch run in refl))
    | inr other ↦ inr (
      other,
      rw (events-api_fetch c r.status, h, other) (unauthorized-at_login parse_path s),
      outcome-failure c r other (ground (arith, h)) ∙ failure-refused c r h,
    )
  ]
