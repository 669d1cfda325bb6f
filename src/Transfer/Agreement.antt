-- ===== src/Transfer/Agreement.antt =====
-- The two ways of uploading a file, the queue of FilesPage.tsx and the panel of useFileTransfer.ts,
-- beside each other.
use terminal_hub.Common.{
  ◌∙◌, subst, ℕ, ◌≡◌, refl, Bool, true, false, ◌&&◌, Option, none, some, List, [], ◌∷◌, Text, codes,
  length, trim, ◌++◌, ◌==◌, if◌then◌else◌, arith, Bool-cases, Sum-cases, ◌⊎◌, inl, inr,
}
use terminal_hub.Uploads.State.{Status, completed, failed, skipped, Flight, Queue, queued}
use terminal_hub.Uploads.Steps.{Outcome, rejected, pull, Event, answered, handle, run}
use terminal_hub.Files.Upload.{
  Parsed, plain_error, create_upload_request_error, parse_upload_response, outcome_of, load_result,
}
use terminal_hub.Transfer.Request.{
  Reply, unreachable, response, UploadResult, success, canceled, error, thrown, Exchange, round,
  upload_rounds, final_result, run_upload_request,
}
use terminal_hub.Transfer.Listed.{is_listed, status_of, listed-status, answered-listed}
use terminal_hub.Transfer.Ended.{
  HasStatus, verdict, is_refusal, once-HasStatus, skip-HasStatus, retry-HasStatus,
}

-- What the server's part is in one request: nothing, or a status and a text.
pub data Served : Type 0 where
  cut_off : Served
  served : ℕ → Text → Served

module _ (parse_json : Text → Text ⊎ Parsed) where
  abbrev size_of : Text ⊎ Parsed → Option (Option ℕ)
  size_of (inl message) = none
  size_of (inr parsed) = some parsed.size

  -- what `fetch` and `json()` of the panel make of it
  unfoldable pub to_reply : Served → Reply
  to_reply cut_off = unreachable
  to_reply (served status text) = response status text (size_of (parse_json text))

module _ (string_of : ℕ → Text) (parse_json : Text → Text ⊎ Parsed) (file_size : ℕ) where
  -- what the request of the queue makes of it
  unfoldable pub to_outcome : Served → Outcome
  unfolding outcome_of load_result
  to_outcome cut_off = outcome_of (inl (plain_error (codes "Upload failed: network error")))
  to_outcome (served status text) =
      outcome_of (load_result string_of parse_json file_size status text)

-- the status that shows a result of the panel
abbrev pub status_of_result : Option UploadResult → Status
status_of_result none = queued
status_of_result (some (success _)) = completed
status_of_result (some canceled) = skipped
status_of_result (some (error _)) = failed
status_of_result (some thrown) = failed

abbrev is_refused : Served → Bool
is_refused cut_off = false
is_refused (served status text) = status == 409

-- the answer to the first request, and to any later one
abbrev pick : ℕ → Served → Served → Served
pick n first second = if n == 0 then first else second

module _ (string_of : ℕ → Text) (parse_json : Text → Text ⊎ Parsed) (file_size : ℕ) where
  -- the end of an upload in the panel
  abbrev pub panel_status : Served → Served → Bool → Status
  panel_status first second confirmed =
      status_of_result
        (run_upload_request (λ n. to_reply parse_json (pick n first second)) confirmed).result

  -- the same answers in the queue
  abbrev pub queue_events : ℕ → Served → Served → Bool → List Event
  queue_events id first second confirmed =
      answered id (to_outcome string_of parse_json file_size first) confirmed
      ∷ (if is_refused first && confirmed
          then answered id (to_outcome string_of parse_json file_size second) confirmed ∷ []
          else [])

  second_status :
      (confirmed : Bool) (a : Served) (e : Exchange)
      → verdict (to_outcome string_of parse_json file_size a)
        ≡ status_of_result (round confirmed true (to_reply parse_json a) e).result
  unfolding to_outcome to_reply round final_result outcome_of load_result
      create_upload_request_error parse_upload_response
  second_status confirmed cut_off e = refl
  second_status confirmed (served status text) e = elim (Sum-cases (parse_json text)) [
    | inl (m, u) ↦ ground (arith, u)
    | inr (p, u) ↦ ground (arith, u)
  ]

  first_status :
      (confirmed : Bool) (a : Served) (e : Exchange)
      → is_refused a ≡ false
      → (verdict (to_outcome string_of parse_json file_size a)
          ≡ status_of_result (round confirmed false (to_reply parse_json a) e).result)
        × (is_refusal (to_outcome string_of parse_json file_size a) ≡ false)
  unfolding to_outcome to_reply round final_result outcome_of load_result
      create_upload_request_error parse_upload_response
  first_status confirmed cut_off e h = (refl, refl)
  first_status confirmed (served status text) e h = elim (Sum-cases (parse_json text)) [
    | inl (m, u) ↦ ground (arith, u, h)
    | inr (p, u) ↦ ground (arith, u, h)
  ]

  refused_outcome :
      (status : ℕ) (text : Text)
      → (status == 409) ≡ true
      → (t : Text) × (to_outcome string_of parse_json file_size (served status text)
          ≡ rejected status t)
  unfolding to_outcome outcome_of load_result create_upload_request_error
  refused_outcome status text h =
      let detail =
        if length (trim text) == 0 then codes "HTTP " ++ string_of status else trim text in
      (codes "Upload failed: " ++ detail, ground (arith, h))

  refused_agree :
      (status : ℕ) (text : Text) (second : Served) (confirmed : Bool) (id : ℕ) (f : Flight)
      (rest : List Flight) (s : Queue)
      → pull id s.in_flight ≡ some (f, rest)
      → f.retrying ≡ false
      → (status == 409) ≡ true
      → HasStatus id
          (panel_status (served status text) second confirmed)
          (run (queue_events id (served status text) second confirmed) s).upload_items
  unfolding run handle run_upload_request upload_rounds to_reply round
  refused_agree status text second true id f rest s h k r =
      let refusal = refused_outcome status text r in
      let o = to_outcome string_of parse_json file_size second in
      let nothing : Exchange = record { result = none; sent = [] } in
      let events = answered id (rejected status refusal.0) true ∷ answered id o true ∷ [] in
      rw (refusal.1, r)
        (subst (λ v. HasStatus id v (run events s).upload_items) (second_status true second nothing)
          (retry-HasStatus id status refusal.0 o f rest s h k r))
  refused_agree status text second false id f rest s h k r =
      let refusal = refused_outcome status text r in
      rw (refusal.1, r) (skip-HasStatus id status refusal.0 f rest s h k r)

  same-status :
      (first second : Served) (confirmed : Bool) (id : ℕ) (f : Flight) (rest : List Flight)
      (s : Queue)
      → pull id s.in_flight ≡ some (f, rest)
      → f.retrying ≡ false
      → HasStatus id
          (panel_status first second confirmed)
          (run (queue_events id first second confirmed) s).upload_items
  unfolding run_upload_request upload_rounds to_outcome to_reply round outcome_of
  same-status cut_off second confirmed id f rest s h k =
      let o = to_outcome string_of parse_json file_size cut_off in
      once-HasStatus id o confirmed f rest s h k refl
  same-status (served status text) second confirmed id f rest s h k =
      elim (Bool-cases (status == 409)) [
        | inl r ↦ refused_agree status text second confirmed id f rest s h k r
        | inr r ↦
            let a = served status text in
            let o = to_outcome string_of parse_json file_size a in
            let w = first_status confirmed a (record { result = none; sent = [] }) r in
            ground (arith, r, w.0, once-HasStatus id o confirmed f rest s h k w.1)
      ]

  kept :
      (first second : Served) (confirmed : Bool) (id : ℕ) (s : Queue)
      → is_listed id (run (queue_events id first second confirmed) s).upload_items
        ≡ is_listed id s.upload_items
  unfolding run
  kept first second confirmed id s =
      let o = to_outcome string_of parse_json file_size first in
      let p = to_outcome string_of parse_json file_size second in
      elim (Bool-cases (is_refused first && confirmed)) [
        | inl u ↦ rw u (
            answered-listed id id p confirmed (handle (answered id o confirmed) s)
            ∙ answered-listed id id o confirmed s)
        | inr u ↦ rw u (answered-listed id id o confirmed s)
      ]

  -- A file that is uploaded through the queue of the files page, where it is listed, and through the
  -- panel of a terminal ends in the same way, where the server answers the same to the first request,
  -- and to the second one if there is one, and the user agrees to overwrite or not: completed, skipped
  -- or failed. The item of the queue is still listed then, and has that status, as has any other item
  -- with its identifier.
  pub uploads-agree :
      (first second : Served) (confirmed : Bool) (id : ℕ) (f : Flight) (rest : List Flight)
      (s : Queue)
      → pull id s.in_flight ≡ some (f, rest)
      → f.retrying ≡ false
      → is_listed id s.upload_items ≡ true
      → let items = (run (queue_events id first second confirmed) s).upload_items in
        (status_of id items ≡ some (panel_status first second confirmed))
        × HasStatus id (panel_status first second confirmed) items
  uploads-agree first second confirmed id f rest s h k l =
      let ended = same-status first second confirmed id f rest s h k in
      let items = (run (queue_events id first second confirmed) s).upload_items in
      (
        listed-status id (panel_status first second confirmed) items
            (kept first second confirmed id s ∙ l) ended,
        ended,
      )
