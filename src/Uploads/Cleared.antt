-- ===== src/Uploads/Cleared.antt =====
-- The button "Clear" of FilesPage.tsx, pressed while uploads run.
use terminal_hub.Common.{
  ℕ, ◌≡◌, refl, ◌-◌, inl, inr, Bool-cases, Text, Bool, true, List, [], ◌∷◌, ◌==◌, length, select,
  arith, All, if_elim, maybe_elim, ltb,
}
use terminal_hub.Uploads.State.{Item, Flight, Queue, Task, Effect}
use terminal_hub.Uploads.Steps.{
  update_upload_item, update_items, finalize_uploads_if_idle, start_uploads, start_task,
  pump_upload_queue, settle, Outcome, uploaded, rejected, broken, first_answer, second_answer, pull,
  Event, enqueued, progressed, answered, cleared, clear, handle, run, http_status_conflict,
}

-- no item is left, and nothing was called beside what the log holds
abbrev IsSilent : List Effect → Queue → Type 0
IsSilent log s = (s.upload_items ≡ []) × (s.log ≡ log)

finalize-IsSilent :
    (log : List Effect) (path : Text) (s : Queue)
    → IsSilent log s
    → IsSilent log (finalize_uploads_if_idle path s)
unfolding finalize_uploads_if_idle select
finalize-IsSilent log path s (h, k) = ground (arith, h, k)

start-IsSilent :
    (log : List Effect) (path : Text) (tasks : List Task) (s : Queue)
    → IsSilent log s
    → IsSilent log (start_uploads path tasks s)
unfolding start_uploads
start-IsSilent log path [] s v = v
start-IsSilent log path (task ∷ tasks) s v =
    if_elim (IsSilent log) (ltb s.active_upload_count 3)
      (λ _. start-IsSilent log path tasks (start_task path task s) v) (λ _. v)

settle-IsSilent :
    (log : List Effect) (path : Text) (rest : List Flight) (s : Queue)
    → IsSilent log s
    → IsSilent log (settle path rest s)
unfolding settle pump_upload_queue
settle-IsSilent log path rest s v =
    let t : Queue = record s {
      in_flight = rest;
      active_upload_count = s.active_upload_count - 1;
    } in
    finalize-IsSilent log path (start_uploads path s.pending_uploads t)
      (start-IsSilent log path s.pending_uploads t v)

update-IsSilent :
    (log : List Effect) (id : ℕ) (f : Item → Item) (s : Queue)
    → IsSilent log s
    → IsSilent log (update_upload_item id f s)
unfolding update_upload_item update_items
update-IsSilent log id f s (h, k) = (rw h refl, k)

ends-IsSilent :
    (log : List Effect) (f : Flight) (rest : List Flight) (change : Item → Item) (s : Queue)
    → IsSilent log s
    → IsSilent log (settle f.origin rest (update_upload_item f.task.id change s))
ends-IsSilent log f rest change s v =
    settle-IsSilent log f.origin rest (update_upload_item f.task.id change s)
      (update-IsSilent log f.task.id change s v)

second_answer-IsSilent :
    (log : List Effect) (outcome : Outcome) (f : Flight) (rest : List Flight) (s : Queue)
    → IsSilent log s
    → IsSilent log (second_answer outcome f rest s)
unfolding second_answer
second_answer-IsSilent log (uploaded b) f rest s v = ends-IsSilent log f rest _ s v
second_answer-IsSilent log (rejected status text) f rest s v = ends-IsSilent log f rest _ s v
second_answer-IsSilent log (broken text) f rest s v = ends-IsSilent log f rest _ s v

first_answer-IsSilent :
    (log : List Effect) (outcome : Outcome) (b : Bool) (f : Flight) (rest : List Flight) (s : Queue)
    → IsSilent log s
    → IsSilent log (first_answer outcome b f rest s)
unfolding first_answer
first_answer-IsSilent log (uploaded overwritten) b f rest s v = ends-IsSilent log f rest _ s v
first_answer-IsSilent log (rejected status text) b f rest s v =
    if_elim (IsSilent log) (status == http_status_conflict)
      (λ _. if_elim (IsSilent log) b (λ _. v) (λ _. ends-IsSilent log f rest _ s v))
      (λ _. ends-IsSilent log f rest _ s v)
first_answer-IsSilent log (broken text) b f rest s v = ends-IsSilent log f rest _ s v

-- an event that drops no file
abbrev pub IsLater : Event → Type 0
IsLater (enqueued path files) = ⊥
IsLater (progressed id loaded total) = Unit
IsLater (answered id outcome confirmed) = Unit
IsLater cleared = Unit

handle-IsSilent :
    (log : List Effect) (e : Event) (s : Queue)
    → IsLater e
    → IsSilent log s
    → IsSilent log (handle e s)
unfolding handle clear
handle-IsSilent log (enqueued path files) s h v = elim h [ ]
handle-IsSilent log (progressed id loaded total) s h v =
    maybe_elim (IsSilent log) (pull id s.in_flight) (λ _. v) (λ p _. update-IsSilent log id _ s v)
handle-IsSilent log (answered id outcome b) s h v =
    maybe_elim (IsSilent log) (pull id s.in_flight) (λ _. v)
      (λ p _.
        if_elim (IsSilent log) p.0.retrying (λ _. second_answer-IsSilent log outcome p.0 p.1 s v)
          (λ _. first_answer-IsSilent log outcome b p.0 p.1 s v))
handle-IsSilent log cleared s h (k, l) = ground (arith, k, l)

run-IsSilent :
    (log : List Effect) (es : List Event) (s : Queue)
    → All IsLater es
    → IsSilent log s
    → IsSilent log (run es s)
unfolding run
run-IsSilent log [] s h v = v
run-IsSilent log (e ∷ es) s (h, hs) v =
    run-IsSilent log es (handle e s) hs (handle-IsSilent log e s h v)

clear-IsSilent : (s : Queue) → IsSilent s.log (clear s)
unfolding clear
clear-IsSilent s = elim (Bool-cases (length s.upload_items == 0)) [
  | inl none_left ↦ rw none_left (nil_of s.upload_items none_left, refl)
  | inr some_left ↦ rw some_left (refl, refl)
]
  where
    nil_of : (xs : List Item) → (length xs == 0) ≡ true → xs ≡ []
    nil_of [] e = refl
    nil_of (x ∷ xs) e = ground (arith, e)

-- Uploads that wait or run when the list of uploads is cleared end unseen, if no file is dropped
-- behind it: whatever their requests do, no sum is shown, the directory is not read again, and the
-- list stays empty.
pub run-clear_silent :
    (es : List Event) (s : Queue)
    → All IsLater es
    → ((run es (clear s)).log ≡ s.log) × ((run es (clear s)).upload_items ≡ [])
run-clear_silent es s h =
    let (empty, silent) = run-IsSilent s.log es (clear s) h (clear-IsSilent s) in (silent, empty)
