-- ===== src/Uploads/Progress.antt =====
-- The order of the uploads of FilesPage.tsx, and the requests that are left.
use terminal_hub.Common.{
  ℕ, zero, suc, ◌+◌, ◌-◌, ◌*◌, ◌<◌, ◌≡◌, refl, sym, ◌∙◌, Bool, true, false, not, ◌||◌, Option, none,
  some, List, [], ◌∷◌, ◌++◌, map, Text, codes, ltb, ◌==◌, if◌then◌else◌, maybe, take, drop, length,
  arith, if_elim, append_assoc, append-nil,
}
use terminal_hub.Uploads.State.{Task, Item, Flight, Queue, skipped, failed}
use terminal_hub.Uploads.Steps.{
  max_parallel_uploads, update_upload_item, finalize_uploads_if_idle, start_task, start_uploads,
  pump_upload_queue, settle, with_success, with_status, Outcome, uploaded, rejected, broken,
  success_text, first_answer, second_answer, pull, answered, answer, handle, is_idle, unsummarized,
}

abbrev flight : Text → Task → Flight
flight path task = record { task = task; retrying = false; origin = path }

abbrev Started : Text → List Task → ℕ → Queue → Queue → Type 0
Started path tasks room s t =
    (t.pending_uploads ≡ drop room tasks)
    × (t.in_flight ≡ s.in_flight ++ map (flight path) (take room tasks))

start_uploads_room :
    (path : Text) (tasks : List Task) (room : ℕ) (s : Queue)
    → room ≡ max_parallel_uploads - s.active_upload_count
    → Started path tasks room s (start_uploads path tasks s)
unfolding start_uploads
start_uploads_room path [] zero s e = (refl, sym (append-nil s.in_flight))
start_uploads_room path [] (suc r) s e = (refl, sym (append-nil s.in_flight))
start_uploads_room path (task ∷ tasks) zero s e =
    if_elim (Started path (task ∷ tasks) 0 s) (ltb s.active_upload_count max_parallel_uploads)
      (λ room. absurd (ground arith)) (λ _. (refl, sym (append-nil s.in_flight)))
start_uploads_room path (task ∷ tasks) (suc r) s e =
    let (waiting, flying) =
      start_uploads_room path tasks r (start_task path task s) (omega arith) in
    if_elim (Started path (task ∷ tasks) (suc r) s) (ltb s.active_upload_count max_parallel_uploads)
      (λ _. (
        waiting,
        flying
            ∙ append_assoc s.in_flight (flight path task ∷ []) (map (flight path) (take r tasks)),
      ))
      (λ full. absurd (ground arith))

-- The pump starts the first waiting uploads, in their order and behind those in flight: as many as
-- there is room for. The others go on waiting.
start_uploads_order :
    (path : Text) (tasks : List Task) (s : Queue)
    → let t = start_uploads path tasks s in
      let room = max_parallel_uploads - s.active_upload_count in
      (t.pending_uploads ≡ drop room tasks)
      × (t.in_flight ≡ s.in_flight ++ map (flight path) (take room tasks))
start_uploads_order path tasks s = start_uploads_room path tasks _ s refl

-- The requests that the uploads waiting and in flight can still make: two each, or one behind the
-- first.
flights_left : List Flight → ℕ
flights_left [] = 0
flights_left (f ∷ fs) = (if f.retrying then 1 else 2) + flights_left fs

pub requests_left : Queue → ℕ
requests_left s = 2 * length s.pending_uploads + flights_left s.in_flight

flights_left-append :
    (fs gs : List Flight) → flights_left (fs ++ gs) ≡ flights_left fs + flights_left gs
unfolding flights_left
flights_left-append [] gs = omega arith
flights_left-append (f ∷ fs) gs = omega (arith, flights_left-append fs gs)

start_uploads_left :
    (path : Text) (tasks : List Task) (s : Queue)
    → requests_left (start_uploads path tasks s) ≡ 2 * length tasks + flights_left s.in_flight
unfolding start_uploads requests_left flights_left
start_uploads_left path [] s = refl
start_uploads_left path (task ∷ tasks) s = ground (
  arith,
  start_uploads_left path tasks (start_task path task s),
  flights_left-append s.in_flight (flight path task ∷ []),
)

finalize_left :
    (path : Text) (s : Queue) → requests_left (finalize_uploads_if_idle path s) ≡ requests_left s
unfolding finalize_uploads_if_idle requests_left
finalize_left path s =
    if_elim (λ t. requests_left t ≡ requests_left s)
      (not (is_idle s) || length (unsummarized s) == 0) (λ _. refl) (λ _. refl)

settle_left :
    (path : Text) (rest : List Flight) (s : Queue)
    → requests_left (settle path rest s) ≡ 2 * length s.pending_uploads + flights_left rest
unfolding settle pump_upload_queue
settle_left path rest s =
    let t = record s { in_flight = rest; active_upload_count = s.active_upload_count - 1 } in
    finalize_left path (start_uploads path s.pending_uploads t)
    ∙ start_uploads_left path s.pending_uploads t

settle_updated_left :
    (path : Text) (rest : List Flight) (id : ℕ) (f : Item → Item) (s : Queue)
    → requests_left (settle path rest (update_upload_item id f s))
      ≡ 2 * length s.pending_uploads + flights_left rest
unfolding update_upload_item
settle_updated_left path rest id f s = settle_left path rest (update_upload_item id f s)

pull_step :
    (b : Bool) (f : Flight) (fs : List Flight) (o : Option (Flight × List Flight))
    (p : Flight × List Flight)
    → ((q : Flight × List Flight) → o ≡ some q → flights_left fs ≡ flights_left (q.0 ∷ q.1))
    → (if b then some (f, fs) else maybe o none (λ q. some (q.0, f ∷ q.1))) ≡ some p
    → flights_left (f ∷ fs) ≡ flights_left (p.0 ∷ p.1)
unfolding flights_left
pull_step true f fs o p ih e = ground arith
pull_step false f fs none p ih e = cc
pull_step false f fs (some q) p ih e = ground (arith, ih q refl)

flights_left-pull :
    (id : ℕ) (fs : List Flight) (p : Flight × List Flight)
    → pull id fs ≡ some p
    → flights_left fs ≡ flights_left (p.0 ∷ p.1)
unfolding pull
flights_left-pull id [] p e = cc
flights_left-pull id (f ∷ fs) p e =
    pull_step (f.task.id == id) f fs (pull id fs) p (flights_left-pull id fs) e

first_answer_left :
    (outcome : Outcome) (b : Bool) (f : Flight) (rest : List Flight) (s : Queue)
    → f.retrying ≡ false
    → requests_left (first_answer outcome b f rest s)
      < 2 * length s.pending_uploads + flights_left (f ∷ rest)
unfolding first_answer flights_left requests_left
first_answer_left (uploaded overwritten) b f rest s e =
    ground (
      arith,
      settle_updated_left f.origin rest f.task.id (with_success (success_text overwritten)) s,
    )
first_answer_left (rejected status text) b f rest s e = ground (
  arith,
  settle_updated_left f.origin rest f.task.id (with_status failed text) s,
  settle_updated_left f.origin rest f.task.id
      (with_status skipped (codes "Skipped (already exists)")) s,
)
first_answer_left (broken text) b f rest s e =
    ground (arith, settle_updated_left f.origin rest f.task.id (with_status failed text) s)

second_answer_left :
    (outcome : Outcome) (f : Flight) (rest : List Flight) (s : Queue)
    → requests_left (second_answer outcome f rest s)
      < 2 * length s.pending_uploads + flights_left (f ∷ rest)
unfolding second_answer flights_left requests_left
second_answer_left (uploaded overwritten) f rest s = ground (
  arith,
  settle_updated_left f.origin rest f.task.id (with_success (codes "Uploaded (overwritten)")) s,
)
second_answer_left (rejected status text) f rest s =
    ground (arith, settle_updated_left f.origin rest f.task.id (with_status failed text) s)
second_answer_left (broken text) f rest s =
    ground (arith, settle_updated_left f.origin rest f.task.id (with_status failed text) s)

answer_left :
    (outcome : Outcome) (b : Bool) (p : Flight × List Flight) (s : Queue)
    → requests_left (answer outcome b p s) < 2 * length s.pending_uploads + flights_left (p.0 ∷ p.1)
answer_left outcome b p s =
    if_elim (λ t. requests_left t < 2 * length s.pending_uploads + flights_left (p.0 ∷ p.1))
      p.0.retrying (λ _. second_answer_left outcome p.0 p.1 s)
      (λ e. first_answer_left outcome b p.0 p.1 s e)

-- The answer to a request of an upload in flight, whatever it is, lowers the number of requests
-- that the queue can still make, so that finitely many answers end every upload.
pub answered_left :
    (id : ℕ) (outcome : Outcome) (confirmed : Bool) (s : Queue) (p : Flight × List Flight)
    → pull id s.in_flight ≡ some p
    → requests_left (handle (answered id outcome confirmed) s) < requests_left s
unfolding handle
answered_left id outcome confirmed s p e = rw e (
    unfold requests_left in
    omega (arith, flights_left-pull id s.in_flight p e, answer_left outcome confirmed p s))
