-- ===== src/Workspace/Refreshed.antt =====
-- What the end of the uploads of FilesPage.tsx does to its directory.
use terminal_hub.Common.{
  ℕ, ◌-◌, ◌≡◌, refl, subst, Bool, true, false, some, List, [], ◌∷◌, Text, ltb, ◌==◌, arith, length,
  select, if_elim, Bool-cases, inl, inr,
}
use terminal_hub.Uploads.State.{Item, Task, Flight, Queue, Effect, summary, refresh}
use terminal_hub.Uploads.Steps.{
  update_items, update_upload_item, finalize_uploads_if_idle, start_task, start_uploads,
  pump_upload_queue, settle, with_success, with_status, Outcome, uploaded, rejected, broken,
  success_text, first_answer, second_answer, pull, answered, is_idle, unsummarized,
  max_parallel_uploads, http_status_conflict,
}
use terminal_hub.Uploads.Steps
use terminal_hub.Browse.Page.{Page, refresh_current_directory}
use terminal_hub.Workspace.{Workspace, refresh_all, with_queue, uploads, handle}

-- what is not summed up yet, among some items
abbrev left : Queue → ℕ
left s = length (unsummarized s)

-- If nothing waits or runs at the end, then all is summed up, and the directory at a path is read.
abbrev Ends : Text → List Effect → Queue → Type 0
Ends path log t =
    is_idle t ≡ true → (a : ℕ) × (b : ℕ) × (c : ℕ) × (t.log ≡ refresh path ∷ summary a b c ∷ log)

finalize-Ends :
    (path : Text) (s : Queue)
    → (left s == 0) ≡ false
    → Ends path s.log (finalize_uploads_if_idle path s)
unfolding finalize_uploads_if_idle
finalize-Ends path s h = elim (Bool-cases (is_idle s)) [
  | inl u ↦ rw u (rw h (λ _. (_, _, _, refl)))
  | inr u ↦ rw u (λ k. ground (arith, u, k))
]

-- what starting uploads leaves as it is
abbrev IsSame : Queue → Queue → Type 0
IsSame s t =
    (t.upload_items ≡ s.upload_items)
    × (t.last_completed_batch_id ≡ s.last_completed_batch_id)
    × (t.log ≡ s.log)

start-IsSame : (path : Text) (tasks : List Task) (s : Queue) → IsSame s (start_uploads path tasks s)
unfolding start_uploads
start-IsSame path [] s = (refl, refl, refl)
start-IsSame path (task ∷ tasks) s =
    if_elim (IsSame s) (ltb s.active_upload_count max_parallel_uploads)
      (λ _. start-IsSame path tasks (start_task path task s)) (λ _. (refl, refl, refl))

left-IsSame : (s t : Queue) → IsSame s t → left t ≡ left s
left-IsSame s t (h, k, l) = rw (h, k) refl

settle-Ends :
    (path : Text) (rest : List Flight) (s : Queue)
    → (left s == 0) ≡ false
    → Ends path s.log (settle path rest s)
unfolding settle pump_upload_queue
settle-Ends path rest s h =
    let begun : Queue = record s {
      in_flight = rest;
      active_upload_count = s.active_upload_count - 1;
    } in
    let t = start_uploads path s.pending_uploads begun in
    let same = start-IsSame path s.pending_uploads begun in
    subst (λ log. Ends path log (finalize_uploads_if_idle path t)) same.2
      (finalize-Ends path t (ground (arith, h, left-IsSame begun t same)))

left-update :
    (m id : ℕ) (f : Item → Item) (xs : List Item)
    → ((x : Item) → (f x).batch_id ≡ x.batch_id)
    → length (select (λ x. ltb m x.batch_id) (update_items id f xs))
      ≡ length (select (λ x. ltb m x.batch_id) xs)
unfolding update_items select
left-update m id f [] h = refl
left-update m id f (x ∷ xs) h = ground (arith, h x, left-update m id f xs h)

-- a request that ends for good
ended-Ends :
    (f : Flight) (rest : List Flight) (change : Item → Item) (s : Queue)
    → ((x : Item) → (change x).batch_id ≡ x.batch_id)
    → (left s == 0) ≡ false
    → Ends f.origin s.log (settle f.origin rest (update_upload_item f.task.id change s))
unfolding update_upload_item
ended-Ends f rest change s kept h =
    settle-Ends f.origin rest (update_upload_item f.task.id change s) (
      ground (arith, h, left-update s.last_completed_batch_id f.task.id change s.upload_items kept))

second_answer-Ends :
    (outcome : Outcome) (f : Flight) (rest : List Flight) (s : Queue)
    → (left s == 0) ≡ false
    → Ends f.origin s.log (second_answer outcome f rest s)
unfolding second_answer
second_answer-Ends (uploaded b) f rest s h = ended-Ends f rest _ s (λ x. refl) h
second_answer-Ends (rejected status text) f rest s h = ended-Ends f rest _ s (λ x. refl) h
second_answer-Ends (broken text) f rest s h = ended-Ends f rest _ s (λ x. refl) h

first_answer-Ends :
    (outcome : Outcome) (b : Bool) (f : Flight) (rest : List Flight) (s : Queue)
    → is_idle s ≡ false
    → (left s == 0) ≡ false
    → Ends f.origin s.log (first_answer outcome b f rest s)
unfolding first_answer
first_answer-Ends (uploaded overwritten) b f rest s busy h = ended-Ends f rest _ s (λ x. refl) h
first_answer-Ends (rejected status text) b f rest s busy h =
    if_elim (Ends f.origin s.log) (status == http_status_conflict)
      (λ _.
        if_elim (Ends f.origin s.log) b (λ _ idle. ground (arith, busy, idle))
          (λ _. ended-Ends f rest _ s (λ x. refl) h))
      (λ _. ended-Ends f rest _ s (λ x. refl) h)
first_answer-Ends (broken text) b f rest s busy h = ended-Ends f rest _ s (λ x. refl) h

answer-Ends :
    (outcome : Outcome) (b : Bool) (f : Flight) (rest : List Flight) (s : Queue)
    → is_idle s ≡ false
    → (left s == 0) ≡ false
    → Ends f.origin s.log (Steps.answer outcome b (f, rest) s)
answer-Ends outcome b f rest s busy h =
    if_elim (Ends f.origin s.log) f.retrying (λ _. second_answer-Ends outcome f rest s h)
      (λ _. first_answer-Ends outcome b f rest s busy h)

refresh_all-Ends :
    (path : Text) (t : Queue) (p : Page)
    → Ends path [] t
    → is_idle t ≡ true
    → refresh_all t.log p ≡ refresh_current_directory path p
unfolding refresh_all
refresh_all-Ends path t p h idle = let (a, b, c, e) = h idle in rw e refl

-- The request whose end leaves no upload that waits or runs makes the page read a directory, where
-- an item is still listed that was not summed up: that of the render in which the request was begun,
-- whichever one the page shows by then.
pub last_answer :
    (id : ℕ) (outcome : Outcome) (confirmed : Bool) (f : Flight) (rest : List Flight)
    (s : Workspace)
    → pull id s.queue.in_flight ≡ some (f, rest)
    → is_idle s.queue ≡ false
    → (length (unsummarized s.queue) == 0) ≡ false
    → let t = handle (uploads (answered id outcome confirmed)) s in
      is_idle t.queue ≡ true → t.page ≡ refresh_current_directory f.origin s.page
unfolding handle with_queue Steps.handle
last_answer id outcome confirmed f rest s found busy h idle =
    let q : Queue = record s.queue { log = [] } in
    let answered_q : Steps.answer outcome confirmed (f, rest) q
        ≡ Steps.handle (answered id outcome confirmed) q =
      rw found refl in
    let ends =
      subst (Ends f.origin []) answered_q (answer-Ends outcome confirmed f rest q busy h) in
    refresh_all-Ends f.origin (Steps.handle (answered id outcome confirmed) q) s.page ends idle
