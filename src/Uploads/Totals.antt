-- ===== src/Uploads/Totals.antt =====
-- The figures that frontend/src/features/files/FilesPage.tsx shows of its uploads.
use terminal_hub.Common.{
  Bool-cases, ◌⊎◌, inl, inr, ℕ, ◌+◌, ◌≤◌, ◌≡◌, refl, min, Bool, true, false, Option, none, some,
  List, [], ◌∷◌, ltb, leb, ◌==◌, if◌then◌else◌, length, take, select, All, arith,
}
use terminal_hub.Uploads.State.{Status, queued, uploading, completed, failed, skipped, Item, Queue}
use terminal_hub.Uploads.Steps.{is_idle, unsummarized, percent_of, Event, run, initial}
use terminal_hub.Uploads.Summary.{run-IsSummed_initial}

-- the result of `aggregateProgress`
pub record Progress : Type 0 where
  pub total_bytes : ℕ
  pub sent_bytes : ℕ
  pub percent : ℕ

abbrev is_pending : Status → Bool
is_pending queued = true
is_pending uploading = true
is_pending completed = false
is_pending failed = false
is_pending skipped = false

unfoldable pub pending_upload_count : List Item → ℕ
pending_upload_count items = length (select (λ x. is_pending x.status) items)

abbrev sent_of : Status → Item → ℕ
sent_of completed x = x.total_bytes
sent_of queued x = min x.sent_bytes x.total_bytes
sent_of uploading x = min x.sent_bytes x.total_bytes
sent_of failed x = min x.sent_bytes x.total_bytes
sent_of skipped x = min x.sent_bytes x.total_bytes

-- the loop over the items, as the sums behind an item and those after it
unfoldable pub total_of : List Item → ℕ
total_of [] = 0
total_of (x ∷ xs) = x.total_bytes + total_of xs

unfoldable pub sum_sent : List Item → ℕ
sum_sent [] = 0
sum_sent (x ∷ xs) = sent_of x.status x + sum_sent xs

unfoldable pub progress_of : List Item → Progress
unfolding total_of sum_sent
progress_of items =
    let total = total_of items in
    let sent = sum_sent items in
    record {
      total_bytes = total;
      sent_bytes = sent;
      percent = if leb total 0 then 0 else min 100 (percent_of sent total);
    }

-- `aggregateProgress`: the active batch is that of the items that are not summed up
unfoldable pub aggregate_progress : Queue → Option Progress
unfolding progress_of
aggregate_progress s =
    let items = unsummarized s in if length items == 0 then none else some (progress_of items)

unfoldable pub displayed_upload_items : Queue → List Item
displayed_upload_items s = take 20 s.upload_items

sent-total_of : (items : List Item) → sum_sent items ≤ total_of items
unfolding sum_sent total_of
sent-total_of [] = omega arith
sent-total_of (x ∷ xs) = ground (arith, sent-total_of xs, sent_of-le x.status x)
  where
    sent_of-le : (status : Status) (y : Item) → sent_of status y ≤ y.total_bytes
    sent_of-le completed y = omega arith
    sent_of-le queued y = omega arith
    sent_of-le uploading y = omega arith
    sent_of-le failed y = omega arith
    sent_of-le skipped y = omega arith

up_to-select :
    (m : ℕ) (items : List Item)
    → All (λ x. x.batch_id ≤ m) items
    → length (select (λ x. ltb m x.batch_id) items) ≡ 0
unfolding select
up_to-select m [] h = refl
up_to-select m (x ∷ xs) (h, hs) = ground (arith, h, up_to-select m xs hs)

-- What a page may show of its uploads: nothing, or no more bytes sent than there are, and at most
-- 100%.
abbrev pub IsPlausible : Option Progress → Type 0
IsPlausible none = Unit
IsPlausible (some p) = (p.sent_bytes ≤ p.total_bytes) × (p.percent ≤ 100)

percent_bound :
    (total sent : ℕ) → (if leb total 0 then 0 else min 100 (percent_of sent total)) ≤ 100
percent_bound total sent = ground arith

aggregate-IsPlausible : (s : Queue) → IsPlausible (aggregate_progress s)
unfolding aggregate_progress progress_of
aggregate-IsPlausible s =
    let items = unsummarized s in
    elim (Bool-cases (length items == 0)) [
      | inl u ↦ rw u tt
      | inr u ↦ rw u (sent-total_of items, percent_bound (total_of items) (sum_sent items))
    ]

-- Whatever is dropped on the page and however the requests end, the bar of all uploads shows no more
-- bytes sent than there are and at most 100%, and it is gone whenever no upload waits or runs.
pub run-aggregate_progress :
    (es : List Event)
    → IsPlausible (aggregate_progress (run es initial))
      × ((is_idle (run es initial) ≡ false) ⊎ (aggregate_progress (run es initial) ≡ none))
unfolding aggregate_progress
run-aggregate_progress es =
    let s = run es initial in
    (
      aggregate-IsPlausible s,
      elim (Bool-cases (is_idle s)) [
        | inl u ↦
            let none_left =
              up_to-select s.last_completed_batch_id s.upload_items (run-IsSummed_initial es u) in
            inr (ground (arith, none_left))
        | inr u ↦ inl u
      ],
    )
