-- ===== src/Cron/Labels.antt =====
-- The status of a job in its row in CronTable.tsx.
use terminal_hub.Common.{
  ℕ, ◌≡◌, ◌<◌, ◌↔◌, ap, sym, ◌∙◌, not, Text, codes, if◌then◌else◌, ◌==◌, text_eq, text_eq_iff,
  arith,
}
use terminal_hub.Cron.Api.{CronJob}
use terminal_hub.Cron.Jobs.{
  get_status_rank, zero_sign, status, asc, desc, CronSortDirection, compare_jobs, sign_of, Sign,
}

unfoldable pub get_status_label : CronJob → Text
unfolding text_eq
get_status_label job =
    if not job.enabled
    then codes "Disabled"
    else if text_eq job.metadata.last_run_status (codes "running")
    then codes "Running"
    else if text_eq job.metadata.last_run_status (codes "failed")
    then codes "Failing"
    else if text_eq job.metadata.last_run_status (codes "success")
    then codes "Healthy"
    else codes "Scheduled"

unfoldable pub status_class_name : Text → Text
unfolding text_eq
status_class_name label =
    if text_eq label (codes "Healthy")
    then codes "bg-emerald-900/40 text-emerald-300 border border-emerald-800/50"
    else if text_eq label (codes "Failing")
    then codes "bg-red-900/30 text-red-300 border border-red-800/50"
    else if text_eq label (codes "Running")
    then codes "bg-sky-900/30 text-sky-300 border border-sky-800/50"
    else if text_eq label (codes "Disabled")
    then codes "bg-zinc-800 text-zinc-300 border border-zinc-700"
    else codes "bg-zinc-900/70 text-zinc-300 border border-zinc-700/80"

-- the label that a place in the order by status stands for
abbrev pub label_at : ℕ → Text
label_at n =
    if n == 0
    then codes "Failing"
    else if n == 1
    then codes "Running"
    else if n == 2
    then codes "Healthy"
    else if n == 3
    then codes "Scheduled"
    else codes "Disabled"

pub label-rank : (job : CronJob) → get_status_label job ≡ label_at (get_status_rank job)
unfolding get_status_label get_status_rank
label-rank job = ground (
  arith,
  text_eq_iff job.metadata.last_run_status (codes "failed"),
  text_eq_iff job.metadata.last_run_status (codes "running"),
)

pub rank_bound : (job : CronJob) → get_status_rank job < 5
unfolding get_status_rank
rank_bound job = ground arith

label_at_inj : (m n : ℕ) → m < 5 → n < 5 → label_at m ≡ label_at n → m ≡ n
label_at_inj m n h k e = ground (arith, h, k, e)

class_at_inj :
    (m n : ℕ)
    → m < 5
    → n < 5
    → status_class_name (label_at m) ≡ status_class_name (label_at n)
    → m ≡ n
unfolding status_class_name
class_at_inj m n h k e = ground (arith, h, k, e)

same_rank-label :
    (a b : CronJob)
    → get_status_rank a ≡ get_status_rank b
    → get_status_label a ≡ get_status_label b
same_rank-label a b h = label-rank a ∙ ap label_at h ∙ sym (label-rank b)

label_inj :
    (a b : CronJob)
    → get_status_label a ≡ get_status_label b
    → get_status_rank a ≡ get_status_rank b
label_inj a b h =
    label_at_inj (get_status_rank a) (get_status_rank b) (rank_bound a) (rank_bound b)
      (sym (label-rank a) ∙ h ∙ label-rank b)

class_inj :
    (a b : CronJob)
    → status_class_name (get_status_label a) ≡ status_class_name (get_status_label b)
    → get_status_rank a ≡ get_status_rank b
class_inj a b h =
    class_at_inj (get_status_rank a) (get_status_rank b) (rank_bound a) (rank_bound b)
      (ap status_class_name (sym (label-rank a)) ∙ h ∙ ap status_class_name (label-rank b))

sign_zero : (m n : ℕ) → (sign_of m n ≡ zero_sign) ↔ (m ≡ n)
sign_zero m n = (λ h. ground (arith, h), λ h. ground (arith, h))

module _ (locale_compare : Text → Text → Sign) (to_lower : Text → Text) where
  level-rank :
      (direction : CronSortDirection) (a b : CronJob)
      → (compare_jobs locale_compare to_lower status direction a b ≡ zero_sign)
        ↔ (get_status_rank a ≡ get_status_rank b)
  unfolding compare_jobs
  level-rank asc a b = sign_zero (get_status_rank a) (get_status_rank b)
  level-rank desc a b = (λ h. ground (arith, h), λ h. ground (arith, h))

  -- Two jobs stand level in the order by status, whichever way it goes, exactly if their rows show the
  -- same label, and exactly if the labels are shown in the same colours.
  level-label :
      (direction : CronSortDirection) (a b : CronJob)
      → let label = get_status_label in
        let order = compare_jobs locale_compare to_lower status direction a b in
        ((order ≡ zero_sign) ↔ (label a ≡ label b))
        × ((order ≡ zero_sign) ↔ (status_class_name (label a) ≡ status_class_name (label b)))
  level-label direction a b =
      let (same, level) = level-rank direction a b in
      (
        (λ h. same_rank-label a b (same h), λ h. level (label_inj a b h)),
        (λ h. ap status_class_name (same_rank-label a b (same h)), λ h. level (class_inj a b h)),
      )
