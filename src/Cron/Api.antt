-- ===== src/Cron/Api.antt =====
-- The data of frontend/src/features/crons/api.ts, which the form, the pages and the store share.
use terminal_hub.Common.{ℕ, Bool, Option, Text}
use terminal_hub.Cron.Env.{Vars}

-- times are in seconds, and 0 where there is none
pub record CronMetadata : Type 0 where
  pub created_at : ℕ
  pub updated_at : ℕ
  pub last_run_at : ℕ
  pub next_run_at : ℕ
  pub last_run_status : Text
  pub last_run_output : Text
  pub last_run_error : Text
  pub total_runs : ℕ
  pub failure_count : ℕ
  pub execution_count : ℕ
  pub concurrent_runs : ℕ

pub record CronJob : Type 0 where
  pub id : Text
  pub name : Text
  pub schedule : Text
  pub command : Text
  pub shell : Option Text
  pub working_directory : Option Text
  pub env_vars : Option Vars
  pub enabled : Bool
  pub metadata : CronMetadata

pub record CreateCronRequest : Type 0 where
  pub name : Text
  pub schedule : Text
  pub command : Text
  pub shell : Option Text
  pub working_directory : Option Text
  pub env_vars : Option Vars
  pub enabled : Bool

pub record UpdateCronRequest : Type 0 where
  pub name : Option Text
  pub schedule : Option Text
  pub command : Option Text
  pub shell : Option Text
  pub working_directory : Option Text
  pub env_vars : Option Vars
  pub enabled : Option Bool
