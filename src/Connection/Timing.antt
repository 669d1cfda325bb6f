-- ===== src/Connection/Timing.antt =====
-- The timers of Terminal.tsx: what holds of them, and what keeps it.
use native.Mathlib.Nat.{pow-suc}
use terminal_hub.Common.{
  ℕ, zero, suc, ◌+◌, ◌^◌, ◌≤◌, ◌<◌, ◌≡◌, ◌≢◌, Bool, true, false, Option, none, some, arith,
}
use terminal_hub.Connection.State.{Timer, Connection, reconnect, update, clear_handle}
use terminal_hub.Connection.Flow.{calculate_backoff_delay, max_reconnect_attempts}

pow-pos : (n : ℕ) → 1 ≤ 2 ^ n
pow-pos zero = omega arith
pow-pos (suc n) = rw pow-suc (omega (arith, pow-pos n))

-- The delay before an attempt is at least a second and at most thirty.
backoff_bounds : (a : ℕ) → (1000 ≤ calculate_backoff_delay a) × (calculate_backoff_delay a ≤ 30000)
unfolding calculate_backoff_delay
backoff_bounds a = omega (arith, pow-pos a)

abbrev pub Timers : Type 0
Timers = ℕ → Option Timer

-- What holds of the timers, the next handle, the handle of the pending reconnection and the number
-- of attempts, between two events.
pub record Timing (timers : Timers) (next : ℕ) (timeout : Option ℕ) (attempts : ℕ) : Type 0 where
  pub fresh : (h : ℕ) → next ≤ h → timers h ≡ none
  pub unique : (h k d : ℕ) → timers h ≡ some (reconnect k d) → timeout ≡ some h
  pub capped : attempts ≤ max_reconnect_attempts
  pub pending : (h k d : ℕ) → timers h ≡ some (reconnect k d) → attempts < max_reconnect_attempts
  pub delays : (h k d : ℕ) → timers h ≡ some (reconnect k d) → (1000 ≤ d) × (d ≤ 30000)

abbrev pub IsTimed : Connection → Type 0
IsTimed s = Timing s.timers s.next_handle s.reconnect_timeout s.reconnect_attempts

clear_sub :
    (o : Option ℕ) (timers : Timers) (h : ℕ) {t : Timer}
    → clear_handle o timers h ≡ some t
    → timers h ≡ some t
clear_sub none timers h e = e
clear_sub (some g) timers h e = ground arith

module _ {timers : Timers} {next : ℕ} {timeout : Option ℕ} {attempts : ℕ}
    (v : Timing timers next timeout attempts) where
  clear_fresh : (o : Option ℕ) (h : ℕ) → next ≤ h → clear_handle o timers h ≡ none
  clear_fresh none h l = v.fresh h l
  clear_fresh (some g) h l = ground (arith, v.fresh h)

  pub Timing-clear : (o : Option ℕ) → Timing (clear_handle o timers) next timeout attempts
  Timing-clear o = record {
    fresh = clear_fresh o;
    unique = λ h k d e. v.unique h k d (clear_sub o timers h e);
    capped = v.capped;
    pending = λ h k d e. v.pending h k d (clear_sub o timers h e);
    delays = λ h k d e. v.delays h k d (clear_sub o timers h e);
  }

  -- Clearing the handle in the ref leaves no reconnection pending.
  cleared : (h k d : ℕ) → clear_handle timeout timers h ≢ some (reconnect k d)
  cleared h k d e = ground (arith, v.unique h k d (clear_sub timeout timers h e))

  pub Timing-clear_timeout : Timing (clear_handle timeout timers) next none attempts
  Timing-clear_timeout = record {
    fresh = clear_fresh timeout;
    unique = λ h k d e. absurd (cleared h k d e);
    capped = v.capped;
    pending = λ h k d e. absurd (cleared h k d e);
    delays = λ h k d e. absurd (cleared h k d e);
  }

  pub Timing-schedule :
      (k : ℕ)
      → attempts < max_reconnect_attempts
      → Timing
          (update
            (clear_handle timeout timers)
            next
            (some (reconnect k (calculate_backoff_delay attempts))))
          (next + 1)
          (some next)
          attempts
  Timing-schedule k room = record {
    fresh = λ h l. ground (arith, clear_fresh timeout h);
    unique = λ h j d e. ground (arith, cleared h j d);
    capped = v.capped;
    pending = λ h j d e. room;
    delays = λ h j d e. ground (arith, cleared h j d, backoff_bounds attempts);
  }

  pub Timing-fire :
      (h k d : ℕ)
      → timers h ≡ some (reconnect k d)
      → Timing (update timers h none) next none (attempts + 1)
  Timing-fire h k d e = record {
    fresh = λ g l. ground (arith, v.fresh g);
    unique = λ g j c f. ground (arith, v.unique g j c, v.unique h k d);
    capped = ground (arith, v.pending h k d);
    pending = λ g j c f. ground (arith, v.unique g j c, v.unique h k d);
    delays = λ g j c f. ground (arith, v.unique g j c, v.unique h k d);
  }

  pub Timing-reset : Timing timers next timeout 0
  Timing-reset = record {
    fresh = v.fresh;
    unique = v.unique;
    capped = omega arith;
    pending = λ h k d e. omega arith;
    delays = v.delays;
  }

abbrev pub is_reconnect : Timer → Bool
is_reconnect (reconnect k d) = true
is_reconnect _ = false

pub Timing-set_other :
    {timers : Timers} {next : ℕ} {timeout : Option ℕ} {attempts : ℕ} (t : Timer)
    → is_reconnect t ≡ false
    → Timing timers next timeout attempts
    → Timing (update timers next (some t)) (next + 1) timeout attempts
Timing-set_other {timers} t other v = record {
  fresh = λ h l. ground (arith, v.fresh h);
  unique = λ h k d e. ground (arith, v.unique h k d);
  capped = v.capped;
  pending = λ h k d e. ground (arith, v.pending h k d);
  delays = λ h k d e. ground (arith, v.delays h k d);
}
