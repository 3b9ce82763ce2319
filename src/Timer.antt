-- ===== src/Timer.antt =====
-- Executive timers, src/HAL9000/src/ex_timer.c. The system time, `IomuGetSystemTimeUs`, is an argument.
pub mod Laws
use good_osd_project.Prelude.{
  ℕ, zero, suc, ◌+◌, ◌-◌, ◌^◌, Bool, true, false, Option, none, some, List, [], ◌∷◌, ltb, ◌&&◌,
  ◌==◌, if◌then◌else◌,
}
use good_osd_project.Kernel.{qword, Status, success, invalid_parameter1, invalid_parameter2}

pub data TimerType : Type 0 where
  absolute relative_once relative_periodic : TimerType

pub record Timer : Type 0 where
  pub trigger_time_us : ℕ
  pub reload_time_us : ℕ
  pub timer_type : TimerType
  pub timer_started : Bool
  pub timer_uninited : Bool

-- The `EX_TIMER_TYPE` that a number stands for, if it is at most `ExTimerTypeMax`.
unfoldable pub timer_type_of : ℕ → Option TimerType
timer_type_of zero = some absolute
timer_type_of (suc zero) = some relative_once
timer_type_of (suc (suc zero)) = some relative_periodic
timer_type_of (suc (suc (suc n))) = none

-- The fields that `ExTimerInit` sets, by the timer's type.
unfoldable pub trigger : TimerType → (now time : ℕ) → Timer
trigger absolute now time = record {
  trigger_time_us = time;
  reload_time_us = 0;
  timer_type = absolute;
  timer_started = false;
  timer_uninited = false;
}
trigger t now time = record {
  trigger_time_us = qword (now + time);
  reload_time_us = time;
  timer_type = t;
  timer_started = false;
  timer_uninited = false;
}

-- `ExTimerInit`; the timer is left as it was (`none`) where the arguments are refused.
unfoldable pub init : (is_null : Bool) → (type_number now time : ℕ) → Status × Option Timer
unfolding timer_type_of trigger
init is_null n now time = if is_null then (invalid_parameter1, none) else elim (timer_type_of n) [
  | none ↦ (invalid_parameter2, none)
  | some t ↦ (success, some (trigger t now time))
]

-- `ExTimerStart`
unfoldable pub start : Timer → Timer
start t = if t.timer_uninited then t else record t { timer_started = true }

-- `ExTimerStop`
unfoldable pub stop : Timer → Timer
stop t = if t.timer_uninited then t else record t { timer_started = false }

-- `ExTimerUninit`
unfoldable pub uninit : Timer → Timer
unfolding stop
uninit t = record (stop t) { timer_uninited = true }

-- The loop of `ExTimerWait`: each round reads the time and the volatile `TimerStarted`, which other
-- threads change, and yields. The list holds what the rounds read; the result is the number of
-- yields, or `none` if the thread still waits when the list ends.
unfoldable pub wait_loop : Timer → List (ℕ × Bool) → Option ℕ
wait_loop t [] = none
wait_loop t ((now, started) ∷ readings) =
    let rest = wait_loop t readings in
    if ltb now t.trigger_time_us && started
    then elim rest [ none ↦ none | some n ↦ some (suc n) ]
    else some 0

-- `ExTimerWait`
unfoldable pub wait : Timer → List (ℕ × Bool) → Option ℕ
unfolding wait_loop
wait t readings = if t.timer_uninited then some 0 else wait_loop t readings

-- An `INT64`, as the number that a `QWORD` stands for.
pub data ℤ : Type 0 where
  pos : ℕ → ℤ
  negsuc : ℕ → ℤ

unfoldable pub int64 : ℕ → ℤ
int64 n = if ltb n (2 ^ 63) then pos n else negsuc (2 ^ 64 - n - 1)

-- `ExTimerCompareTimers`
unfoldable pub compare_timers : Timer → Timer → ℤ
unfolding int64
compare_timers a b = int64 (qword (a.trigger_time_us + 2 ^ 64 - b.trigger_time_us))
