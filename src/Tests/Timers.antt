-- ===== src/Tests/Timers.antt =====
-- Runs of the timers.
use good_osd_project.Prelude.{ℕ, ◌≡◌, ◌≢◌, inl, true, false, some, [], ◌∷◌, refl, arith}
use good_osd_project.Timer.{Timer, relative_once, relative_periodic, wait}
use good_osd_project.Timer.Laws.{wait_until}

abbrev timer : ℕ → Timer
timer n = record {
  trigger_time_us = n;
  reload_time_us = 0;
  timer_type = relative_once;
  timer_started = true;
  timer_uninited = false;
}

-- The timer is not periodic.
once_lem : (timer 50).timer_type ≢ relative_periodic
once_lem = cc

wait_until_example : wait (timer 50) ((20, true) ∷ (40, true) ∷ (60, true) ∷ []) ≡ some 2
wait_until_example =
    wait_until (timer 50) ((20, true) ∷ (40, true) ∷ []) [] 60 true once_lem refl
      ((omega arith, refl), ((omega arith, refl), tt)) (inl (omega arith))
