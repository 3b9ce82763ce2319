-- ===== src/Timer/Laws.antt =====
-- The waits and the order of timers, src/HAL9000/src/ex_timer.c.
use good_osd_project.Prelude.{
  refl, ℕ, zero, suc, ◌+◌, ◌-◌, ◌^◌, ◌≡◌, ◌≢◌, ◌≤◌, ◌<◌, ◌⊎◌, inl, inr, Bool, true, false, some,
  List, [], ◌∷◌, ◌++◌, ltb, arith, length, Bool-cases,
}
use good_osd_project.Timer.{
  Timer, ℤ, pos, negsuc, compare_timers, wait, wait_loop, TimerType, relative_periodic,
}

-- The sign of an integer, as an order of the numbers that were compared.
abbrev pub Agrees : ℤ → (a b : ℕ) → Type 0
Agrees (pos zero) a b = a ≡ b
Agrees (pos (suc n)) a b = b < a
Agrees (negsuc n) a b = a < b

Agrees-pos : (n a b : ℕ) → a ≡ b + n → Agrees (pos n) a b
Agrees-pos zero a b e = omega arith
Agrees-pos (suc n) a b e = omega arith

module _ (s t : Timer) where
  compare_timers-later :
      s.trigger_time_us < t.trigger_time_us + 2 ^ 63
      → t.trigger_time_us ≤ s.trigger_time_us
      → compare_timers s t ≡ pos (s.trigger_time_us - t.trigger_time_us)
  unfolding compare_timers
  compare_timers-later near le = ground arith

  compare_timers-earlier :
      t.trigger_time_us < 2 ^ 64
      → t.trigger_time_us < s.trigger_time_us + 2 ^ 63
      → s.trigger_time_us < t.trigger_time_us
      → compare_timers s t ≡ negsuc (t.trigger_time_us - s.trigger_time_us - 1)
  unfolding compare_timers
  compare_timers-earlier ht near lt = ground arith

-- The comparison of two timers has the sign of the difference of their trigger times, where these
-- are less than 2^63 microseconds apart and the second fits a `QWORD`.
pub compare_timers-Agrees :
    (s t : Timer)
    → t.trigger_time_us < 2 ^ 64
    → s.trigger_time_us < t.trigger_time_us + 2 ^ 63
    → t.trigger_time_us < s.trigger_time_us + 2 ^ 63
    → Agrees (compare_timers s t) s.trigger_time_us t.trigger_time_us
compare_timers-Agrees s t ht near near' =
    elim (Bool-cases (ltb s.trigger_time_us t.trigger_time_us)) [
      | inl lt ↦ rw (compare_timers-earlier s t ht near' (ground arith)) (ground arith)
      | inr ge ↦ rw (compare_timers-later s t near (ground arith)) (Agrees-pos _ _ _ (ground arith))
    ]

-- Times below 2^64 of which the first lies more than 2^63 behind the second are ordered the wrong
-- way round.
pub compare_timers_far :
    (s t : Timer)
    → s.trigger_time_us < 2 ^ 64
    → t.trigger_time_us + 2 ^ 63 < s.trigger_time_us
    → (n : ℕ) × (compare_timers s t ≡ negsuc n)
unfolding compare_timers
compare_timers_far s t hs far = (2 ^ 64 - (s.trigger_time_us - t.trigger_time_us) - 1, ground arith)

-- Whether a round of the wait goes on.
abbrev pub Waits : Timer → ℕ × Bool → Type 0
Waits t r = (r.0 < t.trigger_time_us) × (r.1 ≡ true)

abbrev pub AllWait : Timer → List (ℕ × Bool) → Type 0
AllWait t [] = Unit
AllWait t (r ∷ rs) = Waits t r × AllWait t rs

module _ (t : Timer) (after : List (ℕ × Bool)) (now : ℕ) (started : Bool) where
  wait_loop-until :
      (before : List (ℕ × Bool))
      → AllWait t before
      → (t.trigger_time_us ≤ now) ⊎ (started ≡ false)
      → wait_loop t (before ++ (now, started) ∷ after) ≡ some (length before)
  unfolding wait_loop
  wait_loop-until [] a h = ground arith
  wait_loop-until ((n, b) ∷ before) (w, rest) h = ground (arith, wait_loop-until before rest h)

-- A thread that waits for a timer that is not periodic and not uninitialised yields as often as it reads a time before
-- the trigger with the timer started, and goes on at the first reading that is late enough or finds
-- the timer stopped.
pub wait_until :
    (t : Timer) (before after : List (ℕ × Bool)) (now : ℕ) (started : Bool)
    → t.timer_type ≢ relative_periodic
    → t.timer_uninited ≡ false
    → AllWait t before
    → (t.trigger_time_us ≤ now) ⊎ (started ≡ false)
    → wait t (before ++ (now, started) ∷ after) ≡ some (length before)
unfolding wait
wait_until t before after now started once u a h =
    ground (arith, wait_loop-until t after now started before a h)

wait_loop-ignores :
    (t : Timer) (ty : TimerType) (reload : ℕ) (readings : List (ℕ × Bool))
    → wait_loop (record t { timer_type = ty; reload_time_us = reload }) readings
      ≡ wait_loop t readings
unfolding wait_loop
wait_loop-ignores t ty reload [] = refl
wait_loop-ignores t ty reload ((n, b) ∷ rs) = rw (wait_loop-ignores t ty reload rs)

-- The type and the reload time of a timer have no part in a wait: a periodic timer whose trigger
-- time has passed lets every later wait return at once, as a timer does that triggers once.
pub wait_ignores_reload :
    (t : Timer) (ty : TimerType) (reload : ℕ) (readings : List (ℕ × Bool))
    → wait (record t { timer_type = ty; reload_time_us = reload }) readings ≡ wait t readings
unfolding wait
wait_ignores_reload t ty reload readings = ground (arith, wait_loop-ignores t ty reload readings)
