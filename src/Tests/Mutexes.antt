-- ===== src/Tests/Mutexes.antt =====
-- Runs of the mutexes.
use good_osd_project.Prelude.{ℕ, ◌≡◌, ◌≢◌, ◌<◌, ◌⊎◌, none, [], ◌∷◌, refl, arith}
use good_osd_project.Kernel.{Returns}
use good_osd_project.Mutex.{Mutex, acquire, release}
use good_osd_project.Mutex.Sound.{acquire-IsSound, release-IsSound}
use good_osd_project.Mutex.Fifo.{IsSound, HandedOver, release_line}
use good_osd_project.Tests.Instances.{list_ops}
use good_osd_project.Tests.Machine.{machine, machine-IsWellFormed, live, machine-IsAsleep}

-- A mutex that `holder` has taken once, and that threads 4 and 5 wait for.
abbrev mutex : (holder : ℕ) → Mutex
mutex holder = record {
  current_recursivity_depth = 1;
  max_recursivity_depth = 255;
  waiting_list = 4 ∷ 5 ∷ [];
  holder = holder;
}

mutex-IsSound : (holder : ℕ) → holder ≢ 0 → IsSound (mutex holder)
mutex-IsSound holder h = record {
  held_once = λ _. omega arith;
  depth_in = omega arith;
  limit_pos = omega arith;
  limit_in = omega arith;
  free_empty = λ e. absurd (h e);
}

release_line_example :
    Returns
      (λ r.
        ((1 < 1) × (r ≡ (record (mutex 1) { current_recursivity_depth = 0 }, machine none)))
        ⊎ (((mutex 1).current_recursivity_depth ≡ 1)
            × HandedOver (mutex 1) (machine none) 0 (mutex-IsSound 1 (omega arith)) r))
      (release (mutex 1) (machine none) 0)
release_line_example =
    release_line (mutex 1) (machine none) 0 (mutex-IsSound 1 (omega arith)) (omega arith) refl
      ((machine-IsAsleep 4 refl), refl, ((machine-IsAsleep 5 refl), refl, tt))

acquire-IsSound_example : Returns (λ r. IsSound r.1) (acquire (mutex 6) (machine none) 0)
acquire-IsSound_example =
    acquire-IsSound (mutex 6) (machine none) 0 (mutex-IsSound 6 (omega arith))
      (machine-IsWellFormed none) refl (live none 1) (λ e. omega arith)

release-IsSound_example : Returns (λ r. IsSound r.0) (release (mutex 1) (machine none) 0)
release-IsSound_example =
    release-IsSound (mutex 1) (machine none) 0 (mutex-IsSound 1 (omega arith)) refl
      (machine-IsAsleep 4 refl, refl, (machine-IsAsleep 5 refl, refl, tt))
