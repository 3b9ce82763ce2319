-- ===== src/Tests/Ending.antt =====
-- A run of the end of a thread.
use good_osd_project.Prelude.{
  ℕ, ◌<◌, ◌≡◌, none, [], ◌∷◌, refl, arith, count, false, ◌==◌, ◌||◌, true,
}
use good_osd_project.Kernel.{Kernel, Returns, ready, set_process, set_thread, exited}
use good_osd_project.Thread.{exit}
use good_osd_project.Thread.Invariant.{IsWellFormed}
use good_osd_project.Thread.Leave.{IsGone}
use good_osd_project.Thread.Exit.{exit-IsGone}
use good_osd_project.Thread.Wake.{Sleepers}
use good_osd_project.Tests.Instances.{list_ops}
use good_osd_project.Tests.Machine.{
  machine, machine-IsWellFormed, machine-IsAsleep, thread, process, quiet,
}

-- Thread 1 is the last active one of process 7; thread 4 waits for it, and thread 5 for the process.
abbrev ending : Kernel
ending =
    set_process
      (set_thread (machine none) 1
        (record (thread false none) { termination_evt = record quiet { waiting = 4 ∷ [] } }))
      7 (record process { active_threads = 1; termination_evt = record quiet { waiting = 5 ∷ [] } })

ending-IsWellFormed : IsWellFormed ending
ending-IsWellFormed = record {
  once = (machine-IsWellFormed none).once;
  members_ready = λ t h. ground arith;
  members_real = refl;
  current_out = (machine-IsWellFormed none).current_out;
  idle_out = (machine-IsWellFormed none).idle_out;
  current_real = (machine-IsWellFormed none).current_real;
  idle_real = (machine-IsWellFormed none).idle_real;
  current_apart = (machine-IsWellFormed none).current_apart;
  idle_apart = (machine-IsWellFormed none).idle_apart;
  idles_apart = (machine-IsWellFormed none).idles_apart;
}

ending-Sleepers : (t : ℕ) → (t == 4 || t == 5) ≡ true → Sleepers ending (t ∷ [])
ending-Sleepers t h =
    let a = machine-IsAsleep t h in
    record {
      asleep = (
        record { real = a.real; blocked_state = ground arith; unlocked = ground arith },
        refl,
        tt,
      );
      not_current = λ d. ground arith;
      not_idle = λ d. ground arith;
    }

exit-IsGone_example :
    Returns
      (λ k'.
        IsWellFormed k'
        × IsGone k' 0 1
        × ((u : ℕ) → 0 < count u (4 ∷ []) → (k'.threads u).state ≡ ready))
      (exit ending 0 (exited 3))
exit-IsGone_example = exit-IsGone ending 0 (exited 3) (record {
  well_formed = ending-IsWellFormed;
  not_idle = omega arith;
  in_process = omega arith;
  thread_type = refl;
  process_type = refl;
  joiners = ending-Sleepers 4 refl;
  watchers = ending-Sleepers 5 refl;
  apart = λ u h. ground arith;
})
