-- ===== src/Tests/Processes.antt =====
-- Runs of the processes.
use good_osd_project.Prelude.{ℕ, ◌≡◌, none, [], ◌∷◌, refl, arith, true}
use good_osd_project.Kernel.{Kernel, Returns, set_process}
use good_osd_project.Sched.Unblock.{IsAsleep}
use good_osd_project.Process.{notify_thread_termination}
use good_osd_project.Process.Members.{notify_last}
use good_osd_project.Tests.Instances.{list_ops}
use good_osd_project.Tests.Machine.{machine, process, quiet, machine-IsAsleep}

-- Process 7 has one active thread, and threads 4 and 5 wait for its end.
abbrev last_one : Kernel
last_one =
    set_process (machine none) 7 (record process {
      active_threads = 1;
      termination_evt = record quiet { waiting = 4 ∷ 5 ∷ [] };
    })

last_one-IsAsleep : (t : ℕ) → IsAsleep (machine none) t → IsAsleep last_one t
last_one-IsAsleep t a = record {
  real = a.real;
  blocked_state = a.blocked_state;
  unlocked = a.unlocked;
}

notify_last_example :
    Returns
      (λ k'.
        (k'.processes 7 ≡ record process {
          active_threads = 0;
          termination_evt = record quiet { signaled = true };
        })
        × (k'.ready_list ≡ 2 ∷ 3 ∷ 4 ∷ 5 ∷ []))
      (notify_thread_termination last_one 1)
notify_last_example = notify_last last_one 1 (omega arith) (omega arith) refl refl (
  last_one-IsAsleep 4 (machine-IsAsleep 4 refl),
  refl,
  (last_one-IsAsleep 5 (machine-IsAsleep 5 refl), refl, tt),
)
