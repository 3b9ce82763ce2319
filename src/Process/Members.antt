-- ===== src/Process/Members.antt =====
-- The counts of a process and its end, src/HAL9000/src/process.c.
use good_osd_project.Prelude.{ℕ, ◌≡◌, ◌≢◌, true, List, [], ◌∷◌, ◌++◌, refl, arith, ◌∙◌}
use good_osd_project.CommonLib.{ListOps}
use good_osd_project.Kernel.{null, Kernel, Process, set_process, Returns, notification}
use good_osd_project.Sched.{make_ready}
use good_osd_project.Event.Signal.{AllAsleep, wake_all, signal-all, ready_list-wake_all}
use good_osd_project.Process.{notify_thread_termination}

module _ ⦃L : ListOps⦄ where
  AllAsleep-set_process :
      (k : Kernel) (p : ℕ) (v : Process) (ts : List ℕ)
      → AllAsleep k ts
      → AllAsleep (set_process k p v) ts
  AllAsleep-set_process k p v [] a = tt
  AllAsleep-set_process k p v (t ∷ ts) (a, n, rest) = (
    record { real = a.real; blocked_state = a.blocked_state; unlocked = a.unlocked },
    n,
    AllAsleep-set_process k p v ts rest,
  )

  processes-make_ready : (k : Kernel) (t : ℕ) → (make_ready k t).processes ≡ k.processes
  unfolding make_ready
  processes-make_ready k t = refl

  pub processes-wake_all : (ts : List ℕ) (k : Kernel) → (wake_all ts k).processes ≡ k.processes
  processes-wake_all [] k = refl
  processes-wake_all (t ∷ ts) k = processes-wake_all ts (make_ready k t) ∙ processes-make_ready k t

  module _ (k : Kernel) (t : ℕ) where
    abbrev own : ℕ
    own = (k.threads t).process

    abbrev before : Process
    before = k.processes own

    abbrev ended : Process
    ended = record before { active_threads = 0; termination_status = (k.threads t).exit_status }

    -- The last active thread of a process ends, and the process's termination event is a
    -- notification event whose waiting threads are asleep: the process takes that thread's status,
    -- with the list of its threads as before, the event is signaled, and every thread that waits for
    -- the process goes to the ready list.
    pub notify_last :
        t ≢ null
        → own ≢ null
        → before.active_threads ≡ 1
        → before.termination_evt.event_type ≡ notification
        → AllAsleep k before.termination_evt.waiting
        → Returns
            (λ k'.
              (k'.processes own ≡ record before {
                active_threads = 0;
                termination_status = (k.threads t).exit_status;
                termination_evt = record before.termination_evt { signaled = true; waiting = [] };
              })
              × (k'.ready_list ≡ k.ready_list ++ before.termination_evt.waiting))
            (notify_thread_termination k t)
    unfolding notify_thread_termination
    notify_last real real_p one ty a =
        let e = before.termination_evt in
        let k₁ = set_process k own ended in
        ground (
          arith,
          signal-all e k₁ ty (AllAsleep-set_process k own ended e.waiting a),
          processes-wake_all e.waiting k₁,
          ready_list-wake_all e.waiting k₁,
        )
