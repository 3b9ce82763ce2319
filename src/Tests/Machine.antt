-- ===== src/Tests/Machine.antt =====
-- A machine for the tests: CPU 0 runs thread 1, threads 2 and 3 are ready, and 4 and 5 are blocked.
-- The other CPUs run their idle threads.
use good_osd_project.Prelude.{
  ℕ, ◌+◌, ◌≢◌, Bool, false, ◌||◌, Option, none, [], ◌∷◌, refl, ◌==◌, if◌then◌else◌, arith, ◌≡◌,
  true,
}
use good_osd_project.Kernel.{
  Kernel, Thread, Cpu, Process, Event, notification, ready, blocked, success,
}
use good_osd_project.Sched.Unblock.{IsAsleep}
use good_osd_project.Thread.{force_terminate_pending}
use good_osd_project.Thread.Invariant.{IsWellFormed}

abbrev pub quiet : Event
quiet = record { event_type = notification; signaled = false; waiting = [] }

abbrev pub thread : Bool → Option ℕ → Thread
thread is_blocked lock = record {
  state = if is_blocked then blocked else ready;
  flags = 0;
  exit_status = success;
  termination_evt = quiet;
  block_lock = lock;
  process = 7;
  tick_count_completed = 0;
  uninterrupted_ticks = 0;
  tick_count_early = 0;
}

abbrev pub cpu : (current idle : ℕ) → Cpu
cpu current idle = record {
  running_thread_ticks = 0;
  idle_thread = idle;
  current_thread = current;
  previous_thread = 0;
  yield_on_interrupt_return = false;
  idle_ticks = 0;
  kernel_ticks = 0;
}

abbrev pub process : Process
process = record {
  number_of_threads = 2;
  active_threads = 2;
  thread_list = 1 ∷ 2 ∷ [];
  termination_status = success;
  termination_evt = quiet;
}

-- `lock` is the block lock of thread 1.
abbrev pub machine : Option ℕ → Kernel
machine lock = record {
  threads = λ t. thread (t == 4 || t == 5) (if t == 1 then lock else none);
  ready_list = 2 ∷ 3 ∷ [];
  cpus = λ c. cpu (if c == 0 then 1 else 100 + c) (100 + c);
  processes = λ p. process;
  effects = [];
}

pub machine-IsWellFormed : (lock : Option ℕ) → IsWellFormed (machine lock)
machine-IsWellFormed lock = record {
  once = λ t. ground arith;
  members_ready = λ t h. ground arith;
  members_real = refl;
  current_out = λ c. ground arith;
  idle_out = λ c. ground arith;
  current_real = λ c. ground arith;
  idle_real = λ c. ground arith;
  current_apart = λ c d ne. ground arith;
  idle_apart = λ c d ne. ground arith;
  idles_apart = λ c d ne. omega arith;
}

pub live : (lock : Option ℕ) (t : ℕ) → ((machine lock).threads t).flags ≢ force_terminate_pending
live lock t = omega arith

pub machine-IsAsleep : (t : ℕ) → (t == 4 || t == 5) ≡ true → IsAsleep (machine none) t
machine-IsAsleep t h = record {
  real = ground arith;
  blocked_state = rw h refl;
  unlocked = ground arith;
}
