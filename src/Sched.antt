-- ===== src/Sched.antt =====
-- The scheduler's core, src/HAL9000/src/thread.c: `ThreadUnblock`, `ThreadTick`, `SetCurrentThread`,
-- `_ThreadGetReadyThread`, `_ThreadSchedule` and `ThreadCleanupPostSchedule`. Each is called with
-- the interrupts off and the lock of the ready list held, so each runs as one step of CPU `c`.
pub mod Switch
pub mod Unblock
use good_osd_project.Prelude.{ℕ, ◌+◌, true, false, not, ◌||◌, none, some, leb, ◌==◌, if◌then◌else◌}
use good_osd_project.CommonLib.{ListOps}
use good_osd_project.Kernel.{
  Outcome, done, ◌>>=◌, ◌>>◌, assert, dword, qword, null, ready, is_ready, is_blocked, is_dying,
  Cpu, change_process_space, update_idle_time, switch_threads, dereference_thread, Kernel,
  set_thread, set_cpu, log_effect, is_owner, acquire,
}

-- `THREAD_TIME_SLICE`
abbrev pub thread_time_slice : ℕ
thread_time_slice = 1

-- `ThreadTick`, the clock's tick on CPU `c`
unfoldable pub tick : Kernel → ℕ → Kernel
tick k c =
    let cpu = k.cpus c in
    let t = cpu.current_thread in
    let thread = k.threads t in
    let idle = cpu.idle_thread == t in
    let ticks = dword (cpu.running_thread_ticks + 1) in
    let cpu' : Cpu = record cpu {
      idle_ticks = if idle then qword (cpu.idle_ticks + 1) else cpu.idle_ticks;
      kernel_ticks = if idle then cpu.kernel_ticks else qword (cpu.kernel_ticks + 1);
      running_thread_ticks = ticks;
      yield_on_interrupt_return =
          if leb thread_time_slice ticks then true else cpu.yield_on_interrupt_return;
    } in
    set_cpu
      (set_thread k t
        (record thread { tick_count_completed = qword (thread.tick_count_completed + 1) }))
      c cpu'

-- `SetCurrentThread`; the stack's bounds and the TSS are left out
unfoldable pub set_current_thread : Kernel → ℕ → ℕ → Kernel
set_current_thread k c t = set_cpu k c (record (k.cpus c) { current_thread = t })

-- The last part of `ThreadCleanupPostSchedule`, for a previous thread that is not `NULL`.
unfoldable pub release_previous : Kernel → ℕ → ℕ → Outcome Kernel
release_previous k c prev =
    let thread = k.threads prev in
    if is_owner thread.block_lock c
    then (do
      assert (is_blocked thread.state || prev == (k.cpus c).idle_thread)
      done (set_thread k prev (record thread { block_lock = none })))
    else done (
        if is_dying thread.state
        then log_effect (set_cpu k c (record (k.cpus c) { previous_thread = null }))
            (dereference_thread prev)
        else k)

-- `ThreadCleanupPostSchedule`, which the next thread runs on CPU `c` as the first thing
unfoldable pub cleanup_post_schedule : Kernel → ℕ → Outcome Kernel
unfolding release_previous
cleanup_post_schedule k c =
    let k' = set_cpu k c (record (k.cpus c) { running_thread_ticks = 0 }) in
    let prev = (k.cpus c).previous_thread in
    if prev == null then done k' else release_previous k' c prev

-- What `_ThreadSchedule` does when the next thread is another one, up to the cleanup.
unfoldable pub switch_to : Kernel → (c current next : ℕ) → Kernel
unfolding set_current_thread
switch_to k c current next =
    let p = (k.threads next).process in
    let moved =
      if (k.threads current).process == p then k else log_effect k (change_process_space p) in
    let reset = set_thread moved current (record (k.threads current) { uninterrupted_ticks = 0 }) in
    log_effect (set_current_thread reset c next) (switch_threads current next)

unfoldable pub stay : Kernel → ℕ → Kernel
stay k t =
    let thread = k.threads t in
    set_thread k t (record thread { uninterrupted_ticks = qword (thread.uninterrupted_ticks + 1) })

module _ ⦃L : ListOps⦄ where
  -- What `ThreadUnblock` changes: the thread is ready, and goes to the end of the list.
  unfoldable pub make_ready : Kernel → ℕ → Kernel
  make_ready k t =
      set_thread (record k { ready_list = L.insert_tail k.ready_list t }) t
        (record (k.threads t) { state = ready })

  -- `ThreadUnblock`
  unfoldable pub unblock : Kernel → ℕ → Outcome Kernel
  unblock k t = do
    assert (not (t == null))
    let thread = k.threads t
    acquire thread.block_lock
    assert (is_blocked thread.state)
    done (make_ready k t)

  -- `_ThreadGetReadyThread`: the head of the ready list, or the CPU's idle thread.
  unfoldable pub get_ready_thread : Kernel → ℕ → Outcome (ℕ × Kernel)
  get_ready_thread k c = elim (L.remove_head k.ready_list) [
    | none ↦ done ((k.cpus c).idle_thread, log_effect k (update_idle_time true))
    | some (t, rest) ↦ do
      assert (is_ready (k.threads t).state)
      done (t, log_effect (record k { ready_list = rest }) (update_idle_time false))
  ]

  -- `_ThreadSchedule`. `ThreadSwitch` resumes the next thread behind its own call of `ThreadSwitch`,
  -- or in `ThreadStart` (_thread.yasm), and both go on with `ThreadCleanupPostSchedule`.
  unfoldable pub schedule : Kernel → ℕ → Outcome Kernel
  schedule k c = do
    let current = (k.cpus c).current_thread
    assert (not (current == null))
    let saved = set_cpu k c (record (k.cpus c) { previous_thread = current })
    (next, k') ← get_ready_thread saved c
    assert (not (next == null))
    cleanup_post_schedule (if next == current then stay k' current else switch_to k' c current next)
        c
