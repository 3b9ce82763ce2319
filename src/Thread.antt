-- ===== src/Thread.antt =====
-- What a thread does to itself, src/HAL9000/src/thread.c: it yields, blocks, exits, takes its block
-- lock, and is told to terminate. Each function runs as one step of CPU `c`: the lock of the ready list,
-- which the step takes and gives back, is taken to be free, and waiting for it is not modelled.
pub mod Invariant
pub mod Steps
pub mod RoundRobin
pub mod Wake
pub mod Leave
pub mod Exit
use Prim.Native.Nat.{bit_or}
use good_osd_project.Prelude.{ℕ, ◌+◌, false, not, none, some, ◌==◌, if◌then◌else◌}
use good_osd_project.CommonLib.{ListOps}
use good_osd_project.Kernel.{
  Outcome, done, ◌>>=◌, ◌>>◌, assert, qword, null, ready, blocked, dying, Status, job_interrupted,
  Kernel, set_thread, set_cpu, is_owner, acquire,
}
use good_osd_project.Sched.{schedule}
use good_osd_project.Event.{signal}
use good_osd_project.Process.{notify_thread_termination}

-- `THREAD_FLAG_FORCE_TERMINATE_PENDING` and `THREAD_FLAG_FORCE_TERMINATED`
abbrev pub force_terminate_pending : ℕ
force_terminate_pending = 1

abbrev pub force_terminated : ℕ
force_terminated = 2

-- `ThreadTerminate`
unfoldable pub terminate : Kernel → ℕ → Outcome Kernel
terminate k t = do
  assert (not (t == null))
  let thread = k.threads t
  done (set_thread k t (record thread { flags = bit_or thread.flags force_terminate_pending }))

-- `ThreadTakeBlockLock`
unfoldable pub take_block_lock : Kernel → ℕ → Outcome Kernel
take_block_lock k c = do
  let t = (k.cpus c).current_thread
  let thread = k.threads t
  acquire thread.block_lock
  done (set_thread k t (record thread { block_lock = some c }))

-- What `ThreadBlock` changes before it calls the scheduler.
unfoldable pub enter_blocked : Kernel → ℕ → Kernel
enter_blocked k c =
    let t = (k.cpus c).current_thread in
    let thread = k.threads t in
    let early = qword (thread.tick_count_early + 1) in
    set_thread k t (record thread { tick_count_early = early; state = blocked })

module _ ⦃L : ListOps⦄ where
  -- `ThreadExit`
  unfoldable pub exit : Kernel → ℕ → Status → Outcome Kernel
  exit k c status = do
    let t = (k.cpus c).current_thread
    let thread = k.threads t
    let lock = if is_owner thread.block_lock c then none else thread.block_lock
    let ended = record thread { block_lock = lock; state = dying; exit_status = status }
    (event, k') ← signal ended.termination_evt (set_thread k t ended)
    let told = set_thread k' t (record (k'.threads t) { termination_evt = event })
    schedule (← notify_thread_termination told t) c

  -- `_ThreadForcedExit`
  unfoldable pub forced_exit : Kernel → ℕ → Outcome Kernel
  unfolding exit
  forced_exit k c =
      let t = (k.cpus c).current_thread in
      let thread = k.threads t in
      exit (set_thread k t (record thread { flags = bit_or thread.flags force_terminated })) c
        job_interrupted

  -- What `ThreadYield` changes before it calls the scheduler: the thread is ready, and unless it is
  -- the idle thread it goes to the end of the list.
  unfoldable pub enter_ready : Kernel → ℕ → Kernel
  enter_ready k c =
      let cpu = k.cpus c in
      let t = cpu.current_thread in
      let thread = k.threads t in
      let forced = cpu.yield_on_interrupt_return in
      let early = if forced then thread.tick_count_early else qword (thread.tick_count_early + 1) in
      let queue = if t == cpu.idle_thread then k.ready_list else L.insert_tail k.ready_list t in
      let k' = set_cpu k c (record cpu { yield_on_interrupt_return = false }) in
      set_thread (record k' { ready_list = queue }) t
        (record thread { tick_count_early = early; state = ready })

  -- `ThreadYield`
  unfoldable pub yield : Kernel → ℕ → Outcome Kernel
  yield k c = do
    let cpu = k.cpus c
    let t = cpu.current_thread
    assert (not (t == null))
    if (k.threads t).flags == force_terminate_pending
        then forced_exit (set_cpu k c (record cpu { yield_on_interrupt_return = false })) c
        else schedule (enter_ready k c) c

  -- `ThreadBlock`
  unfoldable pub block : Kernel → ℕ → Outcome Kernel
  block k c = do
    let thread = k.threads (k.cpus c).current_thread
    assert (is_owner thread.block_lock c)
    if thread.flags == force_terminate_pending
        then forced_exit k c
        else schedule (enter_blocked k c) c
