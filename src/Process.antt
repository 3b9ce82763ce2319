-- ===== src/Process.antt =====
-- A process's list of threads, src/HAL9000/src/process.c: `ProcessInsertThreadInList`,
-- `ProcessNotifyThreadTermination` and `ProcessRemoveThreadFromList`.
pub mod Members
pub mod Lifetime
pub mod References
pub mod Ending
use good_osd_project.Prelude.{ℕ, ◌+◌, ◌-◌, ◌^◌, not, ltb, leb, ◌==◌, if◌then◌else◌}
use good_osd_project.CommonLib.{ListOps}
use good_osd_project.Kernel.{
  Outcome, done, ◌>>=◌, ◌>>◌, assert, dword, null, Kernel, set_process, set_thread, log_effect,
  reference_process, dereference_process,
}
use good_osd_project.Event.{signal}

-- `MAX_DWORD`
abbrev pub max_dword : ℕ
max_dword = 2 ^ 32 - 1

-- `_InterlockedDecrement` on a `DWORD`
abbrev pub decrement : ℕ → ℕ
decrement n = dword (n + max_dword)

module _ ⦃L : ListOps⦄ where
  -- `ProcessInsertThreadInList`
  unfoldable pub insert_thread : Kernel → (p t : ℕ) → Outcome Kernel
  insert_thread k p t = do
    assert (not (p == null))
    assert (not (t == null))
    let process = k.processes p
    assert (ltb process.number_of_threads max_dword)
    let number = process.number_of_threads + 1
    let active = dword (process.active_threads + 1)
    assert (leb active number)
    let moved = set_thread k t (record (k.threads t) { process = p })
    done (
        log_effect
          (set_process moved p (record process {
            number_of_threads = number;
            active_threads = active;
            thread_list = L.insert_tail process.thread_list t;
          }))
          (reference_process p))

  -- `ProcessNotifyThreadTermination`: the last active thread sets the process's status and signals
  -- its event.
  unfoldable pub notify_thread_termination : Kernel → ℕ → Outcome Kernel
  notify_thread_termination k t = do
    assert (not (t == null))
    let p = (k.threads t).process
    assert (not (p == null))
    let active = decrement (k.processes p).active_threads
    let counted = record (k.processes p) { active_threads = active }
    if active == 0
        then (do
          let ended = record counted { termination_status = (k.threads t).exit_status }
          (event, k') ← signal ended.termination_evt (set_process k p ended)
          done (set_process k' p (record (k'.processes p) { termination_evt = event })))
        else done (set_process k p counted)

  -- `ProcessRemoveThreadFromList`: the references that it drops are effects in their order, and
  -- Process/Lifetime has what the last one leads to.
  unfoldable pub remove_thread : Kernel → ℕ → Outcome Kernel
  remove_thread k t = do
    assert (not (t == null))
    let p = (k.threads t).process
    assert (not (p == null))
    let process = k.processes p
    let remaining = decrement process.number_of_threads
    assert (not (remaining == max_dword))
    let released =
        log_effect
          (set_process k p (record process {
            number_of_threads = remaining;
            thread_list = L.remove_entry process.thread_list t;
          }))
          (dereference_process p)
    done (if remaining == 0 then log_effect released (dereference_process p) else released)
