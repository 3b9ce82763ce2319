-- ===== src/Tests/Lives.antt =====
-- Runs of the end of a process.
use good_osd_project.Prelude.{ℕ, ◌+◌, ◌≡◌, ◌<◌, true, some, [], ◌∷◌, refl, arith, ltb, ◌&&◌}
use good_osd_project.Kernel.{done, success}
use good_osd_project.Ipc.Runs.{bit}
use good_osd_project.Process.Lifetime.{
  Pcids, ProcessSystem, Life, process_init, register, retrieve_next_pid, in_list,
  remove_thread_reference, close_handle, insert_thread_reference, open_handle,
}
use good_osd_project.Process.References.{Held, Steps, insert, open_it, here, next}
use good_osd_project.Process.Ending.{start, calls_end, ends_once}
use good_osd_project.Tests.Instances.{bitmap_ops, list_ops, ref_counts}

few_pids : (n : ℕ) → (ltb 0 n && ltb n 8) ≡ true → n < 8
few_pids n h = ground arith

instance abbrev pcids : Pcids
pcids = record {
  total = 8;
  is_valid = λ n. ltb 0 n && ltb n 8;
  zero_invalid = refl;
  valid_below = few_pids;
  few = omega arith;
}

-- The system's process stands at 100 and has the identifier 1.
abbrev system : ProcessSystem
system = record { pid_bitmap = λ i. ltb i 2; process_list = 100 ∷ []; system_id = 1 }

abbrev registered : ProcessSystem
registered = record system {
  pid_bitmap = bitmap_ops.set_bits system.pid_bitmap 2 1;
  process_list = 100 ∷ 200 ∷ [];
}

abbrev process : Life
process = record {
  system = registered;
  address = 200;
  links = in_list;
  id = 2;
  ref_cnt = 1;
  number_of_threads = 0;
  frees = 0;
}

process_lem :
    process_init system 200 true success success true true success
    ≡ done (success, some process, registered)
unfolding process_init register retrieve_next_pid
process_lem = refl

-- A thread has come, and a handle has been opened.
abbrev with_thread : Held
with_thread = record (start process) { life = insert_thread_reference process }

abbrev with_handle : Held
with_handle = record with_thread { life = open_handle with_thread.life; handles = 1 }

two_steps : Steps (start process) with_handle
two_steps = next (next here (insert refl)) (open_it refl)

calls_end_example :
    (0 < with_handle.life.number_of_threads
      → (q : Life) × (remove_thread_reference with_handle.life ≡ done q))
    × (0 < with_handle.handles → (q : Life) × (close_handle with_handle.life ≡ done q))
calls_end_example =
    calls_end system 200 true true success success success process registered process_lem refl
      two_steps

ends_once_example :
    (0 < with_handle.life.number_of_threads + with_handle.handles + bit with_handle.initial
      → (with_handle.life.frees ≡ 0) × (with_handle.life.system ≡ registered))
    × (with_handle.life.number_of_threads + with_handle.handles + bit with_handle.initial ≡ 0
        → (with_handle.life.frees ≡ 1)
          × ((i : ℕ) → with_handle.life.system.pid_bitmap i ≡ system.pid_bitmap i)
          × (with_handle.life.system.process_list ≡ system.process_list))
ends_once_example =
    ends_once system 200 true true success success success process registered process_lem refl refl
      two_steps
