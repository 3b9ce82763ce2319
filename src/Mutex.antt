-- ===== src/Mutex.antt =====
-- Mutexes with direct hand-over, src/HAL9000/src/mutex.c. A function runs as one step of CPU `c`, up to
-- the point where its thread blocks; `resume` is what the thread does when it runs again.
pub mod Fifo
pub mod Sound
use good_osd_project.Prelude.{
  ℕ, ◌+◌, ◌-◌, Bool, not, List, [], ltb, ◌==◌, if◌then◌else◌, some, none,
}
use good_osd_project.CommonLib.{ListOps}
use good_osd_project.Kernel.{Outcome, done, ◌>>=◌, ◌>>◌, assert, byte, null, Kernel}
use good_osd_project.Sched.{unblock}
use good_osd_project.Thread.{take_block_lock, block}

pub record Mutex : Type 0 where
  pub current_recursivity_depth : ℕ
  pub max_recursivity_depth : ℕ
  pub waiting_list : List ℕ
  pub holder : ℕ

-- `MUTEX_MAX_RECURSIVITY_DEPTH`
abbrev pub mutex_max_recursivity_depth : ℕ
mutex_max_recursivity_depth = 255

-- `MutexInit`
unfoldable pub init : Bool → Mutex
init recursive = record {
  current_recursivity_depth = 0;
  max_recursivity_depth = if recursive then mutex_max_recursivity_depth else 1;
  waiting_list = [];
  holder = null;
}

-- What a call of `MutexAcquire` has come to: it has returned, or its thread has blocked.
pub data Progress : Type 0 where
  acquired waits : Progress

abbrev pub Step : Type 0
Step = Progress × Mutex × Kernel

-- The branch for a free mutex.
unfoldable pub take_free : Mutex → ℕ → Mutex
take_free m t =
    if m.holder == null then record m { holder = t; current_recursivity_depth = 1 } else m

module _ ⦃L : ListOps⦄ where
  -- The loop of `MutexAcquire`: its test, and its body up to `ThreadBlock`.
  unfoldable pub resume : Mutex → Kernel → ℕ → Outcome Step
  resume m k c =
      let t = (k.cpus c).current_thread in
      if m.holder == t then done (acquired, m, k) else (do
        locked ← take_block_lock k c
        k' ← block locked c
        done (waits, record m { waiting_list = L.insert_tail m.waiting_list t }, k'))

  -- `MutexAcquire`
  unfoldable pub acquire : Mutex → Kernel → ℕ → Outcome Step
  unfolding resume take_free
  acquire m k c = do
    let t = (k.cpus c).current_thread
    assert (not (t == null))
    if t == m.holder
        then (do
          assert (ltb m.current_recursivity_depth m.max_recursivity_depth)
          let depth = byte (m.current_recursivity_depth + 1)
          done (acquired, record m { current_recursivity_depth = depth }, k))
        else resume (take_free m t) k c

  -- The part of `MutexRelease` under the mutex's lock.
  unfoldable pub hand_over : Mutex → Kernel → Outcome (Mutex × Kernel)
  hand_over m k = elim (L.remove_head m.waiting_list) [
    | none ↦ done (record m { holder = null }, k)
    | some (t, rest) ↦ do
      k' ← unblock k t
      done (record m { waiting_list = rest; holder = t; current_recursivity_depth = 1 }, k')
  ]

  -- `MutexRelease`
  unfoldable pub release : Mutex → Kernel → ℕ → Outcome (Mutex × Kernel)
  unfolding hand_over
  release m k c = do
    assert ((k.cpus c).current_thread == m.holder)
    let depth = m.current_recursivity_depth
    if ltb 1 depth
        then done (record m { current_recursivity_depth = depth - 1 }, k)
        else hand_over m k
