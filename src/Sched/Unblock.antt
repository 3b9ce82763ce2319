-- ===== src/Sched/Unblock.antt =====
-- What `ThreadUnblock` (src/HAL9000/src/thread.c) does to a thread that may be woken.
use good_osd_project.Prelude.{
  refl, ℕ, ◌+◌, ◌≡◌, ◌≢◌, none, [], ◌∷◌, ◌++◌, arith, ◌==◌, if◌then◌else◌, count, count-append,
}
use good_osd_project.CommonLib.{ListOps}
use good_osd_project.Kernel.{done, null, ready, blocked, Kernel}
use good_osd_project.Sched.{make_ready, unblock}

-- A thread that `ThreadUnblock` takes without a stop: it is blocked, and has left its CPU.
pub record IsAsleep (k : Kernel) (t : ℕ) : Type 0 where
  pub real : t ≢ null
  pub blocked_state : (k.threads t).state ≡ blocked
  pub unlocked : (k.threads t).block_lock ≡ none

module _ ⦃L : ListOps⦄ (k : Kernel) (t : ℕ) where
  pub unblock_asleep : IsAsleep k t → unblock k t ≡ done (make_ready k t)
  unfolding unblock
  unblock_asleep a = ground arith

  pub ready_list-make_ready : (make_ready k t).ready_list ≡ k.ready_list ++ t ∷ []
  unfolding make_ready
  ready_list-make_ready = L.insert_tail_lem k.ready_list t

  pub count-make_ready :
      (u : ℕ)
      → count u (make_ready k t).ready_list ≡ count u k.ready_list + (if t == u then 1 else 0)
  count-make_ready u =
      rw ready_list-make_ready (omega (arith, count-append u k.ready_list (t ∷ [])))

  pub states-make_ready :
      (u : ℕ) → ((make_ready k t).threads u).state ≡ (if t == u then ready else (k.threads u).state)
  unfolding make_ready
  states-make_ready u = ground arith

  pub locks-make_ready :
      (u : ℕ) → ((make_ready k t).threads u).block_lock ≡ (k.threads u).block_lock
  unfolding make_ready
  locks-make_ready u = ground arith

  pub cpus-make_ready : (make_ready k t).cpus ≡ k.cpus
  unfolding make_ready
  cpus-make_ready = refl

  -- Another thread stays asleep.
  pub make_ready-IsAsleep : (u : ℕ) → t ≢ u → IsAsleep k u → IsAsleep (make_ready k t) u
  make_ready-IsAsleep u ne a = record {
    real = a.real;
    blocked_state = ground (arith, states-make_ready u, a.blocked_state);
    unlocked = rw (locks-make_ready u) a.unlocked;
  }
