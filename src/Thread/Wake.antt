-- ===== src/Thread/Wake.antt =====
-- Waking a list of threads (`ExEventSignal`, src/HAL9000/src/ex_event.c) before the scheduler is called.
use good_osd_project.Prelude.{ℕ, ◌≡◌, ◌≢◌, ◌<◌, List, [], ◌∷◌, refl, arith, count, ◌∙◌, subst}
use good_osd_project.CommonLib.{ListOps}
use good_osd_project.Kernel.{Kernel, null}
use good_osd_project.Sched.{make_ready}
use good_osd_project.Sched.Unblock.{
  IsAsleep, count-make_ready, states-make_ready, cpus-make_ready, locks-make_ready,
}
use good_osd_project.Event.Signal.{AllAsleep, wake_all, make_ready-AllAsleep}
use good_osd_project.Thread.Invariant.{IsQueued}

-- Threads that are asleep, and that no CPU runs or has as its idle thread.
pub record Sleepers (k : Kernel) (ts : List ℕ) : Type 0 where
  pub asleep : AllAsleep k ts
  pub not_current : (d : ℕ) → count (k.cpus d).current_thread ts ≡ 0
  pub not_idle : (d : ℕ) → count (k.cpus d).idle_thread ts ≡ 0

-- What the invariant and the sleepers see of a kernel.
pub record Same (k k' : Kernel) : Type 0 where
  pub queue : k'.ready_list ≡ k.ready_list
  pub cpus : k'.cpus ≡ k.cpus
  pub states : (t : ℕ) → (k'.threads t).state ≡ (k.threads t).state

pub Same-IsQueued : {k k' : Kernel} {c : ℕ} → Same k k' → IsQueued k c → IsQueued k' c
Same-IsQueued {k} {k'} s q = record {
  once = λ t. rw s.queue (q.once t);
  members_ready = λ t h. s.states t ∙ q.members_ready t (subst (λ l. 0 < count t l) s.queue h);
  members_real = rw s.queue q.members_real;
  current_out = λ d ne. rw (s.queue, s.cpus) (q.current_out d ne);
  idle_out = λ d. rw (s.queue, s.cpus) (q.idle_out d);
  current_real = rw s.cpus q.current_real;
  idle_real = rw s.cpus q.idle_real;
  current_apart = rw s.cpus q.current_apart;
  idle_apart = rw s.cpus q.idle_apart;
  idles_apart = rw s.cpus q.idles_apart;
}

-- Threads stay asleep when others change.
pub AllAsleep-keeps :
    (k k' : Kernel) (ts : List ℕ)
    → ((t : ℕ)
        → 0 < count t ts
        → ((k'.threads t).state ≡ (k.threads t).state)
          × ((k'.threads t).block_lock ≡ (k.threads t).block_lock))
    → AllAsleep k ts
    → AllAsleep k' ts
AllAsleep-keeps k k' [] same a = tt
AllAsleep-keeps k k' (t ∷ ts) same (a, n, rest) = (
  (let s = same t (ground arith) in
      record { real = a.real; blocked_state = s.0 ∙ a.blocked_state; unlocked = s.1 ∙ a.unlocked }),
  n,
  AllAsleep-keeps k k' ts (λ u h. same u (ground arith)) rest,
)

module _ ⦃L : ListOps⦄ where
  make_ready-IsQueued :
      (k : Kernel) (c t : ℕ)
      → IsQueued k c
      → IsAsleep k t
      → ((d : ℕ) → t ≢ (k.cpus d).current_thread)
      → ((d : ℕ) → t ≢ (k.cpus d).idle_thread)
      → IsQueued (make_ready k t) c
  make_ready-IsQueued k c t q a nc ni = record {
    once =
        λ u. ground (arith, count-make_ready k t u, q.once u, q.members_ready u, a.blocked_state);
    members_ready =
        λ u h. ground (arith, count-make_ready k t u, states-make_ready k t u, q.members_ready u);
    members_real = ground (arith, count-make_ready k t null, q.members_real, a.real);
    current_out = λ d ne.
        rw (cpus-make_ready k t) (
          ground (arith, count-make_ready k t (k.cpus d).current_thread, q.current_out d ne, nc d));
    idle_out = λ d.
        rw (cpus-make_ready k t)
          (ground (arith, count-make_ready k t (k.cpus d).idle_thread, q.idle_out d, ni d));
    current_real = rw (cpus-make_ready k t) q.current_real;
    idle_real = rw (cpus-make_ready k t) q.idle_real;
    current_apart = rw (cpus-make_ready k t) q.current_apart;
    idle_apart = rw (cpus-make_ready k t) q.idle_apart;
    idles_apart = rw (cpus-make_ready k t) q.idles_apart;
  }

  -- Threads that sleep can be woken, in whatever state a CPU calls the scheduler.
  pub wake_all-IsQueued :
      (ts : List ℕ) (k : Kernel) (c : ℕ) → IsQueued k c → Sleepers k ts → IsQueued (wake_all ts k) c
  wake_all-IsQueued [] k c q s = q
  wake_all-IsQueued (t ∷ ts) k c q s =
      let (a, n, rest) = s.asleep in
      wake_all-IsQueued ts (make_ready k t) c
        (make_ready-IsQueued k c t q a (λ d e. ground (arith, s.not_current d))
          (λ d e. ground (arith, s.not_idle d)))
        (record {
          asleep = make_ready-AllAsleep k t ts n rest;
          not_current = λ d. rw (cpus-make_ready k t) (ground (arith, s.not_current d));
          not_idle = λ d. rw (cpus-make_ready k t) (ground (arith, s.not_idle d));
        })

  pub cpus-wake_all : (ts : List ℕ) (k : Kernel) → (wake_all ts k).cpus ≡ k.cpus
  cpus-wake_all [] k = refl
  cpus-wake_all (t ∷ ts) k = cpus-wake_all ts (make_ready k t) ∙ cpus-make_ready k t

  pub locks-wake_all :
      (ts : List ℕ) (k : Kernel) (u : ℕ)
      → ((wake_all ts k).threads u).block_lock ≡ (k.threads u).block_lock
  locks-wake_all [] k u = refl
  locks-wake_all (t ∷ ts) k u = locks-wake_all ts (make_ready k t) u ∙ locks-make_ready k t u
