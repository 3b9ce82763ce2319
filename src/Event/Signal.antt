-- ===== src/Event/Signal.antt =====
-- What `ExEventSignal` (src/HAL9000/src/ex_event.c) does with the threads that wait.
use good_osd_project.Prelude.{
  refl, ℕ, suc, ◌≡◌, true, false, List, [], ◌∷◌, ◌++◌, arith, length, sym, ◌∙◌, append_assoc,
  append-nil, count, if◌then◌else◌, ltb,
}
use good_osd_project.CommonLib.{ListOps}
use good_osd_project.Kernel.{
  done, Returns, Kernel, ready, Event, EventType, notification, synchronization,
}
use good_osd_project.Sched.{make_ready}
use good_osd_project.Sched.Unblock.{
  IsAsleep, unblock_asleep, make_ready-IsAsleep, ready_list-make_ready, states-make_ready,
}
use good_osd_project.Event.{signal_loop, signal, try_wait, enqueue}

-- The threads of a list are asleep, and no two of them are the same.
abbrev pub AllAsleep : Kernel → List ℕ → Type 0
AllAsleep k [] = Unit
AllAsleep k (t ∷ ts) = IsAsleep k t × (count t ts ≡ 0) × AllAsleep k ts

-- The thread that has waited longest, if there is one.
abbrev pub first : List ℕ → List ℕ
first [] = []
first (t ∷ ts) = t ∷ []

abbrev rest : List ℕ → List ℕ
rest [] = []
rest (t ∷ ts) = ts

module _ ⦃L : ListOps⦄ where
  -- What is wanted of a signal to all: every thread of the list is made ready, in its order.
  abbrev pub wake_all : List ℕ → Kernel → Kernel
  wake_all [] k = k
  wake_all (t ∷ ts) k = wake_all ts (make_ready k t)

  pub make_ready-AllAsleep :
      (k : Kernel) (t : ℕ) (ts : List ℕ)
      → count t ts ≡ 0
      → AllAsleep k ts
      → AllAsleep (make_ready k t) ts
  make_ready-AllAsleep k t [] n a = tt
  make_ready-AllAsleep k t (u ∷ ts) n (a, m, rest) = (
    make_ready-IsAsleep k t u (ground arith) a,
    m,
    make_ready-AllAsleep k t ts (ground arith) rest,
  )

  pub ready_list-wake_all :
      (ts : List ℕ) (k : Kernel) → (wake_all ts k).ready_list ≡ k.ready_list ++ ts
  ready_list-wake_all [] k = sym (append-nil k.ready_list)
  ready_list-wake_all (t ∷ ts) k =
      ready_list-wake_all ts (make_ready k t)
      ∙ (rw (ready_list-make_ready k t) (append_assoc k.ready_list (t ∷ []) ts))

  pub states-wake_all :
      (ts : List ℕ) (k : Kernel) (u : ℕ)
      → ((wake_all ts k).threads u).state
        ≡ (if ltb 0 (count u ts) then ready else (k.threads u).state)
  states-wake_all [] k u = refl
  states-wake_all (t ∷ ts) k u =
      states-wake_all ts (make_ready k t) u ∙ ground (arith, states-make_ready k t u)

  signal_loop-nil :
      (fuel : ℕ) (ty : EventType) (k : Kernel) → signal_loop (suc fuel) ty [] k ≡ done ([], k)
  unfolding signal_loop
  signal_loop-nil fuel ty k = ground (arith, L.remove_head_nil)

  signal_loop-notification :
      (fuel : ℕ) (t : ℕ) (ts : List ℕ) (k : Kernel)
      → IsAsleep k t
      → signal_loop (suc fuel) notification (t ∷ ts) k
        ≡ signal_loop fuel notification ts (make_ready k t)
  unfolding signal_loop
  signal_loop-notification fuel t ts k a =
      ground (arith, L.remove_head_cons t ts, unblock_asleep k t a)

  signal_loop-synchronization :
      (fuel : ℕ) (t : ℕ) (ts : List ℕ) (k : Kernel)
      → IsAsleep k t
      → signal_loop (suc fuel) synchronization (t ∷ ts) k ≡ done (ts, make_ready k t)
  unfolding signal_loop
  signal_loop-synchronization fuel t ts k a =
      ground (arith, L.remove_head_cons t ts, unblock_asleep k t a)

  signal_loop-all :
      (ts : List ℕ) (k : Kernel)
      → AllAsleep k ts
      → signal_loop (suc (length ts)) notification ts k ≡ done ([], wake_all ts k)
  signal_loop-all [] k a = signal_loop-nil 0 notification k
  signal_loop-all (t ∷ ts) k (a, n, rest) =
      signal_loop-notification (suc (length ts)) t ts k a
      ∙ signal_loop-all ts (make_ready k t) (make_ready-AllAsleep k t ts n rest)

  pub signal-all :
      (e : Event) (k : Kernel)
      → e.event_type ≡ notification
      → AllAsleep k e.waiting
      → signal e k ≡ done (record e { signaled = true; waiting = [] }, wake_all e.waiting k)
  unfolding signal
  signal-all e k ty a = rw (ty, signal_loop-all e.waiting k a) (ground arith)

  -- The signal of a notification event whose waiting threads are all asleep returns, and wakes them
  -- all: they go to the end of the ready list in the order in which they came, no thread waits any
  -- longer, and no other thread's state changes.
  pub signal_wakes_all :
      (e : Event) (k : Kernel)
      → e.event_type ≡ notification
      → AllAsleep k e.waiting
      → Returns
          (λ r.
            (r.0 ≡ record e { signaled = true; waiting = [] })
            × (r.1.ready_list ≡ k.ready_list ++ e.waiting)
            × ((u : ℕ)
                → (r.1.threads u).state
                  ≡ (if ltb 0 (count u e.waiting) then ready else (k.threads u).state)))
          (signal e k)
  signal_wakes_all e k ty a =
      rw (signal-all e k ty a) (refl, ready_list-wake_all e.waiting k, states-wake_all e.waiting k)

  first-rest : (w : List ℕ) → w ≡ first w ++ rest w
  first-rest [] = refl
  first-rest (t ∷ ts) = refl

  signal_loop-first :
      (w : List ℕ) (k : Kernel)
      → AllAsleep k (first w)
      → signal_loop (suc (length w)) synchronization w k ≡ done (rest w, wake_all (first w) k)
  signal_loop-first [] k a = signal_loop-nil 0 synchronization k
  signal_loop-first (t ∷ ts) k a = signal_loop-synchronization (suc (length ts)) t ts k a.0

  signal-first :
      (e : Event) (k : Kernel)
      → e.event_type ≡ synchronization
      → AllAsleep k (first e.waiting)
      → signal e k
        ≡ done
            (record e { signaled = true; waiting = rest e.waiting }, wake_all (first e.waiting) k)
  unfolding signal
  signal-first e k ty a = rw (ty, signal_loop-first e.waiting k a) (ground arith)

  -- The signal of a synchronization event whose first waiting thread, if there is one, is asleep
  -- returns with the signal set, and wakes that thread, which has waited longest, and it alone: it is
  -- ready and goes to the end of the ready list, the others wait on in their order, and no other
  -- thread's state changes. Where nobody waits, nobody is woken.
  pub signal_wakes_one :
      (e : Event) (k : Kernel)
      → e.event_type ≡ synchronization
      → AllAsleep k (first e.waiting)
      → Returns
          (λ r.
            (r.0.signaled ≡ true)
            × (r.0.event_type ≡ synchronization)
            × (e.waiting ≡ first e.waiting ++ r.0.waiting)
            × (r.1.ready_list ≡ k.ready_list ++ first e.waiting)
            × ((u : ℕ)
                → (r.1.threads u).state
                  ≡ (if ltb 0 (count u (first e.waiting)) then ready else (k.threads u).state)))
          (signal e k)
  signal_wakes_one e k ty a = rw (signal-first e k ty a) (
    refl,
    ty,
    first-rest e.waiting,
    ready_list-wake_all (first e.waiting) k,
    states-wake_all (first e.waiting) k,
  )

  -- A signal of an event that is not signaled and for which nobody waits, and that comes between a
  -- thread's failed test and its entry into the waiting list, is lost: the event is signaled,
  -- nobody has been woken, and the thread waits all the same.
  pub signal_lost :
      (e : Event) (k : Kernel) (t : ℕ)
      → e.signaled ≡ false
      → e.waiting ≡ []
      → ((try_wait e).0 ≡ false)
        × Returns
            (λ r.
              let e' = enqueue r.0 t in (r.1 ≡ k) × (e'.signaled ≡ true) × (e'.waiting ≡ t ∷ []))
            (signal (try_wait e).1 k)
  unfolding signal try_wait enqueue
  signal_lost e k t s w = ground (arith, signal_loop-nil 0 e.event_type k, L.insert_tail_lem [] t)
