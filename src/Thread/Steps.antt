-- ===== src/Thread/Steps.antt =====
-- `ThreadYield`, `ThreadBlock` and `ThreadUnblock` (src/HAL9000/src/thread.c) keep the invariant.
use good_osd_project.Prelude.{
  if◌then◌else◌, ◌==◌, ◌&&◌, ℕ, List, ◌+◌, ◌≡◌, ◌≢◌, true, false, [], ◌∷◌, arith, count,
  count-append, eq_cases, not, none, some, ◌++◌, ◌∙◌,
}
use good_osd_project.Sched.Switch.{MayLeave}
use good_osd_project.Sched.{unblock, make_ready}
use good_osd_project.Sched.Unblock.{
  IsAsleep, unblock_asleep, count-make_ready, states-make_ready, cpus-make_ready,
  ready_list-make_ready,
}
use good_osd_project.CommonLib.{ListOps}
use good_osd_project.Kernel.{Kernel, ready, null, Returns, Returns-map, is_owner, set_thread, done}
use good_osd_project.Thread.{
  yield, block, schedule, force_terminate_pending, enter_ready, enter_blocked, take_block_lock,
}
use good_osd_project.Thread.Invariant.{
  IsWellFormed, IsQueued, schedule-IsWellFormed, schedule-Scheduled, Scheduled,
}

append-snoc : (l : List ℕ) (a : ℕ) → l ++ a ∷ [] ≢ []
append-snoc [] a e = ground arith
append-snoc (x ∷ l) a e = ground arith

module _ ⦃L : ListOps⦄ {k : Kernel} (c : ℕ) (w : IsWellFormed k) where
  abbrev current : ℕ
  current = (k.cpus c).current_thread

  pub enter_ready-cpus :
      (d : ℕ)
      → (((enter_ready k c).cpus d).current_thread ≡ (k.cpus d).current_thread)
        × (((enter_ready k c).cpus d).idle_thread ≡ (k.cpus d).idle_thread)
  unfolding enter_ready
  enter_ready-cpus d = ground arith

  pub count-enter_ready :
      (t : ℕ)
      → count t (enter_ready k c).ready_list
        ≡ count t k.ready_list
          + (if (current == t) && not (current == (k.cpus c).idle_thread) then 1 else 0)
  unfolding enter_ready
  count-enter_ready t =
      ground
        (arith, L.insert_tail_lem k.ready_list current, count-append t k.ready_list (current ∷ []))

  enter_ready-states :
      (t : ℕ)
      → ((enter_ready k c).threads t).state ≡ (if current == t then ready else (k.threads t).state)
  unfolding enter_ready
  enter_ready-states t = ground arith

  pub ready_list-enter_ready :
      current ≢ (k.cpus c).idle_thread → (enter_ready k c).ready_list ≡ k.ready_list ++ current ∷ []
  unfolding enter_ready
  ready_list-enter_ready busy = ground (arith, L.insert_tail_lem k.ready_list current)

  -- The thread that has yielded stands behind those that waited, and the CPU runs the first of them.
  line-Scheduled :
      {k' : Kernel}
      → current ≢ (k.cpus c).idle_thread
      → (q : IsQueued (enter_ready k c) c) → Scheduled q k'
      → (k'.cpus c).current_thread ∷ k'.ready_list ≡ k.ready_list ++ current ∷ []
  line-Scheduled busy q s =
      let e = ready_list-enter_ready busy in
      let n = append-snoc k.ready_list current in
      ground (arith, s.in_line, s.switched.runs, s.switched.queue, e)

  pub enter_ready-IsQueued : IsQueued (enter_ready k c) c
  enter_ready-IsQueued = record {
    once = λ t. ground (arith, count-enter_ready t, w.once t, w.current_out c);
    members_ready =
        λ t h. ground (arith, enter_ready-states t, count-enter_ready t, w.members_ready t, h);
    members_real = ground (arith, count-enter_ready null, w.members_real, w.current_real c);
    current_out = λ d ne. rw (enter_ready-cpus d).0 (
        ground (
          arith,
          count-enter_ready (k.cpus d).current_thread,
          w.current_out d,
          w.current_apart c d ne,
        ));
    idle_out = λ d. rw (enter_ready-cpus d).1 (
        ground (
          arith,
          count-enter_ready (k.cpus d).idle_thread,
          w.idle_out d,
          eq_cases c d,
          w.idle_apart c d,
        ));
    current_real = λ d. rw (enter_ready-cpus d).0 (w.current_real d);
    idle_real = λ d. rw (enter_ready-cpus d).1 (w.idle_real d);
    current_apart =
        λ d e _ _ ne. rw ((enter_ready-cpus d).0, (enter_ready-cpus e).0) (w.current_apart d e ne);
    idle_apart =
        λ d e _ ne. rw ((enter_ready-cpus d).0, (enter_ready-cpus e).1) (w.idle_apart d e ne);
    idles_apart =
        λ d e ne. rw ((enter_ready-cpus d).1, (enter_ready-cpus e).1) (w.idles_apart d e ne);
  }

  enter_blocked-IsQueued : IsQueued (enter_blocked k c) c
  unfolding enter_blocked
  enter_blocked-IsQueued = record {
    once = w.once;
    members_ready = λ t h. ground (arith, w.members_ready t h, w.current_out c);
    members_real = w.members_real;
    current_out = λ d ne. w.current_out d;
    idle_out = w.idle_out;
    current_real = w.current_real;
    idle_real = w.idle_real;
    current_apart = λ d e _ _ ne. w.current_apart d e ne;
    idle_apart = λ d e _ ne. w.idle_apart d e ne;
    idles_apart = w.idles_apart;
  }

  pub enter_ready-MayLeave :
      is_owner (k.threads current).block_lock c ≡ false
      → let k' = enter_ready k c in MayLeave k' c (k'.cpus c).current_thread
  unfolding enter_ready
  enter_ready-MayLeave free = ground arith

  enter_blocked-MayLeave : let k' = enter_blocked k c in MayLeave k' c (k'.cpus c).current_thread
  unfolding enter_blocked
  enter_blocked-MayLeave = ground arith

  module _ (live : (k.threads current).flags ≢ force_terminate_pending) where
    pub yield-eq : yield k c ≡ schedule (enter_ready k c) c
    unfolding yield
    yield-eq = ground (arith, w.current_real c)

    block-eq :
        is_owner (k.threads current).block_lock c ≡ true
        → block k c ≡ schedule (enter_blocked k c) c
    unfolding block
    block-eq held = ground arith

    -- A thread of a well-formed kernel that holds no block lock of this CPU and is not to be
    -- terminated yields the CPU, where the lock of the ready list is free: no assertion fails, the
    -- scheduler's invariant holds again, the thread is ready, and no other thread's state changes. If
    -- it is not the idle thread, the CPU runs the first of the threads that waited, or this one where
    -- none did, and the others wait in their order with this one behind them.
    pub yield-IsWellFormed :
        is_owner (k.threads current).block_lock c ≡ false
        → Returns
            (λ k'.
              IsWellFormed k'
              × ((t : ℕ)
                  → (k'.threads t).state ≡ (if current == t then ready else (k.threads t).state))
              × (current ≢ (k.cpus c).idle_thread
                  → (k'.cpus c).current_thread ∷ k'.ready_list ≡ k.ready_list ++ current ∷ []))
            (yield k c)
    yield-IsWellFormed free = rw yield-eq (
        Returns-map (schedule (enter_ready k c) c)
          (λ k' s. (
            s.well_formed,
            (λ t. s.switched.states t ∙ enter_ready-states t),
            (λ busy. line-Scheduled busy enter_ready-IsQueued s),
          ))
          (schedule-Scheduled enter_ready-IsQueued (enter_ready-MayLeave free)))

    -- A thread of a well-formed kernel that holds its own block lock and is not to be terminated
    -- blocks: no assertion fails, and the scheduler's invariant holds again.
    pub block-IsWellFormed :
        is_owner (k.threads current).block_lock c ≡ true → Returns IsWellFormed (block k c)
    block-IsWellFormed held =
        rw (block-eq held) (schedule-IsWellFormed enter_blocked-IsQueued enter_blocked-MayLeave)

make_ready-IsWellFormed :
    ⦃L : ListOps⦄ {k : Kernel} (t : ℕ)
    → IsWellFormed k
    → IsAsleep k t
    → ((c : ℕ) → t ≢ (k.cpus c).current_thread)
    → ((c : ℕ) → t ≢ (k.cpus c).idle_thread)
    → IsWellFormed (make_ready k t)
make_ready-IsWellFormed {k} t w a nc ni = record {
  once = λ u. ground (arith, count-make_ready k t u, w.once u, w.members_ready u, a.blocked_state);
  members_ready =
      λ u h. ground (arith, count-make_ready k t u, states-make_ready k t u, w.members_ready u);
  members_real = ground (arith, count-make_ready k t null, w.members_real, a.real);
  current_out = λ c.
      rw (cpus-make_ready k t)
        (ground (arith, count-make_ready k t (k.cpus c).current_thread, w.current_out c, nc c));
  idle_out = λ c.
      rw (cpus-make_ready k t)
        (ground (arith, count-make_ready k t (k.cpus c).idle_thread, w.idle_out c, ni c));
  current_real = rw (cpus-make_ready k t) w.current_real;
  idle_real = rw (cpus-make_ready k t) w.idle_real;
  current_apart = rw (cpus-make_ready k t) w.current_apart;
  idle_apart = rw (cpus-make_ready k t) w.idle_apart;
  idles_apart = rw (cpus-make_ready k t) w.idles_apart;
}

-- In a well-formed kernel, a blocked thread that no CPU runs, not even as its idle thread, and
-- whose block lock is free is unblocked: no assertion fails, and the scheduler's invariant is kept.
-- The thread is ready and stands at the end of the ready list, behind those that were there; no
-- other thread's state changes, and every CPU runs the thread that it ran.
pub unblock-IsWellFormed :
    ⦃L : ListOps⦄ {k : Kernel} (t : ℕ)
    → IsWellFormed k
    → IsAsleep k t
    → ((c : ℕ) → t ≢ (k.cpus c).current_thread)
    → ((c : ℕ) → t ≢ (k.cpus c).idle_thread)
    → Returns
        (λ k'.
          IsWellFormed k'
          × (k'.ready_list ≡ k.ready_list ++ t ∷ [])
          × ((u : ℕ) → (k'.threads u).state ≡ (if t == u then ready else (k.threads u).state))
          × (k'.cpus ≡ k.cpus))
        (unblock k t)
unblock-IsWellFormed {k} t w a nc ni = rw (unblock_asleep k t a) (
  make_ready-IsWellFormed t w a nc ni,
  ready_list-make_ready k t,
  states-make_ready k t,
  cpus-make_ready k t,
)

-- `ThreadTakeBlockLock` goes through where the lock is free, and changes nothing else.
pub locked : Kernel → ℕ → Kernel
locked k c =
    let t = (k.cpus c).current_thread in
    set_thread k t (record (k.threads t) { block_lock = some c })

module _ (k : Kernel) (c : ℕ) where
  pub take_block_lock-eq :
      (k.threads (k.cpus c).current_thread).block_lock ≡ none
      → take_block_lock k c ≡ done (locked k c)
  unfolding take_block_lock locked
  take_block_lock-eq free = ground arith

  pub locked-IsWellFormed : IsWellFormed k → IsWellFormed (locked k c)
  unfolding locked
  locked-IsWellFormed w = record {
    once = w.once;
    members_ready = λ t h. ground (arith, w.members_ready t h);
    members_real = w.members_real;
    current_out = w.current_out;
    idle_out = w.idle_out;
    current_real = w.current_real;
    idle_real = w.idle_real;
    current_apart = w.current_apart;
    idle_apart = w.idle_apart;
    idles_apart = w.idles_apart;
  }

  -- A thread that takes its block lock and blocks, as the waits of mutexes and events do.
  pub block-locked :
      ⦃L : ListOps⦄
      → IsWellFormed k
      → (k.threads (k.cpus c).current_thread).flags ≢ force_terminate_pending
      → Returns IsWellFormed (block (locked k c) c)
  unfolding locked
  block-locked w live =
      block-IsWellFormed c (locked-IsWellFormed w) (λ e. ground arith) (ground arith)
