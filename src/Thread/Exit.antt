-- ===== src/Thread/Exit.antt =====
-- The end of a thread, `ThreadExit` (src/HAL9000/src/thread.c).
use good_osd_project.Prelude.{
  ℕ, ◌≡◌, ◌≢◌, ◌<◌, none, true, List, [], refl, arith, count, if◌then◌else◌, ◌∙◌, ap, inl, inr,
  Bool-cases,
}
use good_osd_project.CommonLib.{ListOps}
use good_osd_project.Kernel.{
  ◌>>=◌, Kernel, Thread, Event, null, ready, dying, notification, Status, is_owner, Returns,
  Returns->>=, Returns-map, set_thread,
}
use good_osd_project.Sched.{schedule}
use good_osd_project.Event.Signal.{wake_all, signal-all, states-wake_all}
use good_osd_project.Process.{notify_thread_termination}
use good_osd_project.Process.Members.{processes-wake_all}
use good_osd_project.Thread.{exit}
use good_osd_project.Thread.Invariant.{IsWellFormed}
use good_osd_project.Thread.Wake.{Sleepers, AllAsleep-keeps, cpus-wake_all, locks-wake_all}
use good_osd_project.Thread.Leave.{
  Leaves, IsGone, event, process-wake_all, notify-Kept, Same-Leaves, wake-Leaves, leave-IsGone,
}

module _ (k : Kernel) (c : ℕ) where
  abbrev pub current : ℕ
  current = (k.cpus c).current_thread

  -- Who waits for the end of the current thread, and who for the end of its process.
  abbrev pub thread_evt : Event
  thread_evt = (k.threads current).termination_evt

  abbrev pub process_evt : Event
  process_evt = (k.processes (k.threads current).process).termination_evt

-- A thread that may end: it is not its CPU's idle thread, and the threads that wait for it and for
-- its process are asleep, each for one of the two.
pub record CanExit (k : Kernel) (c : ℕ) : Type 0 where
  pub well_formed : IsWellFormed k
  pub not_idle : current k c ≢ (k.cpus c).idle_thread
  pub in_process : (k.threads (current k c)).process ≢ null
  pub thread_type : (thread_evt k c).event_type ≡ notification
  pub process_type : (process_evt k c).event_type ≡ notification
  pub joiners : Sleepers k (thread_evt k c).waiting
  pub watchers : Sleepers k (process_evt k c).waiting
  pub apart : (u : ℕ) → 0 < count u (thread_evt k c).waiting → count u (process_evt k c).waiting ≡ 0

module _ ⦃L : ListOps⦄ (k : Kernel) (c : ℕ) (status : Status) (x : CanExit k c) where
  abbrev t : ℕ
  t = current k c

  abbrev joining : List ℕ
  joining = (thread_evt k c).waiting

  abbrev dead : Thread
  dead =
      let thread = k.threads t in
      record thread {
        block_lock = if is_owner thread.block_lock c then none else thread.block_lock;
        state = dying;
        exit_status = status;
      }

  abbrev k₀ : Kernel
  k₀ = set_thread k t dead

  abbrev k₁ : Kernel
  k₁ = wake_all joining k₀

  abbrev k₂ : Kernel
  k₂ = set_thread k₁ t (record (k₁.threads t) {
    termination_evt = record (thread_evt k c) { signaled = true; waiting = [] };
  })

  k₀-Leaves : Leaves k₀ c t
  k₀-Leaves = record {
    queued = record {
      once = x.well_formed.once;
      members_ready =
          λ u h. ground (arith, x.well_formed.members_ready u h, x.well_formed.current_out c);
      members_real = x.well_formed.members_real;
      current_out = λ d ne. x.well_formed.current_out d;
      idle_out = x.well_formed.idle_out;
      current_real = x.well_formed.current_real;
      idle_real = x.well_formed.idle_real;
      current_apart = λ d e _ _ ne. x.well_formed.current_apart d e ne;
      idle_apart = λ d e _ ne. x.well_formed.idle_apart d e ne;
      idles_apart = x.well_formed.idles_apart;
    };
    here = refl;
    not_idle = x.not_idle;
    ended = ground arith;
    unlocked = elim (Bool-cases (is_owner (k.threads t).block_lock c)) [
      | inl e ↦ ground arith
      | inr e ↦ ground arith
    ];
  }

  -- Whoever sleeps is not the thread that ends.
  others-keep :
      (ts : List ℕ) (u : ℕ)
      → Sleepers k ts
      → 0 < count u ts
      → ((k₀.threads u).state ≡ (k.threads u).state)
        × ((k₀.threads u).block_lock ≡ (k.threads u).block_lock)
  others-keep ts u s h = ground (arith, s.not_current c)

  k₀-Sleepers : (ts : List ℕ) → Sleepers k ts → Sleepers k₀ ts
  k₀-Sleepers ts s = record {
    asleep = AllAsleep-keeps k k₀ ts (λ u. others-keep ts u s) s.asleep;
    not_current = s.not_current;
    not_idle = s.not_idle;
  }

  k₂-Leaves : Leaves k₂ c t
  k₂-Leaves =
      Same-Leaves (record { queue = refl; cpus = refl; states = λ u. ground arith }) (ground arith)
        (wake-Leaves joining k₀ c t (k₀-Sleepers joining x.joiners) k₀-Leaves)

  k₂-own : (k₂.threads t).process ≡ (k.threads t).process
  k₂-own = ground (arith, process-wake_all joining k₀ t)

  k₂-event : event k₂ c t ≡ process_evt k c
  k₂-event =
      ap (λ p. (k₂.processes p).termination_evt) k₂-own
      ∙ ap (λ ps. (ps (k.threads t).process).termination_evt) (processes-wake_all joining k₀)

  k₂-Sleepers : Sleepers k₂ (process_evt k c).waiting
  k₂-Sleepers = record {
    asleep =
        AllAsleep-keeps k k₂ (process_evt k c).waiting
          (λ u h.
            let s = others-keep (process_evt k c).waiting u x.watchers h in
            (
              ground (arith, states-wake_all joining k₀ u, s, x.apart u),
              ground (arith, locks-wake_all joining k₀ u, s),
            ))
          x.watchers.asleep;
    not_current = λ d. rw (cpus-wake_all joining k₀) (x.watchers.not_current d);
    not_idle = λ d. rw (cpus-wake_all joining k₀) (x.watchers.not_idle d);
  }

  exit-eq : exit k c status ≡ (notify_thread_termination k₂ t >>= λ k'. schedule k' c)
  unfolding exit
  exit-eq = ground (
    arith,
    signal-all dead.termination_evt k₀ x.thread_type (k₀-Sleepers joining x.joiners).asleep,
  )

  k₂-joined : (u : ℕ) → 0 < count u joining → (k₂.threads u).state ≡ ready
  k₂-joined u h = ground (arith, states-wake_all joining k₀ u)

  -- A thread of a well-formed kernel, not an idle thread, ends, with notification events for its
  -- end and its process's, and with the threads that wait for these asleep, each for one of the
  -- two: no assertion fails, the scheduler's invariant holds again, the thread is dying, in no list
  -- of ready threads and not on its CPU, and every thread that waited for its end is ready.
  pub exit-IsGone :
      Returns
        (λ k'.
          IsWellFormed k'
          × IsGone k' c t
          × ((u : ℕ) → 0 < count u joining → (k'.threads u).state ≡ ready))
        (exit k c status)
  exit-IsGone = rw exit-eq (
      Returns->>= _ (notify_thread_termination k₂ t) _
        (notify-Kept k₂ c t (x.well_formed.current_real c) (rw k₂-own x.in_process)
          (rw k₂-event x.process_type) (rw k₂-event k₂-Sleepers) k₂-Leaves)
        (λ k₃ kept.
          Returns-map (schedule k₃ c) (λ k' r. (r.0, r.1, λ u h. r.2 u (kept.1 u (k₂-joined u h))))
            (leave-IsGone k₃ c t kept.0)))
