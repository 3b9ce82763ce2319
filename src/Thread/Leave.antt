-- ===== src/Thread/Leave.antt =====
-- The last steps of `ThreadExit` (src/HAL9000/src/thread.c): the process is told, and the CPU leaves
-- the thread.
use good_osd_project.Prelude.{
  ℕ, ◌≡◌, ◌≢◌, false, true, List, [], ◌∷◌, refl, arith, count, ◌==◌, ◌∙◌, inl, inr, Bool-cases, ◌⊎◌,
}
use good_osd_project.CommonLib.{ListOps}
use good_osd_project.Kernel.{
  Kernel, Process, Event, null, ready, dying, done, notification, is_owner, Returns, Returns-map,
  set_process,
}
use good_osd_project.Sched.{make_ready, schedule}
use good_osd_project.Event.Signal.{wake_all, signal-all, states-wake_all}
use good_osd_project.Process.{notify_thread_termination, decrement}
use good_osd_project.Thread.Invariant.{IsWellFormed, IsQueued, schedule-Scheduled}
use good_osd_project.Thread.Wake.{
  Sleepers, Same, Same-IsQueued, AllAsleep-keeps, wake_all-IsQueued, cpus-wake_all, locks-wake_all,
}

-- CPU `c` still runs a thread that has ended.
pub record Leaves (k : Kernel) (c t : ℕ) : Type 0 where
  pub queued : IsQueued k c
  pub here : (k.cpus c).current_thread ≡ t
  pub not_idle : t ≢ (k.cpus c).idle_thread
  pub ended : (k.threads t).state ≡ dying
  pub unlocked : is_owner (k.threads t).block_lock c ≡ false

pub Same-Leaves :
    {k k' : Kernel} {c t : ℕ}
    → Same k k'
    → (k'.threads t).block_lock ≡ (k.threads t).block_lock
    → Leaves k c t
    → Leaves k' c t
Same-Leaves {t = t} s e l = record {
  queued = Same-IsQueued s l.queued;
  here = rw s.cpus l.here;
  not_idle = rw s.cpus l.not_idle;
  ended = s.states t ∙ l.ended;
  unlocked = rw e l.unlocked;
}

-- The end of a thread as the others see it: it stands in no list, no CPU runs it, and it stays dying.
pub record IsGone (k : Kernel) (c t : ℕ) : Type 0 where
  pub ended : (k.threads t).state ≡ dying
  pub unlisted : count t k.ready_list ≡ 0
  pub left : (k.cpus c).current_thread ≢ t

module _ ⦃L : ListOps⦄ where
  pub wake-Leaves :
      (ts : List ℕ) (k : Kernel) (c t : ℕ)
      → Sleepers k ts
      → Leaves k c t
      → Leaves (wake_all ts k) c t
  wake-Leaves ts k c t s l = record {
    queued = wake_all-IsQueued ts k c l.queued s;
    here = rw (cpus-wake_all ts k) l.here;
    not_idle = rw (cpus-wake_all ts k) l.not_idle;
    ended = ground (arith, states-wake_all ts k t, l.ended, s.not_current c, l.here);
    unlocked = rw (locks-wake_all ts k t) l.unlocked;
  }

  -- What a call keeps for a thread that leaves, and for those that are ready.
  abbrev pub Kept : Kernel → (c t : ℕ) → Kernel → Type 0
  Kept k c t k' =
      Leaves k' c t × ((u : ℕ) → (k.threads u).state ≡ ready → (k'.threads u).state ≡ ready)

  Sleepers-set_process :
      (k : Kernel) (p : ℕ) (v : Process) (ts : List ℕ)
      → Sleepers k ts
      → Sleepers (set_process k p v) ts
  Sleepers-set_process k p v ts s = record {
    asleep = AllAsleep-keeps k (set_process k p v) ts (λ t h. (refl, refl)) s.asleep;
    not_current = s.not_current;
    not_idle = s.not_idle;
  }

  set_process-Leaves :
      (k : Kernel) (p : ℕ) (v : Process) (c t : ℕ) → Leaves k c t → Leaves (set_process k p v) c t
  set_process-Leaves k p v c t l =
      Same-Leaves (record { queue = refl; cpus = refl; states = λ u. refl }) refl l

  module _ (k : Kernel) (c t : ℕ) where
    abbrev pub own : ℕ
    own = (k.threads t).process

    abbrev pub event : Event
    event = (k.processes own).termination_evt

    -- The two ways in which `notify_thread_termination` goes.
    abbrev Notified : Type 0
    Notified =
        (v w : Process) × ((notify_thread_termination k t ≡ done (set_process k own v))
          ⊎ (notify_thread_termination k t
              ≡ done (set_process (wake_all event.waiting (set_process k own v)) own w)))

    notify-Notified :
        t ≢ null
        → own ≢ null
        → event.event_type ≡ notification
        → Sleepers k event.waiting
        → Notified
    unfolding notify_thread_termination
    notify-Notified real real_p ty s =
        let n = decrement (k.processes own).active_threads in
        let counted : Process = record (k.processes own) { active_threads = n } in
        let v : Process = record counted { termination_status = (k.threads t).exit_status } in
        let k₁ = set_process k own v in
        let w : Process = record ((wake_all event.waiting k₁).processes own) {
          termination_evt = record event { signaled = true; waiting = [] };
        } in
        elim (Bool-cases (n == 0)) [
          | inl e ↦ (
            v,
            w,
            inr (
                ground (
                  arith,
                  signal-all event k₁ ty (Sleepers-set_process k own v event.waiting s).asleep,
                )),
          )
          | inr e ↦ (counted, counted, inl (ground arith))
        ]

    pub notify-Kept :
        t ≢ null
        → own ≢ null
        → event.event_type ≡ notification
        → Sleepers k event.waiting
        → Leaves k c t
        → Returns (Kept k c t) (notify_thread_termination k t)
    notify-Kept real real_p ty s l = go (notify-Notified real real_p ty s)
      where
        go : Notified → Returns (Kept k c t) (notify_thread_termination k t)
        go (v, w, inl e) = rw e (set_process-Leaves k own v c t l, λ u h. h)
        go (v, w, inr e) =
            let k₁ = set_process k own v in
            rw e (
              set_process-Leaves (wake_all event.waiting k₁) own w c t (
                  wake-Leaves event.waiting k₁ c t (Sleepers-set_process k own v event.waiting s)
                    (set_process-Leaves k own v c t l)),
              λ u h. ground (arith, states-wake_all event.waiting k₁ u, h),
            )

  pub leave-IsGone :
      (k : Kernel) (c t : ℕ)
      → Leaves k c t
      → Returns
          (λ k'.
            IsWellFormed k'
            × IsGone k' c t
            × ((u : ℕ) → (k.threads u).state ≡ ready → (k'.threads u).state ≡ ready))
          (schedule k c)
  leave-IsGone k c t l =
      Returns-map (schedule k c)
        (λ k' s. (
          s.well_formed,
          record {
            ended = s.switched.states t ∙ l.ended;
            unlisted = ground (arith, s.well_formed.members_ready t, s.switched.states t, l.ended);
            left = ground (arith, s.switched.runs, s.may_run, l.ended, l.not_idle);
          },
          λ u e. s.switched.states u ∙ e,
        ))
        (schedule-Scheduled l.queued (rw l.here (λ h. ground (arith, l.unlocked))))

  process-make_ready :
      (k : Kernel) (t u : ℕ) → ((make_ready k t).threads u).process ≡ (k.threads u).process
  unfolding make_ready
  process-make_ready k t u = ground arith

  pub process-wake_all :
      (ts : List ℕ) (k : Kernel) (u : ℕ)
      → ((wake_all ts k).threads u).process ≡ (k.threads u).process
  process-wake_all [] k u = refl
  process-wake_all (t ∷ ts) k u = process-wake_all ts (make_ready k t) u ∙ process-make_ready k t u
