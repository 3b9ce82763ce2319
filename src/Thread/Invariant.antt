-- ===== src/Thread/Invariant.antt =====
-- The invariant of the scheduler, which `_ThreadSchedule` (src/HAL9000/src/thread.c) restores.
use good_osd_project.Prelude.{
  refl, ℕ, ◌≤◌, ◌<◌, ◌≡◌, ◌≢◌, List, [], ◌∷◌, arith, count, eq_cases, ◌⊎◌, inl, inr, sym, ap,
}
use good_osd_project.Sched.Switch.{Switched, schedule-head, schedule-idle, MayLeave}
use good_osd_project.CommonLib.{ListOps}
use good_osd_project.Kernel.{Kernel, ready, null, Returns, Returns-map}
use good_osd_project.Thread.{schedule}

pub record IsWellFormed (k : Kernel) : Type 0 where
  pub once : (t : ℕ) → count t k.ready_list ≤ 1
  pub members_ready : (t : ℕ) → 0 < count t k.ready_list → (k.threads t).state ≡ ready
  pub members_real : count null k.ready_list ≡ 0
  pub current_out : (c : ℕ) → count (k.cpus c).current_thread k.ready_list ≡ 0
  pub idle_out : (c : ℕ) → count (k.cpus c).idle_thread k.ready_list ≡ 0
  pub current_real : (c : ℕ) → (k.cpus c).current_thread ≢ null
  pub idle_real : (c : ℕ) → (k.cpus c).idle_thread ≢ null
  pub current_apart : (c d : ℕ) → c ≢ d → (k.cpus c).current_thread ≢ (k.cpus d).current_thread
  pub idle_apart : (c d : ℕ) → c ≢ d → (k.cpus c).current_thread ≢ (k.cpus d).idle_thread
  pub idles_apart : (c d : ℕ) → c ≢ d → (k.cpus c).idle_thread ≢ (k.cpus d).idle_thread

-- The state in which CPU `c` may call `schedule`: its own current thread may stand in the list.
pub record IsQueued (k : Kernel) (c : ℕ) : Type 0 where
  pub once : (t : ℕ) → count t k.ready_list ≤ 1
  pub members_ready : (t : ℕ) → 0 < count t k.ready_list → (k.threads t).state ≡ ready
  pub members_real : count null k.ready_list ≡ 0
  pub current_out : (d : ℕ) → c ≢ d → count (k.cpus d).current_thread k.ready_list ≡ 0
  pub idle_out : (d : ℕ) → count (k.cpus d).idle_thread k.ready_list ≡ 0
  pub current_real : (d : ℕ) → (k.cpus d).current_thread ≢ null
  pub idle_real : (d : ℕ) → (k.cpus d).idle_thread ≢ null
  pub current_apart :
      (d e : ℕ) → c ≢ d → c ≢ e → d ≢ e → (k.cpus d).current_thread ≢ (k.cpus e).current_thread
  pub idle_apart : (d e : ℕ) → c ≢ d → d ≢ e → (k.cpus d).current_thread ≢ (k.cpus e).idle_thread
  pub idles_apart : (d e : ℕ) → d ≢ e → (k.cpus d).idle_thread ≢ (k.cpus e).idle_thread

-- A thread that may run next on CPU `c`, with the list that it leaves behind.
pub record IsNext (k : Kernel) (c next : ℕ) (rest : List ℕ) : Type 0 where
  pub fewer : (t : ℕ) → count t rest ≤ count t k.ready_list
  pub taken : count next rest ≡ 0
  pub real : next ≢ null
  pub free : (d : ℕ) → c ≢ d → next ≢ (k.cpus d).current_thread
  pub not_idle : (d : ℕ) → c ≢ d → next ≢ (k.cpus d).idle_thread

module _ {k k' : Kernel} {c next : ℕ} {rest : List ℕ} where
  idle-Switched :
      Switched k c next rest k' → (d : ℕ) → (k'.cpus d).idle_thread ≡ (k.cpus d).idle_thread
  idle-Switched s d = ground (arith, eq_cases c d, s.others d, s.idles)

  current-Switched :
      Switched k c next rest k'
      → (d : ℕ)
      → ((c ≡ d) × ((k'.cpus d).current_thread ≡ next))
        ⊎ ((c ≢ d) × ((k'.cpus d).current_thread ≡ (k.cpus d).current_thread))
  current-Switched s d = elim (eq_cases c d) [
    | inl e ↦ inl (e, rw (← e) s.runs)
    | inr e ↦ inr (e, rw (s.others d e))
  ]

  pub Switched-IsWellFormed :
      IsQueued k c → IsNext k c next rest → Switched k c next rest k' → IsWellFormed k'
  Switched-IsWellFormed q n s = record {
    once = λ t. rw s.queue (omega (arith, q.once t, n.fewer t));
    members_ready = λ t h. ground (arith, s.states t, q.members_ready t, n.fewer t, s.queue);
    members_real = rw s.queue (omega (arith, q.members_real, n.fewer null));
    current_out = λ d. ground (
      arith,
      current-Switched s d,
      q.current_out d,
      n.taken,
      s.queue,
      n.fewer (k.cpus d).current_thread,
    );
    idle_out = λ d.
        rw (s.queue, idle-Switched s d)
          (omega (arith, q.idle_out d, n.fewer (k.cpus d).idle_thread));
    current_real = λ d. ground (arith, current-Switched s d, q.current_real d, n.real);
    idle_real = λ d. rw (idle-Switched s d) (q.idle_real d);
    current_apart = λ d e ne. ground (
      arith,
      current-Switched s d,
      current-Switched s e,
      n.free d,
      n.free e,
      q.current_apart d e,
    );
    idle_apart = λ d e ne.
        ground (arith, current-Switched s d, idle-Switched s e, n.not_idle e, q.idle_apart d e);
    idles_apart = λ d e ne. rw (idle-Switched s d, idle-Switched s e) (q.idles_apart d e ne);
  }

module _ {k : Kernel} {c : ℕ} (q : IsQueued k c) where
  pub head-IsNext : (x : ℕ) (xs : List ℕ) → k.ready_list ≡ x ∷ xs → IsNext k c x xs
  head-IsNext x xs e = record {
    fewer = λ t. rw e (ground arith);
    taken = ground (arith, ap (count x) e, q.once x);
    real = λ z. ground (arith, ap (count null) e, q.members_real);
    free = λ d ne z. ground (arith, ap (count (k.cpus d).current_thread) e, q.current_out d ne);
    not_idle = λ d ne z. ground (arith, ap (count (k.cpus d).idle_thread) e, q.idle_out d);
  }

  idle-IsNext : IsNext k c (k.cpus c).idle_thread []
  idle-IsNext = record {
    fewer = λ t. omega arith;
    taken = refl;
    real = q.idle_real c;
    free = λ d ne z. q.idle_apart d c ne (λ e. ne (sym e)) (sym z);
    not_idle = λ d ne. q.idles_apart c d ne;
  }

  -- What a thread that may leave its CPU finds when it has called the scheduler: the invariant, and
  -- the thread that runs now, which was ready or is the idle thread.
  pub record Scheduled (k' : Kernel) : Type 0 where
    pub next : ℕ
    pub rest : List ℕ
    pub switched : Switched k c next rest k'
    pub well_formed : IsWellFormed k'
    pub in_line :
        ((k.ready_list ≡ []) × (next ≡ (k.cpus c).idle_thread)) ⊎ (k.ready_list ≡ next ∷ rest)
    pub may_run : ((k.threads next).state ≡ ready) ⊎ (next ≡ (k.cpus c).idle_thread)

  pub schedule-Scheduled :
      ⦃L : ListOps⦄ → MayLeave k c (k.cpus c).current_thread → Returns Scheduled (schedule k c)
  schedule-Scheduled leave = go k.ready_list refl
    where
      go : (l : List ℕ) → k.ready_list ≡ l → Returns Scheduled (schedule k c)
      go [] e =
          Returns-map (schedule k c)
            (λ k' s. record {
              next = (k.cpus c).idle_thread;
              rest = [];
              switched = s;
              well_formed = Switched-IsWellFormed q idle-IsNext s;
              in_line = inl (e, refl);
              may_run = inr refl;
            })
            (schedule-idle k c e (q.idle_real c) (q.current_real c) leave)
      go (x ∷ xs) e =
          let n = head-IsNext x xs e in
          let h : 0 < count x k.ready_list = rw e (ground arith) in
          let st = q.members_ready x h in
          Returns-map (schedule k c)
            (λ k' s. record {
              next = x;
              rest = xs;
              switched = s;
              well_formed = Switched-IsWellFormed q n s;
              in_line = inr e;
              may_run = inl st;
            })
            (schedule-head k c x xs e st n.real (q.current_real c) leave)

  pub schedule-IsWellFormed :
      ⦃L : ListOps⦄ → MayLeave k c (k.cpus c).current_thread → Returns IsWellFormed (schedule k c)
  schedule-IsWellFormed leave =
      Returns-map (schedule k c) (λ k' s. s.well_formed) (schedule-Scheduled leave)
