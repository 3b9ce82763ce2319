-- ===== src/Sched/Switch.antt =====
-- What `schedule` leaves behind: the lemmas through which the invariants see it.
use good_osd_project.Prelude.{
  refl, ◌≢◌, ◌∷◌, [], ℕ, ◌≡◌, ◌≢◌, true, none, List, arith, if◌then◌else◌, ◌==◌, ◌||◌, false, Bool,
  ◌∙◌, Bool-cases, inl, inr,
}
use good_osd_project.CommonLib.{ListOps}
use good_osd_project.Kernel.{
  done, set_cpu, log_effect, update_idle_time, ready, Returns, Kernel, is_owner, is_blocked,
  Returns-map, null,
}
use good_osd_project.Sched.{get_ready_thread, cleanup_post_schedule, stay, switch_to, schedule}

-- CPU `c` has gone to `next`, and `rest` is ready.
pub record Switched (k : Kernel) (c next : ℕ) (rest : List ℕ) (k' : Kernel) : Type 0 where
  pub queue : k'.ready_list ≡ rest
  pub runs : (k'.cpus c).current_thread ≡ next
  pub idles : (k'.cpus c).idle_thread ≡ (k.cpus c).idle_thread
  pub others : (d : ℕ) → c ≢ d → k'.cpus d ≡ k.cpus d
  pub states : (t : ℕ) → (k'.threads t).state ≡ (k.threads t).state
  pub flags : (t : ℕ) → (k'.threads t).flags ≡ (k.threads t).flags
  pub locks : (t : ℕ) → (k.threads t).block_lock ≡ none → (k'.threads t).block_lock ≡ none

module _ (k : Kernel) (c : ℕ) where
  -- The previous thread's block lock is held by this CPU only if it has blocked.
  abbrev pub MayLeave : (prev : ℕ) → Type 0
  MayLeave t =
      is_owner (k.threads t).block_lock c ≡ true
      → is_blocked (k.threads t).state || t == (k.cpus c).idle_thread ≡ true

  cleanup-Switched :
      MayLeave (k.cpus c).previous_thread
      → Returns (Switched k c (k.cpus c).current_thread k.ready_list) (cleanup_post_schedule k c)
  unfolding cleanup_post_schedule
  cleanup-Switched leave = ground arith

  stay-Switched : (t : ℕ) → Switched k c (k.cpus c).current_thread k.ready_list (stay k t)
  unfolding stay
  stay-Switched t = ground arith

  switch_to-Switched : (t next : ℕ) → Switched k c next k.ready_list (switch_to k c t next)
  unfolding switch_to
  switch_to-Switched t next = ground arith

Switched-trans :
    {c n n' : ℕ} {r r' : List ℕ} {k k₁ k₂ : Kernel}
    → Switched k c n r k₁
    → Switched k₁ c n' r' k₂
    → Switched k c n' r' k₂
Switched-trans {c} a b = record {
  queue = b.queue;
  runs = b.runs;
  idles = b.idles ∙ a.idles;
  others = λ d ne. b.others d ne ∙ a.others d ne;
  states = λ t. b.states t ∙ a.states t;
  flags = λ t. b.flags t ∙ a.flags t;
  locks = λ t h. b.locks t (a.locks t h);
}

Switched-cast :
    {c n n' : ℕ} {r r' : List ℕ} {k k' : Kernel}
    → Switched k c n r k'
    → n ≡ n'
    → r ≡ r'
    → Switched k c n' r' k'
Switched-cast a e f = record {
  queue = a.queue ∙ f;
  runs = a.runs ∙ e;
  idles = a.idles;
  others = a.others;
  states = a.states;
  flags = a.flags;
  locks = a.locks;
}

-- The thread that was current, saved as the previous one, when the next has been taken.
abbrev saved : Kernel → (c : ℕ) (rest : List ℕ) (idle : Bool) → Kernel
saved k c rest idle =
    let cpu = k.cpus c in
    log_effect
      (record (set_cpu k c (record cpu { previous_thread = cpu.current_thread })) {
        ready_list = rest;
      })
      (update_idle_time idle)

module _ ⦃L : ListOps⦄ (k : Kernel) (c : ℕ) where
  get_ready_thread-head :
      (x : ℕ) (xs : List ℕ)
      → k.ready_list ≡ x ∷ xs
      → (k.threads x).state ≡ ready
      → get_ready_thread k c
        ≡ done (x, log_effect (record k { ready_list = xs }) (update_idle_time false))
  unfolding get_ready_thread
  get_ready_thread-head x xs e st = ground (arith, L.remove_head_cons x xs)

  get_ready_thread-idle :
      k.ready_list ≡ []
      → get_ready_thread k c ≡ done ((k.cpus c).idle_thread, log_effect k (update_idle_time true))
  unfolding get_ready_thread
  get_ready_thread-idle e = ground (arith, L.remove_head_nil)

module _ (k : Kernel) (c next : ℕ) (rest : List ℕ) (idle : Bool) where
  abbrev now : ℕ
  now = (k.cpus c).current_thread

  saved-Switched : Switched k c now rest (saved k c rest idle)
  saved-Switched = ground arith

  module _ (leave : MayLeave k c now) where
    stay-MayLeave :
        let k' = stay (saved k c rest idle) now in MayLeave k' c (k'.cpus c).previous_thread
    unfolding stay
    stay-MayLeave = ground arith

    switch_to-MayLeave :
        let k' = switch_to (saved k c rest idle) c now next in
        MayLeave k' c (k'.cpus c).previous_thread
    unfolding switch_to
    switch_to-MayLeave = ground arith

    go_on :
        let k' = saved k c rest idle in
        Returns
          (Switched k c next rest)
          (cleanup_post_schedule (if next == now then stay k' now else switch_to k' c now next) c)
    go_on = elim (Bool-cases (next == now)) [
      | inl e ↦ rw e (
          cleaned now _ (ground arith)
            (Switched-cast (stay-Switched _ c now) saved-Switched.runs refl) stay-MayLeave)
      | inr e ↦ rw e (cleaned next _ refl (switch_to-Switched _ c now next) switch_to-MayLeave)
    ]
      where
        cleaned :
            (n : ℕ) (k₁ : Kernel)
            → n ≡ next
            → Switched (saved k c rest idle) c n rest k₁
            → MayLeave k₁ c (k₁.cpus c).previous_thread
            → Returns (Switched k c next rest) (cleanup_post_schedule k₁ c)
        cleaned n k₁ e a l =
            Returns-map (cleanup_post_schedule k₁ c)
              (λ k₂ b.
                Switched-cast (Switched-trans (Switched-trans saved-Switched a) b) (a.runs ∙ e)
                  a.queue)
              (cleanup-Switched k₁ c l)

module _ ⦃L : ListOps⦄ (k : Kernel) (c : ℕ) where
  -- A ready thread is scheduled: the head of the list, which stays no longer in it.
  pub schedule-head :
      (x : ℕ) (xs : List ℕ)
      → k.ready_list ≡ x ∷ xs
      → (k.threads x).state ≡ ready
      → x ≢ null
      → (k.cpus c).current_thread ≢ null
      → MayLeave k c (k.cpus c).current_thread
      → Returns (Switched k c x xs) (schedule k c)
  unfolding schedule
  schedule-head x xs e st nx nc leave = ground (
    arith,
    go_on k c x xs false leave,
    get_ready_thread-head
        (set_cpu k c (record (k.cpus c) { previous_thread = (k.cpus c).current_thread })) c x xs e
        st,
  )

  -- Nothing is ready: the idle thread runs.
  pub schedule-idle :
      k.ready_list ≡ []
      → (k.cpus c).idle_thread ≢ null
      → (k.cpus c).current_thread ≢ null
      → MayLeave k c (k.cpus c).current_thread
      → Returns (Switched k c (k.cpus c).idle_thread []) (schedule k c)
  unfolding schedule
  schedule-idle e nx nc leave = ground (
    arith,
    go_on k c (k.cpus c).idle_thread [] true leave,
    get_ready_thread-idle
        (set_cpu k c (record (k.cpus c) { previous_thread = (k.cpus c).current_thread })) c e,
  )
