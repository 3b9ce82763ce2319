-- ===== src/Thread/RoundRobin.antt =====
-- The order in which `ThreadYield` (src/HAL9000/src/thread.c) hands a CPU round.
use good_osd_project.Prelude.{
  refl, ℕ, zero, suc, ◌≡◌, ◌≢◌, none, List, [], ◌∷◌, ◌++◌, arith, length, sym, ◌∙◌, ap,
  append_assoc, append-nil, count,
}
use good_osd_project.CommonLib.{ListOps}
use good_osd_project.Kernel.{Outcome, done, ◌>>=◌, Returns, Returns-map, Returns->>=, Kernel}
use good_osd_project.Sched.Switch.{Switched, schedule-head}
use good_osd_project.Thread.{yield, enter_ready, force_terminate_pending}
use good_osd_project.Thread.Invariant.{
  IsWellFormed, IsQueued, IsNext, Switched-IsWellFormed, head-IsNext,
}
use good_osd_project.Thread.Steps.{
  enter_ready-IsQueued, enter_ready-MayLeave, yield-eq, ready_list-enter_ready,
}

-- The thread that CPU `c` runs, and behind it those that wait for a CPU.
abbrev pub line : Kernel → ℕ → List ℕ
line k c = (k.cpus c).current_thread ∷ k.ready_list

-- No thread is to be terminated or is about to block, and CPU `c` does not idle.
pub record IsBusy (k : Kernel) (c : ℕ) : Type 0 where
  pub well_formed : IsWellFormed k
  pub not_idle : (k.cpus c).current_thread ≢ (k.cpus c).idle_thread
  pub live : (t : ℕ) → (k.threads t).flags ≢ force_terminate_pending
  pub unlocked : (t : ℕ) → (k.threads t).block_lock ≡ none

module _ ⦃L : ListOps⦄ where
  -- The threads that CPU `c` runs yield, one after the other, `n` times.
  pub yields : ℕ → Kernel → ℕ → Outcome Kernel
  yields zero k c = done k
  yields (suc n) k c = yield k c >>= λ k'. yields n k' c

  module _ {k : Kernel} {c : ℕ} (b : IsBusy k c) where
    abbrev current : ℕ
    current = (k.cpus c).current_thread

    enter_ready-keeps :
        (t : ℕ)
        → (((enter_ready k c).threads t).flags ≡ (k.threads t).flags)
          × (((enter_ready k c).threads t).block_lock ≡ (k.threads t).block_lock)
    unfolding enter_ready
    enter_ready-keeps t = ground arith

    module _ (x : ℕ) (xs : List ℕ) (e : k.ready_list ++ current ∷ [] ≡ x ∷ xs) where
      queued : IsQueued (enter_ready k c) c
      queued = enter_ready-IsQueued c b.well_formed

      queue : (enter_ready k c).ready_list ≡ x ∷ xs
      queue = ready_list-enter_ready c b.well_formed b.not_idle ∙ e

      next : IsNext (enter_ready k c) c x xs
      next = head-IsNext queued x xs queue

      yield-Switched : Returns (Switched (enter_ready k c) c x xs) (yield k c)
      yield-Switched = rw (yield-eq c b.well_formed (b.live current)) (
          schedule-head (enter_ready k c) c x xs queue
            (queued.members_ready x (ground (arith, ap (count x) queue))) next.real
            (queued.current_real c)
            (enter_ready-MayLeave c b.well_formed (ground (arith, b.unlocked current))))

      Switched-IsBusy : {k' : Kernel} → Switched (enter_ready k c) c x xs k' → IsBusy k' c
      Switched-IsBusy s = record {
        well_formed = Switched-IsWellFormed queued next s;
        not_idle =
            rw (s.runs, s.idles)
              (λ z. ground (
                arith,
                ap (count ((enter_ready k c).cpus c).idle_thread) queue,
                queued.idle_out c,
              ));
        live = λ t. rw (s.flags t, (enter_ready-keeps t).0) (b.live t);
        unlocked = λ t. s.locks t ((enter_ready-keeps t).1 ∙ b.unlocked t);
      }

  snoc-cons : (l : List ℕ) (a : ℕ) → (x : ℕ) × (xs : List ℕ) × (l ++ a ∷ [] ≡ x ∷ xs)
  snoc-cons [] a = (a, [], refl)
  snoc-cons (x ∷ l) a = (x, l ++ a ∷ [], refl)

  -- One yield moves the current thread from the head of the line to its end.
  pub line-yield :
      {k : Kernel} {c : ℕ}
      → IsBusy k c
      → Returns
          (λ k'. IsBusy k' c × (line k' c ≡ k.ready_list ++ (k.cpus c).current_thread ∷ []))
          (yield k c)
  line-yield {k} {c} b =
      let (x, xs, e) = snoc-cons k.ready_list (k.cpus c).current_thread in
      Returns-map (yield k c)
        (λ k' s. (Switched-IsBusy b x xs e s, ground (arith, s.runs, s.queue, e)))
        (yield-Switched b x xs e)

  -- Round robin. In a well-formed kernel in which no thread is to be terminated or holds its block
  -- lock, on a CPU that does not idle, a thread that stands behind `n` others in the line runs
  -- after exactly `n` yields, and those that were before it then wait behind all the others, in
  -- their order.
  pub yields_round_robin :
      (xs ys : List ℕ) (y c : ℕ) {k : Kernel}
      → IsBusy k c
      → line k c ≡ xs ++ y ∷ ys
      → Returns (λ k'. IsBusy k' c × (line k' c ≡ y ∷ ys ++ xs)) (yields (length xs) k c)
  unfolding yields
  yields_round_robin [] ys y c b e = (b, e ∙ sym (append-nil (y ∷ ys)))
  yields_round_robin (x ∷ xs) ys y c {k} b e =
      Returns->>= _ (yield k c) (λ k'. yields (length xs) k' c) (line-yield b)
        (λ k' p.
          Returns-map (yields (length xs) k' c)
            (λ k'' r. (r.0, r.1 ∙ append_assoc (y ∷ ys) (x ∷ []) xs))
            (yields_round_robin xs (ys ++ x ∷ []) y c p.0
              (p.1 ∙ ground (arith, e, append_assoc xs (y ∷ ys) (x ∷ [])))))
