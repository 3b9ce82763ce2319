-- ===== src/Mutex/Fifo.antt =====
-- The mutex of src/HAL9000/src/mutex.c as a line of threads: the holder, and behind it those that wait.
use good_osd_project.Prelude.{
  refl, ℕ, ◌+◌, ◌-◌, ◌≤◌, ◌<◌, ◌≡◌, ◌≢◌, ◌⊎◌, inl, inr, false, List, [], ◌∷◌, ltb, ◌==◌,
  if◌then◌else◌, none, arith, Bool-cases,
}
use good_osd_project.CommonLib.{ListOps}
use good_osd_project.Kernel.{done, bug_check, ◌>>=◌, null, Kernel, Returns, Returns-map}
use good_osd_project.Sched.{make_ready}
use good_osd_project.Sched.Unblock.{unblock_asleep, IsAsleep}
use good_osd_project.Thread.{block}
use good_osd_project.Thread.Steps.{take_block_lock-eq, locked}
use good_osd_project.Event.Signal.{AllAsleep}
use good_osd_project.Mutex.{
  Mutex, acquired, waits, acquire, release, hand_over, mutex_max_recursivity_depth,
}

-- The threads at a mutex: who holds it, and who waits, in the order in which they will have it.
abbrev pub line : Mutex → List ℕ
line m = if m.holder == null then [] else m.holder ∷ m.waiting_list

-- What a release does to the thread that has the mutex next.
abbrev pub wake : ⦃L : ListOps⦄ → List ℕ → Kernel → Kernel
wake [] k = k
wake (t ∷ ts) k = make_ready k t

pub record IsSound (m : Mutex) : Type 0 where
  pub held_once : m.holder ≢ null → 1 ≤ m.current_recursivity_depth
  pub depth_in : m.current_recursivity_depth ≤ m.max_recursivity_depth
  pub limit_pos : 1 ≤ m.max_recursivity_depth
  pub limit_in : m.max_recursivity_depth ≤ mutex_max_recursivity_depth
  pub free_empty : m.holder ≡ null → m.waiting_list ≡ []

module _ ⦃L : ListOps⦄ (m : Mutex) (k : Kernel) (c : ℕ) (s : IsSound m) where
  abbrev current : ℕ
  current = (k.cpus c).current_thread

  -- The holder of a sound mutex may take it again as long as the depth is below the limit, which
  -- counts the depth up and keeps the line; at the limit (at once, where the mutex is not
  -- recursive) the assertion stops the machine.
  pub acquire_again :
      current ≢ null
      → current ≡ m.holder
      → ((m.current_recursivity_depth < m.max_recursivity_depth)
          × (acquire m k c
              ≡ done (
                acquired,
                record m { current_recursivity_depth = m.current_recursivity_depth + 1 },
                k,
              )))
        ⊎ ((m.current_recursivity_depth ≡ m.max_recursivity_depth) × (acquire m k c ≡ bug_check))
  unfolding acquire
  acquire_again real own =
      elim (Bool-cases (ltb m.current_recursivity_depth m.max_recursivity_depth)) [
        | inl e ↦ inl (ground arith, ground (arith, s.limit_in))
        | inr e ↦ inr (ground (arith, s.depth_in), ground arith)
      ]

  -- A thread that finds the mutex free takes it at depth 1 and goes on at once.
  pub acquire_free :
      current ≢ null
      → m.holder ≡ null
      → acquire m k c
        ≡ done (acquired, record m { holder = current; current_recursivity_depth = 1 }, k)
  unfolding acquire
  acquire_free real free = ground arith

  pub acquire-block :
      (k.threads current).block_lock ≡ none
      → m.holder ≢ null
      → current ≢ null
      → current ≢ m.holder
      → acquire m k c ≡ (
          block (locked k c) c >>= λ k'.
          done (waits, record m { waiting_list = L.insert_tail m.waiting_list current }, k'))
  unfolding acquire
  acquire-block free held real other = ground (arith, take_block_lock-eq k c free)

  pub hand_over-nil : m.waiting_list ≡ [] → hand_over m k ≡ done (record m { holder = null }, k)
  unfolding hand_over
  hand_over-nil e = ground (arith, L.remove_head_nil)

  pub hand_over-cons :
      (t : ℕ) (ts : List ℕ)
      → m.waiting_list ≡ t ∷ ts
      → IsAsleep k t
      → hand_over m k
        ≡ done (
          record m { waiting_list = ts; holder = t; current_recursivity_depth = 1 },
          make_ready k t,
        )
  unfolding hand_over
  hand_over-cons t ts e a = ground (arith, L.remove_head_cons t ts, unblock_asleep k t a)

  -- What `release` leaves of a mutex that its holder had taken once.
  abbrev pub HandedOver : Mutex × Kernel → Type 0
  HandedOver r =
      (line m ≡ current ∷ line r.0)
      × (r.1 ≡ wake (line r.0) k)
      × ((r.0.holder ≡ null) ⊎ (r.0.current_recursivity_depth ≡ 1))

  hand_over-line :
      (ts : List ℕ)
      → m.waiting_list ≡ ts
      → current ≢ null
      → current ≡ m.holder
      → AllAsleep k ts
      → Returns HandedOver (hand_over m k)
  hand_over-line [] e real own a = rw (hand_over-nil e) (ground arith)
  hand_over-line (t ∷ ts) e real own (a, _, _) =
      rw (hand_over-cons t ts e a) (ground (arith, a.real))

  pub release_once :
      current ≡ m.holder → ltb 1 m.current_recursivity_depth ≡ false → release m k c ≡ hand_over m k
  unfolding release
  release_once own e = ground arith

  -- The holder of a sound mutex, all of whose waiting threads are asleep, leaves it. If it has
  -- taken it more than once, the depth is counted down and all else stays. If it has taken it once,
  -- it leaves the head of the line: the next of the line has the mutex, at depth 1, and is made
  -- ready, and where nobody waits the mutex is free.
  pub release_line :
      current ≢ null
      → current ≡ m.holder
      → AllAsleep k m.waiting_list
      → Returns
          (λ r.
            ((1 < m.current_recursivity_depth)
              × (r ≡ (record m { current_recursivity_depth = m.current_recursivity_depth - 1 }, k)))
            ⊎ ((m.current_recursivity_depth ≡ 1) × HandedOver r))
          (release m k c)
  unfolding release
  release_line real own asleep = elim (Bool-cases (ltb 1 m.current_recursivity_depth)) [
    | inl e ↦ ground arith
    | inr e ↦ rw (release_once own e) (
        Returns-map (hand_over m k) (λ r h. inr (ground (arith, s.held_once), h))
          (hand_over-line m.waiting_list refl real own asleep))
  ]
