-- ===== src/Mutex/Sound.antt =====
-- The operations of src/HAL9000/src/mutex.c keep a mutex sound.
use good_osd_project.Prelude.{
  ℕ, ◌-◌, ◌≡◌, ◌≢◌, ◌<◌, Bool, inl, inr, none, List, [], ◌∷◌, refl, arith, Bool-cases, eq_cases,
  ltb,
}
use good_osd_project.CommonLib.{ListOps}
use good_osd_project.Kernel.{Kernel, Returns, Returns->>=, null}
use good_osd_project.Event.Signal.{AllAsleep}
use good_osd_project.Thread.{block, force_terminate_pending}
use good_osd_project.Thread.Invariant.{IsWellFormed}
use good_osd_project.Thread.Steps.{block-locked, locked}
use good_osd_project.Mutex.{Mutex, init, acquire, release, hand_over}
use good_osd_project.Mutex.Fifo.{
  IsSound, acquire_again, acquire_free, acquire-block, hand_over-nil, hand_over-cons, release_once,
}

module _ ⦃L : ListOps⦄ (m : Mutex) (k : Kernel) (c : ℕ) (s : IsSound m) where
  abbrev current : ℕ
  current = (k.cpus c).current_thread

  -- On a CPU of a well-formed kernel, a thread whose block lock is free, that is not to be
  -- terminated, and that does not hold the mutex or holds it below the limit of its depth, acquires
  -- a sound mutex and may block for it: no assertion fails, and the mutex is sound at once.
  pub acquire-IsSound :
      IsWellFormed k
      → (k.threads current).block_lock ≡ none
      → (k.threads current).flags ≢ force_terminate_pending
      → (current ≡ m.holder → m.current_recursivity_depth < m.max_recursivity_depth)
      → Returns (λ r. IsSound r.1) (acquire m k c)
  acquire-IsSound w free live room = elim (eq_cases current m.holder) [
    | inl own ↦ elim (acquire_again m k c s (w.current_real c) own) [
      | inl (lt, e) ↦ rw e (record {
        held_once = λ h. omega arith;
        depth_in = omega arith;
        limit_pos = s.limit_pos;
        limit_in = s.limit_in;
        free_empty = s.free_empty;
      })
      | inr (at_limit, e) ↦ absurd (omega (arith, room own))
    ]
    | inr other ↦ elim (eq_cases m.holder null) [
      | inl e ↦ rw (acquire_free m k c s (w.current_real c) e) (record {
        held_once = λ h. omega arith;
        depth_in = s.limit_pos;
        limit_pos = s.limit_pos;
        limit_in = s.limit_in;
        free_empty = λ z. absurd (w.current_real c z);
      })
      | inr held ↦ rw (acquire-block m k c s free held (w.current_real c) other) (
          Returns->>= _ (block (locked k c) c) _ (block-locked k c w live) (λ k' w'. record {
            held_once = s.held_once;
            depth_in = s.depth_in;
            limit_pos = s.limit_pos;
            limit_in = s.limit_in;
            free_empty = λ z. absurd (held z);
          }))
    ]
  ]

  hand_over-IsSound :
      (ts : List ℕ)
      → m.waiting_list ≡ ts
      → AllAsleep k ts
      → Returns (λ r. IsSound r.0) (hand_over m k)
  hand_over-IsSound [] e a = rw (hand_over-nil m k c s e) (record {
    held_once = λ h. absurd (h refl);
    depth_in = s.depth_in;
    limit_pos = s.limit_pos;
    limit_in = s.limit_in;
    free_empty = λ z. e;
  })
  hand_over-IsSound (t ∷ ts) e (a, _, _) = rw (hand_over-cons m k c s t ts e a) (record {
    held_once = λ h. omega arith;
    depth_in = s.limit_pos;
    limit_pos = s.limit_pos;
    limit_in = s.limit_in;
    free_empty = λ z. absurd (a.real z);
  })

  -- The holder of a sound mutex releases it, with the threads that wait for it asleep: no assertion
  -- fails, and the mutex is sound again.
  pub release-IsSound :
      current ≡ m.holder → AllAsleep k m.waiting_list → Returns (λ r. IsSound r.0) (release m k c)
  unfolding release
  release-IsSound own asleep = elim (Bool-cases (ltb 1 m.current_recursivity_depth)) [
    | inl e ↦
        let sound : IsSound
            (record m { current_recursivity_depth = m.current_recursivity_depth - 1 }) =
          record {
            held_once = λ h. ground arith;
            depth_in = omega (arith, s.depth_in);
            limit_pos = s.limit_pos;
            limit_in = s.limit_in;
            free_empty = s.free_empty;
          } in
        ground (arith, sound)
    | inr e ↦ rw (release_once m k c s own e) (hand_over-IsSound m.waiting_list refl asleep)
  ]

-- A mutex is sound when it has been initialised, recursive or not.
pub init-IsSound : (recursive : Bool) → IsSound (init recursive)
unfolding init
init-IsSound recursive = record {
  held_once = λ h. absurd (h refl);
  depth_in = omega arith;
  limit_pos = ground arith;
  limit_in = ground arith;
  free_empty = λ z. refl;
}
