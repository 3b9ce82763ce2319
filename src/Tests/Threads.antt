-- ===== src/Tests/Threads.antt =====
-- Runs of the scheduler, the events.
use good_osd_project.Prelude.{
  ℕ, ◌≡◌, ◌≢◌, ◌==◌, true, false, none, some, [], ◌∷◌, refl, arith, ltb, count, if◌then◌else◌,
}
use good_osd_project.Kernel.{Returns, Event, EventType, notification, synchronization, ready}
use good_osd_project.Sched.{unblock}
use good_osd_project.Event.{signal, try_wait, enqueue}
use good_osd_project.Event.Signal.{signal_wakes_all, signal_wakes_one, signal_lost}
use good_osd_project.Thread.{yield, block}
use good_osd_project.Thread.Invariant.{IsWellFormed}
use good_osd_project.Thread.Steps.{yield-IsWellFormed, block-IsWellFormed, unblock-IsWellFormed}
use good_osd_project.Thread.RoundRobin.{IsBusy, line, yields, yields_round_robin}
use good_osd_project.Tests.Instances.{list_ops}
use good_osd_project.Tests.Machine.{machine, machine-IsWellFormed, live, machine-IsAsleep, quiet}

yield-IsWellFormed_example :
    Returns
      (λ k.
        IsWellFormed k
        × ((t : ℕ)
            → (k.threads t).state ≡ (if 1 == t then ready else ((machine none).threads t).state))
        × (1 ≢ ((machine none).cpus 0).idle_thread
            → (k.cpus 0).current_thread ∷ k.ready_list ≡ 2 ∷ 3 ∷ 1 ∷ []))
      (yield (machine none) 0)
yield-IsWellFormed_example = yield-IsWellFormed 0 (machine-IsWellFormed none) (live none 1) (refl)

block-IsWellFormed_example : Returns IsWellFormed (block (machine (some 0)) 0)
block-IsWellFormed_example =
    block-IsWellFormed 0 (machine-IsWellFormed (some 0)) (live (some 0) 1) (refl)

unblock-IsWellFormed_example :
    Returns
      (λ k.
        IsWellFormed k
        × (k.ready_list ≡ 2 ∷ 3 ∷ 4 ∷ [])
        × ((u : ℕ)
            → (k.threads u).state ≡ (if 4 == u then ready else ((machine none).threads u).state))
        × (k.cpus ≡ (machine none).cpus))
      (unblock (machine none) 4)
unblock-IsWellFormed_example =
    unblock-IsWellFormed 4 (machine-IsWellFormed none) (machine-IsAsleep 4 refl) (λ c. ground arith)
      (λ c. omega arith)

machine-IsBusy : IsBusy (machine none) 0
machine-IsBusy = record {
  well_formed = machine-IsWellFormed none;
  not_idle = omega arith;
  live = live none;
  unlocked = λ t. ground arith;
}

yields_round_robin_example :
    Returns (λ k. IsBusy k 0 × (line k 0 ≡ 3 ∷ 1 ∷ 2 ∷ [])) (yields 2 (machine none) 0)
yields_round_robin_example = yields_round_robin (1 ∷ 2 ∷ []) [] 3 0 machine-IsBusy refl

-- An event that threads 4 and 5 wait for.
abbrev event : EventType → Event
event ty = record { event_type = ty; signaled = false; waiting = 4 ∷ 5 ∷ [] }

signal_wakes_all_example :
    Returns
      (λ r.
        (r.0 ≡ record (event notification) { signaled = true; waiting = [] })
        × (r.1.ready_list ≡ 2 ∷ 3 ∷ 4 ∷ 5 ∷ [])
        × ((u : ℕ)
            → (r.1.threads u).state
              ≡ (if ltb 0 (count u (4 ∷ 5 ∷ [])) then ready else ((machine none).threads u).state)))
      (signal (event notification) (machine none))
signal_wakes_all_example =
    signal_wakes_all (event notification) (machine none) refl
      ((machine-IsAsleep 4 refl), refl, ((machine-IsAsleep 5 refl), refl, tt))

signal_wakes_one_example :
    Returns
      (λ r.
        (r.0.signaled ≡ true)
        × (r.0.event_type ≡ synchronization)
        × (4 ∷ 5 ∷ [] ≡ 4 ∷ r.0.waiting)
        × (r.1.ready_list ≡ 2 ∷ 3 ∷ 4 ∷ [])
        × ((u : ℕ)
            → (r.1.threads u).state
              ≡ (if ltb 0 (count u (4 ∷ [])) then ready else ((machine none).threads u).state)))
      (signal (event synchronization) (machine none))
signal_wakes_one_example =
    signal_wakes_one (event synchronization) (machine none) refl (machine-IsAsleep 4 refl, refl, tt)

signal_lost_example :
    ((try_wait quiet).0 ≡ false)
    × Returns
        (λ r.
          let e' = enqueue r.0 1 in
          (r.1 ≡ machine none) × (e'.signaled ≡ true) × (e'.waiting ≡ 1 ∷ []))
        (signal (try_wait quiet).1 (machine none))
signal_lost_example = signal_lost quiet (machine none) 1 refl refl
