-- ===== src/Process/Ending.antt =====
-- What the references of a process (src/HAL9000/src/process.c) keep alive, whatever order its threads
-- and its handles come and go in, and what is left behind it.
use good_osd_project.Prelude.{
  ℕ, ◌+◌, ◌≡◌, ◌≢◌, ◌<◌, Bool, true, false, some, [], append-nil, count, arith, eq_cases,
}
use good_osd_project.CommonLib.{RefCounts, ListOps, BitmapOps}
use good_osd_project.Kernel.{
  Outcome, done, bug_check, spinning, heap_insufficient_resources, Status, success,
}
use good_osd_project.Ipc.Runs.{bit}
use good_osd_project.Process.Lifetime.{
  Pcids, ProcessSystem, Life, retrieve_next_pid, destroy, dereference, process_init, register,
  cleared, started, remove_thread_reference, close_handle, give_back,
}
use good_osd_project.Process.References.{
  Held, Steps, IsSound, listed, dereference-eq, remove-eq, Steps-IsSound,
}

abbrev pub start : Life → Held
start p = record { life = p; handles = 0; initial = true }

module _ ⦃B : BitmapOps⦄ ⦃Q : Pcids⦄ ⦃L : ListOps⦄ ⦃R : RefCounts⦄ where
  next_pid : ProcessSystem → ℕ
  next_pid s = B.scan_from s.pid_bitmap Q.total 0 1

  give_back_none :
      (st st' : Status) (o : Outcome Life) (p : Life) (s : ProcessSystem)
      → ¬ (give_back st o ≡ done (st', some p, s))
  unfolding give_back
  give_back_none st st' (done a) p s e = ground arith
  give_back_none st st' bug_check p s e = ground arith
  give_back_none st st' spinning p s e = ground arith

  module _ (s : ProcessSystem) (address : ℕ) (header name : Bool) (rfc evt parse : Status)
      (p : Life) (s' : ProcessSystem)
      (made : process_init s address true rfc evt header name parse
        ≡ done (success, some p, s')) where
    init-registered : register s address ≡ done (success, some p, s')
    unfolding process_init
    init-registered =
        let n = λ (st : Status) (o : Outcome Life). give_back_none st success o p s' in
        let a = n rfc (destroy (cleared s address)) in
        let b = n evt (dereference (cleared s address)) in
        let c = n heap_insufficient_resources (dereference (started s address)) in
        let d = n parse (dereference (started s address)) in ground arith

    init-shape :
        (Q.is_valid p.id ≡ true)
        × (p.id ≡ next_pid s)
        × IsSound s address p.id (start p)
        × (s' ≡ listed s address p.id)
    unfolding register retrieve_next_pid next_pid
    init-shape = ground (arith, init-registered, R.rfc_init_lem)

    next_pid-clear : (s.pid_bitmap p.id ≡ false) × (B.set_bits s.pid_bitmap p.id 1 p.id ≡ true)
    unfolding next_pid
    next_pid-clear =
        let (v, e, i, k) = init-shape in
        let small = Q.valid_below p.id v in
        let few = Q.few in
        let (lo, hi, c) = B.scan_from_sound s.pid_bitmap Q.total 0 1 (ground arith) in
        (ground (arith, c p.id), ground (arith, B.set_bits_lem s.pid_bitmap p.id 1 p.id))

    module _ (system_held : s.pid_bitmap s.system_id ≡ true) where
      user_pid : p.id ≢ s.system_id
      user_pid e = let c = next_pid-clear in ground arith

      run-IsSound : {h : Held} → Steps (start p) h → IsSound s address p.id h
      run-IsSound st =
          let (v, e, i, k) = init-shape in
          let (c, b) = next_pid-clear in Steps-IsSound s address p.id v b user_pid st i

      -- A process has been created among others, one of which is the system's, and its threads and
      -- handles have come and gone in any order, threads and handles coming only while its first
      -- reference is held. A thread of it can be removed and a handle of it closed: no assertion fails.
      pub calls_end :
          {h : Held}
          → Steps (start p) h
          → (0 < h.life.number_of_threads → (q : Life) × (remove_thread_reference h.life ≡ done q))
            × (0 < h.handles → (q : Life) × (close_handle h.life ≡ done q))
      unfolding close_handle
      calls_end {h} st =
          let (v, e, j, k) = init-shape in
          let (c, b) = next_pid-clear in
          let i = run-IsSound st in
          (
            (λ pos. (_, remove-eq s address p.id v b user_pid i pos)),
            (λ pos. (
              _,
              dereference-eq s address p.id v b user_pid h.life (ground arith) (ground arith)
                  i.linked i.at i.named (ground arith),
            )),
          )

      -- A process has been created among others, one of which is the system's, its address is not in the
      -- list of processes before, and its threads and handles have come and gone in any order, threads and
      -- handles coming only while its first reference is held. As long as one of these is left it is not
      -- freed and the system is as its creation left it; and once none is left it has been freed once,
      -- and the identifiers and the list of processes are as they were before its creation.
      pub ends_once :
          {h : Held}
          → count address s.process_list ≡ 0
          → Steps (start p) h
          → (0 < h.life.number_of_threads + h.handles + bit h.initial
              → (h.life.frees ≡ 0) × (h.life.system ≡ s'))
            × (h.life.number_of_threads + h.handles + bit h.initial ≡ 0
                → (h.life.frees ≡ 1)
                  × ((i : ℕ) → h.life.system.pid_bitmap i ≡ s.pid_bitmap i)
                  × (h.life.system.process_list ≡ s.process_list))
      ends_once {h} fresh st =
          let (v, e, j, k) = init-shape in
          let (c, b) = next_pid-clear in
          let i = run-IsSound st in
          let l : L.remove_entry (L.insert_tail s.process_list address) address ≡ s.process_list =
            rw (L.insert_tail_lem, L.remove_entry_lem s.process_list [] address fresh)
              (append-nil s.process_list) in
          let bits : (x : ℕ)
              → B.clear_bits (B.set_bits s.pid_bitmap p.id 1) p.id 1 x ≡ s.pid_bitmap x =
            λ x. ground (
              arith,
              c,
              B.set_bits_lem s.pid_bitmap p.id 1 x,
              B.clear_bits_lem (B.set_bits s.pid_bitmap p.id 1) p.id 1 x,
              eq_cases x p.id,
            ) in
          (
            (λ pos. ground arith),
            (λ none_left. (ground arith, (λ x. ground (arith, bits x)), ground arith)),
          )
