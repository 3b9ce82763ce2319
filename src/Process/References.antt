-- ===== src/Process/References.antt =====
-- The orders in which the threads and the handles of a process (src/HAL9000/src/process.c) can come and
-- go, and what each of these steps keeps.
use good_osd_project.Prelude.{
  ℕ, ◌+◌, ◌-◌, ◌≡◌, ◌≢◌, ◌<◌, Bool, true, false, not, ◌==◌, if◌then◌else◌, arith, ap, ◌∙◌, sym,
  Bool-cases, inl, inr,
}
use good_osd_project.CommonLib.{RefCounts, ListOps, BitmapOps}
use good_osd_project.Kernel.{done}
use good_osd_project.Ipc.Runs.{bit, drop_reference}
use good_osd_project.Process.Lifetime.{
  Pcids, ProcessSystem, Life, in_list, unlink, destroy, dereference, reference,
  insert_thread_reference, remove_thread_reference, open_handle, close_handle,
}

-- A process, the handles that are open, and whether its first reference is held.
pub record Held : Type 0 where
  pub life : Life
  pub handles : ℕ
  pub initial : Bool

module _ ⦃B : BitmapOps⦄ ⦃Q : Pcids⦄ ⦃L : ListOps⦄ ⦃R : RefCounts⦄ where
  -- A thread is inserted, or removed, a handle opened, or closed. A thread or a handle comes only while
  -- the first reference is held, which goes with the last thread.
  pub data Step : Held → Held → Type 0 where
    insert :
        {h : Held} → h.initial ≡ true → Step h (record h { life = insert_thread_reference h.life })
    remove :
        {h : Held} {p : Life}
        → 0 < h.life.number_of_threads
        → remove_thread_reference h.life ≡ done p
        → Step h (record h { life = p; initial = not (h.life.number_of_threads == 1) })
    open_it :
        {h : Held}
        → h.initial ≡ true
        → Step h (record h { life = open_handle h.life; handles = h.handles + 1 })
    close_it :
        {h : Held} {p : Life}
        → 0 < h.handles
        → close_handle h.life ≡ done p
        → Step h (record h { life = p; handles = h.handles - 1 })

  pub data Steps (h : Held) : Held → Type 0 where
    here : Steps h h
    next : {g f : Held} → Steps h g → Step g f → Steps h f

  module _ (s : ProcessSystem) (address pid : ℕ) where
    -- The process has an identifier and stands in the list, or both are given back.
    abbrev pub listed : ProcessSystem
    listed = record s {
      pid_bitmap = B.set_bits s.pid_bitmap pid 1;
      process_list = L.insert_tail s.process_list address;
    }

    abbrev pub ended : ProcessSystem
    ended = record listed {
      pid_bitmap = B.clear_bits listed.pid_bitmap pid 1;
      process_list = L.remove_entry listed.process_list address;
    }

    pub record IsSound (h : Held) : Type 0 where
      pub counted : h.life.ref_cnt ≡ h.life.number_of_threads + h.handles + bit h.initial
      pub freed : h.life.frees ≡ (if h.life.ref_cnt == 0 then 1 else 0)
      pub kept : h.initial ≡ false → h.life.number_of_threads ≡ 0
      pub linked : h.life.links ≡ in_list
      pub at : h.life.address ≡ address
      pub named : h.life.id ≡ pid
      pub registered : h.life.system ≡ (if h.life.ref_cnt == 0 then ended else listed)

    module _ (valid : Q.is_valid pid ≡ true) (set_bit : listed.pid_bitmap pid ≡ true)
        (user : pid ≢ s.system_id) where
      pid_pos : pid ≢ 0
      pid_pos e =
          let v : Q.is_valid 0 ≡ true = ap Q.is_valid (sym e) ∙ valid in
          let z = Q.zero_invalid in cc

      -- Behind a reference that is dropped.
      abbrev dropped : Life → Life
      dropped p = record p {
        ref_cnt = p.ref_cnt - 1;
        system = if p.ref_cnt - 1 == 0 then ended else p.system;
        frees = if p.ref_cnt - 1 == 0 then p.frees + 1 else p.frees;
      }

      pub dereference-eq :
          (p : Life)
          → 0 < p.ref_cnt
          → p.system ≡ listed
          → p.links ≡ in_list
          → p.address ≡ address
          → p.id ≡ pid
          → (p.ref_cnt ≡ 1 → p.number_of_threads ≡ 0)
          → dereference p ≡ done (dropped p)
      unfolding dereference destroy unlink
      dereference-eq p pos sys k a i quiet =
          let d = drop_reference p.ref_cnt pos in
          let z : (pid == 0) ≡ false = ground (arith, pid_pos) in
          let u : (pid == s.system_id) ≡ false = ground (arith, user) in
          ground (arith, d, z, u, valid, set_bit)

      -- Behind a thread that is removed.
      abbrev removed : Life → Life
      removed p =
          let p' = dropped (record p { number_of_threads = p.number_of_threads - 1 }) in
          if p.number_of_threads == 1 then dropped p' else p'

      pub remove-eq :
          {h : Held}
          → IsSound h
          → 0 < h.life.number_of_threads
          → remove_thread_reference h.life ≡ done (removed h.life)
      unfolding remove_thread_reference
      remove-eq {h} i pos =
          let p : Life = record h.life { number_of_threads = h.life.number_of_threads - 1 } in
          let first : h.initial ≡ true = elim (Bool-cases h.initial) [
            | inl e ↦ e
            | inr e ↦ ground (arith, i.kept e)
          ] in
          let r : h.life.system ≡ listed = ground arith in
          let d = dereference-eq p (ground arith) r i.linked i.at i.named (ground arith) in
          let d' = λ (l : h.life.number_of_threads ≡ 1).
            dereference-eq (dropped p) (ground arith) (ground arith) i.linked i.at i.named
              (ground arith) in
          ground (arith, d, d')

      Step-IsSound : {g h : Held} → Step g h → IsSound g → IsSound h
      unfolding insert_thread_reference open_handle close_handle reference
      Step-IsSound (insert {h = g} e) i = ground (arith, R.rfc_reference_lem g.life.ref_cnt)
      Step-IsSound (remove {h = g} {p = p} pos e) i =
          let q = remove-eq i pos in
          let first : g.initial ≡ true = elim (Bool-cases g.initial) [
            | inl k ↦ k
            | inr k ↦ ground (arith, i.kept k)
          ] in
          ground (arith, q, e)
      Step-IsSound (open_it {h = g} e) i = ground (arith, R.rfc_reference_lem g.life.ref_cnt)
      Step-IsSound (close_it {h = g} {p = p} pos e) i =
          let q =
            dereference-eq g.life (ground arith) (ground arith) i.linked i.at i.named
              (ground arith) in
          ground (arith, q, e)

      pub Steps-IsSound : {g h : Held} → Steps g h → IsSound g → IsSound h
      Steps-IsSound here i = i
      Steps-IsSound (next p st) i = Step-IsSound st (Steps-IsSound p i)
