-- ===== src/Process/Lifetime.antt =====
-- The life of a process, src/HAL9000/src/process.c: its identifier, its references, and its end. The
-- names and the command line are texts that are only stored, and stand for nothing here but for the
-- allocations that can fail.
use good_osd_project.Prelude.{
  ℕ, ◌+◌, ◌-◌, ◌≡◌, ◌≤◌, ◌<◌, Bool, true, false, not, ◌&&◌, Option, none, some, List, ◌==◌,
  if◌then◌else◌, ltb,
}
use good_osd_project.CommonLib.{RefCounts, ListOps, BitmapOps, max_dword}
use good_osd_project.Kernel.{
  Outcome, done, ◌>>=◌, ◌>>◌, assert, Status, success, heap_insufficient_resources,
}
use good_osd_project.Ipc.{succeeded}

-- CommonLib's `PCID_IS_VALID` and `PCID_TOTAL_NO_OF_VALUES`; 0 is no process identifier.
pub record Pcids : Type 0 where
  pub total : ℕ
  pub is_valid : ℕ → Bool
  pub zero_invalid : is_valid 0 ≡ false
  pub valid_below : (n : ℕ) → is_valid n ≡ true → n < total
  pub few : total ≤ max_dword

-- `PROCESS_SYSTEM_DATA`: the bitmap of identifiers and the list of processes.
pub record ProcessSystem : Type 0 where
  pub pid_bitmap : ℕ → Bool
  pub process_list : List ℕ
  pub system_id : ℕ

-- The links of `NextProcess`: as the heap clears them, behind `InitializeListHead`, or in the list.
pub data Links : Type 0 where
  null_links : Links
  own_links : Links
  in_list : Links

-- The fields of a `PROCESS` that its end depends on, and how often its memory was freed.
pub record Life : Type 0 where
  pub system : ProcessSystem
  pub address : ℕ
  pub links : Links
  pub id : ℕ
  pub ref_cnt : ℕ
  pub number_of_threads : ℕ
  pub frees : ℕ

module _ ⦃B : BitmapOps⦄ ⦃Q : Pcids⦄ where
  -- `_ProcessSystemRetrieveNextPid`
  unfoldable pub retrieve_next_pid : ProcessSystem → Outcome (ℕ × ProcessSystem)
  retrieve_next_pid s = do
    let idx = B.scan_from s.pid_bitmap Q.total 0 1
    assert (Q.is_valid idx)
    done (idx, record s { pid_bitmap = B.set_bits s.pid_bitmap idx 1 })

  -- `_ProcessSystemFreePid`
  unfoldable pub free_pid : ProcessSystem → ℕ → Outcome ProcessSystem
  free_pid s pid = do
    assert (Q.is_valid pid)
    assert (s.pid_bitmap pid)
    done (record s { pid_bitmap = B.clear_bits s.pid_bitmap pid 1 })

  -- `ProcessSystemPreinit`, on the bitmap behind `BitmapInit`
  unfoldable pub preinit : ProcessSystem → ProcessSystem
  preinit s = record s { pid_bitmap = B.set_bits B.clear 0 1; process_list = List.[] }

module _ ⦃B : BitmapOps⦄ ⦃Q : Pcids⦄ ⦃L : ListOps⦄ ⦃R : RefCounts⦄ where
  -- `RemoveEntryList` of `NextProcess`, which follows both of its links.
  unfoldable pub unlink : Links → ProcessSystem → ℕ → Outcome ProcessSystem
  unlink null_links s address = assert false >> done s
  unlink own_links s address = done s
  unlink in_list s address =
      done (record s { process_list = L.remove_entry s.process_list address })

  -- `_ProcessDestroy`; the address space goes before the identifier.
  unfoldable pub destroy : Life → Outcome Life
  unfolding free_pid unlink
  destroy p = do
    assert (not (p.id == p.system.system_id))
    assert (p.number_of_threads == 0)
    removed ← unlink p.links p.system p.address
    s ← if p.id == 0 then done removed else free_pid removed p.id
    done (record p { system = s; frees = p.frees + 1 })

  -- `_ProcessReference` and `_ProcessDereference`
  unfoldable pub reference : Life → Life
  reference p = record p { ref_cnt = R.rfc_reference p.ref_cnt }

  unfoldable pub dereference : Life → Outcome Life
  dereference p =
      let n = R.rfc_dereference p.ref_cnt in
      let p' = record p { ref_cnt = n } in let gone = destroy p' in if n == 0 then gone else done p'

  -- What the failures of `_ProcessInit` end with: a process with its reference, or one without.
  unfoldable pub give_back : Status → Outcome Life → Outcome (Status × Option Life × ProcessSystem)
  give_back st gone = gone >>= λ p. done (st, none, p.system)

  -- The process as `_ProcessInit` allocates it, and as it is once its references count.
  abbrev pub cleared : ProcessSystem → ℕ → Life
  cleared s address = record {
    system = s;
    address = address;
    links = null_links;
    id = 0;
    ref_cnt = R.rfc_init;
    number_of_threads = 0;
    frees = 0;
  }

  abbrev pub started : ProcessSystem → ℕ → Life
  started s address = record (cleared s address) { links = own_links }

  -- The end of `_ProcessInit` on success.
  unfoldable pub register : ProcessSystem → ℕ → Outcome (Status × Option Life × ProcessSystem)
  unfolding retrieve_next_pid
  register s address = do
    (pid, s') ← retrieve_next_pid s
    let listed = record s' { process_list = L.insert_tail s'.process_list address }
    let p = record (started s address) { system = listed; links = in_list; id = pid }
    done (success, some p, listed)

  -- `_ProcessInit` at `address`: whether the heap has room for the process, the statuses of `RfcInit`
  -- and `ExEventInit`, whether it has room for the header and the name, and the status of
  -- `_ProcessParseCommandLine`. `none` is a failure.
  unfoldable pub process_init :
      ProcessSystem
      → (address : ℕ) → (allocated : Bool) → (rfc_status evt_status : Status)
      → (header_allocated name_allocated : Bool) → (parse_status : Status)
      → Outcome (Status × Option Life × ProcessSystem)
  unfolding register give_back dereference
  process_init s address allocated rfc evt header name parse =
      if not allocated
      then done (heap_insufficient_resources, none, s)
      else (if not (succeeded rfc)
          then give_back rfc (destroy (cleared s address))
          else (if not (succeeded evt)
              then give_back evt (dereference (cleared s address))
              else (if not (header && name)
                  then give_back heap_insufficient_resources (dereference (started s address))
                  else (if not (succeeded parse)
                      then give_back parse (dereference (started s address))
                      else register s address))))

  -- The references of `ProcessInsertThreadInList`, of `ProcessRemoveThreadFromList`, of the end of
  -- `ProcessCreate`, and of `ProcessCloseHandle`.
  unfoldable pub insert_thread_reference : Life → Life
  insert_thread_reference p = reference (record p { number_of_threads = p.number_of_threads + 1 })

  unfoldable pub remove_thread_reference : Life → Outcome Life
  remove_thread_reference p = do
    let remaining = p.number_of_threads - 1
    assert (ltb 0 p.number_of_threads)
    p' ← dereference (record p { number_of_threads = remaining })
    if remaining == 0 then dereference p' else done p'

  unfoldable pub open_handle : Life → Life
  open_handle p = reference p

  unfoldable pub close_handle : Life → Outcome Life
  close_handle p = dereference p
