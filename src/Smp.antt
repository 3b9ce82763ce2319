-- ===== src/Smp.antt =====
-- The messages between CPUs, src/HAL9000/src/smp.c: which CPUs a message is for, its entry into their
-- lists, and the interrupt that takes it out. A CPU is its address, and the list of CPUs does not change
-- while a message is sent, as the two searches of `SmpSendGenericIpiEx` assert.
pub mod Delivery
use good_osd_project.Prelude.{
  ℕ, zero, suc, ◌+◌, ◌-◌, ◌^◌, ◌≡◌, Bool, true, false, not, ◌&&◌, Option, none, some, List, [], ◌∷◌,
  ◌==◌, if◌then◌else◌, length, ltb, leb, update,
}
use good_osd_project.CommonLib.{RefCounts, ListOps, Checks}
use good_osd_project.Kernel.{
  Outcome, done, bug_check, ◌>>=◌, ◌>>◌, assert, Status, success, invalid_parameter1, null, dword,
  cpu_no_matches, unsuccessful, buffer_too_small,
}
use good_osd_project.Ipc.{succeeded, IpcEvent, generate_event}

-- `PCPU`, the fields of the messages. An entry is the address of an event with its place in it.
pub record CpuNode : Type 0 where
  pub apic_id : ℕ
  pub logical_apic_id : ℕ
  pub event_list : List ℕ
  pub no_of_events_in_list : ℕ

-- `SMP_IPI_SEND_MODE`
pub data SendMode : Type 0 where
  to_cpu to_self to_all_including_self to_all_excluding_self to_group : SendMode

-- `SMP_DATA`: the list of CPUs and what stands at their addresses.
pub record SmpData : Type 0 where
  pub cpu_list : List ℕ
  pub cpus : ℕ → CpuNode

module _ ⦃C : Checks⦄ where
  -- `_SmpDoesCpuMatchDestination`, on the CPU with the identifier `self`
  unfoldable pub does_cpu_match_destination :
      (self : ℕ) → SendMode → (destination : ℕ) → CpuNode → Bool
  does_cpu_match_destination self to_cpu d c = c.apic_id == d
  does_cpu_match_destination self to_self d c = c.apic_id == self
  does_cpu_match_destination self to_all_including_self d c = true
  does_cpu_match_destination self to_all_excluding_self d c = not (c.apic_id == self)
  does_cpu_match_destination self to_group d c = C.is_flag_on d c.logical_apic_id

-- The loop of `_SmpRetrieveMatchingCpus`: the number of matches so far, and the CPUs that are stored.
unfoldable pub match_loop : (matches : ℕ → Bool) → (max n : ℕ) → List ℕ → ℕ × List ℕ
match_loop matches max n [] = (n, [])
match_loop matches max n (c ∷ cs) =
    let (total, found) = match_loop matches max (if matches c then n + 1 else n) cs in
    (total, if matches c && leb (n + 1) max then c ∷ found else found)

-- `_SmpRetrieveMatchingCpus`: the status, the CPUs and their number.
unfoldable pub retrieve_matching_cpus :
    (matches : ℕ → Bool) → (max : ℕ) → List ℕ → Status × List ℕ × ℕ
retrieve_matching_cpus matches max cs =
    let (n, found) = match_loop matches max 0 cs in
    (if ltb max n then buffer_too_small else success, found, n)

module _ ⦃L : ListOps⦄ where
  -- A round of the loop of `SmpSendGenericIpiEx` that inserts the entries.
  abbrev pub insert_entry : CpuNode → (entry : ℕ) → CpuNode
  insert_entry c entry = record c {
    event_list = L.insert_tail c.event_list entry;
    no_of_events_in_list = dword (c.no_of_events_in_list + 1);
  }

  unfoldable pub insert_entries : List ℕ → (entry : ℕ) → (ℕ → CpuNode) → ℕ → CpuNode
  insert_entries [] entry cpus = cpus
  insert_entries (c ∷ cs) entry cpus =
      insert_entries cs (entry + 1) (update cpus c (insert_entry (cpus c) entry))

  -- `SmpSendGenericIpiEx` up to the interrupt that notifies the CPUs. `events` is the address that
  -- `IpcGenerateEvent` returns; of the allocations, the one for the list of CPUs asserts, and
  -- `allocated` and the two statuses are the event's.
  unfoldable pub send_generic_ipi_ex :
      ⦃R : RefCounts⦄ ⦃C : Checks⦄
      → (self function context free_function free_context : ℕ) → (wait : Bool) → SendMode
      → (destination events : ℕ) → (allocated : Bool) → (evt_status rfc_status : Status) → SmpData
      → Outcome (Status × Option IpcEvent × SmpData)
  send_generic_ipi_ex self f c ff fc wait mode d events allocated evt_status rfc_status s =
      let matches = λ (p : ℕ). does_cpu_match_destination self mode d (s.cpus p) in
      let (st, unused, n) = retrieve_matching_cpus matches 0 s.cpu_list in
      let (st', found, m) = retrieve_matching_cpus matches n s.cpu_list in
      if f == null
      then done (invalid_parameter1, none, s)
      else (if n == 0
          then done (cpu_no_matches, none, s)
          else (if not (succeeded st')
              then done (st', none, s)
              else assert (m == n)
                >> done (elim (generate_event f c ff fc wait n allocated evt_status rfc_status) [
                  | none ↦ (unsuccessful, none, s)
                  | some e ↦
                      (success, some e, record s { cpus = insert_entries found events s.cpus })
                ])))

  -- The part of `_SmpIpcIpiIsr` that takes an entry from the list of the CPU `c`.
  unfoldable pub take_entry : SmpData → (c : ℕ) → Outcome (ℕ × SmpData)
  take_entry s c =
      let node = s.cpus c in
      if ltb 0 node.no_of_events_in_list
      then elim (L.remove_head node.event_list) [
        | none ↦ bug_check
        | some (entry, rest) ↦ done (
          entry,
          record s {
            cpus = update s.cpus c (record node {
              event_list = rest;
              no_of_events_in_list = node.no_of_events_in_list - 1;
            });
          },
        )
      ]
      else bug_check
