-- ===== src/Tests/Messages.antt =====
-- Runs of the messages between CPUs.
use good_osd_project.Prelude.{
  ◌+◌, ◌≡◌, ◌≤◌, ◌<◌, ◌⊎◌, true, false, some, [], ◌∷◌, refl, arith, length, count, ◌==◌,
  if◌then◌else◌,
}
use good_osd_project.Kernel.{done, success}
use good_osd_project.Ipc.{IpcEvent, Run, generate_event, add_references, sent, begin_event}
use good_osd_project.Ipc.Runs.{Step, Steps, begin, here, next, bit, event_safe, event_ends}
use good_osd_project.Smp.{
  SmpData, to_all_excluding_self, insert_entry, insert_entries, does_cpu_match_destination,
  match_loop, retrieve_matching_cpus, send_generic_ipi_ex,
}
use good_osd_project.Smp.Delivery.{select, place, meant, send-Delivers}
use good_osd_project.Tests.Instances.{checks, list_ops, ref_counts}

-- An event for two CPUs, whose sender waits.
abbrev event : IpcEvent
event = record {
  ref_cnt = 3;
  function = 5;
  context = 6;
  signal_termination = true;
  termination_signaled = false;
  free_function = 0;
  free_function_context = 0;
  cpu_events = 2;
}

event_lem : generate_event 5 6 0 0 true 2 true success success ≡ some event
unfolding generate_event add_references
event_lem = refl

-- One CPU has taken it up.
first_step : Steps (sent event) 1 (begin_event (sent event))
first_step = next here (begin (omega arith))

event_safe_example :
    (0
        < (begin_event (sent event)).unprocessed
          + (begin_event (sent event)).running
          + (begin_event (sent event)).signaling
          + bit (begin_event (sent event)).waiting
      → (begin_event (sent event)).frees ≡ 0)
    × (true ≡ true
        → (begin_event (sent event)).waiting ≡ false
        → (length (begin_event (sent event)).calls ≡ 2)
          × ((begin_event (sent event)).running ≡ 0)
          × ((begin_event (sent event)).signaling ≡ 0))
event_safe_example = event_safe 5 6 0 0 true 2 true success success event event_lem first_step

event_ends_example :
    (1 ≤ 7)
    × (((s : Run) → ¬ Step (begin_event (sent event)) s)
        → (length (begin_event (sent event)).calls ≡ 2)
          × ((begin_event (sent event)).running ≡ 0)
          × ((begin_event (sent event)).waiting ≡ false)
          × ((begin_event (sent event)).frees ≡ 1)
          × (length (begin_event (sent event)).free_calls
              ≡ (if (begin_event (sent event)).event.free_function == 0 then 0 else 1)))
event_ends_example = event_ends 5 6 0 0 true 2 true success success event event_lem first_step

-- Three CPUs, at the addresses 1 to 3.
abbrev machine : SmpData
machine = record {
  cpu_list = 1 ∷ 2 ∷ 3 ∷ [];
  cpus =
      λ p. record { apic_id = p; logical_apic_id = p; event_list = []; no_of_events_in_list = 0 };
}

abbrev after : SmpData
after = record machine { cpus = insert_entries (2 ∷ 3 ∷ []) 100 machine.cpus }

sent_lem :
    send_generic_ipi_ex 1 5 6 0 0 true to_all_excluding_self 0 100 true success success machine
    ≡ done (success, some event, after)
unfolding send_generic_ipi_ex retrieve_matching_cpus match_loop does_cpu_match_destination
    generate_event add_references
sent_lem = refl

send-Delivers_example :
    (event.cpu_events ≡ length (select (meant 1 to_all_excluding_self 0 machine) (1 ∷ 2 ∷ 3 ∷ [])))
    × (after.cpu_list ≡ 1 ∷ 2 ∷ 3 ∷ [])
    × (meant 1 to_all_excluding_self 0 machine 3 ≡ true
        → count 3 machine.cpu_list ≡ 1
        → (place 3 (select (meant 1 to_all_excluding_self 0 machine) (1 ∷ 2 ∷ 3 ∷ []))
            < event.cpu_events)
          × (after.cpus 3
              ≡ insert_entry (machine.cpus 3) (
                  100
                  + place 3 (select (meant 1 to_all_excluding_self 0 machine) (1 ∷ 2 ∷ 3 ∷ [])))))
    × ((meant 1 to_all_excluding_self 0 machine 3 ≡ false) ⊎ (count 3 machine.cpu_list ≡ 0)
        → after.cpus 3 ≡ machine.cpus 3)
send-Delivers_example =
    send-Delivers 1 5 6 0 0 true to_all_excluding_self 0 100 true success success machine after
      event sent_lem 3 (omega arith)
