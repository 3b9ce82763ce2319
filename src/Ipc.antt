-- ===== src/Ipc.antt =====
-- Events that one CPU sends to others, src/HAL9000/src/ipc.c. An event stands in the list of each CPU
-- that it is sent to; what a CPU does with it, and what its sender does, is cut into the steps that
-- other CPUs can separate.
pub mod Runs
use good_osd_project.Prelude.{
  ℕ, zero, suc, ◌+◌, ◌-◌, ◌≡◌, Bool, true, false, not, ◌&&◌, Option, none, some, List, [], ◌∷◌,
  ◌==◌, if◌then◌else◌,
}
use good_osd_project.CommonLib.{RefCounts}
use good_osd_project.Kernel.{Status, success, null}

-- `IPC_EVENT`. A function is its address, and `cpu_events` is the number of the event's entries.
pub record IpcEvent : Type 0 where
  pub ref_cnt : ℕ
  pub function : ℕ
  pub context : ℕ
  pub signal_termination : Bool
  pub termination_signaled : Bool
  pub free_function : ℕ
  pub free_function_context : ℕ
  pub cpu_events : ℕ

-- An event on its way: the entries that no CPU has taken up yet, the CPUs that run its function, those
-- that are to signal its end, whether its sender waits, the calls of its function and of its free
-- function, newest first, and how often its memory was freed.
pub record Run : Type 0 where
  pub event : IpcEvent
  pub unprocessed : ℕ
  pub running : ℕ
  pub signaling : ℕ
  pub waiting : Bool
  pub calls : List ℕ
  pub free_calls : List (ℕ × ℕ)
  pub frees : ℕ

abbrev pub succeeded : Status → Bool
succeeded success = true
succeeded _ = false

module _ ⦃R : RefCounts⦄ where
  -- The loop that adds the references of `IpcGenerateEvent`.
  unfoldable pub add_references : (n ref_cnt : ℕ) → ℕ
  add_references zero c = c
  add_references (suc n) c = add_references n (R.rfc_reference c)

  -- `IpcGenerateEvent`; `none` is `NULL`. `allocated` tells whether the heap has room, and the two
  -- statuses are those of `EvtInitialize` and `RfcInit`.
  unfoldable pub generate_event :
      (function context free_function free_context : ℕ)
      → (wait : Bool) → (number_of_cpus : ℕ) → (allocated : Bool) → (evt_status rfc_status : Status)
      → Option IpcEvent
  generate_event f c ff fc wait n allocated evt_status rfc_status =
      let event : IpcEvent = record {
        ref_cnt = add_references (if wait then n else n - 1) R.rfc_init;
        function = f;
        context = c;
        signal_termination = wait;
        termination_signaled = false;
        free_function = ff;
        free_function_context = fc;
        cpu_events = n;
      } in
      if f == null
      then none
      else (if n == 0
          then none
          else (if not allocated
              then none
              else (if wait && not (succeeded evt_status)
                  then none
                  else (if not (succeeded rfc_status) then none else some event))))

  -- The event in the lists of its CPUs, and its sender behind the loop of `SmpSendGenericIpiEx`.
  abbrev pub sent : IpcEvent → Run
  sent e = record {
    event = e;
    unprocessed = e.cpu_events;
    running = 0;
    signaling = 0;
    waiting = e.signal_termination;
    calls = [];
    free_calls = [];
    frees = 0;
  }

  -- `_IpcFreeEvent`
  unfoldable pub free_event : Run → Run
  free_event r =
      let e = r.event in
      let calls =
        if e.free_function == null
        then r.free_calls
        else (e.context, e.free_function_context) ∷ r.free_calls in
      record r { free_calls = calls; frees = r.frees + 1 }

  -- `RfcDereference` of the event: the new count.
  unfoldable pub dereference : Run → ℕ × Run
  unfolding free_event
  dereference r =
      let n = R.rfc_dereference r.event.ref_cnt in
      let r' = record r { event = record r.event { ref_cnt = n } } in
      (n, if n == 0 then free_event r' else r')

  -- `IpcProcessEvent`, in three parts: the call of the function, what follows it up to the new count,
  -- and the signal to the sender.
  unfoldable pub begin_event : Run → Run
  begin_event r = record r {
    unprocessed = r.unprocessed - 1;
    running = r.running + 1;
    calls = r.event.context ∷ r.calls;
  }

  unfoldable pub finish_event : Run → Run
  unfolding dereference
  finish_event r =
      let signals = r.event.signal_termination in
      let (n, r') = dereference r in
      record r' {
        running = r.running - 1;
        signaling = if signals && (n == 1) then r.signaling + 1 else r.signaling;
      }

  unfoldable pub signal_event : Run → Run
  signal_event r = record r {
    event = record r.event { termination_signaled = true };
    signaling = r.signaling - 1;
  }

  -- `IpcWaitForEventHandling`, from where its wait ends. The event clears as it lets the sender go on.
  unfoldable pub end_wait : Run → Run
  unfolding dereference
  end_wait r =
      let cleared = record r {
        event = record r.event { termination_signaled = false };
        waiting = false;
      } in
      let (n, r') = dereference cleared in r'
