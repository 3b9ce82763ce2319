-- ===== src/Event.antt =====
-- Executive events, src/HAL9000/src/ex_event.c.
pub mod Signal
use good_osd_project.Prelude.{
  ℕ, zero, suc, ◌+◌, Bool, true, false, Option, none, some, List, [], length, if◌then◌else◌,
}
use good_osd_project.CommonLib.{ListOps}
use good_osd_project.Kernel.{
  Outcome, done, spinning, ◌>>=◌, Event, EventType, notification, synchronization, is_notification,
  Status, success, invalid_parameter1, invalid_parameter2, Kernel,
}
use good_osd_project.Sched.{unblock}

-- `ExEventInit`. `ExEventTypeReserved` is the number of the types that there are; the event is left
-- as it was (`none`) where the arguments are refused.
unfoldable pub event_type_of : ℕ → Option EventType
event_type_of zero = some notification
event_type_of (suc zero) = some synchronization
event_type_of (suc (suc n)) = none

unfoldable pub init :
    (is_null : Bool) → (event_type : ℕ) → (signaled : Bool) → Status × Option Event
unfolding event_type_of
init is_null n signaled = if is_null then (invalid_parameter1, none) else elim (event_type_of n) [
  | none ↦ (invalid_parameter2, none)
  | some t ↦ (success, some (record { event_type = t; signaled = signaled; waiting = [] }))
]

-- `ExEventClearSignal`
unfoldable pub clear_signal : Event → Event
clear_signal e = record e { signaled = false }

-- The test of the loop of `ExEventWaitForSignal`, an interlocked compare and exchange: whether the
-- wait is over, and the event behind it.
unfoldable pub try_wait : Event → Bool × Event
try_wait e =
    if e.signaled then (true, record e { signaled = is_notification e.event_type }) else (false, e)

module _ ⦃L : ListOps⦄ where
  -- The part of the loop's body under the event's lock: the thread joins the waiting list.
  unfoldable pub enqueue : Event → ℕ → Event
  enqueue e t = record e { waiting = L.insert_tail e.waiting t }

  -- The loop of `ExEventSignal`, on fuel.
  unfoldable pub signal_loop : ℕ → EventType → List ℕ → Kernel → Outcome (List ℕ × Kernel)
  signal_loop zero ty waiting k = spinning
  signal_loop (suc fuel) ty waiting k = elim (L.remove_head waiting) [
    | none ↦ done (waiting, k)
    | some (t, rest) ↦ do
      k' ← unblock k t
      elim (is_notification ty) [ true ↦ signal_loop fuel ty rest k' | false ↦ done (rest, k') ]
  ]

  -- `ExEventSignal`. Each round takes a thread off the list, so the list's length and one are
  -- rounds enough.
  unfoldable pub signal : Event → Kernel → Outcome (Event × Kernel)
  unfolding signal_loop
  signal e k = do
    (waiting, k') ← signal_loop (suc (length e.waiting)) e.event_type e.waiting k
    done (record e { signaled = true; waiting = waiting }, k')
