-- ===== src/Ipc/Runs.antt =====
-- All the ways in which the CPUs and the sender of an event of src/HAL9000/src/ipc.c can follow one
-- another.
use good_osd_project.Prelude.{
  ℕ, zero, suc, ◌+◌, ◌-◌, ◌*◌, ◌≡◌, ◌≤◌, ◌<◌, Bool, true, false, ◌&&◌, some, length, ◌==◌,
  if◌then◌else◌, arith, ◌∙◌, ap, Bool-cases, inl, inr,
}
use good_osd_project.CommonLib.{RefCounts}
use good_osd_project.Kernel.{Status, null}
use good_osd_project.Ipc.{
  IpcEvent, Run, generate_event, add_references, sent, begin_event, finish_event, signal_event,
  end_wait,
}

module _ ⦃R : RefCounts⦄ where
  -- A CPU takes up an entry, ends its function, or signals the sender, or the sender's wait ends.
  pub data Step : Run → Run → Type 0 where
    begin : {r : Run} → 0 < r.unprocessed → Step r (begin_event r)
    finish : {r : Run} → 0 < r.running → Step r (finish_event r)
    signal : {r : Run} → 0 < r.signaling → Step r (signal_event r)
    wake : {r : Run} → r.waiting ≡ true → r.event.termination_signaled ≡ true → Step r (end_wait r)

  -- A run of that many steps.
  pub data Steps (r : Run) : ℕ → Run → Type 0 where
    here : Steps r 0 r
    next : {k : ℕ} {s t : Run} → Steps r k s → Step s t → Steps r (suc k) t

abbrev pub bit : Bool → ℕ
bit b = if b then 1 else 0

-- The steps that are left at most.
abbrev weight : Run → ℕ
weight r = 3 * r.unprocessed + 2 * r.running + r.signaling + bit r.waiting

-- What holds of an event from its sending on, to `n` CPUs by a sender that waits or not.
pub record IsSound (n : ℕ) (wait : Bool) (r : Run) : Type 0 where
  pub mode : r.event.signal_termination ≡ wait
  pub only_waits : bit r.waiting ≤ bit wait
  pub counted : r.event.ref_cnt ≡ r.unprocessed + r.running + bit r.waiting
  pub freed : r.frees ≡ (if r.event.ref_cnt == 0 then 1 else 0)
  pub called : length r.calls + r.unprocessed ≡ n
  pub signals :
      r.signaling + bit r.event.termination_signaled
      ≡ (if r.waiting && (r.unprocessed + r.running == 0) then 1 else 0)
  pub waits : bit wait ≤ bit r.waiting + r.frees
  pub free_called : length r.free_calls ≡ (if r.event.free_function == null then 0 else r.frees)

module _ ⦃R : RefCounts⦄ where
  pub drop_reference : (c : ℕ) → 0 < c → R.rfc_dereference c ≡ c - 1
  drop_reference c h =
      let e : c ≡ c - 1 + 1 = omega arith in ap R.rfc_dereference e ∙ R.rfc_dereference_lem (c - 1)

module _ ⦃R : RefCounts⦄ {n : ℕ} {wait : Bool} where
  begin-IsSound : {r : Run} → 0 < r.unprocessed → IsSound n wait r → IsSound n wait (begin_event r)
  unfolding begin_event
  begin-IsSound h i = ground arith

  finish-IsSound : {r : Run} → 0 < r.running → IsSound n wait r → IsSound n wait (finish_event r)
  unfolding finish_event
  finish-IsSound {r} h i = let d = drop_reference r.event.ref_cnt (omega arith) in ground (arith, d)

  signal-IsSound : {r : Run} → 0 < r.signaling → IsSound n wait r → IsSound n wait (signal_event r)
  unfolding signal_event
  signal-IsSound h i = ground arith

  wake-IsSound :
      {r : Run}
      → r.waiting ≡ true
      → r.event.termination_signaled ≡ true
      → IsSound n wait r
      → IsSound n wait (end_wait r)
  unfolding end_wait
  wake-IsSound {r} h k i =
      let d = drop_reference r.event.ref_cnt (ground arith) in ground (arith, d)

  Step-IsSound : {r s : Run} → Step r s → IsSound n wait r → IsSound n wait s
  Step-IsSound (begin h) i = begin-IsSound h i
  Step-IsSound (finish h) i = finish-IsSound h i
  Step-IsSound (signal h) i = signal-IsSound h i
  Step-IsSound (wake h k) i = wake-IsSound h k i

  Steps-IsSound : {r s : Run} {k : ℕ} → Steps r k s → IsSound n wait r → IsSound n wait s
  Steps-IsSound here i = i
  Steps-IsSound (next p st) i = Step-IsSound st (Steps-IsSound p i)

  Step-weight : {r s : Run} → Step r s → IsSound n wait r → weight s < weight r
  unfolding begin_event finish_event signal_event end_wait
  Step-weight (begin h) i = ground arith
  Step-weight (finish h) i = ground arith
  Step-weight (signal h) i = ground arith
  Step-weight (wake h k) i = ground arith

  Steps-weight : {r s : Run} {k : ℕ} → Steps r k s → IsSound n wait r → weight s + k ≤ weight r
  Steps-weight here i = omega arith
  Steps-weight (next p st) i = omega (arith, Steps-weight p i, Step-weight st (Steps-IsSound p i))

  -- Where no step is left, all is done.
  stuck_done : {r : Run} → IsSound n wait r → ((s : Run) → ¬ Step r s) → weight r ≡ 0
  stuck_done {r} i no_step =
      let a : r.unprocessed ≡ 0 = ground (arith, λ (h : 0 < r.unprocessed). no_step _ (begin h)) in
      let b : r.running ≡ 0 = ground (arith, λ (h : 0 < r.running). no_step _ (finish h)) in
      let c : r.signaling ≡ 0 = ground (arith, λ (h : 0 < r.signaling). no_step _ (signal h)) in
      let d : r.waiting ≡ false = elim (Bool-cases r.waiting) [
        | inr e ↦ e
        | inl e ↦ absurd (no_step _ (wake e (ground arith)))
      ] in
      ground arith

module _ ⦃R : RefCounts⦄ where
  add_references-eq : (n c : ℕ) → add_references n c ≡ c + n
  unfolding add_references
  add_references-eq zero c = omega arith
  add_references-eq (suc n) c =
      omega (arith, add_references-eq n (R.rfc_reference c), R.rfc_reference_lem c)

  module _ (f c ff fc : ℕ) (wait : Bool) (n : ℕ) (allocated : Bool) (evt_status rfc_status : Status)
      (e : IpcEvent)
      (made : generate_event f c ff fc wait n allocated evt_status rfc_status ≡ some e) where
    sent-IsSound : IsSound n wait (sent e)
    unfolding generate_event
    sent-IsSound = ground (
      arith,
      made,
      R.rfc_init_lem,
      add_references-eq n R.rfc_init,
      add_references-eq (n - 1) R.rfc_init,
    )

    sent-shape : (e.cpu_events ≡ n) × (e.signal_termination ≡ wait)
    unfolding generate_event
    sent-shape = ground arith

    -- An event for `n` CPUs has been made and is sent, and the CPUs and the sender have made any number
    -- of steps, in any order. As long as a CPU has not taken it up, runs its function or is to signal
    -- the sender, or the sender waits, its memory is not freed; and once a sender that waits goes on,
    -- its function has been called for each of the `n` CPUs, and each of these calls has ended.
    pub event_safe :
        {k : ℕ} {r : Run}
        → Steps (sent e) k r
        → (0 < r.unprocessed + r.running + r.signaling + bit r.waiting → r.frees ≡ 0)
          × (wait ≡ true
              → r.waiting ≡ false
              → (length r.calls ≡ n) × (r.running ≡ 0) × (r.signaling ≡ 0))
    event_safe p =
        let i = Steps-IsSound p sent-IsSound in ((λ h. ground arith), (λ h g. ground arith))

    -- An event for `n` CPUs has been made and is sent, and the CPUs and the sender have made steps in any
    -- order: at most `3 * n + 1` of them. Where no step is left, its function has been called `n` times,
    -- its sender goes on, its memory has been freed once, and its free function, if it has one, was
    -- called once.
    pub event_ends :
        {k : ℕ} {r : Run}
        → Steps (sent e) k r
        → (k ≤ 3 * n + 1)
          × (((s : Run) → ¬ Step r s)
              → (length r.calls ≡ n)
                × (r.running ≡ 0)
                × (r.waiting ≡ false)
                × (r.frees ≡ 1)
                × (length r.free_calls ≡ (if r.event.free_function == null then 0 else 1)))
    event_ends p =
        let i = Steps-IsSound p sent-IsSound in
        let w = Steps-weight p sent-IsSound in
        (ground (arith, sent-shape), (λ stuck. let done = stuck_done i stuck in ground arith))
