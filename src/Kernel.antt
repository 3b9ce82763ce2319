-- ===== src/Kernel.antt =====
-- The state that the scheduler, the events and the processes share: `THREAD`
-- (src/HAL9000/headers/thread_internal.h), `THREADING_DATA` (src/HAL9000/headers/cpumu.h), `PROCESS`
-- (src/HAL9000/headers/process_internal.h) and `EX_EVENT` (src/HAL9000/src/ex_event.c).
-- A pointer is a number, and 0 is `NULL`. A `LOCK` is the CPU that holds it.
use good_osd_project.Prelude.{
  ◌≡◌, refl, ℕ, ◌%◌, ◌^◌, Bool, true, false, Option, none, some, List, ◌∷◌, ◌==◌, update,
}

-- The result of code that asserts and that takes locks: `ASSERT` stops the machine, and a lock that
-- is held makes the CPU spin.
pub data Outcome {ℓ} (A : Type ℓ) : Type ℓ where
  done : A → Outcome A
  bug_check : Outcome A
  spinning : Outcome A

infixl 5 ◌>>=◌ ◌>>◌
abbrev pub ◌>>=◌ {ℓ κ} : {A : Type ℓ} {B : Type κ} → Outcome A → (A → Outcome B) → Outcome B
done a >>= f = f a
bug_check >>= f = bug_check
spinning >>= f = spinning

abbrev pub ◌>>◌ {ℓ} : {B : Type ℓ} → Outcome (Unit {0}) → Outcome B → Outcome B
m >> k = m >>= λ _. k

-- `ASSERT`
abbrev pub assert : Bool → Outcome (Unit {0})
assert true = done tt
assert false = bug_check

-- The values of `STATUS` that the modelled code returns or stores; `exited n` is a status that a
-- thread's own function chose.
pub data Status : Type 0 where
  success job_interrupted invalid_parameter1 invalid_parameter2 invalid_parameter3 : Status
  invalid_parameter4 element_not_found memory_is_not_reserved memory_already_reserved : Status
  memory_conflicting_access_rights memory_conflicting_cacheability memory_cannot_be_reserved :
      Status
  memory_is_not_commited memory_prevents_usermode_access memory_insufficient_access_rights : Status
  buffer_too_small unsupported incompatible_interface insufficient_memory : Status
  heap_insufficient_resources cpu_no_matches unsuccessful invalid_parameter5 invalid_parameter6 :
      Status
  exited : ℕ → Status

-- Arithmetic of `BYTE`, `DWORD` and `QWORD`.
abbrev pub byte : ℕ → ℕ
byte n = n % 256

abbrev pub dword : ℕ → ℕ
dword n = n % 2 ^ 32

abbrev pub qword : ℕ → ℕ
qword n = n % 2 ^ 64

abbrev pub null : ℕ
null = 0

pub data ThreadState : Type 0 where
  running ready blocked dying : ThreadState

abbrev pub is_ready : ThreadState → Bool
is_ready ready = true
is_ready _ = false

abbrev pub is_blocked : ThreadState → Bool
is_blocked blocked = true
is_blocked _ = false

abbrev pub is_dying : ThreadState → Bool
is_dying dying = true
is_dying _ = false

pub data EventType : Type 0 where
  notification synchronization : EventType

abbrev pub is_notification : EventType → Bool
is_notification notification = true
is_notification synchronization = false

pub record Event : Type 0 where
  pub event_type : EventType
  pub signaled : Bool
  pub waiting : List ℕ

pub record Thread : Type 0 where
  pub state : ThreadState
  pub flags : ℕ
  pub exit_status : Status
  pub termination_evt : Event
  pub block_lock : Option ℕ
  pub process : ℕ
  pub tick_count_completed : ℕ
  pub uninterrupted_ticks : ℕ
  pub tick_count_early : ℕ

pub record Cpu : Type 0 where
  pub running_thread_ticks : ℕ
  pub idle_thread : ℕ
  pub current_thread : ℕ
  pub previous_thread : ℕ
  pub yield_on_interrupt_return : Bool
  pub idle_ticks : ℕ
  pub kernel_ticks : ℕ

pub record Process : Type 0 where
  pub number_of_threads : ℕ
  pub active_threads : ℕ
  pub thread_list : List ℕ
  pub termination_status : Status
  pub termination_evt : Event

-- The calls that leave the modelled code, newest first.
pub data Effect : Type 0 where
  change_process_space : ℕ → Effect
  update_idle_time : Bool → Effect
  switch_threads : (from to : ℕ) → Effect
  dereference_thread : ℕ → Effect
  reference_process dereference_process : ℕ → Effect

pub record Kernel : Type 0 where
  pub threads : ℕ → Thread
  pub ready_list : List ℕ
  pub cpus : ℕ → Cpu
  pub processes : ℕ → Process
  pub effects : List Effect

-- Writes through a pointer to a thread, a CPU or a process.
abbrev pub set_thread : Kernel → ℕ → Thread → Kernel
set_thread k t v = record k { threads = update k.threads t v }

abbrev pub set_cpu : Kernel → ℕ → Cpu → Kernel
set_cpu k c v = record k { cpus = update k.cpus c v }

abbrev pub set_process : Kernel → ℕ → Process → Kernel
set_process k p v = record k { processes = update k.processes p v }

abbrev pub log_effect : Kernel → Effect → Kernel
log_effect k e = record k { effects = e ∷ k.effects }

-- `LockIsOwner`
abbrev pub is_owner : Option ℕ → ℕ → Bool
is_owner none c = false
is_owner (some d) c = d == c

-- Whether `LockAcquire` goes through at once.
abbrev pub is_free : Option ℕ → Bool
is_free none = true
is_free (some d) = false

abbrev pub acquire : Option ℕ → Outcome (Unit {0})
acquire none = done tt
acquire (some d) = spinning

-- The code returns, with a result for which `P` holds.
abbrev pub Returns {ℓ} : {A : Type ℓ} → (A → Type 0) → Outcome A → Type 0
Returns P (done a) = P a
Returns P bug_check = ⊥
Returns P spinning = ⊥

pub Returns-map {ℓ} :
    {A : Type ℓ} {P Q : A → Type 0} (o : Outcome A)
    → ((a : A) → P a → Q a)
    → Returns P o
    → Returns Q o
Returns-map (done a) f h = f a h
Returns-map bug_check f h = h
Returns-map spinning f h = h

pub Returns->>= {ℓ κ} :
    {A : Type ℓ} {B : Type κ} {P : A → Type 0} (Q : B → Type 0) (o : Outcome A) (f : A → Outcome B)
    → Returns P o
    → ((a : A) → P a → Returns Q (f a))
    → Returns Q (o >>= f)
Returns->>= Q (done a) f h g = g a h
Returns->>= Q bug_check f h g = h
Returns->>= Q spinning f h g = h

-- The result of code that returns.
pub Returns-done {ℓ} :
    {A : Type ℓ} {P : A → Type 0} (o : Outcome A) → Returns P o → (a : A) × (o ≡ done a) × P a
Returns-done (done a) h = (a, refl, h)
Returns-done bug_check h = absurd h
Returns-done spinning h = absurd h
