-- ===== src/Smp/Delivery.antt =====
-- Whom `SmpSendGenericIpiEx` of src/HAL9000/src/smp.c sends a message to, against the plain selection of
-- the CPUs that match.
use good_osd_project.Prelude.{
  ℕ, suc, ◌+◌, ◌≡◌, ◌≢◌, ◌≤◌, ◌<◌, Bool, true, false, some, List, [], ◌∷◌, ◌==◌, if◌then◌else◌,
  length, update, count, arith, refl, inl, inr, ◌⊎◌, ◌∙◌, ap, ==_iff, eq_cases,
}
use good_osd_project.CommonLib.{RefCounts, ListOps, Checks}
use good_osd_project.Kernel.{done, Status, success}
use good_osd_project.Ipc.{IpcEvent, generate_event}
use good_osd_project.Smp.{
  CpuNode, SmpData, SendMode, does_cpu_match_destination, match_loop, retrieve_matching_cpus,
  insert_entry, insert_entries, send_generic_ipi_ex,
}

-- The CPUs of a list that match, in order.
abbrev pub select : (ℕ → Bool) → List ℕ → List ℕ
select f [] = []
select f (c ∷ cs) = if f c then c ∷ select f cs else select f cs

-- The place of a CPU in a list that it is in.
abbrev pub place : ℕ → List ℕ → ℕ
place p [] = 0
place p (c ∷ cs) = if c == p then 0 else suc (place p cs)

count-select :
    (f : ℕ → Bool) (p : ℕ) (cs : List ℕ) → count p (select f cs) ≡ (if f p then count p cs else 0)
count-select f p [] = ground arith
count-select f p (c ∷ cs) = elim (eq_cases c p) [
  | inl e ↦ rw e (ground (arith, count-select f p cs))
  | inr n ↦ ground (arith, count-select f p cs)
]

match_loop-count :
    (f : ℕ → Bool) (max n : ℕ) (cs : List ℕ) → (match_loop f max n cs).0 ≡ n + length (select f cs)
unfolding match_loop
match_loop-count f max n [] = omega arith
match_loop-count f max n (c ∷ cs) =
    ground (arith, match_loop-count f max (n + 1) cs, match_loop-count f max n cs)

match_loop-select :
    (f : ℕ → Bool) (max n : ℕ) (cs : List ℕ)
    → n + length (select f cs) ≤ max
    → (match_loop f max n cs).1 ≡ select f cs
unfolding match_loop
match_loop-select f max n [] h = refl
match_loop-select f max n (c ∷ cs) h =
    ground (arith, match_loop-select f max (n + 1) cs, match_loop-select f max n cs)

-- The second search finds as many CPUs as the first has counted, and stores them all.
retrieve_twice :
    (f : ℕ → Bool) (cs : List ℕ)
    → let n = (retrieve_matching_cpus f 0 cs).2 in
      (n ≡ length (select f cs)) × (retrieve_matching_cpus f n cs ≡ (success, select f cs, n))
unfolding retrieve_matching_cpus
retrieve_twice f cs =
    let n = length (select f cs) in
    (
      omega (arith, match_loop-count f 0 0 cs),
      ground
          (arith, match_loop-count f 0 0 cs, match_loop-count f n 0 cs, match_loop-select f n 0 cs),
    )

update_at : (f : ℕ → CpuNode) (c p : ℕ) (v : CpuNode) → c ≡ p → update f c v p ≡ v
update_at f c p v e = rw ((==_iff c p).1 e)

update_beside : (f : ℕ → CpuNode) (c p : ℕ) (v : CpuNode) → c ≢ p → update f c v p ≡ f p
update_beside f c p v n = let e : (c == p) ≡ false = ground arith in rw e

module _ ⦃L : ListOps⦄ where
  insert_entries_other :
      (cs : List ℕ) (entry : ℕ) (f : ℕ → CpuNode) (p : ℕ)
      → count p cs ≡ 0
      → insert_entries cs entry f p ≡ f p
  unfolding insert_entries
  insert_entries_other [] entry f p h = refl
  insert_entries_other (c ∷ cs) entry f p h =
      ground (arith, insert_entries_other cs (entry + 1) (update f c (insert_entry (f c) entry)) p)

  insert_entries_once :
      (cs : List ℕ) (entry : ℕ) (f : ℕ → CpuNode) (p : ℕ)
      → count p cs ≡ 1
      → (place p cs < length cs)
        × (insert_entries cs entry f p ≡ insert_entry (f p) (entry + place p cs))
  unfolding insert_entries
  insert_entries_once [] entry f p h = absurd (omega arith)
  insert_entries_once (c ∷ cs) entry f p h = elim (eq_cases c p) [
    | inl e ↦
        let z : place p (c ∷ cs) ≡ 0 = ground arith in
        (
          ground arith,
          insert_entries_other cs (entry + 1) (update f c (insert_entry (f c) entry)) p
                (ground arith)
              ∙ update_at f c p _ e
              ∙ rw (z, e) (ap (insert_entry (f p)) (omega arith)),
        )
    | inr n ↦
        let z : place p (c ∷ cs) ≡ suc (place p cs) = ground arith in
        let (lo, q) =
          insert_entries_once cs (entry + 1) (update f c (insert_entry (f c) entry)) p
            (ground arith) in
        (
          ground arith,
          q
              ∙ ap (λ (d : CpuNode). insert_entry d (entry + 1 + place p cs))
                  (update_beside f c p _ n)
              ∙ ap (insert_entry (f p)) (omega arith),
        )
  ]

-- Whether a message is for the CPU at `p`.
abbrev pub meant : ⦃C : Checks⦄ → (self : ℕ) → SendMode → (d : ℕ) → SmpData → ℕ → Bool
meant self mode d s p = does_cpu_match_destination self mode d (s.cpus p)

module _ ⦃L : ListOps⦄ ⦃R : RefCounts⦄ ⦃C : Checks⦄ (self f c ff fc : ℕ) (wait : Bool)
    (mode : SendMode) (d events : ℕ) (allocated : Bool) (evt_status rfc_status : Status)
    (s s' : SmpData) (e : IpcEvent)
    (ok : send_generic_ipi_ex self f c ff fc wait mode d events allocated evt_status rfc_status s
      ≡ done (success, some e, s')) where
  send-made :
      (generate_event f c ff fc wait
          (length (select (meant self mode d s) s.cpu_list))
          allocated
          evt_status
          rfc_status
        ≡ some e)
      × (s' ≡ record s {
        cpus = insert_entries (select (meant self mode d s) s.cpu_list) events s.cpus;
      })
  unfolding send_generic_ipi_ex
  send-made =
      let (n, twice) = retrieve_twice (meant self mode d s) s.cpu_list in
      (ground (arith, n, twice), ground (arith, n, twice))

  cpu_events-eq : e.cpu_events ≡ length (select (meant self mode d s) s.cpu_list)
  unfolding generate_event
  cpu_events-eq = ground (arith, send-made)

  -- A message is sent with success, and `p` stands at most once in the list of CPUs. If the CPU at `p`
  -- is in the list and the message is for it, the entry of the event at the CPU's place among those that
  -- the message is for goes to the end of its list, whose counter goes up; if not, it stays as it is. The
  -- event has as many entries as there are CPUs in the list that the message is for, and the list of
  -- CPUs stays.
  pub send-Delivers :
      (p : ℕ)
      → count p s.cpu_list ≤ 1
      → let found = select (meant self mode d s) s.cpu_list in
        (e.cpu_events ≡ length found)
        × (s'.cpu_list ≡ s.cpu_list)
        × (meant self mode d s p ≡ true
            → count p s.cpu_list ≡ 1
            → (place p found < e.cpu_events)
              × (s'.cpus p ≡ insert_entry (s.cpus p) (events + place p found)))
        × ((meant self mode d s p ≡ false) ⊎ (count p s.cpu_list ≡ 0) → s'.cpus p ≡ s.cpus p)
  send-Delivers p once =
      let (made, shape) = send-made in
      let n = cpu_events-eq in
      let k = count-select (meant self mode d s) p s.cpu_list in
      (
        n,
        ap (λ (t : SmpData). t.cpu_list) shape,
        (λ m here.
            let (lo, q) =
              insert_entries_once (select (meant self mode d s) s.cpu_list) events s.cpus p
                (ground (arith, k)) in
            (omega (arith, n, lo), ap (λ (t : SmpData). t.cpus p) shape ∙ q)),
        (λ out.
            ap (λ (t : SmpData). t.cpus p) shape
            ∙ insert_entries_other (select (meant self mode d s) s.cpu_list) events s.cpus p
                (ground (arith, k))),
      )
