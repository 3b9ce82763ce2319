-- ===== src/Mdl/Coverage.antt =====
-- The pairs of a memory descriptor list, src/HAL9000/src/mdl.c, against the pages that they describe.
use good_osd_project.Prelude.{
  inl, inr, refl, ℕ, zero, suc, ◌+◌, ◌-◌, ◌*◌, ◌^◌, ◌≡◌, ◌≢◌, ◌≤◌, ◌<◌, ◌∙◌, ap, true, false,
  Option, none, some, List, [], ◌∷◌, ltb, if◌then◌else◌, length, arith, Bool-cases,
}
use good_osd_project.CommonLib.{page_size}
use good_osd_project.Kernel.{done, ◌>>=◌, Returns, Returns->>=}
use good_osd_project.Mdl.{Pair, follows, next_pair, count_loop, fill_loop}

-- The physical address of the byte `i` of a sequence of pairs.
unfoldable pub byte_at : List Pair → ℕ → Option ℕ
byte_at [] i = none
byte_at (p ∷ ps) i =
    let rest = byte_at ps (i - p.number_of_bytes) in
    if ltb i p.number_of_bytes then some (p.address + i) else rest

-- The bytes of all pairs.
abbrev pub total : List Pair → ℕ
total [] = 0
total (p ∷ ps) = p.number_of_bytes + total ps

-- No pair goes on where the one before it ends.
abbrev pub IsMaximal : List Pair → Type 0
IsMaximal [] = Unit
IsMaximal (p ∷ []) = Unit
IsMaximal (p ∷ q ∷ ps) = (p.address + p.number_of_bytes ≢ q.address) × IsMaximal (q ∷ ps)

abbrev pub page : ℕ → Pair
page pa = record { address = pa; number_of_bytes = page_size }

module _ (translate : ℕ → ℕ) where
  -- A pair for each page, nothing put together.
  abbrev pub pages : (rounds at : ℕ) → List Pair
  pages zero at = []
  pages (suc r) at = page (translate at) ∷ pages r (at + page_size)

  -- Every page of the run is mapped.
  abbrev pub Mapped : (rounds at : ℕ) → Type 0
  Mapped zero at = Unit
  Mapped (suc r) at = (translate at ≢ 0) × Mapped r (at + page_size)

  abbrev Filled : (rounds at : ℕ) → Pair → List Pair → Type 0
  Filled r at p ps =
      ((i : ℕ) → byte_at ps i ≡ byte_at (p ∷ pages r at) i)
      × (total ps ≡ p.number_of_bytes + r * page_size)
      × IsMaximal ps

  -- The head of what the loop writes begins where the current pair does.
  abbrev pub HeadAt : Pair → List Pair → Type 0
  HeadAt p [] = ⊥
  HeadAt p (q ∷ ps) = q.address ≡ p.address

  byte_at-merge :
      (p : Pair) (pa : ℕ) (ps : List Pair) (i : ℕ)
      → p.address + p.number_of_bytes ≡ pa
      → byte_at (record p { number_of_bytes = p.number_of_bytes + page_size } ∷ ps) i
        ≡ byte_at (p ∷ page pa ∷ ps) i
  unfolding byte_at
  byte_at-merge p pa ps i e =
      let apart : i - (p.number_of_bytes + page_size) ≡ i - p.number_of_bytes - page_size =
        omega arith in
      ground arith

  byte_at-cons :
      (p : Pair) (ps qs : List Pair)
      → ((i : ℕ) → byte_at ps i ≡ byte_at qs i)
      → (i : ℕ) → byte_at (p ∷ ps) i ≡ byte_at (p ∷ qs) i
  unfolding byte_at
  byte_at-cons p ps qs h i = rw (h (i - p.number_of_bytes))

  IsMaximal-cons :
      (p : Pair) (pa : ℕ) (ps : List Pair)
      → follows p pa ≡ false
      → HeadAt (page pa) ps
      → IsMaximal ps
      → IsMaximal (p ∷ ps)
  IsMaximal-cons p pa [] f h m = tt
  IsMaximal-cons p pa (q ∷ ps) f h m = (λ e. ground arith, m)

  -- What the two loops come to, from the current pair and the rounds left.
  pub record Wrote (r at : ℕ) (p : Pair) (ps : List Pair) : Type 0 where
    pub same_bytes : (i : ℕ) → byte_at ps i ≡ byte_at (p ∷ pages r at) i
    pub same_total : total ps ≡ p.number_of_bytes + r * page_size
    pub maximal : IsMaximal ps
    pub head : HeadAt p ps
    pub counted : (n : ℕ) → count_loop translate r at p n ≡ done (n + (length ps - 1))

  length-pos : (p : Pair) (ps : List Pair) → HeadAt p ps → 1 ≤ length ps
  length-pos p [] h = absurd h
  length-pos p (q ∷ ps) h = omega arith

  module _ (r at : ℕ) (p : Pair) (ps : List Pair) (real : translate at ≢ 0) where
    abbrev pa : ℕ
    pa = translate at

    Wrote-merge :
        follows p pa ≡ true
        → let p' = record p { number_of_bytes = p.number_of_bytes + page_size } in
          (next_pair p pa ≡ p') → Wrote r (at + page_size) p' ps → Wrote (suc r) at p ps
    unfolding count_loop
    Wrote-merge f ne w = record {
      same_bytes =
          λ i. w.same_bytes i ∙ byte_at-merge p pa (pages r (at + page_size)) i (ground arith);
      same_total = omega (arith, w.same_total);
      maximal = w.maximal;
      head = w.head;
      counted = λ n. ground (arith, w.counted n);
    }

    Wrote-cons :
        follows p pa ≡ false → Wrote r (at + page_size) (page pa) ps → Wrote (suc r) at p (p ∷ ps)
    unfolding count_loop next_pair
    Wrote-cons f w = record {
      same_bytes = byte_at-cons p ps (pages (suc r) at) w.same_bytes;
      same_total = omega (arith, w.same_total);
      maximal = IsMaximal-cons p pa ps f w.head w.maximal;
      head = refl;
      counted = λ n. ground (arith, w.counted (n + 1), length-pos (page pa) ps w.head);
    }

  fill_loop-suc :
      (r at : ℕ) (p : Pair)
      → translate at ≢ 0
      → fill_loop translate (suc r) at p ≡ (
          fill_loop translate r (at + page_size) (next_pair p (translate at)) >>= λ rest.
          done (if follows p (translate at) then rest else p ∷ rest))
  unfolding fill_loop
  fill_loop-suc r at p real = ground arith

  next_pair-merge :
      (p : Pair) (pa : ℕ)
      → p.number_of_bytes + page_size < 2 ^ 32
      → follows p pa ≡ true
      → next_pair p pa ≡ record p { number_of_bytes = p.number_of_bytes + page_size }
  unfolding next_pair
  next_pair-merge p pa h f = ground arith

  next_pair-page : (p : Pair) (pa : ℕ) → follows p pa ≡ false → next_pair p pa ≡ page pa
  unfolding next_pair
  next_pair-page p pa f = rw f

  pub fill_loop-Wrote :
      (r at : ℕ) (p : Pair)
      → Mapped r at
      → p.number_of_bytes + r * page_size < 2 ^ 32
      → Returns (Wrote r at p) (fill_loop translate r at p)
  unfolding fill_loop count_loop
  fill_loop-Wrote zero at p m h = record {
    same_bytes = λ i. refl;
    same_total = omega arith;
    maximal = tt;
    head = refl;
    counted = λ n. ap done (omega arith);
  }
  fill_loop-Wrote (suc r) at p (real, m) h = elim (Bool-cases (follows p (translate at))) [
    | inl f ↦
        let np = next_pair-merge p (translate at) (omega arith) f in
        rw (fill_loop-suc r at p real) (
          Returns->>= (Wrote (suc r) at p)
            (fill_loop translate r (at + page_size) (next_pair p (translate at))) _
            (rw np (
              fill_loop-Wrote r (at + page_size)
                (record p { number_of_bytes = p.number_of_bytes + page_size }) m (omega arith)))
            (λ ps w. rw f (Wrote-merge r at p ps real f np w)))
    | inr f ↦
        let np = next_pair-page p (translate at) f in
        rw (fill_loop-suc r at p real) (
          Returns->>= (Wrote (suc r) at p)
            (fill_loop translate r (at + page_size) (next_pair p (translate at))) _
            (rw np (fill_loop-Wrote r (at + page_size) (page (translate at)) m (omega arith)))
            (λ ps w. rw f (Wrote-cons r at p ps real f w)))
  ]
