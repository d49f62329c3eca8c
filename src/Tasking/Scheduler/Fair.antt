-- ===== src/Tasking/Scheduler/Fair.antt =====
-- The scheduler passes no ready thread over.
use native.Mathlib.Decide.{dec_lt}
use cyan_oskernel.Prelude.{
  ℕ, zero, suc, ◌+◌, ◌-◌, ◌≤◌, ◌<◌, ◌≡◌, refl, sym, ap, ◌∙◌, true, some, List, [], ◌∷◌, arith,
  length, get_elem?, get_elem?_inside, inl, inr, Option-cases, ◌>>=◌,
}
use cyan_oskernel.Stdlib.Links.{mem, distinct, first_of, next_in, ending_node}
use cyan_oskernel.Stdlib.Links.Erase.{nodes-mem}
use cyan_oskernel.Stdlib.IntrusiveList.{IntrusiveList}
use cyan_oskernel.Stdlib.IntrusiveList.Holds.{Holds}
use cyan_oskernel.Tasking.Scheduler.{
  select_next_thread, turns, round_robin, select_next_thread-turn,
}

mem-get : (xs : List ℕ) (i t : ℕ) → get_elem? xs i ≡ some t → mem t xs ≡ true
unfolding mem
mem-get [] i t at = cc
mem-get (x ∷ xs) zero t at = ground arith
mem-get (x ∷ xs) (suc i) t at = ground (arith, mem-get xs i t at)

get-inside : (xs : List ℕ) (i t : ℕ) → get_elem? xs i ≡ some t → i < length xs
get-inside [] i t at = cc
get-inside (x ∷ xs) zero t at = omega arith
get-inside (x ∷ xs) (suc i) t at = omega (arith, get-inside xs i t at)

-- The node after the one at an index.
next_in-at :
    (xs : List ℕ) (i t u : ℕ)
    → distinct xs ≡ true
    → get_elem? xs i ≡ some t
    → get_elem? xs (suc i) ≡ some u
    → next_in xs t ≡ u
unfolding next_in distinct first_of
next_in-at [] i t u d at after = cc
next_in-at (x ∷ []) i t u d at after = cc
next_in-at (x ∷ y ∷ xs) zero t u d at after = ground arith
next_in-at (x ∷ y ∷ xs) (suc i) t u d at after =
    ground (arith, next_in-at (y ∷ xs) i t u, mem-get (y ∷ xs) i t at)

next_in-end :
    (xs : List ℕ) (i t : ℕ)
    → distinct xs ≡ true
    → get_elem? xs i ≡ some t
    → suc i ≡ length xs
    → next_in xs t ≡ ending_node
unfolding next_in distinct first_of
next_in-end [] i t d at last = cc
next_in-end (x ∷ []) i t d at last = ground arith
next_in-end (x ∷ y ∷ xs) zero t d at last = absurd (omega arith)
next_in-end (x ∷ y ∷ xs) (suc i) t d at last =
    ground (arith, next_in-end (y ∷ xs) i t, mem-get (y ∷ xs) i t at)

first_at : (xs : List ℕ) (v : ℕ) → get_elem? xs 0 ≡ some v → first_of xs ≡ v
unfolding first_of
first_at [] v front = cc
first_at (x ∷ xs) v front = cc

turns-add : (a b t : ℕ) (l : IntrusiveList) → turns (a + b) t l ≡ (turns a t l >>= λ u. turns b u l)
unfolding turns
turns-add zero b t l = ap (λ (n : ℕ). turns n t l) (omega arith)
turns-add (suc a) b t l = elim (Option-cases (select_next_thread t l)) [
  | inl fails ↦ ap (λ (n : ℕ). turns n t l) sum ∙ rw fails refl
  | inr (u, runs) ↦ ap (λ (n : ℕ). turns n t l) sum ∙ rw runs (turns-add a b u l)
]
  where
    sum : suc a + b ≡ suc (a + b)
    sum = omega arith

same-thread : {a b : ℕ} → some a ≡ some b → a ≡ b
same-thread e = cc

module _ (l : IntrusiveList) (xs : List ℕ) (h : Holds l xs) where
  turn : (i t : ℕ) → get_elem? xs i ≡ some t → select_next_thread t l ≡ some (round_robin xs t)
  turn i t at =
      select_next_thread-turn l xs h t (nodes-mem t xs h.proper (mem-get xs i t at))
        (omega (arith, get-inside xs i t at))

  turn_on :
      (i t u : ℕ) → get_elem? xs i ≡ some t → get_elem? xs (suc i) ≡ some u → round_robin xs t ≡ u
  unfolding round_robin
  turn_on i t u at after = ground (
    arith,
    mem-get xs i t at,
    next_in-at xs i t u h.apart at after,
    nodes-mem u xs h.proper (mem-get xs (suc i) u after),
  )

  turn_over :
      (i t : ℕ) → get_elem? xs i ≡ some t → suc i ≡ length xs → round_robin xs t ≡ first_of xs
  unfolding round_robin
  turn_over i t at last = ground (arith, next_in-end xs i t h.apart at last)

  forward :
      (m i t u : ℕ) → get_elem? xs i ≡ some t → get_elem? xs (i + m) ≡ some u → turns m t l ≡ some u
  unfolding turns
  forward zero i t u at there = sym at ∙ ap (λ (j : ℕ). get_elem? xs j) (omega arith) ∙ there
  forward (suc m) i t u at there =
      let (v, next) =
        get_elem?_inside xs (suc i) (omega (arith, get-inside xs (i + suc m) u there)) in
      ap (λ r. r >>= λ w. turns m w l) (turn i t at)
      ∙ ap (λ (w : ℕ). turns m w l) (turn_on i t v at next)
      ∙ forward m (suc i) v u next (ap (λ (j : ℕ). get_elem? xs j) (omega arith) ∙ there)

  -- From the last thread, the turn goes to the first.
  over :
      (j t u : ℕ) (last : ℕ)
      → suc last ≡ length xs
      → get_elem? xs last ≡ some t
      → get_elem? xs j ≡ some u
      → turns (suc j) t l ≡ some u
  unfolding turns
  over j t u last at_end at there =
      let (v, front) = get_elem?_inside xs 0 (omega arith) in
      ap (λ r. r >>= λ w. turns j w l) (turn last t at)
      ∙ ap (λ (w : ℕ). turns j w l) (turn_over last t at at_end ∙ first_at xs v front)
      ∙ forward j 0 v u front (ap (λ (k : ℕ). get_elem? xs k) (omega arith) ∙ there)

  -- While the list of ready threads stays as it is, each of them comes to run after at most as many
  -- switches as there are ready threads, whichever of them runs now.
  pub turns-fair :
      (i j t u : ℕ)
      → get_elem? xs i ≡ some t
      → get_elem? xs j ≡ some u
      → (n : ℕ) × (n ≤ length xs) × (turns n t l ≡ some u)
  turns-fair i j t u at there = elim (dec_lt j i) [
    | no ahead ↦ (
      j - i,
      omega (arith, get-inside xs j u there),
      forward (j - i) i t u at (ap (λ (k : ℕ). get_elem? xs k) (omega arith) ∙ there),
    )
    | yes behind ↦
        let (v, last) = get_elem?_inside xs (length xs - 1) (omega (arith, get-inside xs i t at)) in
        (
          (length xs - 1 - i) + suc j,
          omega (arith, get-inside xs i t at),
          turns-add (length xs - 1 - i) (suc j) t l
              ∙ ap (λ r. r >>= λ w. turns (suc j) w l)
                  (forward (length xs - 1 - i) i t v at
                    (ap (λ (k : ℕ). get_elem? xs k) (omega (arith, get-inside xs i t at)) ∙ last))
              ∙ over j v u (length xs - 1) (omega (arith, get-inside xs i t at)) last there,
        )
  ]
