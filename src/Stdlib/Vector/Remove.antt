-- ===== src/Stdlib/Vector/Remove.antt =====
-- Removal and search in a vector are those of the list of its objects.
use native.Mathlib.Decide.{ℕ_discrete}
use cyan_oskernel.Prelude.{
  ℕ, zero, suc, ◌+◌, ◌-◌, ◌≤◌, ◌<◌, ◌≡◌, inl, inr, refl, sym, ap, subst, ◌∙◌, Bool, true, false,
  ◌||◌, Option, none, some, List, [], ◌∷◌, arith, ltb, if◌then◌else◌, Bool-cases, length, get_elem?,
  set, length-set, get_elem?-set, get_elem?-beyond, get_elem?_inside, remove_at, length-append,
  ◌++◌,
}
use cyan_oskernel.Stdlib.Vector.{
  Vector, shift_down, remove, remove_if_loop, remove_if, find_if_loop, find_if,
}
use cyan_oskernel.Stdlib.Vector.Slots.{shift_down_lem}
use cyan_oskernel.Stdlib.Vector.Refine.{Holds, held-Objects}

-- The list without the elements that satisfy a predicate, and whether there are any.
unfoldable pub filter_out {ℓ} : {A : Type ℓ} → (A → Bool) → List A → List A
filter_out predicate [] = []
filter_out predicate (x ∷ xs) =
    let rest = filter_out predicate xs in if predicate x then rest else x ∷ rest

unfoldable pub any {ℓ} : {A : Type ℓ} → (A → Bool) → List A → Bool
any predicate [] = false
any predicate (x ∷ xs) = predicate x || any predicate xs

-- The index of the first element that satisfies a predicate, or the length of the list.
pub record FirstIndex {ℓ} {A : Type ℓ} (predicate : A → Bool) (q : List A) (r : ℕ) : Type ℓ where
  pub inside : r ≤ length q
  pub before : (j : ℕ) (x : A) → j < r → get_elem? q j ≡ some x → predicate x ≡ false
  pub hit : r < length q → (x : A) × (get_elem? q r ≡ some x) × (predicate x ≡ true)

module _ {A : Type 0} where
  length-remove_at : (q : List A) (p : ℕ) → p < length q → suc (length (remove_at q p)) ≡ length q
  length-remove_at [] p lt = absurd (omega arith)
  length-remove_at (y ∷ q) zero lt = refl
  length-remove_at (y ∷ q) (suc p) lt = ap (λ (n : ℕ). suc n) (length-remove_at q p (omega arith))

  get_elem?-remove_at :
      (q : List A) (p j : ℕ)
      → p < length q
      → get_elem? (remove_at q p) j ≡ (if ltb j p then get_elem? q j else get_elem? q (suc j))
  get_elem?-remove_at [] p j lt = absurd (omega arith)
  get_elem?-remove_at (y ∷ q) zero j lt = ground arith
  get_elem?-remove_at (y ∷ q) (suc p) zero lt = ground arith
  get_elem?-remove_at (y ∷ q) (suc p) (suc j) lt =
      ground (arith, get_elem?-remove_at q p j (omega arith))

  remove-step :
      (v : Vector A) (p : ℕ) (x y : A) (slots : List (Option A))
      → get_elem? v.storage p ≡ some (some x)
      → shift_down (v.count - 1 - p) p v.storage ≡ some slots
      → get_elem? slots (v.count - 1) ≡ some (some y)
      → remove v p ≡ some (record v { storage = set slots (v.count - 1) none; count = v.count - 1 })
  unfolding remove
  remove-step v p x y slots here ran last = ground arith

  module _ (v : Vector A) (q : List A) (h : Holds v q) where
    -- `remove` of an object of the vector takes it out, and keeps the others in their order.
    pub remove-Holds :
        (p : ℕ)
        → p < length q
        → (v' : Vector A) × (remove v p ≡ some v')
          × Holds v' (remove_at q p)
          × (v'.capacity ≡ v.capacity)
    unfolding remove
    remove-Holds p lt =
        let n = v.count - 1 - p in
        let (slots, ran, len, spots) =
          shift_down_lem n p v.storage
            (λ j lo hi. held-Objects v q h j (omega arith) (omega (arith, h.count)))
            (omega (arith, h.count, h.fits, h.storage)) in
        let (x, here) = held-Objects v q h p (omega arith) (omega (arith, h.count)) in
        let (y, last) = held-Objects v q h (v.count - 1) (omega arith) (omega (arith, h.count)) in
        let last' : get_elem? slots (v.count - 1) ≡ some (some y) =
          ground (arith, spots (v.count - 1)) in
        let free = λ (j : ℕ).
          get_elem?-set slots (v.count - 1) j none
            (omega (arith, len, h.count, h.fits, h.storage)) in
        (
          record v { storage = set slots (v.count - 1) none; count = v.count - 1 },
          remove-step v p x y slots here ran last',
          record {
            storage = length-set slots (v.count - 1) none ∙ len ∙ h.storage;
            small = h.small;
            steps = h.steps;
            count = omega (arith, h.count, length-remove_at q p lt);
            fits = omega (arith, h.fits);
            slots = λ j inside. ground (
              arith,
              free j,
              spots j,
              h.slots j,
              h.slots (suc j),
              h.count,
              h.fits,
              get_elem?-remove_at q p j lt,
              get_elem?-beyond q j,
              get_elem?-beyond q (suc j),
            );
          },
          refl,
        )

  module _ (predicate : A → Bool) where
    same_object : {x y : A} → some x ≡ some y → x ≡ y
    same_object e = cc

    find_hit :
        (n i : ℕ) (slots : List (Option A)) (x : A)
        → get_elem? slots i ≡ some (some x)
        → predicate x ≡ true
        → find_if_loop predicate (suc n) i slots ≡ some i
    unfolding find_if_loop
    find_hit n i slots x e t = rw (e, find_if_loop) (rw t refl)

    find_miss :
        (n i : ℕ) (slots : List (Option A)) (x : A)
        → get_elem? slots i ≡ some (some x)
        → predicate x ≡ false
        → find_if_loop predicate (suc n) i slots ≡ find_if_loop predicate n (suc i) slots
    unfolding find_if_loop
    find_miss n i slots x e f = rw (e, find_if_loop) (rw f refl)

    module _ (v : Vector A) (q : List A) (h : Holds v q) where
      before_next :
          (i : ℕ) (x : A)
          → get_elem? q i ≡ some x
          → predicate x ≡ false
          → ((j : ℕ) (y : A) → j < i → get_elem? q j ≡ some y → predicate y ≡ false)
          → (j : ℕ) (y : A) → j < suc i
          → get_elem? q j ≡ some y
          → predicate y ≡ false
      before_next i x here f before j y lt got = elim (ℕ_discrete j i) [
        | yes same ↦ ap predicate (same_object (sym got ∙ ap (get_elem? q) same ∙ here)) ∙ f
        | no ne ↦ before j y (omega arith) got
      ]

      find_loop-First :
          (n i : ℕ)
          → i + n ≡ length q
          → ((j : ℕ) (x : A) → j < i → get_elem? q j ≡ some x → predicate x ≡ false)
          → (r : ℕ) × (find_if_loop predicate n i v.storage ≡ some r) × FirstIndex predicate q r
      unfolding find_if_loop
      find_loop-First zero i all before = (
        i,
        refl,
        record { inside = omega arith; before = before; hit = λ lt. absurd (omega arith) },
      )
      find_loop-First (suc n) i all before =
          let (x, here) = get_elem?_inside q i (omega arith) in
          let held : get_elem? v.storage i ≡ some (some x) =
            ground (arith, h.slots i, h.count, h.fits) in
          elim (Bool-cases (predicate x)) [
            | inl t ↦ (
              i,
              find_hit n i v.storage x held t,
              record { inside = omega arith; before = before; hit = λ lt. (x, here, t) },
            )
            | inr f ↦
                let (r, ran, found) =
                  find_loop-First n (suc i) (omega arith) (before_next i x here f before) in
                (r, find_miss n i v.storage x held f ∙ ran, found)
          ]

      -- `find_if` ends at the first object that satisfies the predicate, or at the end.
      pub find_if-FirstIndex : (r : ℕ) × (find_if predicate v ≡ some r) × FirstIndex predicate q r
      unfolding find_if
      find_if-FirstIndex =
          let (r, ran, found) =
            find_loop-First (length q) 0 (omega arith) (λ j x lt got. absurd (omega arith)) in
          (r, ap (λ (n : ℕ). find_if_loop predicate n 0 v.storage) h.count ∙ ran, found)

    middle : (kept rest : List A) (x : A) → get_elem? (kept ++ x ∷ rest) (length kept) ≡ some x
    middle [] rest x = refl
    middle (y ∷ kept) rest x = middle kept rest x

    remove_middle :
        (kept rest : List A) (x : A) → remove_at (kept ++ x ∷ rest) (length kept) ≡ kept ++ rest
    remove_middle [] rest x = refl
    remove_middle (y ∷ kept) rest x = ap (λ (zs : List A). y ∷ zs) (remove_middle kept rest x)

    regroup : (kept rest : List A) (x : A) → (kept ++ x ∷ []) ++ rest ≡ kept ++ x ∷ rest
    regroup [] rest x = refl
    regroup (y ∷ kept) rest x = ap (λ (zs : List A). y ∷ zs) (regroup kept rest x)

    remove_round :
        (n i : ℕ) (b : Bool) (v v' : Vector A) (x : A)
        → get_elem? v.storage i ≡ some (some x)
        → predicate x ≡ true
        → remove v i ≡ some v'
        → remove_if_loop predicate (suc n) i b v ≡ remove_if_loop predicate n i true v'
    unfolding remove_if_loop
    remove_round n i b v v' x e t ran = rw (e, remove_if_loop) (rw t (rw ran refl))

    keep_round :
        (n i : ℕ) (b : Bool) (v : Vector A) (x : A)
        → get_elem? v.storage i ≡ some (some x)
        → predicate x ≡ false
        → remove_if_loop predicate (suc n) i b v ≡ remove_if_loop predicate n (suc i) b v
    unfolding remove_if_loop
    keep_round n i b v x e f = rw (e, remove_if_loop) (rw f refl)

    remove_loop-Holds :
        (kept rest : List A) (b : Bool) (v : Vector A)
        → Holds v (kept ++ rest)
        → (v' : Vector A) × (remove_if_loop predicate (length rest) (length kept) b v
            ≡ some (b || any predicate rest, v'))
          × Holds v' (kept ++ filter_out predicate rest)
    unfolding remove_if_loop any filter_out
    remove_loop-Holds kept [] b v h = (v, ap (λ (c : Bool). some (c, v)) (ground arith), h)
    remove_loop-Holds kept (x ∷ rest) b v h =
        let inside : length kept < length (kept ++ x ∷ rest) =
          omega (arith, length-append kept (x ∷ rest)) in
        let held : get_elem? v.storage (length kept) ≡ some (some x) =
          h.slots (length kept) (omega (arith, h.count, h.fits))
          ∙ ap (λ (o : Option A). some o) (middle kept rest x) in
        elim (Bool-cases (predicate x)) [
          | inl t ↦
              let (v1, ran1, h1, _) = remove-Holds v (kept ++ x ∷ rest) h (length kept) inside in
              let (v', ran, h') =
                remove_loop-Holds kept rest true v1
                  (subst (λ (xs : List A). Holds v1 xs) (remove_middle kept rest x) h1) in
              (
                v',
                remove_round (length rest) (length kept) b v v1 x held t ran1
                    ∙ ran
                    ∙ ap (λ (c : Bool). some (c, v')) (ground arith),
                rw t h',
              )
          | inr f ↦
              let next : length (kept ++ x ∷ []) ≡ suc (length kept) =
                omega (arith, length-append kept (x ∷ [])) in
              let (v', ran, h') =
                remove_loop-Holds (kept ++ x ∷ []) rest b v
                  (subst (λ (xs : List A). Holds v xs) (sym (regroup kept rest x)) h) in
              (
                v',
                keep_round (length rest) (length kept) b v x held f
                    ∙ ap (λ (i : ℕ). remove_if_loop predicate (length rest) i b v) (sym next)
                    ∙ ran
                    ∙ ap (λ (c : Bool). some (c, v')) (ground arith),
                rw f (
                    subst (λ (xs : List A). Holds v' xs)
                      (regroup kept (filter_out predicate rest) x) h'),
              )
        ]

    -- `remove_if` takes out the objects that satisfy the predicate, keeps the others in their
    -- order, and says whether there were any.
    pub remove_if-Holds :
        (v : Vector A) (q : List A)
        → Holds v q
        → (v' : Vector A) × (remove_if predicate v ≡ some (any predicate q, v'))
          × Holds v' (filter_out predicate q)
    unfolding remove_if
    remove_if-Holds v q h =
        let (v', ran, h') = remove_loop-Holds [] q false v h in
        (v', ap (λ (n : ℕ). remove_if_loop predicate n 0 false v) h.count ∙ ran, h')
