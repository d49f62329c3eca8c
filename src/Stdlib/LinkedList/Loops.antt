-- ===== src/Stdlib/LinkedList/Loops.antt =====
-- The loops over the nodes.
use cyan_oskernel.Prelude.{
  ℕ, zero, suc, ◌≤◌, ◌<◌, ◌≡◌, refl, ap, subst, ◌∙◌, inl, inr, Bool, true, false, ◌&&◌, ◌||◌, some,
  List, [], ◌∷◌, ◌++◌, arith, length, ◌==◌, ==_refl, if◌then◌else◌, Bool-cases,
}
use cyan_oskernel.Stdlib.Links.{mem, distinct, nodes, first_of, next_in, erase, ending_node}
use cyan_oskernel.Stdlib.LinkedList.{
  LinkedList, unlink_node, remove, increment, find_loop, find_if, remove_loop, remove_if,
}
use cyan_oskernel.Stdlib.LinkedList.Linked.{Linked}
use cyan_oskernel.Stdlib.LinkedList.Unlink.{unlink_node-Linked}

mem-append : (y : ℕ) (ks xs : List ℕ) → mem y (ks ++ xs) ≡ (mem y ks || mem y xs)
unfolding mem
mem-append y [] xs = refl
mem-append y (k ∷ ks) xs = ground (arith, mem-append y ks xs)

-- The nodes of a list, seen from one of them.
pub record Middle (ks : List ℕ) (x : ℕ) (xs : List ℕ) : Type 0 where
  pub here : mem x (ks ++ x ∷ xs) ≡ true
  pub next_is : next_in (ks ++ x ∷ xs) x ≡ first_of xs
  pub without_it : erase x (ks ++ x ∷ xs) ≡ ks ++ xs
  pub inner : (2 ≤ x) × (1 ≤ first_of xs)

nodes-first : (xs : List ℕ) → nodes xs ≡ true → 1 ≤ first_of xs
unfolding nodes first_of
nodes-first [] n = omega arith
nodes-first (x ∷ xs) n = ground arith

pub middle :
    (ks : List ℕ) (x : ℕ) (xs : List ℕ)
    → distinct (ks ++ x ∷ xs) ≡ true
    → nodes (ks ++ x ∷ xs) ≡ true
    → Middle ks x xs
unfolding mem distinct nodes next_in erase
middle [] x xs d n = record {
  here = rw (==_refl x) refl;
  next_is = rw (==_refl x) refl;
  without_it = rw (==_refl x) refl;
  inner = (ground arith, nodes-first xs (ground arith));
}
middle (k ∷ ks) x xs d n =
    let m = middle ks x xs (ground arith) (ground arith) in
    record {
      here = ground (arith, m.here);
      next_is = ground (arith, m.here, m.next_is);
      without_it = ground (arith, m.here, m.without_it);
      inner = m.inner;
    }

pub snoc : (ks : List ℕ) (x : ℕ) (xs : List ℕ) → (ks ++ x ∷ []) ++ xs ≡ ks ++ x ∷ xs
snoc [] x xs = refl
snoc (k ∷ ks) x xs = ap (λ (zs : List ℕ). k ∷ zs) (snoc ks x xs)

module _ {A : Type 0} (l : LinkedList A) where
  pub if_data :
      (b : Bool) (l1 l2 : LinkedList A)
      → l1.data_of ≡ l.data_of
      → l2.data_of ≡ l.data_of
      → (if b then l1 else l2).data_of ≡ l.data_of
  if_data true l1 l2 e1 e2 = e1
  if_data false l1 l2 e1 e2 = e2

  pub unlink_node-data_of : (t : ℕ) → (unlink_node t l).data_of ≡ l.data_of
  unfolding unlink_node
  unlink_node-data_of t =
      if_data (l.m_head == t && l.m_tail == t) _ _ refl
        (if_data (l.m_head == t) _ _ refl (if_data (l.m_tail == t) _ _ refl refl))

  module _ (ks : List ℕ) (x : ℕ) (xs : List ℕ) (h : Linked l (ks ++ x ∷ xs)) where
    at : Middle ks x xs
    at = middle ks x xs h.apart h.proper

    pub increment-next : increment x l ≡ some (first_of xs)
    unfolding increment
    increment-next = rw (h.nexts x at.here ∙ at.next_is) (rw positive refl)
      where
        positive : (first_of xs == 0) ≡ false
        positive = ground (arith, at.inner)

    not_ending : (x == 1) ≡ false
    not_ending = ground (arith, at.inner)

    pub remove-Linked : (remove x l ≡ some (unlink_node x l)) × Linked (unlink_node x l) (ks ++ xs)
    unfolding remove
    remove-Linked = (
      rw positive refl,
      subst (Linked (unlink_node x l)) at.without_it
          (unlink_node-Linked l x (ks ++ x ∷ xs) h at.here),
    )
      where
        positive : (x == 0) ≡ false
        positive = ground (arith, at.inner)

or_false : (b : Bool) → b ≡ (b || false)
or_false true = refl
or_false false = refl

or_taken : (b e : Bool) {p : Bool} → p ≡ true → true ≡ (b || (p || e))
or_taken true e same = refl
or_taken false e same = rw same refl

or_passed : (b e : Bool) {p : Bool} → p ≡ false → (b || e) ≡ (b || (p || e))
or_passed b e same = rw same refl

module _ {A : Type 0} (predicate : A → Bool) where
  -- The first node whose element the predicate takes, or `m_ending_node`.
  unfoldable pub find_node : (ℕ → A) → List ℕ → ℕ
  find_node d [] = ending_node
  find_node d (x ∷ xs) = if predicate (d x) then x else find_node d xs

  -- The nodes whose elements the predicate does not take.
  unfoldable pub keep : (ℕ → A) → List ℕ → List ℕ
  keep d [] = []
  keep d (x ∷ xs) = let rest = keep d xs in if predicate (d x) then rest else x ∷ rest

  unfoldable pub exists : (ℕ → A) → List ℕ → Bool
  exists d [] = false
  exists d (x ∷ xs) = predicate (d x) || exists d xs

  find_loop_lem :
      (n : ℕ) (ks xs : List ℕ) (l : LinkedList A)
      → Linked l (ks ++ xs)
      → length xs < n
      → find_loop predicate n (first_of xs) l ≡ some (find_node l.data_of xs)
  unfolding find_loop find_node first_of
  find_loop_lem zero ks xs l h enough = absurd (omega arith)
  find_loop_lem (suc n) ks [] l h enough = refl
  find_loop_lem (suc n) ks (x ∷ xs) l h enough = elim (Bool-cases (predicate (l.data_of x))) [
    | inl taken ↦ rw (not_ending l ks x xs h, find_loop) (rw taken refl)
    | inr passed ↦
        rw (not_ending l ks x xs h, find_loop)
          (rw passed (
            rw (increment-next l ks x xs h)
              (find_loop_lem n (ks ++ x ∷ []) xs l (rw (snoc ks x xs) h) (omega arith))))
  ]

  module _ (ks : List ℕ) (x : ℕ) (xs : List ℕ) (l : LinkedList A) (h : Linked l (ks ++ x ∷ xs))
      (n : ℕ) (b : Bool) where
    taken_step :
        predicate (l.data_of x) ≡ true
        → remove_loop predicate (suc n) x b l
          ≡ remove_loop predicate n (first_of xs) true (unlink_node x l)
    unfolding remove_loop
    taken_step taken =
        rw (not_ending l ks x xs h, remove_loop)
          (rw (increment-next l ks x xs h) (rw taken (rw (remove-Linked l ks x xs h).0 refl)))

    passed_step :
        predicate (l.data_of x) ≡ false
        → remove_loop predicate (suc n) x b l ≡ remove_loop predicate n (first_of xs) b l
    unfolding remove_loop
    passed_step passed =
        rw (not_ending l ks x xs h, remove_loop) (rw (increment-next l ks x xs h) (rw passed refl))

  remove_loop_lem :
      (n : ℕ) (ks xs : List ℕ) (b : Bool) (l : LinkedList A)
      → Linked l (ks ++ xs)
      → length xs < n
      → (l' : LinkedList A) × (remove_loop predicate n (first_of xs) b l
          ≡ some (b || exists l.data_of xs, l'))
        × Linked l' (ks ++ keep l.data_of xs)
        × (l'.data_of ≡ l.data_of)
  unfolding remove_loop keep exists first_of
  remove_loop_lem zero ks xs b l h enough = absurd (omega arith)
  remove_loop_lem (suc n) ks [] b l h enough = (l, ap (λ c. some (c, l)) (or_false b), h, refl)
  remove_loop_lem (suc n) ks (x ∷ xs) b l h enough = elim (Bool-cases (predicate (l.data_of x))) [
    | inl taken ↦
        let (ran, h1) = remove-Linked l ks x xs h in
        let same = unlink_node-data_of l x in
        let (l', ran', h', same') =
          remove_loop_lem n ks xs true (unlink_node x l) h1 (omega arith) in
        (
          l',
          taken_step ks x xs l h n b taken
              ∙ ran'
              ∙ ap (λ c. some (c, l')) (or_taken b (exists l.data_of xs) taken),
          rw taken (subst (λ d. Linked l' (ks ++ keep d xs)) same h'),
          same' ∙ same,
        )
    | inr passed ↦
        let (l', ran', h', same') =
          remove_loop_lem n (ks ++ x ∷ []) xs b l (rw (snoc ks x xs) h) (omega arith) in
        (
          l',
          passed_step ks x xs l h n b passed
              ∙ ran'
              ∙ ap (λ c. some (c, l')) (or_passed b (exists l.data_of xs) passed),
          rw passed (subst (Linked l') (snoc ks x (keep l.data_of xs)) h'),
          same',
        )
  ]

  -- On a list that holds nodes, `find_if` returns an iterator to the first whose element the
  -- predicate takes, or else `end()`: its loop ends.
  pub find_if-Linked :
      (l : LinkedList A) (xs : List ℕ)
      → Linked l xs
      → find_if predicate l ≡ some (find_node l.data_of xs)
  unfolding find_if
  find_if-Linked l xs h =
      ap (λ (i : ℕ). find_loop predicate (suc l.m_count) i l) h.head_is
      ∙ find_loop_lem (suc l.m_count) [] xs l h (omega (arith, h.count_is))

  -- On a list that holds nodes, the loop of `remove_if` ends with no failed ASSERT. The list then
  -- holds the nodes whose elements the predicate does not take, in their order and with their
  -- elements, and the result says whether there was another.
  pub remove_if-Linked :
      (l : LinkedList A) (xs : List ℕ)
      → Linked l xs
      → (l' : LinkedList A) × (remove_if predicate l ≡ some (exists l.data_of xs, l'))
        × Linked l' (keep l.data_of xs)
        × (l'.data_of ≡ l.data_of)
  unfolding remove_if
  remove_if-Linked l xs h =
      let (l', ran, h', same) =
        remove_loop_lem (suc l.m_count) [] xs false l h (omega (arith, h.count_is)) in
      (
        l',
        ap (λ (i : ℕ). remove_loop predicate (suc l.m_count) i false l) h.head_is ∙ ran,
        h',
        same,
      )
