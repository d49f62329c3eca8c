-- ===== src/Stdlib/LinkedList/Contents.antt =====
-- The elements that a linked list holds, at both ends and at an index.
use cyan_oskernel.Prelude.{
  ℕ, zero, suc, ◌^◌, ◌≤◌, ◌<◌, ◌≡◌, refl, sym, ap, subst, ◌∙◌, true, false, not, Option, some, List,
  [], ◌∷◌, ◌++◌, arith, length, get_elem?, ◌==◌, ==_refl, if◌then◌else◌, ◌>>=◌, ◌>>◌, assert,
}
use cyan_oskernel.Stdlib.Links.{mem, first_of, last_from, insert_before, ending_node}
use cyan_oskernel.Stdlib.Links.Erase.{no_node}
use cyan_oskernel.Stdlib.Links.Insert.{is_place, insert_at_end, insert_at_first, first_place}
use cyan_oskernel.Stdlib.LinkedList.{
  LinkedList, unlink_node, link_node, insert, push_back, push_front, remove, decrement, pop_back,
  pop_front, advance, at_index,
}
use cyan_oskernel.Stdlib.LinkedList.Linked.{Linked}
use cyan_oskernel.Stdlib.LinkedList.Link.{link_node-Linked}
use cyan_oskernel.Stdlib.LinkedList.Loops.{
  if_data, middle, remove-Linked, increment-next, snoc, unlink_node-data_of,
}

append_nil : (xs : List ℕ) → xs ++ [] ≡ xs
append_nil [] = refl
append_nil (x ∷ xs) = ap (λ (zs : List ℕ). x ∷ zs) (append_nil xs)

length_snoc : (x : ℕ) (xs : List ℕ) → 1 ≤ length (xs ++ x ∷ [])
length_snoc x [] = omega arith
length_snoc x (y ∷ xs) = omega arith

last_from-snoc : (p x : ℕ) (xs : List ℕ) → last_from p (xs ++ x ∷ []) ≡ x
unfolding last_from
last_from-snoc p x [] = refl
last_from-snoc p x (y ∷ xs) = last_from-snoc y x xs

module _ {A : Type 0} where
  unfoldable pub values : (ℕ → A) → List ℕ → List A
  values d [] = []
  values d (x ∷ xs) = d x ∷ values d xs

  values-append : (d : ℕ → A) (xs ys : List ℕ) → values d (xs ++ ys) ≡ values d xs ++ values d ys
  unfolding values
  values-append d [] ys = refl
  values-append d (x ∷ xs) ys = ap (λ vs. d x ∷ vs) (values-append d xs ys)

  -- An assignment to a node that is not on the list does not show.
  values-new :
      (d : ℕ → A) (a : ℕ) (v : A) (xs : List ℕ)
      → mem a xs ≡ false
      → values (λ x. if a == x then v else d x) xs ≡ values d xs
  unfolding values mem
  values-new d a v [] fresh = refl
  values-new d a v (x ∷ xs) fresh =
      rw (apart) (ap (λ vs. d x ∷ vs) (values-new d a v xs (ground arith)))
    where
      apart : (a == x) ≡ false
      apart = ground arith

  link_node-data_of : (a old : ℕ) (l : LinkedList A) → (link_node a old l).data_of ≡ l.data_of
  unfolding link_node
  link_node-data_of a old l =
      if_data l (l.m_count == 0) _ _ refl
        (if_data l (old == l.m_head) _ _ refl (if_data l (old == ending_node) _ _ refl refl))

  same_links :
      (l : LinkedList A) {xs : List ℕ}
      → Linked l xs
      → (a : ℕ) (v : A) → Linked (record l { data_of = λ x. if a == x then v else l.data_of x }) xs
  same_links l h a v = record {
    apart = h.apart;
    proper = h.proper;
    head_is = h.head_is;
    tail_is = h.tail_is;
    nexts = h.nexts;
    prevs = h.prevs;
    ending_prev = h.ending_prev;
    fits = h.fits;
    count_is = h.count_is;
  }

  abbrev with : LinkedList A → ℕ → A → LinkedList A
  with l a v = record l { data_of = λ x. if a == x then v else l.data_of x }

  module _ (l : LinkedList A) (xs : List ℕ) (h : Linked l xs) (a : ℕ) (v : A)
      (fresh : mem a xs ≡ false) (two : 2 ≤ a) (room : suc (length xs) < 2 ^ 32) where
    -- On a list that holds nodes, with room for one more and a new node's address, `push_back` adds
    -- the node, and its element, at the end.
    pub push_back-Linked :
        Linked (push_back a v l) (xs ++ a ∷ [])
        × (values (push_back a v l).data_of (xs ++ a ∷ []) ≡ values l.data_of xs ++ v ∷ [])
    unfolding push_back insert values
    push_back-Linked = (
      subst (Linked (push_back a v l)) at_end
          (link_node-Linked (with l a v) a 1 xs (same_links l h a v) refl fresh two room),
      subst (λ d. values d (xs ++ a ∷ []) ≡ values l.data_of xs ++ v ∷ [])
          (sym (link_node-data_of a 1 (with l a v)))
          (values-append (with l a v).data_of xs (a ∷ [])
            ∙ ap (λ vs. vs ++ (with l a v).data_of a ∷ []) (values-new l.data_of a v xs fresh)
            ∙ rw (==_refl a) refl),
    )
      where
        at_end : insert_before 1 a xs ≡ xs ++ a ∷ []
        at_end = insert_at_end a xs (no_node 1 xs h.proper (omega arith))

    pub push_front-Linked :
        Linked (push_front a v l) (a ∷ xs)
        × (values (push_front a v l).data_of (a ∷ xs) ≡ v ∷ values l.data_of xs)
    unfolding push_front insert values
    push_front-Linked = (
      subst (Linked (push_front a v l))
          (ap (λ (i : ℕ). insert_before i a xs) h.head_is ∙ insert_at_first a xs)
          (link_node-Linked (with l a v) a l.m_head xs (same_links l h a v) place fresh two room),
      subst (λ d. values d (a ∷ xs) ≡ v ∷ values l.data_of xs)
          (sym (link_node-data_of a l.m_head (with l a v)))
          (rw (==_refl a) (ap (λ vs. v ∷ vs) (values-new l.data_of a v xs fresh))),
    )
      where
        place : is_place l.m_head xs ≡ true
        place = ap (λ (i : ℕ). is_place i xs) h.head_is ∙ first_place xs

  pop_last :
      (l : LinkedList A) (x : ℕ) {r : Option (LinkedList A)}
      → l.prev 1 ≡ x
      → 2 ≤ x
      → remove x l ≡ r
      → pop_back l ≡ r
  unfolding pop_back decrement
  pop_last l x last two ran =
      ap (λ b. (assert (not b) >> some (l.prev 1)) >>= λ itr. remove itr l) nonzero
      ∙ ap (λ (i : ℕ). remove i l) last
      ∙ ran
    where
      nonzero : (l.prev 1 == 0) ≡ false
      nonzero = ground arith

  module _ (l : LinkedList A) (x : ℕ) (xs : List ℕ) where
    -- On a list that holds nodes, `pop_front` takes the first away.
    pub pop_front-Linked :
        Linked l (x ∷ xs)
        → (l' : LinkedList A) × (pop_front l ≡ some l') × Linked l' xs × (l'.data_of ≡ l.data_of)
    unfolding pop_front first_of
    pop_front-Linked h =
        let (ran, h') = remove-Linked l [] x xs h in
        (unlink_node x l, ap (λ (i : ℕ). remove i l) h.head_is ∙ ran, h', unlink_node-data_of l x)

    -- `pop_back` takes the last away.
    pub pop_back-Linked :
        Linked l (xs ++ x ∷ [])
        → (l' : LinkedList A) × (pop_back l ≡ some l') × Linked l' xs × (l'.data_of ≡ l.data_of)
    unfolding pop_back decrement
    pop_back-Linked h =
        let (ran, h') = remove-Linked l xs x [] h in
        let last = h.ending_prev (length_snoc x xs) ∙ last_from-snoc 0 x xs in
        (
          unlink_node x l,
          pop_last l x last (middle xs x [] h.apart h.proper).inner.0 ran,
          subst (Linked (unlink_node x l)) (append_nil xs) h',
          unlink_node-data_of l x,
        )

  advance_lem :
      (l : LinkedList A) (i : ℕ) (ks xs : List ℕ)
      → Linked l (ks ++ xs)
      → i < length xs
      → (y : ℕ) × (advance i (first_of xs) l ≡ some y)
        × (some (l.data_of y) ≡ get_elem? (values l.data_of xs) i)
  unfolding advance values first_of
  advance_lem l i ks [] h inside = absurd (omega arith)
  advance_lem l zero ks (x ∷ xs) h inside = (x, refl, refl)
  advance_lem l (suc i) ks (x ∷ xs) h inside =
      let (y, ran, same) = advance_lem l i (ks ++ x ∷ []) xs (rw (snoc ks x xs) h) (omega arith) in
      (y, rw (increment-next l ks x xs h) ran, same)

  -- `operator[]` of an index inside of the list returns the element there.
  pub at_index-values :
      (l : LinkedList A) (xs : List ℕ) (i : ℕ)
      → Linked l xs
      → i < length xs
      → at_index i l ≡ get_elem? (values l.data_of xs) i
  unfolding at_index
  at_index-values l xs i h inside =
      let (y, ran, same) = advance_lem l i [] xs h inside in
      ap (λ (j : ℕ). advance i j l >>= λ itr. some (l.data_of itr)) h.head_is ∙ rw ran same
