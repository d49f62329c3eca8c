-- ===== src/Stdlib/Links/Insert.antt =====
-- The links after a node is put in.
use cyan_oskernel.Prelude.{
  ℕ, suc, ◌≤◌, ◌≡◌, refl, ap, Bool, true, false, ◌||◌, List, [], ◌∷◌, ◌++◌, arith, ◌==◌, ==_refl,
  if◌then◌else◌, length,
}
use cyan_oskernel.Stdlib.Links.{
  mem, distinct, nodes, first_of, last_from, next_in, prev_in, insert_before,
}
use cyan_oskernel.Stdlib.Links.Erase.{prev_in-mem, prev_in-from, last_from-mem}

-- The node before a node, or before `m_ending_node`.
abbrev pub before : ℕ → List ℕ → ℕ → ℕ
before p xs old = if old == 1 then last_from p xs else prev_in p xs old

-- Where a node can be put in: before one of the list, or before `m_ending_node`.
abbrev pub is_place : ℕ → List ℕ → Bool
is_place old xs = old == 1 || mem old xs

pub mem-insert_before :
    (old a y : ℕ) (xs : List ℕ) → mem y (insert_before old a xs) ≡ (a == y || mem y xs)
unfolding mem insert_before
mem-insert_before old a y [] = refl
mem-insert_before old a y (x ∷ xs) = ground (arith, mem-insert_before old a y xs)

pub first_of-insert_before :
    (old a : ℕ) (xs : List ℕ)
    → is_place old xs ≡ true
    → first_of (insert_before old a xs) ≡ (if first_of xs == old then a else first_of xs)
unfolding first_of insert_before mem
first_of-insert_before old a [] i = ground arith
first_of-insert_before old a (x ∷ xs) i = ground arith

before-first :
    (p old : ℕ) (xs : List ℕ)
    → is_place old xs ≡ true
    → mem p xs ≡ false
    → nodes xs ≡ true
    → (before p xs old == p) ≡ (first_of xs == old)
unfolding first_of last_from prev_in mem nodes
before-first p old [] i m n = ground (arith, ==_refl p)
before-first p old (x ∷ xs) i m n = ground (arith, last_from-mem x xs, prev_in-mem x old xs)

pub next_in-insert_before :
    (p old a y : ℕ) (xs : List ℕ)
    → is_place old xs ≡ true
    → distinct xs ≡ true
    → nodes xs ≡ true
    → mem a xs ≡ false
    → mem p xs ≡ false
    → (a == y || mem y xs) ≡ true
    → next_in (insert_before old a xs) y
      ≡ (if a == y then old else if before p xs old == y then a else next_in xs y)
unfolding next_in prev_in first_of last_from mem distinct nodes insert_before
next_in-insert_before p old a y [] i d n fresh mp m = ground arith
next_in-insert_before p old a y (x ∷ xs) i d n fresh mp m = ground (
  arith,
  next_in-insert_before x old a y xs,
  first_of-insert_before old a xs,
  before-first x old xs,
)

pub prev_in-insert_before :
    (p old a y : ℕ) (xs : List ℕ)
    → is_place old xs ≡ true
    → nodes xs ≡ true
    → mem a xs ≡ false
    → (a == y || mem y xs) ≡ true
    → prev_in p (insert_before old a xs) y
      ≡ (if a == y then before p xs old else if old == y then a else prev_in p xs y)
unfolding prev_in last_from mem nodes insert_before
prev_in-insert_before p old a y [] i n fresh m = ground arith
prev_in-insert_before p old a y (x ∷ xs) i n fresh m =
    ground (arith, prev_in-insert_before x old a y xs, prev_in-from p a y xs)

pub last_from-insert_before :
    (p old a : ℕ) (xs : List ℕ)
    → nodes xs ≡ true
    → is_place old xs ≡ true
    → last_from p (insert_before old a xs) ≡ (if old == 1 then a else last_from p xs)
unfolding last_from mem nodes insert_before
last_from-insert_before p old a [] n i = ground arith
last_from-insert_before p old a (x ∷ xs) n i = ground (arith, last_from-insert_before x old a xs)

pub distinct-insert_before :
    (old a : ℕ) (xs : List ℕ)
    → distinct xs ≡ true
    → mem a xs ≡ false
    → distinct (insert_before old a xs) ≡ true
unfolding distinct mem insert_before
distinct-insert_before old a [] d fresh = refl
distinct-insert_before old a (x ∷ xs) d fresh =
    ground (arith, distinct-insert_before old a xs, mem-insert_before old a x xs)

pub nodes-insert_before :
    (old a : ℕ) (xs : List ℕ) → nodes xs ≡ true → 2 ≤ a → nodes (insert_before old a xs) ≡ true
unfolding nodes insert_before
nodes-insert_before old a [] n two = ground arith
nodes-insert_before old a (x ∷ xs) n two = ground (arith, nodes-insert_before old a xs)

pub length-insert_before :
    (old a : ℕ) (xs : List ℕ) → length (insert_before old a xs) ≡ suc (length xs)
unfolding insert_before
length-insert_before old a [] = refl
length-insert_before old a (x ∷ xs) = ground (arith, length-insert_before old a xs)

pub insert_at_end : (a : ℕ) (xs : List ℕ) → mem 1 xs ≡ false → insert_before 1 a xs ≡ xs ++ a ∷ []
unfolding insert_before mem
insert_at_end a [] free = refl
insert_at_end a (x ∷ xs) free =
    rw (apart) (ap (λ (zs : List ℕ). x ∷ zs) (insert_at_end a xs (ground arith)))
  where
    apart : (x == 1) ≡ false
    apart = ground arith

pub insert_at_first : (a : ℕ) (xs : List ℕ) → insert_before (first_of xs) a xs ≡ a ∷ xs
unfolding insert_before first_of
insert_at_first a [] = refl
insert_at_first a (x ∷ xs) = rw (==_refl x) refl

pub first_place : (xs : List ℕ) → is_place (first_of xs) xs ≡ true
unfolding first_of mem
first_place [] = refl
first_place (x ∷ xs) = rw (==_refl x) (ground arith)
