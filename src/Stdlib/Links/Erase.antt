-- ===== src/Stdlib/Links/Erase.antt =====
-- The links after a node is taken out.
use cyan_oskernel.Prelude.{
  ℕ, suc, ◌≤◌, ◌<◌, ◌≡◌, refl, true, false, not, ◌&&◌, ◌||◌, List, [], ◌∷◌, arith, ◌==◌, ==_refl,
  if◌then◌else◌, length,
}
use cyan_oskernel.Stdlib.Links.{mem, distinct, nodes, first_of, last_from, next_in, prev_in, erase}

pub first_of-erase :
    (t : ℕ) (xs : List ℕ)
    → first_of (erase t xs) ≡ (if first_of xs == t then next_in xs t else first_of xs)
unfolding first_of erase next_in
first_of-erase t [] = ground arith
first_of-erase t (x ∷ xs) = ground arith

-- The nodes that the links name.
pub prev_in-mem :
    (p t : ℕ) (xs : List ℕ)
    → mem t xs ≡ true
    → (prev_in p xs t == p || mem (prev_in p xs t) xs) ≡ true
unfolding prev_in mem
prev_in-mem p t [] m = cc
prev_in-mem p t (x ∷ xs) m = ground (arith, prev_in-mem x t xs, ==_refl p)

pub next_in-mem : (t : ℕ) (xs : List ℕ) → (next_in xs t == 1 || mem (next_in xs t) xs) ≡ true
unfolding next_in first_of mem
next_in-mem t [] = refl
next_in-mem t (x ∷ []) = ground arith
next_in-mem t (x ∷ y ∷ xs) = ground (arith, next_in-mem t (y ∷ xs), ==_refl y)

pub prev_in-from :
    (p q t : ℕ) (xs : List ℕ)
    → mem t xs ≡ true
    → prev_in p xs t ≡ (if first_of xs == t then p else prev_in q xs t)
unfolding prev_in first_of mem
prev_in-from p q t [] m = cc
prev_in-from p q t (x ∷ xs) m = ground arith

-- Only the first node has `p` before it.
pub prev_in-first :
    (p t : ℕ) (xs : List ℕ)
    → mem t xs ≡ true
    → mem p xs ≡ false
    → (prev_in p xs t == p) ≡ (first_of xs == t)
unfolding prev_in first_of mem
prev_in-first p t [] m d = cc
prev_in-first p t (x ∷ xs) m d = ground (arith, prev_in-mem x t xs)

pub mem-erase :
    (t y : ℕ) (xs : List ℕ) → distinct xs ≡ true → mem y (erase t xs) ≡ (mem y xs && not (t == y))
unfolding mem erase distinct
mem-erase t y [] d = refl
mem-erase t y (x ∷ xs) d = ground (arith, mem-erase t y xs)

pub next_in-erase :
    (p t y : ℕ) (xs : List ℕ)
    → mem t xs ≡ true
    → mem y xs ≡ true
    → (t == y) ≡ false
    → mem p xs ≡ false
    → distinct xs ≡ true
    → next_in (erase t xs) y ≡ (if prev_in p xs t == y then next_in xs t else next_in xs y)
unfolding next_in prev_in erase mem distinct
next_in-erase p t y [] mt my ne mp d = cc
next_in-erase p t y (x ∷ xs) mt my ne mp d =
    ground (arith, next_in-erase x t y xs, prev_in-first x t xs, first_of-erase t xs)

pub prev_in-erase :
    (p t y : ℕ) (xs : List ℕ)
    → mem t xs ≡ true
    → mem y xs ≡ true
    → (t == y) ≡ false
    → distinct xs ≡ true
    → nodes xs ≡ true
    → prev_in p (erase t xs) y ≡ (if next_in xs t == y then prev_in p xs t else prev_in p xs y)
unfolding next_in prev_in erase mem distinct nodes
prev_in-erase p t y [] mt my ne d n = cc
prev_in-erase p t y (x ∷ xs) mt my ne d n =
    ground (arith, prev_in-erase x t y xs, next_in-mem t xs, prev_in-from p x y xs)

pub last_from-mem : (p : ℕ) (xs : List ℕ) → (last_from p xs == p || mem (last_from p xs) xs) ≡ true
unfolding last_from mem
last_from-mem p [] = rw (==_refl p)
last_from-mem p (x ∷ xs) = ground (arith, last_from-mem x xs, ==_refl x)

pub last_from-erase :
    (p t : ℕ) (xs : List ℕ)
    → mem t xs ≡ true
    → distinct xs ≡ true
    → last_from p (erase t xs) ≡ (if last_from p xs == t then prev_in p xs t else last_from p xs)
unfolding last_from prev_in erase mem distinct
last_from-erase p t [] m d = cc
last_from-erase p t (x ∷ []) m d = ground arith
last_from-erase p t (x ∷ y ∷ xs) m d =
    ground (arith, last_from-erase x t (y ∷ xs), last_from-mem y xs, ==_refl y)

pub distinct-erase : (t : ℕ) (xs : List ℕ) → distinct xs ≡ true → distinct (erase t xs) ≡ true
unfolding distinct erase
distinct-erase t [] d = refl
distinct-erase t (x ∷ xs) d = ground (arith, distinct-erase t xs, mem-erase t x xs)

pub nodes-erase : (t : ℕ) (xs : List ℕ) → nodes xs ≡ true → nodes (erase t xs) ≡ true
unfolding nodes erase
nodes-erase t [] n = refl
nodes-erase t (x ∷ xs) n = ground (arith, nodes-erase t xs)

pub length-erase : (t : ℕ) (xs : List ℕ) → mem t xs ≡ true → suc (length (erase t xs)) ≡ length xs
unfolding mem erase
length-erase t [] m = cc
length-erase t (x ∷ xs) m = ground (arith, length-erase t xs)

pub nodes-mem : (y : ℕ) (xs : List ℕ) → nodes xs ≡ true → mem y xs ≡ true → 2 ≤ y
unfolding nodes mem
nodes-mem y [] n m = cc
nodes-mem y (x ∷ xs) n m = ground (arith, nodes-mem y xs)

pub no_node : (y : ℕ) (xs : List ℕ) → nodes xs ≡ true → y < 2 → mem y xs ≡ false
unfolding nodes mem
no_node y [] n small = refl
no_node y (x ∷ xs) n small = ground (arith, no_node y xs)

-- Only the last node has `m_ending_node` after it.
pub next_in-last :
    (p t : ℕ) (xs : List ℕ)
    → mem t xs ≡ true
    → nodes xs ≡ true
    → distinct xs ≡ true
    → (next_in xs t == 1) ≡ (last_from p xs == t)
unfolding next_in first_of last_from mem nodes distinct
next_in-last p t [] m n d = cc
next_in-last p t (x ∷ []) m n d = ground (arith, ==_refl 1)
next_in-last p t (x ∷ y ∷ xs) m n d =
    ground (arith, next_in-last x t (y ∷ xs), last_from-mem y xs, ==_refl y)

-- A node that is both first and last is alone.
pub erase_alone :
    (t : ℕ) (xs : List ℕ)
    → first_of xs ≡ t
    → last_from 1 xs ≡ t
    → mem t xs ≡ true
    → distinct xs ≡ true
    → erase t xs ≡ []
unfolding first_of last_from mem distinct erase
erase_alone t [] f e m d = cc
erase_alone t (x ∷ []) f e m d = rw f (rw (==_refl t) refl)
erase_alone t (x ∷ y ∷ xs) f e m d = absurd (ground (arith, last_from-mem y xs, ==_refl y))

-- No node of a list is after itself.
pub next_in-apart :
    (t : ℕ) (xs : List ℕ)
    → mem t xs ≡ true
    → nodes xs ≡ true
    → distinct xs ≡ true
    → (next_in xs t == t) ≡ false
unfolding next_in first_of mem nodes distinct
next_in-apart t [] m n d = cc
next_in-apart t (x ∷ []) m n d = ground arith
next_in-apart t (x ∷ y ∷ xs) m n d = ground (arith, next_in-apart t (y ∷ xs), ==_refl y)

pub there : (x : ℕ) (xs : List ℕ) → mem x (x ∷ xs) ≡ true
unfolding mem
there x xs = rw (==_refl x)
