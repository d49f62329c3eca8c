-- ===== src/Stdlib/Links.antt =====
-- The links of the doubly linked lists of `libraries/stdlib`, as a list of the nodes tells them. A
-- node is named by its address: 0 is `nullptr` and 1 is `m_ending_node`.
pub mod Erase
pub mod Insert
use cyan_oskernel.Prelude.{
  ℕ, zero, suc, ◌+◌, ◌≤◌, ◌≡◌, ◌≢◌, refl, Bool, true, false, not, ◌&&◌, ◌||◌, List, [], ◌∷◌, ◌++◌,
  arith, ◌==◌, ==_refl, if◌then◌else◌, Bool-cases, inl, inr,
}

abbrev pub nullptr : ℕ
nullptr = 0

abbrev pub ending_node : ℕ
ending_node = 1

unfoldable pub mem : ℕ → List ℕ → Bool
mem a [] = false
mem a (x ∷ xs) = x == a || mem a xs

unfoldable pub distinct : List ℕ → Bool
unfolding mem
distinct [] = true
distinct (x ∷ xs) = not (mem x xs) && distinct xs

-- Every address is that of a node of its own.
unfoldable pub nodes : List ℕ → Bool
nodes [] = true
nodes (x ∷ xs) = not (x == 0) && not (x == 1) && nodes xs

unfoldable pub first_of : List ℕ → ℕ
first_of [] = ending_node
first_of (x ∷ xs) = x

unfoldable pub last_from : ℕ → List ℕ → ℕ
last_from p [] = p
last_from p (x ∷ xs) = last_from x xs

-- The node after a node, and the one before it, where `p` stands before the list.
unfoldable pub next_in : List ℕ → ℕ → ℕ
unfolding first_of
next_in [] a = ending_node
next_in (x ∷ xs) a = let rest = next_in xs a in if x == a then first_of xs else rest

unfoldable pub prev_in : ℕ → List ℕ → ℕ → ℕ
prev_in p [] a = nullptr
prev_in p (x ∷ xs) a = let rest = prev_in x xs a in if x == a then p else rest

-- The list without a node, and with a node before another.
unfoldable pub erase : ℕ → List ℕ → List ℕ
erase t [] = []
erase t (u ∷ us) = if t == u then us else u ∷ erase t us

unfoldable pub insert_before : ℕ → ℕ → List ℕ → List ℕ
insert_before old a [] = a ∷ []
insert_before old a (x ∷ xs) =
    let rest = insert_before old a xs in if x == old then a ∷ x ∷ xs else x ∷ rest
