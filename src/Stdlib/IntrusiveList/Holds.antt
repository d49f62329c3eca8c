-- ===== src/Stdlib/IntrusiveList/Holds.antt =====
-- What it means that an intrusive list holds nodes in an order.
use cyan_oskernel.Prelude.{ℕ, ◌^◌, ◌≤◌, ◌<◌, ◌≡◌, refl, true, false, List, [], arith, length, ◌==◌}
use cyan_oskernel.Stdlib.Links.{mem, distinct, nodes, first_of, last_from, next_in, prev_in}
use cyan_oskernel.Stdlib.IntrusiveList.{IntrusiveList, construct}

-- The links, the ends, the owners and the count agree with the nodes.
pub record Holds (l : IntrusiveList) (xs : List ℕ) : Type 0 where
  pub placed : 1 ≤ l.this
  pub apart : distinct xs ≡ true
  pub proper : nodes xs ≡ true
  pub head_is : l.m_head ≡ first_of xs
  pub tail_is : l.m_tail ≡ last_from 1 xs
  pub nexts : (y : ℕ) → mem y xs ≡ true → l.next y ≡ next_in xs y
  pub prevs : (y : ℕ) → mem y xs ≡ true → l.prev y ≡ prev_in 0 xs y
  pub end_next : l.next 1 ≡ 1
  pub owners : (y : ℕ) → 2 ≤ y → (l.owner y == l.this) ≡ mem y xs
  pub fits : length xs < 2 ^ 32
  pub count_is : l.m_count ≡ length xs

pub construct-Holds :
    (l : IntrusiveList)
    → 1 ≤ l.this
    → ((y : ℕ) → 2 ≤ y → (l.owner y == l.this) ≡ false)
    → Holds (construct l) []
unfolding construct mem distinct nodes first_of last_from
construct-Holds l placed free = record {
  placed = placed;
  apart = refl;
  proper = refl;
  head_is = refl;
  tail_is = refl;
  nexts = λ y m. cc;
  prevs = λ y m. cc;
  end_next = refl;
  owners = λ y two. ground (arith, free y two);
  fits = omega arith;
  count_is = refl;
}
