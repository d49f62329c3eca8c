-- ===== src/Stdlib/LinkedList/Linked.antt =====
-- What it means that a linked list holds nodes in an order.
use cyan_oskernel.Prelude.{ℕ, ◌^◌, ◌≤◌, ◌<◌, ◌≡◌, refl, true, List, [], arith, length}
use cyan_oskernel.Stdlib.Links.{mem, distinct, nodes, first_of, last_from, next_in, prev_in}
use cyan_oskernel.Stdlib.LinkedList.{LinkedList, construct, clear}

-- The links, the ends and the count agree with the nodes.
pub record Linked {A : Type 0} (l : LinkedList A) (xs : List ℕ) : Type 0 where
  pub apart : distinct xs ≡ true
  pub proper : nodes xs ≡ true
  pub head_is : l.m_head ≡ first_of xs
  pub tail_is : l.m_tail ≡ last_from 1 xs
  pub nexts : (y : ℕ) → mem y xs ≡ true → l.next y ≡ next_in xs y
  pub prevs : (y : ℕ) → mem y xs ≡ true → l.prev y ≡ prev_in 0 xs y
  pub ending_prev : 1 ≤ length xs → l.prev 1 ≡ last_from 0 xs
  pub fits : length xs < 2 ^ 32
  pub count_is : l.m_count ≡ length xs

module _ {A : Type 0} (l : LinkedList A) where
  pub construct-Linked : Linked (construct l) []
  unfolding construct mem distinct nodes first_of last_from
  construct-Linked = record {
    apart = refl;
    proper = refl;
    head_is = refl;
    tail_is = refl;
    nexts = λ y m. cc;
    prevs = λ y m. cc;
    ending_prev = λ some_there. absurd (omega arith);
    fits = omega arith;
    count_is = refl;
  }

  pub clear-Linked : Linked (clear l) []
  unfolding clear mem distinct nodes first_of last_from
  clear-Linked = record {
    apart = refl;
    proper = refl;
    head_is = refl;
    tail_is = refl;
    nexts = λ y m. cc;
    prevs = λ y m. cc;
    ending_prev = λ some_there. absurd (omega arith);
    fits = omega arith;
    count_is = refl;
  }
