-- ===== src/Tasking/Thread/Lists.antt =====
-- What the operations on the intrusive lists do to the lists.
use cyan_oskernel.Prelude.{
  ℕ, suc, ◌+◌, ◌-◌, ◌≡◌, Option, none, some, List, [], ◌∷◌, ◌++◌, arith, ◌==◌, if◌then◌else◌,
}
use cyan_oskernel.Tasking.Thread.{ListName, Thread, same_list, erase}

-- How often a name stands on a list.
unfoldable pub count : ℕ → List ℕ → ℕ
count t [] = 0
count t (u ∷ us) = let rest = count t us in if t == u then suc rest else rest

pub count-append :
    (t u : ℕ) (us : List ℕ) → count t (us ++ u ∷ []) ≡ count t us + (if t == u then 1 else 0)
unfolding count
count-append t u [] = ground arith
count-append t u (v ∷ us) = ground (arith, count-append t u us)

pub count-erase :
    (t u : ℕ) (us : List ℕ) → count t (erase u us) ≡ count t us - (if t == u then 1 else 0)
unfolding count erase
count-erase t u [] = ground arith
count-erase t u (v ∷ us) = ground (arith, count-erase t u us)

-- How often a thread must stand on a list, by its `owner`.
abbrev pub owned : Option Thread → ListName → ℕ
owned none l = 0
owned (some th) l = elim th.owner [ none ↦ 0 | some l' ↦ if same_list l' l then 1 else 0 ]
