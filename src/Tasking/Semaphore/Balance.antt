-- ===== src/Tasking/Semaphore/Balance.antt =====
-- The count of a semaphore is in step with the entries of its queue.
use cyan_oskernel.Prelude.{remove_at, Option-cases, ℤ, pos, negsuc}
use cyan_oskernel.Prelude.{
  ℕ, zero, suc, ◌≤◌, ◌≡◌, inl, inr, refl, sym, ap, ◌∙◌, false, Option, none, some, List, [], ◌∷◌,
  ◌++◌, arith, ==_refl, if◌then◌else◌, get_elem?, set, true,
}
use cyan_oskernel.Tasking.Thread
use cyan_oskernel.Tasking.Thread.{
  ready, Kernel, Entry, WaitState, blocked, put_entries, handle_thread_terminated, without,
  has_entry,
}
use cyan_oskernel.Tasking.Thread.Inv.{Inv, entry_count}
use cyan_oskernel.Tasking.Thread.Moves.{waiting_for}
use cyan_oskernel.Tasking.WaitQueue
use cyan_oskernel.Tasking.WaitQueue.{is_blocked_state, find_blocked, wait_finish}
use cyan_oskernel.Tasking.WaitQueue.Wake.{woken, Woken, one, fails, wake_up-Woken}
use cyan_oskernel.Tasking.WaitQueue.Wait.{new_entry, wait_start-Inv}
use cyan_oskernel.Tasking.Semaphore.{
  decrement, increment, is_negative, Semaphore, can_grow, acquire, release,
}

-- How many entries wait to be woken up.
unfoldable pub pending : List Entry → ℕ
pending [] = 0
pending (e ∷ es) = let rest = pending es in if is_blocked_state e.state then suc rest else rest

-- How many threads wait for a count.
abbrev pub deficit : ℤ → ℕ
deficit (pos n) = 0
deficit (negsuc n) = suc n

-- As many entries wait as the count says.
abbrev pub Balanced : Semaphore → Kernel → Type 0
Balanced s k = pending (k.entries s.wait_queue) ≡ deficit s.count

pending-append : (t : ℕ) (es : List Entry) → pending (es ++ new_entry t ∷ []) ≡ suc (pending es)
unfolding pending
pending-append t [] = refl
pending-append t (e ∷ es) = ground (arith, pending-append t es)

pending-set :
    (es : List Entry) (i : ℕ) (e : Entry)
    → get_elem? es i ≡ some e
    → e.state ≡ blocked
    → suc (pending (set es i (woken e))) ≡ pending es
unfolding pending
pending-set [] i e h b = cc
pending-set (d ∷ es) zero e h b = ground arith
pending-set (d ∷ es) (suc i) e h b = ground (arith, pending-set es i e h b)

pending_free :
    (es : List Entry)
    → ((j : ℕ) (d : Entry) → get_elem? es j ≡ some d → is_blocked_state d.state ≡ false)
    → pending es ≡ 0
unfolding pending
pending_free [] free = refl
pending_free (e ∷ es) free =
    ground (arith, free 0 e refl, pending_free es (λ j d h. free (suc j) d h))

pending-remove_at :
    (es : List Entry) (i : ℕ) (e : Entry)
    → get_elem? es i ≡ some e
    → is_blocked_state e.state ≡ false
    → pending (remove_at es i) ≡ pending es
unfolding pending
pending-remove_at [] i e h free = cc
pending-remove_at (d ∷ es) zero e h free = ground arith
pending-remove_at (d ∷ es) (suc i) e h free = ground (arith, pending-remove_at es i e h free)

acquire_count :
    (c : ℤ) (q : ℕ) (k : Kernel) (t : ℕ) (th : Thread.Thread)
    → Inv k
    → k.thread t ≡ some th
    → th.state ≡ ready
    → entry_count t (k.entries q) ≡ 0
    → Balanced (record { count = c; wait_queue = q }) k
    → (k' : Kernel) × (acquire t (record { count = c; wait_queue = q }) k
        ≡ some (record { count = decrement c; wait_queue = q }, k'))
      × Inv k'
      × Balanced (record { count = decrement c; wait_queue = q }) k'
      × (k'.thread t
          ≡ (if is_negative (decrement c) then some (waiting_for q 0 k.ticks th) else some th))
unfolding acquire
acquire_count (pos (suc n)) q k t th v here r absent b = (k, refl, v, b, here)
acquire_count (pos zero) q k t th v here r absent b =
    let (k', ran, v', es, its) = wait_start-Inv k v q t 0 th here r absent in
    (k', rw ran refl, v', rw es (pending-append t (k.entries q) ∙ ap (λ (n : ℕ). suc n) b), its)
acquire_count (negsuc n) q k t th v here r absent b =
    let (k', ran, v', es, its) = wait_start-Inv k v q t 0 th here r absent in
    (k', rw ran refl, v', rw es (pending-append t (k.entries q) ∙ ap (λ (n : ℕ). suc n) b), its)

-- Of a semaphore in balance, under the invariant, `acquire` by a ready thread that has no entry on
-- the queue fails no ASSERT, keeps the invariant and the balance, and takes 1 from
-- the count; the thread waits exactly when the count was not positive.
pub acquire-Balanced :
    (s : Semaphore) (k : Kernel) (t : ℕ) (th : Thread.Thread)
    → Inv k
    → k.thread t ≡ some th
    → th.state ≡ ready
    → entry_count t (k.entries s.wait_queue) ≡ 0
    → Balanced s k
    → (k' : Kernel) × (acquire t s k ≡ some (record s { count = decrement s.count }, k'))
      × Inv k'
      × Balanced (record s { count = decrement s.count }) k'
      × (k'.thread t ≡ (
          if is_negative (decrement s.count)
          then some (waiting_for s.wait_queue 0 k.ticks th)
          else some th))
acquire-Balanced s = acquire_count s.count s.wait_queue

-- A wake-up where an entry waits succeeds, and one entry fewer waits.
pub wake_pending :
    (q : ℕ) (k : Kernel) (r : Option Kernel)
    → Woken q k r
    → 1 ≤ pending (k.entries q)
    → (k' : Kernel) × (r ≡ some k')
      × Inv k'
      × (suc (pending (k'.entries q)) ≡ pending (k.entries q))
wake_pending q k r (one i e k' at b before v es others its) some_wait =
    (k', refl, v, rw es (pending-set (k.entries q) i e at b))
wake_pending q k r (fails free) some_wait = absurd (omega (arith, pending_free (k.entries q) free))

release_count :
    (c : ℤ) (q : ℕ) (k : Kernel)
    → Inv k
    → Balanced (record { count = c; wait_queue = q }) k
    → can_grow c ≡ true
    → (k' : Kernel) × (release (record { count = c; wait_queue = q }) k
        ≡ some (record { count = increment c; wait_queue = q }, k'))
      × Inv k'
      × Balanced (record { count = increment c; wait_queue = q }) k'
unfolding release
release_count (pos n) q k v b room = (k, rw (room, release) refl, v, b)
release_count (negsuc zero) q k v b room =
    let (k', ran, v', fewer) =
      wake_pending q k (WaitQueue.wake_up q k) (wake_up-Woken q k v) (omega (arith, b)) in
    (k', rw ran refl, v', omega (arith, b, fewer))
release_count (negsuc (suc n)) q k v b room =
    let (k', ran, v', fewer) =
      wake_pending q k (WaitQueue.wake_up q k) (wake_up-Woken q k v) (omega (arith, b)) in
    (k', rw ran refl, v', omega (arith, b, fewer))

pending_blocked :
    (es : List Entry) (i : ℕ) (e : Entry)
    → get_elem? es i ≡ some e
    → e.state ≡ blocked
    → 1 ≤ pending es
pending_blocked es i e at b = omega (arith, pending-set es i e at b)

Woken-none :
    (q : ℕ) (k : Kernel) (r : Option Kernel) → Woken q k r → pending (k.entries q) ≡ 0 → r ≡ none
Woken-none q k r (one i e k' at b before v es others its) zero_pending =
    absurd (omega (arith, pending_blocked (k.entries q) i e at b))
Woken-none q k r (fails free) zero_pending = refl

-- Without an entry that waits, `wake_up` fails its ASSERT.
pub wake_alone :
    (q : ℕ) (k : Kernel) → Inv k → pending (k.entries q) ≡ 0 → WaitQueue.wake_up q k ≡ none
wake_alone q k v zero_pending =
    Woken-none q k (WaitQueue.wake_up q k) (wake_up-Woken q k v) zero_pending

-- Of a semaphore in balance, under the invariant, `release` with a count below the largest `int`
-- never fails the ASSERT of `wake_up`, keeps the invariant and the balance, and adds 1 to the count.
pub release-Balanced :
    (s : Semaphore) (k : Kernel)
    → Inv k
    → Balanced s k
    → can_grow s.count ≡ true
    → (k' : Kernel) × (release s k ≡ some (record s { count = increment s.count }, k'))
      × Inv k'
      × Balanced (record s { count = increment s.count }) k'
release-Balanced s = release_count s.count s.wait_queue

-- A thread that goes on after it was woken or timed out takes its entry away, and keeps the balance
-- where its entry is not in state Blocked.
pub wait_finish-Balanced :
    (s : Semaphore) (k k' : Kernel) (i : ℕ) (w : WaitState)
    → Balanced s k
    → wait_finish s.wait_queue i k ≡ some (w, k')
    → is_blocked_state w ≡ false
    → Balanced s k'
unfolding wait_finish
wait_finish-Balanced s k k' i w b ran free =
    elim (Option-cases (get_elem? (k.entries s.wait_queue) i)) [
      | inl none_there ↦ absurd (none_some (sym (rw none_there refl) ∙ ran))
      | inr (e, at) ↦
          let pair : (e.state, put_entries s.wait_queue (remove_at (k.entries s.wait_queue) i) k)
              ≡ (w, k') =
            same_pair (sym (rw at refl) ∙ ran) in
          ap (λ (p : WaitState × Kernel). pending (p.1.entries s.wait_queue)) (sym pair)
          ∙ rw (==_refl s.wait_queue) (
              pending-remove_at (k.entries s.wait_queue) i e at
                (ap (λ (p : WaitState × Kernel). is_blocked_state p.0) pair ∙ free))
          ∙ b
    ]
  where
    none_some : {p : WaitState × Kernel} → none ≡ some p → ⊥
    none_some h = cc

    same_pair : {p r : WaitState × Kernel} → some p ≡ some r → p ≡ r
    same_pair h = cc
