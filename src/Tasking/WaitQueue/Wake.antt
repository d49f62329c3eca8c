-- ===== src/Tasking/WaitQueue/Wake.antt =====
-- Waking up the threads of a wait queue.
use cyan_oskernel.Prelude.{
  ℕ, zero, suc, ◌+◌, ◌≤◌, ◌<◌, ◌≡◌, ◌≢◌, inl, inr, refl, sym, ap, ◌∙◌, true, false, Option, none,
  some, List, [], ◌∷◌, arith, ◌==◌, ==_refl, if◌then◌else◌, Bool-cases, get_elem?, set, ◌>>=◌,
}
use cyan_oskernel.Tasking.Thread
use cyan_oskernel.Tasking.Thread.{
  ThreadState, ready, blocked_sleep, blocked_queue, blocked_queue_timed, suspended, ready_threads,
  same_list, Kernel, Entry, blocked, woken_up_normally, timeout, put_entries,
}
use cyan_oskernel.Tasking.Thread.Inv.{
  Inv, awake, blocked_count, entry_count, is_blocked_entry, waits,
}
use cyan_oskernel.Tasking.Thread.Moves.{is_blocked, wake_up-Inv}
use cyan_oskernel.Tasking.WaitQueue.{is_blocked_state, find_blocked, wake_up_queue, wake_up}

abbrev pub woken : Entry → Entry
woken e = record e { state = woken_up_normally }

pub blocked_count-set :
    (t : ℕ) (es : List Entry) (i : ℕ) (e : Entry)
    → get_elem? es i ≡ some e
    → blocked_count t (set es i (woken e)) + (if is_blocked_entry t e then 1 else 0)
      ≡ blocked_count t es
unfolding blocked_count
blocked_count-set t [] i e h = cc
blocked_count-set t (d ∷ es) zero e h = ground arith
blocked_count-set t (d ∷ es) (suc i) e h = ground (arith, blocked_count-set t es i e h)

pub entry_count-set :
    (t : ℕ) (es : List Entry) (i : ℕ) (e : Entry)
    → get_elem? es i ≡ some e
    → entry_count t (set es i (woken e)) ≡ entry_count t es
unfolding entry_count
entry_count-set t [] i e h = cc
entry_count-set t (d ∷ es) zero e h = ground arith
entry_count-set t (d ∷ es) (suc i) e h = ground (arith, entry_count-set t es i e h)

-- A thread that waits on a queue is there, is blocked, and waits on no other.
waits-cases :
    (o : Option Thread.Thread) (q : ℕ)
    → 1 ≤ waits o q
    → (th : Thread.Thread) × (o ≡ some th)
      × (is_blocked th.state ≡ true)
      × ((q' : ℕ) → waits o q' ≡ (if q == q' then 1 else 0))
waits-cases none q h = absurd (omega arith)
waits-cases (some th) q h = (th, refl, ground arith, λ q'. ground arith)

module _ (k : Kernel) (v : Inv k) (q i : ℕ) (e : Entry) (at : get_elem? (k.entries q) i ≡ some e)
    (waiting : e.state ≡ blocked) where
  abbrev marked : Kernel
  marked = put_entries q (set (k.entries q) i (woken e)) k

  is_its : is_blocked_entry e.tid e ≡ true
  is_its = ground arith

  marked-Inv : Inv marked
  marked-Inv = record {
    members = v.members;
    homes = v.homes;
    single = λ t q'. ground (arith, entry_count-set t (k.entries q) i e at, v.single t q');
    waiting = λ t q'. ground (arith, blocked_count-set t (k.entries q) i e at, v.waiting t q');
  }

  is_waiting : 1 ≤ waits (k.thread e.tid) q
  is_waiting =
      ground (arith, is_its, blocked_count-set e.tid (k.entries q) i e at, v.waiting e.tid q)

  unwanted : (q' : ℕ) → blocked_count e.tid (marked.entries q') ≡ 0
  unwanted q' =
      let (th, here, b, only) = waits-cases (k.thread e.tid) q is_waiting in
      ground (
        arith,
        is_its,
        only q,
        only q',
        blocked_count-set e.tid (k.entries q) i e at,
        v.waiting e.tid q,
        v.waiting e.tid q',
      )

  -- `wake_up_queue` of an entry in state Blocked makes its thread ready, marks the entry, and keeps
  -- the invariant; it fails no ASSERT.
  pub wake_up_queue-Inv :
      (k' : Kernel) × (wake_up_queue q i k ≡ some k')
      × Inv k'
      × (k'.entries ≡ marked.entries)
      × ((u : ℕ) → u ≢ e.tid → k'.thread u ≡ k.thread u)
      × ((th : Thread.Thread) × (k'.thread e.tid ≡ some th) × (th.state ≡ ready))
  unfolding wake_up_queue
  wake_up_queue-Inv =
      let (th, here, b, only) = waits-cases (k.thread e.tid) q is_waiting in
      let (from, k', ran, v', m) = wake_up-Inv marked marked-Inv e.tid th here b unwanted in
      (
        k',
        rw at ran,
        v',
        m.entries_kept,
        λ u ne. ground (arith, m.threads u),
        (awake th, ground (arith, m.threads e.tid), refl),
      )

-- What `find_if` says of the entries.
pub data FoundBlocked (es : List Entry) : Option ℕ → Type 0 where
  first :
      (i : ℕ) (e : Entry)
      → get_elem? es i ≡ some e
      → e.state ≡ blocked
      → ((j : ℕ) (d : Entry) → j < i → get_elem? es j ≡ some d → is_blocked_state d.state ≡ false)
      → FoundBlocked es (some i)
  nothing :
      ((j : ℕ) (d : Entry) → get_elem? es j ≡ some d → is_blocked_state d.state ≡ false)
      → FoundBlocked es none

pub is_blocked_state-eq : (e : Entry) → is_blocked_state e.state ≡ true → e.state ≡ blocked
is_blocked_state-eq e h = ground arith

found_later :
    (e : Entry) (es : List Entry) (r : Option ℕ)
    → is_blocked_state e.state ≡ false
    → FoundBlocked es r
    → FoundBlocked (e ∷ es) (r >>= λ i. some (suc i))
found_later e es r free (first i d at b before) =
    first (suc i) d at b (λ j c lt h. earlier j c lt h)
  where
    earlier :
        (j : ℕ) (c : Entry)
        → j < suc i
        → get_elem? (e ∷ es) j ≡ some c
        → is_blocked_state c.state ≡ false
    earlier zero c lt h = ap (λ (x : Entry). is_blocked_state x.state) (sym (same h)) ∙ free
      where
        same : some e ≡ some c → e ≡ c
        same h = cc
    earlier (suc j) c lt h = before j c (omega arith) h
found_later e es r free (nothing none_there) = nothing anywhere
  where
    same : {c : Entry} → some e ≡ some c → e ≡ c
    same h = cc

    anywhere :
        (j : ℕ) (c : Entry) → get_elem? (e ∷ es) j ≡ some c → is_blocked_state c.state ≡ false
    anywhere zero c h = ap (λ (x : Entry). is_blocked_state x.state) (sym (same h)) ∙ free
    anywhere (suc j) c h = none_there j c h

pub find_blocked-Found : (es : List Entry) → FoundBlocked es (find_blocked es)
unfolding find_blocked
find_blocked-Found [] = nothing (λ j d h. cc)
find_blocked-Found (e ∷ es) = elim (Bool-cases (is_blocked_state e.state)) [
  | inl b ↦ rw b (first 0 e refl (is_blocked_state-eq e b) (λ j d lt h. absurd (omega arith)))
  | inr free ↦ rw free (found_later e es (find_blocked es) free (find_blocked-Found es))
]

-- What `wake_up` does to a queue and its threads: the oldest thread that waits is made ready, or
-- the ASSERT fails, where no thread waits.
pub data Woken (q : ℕ) (k : Kernel) : Option Kernel → Type 0 where
  one :
      (i : ℕ) (e : Entry) (k' : Kernel)
      → get_elem? (k.entries q) i ≡ some e
      → e.state ≡ blocked
      → ((j : ℕ) (d : Entry)
          → j < i
          → get_elem? (k.entries q) j ≡ some d
          → is_blocked_state d.state ≡ false)
      → Inv k'
      → k'.entries q ≡ set (k.entries q) i (woken e)
      → ((u : ℕ) → u ≢ e.tid → k'.thread u ≡ k.thread u)
      → ((th : Thread.Thread) × (k'.thread e.tid ≡ some th) × (th.state ≡ ready))
      → Woken q k (some k')
  fails :
      ((j : ℕ) (d : Entry) → get_elem? (k.entries q) j ≡ some d → is_blocked_state d.state ≡ false)
      → Woken q k none

wake_found :
    (q : ℕ) (k : Kernel)
    → Inv k
    → (r : Option ℕ) → FoundBlocked (k.entries q) r
    → Woken q k (r >>= λ i. wake_up_queue q i k)
wake_found q k v r (first i e at b before) =
    let (k', ran, v', es, others, its) = wake_up_queue-Inv k v q i e at b in
    rw ran (one i e k' at b before v' (ap (λ f. f q) es ∙ rw (==_refl q) refl) others its)
wake_found q k v r (nothing none_there) = fails none_there

-- Under the invariant, `wake_up` makes the oldest waiting thread ready and keeps the invariant; where no thread waits,
-- its ASSERT fails.
pub wake_up-Woken : (q : ℕ) (k : Kernel) → Inv k → Woken q k (wake_up q k)
unfolding wake_up
wake_up-Woken q k v =
    wake_found q k v (find_blocked (k.entries q)) (find_blocked-Found (k.entries q))
