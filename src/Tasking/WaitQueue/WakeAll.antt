-- ===== src/Tasking/WaitQueue/WakeAll.antt =====
-- Waking up all threads of a wait queue.
use native.Mathlib.Decide.{dec_lt, ℕ_discrete}
use cyan_oskernel.Prelude.{
  ℕ, zero, suc, ◌+◌, ◌≤◌, ◌<◌, ◌≡◌, ◌≢◌, inl, inr, refl, sym, ap, subst, ◌∙◌, false, Option, none,
  some, List, [], ◌∷◌, arith, ==_refl, if◌then◌else◌, Bool-cases, length, get_elem?,
  get_elem?_inside, set, length-set, get_elem?-set,
}
use cyan_oskernel.Tasking.Thread
use cyan_oskernel.Tasking.Thread.{ready, Kernel, Entry, blocked, woken_up_normally, timeout}
use cyan_oskernel.Tasking.Thread.Inv.{Inv, blocked_count, is_blocked_entry, waits}
use cyan_oskernel.Tasking.WaitQueue.{is_blocked_state, wake_up_queue, wake_loop, wake_up_all}
use cyan_oskernel.Tasking.WaitQueue.Wake.{woken, blocked_count-set, wake_up_queue-Inv}

-- No entry before index `i` is in state Blocked.
abbrev FreeBelow : List Entry → ℕ → Type 0
FreeBelow es i =
    (j : ℕ) (d : Entry) → j < i → get_elem? es j ≡ some d → is_blocked_state d.state ≡ false

blocked_count_free : (t : ℕ) (es : List Entry) → FreeBelow es (length es) → blocked_count t es ≡ 0
unfolding blocked_count
blocked_count_free t [] free = refl
blocked_count_free t (e ∷ es) free = ground (
  arith,
  free 0 e (omega arith) refl,
  blocked_count_free t es (λ j d lt h. free (suc j) d (omega arith) h),
)

-- What `wake_up_all` does to a queue and its threads.
pub record AllWoken (q : ℕ) (k k' : Kernel) : Type 0 where
  pub valid : Inv k'
  pub none_wait : (t : ℕ) → blocked_count t (k'.entries q) ≡ 0
  pub others_kept : (t : ℕ) → blocked_count t (k.entries q) ≡ 0 → k'.thread t ≡ k.thread t
  pub made_ready :
      (t : ℕ)
      → 1 ≤ blocked_count t (k.entries q)
      → (th : Thread.Thread) × (k'.thread t ≡ some th) × (th.state ≡ ready)

pub loop_blocked :
    (n i q : ℕ) (k k1 : Kernel) (e : Entry)
    → get_elem? (k.entries q) i ≡ some e
    → e.state ≡ blocked
    → wake_up_queue q i k ≡ some k1
    → wake_loop (suc n) i q k ≡ wake_loop n (suc i) q k1
unfolding wake_loop
loop_blocked n i q k k1 e at b ran = rw (at, wake_loop) (rw b (rw ran refl))

pub loop_free :
    (n i q : ℕ) (k : Kernel) (e : Entry)
    → get_elem? (k.entries q) i ≡ some e
    → is_blocked_state e.state ≡ false
    → wake_loop (suc n) i q k ≡ wake_loop n (suc i) q k
unfolding wake_loop
loop_free n i q k e at free = rw (at, wake_loop) (rw free refl)

-- A ready thread waits on no queue.
pub ready_waits :
    (o : Option Thread.Thread) (q : ℕ) {n : ℕ}
    → ((th : Thread.Thread) × (o ≡ some th) × (th.state ≡ ready))
    → n ≤ waits o q
    → n ≡ 0
ready_waits none q its le = omega arith
ready_waits (some th) q (th', same, r) le = ground arith

same-some : {a b : Entry} → some a ≡ some b → a ≡ b
same-some h = cc

free_at :
    (es : List Entry) (i : ℕ) (e : Entry)
    → get_elem? es i ≡ some e
    → is_blocked_state e.state ≡ false
    → FreeBelow es i
    → FreeBelow es (suc i)
free_at es i e at f free j d lt h = elim (dec_lt j i) [
  | yes before ↦ free j d before h
  | no ge ↦
      let same : j ≡ i = omega arith in
      let its : e ≡ d = same-some (sym at ∙ ap (get_elem? es) (sym same) ∙ h) in
      ap (λ (x : Entry). is_blocked_state x.state) (sym its) ∙ f
]

free_next :
    (es : List Entry) (i : ℕ) (e : Entry)
    → i < length es
    → FreeBelow es i
    → FreeBelow (set es i (woken e)) (suc i)
free_next es i e lt free =
    free_at (set es i (woken e)) i (woken e)
      (get_elem?-set es i i (woken e) lt ∙ rw (==_refl i) refl) refl
      (λ j d before h. free j d before (before_set j before ∙ h))
  where
    before_set : (j : ℕ) → j < i → get_elem? es j ≡ get_elem? (set es i (woken e)) j
    before_set j before = ground (arith, get_elem?-set es i j (woken e) lt)

-- One thread made ready, and then all that are left, make all ready.
step-AllWoken :
    (q : ℕ) (k k1 k' : Kernel) (i : ℕ) (e : Entry)
    → Inv k1
    → get_elem? (k.entries q) i ≡ some e
    → e.state ≡ blocked
    → k1.entries q ≡ set (k.entries q) i (woken e)
    → ((u : ℕ) → u ≢ e.tid → k1.thread u ≡ k.thread u)
    → ((th : Thread.Thread) × (k1.thread e.tid ≡ some th) × (th.state ≡ ready))
    → Inv k
    → AllWoken q k1 k'
    → AllWoken q k k'
step-AllWoken q k k1 k' i e v1 at b es others its v after = record {
  valid = after.valid;
  none_wait = after.none_wait;
  others_kept = λ t zero_count.
      after.others_kept t (ground (arith, fewer t)) ∙ others t (ground (arith, fewer t));
  made_ready = λ t waits. elim (ℕ_discrete t e.tid) [
    | yes same ↦
        let (th, here, r) = its in
        (
          th,
          subst (λ (u : ℕ). k'.thread u ≡ some th) (sym same)
              (after.others_kept e.tid (last_one) ∙ here),
          r,
        )
    | no ne ↦ after.made_ready t (ground (arith, fewer t))
  ];
}
  where
    fewer :
        (t : ℕ)
        → blocked_count t (k1.entries q) + (if is_blocked_entry t e then 1 else 0)
          ≡ blocked_count t (k.entries q)
    fewer t = rw es (blocked_count-set t (k.entries q) i e at)

    last_one : blocked_count e.tid (k1.entries q) ≡ 0
    last_one = ready_waits (k1.thread e.tid) q its (v1.waiting e.tid q)

module _ (q : ℕ) where
  wake_loop-AllWoken :
      (n i : ℕ) (k : Kernel)
      → Inv k
      → i + n ≡ length (k.entries q)
      → FreeBelow (k.entries q) i
      → (k' : Kernel) × (wake_loop n i q k ≡ some k') × AllWoken q k k'
  unfolding wake_loop
  wake_loop-AllWoken zero i k v e free =
      let empty =
        λ (t : ℕ). blocked_count_free t (k.entries q) (λ j d lt h. free j d (omega arith) h) in
      (
        k,
        refl,
        record {
          valid = v;
          none_wait = empty;
          others_kept = λ t h. refl;
          made_ready = λ t h. absurd (omega (arith, empty t));
        },
      )
  wake_loop-AllWoken (suc n) i k v e free =
      let (d, at) = get_elem?_inside (k.entries q) i (omega arith) in
      elim (Bool-cases (is_blocked_state d.state)) [
        | inl b ↦
            let b' : d.state ≡ blocked = ground arith in
            let (k1, ran, v1, es, others, its) = wake_up_queue-Inv k v q i d at b' in
            let es' : k1.entries q ≡ set (k.entries q) i (woken d) =
              ap (λ f. f q) es ∙ rw (==_refl q) refl in
            let (k', ran', after) =
              wake_loop-AllWoken n (suc i) k1 v1
                (rw es' (omega (arith, length-set (k.entries q) i (woken d))))
                (rw es' (free_next (k.entries q) i d (omega arith) free)) in
            (
              k',
              loop_blocked n i q k k1 d at b' ran ∙ ran',
              step-AllWoken q k k1 k' i d v1 at b' es' others its v after,
            )
        | inr not_blocked ↦
            let (k', ran, after) =
              wake_loop-AllWoken n (suc i) k v (omega arith)
                (free_at (k.entries q) i d at not_blocked free) in
            (k', loop_free n i q k d at not_blocked ∙ ran, after)
      ]

-- Under the invariant, `wake_up_all` fails no ASSERT: it leaves no entry of the queue waiting, makes ready every thread
-- that waited, leaves every other thread as it was, and keeps the invariant.
pub wake_up_all-AllWoken :
    (q : ℕ) (k : Kernel) → Inv k → (k' : Kernel) × (wake_up_all q k ≡ some k') × AllWoken q k k'
unfolding wake_up_all
wake_up_all-AllWoken q k v =
    wake_loop-AllWoken q (length (k.entries q)) 0 k v (omega arith)
      (λ j d lt h. absurd (omega arith))
