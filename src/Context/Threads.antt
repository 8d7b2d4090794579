-- ===== src/Context/Threads.antt =====
-- `performThreadSafe` and `shutdown` of Sources/Substrata/Internals/Context.swift as steps of any
-- number of threads. `performThreadSafe` reads `shuttingDown` under the export lock, and takes the
-- execution lock only after that; `shutdown` sets the flag under the export lock, and frees the context
-- under the execution lock. Between two steps of a thread any others may run. A call from inside a
-- closure finds the recursive lock taken by its own thread, and adds no step.
use substrata_swift.Prelude.{
  ℕ, ◌≡◌, ◌≢◌, refl, arith, ◌==◌, ==_iff, if◌then◌else◌, Bool, true, false,
}
use substrata_swift.Prelude.{Option, none, some}

-- A thread before its call; past the test of the flag; in its closure; past setting the flag; in the
-- locked part of `shutdown`; at the end of its call.
pub data Phase : Type 0 where
  idle passed inside flagged closing finished : Phase

-- `shuttingDown`, the holder of `executionLock`, whether `JS_FreeContext` was called, and the threads.
pub record System : Type 0 where
  pub shutting_down : Bool
  pub holder : Option ℕ
  pub freed : Bool
  pub phase : ℕ → Phase

abbrev pub move : (ℕ → Phase) → ℕ → Phase → ℕ → Phase
move f t p u = if t == u then p else f u

pub data Step (s s' : System) : Type 0 where
  pass :
      (t : ℕ)
      → s.phase t ≡ idle
      → s.shutting_down ≡ false
      → s' ≡ record s { phase = move s.phase t passed }
      → Step s s'
  refuse :
      (t : ℕ)
      → s.phase t ≡ idle
      → s.shutting_down ≡ true
      → s' ≡ record s { phase = move s.phase t finished }
      → Step s s'
  enter :
      (t : ℕ)
      → s.phase t ≡ passed
      → s.holder ≡ none
      → s' ≡ record s { holder = some t; phase = move s.phase t inside }
      → Step s s'
  leave :
      (t : ℕ)
      → s.phase t ≡ inside
      → s' ≡ record s { holder = none; phase = move s.phase t finished }
      → Step s s'
  flag :
      (t : ℕ)
      → s.phase t ≡ idle
      → s' ≡ record s { shutting_down = true; phase = move s.phase t flagged }
      → Step s s'
  close :
      (t : ℕ)
      → s.phase t ≡ flagged
      → s.holder ≡ none
      → s' ≡ record s { holder = some t; phase = move s.phase t closing }
      → Step s s'
  free :
      (t : ℕ)
      → s.phase t ≡ closing
      → s' ≡ record s { holder = none; freed = true; phase = move s.phase t finished }
      → Step s s'

pub data Reach (s : System) : System → Type 0 where
  here : Reach s s
  next : {s' s'' : System} → Reach s s' → Step s' s'' → Reach s s''

-- Before the first call.
unfoldable pub initial : System
initial = record { shutting_down = false; holder = none; freed = false; phase = λ t. idle }

-- The thread is in a part that the execution lock guards.
abbrev pub is_holding : Phase → Bool
is_holding inside = true
is_holding closing = true
is_holding _ = false

-- Only the holder is in a guarded part, and the flag is set before the context is freed.
pub record IsLocked (s : System) : Type 0 where
  pub owner : (t : ℕ) → is_holding (s.phase t) ≡ true → s.holder ≡ some t
  pub marked : s.freed ≡ true → s.shutting_down ≡ true
  pub closers : (t : ℕ) → s.phase t ≡ flagged → s.shutting_down ≡ true
  pub closer : (t : ℕ) → s.phase t ≡ closing → s.shutting_down ≡ true

initial-IsLocked : IsLocked initial
unfolding initial
initial-IsLocked = record {
  owner = λ t h. cc;
  marked = λ h. cc;
  closers = λ t h. cc;
  closer = λ t h. cc;
}

Step-IsLocked : (s s' : System) → IsLocked s → Step s s' → IsLocked s'
Step-IsLocked s s' v (pass t p f e) = rw e (record {
  owner = λ u h. ground (arith, v.owner u, v.owner t, ==_iff t u);
  marked = ground (arith, v.marked, v.closer t);
  closers = λ u h. ground (arith, v.closers u, v.closers t, ==_iff t u);
  closer = λ u h. ground (arith, v.closer u, v.closers t, ==_iff t u);
})
Step-IsLocked s s' v (refuse t p f e) = rw e (record {
  owner = λ u h. ground (arith, v.owner u, v.owner t, ==_iff t u);
  marked = ground (arith, v.marked, v.closer t);
  closers = λ u h. ground (arith, v.closers u, v.closers t, ==_iff t u);
  closer = λ u h. ground (arith, v.closer u, v.closers t, ==_iff t u);
})
Step-IsLocked s s' v (enter t p f e) = rw e (record {
  owner = λ u h. ground (arith, v.owner u, v.owner t, ==_iff t u);
  marked = ground (arith, v.marked, v.closer t);
  closers = λ u h. ground (arith, v.closers u, v.closers t, ==_iff t u);
  closer = λ u h. ground (arith, v.closer u, v.closers t, ==_iff t u);
})
Step-IsLocked s s' v (leave t p e) = rw e (record {
  owner = λ u h. ground (arith, v.owner u, v.owner t, ==_iff t u);
  marked = ground (arith, v.marked, v.closer t);
  closers = λ u h. ground (arith, v.closers u, v.closers t, ==_iff t u);
  closer = λ u h. ground (arith, v.closer u, v.closers t, ==_iff t u);
})
Step-IsLocked s s' v (flag t p e) = rw e (record {
  owner = λ u h. ground (arith, v.owner u, v.owner t, ==_iff t u);
  marked = ground (arith, v.marked, v.closer t);
  closers = λ u h. ground (arith, v.closers u, v.closers t, ==_iff t u);
  closer = λ u h. ground (arith, v.closer u, v.closers t, ==_iff t u);
})
Step-IsLocked s s' v (close t p f e) = rw e (record {
  owner = λ u h. ground (arith, v.owner u, v.owner t, ==_iff t u);
  marked = ground (arith, v.marked, v.closer t);
  closers = λ u h. ground (arith, v.closers u, v.closers t, ==_iff t u);
  closer = λ u h. ground (arith, v.closer u, v.closers t, ==_iff t u);
})
Step-IsLocked s s' v (free t p e) = rw e (record {
  owner = λ u h. ground (arith, v.owner u, v.owner t, ==_iff t u);
  marked = ground (arith, v.marked, v.closer t);
  closers = λ u h. ground (arith, v.closers u, v.closers t, ==_iff t u);
  closer = λ u h. ground (arith, v.closer u, v.closers t, ==_iff t u);
})

pub Reach-IsLocked : {s s' : System} → IsLocked s → Reach s s' → IsLocked s'
Reach-IsLocked v here = v
Reach-IsLocked v (next {s'} {s''} r st) = Step-IsLocked s' s'' (Reach-IsLocked v r) st

-- In every state that threads reach, whatever their order, at most one is in its closure or in the
-- locked part of `shutdown`, and the context is freed only with the flag set.
pub Reach-exclusive :
    (s : System)
    → Reach initial s
    → ((t u : ℕ) → is_holding (s.phase t) ≡ true → is_holding (s.phase u) ≡ true → t ≡ u)
      × (s.freed ≡ true → s.shutting_down ≡ true)
Reach-exclusive s r =
    let v = Reach-IsLocked initial-IsLocked r in
    (λ t u h k. ground (arith, v.owner t h, v.owner u k), v.marked)

-- A thread that has not read the flag when it is set does not come to its closure.
record IsLate (t : ℕ) (s : System) : Type 0 where
  flag_set : s.shutting_down ≡ true
  not_passed : s.phase t ≢ passed
  not_inside : s.phase t ≢ inside

Step-IsLate : (t : ℕ) (s s' : System) → IsLate t s → Step s s' → IsLate t s'
Step-IsLate t s s' l (pass u p f e) = absurd (cc l.flag_set)
Step-IsLate t s s' l (refuse u p f e) = rw e (record {
  flag_set = l.flag_set;
  not_passed = ground (arith, l.not_passed);
  not_inside = ground (arith, l.not_inside);
})
Step-IsLate t s s' l (enter u p f e) = rw e (record {
  flag_set = l.flag_set;
  not_passed = ground (arith, l.not_passed);
  not_inside = ground (arith, l.not_inside, l.not_passed, ==_iff u t);
})
Step-IsLate t s s' l (leave u p e) = rw e (record {
  flag_set = l.flag_set;
  not_passed = ground (arith, l.not_passed);
  not_inside = ground (arith, l.not_inside);
})
Step-IsLate t s s' l (flag u p e) = rw e (record {
  flag_set = refl;
  not_passed = ground (arith, l.not_passed);
  not_inside = ground (arith, l.not_inside);
})
Step-IsLate t s s' l (close u p f e) = rw e (record {
  flag_set = l.flag_set;
  not_passed = ground (arith, l.not_passed);
  not_inside = ground (arith, l.not_inside);
})
Step-IsLate t s s' l (free u p e) = rw e (record {
  flag_set = l.flag_set;
  not_passed = ground (arith, l.not_passed);
  not_inside = ground (arith, l.not_inside);
})

Reach-IsLate : {s s' : System} (t : ℕ) → IsLate t s → Reach s s' → IsLate t s'
Reach-IsLate t l here = l
Reach-IsLate t l (next {s'} {s''} r st) = Step-IsLate t s' s'' (Reach-IsLate t l r) st

-- A thread that is before its call when the flag is set never runs its closure, whatever follows.
pub Reach-refused :
    (s s' : System) (t : ℕ)
    → s.shutting_down ≡ true
    → s.phase t ≡ idle
    → Reach s s'
    → s'.phase t ≢ inside
Reach-refused s s' t set first r = (Reach-IsLate t late r).not_inside
  where
    late : IsLate t s
    late = record { flag_set = set; not_passed = λ h. cc; not_inside = λ h. cc }

-- The flag is tested outside of the execution lock: for any two threads there is an order of steps in
-- which the one runs its closure after the other has freed the context.
pub Reach-freed :
    (t u : ℕ) → t ≢ u → (s : System) × Reach initial s × (s.freed ≡ true) × (s.phase t ≡ inside)
unfolding initial
Reach-freed t u d = (
  record s4 { holder = some t; phase = move s4.phase t inside },
  next
      (next
        (next (next (next here (pass t refl refl refl)) (flag u (ground (arith, ==_iff t u)) refl))
          (close u (ground (arith, ==_iff u u)) refl refl))
        (free u (ground (arith, ==_iff u u)) refl))
      (enter t (ground (arith, ==_iff t u, ==_iff u t, ==_iff t t)) refl refl),
  refl,
  ground (arith, ==_iff t t),
)
  where
    s1 : System
    s1 = record initial { phase = move initial.phase t passed }

    s2 : System
    s2 = record s1 { shutting_down = true; phase = move s1.phase u flagged }

    s3 : System
    s3 = record s2 { holder = some u; phase = move s2.phase u closing }

    s4 : System
    s4 = record s3 { holder = none; freed = true; phase = move s3.phase u finished }
