-- ===== src/Limits/Budget.antt =====
-- `ConnectionBudget`: the counter shared by all workers. The loop of `try_acquire` is the steps of
-- one thread between two atomic operations; threads interleave in any order.
use epoll_gateway.Base.{
  sym, ℕ, zero, suc, ◌+◌, ◌-◌, ◌≤◌, ◌<◌, List, [], ◌∷◌, ◌≡◌, refl, ◌∙◌, arith, some, get_elem?,
  Bool, true, all, ltb, ap,
}

-- Where a thread stands: outside; with a value of the counter at hand, before or after it was
-- compared with the limit; or with a ticket.
pub data Worker : Type 0 where
  outside holding : Worker
  loaded compared : ℕ → Worker

pub record ConnectionBudget : Type 0 where
  pub in_use : ℕ
  pub max : ℕ
  pub workers : List Worker

abbrev pub set_worker : List Worker → ℕ → Worker → List Worker
set_worker [] i w = []
set_worker (x ∷ xs) zero w = w ∷ xs
set_worker (x ∷ xs) (suc i) w = x ∷ set_worker xs i w

abbrev pub move : ConnectionBudget → ℕ → Worker → ConnectionBudget
move b i w = record b { workers = set_worker b.workers i w }

-- The atomic operations: `load`; the comparison with the limit, which refuses or goes on; the
-- exchange, which succeeds only if the counter has not changed, and may fail without cause;
-- `release`; and `set_limit`, which may come between any two of them.
pub data Step (b : ConnectionBudget) : ConnectionBudget → Type 0 where
  load :
      (i : ℕ) (c : ConnectionBudget)
      → get_elem? b.workers i ≡ some outside
      → c ≡ move b i (loaded b.in_use)
      → Step b c
  refuse :
      (i current : ℕ) (c : ConnectionBudget)
      → get_elem? b.workers i ≡ some (loaded current)
      → b.max ≤ current
      → c ≡ move b i outside
      → Step b c
  compare :
      (i current : ℕ) (c : ConnectionBudget)
      → get_elem? b.workers i ≡ some (loaded current)
      → current < b.max
      → c ≡ move b i (compared current)
      → Step b c
  exchange :
      (i current : ℕ) (c : ConnectionBudget)
      → get_elem? b.workers i ≡ some (compared current)
      → b.in_use ≡ current
      → c ≡ record (move b i holding) { in_use = current + 1 }
      → Step b c
  retry :
      (i current : ℕ) (c : ConnectionBudget)
      → get_elem? b.workers i ≡ some (compared current)
      → c ≡ move b i (loaded b.in_use)
      → Step b c
  release :
      (i : ℕ) (c : ConnectionBudget)
      → get_elem? b.workers i ≡ some holding
      → c ≡ record (move b i outside) { in_use = b.in_use - 1 }
      → Step b c
  set_limit :
      (max_connections : ℕ) (c : ConnectionBudget)
      → c ≡ record b { max = max_connections }
      → Step b c

-- Steps on whose way every limit that is in force is at most `bound`.
pub data Reach (bound : ℕ) (b : ConnectionBudget) : ConnectionBudget → Type 0 where
  here : Reach bound b b
  next : {c d : ConnectionBudget} → Reach bound b c → Step c d → d.max ≤ bound → Reach bound b d

-- One for a thread with a ticket.
abbrev pub ticket : Worker → ℕ
ticket outside = 0
ticket holding = 1
ticket (loaded n) = 0
ticket (compared n) = 0

abbrev pub tickets : List Worker → ℕ
tickets [] = 0
tickets (w ∷ ws) = ticket w + tickets ws

tickets-set_worker :
    (ws : List Worker) (i : ℕ) (v w : Worker)
    → get_elem? ws i ≡ some v
    → tickets (set_worker ws i w) + ticket v ≡ tickets ws + ticket w
tickets-set_worker [] i v w e = cc
tickets-set_worker (x ∷ ws) zero v w e = let same : x ≡ v = cc in rw same (omega arith)
tickets-set_worker (x ∷ ws) (suc i) v w e = omega (arith, tickets-set_worker ws i v w e)

-- A value that has passed the comparison with the limit is below `bound`.
abbrev pub is_below : ℕ → Worker → Bool
is_below bound (compared n) = ltb n bound
is_below bound _ = true

is_below-set_worker :
    (bound : ℕ) (ws : List Worker) (i : ℕ) (w : Worker)
    → all (is_below bound) ws ≡ true
    → is_below bound w ≡ true
    → all (is_below bound) (set_worker ws i w) ≡ true
is_below-set_worker bound [] i w h k = refl
is_below-set_worker bound (x ∷ ws) zero w h k = ground arith
is_below-set_worker bound (x ∷ ws) (suc i) w h k =
    ground (arith, is_below-set_worker bound ws i w (ground arith) k)

is_below-get_elem? :
    (bound n : ℕ) (ws : List Worker) (i : ℕ)
    → all (is_below bound) ws ≡ true
    → get_elem? ws i ≡ some (compared n)
    → n < bound
is_below-get_elem? bound n [] i h e = absurd (cc (e))
is_below-get_elem? bound n (x ∷ ws) zero h e =
    let same : x ≡ compared n = cc (e) in
    let first : is_below bound x ≡ true = ground arith in
    let below : is_below bound (compared n) ≡ true = sym (ap (is_below bound) same) ∙ first in
    ground arith
is_below-get_elem? bound n (x ∷ ws) (suc i) h e = is_below-get_elem? bound n ws i (ground arith) e

-- The counter is the number of tickets held, and it, the limit and what may yet be exchanged are
-- within `bound`.
pub record IsValid (bound : ℕ) (b : ConnectionBudget) : Type 0 where
  pub counted : b.in_use ≡ tickets b.workers
  pub within : b.in_use ≤ bound
  pub limited : b.max ≤ bound
  pub below : all (is_below bound) b.workers ≡ true

module _ (bound : ℕ) where
  moved :
      (b : ConnectionBudget) (i : ℕ) (v w : Worker)
      → IsValid bound b
      → get_elem? b.workers i ≡ some v
      → is_below bound w ≡ true
      → (tickets (set_worker b.workers i w) + ticket v ≡ tickets b.workers + ticket w)
        × (all (is_below bound) (set_worker b.workers i w) ≡ true)
  moved b i v w h e k =
      (tickets-set_worker b.workers i v w e, is_below-set_worker bound b.workers i w h.below k)

  Step-IsValid :
      {b c : ConnectionBudget} → Step b c → c.max ≤ bound → IsValid bound b → IsValid bound c
  Step-IsValid {b} (load i c w e) m v =
      let t = moved b i outside (loaded b.in_use) v w refl in rw e (ground (arith, t, v))
  Step-IsValid {b} (refuse i current c w l e) m v =
      let t = moved b i (loaded current) outside v w refl in rw e (ground (arith, t, v))
  Step-IsValid {b} (compare i current c w l e) m v =
      let t = moved b i (loaded current) (compared current) v w (ground (arith, v.limited)) in
      rw e (ground (arith, t, v))
  Step-IsValid {b} (exchange i current c w same e) m v =
      let t = moved b i (compared current) holding v w refl in
      let room = is_below-get_elem? bound current b.workers i v.below w in
      rw e (ground (arith, t, v, room))
  Step-IsValid {b} (retry i current c w e) m v =
      let t = moved b i (compared current) (loaded b.in_use) v w refl in rw e (ground (arith, t, v))
  Step-IsValid {b} (release i c w e) m v =
      let t = moved b i holding outside v w refl in rw e (ground (arith, t, v))
  Step-IsValid {b} (set_limit n c e) m v = rw e (ground (arith, v, ap (λ x. x.max) e))

-- However the threads interleave and the limit is set anew, the counter is the number of tickets
-- held, and no bound that holds at the start, for the counter, the limit and what threads are about
-- to raise the counter from, is passed while every limit that is set keeps to it.
pub Reach-IsValid :
    (bound : ℕ) {b c : ConnectionBudget} → IsValid bound b → Reach bound b c → IsValid bound c
Reach-IsValid bound v here = v
Reach-IsValid bound v (next r s m) = Step-IsValid bound s m (Reach-IsValid bound v r)
