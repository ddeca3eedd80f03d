-- ===== src/Router/Draining.antt =====
-- The draining of the router.
use event_gateway.Common.{
  ℕ, zero, suc, ◌+◌, ◌-◌, ◌≡◌, refl, true, false, some, List, [], ◌∷◌, eqb, arith,
}
use event_gateway.Router.Backlog.{Router, length, worker_round, work}

suc-ne_zero : (k : ℕ) → eqb (suc k) 0 ≡ false
suc-ne_zero k = ground arith

suc-minus_one : (k : ℕ) → suc k - 1 ≡ k
suc-minus_one k = omega arith

zero_plus : (n : ℕ) → 0 + n ≡ n
zero_plus n = omega arith

suc_plus : (m n : ℕ) → suc m + n ≡ suc (m + n)
suc_plus m n = omega arith

module _ {W : Type 0} where
  -- A router that is draining, with its workers and its queue.
  abbrev pub draining_with : Router W → ℕ → List W → Router W
  draining_with r workers events = record r {
    draining = true;
    workers = workers;
    backlog = some events;
  }

  work-idle : (r : Router W) (k : ℕ) → work k (draining_with r k []) ≡ (draining_with r 0 [], [])
  unfolding work worker_round
  work-idle r zero = refl
  work-idle r (suc k) = rw (suc-ne_zero k, suc-minus_one k, work-idle r k) refl

  -- Once the router is draining and nothing more is accepted, its workers, of which there is at least
  -- one, process all that is in the queue, in its order, and end: after a round for each event of the
  -- queue and one for each worker, so that the wait of `Drain` comes to its end.
  pub work-drained :
      (r : Router W) (k : ℕ) (events : List W)
      → work (length events + suc k) (draining_with r (suc k) events)
        ≡ (draining_with r 0 [], events)
  unfolding work worker_round
  work-drained r k [] = rw (zero_plus (suc k)) (work-idle r (suc k))
  work-drained r k (w ∷ events) =
      rw (suc_plus (length events) (suc k), suc-ne_zero k, work-drained r k events) refl
