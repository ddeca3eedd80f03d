-- ===== src/Router/Backlog.antt =====
-- router/router.go: the backlog of async events, the workers that empty it, and the draining of the
-- router. `W` stands for backlogEvent.
use event_gateway.Common.{
  ℕ, zero, suc, ◌+◌, ◌-◌, Bool, true, false, Option, none, some, List, [], ◌∷◌, ◌++◌, if◌then◌else◌,
  eqb, leb,
}

abbrev pub length : {A : Type 0} → List A → ℕ
length [] = 0
length (x ∷ xs) = suc (length xs)

-- The fields of `Router` that the workers share. `workers` is the counter of `drainWaitGroup`, `draining`
-- says that the channel `drain` is closed, and `backlog` is nil until the workers are started.
pub record Router (W : Type 0) : Type 0 where
  pub active : Bool
  pub draining : Bool
  pub workers_number : ℕ
  pub backlog_length : ℕ
  pub workers : ℕ
  pub backlog : Option (List W)

-- What the goroutines of the router do, one at a time.
pub data Action (W : Type 0) : Type 0 where
  starting : Action W
  enqueuing : W → Action W
  handing_over : W → Action W
  working : Action W
  closing : Action W
  finishing : Action W

module _ {W : Type 0} where
  unfoldable pub new_router : ℕ → ℕ → Router W
  new_router workers backlog = record {
    active = false;
    draining = false;
    workers_number = workers;
    backlog_length = backlog;
    workers = 0;
    backlog = none;
  }

  abbrev pub queue : Option (List W) → List W
  queue none = []
  queue (some events) = events

  unfoldable pub start_workers : Router W → Router W
  start_workers r = if r.active then r else record r {
    active = true;
    workers = r.workers + r.workers_number;
    backlog = some (queue r.backlog);
  }

  abbrev pub offer : ℕ → W → Option (List W) → Option (List W) × List W
  offer capacity w none = (none, [])
  offer capacity w (some events) =
      if leb (suc (length events)) capacity
      then (some (events ++ (w ∷ [])), w ∷ [])
      else (some events, [])

  -- `enqueueWork`: the router, and the event if it was accepted. One that does not fit is dropped.
  unfoldable pub enqueue_work : W → Router W → Router W × List W
  enqueue_work w r = let o = offer r.backlog_length w r.backlog in (record r { backlog = o.0 }, o.1)

  -- `isDraining`
  abbrev pub is_draining : Router W → Bool
  is_draining r = r.draining

  -- `Drain` up to its wait.
  abbrev pub close_drain : Router W → Router W
  close_drain r = record r { draining = true }

  -- `Drain` after its wait, which ends when the workers have.
  unfoldable pub finish_drain : Router W → Router W
  finish_drain r = if eqb r.workers 0 then record r { active = false } else r

  -- A worker that finds nothing to do ends if the router is draining, and waits if it is not.
  abbrev pub idle : Router W → Router W × List W
  idle r = if is_draining r then (record r { workers = r.workers - 1 }, []) else (r, [])

  abbrev pub take_or : Router W → Option (List W) → Router W × List W
  take_or r (some (w ∷ events)) = (record r { backlog = some events }, w ∷ [])
  take_or r (some []) = idle r
  take_or r none = idle r

  -- A round of `loop` by one of the workers: the router, and the event that is passed to `processEvent`.
  -- The three `select`s together take an event if there is one, and otherwise look at `drain`.
  unfoldable pub worker_round : Router W → Router W × List W
  worker_round r = if eqb r.workers 0 then (r, []) else take_or r r.backlog

  abbrev pub to_waiting : W → Option (List W) → List W
  to_waiting w (some []) = w ∷ []
  to_waiting w _ = []

  -- `enqueueWork` while a worker waits for an event: it gets the event without the queue, also where the
  -- queue has no room at all.
  unfoldable pub hand_over : W → Router W → List W
  hand_over w r = if eqb r.workers 0 then [] else to_waiting w r.backlog

  -- The router, the accepted events and those passed to `processEvent`.
  abbrev pub act : Action W → Router W → Router W × List W × List W
  act starting r = (start_workers r, [], [])
  act (enqueuing w) r = let o = enqueue_work w r in (o.0, o.1, [])
  act (handing_over w) r = (r, hand_over w r, hand_over w r)
  act working r = let o = worker_round r in (o.0, [], o.1)
  act closing r = (close_drain r, [], [])
  act finishing r = (finish_drain r, [], [])

  unfoldable pub act_all : List (Action W) → Router W → Router W × List W × List W
  act_all [] r = (r, [], [])
  act_all (action ∷ actions) r =
      let (next, accepted, processed) = act action r in
      let (last, accepted', processed') = act_all actions next in
      (last, accepted ++ accepted', processed ++ processed')

  -- Rounds of the workers alone, as many as the first argument says.
  unfoldable pub work : ℕ → Router W → Router W × List W
  work zero r = (r, [])
  work (suc n) r =
      let (next, processed) = worker_round r in
      let (last, processed') = work n next in (last, processed ++ processed')
