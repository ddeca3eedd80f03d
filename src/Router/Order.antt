-- ===== src/Router/Order.antt =====
-- What becomes of the events that the router accepts.
use event_gateway.Common.{
  ℕ, suc, ◌≡◌, refl, sym, ap, ◌∙◌, Option, none, some, List, [], ◌∷◌, ◌++◌, eqb, leb, Bool-cases,
  inl, inr,
}
use mathlib.Core.List.{append_assoc, append-nil}
use event_gateway.Router.Backlog.{
  Router, queue, length, start_workers, enqueue_work, offer, finish_drain, take_or, idle,
  worker_round, hand_over, to_waiting, Action, starting, enqueuing, handing_over, working, closing,
  finishing, act, act_all,
}

module _ {W : Type 0} where
  -- What an action accepts and processes, and what it leaves in the queue.
  abbrev Keeps : Router W → Router W × List W × List W → Type 0
  Keeps r o = queue r.backlog ++ o.1 ≡ o.2 ++ queue o.0.backlog

  offer-queue :
      (capacity : ℕ) (w : W) (b : Option (List W))
      → queue b ++ (offer capacity w b).1 ≡ queue (offer capacity w b).0
  offer-queue capacity w none = refl
  offer-queue capacity w (some events) = elim (Bool-cases (leb (suc (length events)) capacity)) [
    | inl e ↦ rw e refl
    | inr e ↦ rw e (append-nil events)
  ]

  idle-queue : (r : Router W) → (idle r).1 ++ queue (idle r).0.backlog ≡ queue r.backlog
  idle-queue r = elim (Bool-cases r.draining) [ inl e ↦ rw e refl | inr e ↦ rw e refl ]

  take-queue :
      (r : Router W) (b : Option (List W))
      → r.backlog ≡ b
      → (take_or r b).1 ++ queue (take_or r b).0.backlog ≡ queue b
  take-queue r (some (w ∷ events)) e = refl
  take-queue r (some []) e = idle-queue r ∙ ap queue e
  take-queue r none e = idle-queue r ∙ ap queue e

  worker_round-queue :
      (r : Router W) → (worker_round r).1 ++ queue (worker_round r).0.backlog ≡ queue r.backlog
  unfolding worker_round
  worker_round-queue r = elim (Bool-cases (eqb r.workers 0)) [
    | inl e ↦ rw e refl
    | inr e ↦ rw e (take-queue r r.backlog refl)
  ]

  start_workers-queue : (r : Router W) → queue (start_workers r).backlog ≡ queue r.backlog
  unfolding start_workers
  start_workers-queue r = elim (Bool-cases r.active) [ inl e ↦ rw e refl | inr e ↦ rw e refl ]

  finish_drain-queue : (r : Router W) → queue (finish_drain r).backlog ≡ queue r.backlog
  unfolding finish_drain
  finish_drain-queue r = elim (Bool-cases (eqb r.workers 0)) [
    | inl e ↦ rw e refl
    | inr e ↦ rw e refl
  ]

  hand_over-queue :
      (w : W) (r : Router W) → queue r.backlog ++ hand_over w r ≡ hand_over w r ++ queue r.backlog
  unfolding hand_over
  hand_over-queue w r = elim (Bool-cases (eqb r.workers 0)) [
    | inl e ↦ rw e (append-nil (queue r.backlog))
    | inr e ↦ rw e (waiting r.backlog)
  ]
    where
      waiting : (b : Option (List W)) → queue b ++ to_waiting w b ≡ to_waiting w b ++ queue b
      waiting none = refl
      waiting (some []) = refl
      waiting (some (v ∷ events)) = ap (λ l. v ∷ l) (append-nil events)

  act-Keeps : (action : Action W) (r : Router W) → Keeps r (act action r)
  unfolding enqueue_work
  act-Keeps starting r = append-nil _ ∙ sym (start_workers-queue r)
  act-Keeps (enqueuing w) r = offer-queue r.backlog_length w r.backlog
  act-Keeps (handing_over w) r = hand_over-queue w r
  act-Keeps working r = append-nil _ ∙ sym (worker_round-queue r)
  act-Keeps closing r = append-nil _
  act-Keeps finishing r = append-nil _ ∙ sym (finish_drain-queue r)

  -- Whatever the goroutines of the router do, one after another, the events that are accepted are processed
  -- in the order in which they were accepted, each of them once, and those that have not been processed are
  -- in the queue: what was in the queue and was accepted is what was processed and is in the queue.
  pub act_all-queue :
      (actions : List (Action W)) (r : Router W)
      → queue r.backlog ++ (act_all actions r).1
        ≡ (act_all actions r).2 ++ queue (act_all actions r).0.backlog
  unfolding act_all
  act_all-queue [] r = append-nil _
  act_all-queue (action ∷ actions) r =
      let next = act action r in
      let later = act_all-queue actions next.0 in
      sym (append_assoc (queue r.backlog) next.1 _)
      ∙ ap (λ l. l ++ (act_all actions next.0).1) (act-Keeps action r)
      ∙ append_assoc next.2 (queue next.0.backlog) _
      ∙ ap (λ l. next.2 ++ l) later
      ∙ sym (append_assoc next.2 (act_all actions next.0).2 _)
