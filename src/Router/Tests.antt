-- ===== src/Router/Tests.antt =====
-- The queue and the plugins on small inputs.
use event_gateway.Common.{ℕ, ◌≡◌, refl, suc, ◌+◌, false, none, some, List, [], ◌∷◌, ◌++◌}
use event_gateway.Router.Backlog.{
  Router, new_router, queue, length, start_workers, enqueue_work, finish_drain, worker_round,
  hand_over, Action, starting, enqueuing, working, closing, finishing, act_all, work,
}
use event_gateway.Router.Order.{act_all-queue}
use event_gateway.Router.Draining.{draining_with, work-drained}
use event_gateway.Router.Plugins.{
  Plugin, async_kind, sync_kind, react_all, react_subscriptions, Asked, interested,
  react_all-interested,
}

-- Opens all that a run of the router computes with.
run : Unit {0}
unfolding new_router start_workers enqueue_work finish_drain worker_round hand_over act_all work
    react_all react_subscriptions
run = tt

abbrev small : Router ℕ
small = new_router 2 2

-- The third event does not fit.
abbrev actions : List (Action ℕ)
actions =
    starting
    ∷ enqueuing 7
    ∷ enqueuing 8
    ∷ enqueuing 9
    ∷ closing
    ∷ working
    ∷ working
    ∷ working
    ∷ working
    ∷ finishing
    ∷ []

dropped_test : (act_all actions small).1 ≡ 7 ∷ 8 ∷ []
unfolding run
dropped_test = refl

all_done_test : ((act_all actions small).0.workers ≡ 0) × ((act_all actions small).0.active ≡ false)
unfolding run
all_done_test = (refl, refl)

act_all-queue_example :
    queue small.backlog ++ (act_all actions small).1
    ≡ (act_all actions small).2 ++ queue (act_all actions small).0.backlog
act_all-queue_example = act_all-queue actions small

abbrev pending : List ℕ
pending = 7 ∷ 8 ∷ []

work-drained_example :
    work (length pending + suc 1) (draining_with small (suc 1) pending)
    ≡ (draining_with small 0 [], pending)
work-drained_example = work-drained small 1 pending

abbrev plugins : List (Plugin ℕ)
plugins =
    record {
      path = "a";
      subscriptions = record { event_type = "t"; kind = async_kind } ∷ [];
      reacts = λ e. some "ignored";
    }
    ∷ record {
      path = "b";
      subscriptions = record { event_type = "t"; kind = sync_kind } ∷ [];
      reacts = λ e. some "refused";
    }
    ∷ record {
      path = "c";
      subscriptions = record { event_type = "t"; kind = sync_kind } ∷ [];
      reacts = λ e. none;
    }
    ∷ []

react_all_test : react_all "t" 3 plugins ≡ ("a" ∷ "b" ∷ [], some "refused")
unfolding run
react_all_test = refl

react_all-interested_example : Asked "t" 3 (interested "t" 3 plugins) (react_all "t" 3 plugins)
react_all-interested_example = react_all-interested "t" 3 plugins
