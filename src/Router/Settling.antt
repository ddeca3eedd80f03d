-- ===== src/Router/Settling.antt =====
-- router/router.go: a worker that empties the backlog, with what the processing of the events adds to it.
use event_gateway.Common.{
  ℕ, ◌+◌, suc, zero, ◌≤◌, ◌≡◌, refl, sym, ap, ◌∙◌, subst, Option, none, some, List, [], ◌∷◌, ◌++◌,
  inl, inr, Bool-cases, All, leb, arith,
}
use event_gateway.Event.Defs.{size}
use event_gateway.Router.Backlog.{queue, offer, length}
use event_gateway.Router.World.{Work, Env, World}
use event_gateway.Router.Calls.{process_event}
use event_gateway.Router.Steady.{IsUnguarded, process_event-returns}
use event_gateway.Router.Spawning.{works_of, IsOwn}
use event_gateway.Router.Fanout.{offspring, process_event-Spawns}

abbrev pub drop : {A : Type 0} → ℕ → List A → List A
drop zero xs = xs
drop (suc n) [] = []
drop (suc n) (x ∷ xs) = drop n xs

-- Go on after a part of the handling, unless it has panicked.
abbrev pub if_returned :
    {J X R : Type 0} → Option (Unit {0}) × World J X → (World J X → Option R) → Option R
if_returned (some done, w) next = next w
if_returned (none, w) next = none

if_returned-some :
    {J X R : Type 0} (r : Option (Unit {0}) × World J X) (next : World J X → Option R)
    → r.0 ≡ some tt
    → if_returned r next ≡ next r.1
if_returned-some (some done, w) next e = refl
if_returned-some (none, w) next e = absurd (cc)

module _ {J X : Type 0} where
  -- The events that a part of the handling has put in the queue, from its world before and after.
  abbrev pub added : World J X → World J X → List (Work J)
  added before w = works_of (drop (size before.effects) w.effects)

module _ {J : Type 0} where
  -- The backlog after some events have been offered to it: one that does not fit is dropped.
  unfoldable pub accept_all : ℕ → List (Work J) → List (Work J) → List (Work J)
  accept_all capacity events [] = events
  accept_all capacity events (work ∷ works) =
      accept_all capacity (queue (offer capacity work (some events)).0) works

module _ {J X : Type 0} (env : Env J X) where
  -- The rounds of a worker until the backlog is empty, as many as the first argument says at most, while no
  -- request comes in: an event is taken from the backlog and processed, and what that puts in the queue is
  -- offered to the backlog. A panic ends the program.
  unfoldable pub settle :
      ℕ → (capacity : ℕ) → List (Work J) → World J X → Option (List (Work J) × World J X)
  settle zero capacity events w = some (events, w)
  settle (suc n) capacity [] w = some ([], w)
  settle (suc n) capacity (work ∷ events) w =
      if_returned (process_event env work w)
        (λ next. settle n capacity (accept_all capacity events (added w next)) next)

  -- How many rounds the events and what they cause take at most.
  abbrev pub rounds : List (Work J) → ℕ
  rounds [] = 0
  rounds (work ∷ events) = suc (offspring env work + rounds events)

  rounds-append : (xs ys : List (Work J)) → rounds (xs ++ ys) ≡ rounds xs + rounds ys
  rounds-append [] ys = omega arith
  rounds-append (work ∷ xs) ys = let rest = rounds-append xs ys in omega arith

  rounds-accept_all :
      (capacity : ℕ) (events works : List (Work J))
      → rounds (accept_all capacity events works) ≤ rounds events + rounds works
  unfolding accept_all
  rounds-accept_all capacity events [] = omega arith
  rounds-accept_all capacity events (work ∷ works) =
      elim (Bool-cases (leb (suc (length events)) capacity)) [
        | inl e ↦ rw e (
            let rest = rounds-accept_all capacity (events ++ (work ∷ [])) works in
            let sum = rounds-append events (work ∷ []) in omega arith)
        | inr e ↦ rw e (let rest = rounds-accept_all capacity events works in omega arith)
      ]

  rounds-IsOwn : (works : List (Work J)) → All IsOwn works → rounds works ≡ size works
  rounds-IsOwn [] h = refl
  rounds-IsOwn (work ∷ works) h = rw h.0 (let rest = rounds-IsOwn works h.1 in omega arith)

  drop-append : {A : Type 0} (xs ys : List A) → drop (size xs) (xs ++ ys) ≡ ys
  drop-append [] ys = refl
  drop-append (x ∷ xs) ys = drop-append xs ys

  rounds-added :
      (work : Work J) (w : World J X)
      → rounds (added w (process_event env work w).1) ≤ offspring env work
  rounds-added work w =
      let s = (process_event-Spawns env work).spawned w in
      let new = ap (drop (size w.effects)) s.effects_are ∙ drop-append w.effects s.new in
      let few = s.few in
      let own = rounds-IsOwn (works_of s.new) s.own in
      subst (λ l. rounds (works_of l) ≤ offspring env work) (sym new) (omega arith)

  settle-step :
      (n capacity : ℕ) (work : Work J) (events : List (Work J)) (w : World J X)
      → (process_event env work w).0 ≡ some tt
      → settle (suc n) capacity (work ∷ events) w
        ≡ settle n capacity
            (accept_all capacity events (added w (process_event env work w).1))
            (process_event env work w).1
  unfolding settle
  settle-step n capacity work events w done = if_returned-some (process_event env work w) _ done

  settle_within :
      (n capacity : ℕ) (events : List (Work J)) (w : World J X)
      → IsUnguarded env
      → rounds events ≤ n
      → (last : World J X) × (settle n capacity events w ≡ some ([], last))
  unfolding settle
  settle_within zero capacity [] w unguarded le = (w, refl)
  settle_within zero capacity (work ∷ events) w unguarded le = absurd (omega arith)
  settle_within (suc n) capacity [] w unguarded le = (w, refl)
  settle_within (suc n) capacity (work ∷ events) w unguarded le =
      let next = (process_event env work w).1 in
      let spawned = rounds-added work w in
      let accepted = rounds-accept_all capacity events (added w next) in
      let (last, is) =
        settle_within n capacity (accept_all capacity events (added w next)) next unguarded
          (omega arith) in
      (last, settle-step n capacity work events w (process_event-returns env unguarded work w) ∙ is)

  -- The backlog gets empty: if no request comes in and no event type whose name begins with
  -- "eventgateway." has an authorizer, then a worker that takes events from the backlog, whatever their
  -- functions answer and whatever is put in the backlog for them, finds it empty after at most `rounds`
  -- rounds, which are one for each event and one for each event that its processing may cause.
  pub settle-empty :
      (capacity : ℕ) (events : List (Work J)) (w : World J X)
      → IsUnguarded env
      → (last : World J X) × (settle (rounds events) capacity events w ≡ some ([], last))
  settle-empty capacity events w unguarded =
      settle_within (rounds events) capacity events w unguarded (omega arith)
