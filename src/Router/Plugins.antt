-- ===== src/Router/Plugins.antt =====
-- plugin/manager.go: what `Manager.React` asks of the plugins. A plugin runs in a process of its own, so
-- that what its methods return is a parameter. `E` stands for events.
use event_gateway.Common.{
  String, ◌≡◌, refl, sym, ap, subst, ◌∙◌, Option, none, some, List, [], ◌∷◌, ◌++◌, ◌==◌,
  if◌then◌else◌, Bool-cases, inl, inr,
}

-- Type
pub data Kind : Type 0 where
  async_kind sync_kind : Kind

-- Subscription of plugin/reacter.go
pub record PluginSubscription : Type 0 where
  pub event_type : String
  pub kind : Kind

-- Plugin with its Reacter: `reacts` returns an error message or none.
pub record Plugin (E : Type 0) : Type 0 where
  pub path : String
  pub subscriptions : List PluginSubscription
  pub reacts : E → Option String

-- The error that `React` returns at once: that of a sync subscription.
abbrev pub refusal : Kind → Option String → Option String
refusal sync_kind e = e
refusal async_kind e = none

module _ {E : Type 0} (event_type : String) (event : E) where
  -- The paths of the plugins that were called, and the error.
  abbrev pub Calls : Type 0
  Calls = List String × Option String

  -- After a call: stop with the error, or go on.
  abbrev pub called : String → Option String → Calls → Calls
  called path (some m) rest = (path ∷ [], some m)
  called path none rest = (path ∷ rest.0, rest.1)

  -- The loop over the subscriptions of a plugin.
  unfoldable pub react_subscriptions : Plugin E → List PluginSubscription → Calls
  react_subscriptions p [] = ([], none)
  react_subscriptions p (sub ∷ subs) =
      let rest = react_subscriptions p subs in
      if sub.event_type == event_type
      then called p.path (refusal sub.kind (p.reacts event)) rest
      else rest

  abbrev pub and_then : Calls → Calls → Calls
  and_then (paths, some m) rest = (paths, some m)
  and_then (paths, none) rest = (paths ++ rest.0, rest.1)

  -- Manager.React
  unfoldable pub react_all : List (Plugin E) → Calls
  react_all [] = ([], none)
  react_all (p ∷ plugins) =
      let rest = react_all plugins in and_then (react_subscriptions p p.subscriptions) rest

  -- The subscriptions to the type of the event, in the order of the plugins.
  abbrev pub interested_in : Plugin E → List PluginSubscription → List (Plugin E × Kind)
  interested_in p [] = []
  interested_in p (sub ∷ subs) =
      let rest = interested_in p subs in
      if sub.event_type == event_type then (p, sub.kind) ∷ rest else rest

  abbrev pub interested : List (Plugin E) → List (Plugin E × Kind)
  interested [] = []
  interested (p ∷ plugins) = interested_in p p.subscriptions ++ interested plugins

  -- What is to come of the subscriptions to an event, one after another: a plugin with a sync subscription
  -- that returns an error is the last that is called, and its error is returned; the result of a plugin with
  -- an async subscription is not looked at.
  pub data Asked : List (Plugin E × Kind) → Calls → Type 0 where
    all_asked : Asked [] ([], none)
    async_asked :
        (p : Plugin E) (rest : List (Plugin E × Kind)) (paths : List String) (e : Option String)
        → Asked rest (paths, e)
        → Asked ((p, async_kind) ∷ rest) (p.path ∷ paths, e)
    sync_accepts :
        (p : Plugin E) (rest : List (Plugin E × Kind)) (paths : List String) (e : Option String)
        → p.reacts event ≡ none
        → Asked rest (paths, e)
        → Asked ((p, sync_kind) ∷ rest) (p.path ∷ paths, e)
    sync_refuses :
        (p : Plugin E) (rest : List (Plugin E × Kind)) (m : String)
        → p.reacts event ≡ some m
        → Asked ((p, sync_kind) ∷ rest) (p.path ∷ [], some m)

  -- One call after another, up to the first refusal.
  abbrev up_to_refusal : List (Plugin E × Kind) → Calls
  up_to_refusal [] = ([], none)
  up_to_refusal (call ∷ calls) =
      called call.0.path (refusal call.1 (call.0.reacts event)) (up_to_refusal calls)

  sync-Asked :
      (p : Plugin E) (rest : List (Plugin E × Kind)) (r : Option String) (c : Calls)
      → p.reacts event ≡ r
      → Asked rest c
      → Asked ((p, sync_kind) ∷ rest) (called p.path r c)
  sync-Asked p rest none c is h = sync_accepts p rest c.0 c.1 is h
  sync-Asked p rest (some m) c is h = sync_refuses p rest m is

  up_to_refusal-Asked : (calls : List (Plugin E × Kind)) → Asked calls (up_to_refusal calls)
  up_to_refusal-Asked [] = all_asked
  up_to_refusal-Asked ((p, async_kind) ∷ calls) =
      async_asked p calls (up_to_refusal calls).0 (up_to_refusal calls).1
        (up_to_refusal-Asked calls)
  up_to_refusal-Asked ((p, sync_kind) ∷ calls) =
      sync-Asked p calls (p.reacts event) (up_to_refusal calls) refl (up_to_refusal-Asked calls)

  called-and_then :
      (path : String) (r : Option String) (a b : Calls)
      → called path r (and_then a b) ≡ and_then (called path r a) b
  called-and_then path (some m) a b = refl
  called-and_then path none (paths, some m) b = refl
  called-and_then path none (paths, none) b = refl

  up_to_refusal-append :
      (xs ys : List (Plugin E × Kind))
      → up_to_refusal (xs ++ ys) ≡ and_then (up_to_refusal xs) (up_to_refusal ys)
  up_to_refusal-append [] ys = refl
  up_to_refusal-append (x ∷ xs) ys =
      ap (called x.0.path (refusal x.1 (x.0.reacts event))) (up_to_refusal-append xs ys)
      ∙ called-and_then x.0.path (refusal x.1 (x.0.reacts event)) (up_to_refusal xs)
          (up_to_refusal ys)

  react_subscriptions-interested :
      (p : Plugin E) (subs : List PluginSubscription)
      → react_subscriptions p subs ≡ up_to_refusal (interested_in p subs)
  unfolding react_subscriptions
  react_subscriptions-interested p [] = refl
  react_subscriptions-interested p (sub ∷ subs) = elim (Bool-cases (sub.event_type == event_type)) [
    | inl e ↦ rw e (
        ap (called p.path (refusal sub.kind (p.reacts event)))
          (react_subscriptions-interested p subs))
    | inr e ↦ rw e (react_subscriptions-interested p subs)
  ]

  react_all-up_to_refusal :
      (plugins : List (Plugin E)) → react_all plugins ≡ up_to_refusal (interested plugins)
  unfolding react_all
  react_all-up_to_refusal [] = refl
  react_all-up_to_refusal (p ∷ plugins) =
      (λ i.
        and_then (react_subscriptions-interested p p.subscriptions i)
          (react_all-up_to_refusal plugins i))
      ∙ sym (up_to_refusal-append (interested_in p p.subscriptions) (interested plugins))

  -- `React` calls the plugins once for each of their subscriptions to the type of the event, in the order
  -- of the plugins and of their subscriptions, up to the first sync subscription whose plugin returns an
  -- error, and returns that error; errors of async subscriptions stop nothing.
  pub react_all-interested :
      (plugins : List (Plugin E)) → Asked (interested plugins) (react_all plugins)
  react_all-interested plugins =
      subst (Asked (interested plugins)) (sym (react_all-up_to_refusal plugins))
        (up_to_refusal-Asked (interested plugins))
