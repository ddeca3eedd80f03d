-- ===== src/Router/Spawning.antt =====
-- How many events a part of the router's handling puts in the queue, and of which kind.
use event_gateway.Common.{
  ℕ, ◌+◌, ◌≤◌, ◌≡◌, refl, sym, ap, ◌∙◌, subst, true, Option, none, some, List, [], ◌∷◌, ◌++◌, All,
  arith,
}
use mathlib.Core.List.{append_assoc, append-nil}
use event_gateway.Event.Defs.{is_system, size}
use event_gateway.Router.World.{
  Work, Effect, called, reacted, enqueued, World, Run, pure, continue_with, ◌>>=◌, perform,
}

-- The events that are put in the queue.
abbrev pub works_of : {J : Type 0} → List (Effect J) → List (Work J)
works_of [] = []
works_of (enqueued work ∷ effects) = work ∷ works_of effects
works_of (called f payload result ∷ effects) = works_of effects
works_of (reacted e ∷ effects) = works_of effects

abbrev pub IsOwn : {J : Type 0} → Work J → Type 0
IsOwn work = is_system work.event ≡ true

works_of-append :
    {J : Type 0} (xs ys : List (Effect J)) → works_of (xs ++ ys) ≡ works_of xs ++ works_of ys
works_of-append [] ys = refl
works_of-append (enqueued work ∷ xs) ys = ap (λ l. work ∷ l) (works_of-append xs ys)
works_of-append (called f payload result ∷ xs) ys = works_of-append xs ys
works_of-append (reacted e ∷ xs) ys = works_of-append xs ys

pub size-append : {A : Type 0} (xs ys : List A) → size (xs ++ ys) ≡ size xs + size ys
size-append [] ys = omega arith
size-append (x ∷ xs) ys = let rest = size-append xs ys in omega arith

All-append : {A : Type 0} (P : A → Type 0) (xs ys : List A) → All P xs → All P ys → All P (xs ++ ys)
All-append P [] ys h k = k
All-append P (x ∷ xs) ys h k = (h.0, All-append P xs ys h.1 k)

module _ {J X : Type 0} where
  -- The effects of before, and then some that put at most `n` events in the queue, all of the router's own.
  pub record Spawned (n : ℕ) (before : List (Effect J)) (w : World J X) : Type 0 where
    pub new : List (Effect J)
    pub effects_are : w.effects ≡ before ++ new
    pub few : size (works_of new) ≤ n
    pub own : All IsOwn (works_of new)

  pub record Spawns {A : Type 0} (n : ℕ) (m : Run J X A) : Type 0 where
    pub spawned : (w : World J X) → Spawned n w.effects (m w).1

  Spawned-none :
      (n : ℕ) (before : List (Effect J)) (w : World J X) → w.effects ≡ before → Spawned n before w
  Spawned-none n before w same = record {
    new = [];
    effects_are = same ∙ sym (append-nil before);
    few = omega arith;
    own = tt;
  }

  Spawned-trans :
      (n k : ℕ) (before : List (Effect J)) (v w : World J X)
      → Spawned n before v
      → Spawned k v.effects w
      → Spawned (n + k) before w
  Spawned-trans n k before v w first later =
      let parts = works_of-append first.new later.new in
      record {
        new = first.new ++ later.new;
        effects_are =
            later.effects_are
            ∙ ap (λ l. l ++ later.new) first.effects_are
            ∙ append_assoc before first.new later.new;
        few =
            let sizes = size-append (works_of first.new) (works_of later.new) in
            let one = first.few in
            let two = later.few in subst (λ l. size l ≤ n + k) (sym parts) (omega arith);
        own =
            subst (All IsOwn) (sym parts)
              (All-append IsOwn (works_of first.new) (works_of later.new) first.own later.own);
      }

  Spawned-more :
      (n k : ℕ) (before : List (Effect J)) (w : World J X)
      → n ≤ k
      → Spawned n before w
      → Spawned k before w
  Spawned-more n k before w le s = record {
    new = s.new;
    effects_are = s.effects_are;
    few = let one = s.few in omega arith;
    own = s.own;
  }

  continue_with-Spawned :
      {A B : Type 0} (n k : ℕ) (before : List (Effect J)) (r : Option A × World J X)
      (next : A → Run J X B)
      → Spawned n before r.1
      → ((a : A) → r.0 ≡ some a → Spawns k (next a))
      → Spawned (n + k) before (continue_with r next).1
  continue_with-Spawned n k before (none, w) next first later =
      Spawned-more n (n + k) before w (omega arith) first
  continue_with-Spawned n k before (some a, w) next first later =
      Spawned-trans n k before w _ first ((later a refl).spawned w)

  pub bind-Spawns :
      {A B : Type 0} (n k t : ℕ) (m : Run J X A) (next : A → Run J X B)
      → n + k ≤ t
      → Spawns n m
      → ((a : A) (w : World J X) → (m w).0 ≡ some a → Spawns k (next a))
      → Spawns t (m >>= next)
  unfolding ◌>>=◌
  bind-Spawns n k t m next le first later = record {
    spawned = λ w.
        Spawned-more (n + k) t w.effects _ le
          (continue_with-Spawned n k w.effects (m w) next (first.spawned w) (λ a is. later a w is));
  }

  pub pure-Spawns : {A : Type 0} (n : ℕ) (a : A) → Spawns n (pure a)
  pure-Spawns n a = record { spawned = λ w. Spawned-none n w.effects w refl }

  pub same-Spawns :
      {A : Type 0} (n : ℕ) (m : Run J X A)
      → ((w : World J X) → (m w).1.effects ≡ w.effects)
      → Spawns n m
  same-Spawns n m same = record { spawned = λ w. Spawned-none n w.effects _ (same w) }

  pub perform-Spawns :
      (n : ℕ) (e : Effect J)
      → size (works_of (e ∷ [])) ≤ n
      → All IsOwn (works_of (e ∷ []))
      → Spawns n (perform e)
  unfolding perform
  perform-Spawns n e few own = record {
    spawned = λ w. record { new = e ∷ []; effects_are = refl; few = few; own = own };
  }
