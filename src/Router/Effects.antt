-- ===== src/Router/Effects.antt =====
-- What a part of the router's handling adds to the effects.
use event_gateway.Common.{◌≡◌, refl, sym, ap, subst, ◌∙◌, Option, none, some, List, [], ◌∷◌, ◌++◌}
use mathlib.Core.List.{append_assoc, append-nil}
use event_gateway.Event.Defs.{Heap}
use event_gateway.Router.World.{
  Effect, World, Run, pure, panic, continue_with, ◌>>=◌, perform, read_heap, write_heap, on_heap,
}

-- Each of the effects has the property, which is one of an effect and of those before it.
abbrev pub AllAfter :
    {J : Type 0}
    → (List (Effect J) → Effect J → Type 0)
    → List (Effect J)
    → List (Effect J)
    → Type 0
AllAfter P before [] = Unit
AllAfter P before (e ∷ new) = P before e × AllAfter P (before ++ (e ∷ [])) new

AllAfter-append :
    {J : Type 0} (P : List (Effect J) → Effect J → Type 0) (before xs ys : List (Effect J))
    → AllAfter P before xs
    → AllAfter P (before ++ xs) ys
    → AllAfter P before (xs ++ ys)
AllAfter-append P before [] ys h k = subst (λ l. AllAfter P l ys) (append-nil before) k
AllAfter-append P before (x ∷ xs) ys h k = (
  h.0,
  AllAfter-append P (before ++ (x ∷ [])) xs ys h.1
      (subst (λ l. AllAfter P l ys) (sym (append_assoc before (x ∷ []) xs)) k),
)

module _ {J X : Type 0} (P : List (Effect J) → Effect J → Type 0) where
  -- The world has the effects of before and then some that have the property.
  pub record Grown (before : List (Effect J)) (w : World J X) : Type 0 where
    pub new : List (Effect J)
    pub effects_are : w.effects ≡ before ++ new
    pub all : AllAfter P before new

  -- Whatever the world, the effects that are added have the property.
  pub record Adds {A : Type 0} (m : Run J X A) : Type 0 where
    pub grown : (w : World J X) → Grown w.effects (m w).1

  Grown-refl : (w : World J X) → Grown w.effects w
  Grown-refl w = record { new = []; effects_are = sym (append-nil w.effects); all = tt }

  -- What leaves the effects as they are adds nothing.
  pub same-Adds :
      {A : Type 0} (m : Run J X A) → ((w : World J X) → (m w).1.effects ≡ w.effects) → Adds m
  same-Adds m same = record {
    grown = λ w. record { new = []; effects_are = same w ∙ sym (append-nil w.effects); all = tt };
  }

  Grown-trans :
      (before : List (Effect J)) (v w : World J X)
      → Grown before v
      → Grown v.effects w
      → Grown before w
  Grown-trans before v w first later = record {
    new = first.new ++ later.new;
    effects_are =
        later.effects_are
        ∙ ap (λ l. l ++ later.new) first.effects_are
        ∙ append_assoc before first.new later.new;
    all =
        AllAfter-append P before first.new later.new first.all
          (subst (λ l. AllAfter P l later.new) first.effects_are later.all);
  }

  continue_with-Grown :
      {A B : Type 0} (before : List (Effect J)) (r : Option A × World J X) (next : A → Run J X B)
      → Grown before r.1
      → ((a : A) → r.0 ≡ some a → Grown r.1.effects (next a r.1).1)
      → Grown before (continue_with r next).1
  continue_with-Grown before (none, w) next first later = first
  continue_with-Grown before (some a, w) next first later =
      Grown-trans before w _ first (later a refl)

  -- The same from one world.
  pub bind-Grown :
      {A B : Type 0} (m : Run J X A) (next : A → Run J X B) (w : World J X)
      → Grown w.effects (m w).1
      → ((a : A) → (m w).0 ≡ some a → Grown (m w).1.effects (next a (m w).1).1)
      → Grown w.effects ((m >>= next) w).1
  unfolding ◌>>=◌
  bind-Grown m next w first later = continue_with-Grown w.effects (m w) next first later

  pub bind-Adds :
      {A B : Type 0} (m : Run J X A) (next : A → Run J X B)
      → Adds m
      → ((a : A) (w : World J X) → (m w).0 ≡ some a → Adds (next a))
      → Adds (m >>= next)
  bind-Adds m next first later = record {
    grown = λ w. bind-Grown m next w (first.grown w) (λ a is. (later a w is).grown (m w).1);
  }

  pub pure-Adds : {A : Type 0} (a : A) → Adds (pure a)
  pure-Adds a = record { grown = λ w. Grown-refl w }

  pub panic-Adds : {A : Type 0} → Adds (panic {A = A})
  panic-Adds = record { grown = λ w. Grown-refl w }

  pub one-Grown :
      (before : List (Effect J)) (e : Effect J) (w : World J X)
      → w.effects ≡ before ++ (e ∷ [])
      → P before e
      → Grown before w
  one-Grown before e w is h = record { new = e ∷ []; effects_are = is; all = (h, tt) }

  pub perform-Adds : (e : Effect J) → ((before : List (Effect J)) → P before e) → Adds (perform e)
  unfolding perform
  perform-Adds e h = record { grown = λ w. one-Grown w.effects e _ refl (h w.effects) }

  pub read_heap-Adds : Adds read_heap
  unfolding read_heap
  read_heap-Adds = record { grown = λ w. Grown-refl w }

  pub write_heap-Adds : (heap : Heap J) → Adds (write_heap heap)
  unfolding write_heap
  write_heap-Adds heap = same-Adds (write_heap heap) (λ w. refl)

  pub on_heap-Adds : {A : Type 0} (f : Heap J → A × Heap J) → Adds (on_heap f)
  unfolding on_heap
  on_heap-Adds f = same-Adds (on_heap f) (λ w. refl)
