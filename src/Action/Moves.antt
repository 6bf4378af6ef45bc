-- ===== src/Action/Moves.antt =====
-- Where an action can take the state: relations that every statement stays within, whether it
-- returns or raises. An invariant `P` is the relation `P s → P t`.
use memory_agent.Prelude.{◌≡◌, refl, Bool, true, false, Option, none, some, List, [], ◌∷◌}
use memory_agent.Action.{
  Error, Outcome, done, raised, Action, final, return, throw, read, or_throw, then_do, ◌>>=◌, write,
  when, finally, for_each, focus,
}

pub record IsPreorder {S : Type 0} (R : S → S → Type 0) : Type 0 where
  pub stay : (s : S) → R s s
  pub go : (s t u : S) → R s t → R t u → R s u

pub record Moves {S A : Type 0} (R : S → S → Type 0) (m : Action S A) : Type 0 where
  pub from : (s : S) → R s (final (m s))

module _ {S A : Type 0} {R : S → S → Type 0} ⦃p : IsPreorder R⦄ where
  pub Moves-return : (a : A) → Moves R (return a)
  Moves-return a = record { from = p.stay }

  pub Moves-throw : (e : Error) → Moves R (throw {A = A} e)
  Moves-throw e = record { from = p.stay }

  pub Moves-read : (f : S → A) → Moves R (read f)
  unfolding read
  Moves-read f = record { from = p.stay }

  pub Moves-or_throw : (e : Error) (o : Option A) → Moves R (or_throw e o)
  unfolding or_throw
  Moves-or_throw e none = record { from = p.stay }
  Moves-or_throw e (some a) = record { from = p.stay }

  pub Moves-for_each :
      (xs : List A) (m : A → Action S (Unit {0}))
      → ((a : A) → Moves R (m a))
      → Moves R (for_each xs m)
  unfolding for_each
  Moves-for_each [] m h = record { from = p.stay }
  Moves-for_each (a ∷ xs) m h = record {
    from = λ s. step (m a s) ((h a).from s) (Moves-for_each xs m h);
  }
    where
      step :
          {s : S} (o : Outcome S Unit)
          → R s (final o)
          → Moves R (for_each xs m)
          → R s (final (then_do (λ _. for_each xs m) o))
      step {s} (done u t) r rest = p.go s t _ r (rest.from t)
      step (raised e t) r rest = r

module _ {S A B : Type 0} {R : S → S → Type 0} ⦃p : IsPreorder R⦄ where
  then_do-Moves :
      (s : S) (o : Outcome S A) (f : A → Action S B)
      → R s (final o)
      → ((a : A) → Moves R (f a))
      → R s (final (then_do f o))
  then_do-Moves s (done a t) f r h = p.go s t _ r ((h a).from t)
  then_do-Moves s (raised e t) f r h = r

  pub Moves-bind :
      (m : Action S A) (f : A → Action S B)
      → Moves R m
      → ((a : A) → Moves R (f a))
      → Moves R (m >>= f)
  Moves-bind m f hm hf = record { from = λ s. then_do-Moves s (m s) f (hm.from s) hf }

module _ {S : Type 0} {R : S → S → Type 0} ⦃p : IsPreorder R⦄ where
  pub Moves-write : (f : S → S) → ((s : S) → R s (f s)) → Moves R (write f)
  unfolding write
  Moves-write f h = record { from = h }

  pub Moves-when :
      (b : Bool) (m : Action S (Unit {0})) → (b ≡ true → Moves R m) → Moves R (when b m)
  Moves-when true m h = h refl
  Moves-when false m h = record { from = p.stay }

  finally-Moves :
      (s : S) (o : Outcome S Unit) (n : Action S (Unit {0}))
      → R s (final o)
      → Moves R n
      → R s (final (finally (λ _. o) n s))
  finally-Moves s (done a t) n r h = p.go s t _ r (h.from t)
  finally-Moves s (raised e t) n r h = after (n t) (p.go s t _ r (h.from t))
    where
      after :
          (q : Outcome S Unit)
          → R s (final q)
          → R s (
              final (elim q as (λ _. Outcome S Unit) [
                | done a u ↦ raised e u
                | raised e' u ↦ raised e' u
              ]))
      after (done a u) k = k
      after (raised e' u) k = k

  pub Moves-finally : (m n : Action S Unit) → Moves R m → Moves R n → Moves R (finally m n)
  Moves-finally m n hm hn = record { from = λ s. finally-Moves s (m s) n (hm.from s) hn }

module _ {W S A : Type 0} where
  focus-from :
      (R : W → W → Type 0) (view : W → S) (put : S → W → W) (w : W) (o : Outcome S A)
      → R w (put (final o) w)
      → R w (final (focus view put (λ _. o) w))
  focus-from R view put w (done a s) h = h
  focus-from R view put w (raised e s) h = h

  pub Moves-focus :
      {R : W → W → Type 0} (view : W → S) (put : S → W → W) (m : Action S A)
      → ((w : W) → R w (put (final (m (view w))) w))
      → Moves R (focus view put m)
  Moves-focus {R} view put m h = record { from = λ w. focus-from R view put w (m (view w)) (h w) }

pub ruleset move_rules = (
  Moves-return, Moves-throw, Moves-read, Moves-or_throw, Moves-when, Moves-bind, Moves-for_each,
  Moves-finally,
)
