-- ===== src/Action/Triples.antt =====
-- Hoare triples: an action started where `P` holds ends where `P` holds, whether it returns or
-- raises, and the value that it returns meets `Q`.
use memory_agent.Prelude.{
  ◌≡◌, refl, Bool, true, false, Option, none, some, List, [], ◌∷◌, if◌then◌else◌, All,
}
use memory_agent.Action.{
  Error, Outcome, done, raised, Action, final, return, throw, or_throw, then_do, ◌>>=◌, write, when,
  finally, for_each, focus, read,
}
use memory_agent.Action.Moves.{Moves}

module _ {S A : Type 0} where
  abbrev pub Ends : (S → Type 0) → (A → Type 0) → Outcome S A → Type 0
  Ends P Q (done a s) = P s × Q a
  Ends P Q (raised e s) = P s

abbrev pub Anything : {A : Type 0} → A → Type 0
Anything a = Unit {0}

pub record Triple {S A : Type 0} (P : S → Type 0) (m : Action S A) (Q : A → Type 0) : Type 0 where
  pub from : (s : S) → P s → Ends P Q (m s)

module _ {S A : Type 0} (P : S → Type 0) where
  pub Ends-final : (Q : A → Type 0) (o : Outcome S A) → Ends P Q o → P (final o)
  Ends-final Q (done a s) h = h.0
  Ends-final Q (raised e s) h = h

  pub Ends-of_final : (o : Outcome S A) → P (final o) → Ends P Anything o
  Ends-of_final (done a s) h = (h, tt)
  Ends-of_final (raised e s) h = h

module _ {S A : Type 0} {P : S → Type 0} where
  pub Triple-return : {Q : A → Type 0} (a : A) → Q a → Triple P (return a) Q
  Triple-return a q = record { from = λ s h. (h, q) }

  pub Triple-throw : {Q : A → Type 0} (e : Error) → Triple P (throw {A = A} e) Q
  Triple-throw e = record { from = λ s h. h }

  pub Triple-or_throw :
      {Q : A → Type 0} (e : Error) (o : Option A)
      → ((a : A) → o ≡ some a → Q a)
      → Triple P (or_throw e o) Q
  unfolding or_throw
  Triple-or_throw e none q = record { from = λ s h. h }
  Triple-or_throw e (some a) q = record { from = λ s h. (h, q a refl) }

  pub keeps : {Q : A → Type 0} {m : Action S A} → Triple P m Q → (s : S) → P s → P (final (m s))
  keeps {Q} {m = m} t s h = Ends-final P Q (m s) (t.from s h)

  pub Triple-any : {Q : A → Type 0} {m : Action S A} → Triple P m Q → Triple P m Anything
  Triple-any {Q} {m = m} t = record {
    from = λ s h. Ends-of_final P (m s) (Ends-final P Q (m s) (t.from s h));
  }

  pub Triple_of_Moves :
      {R : S → S → Type 0} {m : Action S A}
      → Moves R m
      → ((s t : S) → R s t → P s → P t)
      → Triple P m Anything
  Triple_of_Moves {m = m} mv k = record {
    from = λ s h. Ends-of_final P (m s) (k s _ (mv.from s) h);
  }

  pub Triple-if :
      {Q : A → Type 0} (b : Bool) {m n : Action S A}
      → (b ≡ true → Triple P m Q)
      → (b ≡ false → Triple P n Q)
      → Triple P (if b then m else n) Q
  Triple-if true h k = h refl
  Triple-if false h k = k refl

module _ {S A B : Type 0} {P : S → Type 0} where
  then_do-Ends :
      {Q : A → Type 0} {T : B → Type 0} (o : Outcome S A) (f : A → Action S B)
      → Ends P Q o
      → ((a : A) → Q a → Triple P (f a) T)
      → Ends P T (then_do f o)
  then_do-Ends (done a s) f h k = (k a h.1).from s h.0
  then_do-Ends (raised e s) f h k = h

  pub Triple-bind :
      {Q : A → Type 0} {T : B → Type 0} {m : Action S A} {f : A → Action S B}
      → Triple P m Q
      → ((a : A) → Q a → Triple P (f a) T)
      → Triple P (m >>= f) T
  Triple-bind {m = m} {f = f} t k = record { from = λ s h. then_do-Ends (m s) f (t.from s h) k }

module _ {S A : Type 0} {P : S → Type 0} where
  pub Triple-read : (f : S → A) → Triple P (read f) Anything
  unfolding read
  Triple-read f = record { from = λ s h. (h, tt) }

module _ {S : Type 0} {P : S → Type 0} where
  pub Triple-write : (f : S → S) → ((s : S) → P s → P (f s)) → Triple P (write f) Anything
  unfolding write
  Triple-write f h = record { from = λ s p. (h s p, tt) }

  pub Triple-when :
      (b : Bool) {m : Action S (Unit {0})}
      → (b ≡ true → Triple P m Anything)
      → Triple P (when b m) Anything
  Triple-when true h = h refl
  Triple-when false h = record { from = λ s p. (p, tt) }

  finally-Ends :
      (o : Outcome S Unit) (n : Action S (Unit {0}))
      → P (final o)
      → Triple P n Anything
      → P (final (finally (λ _. o) n (final o)))
  finally-Ends (done a s) n h t = Ends-final P Anything (n s) (t.from s h)
  finally-Ends (raised e s) n h t = raises (n s) (Ends-final P Anything (n s) (t.from s h))
    where
      raises :
          (q : Outcome S Unit)
          → P (final q)
          → P (
              final (elim q as (λ _. Outcome S Unit) [
                | done a u ↦ raised e u
                | raised e' u ↦ raised e' u
              ]))
      raises (done a u) k = k
      raises (raised e' u) k = k

  pub Triple-finally :
      {m n : Action S Unit}
      → Triple P m Anything
      → Triple P n Anything
      → Triple P (finally m n) Anything
  Triple-finally {m = m} {n = n} t u = record {
    from = λ s h.
        Ends-of_final P (finally m n s)
          (finally-Ends (m s) n (Ends-final P Anything (m s) (t.from s h)) u);
  }

module _ {S A : Type 0} {P : S → Type 0} where
  pub Triple-for_each :
      (Q : A → Type 0) (xs : List A) {m : A → Action S (Unit {0})}
      → All Q xs
      → ((a : A) → Q a → Triple P (m a) Anything)
      → Triple P (for_each xs m) Anything
  unfolding for_each
  Triple-for_each Q [] q k = record { from = λ s h. (h, tt) }
  Triple-for_each Q (x ∷ xs) q k =
      let rest = Triple-for_each Q xs q.1 k in Triple-bind (k x q.0) (λ _ _. rest)

module _ {W S A : Type 0} (view : W → S) (put : S → W → W) where
  focus-Ends :
      (P : W → Type 0) (Q : A → Type 0) (w : W) (o : Outcome S A)
      → Ends (λ s. P (put s w)) Q o
      → Ends P Q (focus view put (λ _. o) w)
  focus-Ends P Q w (done a s) h = h
  focus-Ends P Q w (raised e s) h = h

  -- An action on a part, by what it does to the part.
  pub Triple-focus :
      {P : W → Type 0} {Q : A → Type 0} (m : Action S A)
      → ((w : W) → P w → Ends (λ s. P (put s w)) Q (m (view w)))
      → Triple P (focus view put m) Q
  Triple-focus {P} {Q} m h = record { from = λ w p. focus-Ends P Q w (m (view w)) (h w p) }
