-- ===== src/Action/Results.antt =====
-- What holds of the value and the state of an action that returns.
use mathlib.Core.Path.{subst}
use memory_agent.Prelude.{◌≡◌, ap}
use memory_agent.Action.{Action, focus, then_do, Outcome, done, raised, ◌>>=◌}

module _ {S A : Type 0} where
  abbrev pub Leads : (A → S → Type 0) → Outcome S A → Type 0
  Leads P (done a s) = P a s
  Leads P (raised e s) = Unit

  pub Leads-done :
      (P : A → S → Type 0) (o : Outcome S A) (a : A) (s : S) → Leads P o → o ≡ done a s → P a s
  Leads-done P o a s h e = subst (Leads P) e h

  pub Leads-always : (o : Outcome S A) → Leads (λ a s. Unit {0}) o
  Leads-always (done a s) = tt
  Leads-always (raised e s) = tt

  -- The consequence of a stronger statement.
  pub Leads-weaken :
      (P Q : A → S → Type 0) (o : Outcome S A)
      → Leads P o
      → ((a : A) (s : S) → P a s → Q a s)
      → Leads Q o
  Leads-weaken P Q (done a s) h k = k a s h
  Leads-weaken P Q (raised e s) h k = tt

module _ {S A B : Type 0} where
  pub Leads-bind :
      (Q : B → S → Type 0) (P : A → S → Type 0) (o : Outcome S A) (f : A → Action S B)
      → Leads P o
      → ((a : A) (s : S) → P a s → Leads Q (f a s))
      → Leads Q (then_do f o)
  Leads-bind Q P (done a s) f h k = k a s h
  Leads-bind Q P (raised e s) f h k = tt

module _ {W S A : Type 0} where
  pub Leads-focus :
      (P : A → W → Type 0) (view : W → S) (put : S → W → W) (m : Action S A) (w : W)
      → Leads (λ a s. P a (put s w)) (m (view w))
      → Leads P (focus view put m w)
  Leads-focus P view put m w h = step (m (view w)) h
    where
      step :
          (o : Outcome S A) → Leads (λ a s. P a (put s w)) o → Leads P (focus view put (λ s. o) w)
      step (done a s) h = h
      step (raised e s) h = h

  -- Runs of the parts make a run of the whole.
  pub focus_done :
      (view : W → S) (put : S → W → W) (m : Action S A) (w : W) (a : A) (s : S)
      → m (view w) ≡ done a s
      → focus view put m w ≡ done a (put s w)
  focus_done view put m w a s e = ap (λ o. focus view put (λ _. o) w) e

module _ {S A B : Type 0} where
  pub bind_run :
      (m : Action S A) (f : A → Action S B) (s : S) (a : A) (t : S)
      → m s ≡ done a t
      → (m >>= f) s ≡ f a t
  bind_run m f s a t e = ap (then_do f) e
