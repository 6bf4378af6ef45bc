-- ===== src/World/Guard.antt =====
-- The invariant of the engine for one id: its rows stay guarded, and no id to come is this one.
use memory_agent.Action.{Action, Error, or_throw, Outcome, provider_error, done, raised, write}
use memory_agent.Env.{Env}
use memory_agent.Schema.{new_record, MemoryRecord, RecordType}
use memory_agent.Text.{Text, codes}
use memory_agent.Floats.{Floats}
use memory_agent.LocalFs.{Directory}
use memory_agent.World.{at_t1, ask_provider, at_t0, fresh_record, ask, new_turn, World}
use memory_agent.T1.{Store}
use memory_agent.T1.Guard.Reads.{Guarded}
use memory_agent.Action.Triples.{
  Triple-or_throw, Ends, Triple-return, Triple-bind, Triple, Anything, Triple-write,
}
use memory_agent.Prelude.{ℕ, suc, ◌≤◌, ◌≢◌, Option, ◌++◌, arith, ◌≡◌}

module _ {F : Type 0} (env : Env F) (id : Text) where
  -- No uuid from the n-th call on makes the id.
  abbrev pub IsUnused : ℕ → Type 0
  IsUnused n = (m : ℕ) → n ≤ m → codes "mem_" ++ env.uuid m ≢ id

  abbrev pub Keeps : World F → Type 0
  Keeps w = Guarded id w.t1 × IsUnused w.calls

  IsUnused-suc : (n : ℕ) → IsUnused n → IsUnused (suc n)
  IsUnused-suc n h m le = h m (omega (arith, le))

module _ {F : Type 0} (env : Env F) (id : Text) where
  -- A change outside T1 that asks nothing.
  pub write-Triple :
      (f : World F → World F)
      → ((w : World F) → (f w).t1 ≡ w.t1)
      → ((w : World F) → (f w).calls ≡ w.calls)
      → Triple (Keeps env id) (write f) Anything
  write-Triple f a b = Triple-write f (λ w k. rw (a w, b w) k)

module _ {F A : Type 0} (env : Env F) (id : Text) where
  pub ask-Triple : (f : ℕ → A) → Triple (Keeps env id) (ask f) Anything
  unfolding ask
  ask-Triple f = record { from = λ w k. ((k.0, IsUnused-suc env id w.calls k.1), tt) }

  pub or_throw-Triple : (e : Error) (o : Option A) → Triple (Keeps env id) (or_throw e o) Anything
  or_throw-Triple e o = Triple-or_throw e o (λ a q. tt)

module _ {F A : Type 0} (env : Env F) (id : Text) where
  pub ask_provider-Triple : (f : ℕ → Option A) → Triple (Keeps env id) (ask_provider f) Anything
  ask_provider-Triple f =
      Triple-bind (ask-Triple env id f) (λ o _. or_throw-Triple env id provider_error o)

  pub at_t0-Triple : (m : Action Directory A) → Triple (Keeps env id) (at_t0 m) Anything
  at_t0-Triple m = record { from = λ w k. step w k (m w.t0) }
    where
      step :
          (w : World F)
          → Keeps env id w
          → (o : Outcome Directory A) → Ends (Keeps env id) Anything (at_t0 (λ d. o) w)
      step w k (done a d) = (k, tt)
      step w k (raised e d) = k

  pub at_t1-Triple :
      {Q : A → Type 0} (m : Action (Store F) A)
      → Triple (Guarded id) m Q
      → Triple (Keeps env id) (at_t1 m) Q
  at_t1-Triple {Q} m t = record { from = λ w k. step w k (m w.t1) (t.from w.t1 k.0) }
    where
      step :
          (w : World F)
          → Keeps env id w
          → (o : Outcome (Store F) A) → Ends (Guarded id) Q o
          → Ends (Keeps env id) Q (at_t1 (λ s. o) w)
      step w k (done a s) h = ((h.0, k.1), h.1)
      step w k (raised e s) h = (h, k.1)

module _ {F : Type 0} (env : Env F) (id : Text) where
  -- The id of an uuid is a new one.
  pub ask_uuid-Triple : Triple (Keeps env id) (ask env.uuid) (λ hex. codes "mem_" ++ hex ≢ id)
  unfolding ask
  ask_uuid-Triple = record {
    from = λ w k. ((k.0, IsUnused-suc env id w.calls k.1), k.1 w.calls (omega arith));
  }

  pub new_turn-Triple : (s c : Text) → Triple (Keeps env id) (new_turn env s c) Anything
  unfolding new_turn
  new_turn-Triple s c =
      Triple-bind (ask-Triple env id env.uuid)
        (λ hex _. Triple-bind (ask-Triple env id env.clock) (λ now _. Triple-return _ tt))

module _ {F : Type 0} ⦃fl : Floats F⦄ (env : Env F) (id : Text) where
  -- A new record has another id.
  abbrev pub IsNew : MemoryRecord F → Type 0
  IsNew r = r.id ≢ id

  pub fresh_record-Triple :
      (user_id session_id : Text) (t : RecordType) (content : Text)
      → Triple (Keeps env id) (fresh_record env user_id session_id t content) IsNew
  unfolding fresh_record new_record
  fresh_record-Triple user_id session_id t content = Triple-bind (ask_uuid-Triple env id) (λ hex n.
      Triple-bind (ask-Triple env id env.clock)
        (λ a _. Triple-bind (ask-Triple env id env.clock) (λ b _. Triple-return _ n)))
