-- ===== src/Engine/Ownership.antt =====
-- What `forget` and `expand` refuse: records of other users, and protected ones.
use memory_agent.T1
use memory_agent.Action.{Outcome, value_error, done, raised, throw, Action, return}
use memory_agent.Env.{Env}
use memory_agent.Floats.{Floats}
use memory_agent.Schema.{MemoryRecord}
use memory_agent.Text.{Text, text_eq}
use memory_agent.World.{World, ask, at_t1}
use memory_agent.Engine.{forget, if_found, forget_found, turn_of, expand, expand_found}
use memory_agent.Prelude.{
  suc, ◌≡◌, Bool, true, not, ◌||◌, some, ◌==◌, ◌∙◌, ℕ, refl, false, if◌then◌else◌, ◌≢◌, none,
  eq-false_of_ne,
}
use memory_agent.Action.Results.{focus_done, bind_run}

module _ {F : Type 0} ⦃fl : Floats F⦄ (env : Env F) where
  abbrev pub refused : World F → Outcome (World F) (Unit {0})
  refused w = raised value_error (record w { calls = suc w.calls })

  abbrev pub is_refused : Text → MemoryRecord F → Bool
  is_refused user_id r = not (r.user_id == user_id) || r.protected

  forget_found-refused :
      (record_id user_id reason : Text) (now : ℕ) (r : MemoryRecord F) (w : World F)
      → is_refused user_id r ≡ true
      → forget_found env record_id user_id reason now r w ≡ raised value_error w
  unfolding forget_found
  forget_found-refused record_id user_id reason now r w h =
      step _ (r.user_id == user_id) r.protected h
    where
      step :
          (m : Action (World F) (Unit {0})) (b c : Bool)
          → (not b || c) ≡ true
          → (if not b then throw value_error else if c then throw value_error else m) w
            ≡ raised value_error w
      step m true true h = refl
      step m true false h = cc
      step m false c h = refl

  -- `forget` of a record that another user owns, or that is protected, raises ValueError and
  -- changes nothing but the clock's reading: no row, no vector, no file.
  pub forget_refuses :
      (record_id user_id reason : Text) (w : World F) (r : MemoryRecord F)
      → T1.get record_id w.t1 ≡ done (some r) w.t1
      → is_refused user_id r ≡ true
      → forget env record_id user_id reason w ≡ refused w
  unfolding forget ask
  forget_refuses record_id user_id reason w r e h =
      bind_run (at_t1 (T1.get record_id))
        (λ found.
          if_found env (forget_found env record_id user_id reason (env.clock w.calls)) found)
        (record w { calls = suc w.calls }) (some r) (record w { calls = suc w.calls })
        (focus_done (λ x. x.t1) (λ t x. record x { t1 = t }) (T1.get record_id)
          (record w { calls = suc w.calls }) (some r) w.t1 e)
      ∙ forget_found-refused record_id user_id reason (env.clock w.calls) r _ h

  -- `expand` of a record that another user owns returns nothing, and changes nothing.
  pub expand_refuses :
      (record_id user_id : Text) (w : World F) (r : MemoryRecord F)
      → T1.get record_id w.t1 ≡ done (some r) w.t1
      → r.user_id ≢ user_id
      → expand env record_id user_id w ≡ done none w
  unfolding expand
  expand_refuses record_id user_id w r e h =
      bind_run (at_t1 (T1.get record_id)) (expand_found env user_id) w (some r) w
        (focus_done (λ x. x.t1) (λ t x. record x { t1 = t }) (T1.get record_id) w (some r) w.t1 e)
      ∙ other (r.user_id == user_id) (eq-false_of_ne r.user_id user_id h)
    where
      other :
          (b : Bool) → b ≡ false → (if b then turn_of env r.t0_ref else return none) w ≡ done none w
      other true q = cc
      other false q = refl
