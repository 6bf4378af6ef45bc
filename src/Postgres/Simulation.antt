-- ===== src/Postgres/Simulation.antt =====
-- The methods of PostgresT1 over a connection that behaves as documented do what they do over the
-- documented connection itself.
use memory_agent.Action.{
  Outcome, or_throw, return, then_do, Action, ◌>>=◌, throw, Error, value_error, validation_error,
  done, raised,
}
use memory_agent.Postgres.{
  insert_statement, in_block, Connection, Statement, end_block, vector_statement,
}
use memory_agent.Schema.{MemoryRecord}
use memory_agent.Text.{Text}
use memory_agent.T1.{record_params, make_record, Row, find_row}
use memory_agent.Postgres.Calls.{
  replace_if_one, insert_both, retire_and_insert, get, upsert_with_vector, supersede, run,
  record_of, retirement,
}
use memory_agent.Postgres.Session.{
  enter, seen, IsPsycopg, select, leave, Session, documented, abandon, execute,
}
use memory_agent.Prelude.{
  ℕ, ◌≡◌, refl, ap, ◌∙◌, Bool, true, false, Option, none, some, List, eqb, if◌then◌else◌,
}

module _ {F Conn : Type 0} (view : Conn → Session F) where
  module _ {A : Type 0} where
    abbrev pub Sim : Action Conn A → Action (Session F) A → Type 0
    Sim m n = (s : Conn) → seen view (m s) ≡ n (view s)

    pub Sim-return : (a : A) → Sim (return a) (return a)
    Sim-return a s = refl

    pub Sim-throw : (e : Error) → Sim (throw e) (throw e)
    Sim-throw e s = refl

    pub Sim-or_throw : (e : Error) (o : Option A) → Sim (or_throw e o) (or_throw e o)
    unfolding or_throw
    Sim-or_throw e none s = refl
    Sim-or_throw e (some a) s = refl

    pub Sim-if :
        (b : Bool) (m m' : Action Conn A) (n n' : Action (Session F) A)
        → Sim m n
        → Sim m' n'
        → Sim (if b then m else m') (if b then n else n')
    Sim-if true m m' n n' h k = h
    Sim-if false m m' n n' h k = k

  module _ {A B : Type 0} where
    seen-then_do :
        (f : A → Action Conn B) (g : A → Action (Session F) B)
        → ((a : A) → Sim (f a) (g a))
        → (o : Outcome Conn A) → seen view (then_do f o) ≡ then_do g (seen view o)
    seen-then_do f g k (done a s) = k a s
    seen-then_do f g k (raised e s) = refl

    pub Sim-bind :
        (m : Action Conn A) (n : Action (Session F) A)
        → (f : A → Action Conn B) (g : A → Action (Session F) B) → Sim m n
        → ((a : A) → Sim (f a) (g a))
        → Sim (m >>= f) (n >>= g)
    Sim-bind m n f g h k s = seen-then_do f g k (m s) ∙ ap (then_do g) (h s)

  module _ {A : Type 0} (b l a : Action Conn (Unit {0})) (b' l' a' : Action (Session F) (Unit {0}))
      (hb : Sim b b') (hl : Sim l l') (ha : Sim a a') where
    end_block-seen :
        (o : Outcome Conn A) → seen view (end_block b l a o) ≡ end_block b' l' a' (seen view o)
    end_block-seen (done x s) = Sim-bind l l' (λ _. return x) (λ _. return x) hl (λ _ t. refl) s
    end_block-seen (raised e s) = Sim-bind a a' (λ _. throw e) (λ _. throw e) ha (λ _ t. refl) s

    pub Sim-in_block :
        (m : Action Conn A) (n : Action (Session F) A)
        → Sim m n
        → Sim (in_block b l a m) (in_block b' l' a' n)
    unfolding in_block
    Sim-in_block m n h s = step (b s) ∙ ap after_enter (hb s)
      where
        after_enter : Outcome (Session F) (Unit {0}) → Outcome (Session F) A
        after_enter o = elim o [ done u t ↦ end_block b' l' a' (n t) | raised e t ↦ raised e t ]

        step :
            (o : Outcome Conn (Unit {0}))
            → seen view (elim o as (λ _. Outcome Conn A) [
              | done u t ↦ end_block b l a (m t)
              | raised e t ↦ raised e t
            ])
              ≡ after_enter (seen view o)
        step (done u t) = end_block-seen (m t) ∙ ap (end_block b' l' a') (h t)
        step (raised e t) = refl

module _ {F Conn : Type 0} (c : Connection F Conn) (view : Conn → Session F)
    (laws : IsPsycopg c view) where
  abbrev pub model : Connection F (Session F)
  model = documented c.nearest

  pub run-Sim : (f : Statement F) → Sim view (run c f) (run model f)
  run-Sim f =
      Sim-bind view (c.execute f) (execute f) (λ _. return tt) (λ _. return tt) (laws.execute_sim f)
        (λ _ s. refl)

  pub insert_both-Sim :
      (r : MemoryRecord F) (v : List F) → Sim view (insert_both c r v) (insert_both model r v)
  insert_both-Sim r v =
      Sim-bind view (run c (insert_statement (record_params r)))
        (run model (insert_statement (record_params r))) (λ _. run c (vector_statement r.id v))
        (λ _. run model (vector_statement r.id v)) (run-Sim _) (λ _. run-Sim _)

  pub upsert_with_vector-Sim :
      (r : MemoryRecord F) (v : List F)
      → Sim view (upsert_with_vector c r v) (upsert_with_vector model r v)
  unfolding upsert_with_vector
  upsert_with_vector-Sim r v =
      Sim-in_block view c.enter c.leave c.abandon enter leave abandon laws.enter_sim laws.leave_sim
        laws.abandon_sim (insert_both c r v) (insert_both model r v) (insert_both-Sim r v)

  pub supersede-Sim :
      (now : ℕ) (old_id : Text) (new : MemoryRecord F) (v : List F)
      → Sim view (supersede c now old_id new v) (supersede model now old_id new v)
  unfolding supersede
  supersede-Sim now old_id new v =
      Sim-in_block view c.enter c.leave c.abandon enter leave abandon laws.enter_sim laws.leave_sim
        laws.abandon_sim (retire_and_insert c now old_id new v)
        (retire_and_insert model now old_id new v)
        (Sim-bind view (c.execute (retirement now old_id new)) (execute (retirement now old_id new))
          (λ n. replace_if_one c n new v) (λ n. replace_if_one model n new v)
          (laws.execute_sim (retirement now old_id new))
          (λ n.
            Sim-if view (eqb n 1) (insert_both c new v) (throw value_error)
              (insert_both model new v) (throw value_error) (insert_both-Sim new v)
              (Sim-throw view value_error)))

  record_of-Sim : (o : Option (Row F)) → Sim view (record_of c o) (record_of model o)
  record_of-Sim none s = refl
  record_of-Sim (some r) s =
      Sim-bind view (or_throw validation_error (make_record r)) (or_throw validation_error _)
        (λ m. return (some m)) (λ m. return (some m)) (Sim-or_throw view validation_error _)
        (λ m t. refl) s

  pub get-Sim : (id : Text) → Sim view (get c id) (get model id)
  unfolding get
  get-Sim id =
      Sim-bind view c.select select (λ t. record_of c (find_row id t.rows))
        (λ t. record_of model (find_row id t.rows)) laws.select_sim
        (λ t. record_of-Sim (find_row id t.rows))
