-- ===== src/Postgres/Blocks.antt =====
-- src/mnema/adapters/vector_store/postgres_t1.py: what `async with conn.transaction()` makes of the
-- statements in it.
use memory_agent.Action.{
  return, Error, Action, then_do, Outcome, value_error, database_error, done, raised,
}
use memory_agent.Postgres.{
  is_owned, vector_statement, end_block, put_row, in_block, Tables, update_where,
}
use memory_agent.Schema.{MemoryRecord}
use memory_agent.Text.{Text}
use memory_agent.T1.{record_params, retire}
use memory_agent.Postgres.Calls.{retire_and_insert, insert_both}
use memory_agent.Postgres.Session.{
  Status, enter, abandon, Session, ran, Block, leave, documented, idle, open_at, failed, no_block,
  outermost, savepoint,
}
use memory_agent.Prelude.{
  ℕ, ◌≡◌, refl, ap, ◌∙◌, inl, inr, Option, none, some, List, eqb, if◌then◌else◌, Bool-cases, length,
  filter,
}

-- How the statements of a block end: with the tables that they leave, or by an exception.
pub data Inner (F : Type 0) : Type 0 where
  fine : Tables F → Inner F
  broke : Error → Status F → Inner F

module _ {F : Type 0} where
  abbrev pub session_at : Tables F → Status F → Block F → Session F
  session_at stored status block = record { stored = stored; status = status; block = block }

  -- The tables that the next statement of the connection sees.
  abbrev pub visible_at : Tables F → Status F → Tables F
  visible_at stored idle = stored
  visible_at stored (open_at t) = t
  visible_at stored failed = stored

  abbrev pub visible : Session F → Tables F
  visible s = visible_at s.stored s.status

  abbrev pub ended : Tables F → Block F → Inner F → Outcome (Session F) (Unit {0})
  ended stored b (fine t) = done tt (session_at stored (open_at t) b)
  ended stored b (broke e u) = raised e (session_at stored u b)

  -- A block that begins an own transaction, and one in an open transaction.
  abbrev pub ended_own : Tables F → Inner F → Outcome (Session F) (Unit {0})
  ended_own stored (fine t) = done tt (session_at t idle no_block)
  ended_own stored (broke e u) = raised e (session_at stored idle no_block)

  abbrev pub ended_open : Tables F → Tables F → Inner F → Outcome (Session F) (Unit {0})
  ended_open stored t (fine t') = done tt (session_at stored (open_at t') no_block)
  ended_open stored t (broke e u) = raised e (session_at stored (open_at t) no_block)

  module _ (m : Action (Session F) (Unit {0})) (inner : Tables F → Inner F)
      (runs : (stored t : Tables F) (b : Block F)
        → m (session_at stored (open_at t) b) ≡ ended stored b (inner t)) where
    abbrev block : Action (Session F) (Unit {0})
    block = in_block enter leave abandon m

    pub in_block-own :
        (stored : Tables F)
        → block (session_at stored idle no_block) ≡ ended_own stored (inner stored)
    unfolding in_block
    in_block-own stored =
        ap (end_block enter leave abandon) (runs stored stored outermost) ∙ step (inner stored)
      where
        step :
            (i : Inner F)
            → end_block enter leave abandon (ended stored outermost i) ≡ ended_own stored i
        step (fine t) = refl
        step (broke e u) = refl

    pub in_block-open :
        (stored t : Tables F)
        → block (session_at stored (open_at t) no_block) ≡ ended_open stored t (inner t)
    unfolding in_block
    in_block-open stored t =
        ap (end_block enter leave abandon) (runs stored t (savepoint t)) ∙ step (inner t)
      where
        step :
            (i : Inner F)
            → end_block enter leave abandon (ended stored (savepoint t) i) ≡ ended_open stored t i
        step (fine t') = refl
        step (broke e u) = refl

  abbrev pub after_vector : Option (ℕ × Tables F) → Inner F
  after_vector none = broke database_error failed
  after_vector (some p) = fine p.1

  -- The two INSERTs of a record and its vector.
  abbrev pub inserted : MemoryRecord F → List F → Tables F → Inner F
  inserted r v t =
      after_vector (vector_statement r.id v (record t { rows = put_row (record_params r) t.rows }))

  abbrev pub retired : ℕ → Text → MemoryRecord F → Tables F → Tables F
  retired now old_id new t = record t {
    rows = update_where (is_owned old_id new.user_id) (retire now new.id) t.rows;
  }

  -- The three statements of a supersession.
  abbrev pub superseded : ℕ → Text → MemoryRecord F → List F → Tables F → Inner F
  superseded now old_id new v t =
      if eqb (length (filter (is_owned old_id new.user_id) t.rows)) 1
      then inserted new v (retired now old_id new t)
      else broke value_error (open_at (retired now old_id new t))

module _ {F : Type 0}
    (nearest : List F → ℕ → List (Text × Option (List F)) → List (Text × Option F)) where
  pub insert_both-ended :
      (r : MemoryRecord F) (v : List F) (stored t : Tables F) (b : Block F)
      → insert_both (documented nearest) r v (session_at stored (open_at t) b)
        ≡ ended stored b (inserted r v t)
  insert_both-ended r v stored t b =
      step (vector_statement r.id v (record t { rows = put_row (record_params r) t.rows }))
    where
      step :
          (o : Option (ℕ × Tables F))
          → then_do
              (λ _. return tt)
              (ran
                (session_at stored
                  (open_at (record t { rows = put_row (record_params r) t.rows }))
                  b)
                o)
            ≡ ended stored b (after_vector o)
      step none = refl
      step (some p) = refl

  pub retire_and_insert-ended :
      (now : ℕ) (old_id : Text) (new : MemoryRecord F) (v : List F) (stored t : Tables F)
      → (b : Block F)
      → retire_and_insert (documented nearest) now old_id new v (session_at stored (open_at t) b)
        ≡ ended stored b (superseded now old_id new v t)
  retire_and_insert-ended now old_id new v stored t b =
      elim (Bool-cases (eqb (length (filter (is_owned old_id new.user_id) t.rows)) 1)) [
        | inl e ↦ rw e (insert_both-ended new v stored (retired now old_id new t) b)
        | inr e ↦ rw e refl
      ]
