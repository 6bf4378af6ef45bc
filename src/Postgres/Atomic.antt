-- ===== src/Postgres/Atomic.antt =====
-- src/mnema/adapters/vector_store/postgres_t1.py: a supersession is all of it or nothing.
use memory_agent.Prelude.Dict
use mathlib.Core.Path.{subst}
use memory_agent.Action.{Outcome, done, raised}
use memory_agent.Postgres.{
  update_where, vector_statement, is_owned, Tables, put_row, Connection, has_row,
}
use memory_agent.Schema.{MemoryRecord}
use memory_agent.Text.{Text, text_eq}
use memory_agent.T1.{Row, retire, record_params}
use memory_agent.Postgres.Calls.{supersede, retire_and_insert}
use memory_agent.Postgres.Blocks.{
  in_block-open, in_block-own, ended_own, superseded, retired, ended_open, retire_and_insert-ended,
  visible, session_at, Inner, inserted, fine, broke, after_vector,
}
use memory_agent.Postgres.Session.{
  Status, seen, documented, Session, IsPsycopg, idle, open_at, failed, no_block,
}
use memory_agent.Postgres.Simulation.{supersede-Sim}
use memory_agent.Prelude.{
  ℕ, ◌≡◌, refl, sym, ◌≢◌, inl, inr, Bool, true, false, ◌&&◌, Option, none, some, List, eqb,
  if◌then◌else◌, eqb_iff, Bool-cases, length, filter,
}
use memory_agent.Prelude.Dict.{Dict}

module _ {F : Type 0} where
  abbrev RowsKept : Tables F → Option (ℕ × Tables F) → Type 0
  RowsKept t none = Unit
  RowsKept t (some p) = p.1.rows ≡ t.rows

  vector_statement-RowsKept :
      (id : Text) (v : List F) (t : Tables F) → RowsKept t (vector_statement id v t)
  unfolding vector_statement
  vector_statement-RowsKept id v t = step (has_row id t.rows && eqb (length v) t.dim)
    where
      step :
          (b : Bool)
          → RowsKept t
              (if b then some (1, record t { vectors = Dict.put id (some v) t.vectors }) else none)
      step true = refl
      step false = tt

  abbrev pub InnerRows : List (Row F) → Inner F → Type 0
  InnerRows rs (fine t) = t.rows ≡ rs
  InnerRows rs (broke e u) = Unit

  pub inserted-rows :
      (r : MemoryRecord F) (v : List F) (t : Tables F)
      → InnerRows (put_row (record_params r) t.rows) (inserted r v t)
  inserted-rows r v t =
      step (vector_statement r.id v with_row) (vector_statement-RowsKept r.id v with_row)
    where
      with_row : Tables F
      with_row = record t { rows = put_row (record_params r) t.rows }

      step :
          (o : Option (ℕ × Tables F))
          → RowsKept with_row o
          → InnerRows (put_row (record_params r) t.rows) (after_vector o)
      step none h = tt
      step (some p) h = h

  -- What a connection that is in no block has stored, once a block has returned with the tables
  -- `now_visible`.
  abbrev pub stored_after : Session F → Tables F → Tables F
  stored_after s now_visible = elim s.status [ idle ↦ now_visible | _ ↦ s.stored ]

  module _ (now : ℕ) (old_id : Text) (new : MemoryRecord F) (v : List F) where
    abbrev pub old_rows : Tables F → List (Row F)
    old_rows t = filter (is_owned old_id new.user_id) t.rows

    -- The two ways in which a supersession ends.
    abbrev pub AllOrNothing : Session F → Outcome (Session F) (Unit {0}) → Type 0
    AllOrNothing s (raised e s') = s' ≡ s
    AllOrNothing s (done a s') =
        (length (old_rows (visible s)) ≡ 1)
        × ((visible s').rows
            ≡ put_row (record_params new)
                (update_where (is_owned old_id new.user_id) (retire now new.id) (visible s).rows))
        × (s'.stored ≡ stored_after s (visible s'))

    abbrev pub InnerFacts : Tables F → Inner F → Type 0
    InnerFacts t (fine t') =
        (length (old_rows t) ≡ 1)
        × (t'.rows ≡ put_row (record_params new) (retired now old_id new t).rows)
    InnerFacts t (broke e u) = Unit

    pub superseded-facts : (t : Tables F) → InnerFacts t (superseded now old_id new v t)
    superseded-facts t = elim (Bool-cases (eqb (length (old_rows t)) 1)) [
      | inl e ↦ rw e (
          step (inserted new v (retired now old_id new t)) ((eqb_iff _ _).0 e)
            (inserted-rows new v (retired now old_id new t)))
      | inr e ↦ rw e tt
    ]
      where
        step :
            (i : Inner F)
            → length (old_rows t) ≡ 1
            → InnerRows (put_row (record_params new) (retired now old_id new t).rows) i
            → InnerFacts t i
        step (fine t') e h = (e, h)
        step (broke e' u) e h = tt

    module _ (nearest : List F → ℕ → List (Text × Option (List F)) → List (Text × Option F)) where
      supersede-at :
          (stored : Tables F) (u : Status F)
          → u ≢ failed
          → AllOrNothing
              (session_at stored u no_block)
              (supersede (documented nearest) now old_id new v (session_at stored u no_block))
      unfolding supersede
      supersede-at stored failed n = absurd (n refl)
      supersede-at stored idle n =
          subst (AllOrNothing (session_at stored idle no_block))
            (sym (
              in_block-own (retire_and_insert (documented nearest) now old_id new v)
                (superseded now old_id new v) (retire_and_insert-ended nearest now old_id new v)
                stored))
            (step (superseded now old_id new v stored) (superseded-facts stored))
        where
          step :
              (i : Inner F)
              → InnerFacts stored i
              → AllOrNothing (session_at stored idle no_block) (ended_own stored i)
          step (fine t') h = (h.0, h.1, refl)
          step (broke e w) h = refl
      supersede-at stored (open_at t) n =
          subst (AllOrNothing (session_at stored (open_at t) no_block))
            (sym (
              in_block-open (retire_and_insert (documented nearest) now old_id new v)
                (superseded now old_id new v) (retire_and_insert-ended nearest now old_id new v)
                stored t))
            (step (superseded now old_id new v t) (superseded-facts t))
        where
          step :
              (i : Inner F)
              → InnerFacts t i
              → AllOrNothing (session_at stored (open_at t) no_block) (ended_open stored t i)
          step (fine t') h = (h.0, h.1, refl)
          step (broke e w) h = refl

-- A supersession, on a connection that is in no block and has no failed transaction: where it
-- raises, tables and connection are as they were. Where it returns, exactly one row had the old id
-- and the new record's user, that row is retired and the row of the new record is put; the change is
-- stored if no transaction was open, and otherwise not yet.
pub supersede-AllOrNothing :
    {F Conn : Type 0} (c : Connection F Conn) (view : Conn → Session F)
    → IsPsycopg c view
    → (now : ℕ) (old_id : Text) (new : MemoryRecord F) (v : List F) (s : Conn)
    → (view s).block ≡ no_block
    → (view s).status ≢ failed
    → AllOrNothing now old_id new v (view s) (seen view (supersede c now old_id new v s))
supersede-AllOrNothing c view laws now old_id new v s e n =
    subst (AllOrNothing now old_id new v (view s))
      (sym (supersede-Sim c view laws now old_id new v s))
      (subst
        (λ b. AllOrNothing now old_id new v (session_at (view s).stored (view s).status b) (
          supersede (documented c.nearest) now old_id new v
            (session_at (view s).stored (view s).status b)))
        (sym e) (supersede-at now old_id new v c.nearest (view s).stored (view s).status n))
