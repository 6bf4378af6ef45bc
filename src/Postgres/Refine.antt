-- ===== src/Postgres/Refine.antt =====
-- src/mnema/adapters/vector_store/postgres_t1.py: the writes refine those of a table by ids.
use memory_agent.Postgres.Calls
use mathlib.Core.Path.{subst}
use memory_agent.RecordStore.{
  Holds, written, Write, Records, Refined, change, put, puts, puts_vector, supersedes, updates,
}
use memory_agent.Action.{Action, throw, value_error}
use memory_agent.Postgres.{
  Tables, put_row, update_where, Connection, is_owned, Statement, update_statement,
  insert_statement,
}
use memory_agent.Schema.{MemoryRecord}
use memory_agent.Text.{Text, text_eq}
use memory_agent.Postgres.Calls.{
  upsert, update, supersede, upsert_with_vector, run, committed, insert_both, retire_and_insert,
}
use memory_agent.T1.{record_params, Row, assign_all, Field, retire, is_disallowed}
use memory_agent.T1.Guard.{assign_all-id}
use memory_agent.T1.Guard.Reads.{find_row-id}
use memory_agent.Postgres.Blocks.{
  ended_open, Inner, superseded, inserted, visible, ended_own, fine, broke, visible_at,
  in_block-own, insert_both-ended, in_block-open, retire_and_insert-ended, session_at,
}
use memory_agent.Postgres.Session.{
  Session, seen, documented, commit, Status, IsPsycopg, idle, open_at, failed, no_block,
}
use memory_agent.Postgres.Rows.{put_row-Holds, update_where-Holds, owned_found}
use memory_agent.Prelude.{
  ℕ, ◌≡◌, refl, sym, true, List, arith, ◌==◌, eq_iff, ◌≢◌, inl, inr, Option, [], ◌∷◌, Bool-cases,
  any,
}
use memory_agent.Postgres.Atomic.{InnerRows, InnerFacts, superseded-facts, inserted-rows}
use memory_agent.RecordStore.Sqlite.{Holds-unchanged}
use memory_agent.Postgres.Simulation.{
  run-Sim, Sim-throw, Sim-bind, upsert_with_vector-Sim, Sim-if, supersede-Sim, model, Sim-return,
  Sim,
}

module _ {F Conn : Type 0} (c : Connection F Conn) where
  -- The writes of PostgresT1.
  abbrev pub postgres_write : Write F → Action Conn (Unit {0})
  postgres_write (puts r) = Calls.upsert c r
  postgres_write (puts_vector r v) = Calls.upsert_with_vector c r v
  postgres_write (supersedes now old_id new v) = Calls.supersede c now old_id new v
  postgres_write (updates id fs) = Calls.update c id fs

module _ {F : Type 0} where
  abbrev pub visible_rows : Session F → List (Row F)
  visible_rows s = (visible s).rows

  abbrev InnerHolds : Records F → Inner F → Type 0
  InnerHolds m (fine t) = Holds m t.rows
  InnerHolds m (broke e u) = Unit

  own-Refined :
      (w : Write F) (m : Records F) (stored : Tables F) (i : Inner F)
      → Holds m stored.rows
      → InnerHolds (written w m) i
      → Refined visible_rows w m (ended_own stored i)
  own-Refined w m stored (fine t) h k = k
  own-Refined w m stored (broke e u) h k = h

  open-Refined :
      (w : Write F) (m : Records F) (stored t : Tables F) (i : Inner F)
      → Holds m t.rows
      → InnerHolds (written w m) i
      → Refined visible_rows w m (ended_open stored t i)
  open-Refined w m stored t (fine t') h k = k
  open-Refined w m stored t (broke e u) h k = h

  inserted-Holds :
      (r : MemoryRecord F) (v : List F) (m : Records F) (t : Tables F)
      → Holds m t.rows
      → InnerHolds (put (record_params r) m) (inserted r v t)
  inserted-Holds r v m t h = step (inserted r v t) (inserted-rows r v t)
    where
      step :
          (i : Inner F)
          → InnerRows (put_row (record_params r) t.rows) i
          → InnerHolds (put (record_params r) m) i
      step (fine t') e =
          subst (Holds (put (record_params r) m)) (sym e)
            (put_row-Holds (record_params r) m t.rows h)
      step (broke e' u) e = tt

  is_owned-id : (id user : Text) (r : Row F) → is_owned id user r ≡ true → r.id ≡ id
  is_owned-id id user r e = ground (arith, eq_iff r.id id, e)

  superseded-Holds :
      (now : ℕ) (old_id : Text) (new : MemoryRecord F) (v : List F) (m : Records F) (t : Tables F)
      → Holds m t.rows
      → InnerHolds (written (supersedes now old_id new v) m) (superseded now old_id new v t)
  superseded-Holds now old_id new v m t h =
      step (superseded now old_id new v t) (superseded-facts now old_id new v t)
    where
      step :
          (i : Inner F)
          → InnerFacts now old_id new v t i
          → InnerHolds (written (supersedes now old_id new v) m) i
      step (fine t') e = subst (Holds (written (supersedes now old_id new v) m)) (sym e.1) (
          put_row-Holds (record_params new) (change old_id (retire now new.id) m) _ (
            update_where-Holds old_id (is_owned old_id new.user_id) (retire now new.id) m t.rows
              (λ r. refl) (is_owned-id old_id new.user_id)
              (λ r q. owned_found old_id new.user_id t.rows r h.0 e.0 q) h))
      step (broke e' u) e = tt

  updated-Holds :
      (id : Text) (fs : List (Field F)) (m : Records F) (rs : List (Row F))
      → Holds m rs
      → Holds (change id (assign_all fs) m) (update_where (λ r. r.id == id) (assign_all fs) rs)
  updated-Holds id fs m rs h =
      update_where-Holds id (λ r. r.id == id) (assign_all fs) m rs (assign_all-id fs)
        (λ r e. (eq_iff r.id id).0 e) (λ r e. (eq_iff r.id id).1 (find_row-id id id rs r e)) h

  module _ (nearest : List F → ℕ → List (Text × Option (List F)) → List (Text × Option F)) where
    abbrev AtRest : Tables F → Status F → Write F → Records F → Type 0
    AtRest stored u w m =
        Refined visible_rows w m
          (postgres_write (documented nearest) w (session_at stored u no_block))

    write_at :
        (w : Write F) (m : Records F) (stored : Tables F) (u : Status F)
        → u ≢ failed
        → Holds m (visible_at stored u).rows
        → AtRest stored u w m
    unfolding Calls.upsert Calls.upsert_with_vector Calls.supersede Calls.update
    write_at w m stored failed n h = absurd (n refl)
    write_at (puts r) m stored idle n h = put_row-Holds (record_params r) m stored.rows h
    write_at (puts r) m stored (open_at t) n h = put_row-Holds (record_params r) m t.rows h
    write_at (puts_vector r v) m stored idle n h =
        subst (Refined visible_rows (puts_vector r v) m)
          (sym (
            in_block-own (insert_both (documented nearest) r v) (inserted r v)
              (insert_both-ended nearest r v) stored))
          (own-Refined (puts_vector r v) m stored (inserted r v stored) h
            (inserted-Holds r v m stored h))
    write_at (puts_vector r v) m stored (open_at t) n h =
        subst (Refined visible_rows (puts_vector r v) m)
          (sym (
            in_block-open (insert_both (documented nearest) r v) (inserted r v)
              (insert_both-ended nearest r v) stored t))
          (open-Refined (puts_vector r v) m stored t (inserted r v t) h (inserted-Holds r v m t h))
    write_at (supersedes now old_id new v) m stored idle n h =
        subst (Refined visible_rows (supersedes now old_id new v) m)
          (sym (
            in_block-own (retire_and_insert (documented nearest) now old_id new v)
              (superseded now old_id new v) (retire_and_insert-ended nearest now old_id new v)
              stored))
          (own-Refined (supersedes now old_id new v) m stored (superseded now old_id new v stored) h
            (superseded-Holds now old_id new v m stored h))
    write_at (supersedes now old_id new v) m stored (open_at t) n h =
        subst (Refined visible_rows (supersedes now old_id new v) m)
          (sym (
            in_block-open (retire_and_insert (documented nearest) now old_id new v)
              (superseded now old_id new v) (retire_and_insert-ended nearest now old_id new v)
              stored t))
          (open-Refined (supersedes now old_id new v) m stored t (superseded now old_id new v t) h
            (superseded-Holds now old_id new v m t h))
    write_at (updates id []) m stored idle n h = Holds-unchanged id m stored.rows h
    write_at (updates id []) m stored (open_at t) n h = Holds-unchanged id m t.rows h
    write_at (updates id (f ∷ fs)) m stored idle n h =
        elim (Bool-cases (any is_disallowed (f ∷ fs))) [
          | inl e ↦ rw e h
          | inr e ↦ rw e (updated-Holds id (f ∷ fs) m stored.rows h)
        ]
    write_at (updates id (f ∷ fs)) m stored (open_at t) n h =
        elim (Bool-cases (any is_disallowed (f ∷ fs))) [
          | inl e ↦ rw e h
          | inr e ↦ rw e (updated-Holds id (f ∷ fs) m t.rows h)
        ]

module _ {F Conn : Type 0} (c : Connection F Conn) (view : Conn → Session F)
    (laws : IsPsycopg c view) where
  committed-Sim : (f : Statement F) → Sim view (committed c f) (committed (model c view laws) f)
  committed-Sim f =
      Sim-bind view (run c f) (run (model c view laws) f) (λ _. c.commit) (λ _. commit)
        (run-Sim c view laws f) (λ _. laws.commit_sim)

  postgres_write-Sim :
      (w : Write F) → Sim view (postgres_write c w) (postgres_write (model c view laws) w)
  unfolding Calls.upsert Calls.update
  postgres_write-Sim (puts r) = committed-Sim (insert_statement (record_params r))
  postgres_write-Sim (puts_vector r v) = upsert_with_vector-Sim c view laws r v
  postgres_write-Sim (supersedes now old_id new v) = supersede-Sim c view laws now old_id new v
  postgres_write-Sim (updates id []) = Sim-return view tt
  postgres_write-Sim (updates id (f ∷ fs)) =
      Sim-if view (any is_disallowed (f ∷ fs)) (throw value_error)
        (committed c (update_statement (λ r. r.id == id) (assign_all (f ∷ fs)))) (throw value_error)
        (committed (model c view laws) (update_statement (λ r. r.id == id) (assign_all (f ∷ fs))))
        (Sim-throw view value_error)
        (committed-Sim (update_statement (λ r. r.id == id) (assign_all (f ∷ fs))))

-- Every write of PostgresT1, on a connection that is in no block and has no failed transaction, and
-- sees rows with unique ids that hold a table: where it raises, the connection sees rows that hold the
-- same table; where it returns, it sees rows that hold the table that the write makes, in which all
-- other ids have their rows, and no other.
pub postgres_refines :
    {F Conn : Type 0} (c : Connection F Conn) (view : Conn → Session F)
    → IsPsycopg c view
    → (w : Write F) (m : Records F) (s : Conn) → (view s).block ≡ no_block
    → (view s).status ≢ failed
    → Holds m (visible_rows (view s))
    → Refined visible_rows w m (seen view (postgres_write c w s))
postgres_refines c view laws w m s e n h =
    subst (Refined visible_rows w m) (sym (postgres_write-Sim c view laws w s)) (
      subst
        (λ b.
          Refined visible_rows w m (
            postgres_write (documented c.nearest) w (session_at (view s).stored (view s).status b)))
        (sym e) (write_at c.nearest w m (view s).stored (view s).status n h))
