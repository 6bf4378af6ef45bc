-- ===== src/Postgres/Durable.antt =====
-- src/mnema/adapters/vector_store/postgres_t1.py: what is stored after a read and a write.
use memory_agent.Action.{
  Outcome, done, raised, return, final, ◌>>=◌, then_do, or_throw, validation_error,
}
use memory_agent.Postgres.{Tables, Connection}
use memory_agent.Schema.{MemoryRecord}
use memory_agent.Text.{Text, text_eq}
use memory_agent.T1.{Row, find_row, make_record}
use memory_agent.Postgres.Calls.{get, upsert_with_vector, record_of, insert_both}
use memory_agent.Postgres.Blocks.{
  in_block-open, ended_open, session_at, Inner, inserted, fine, broke, insert_both-ended,
  visible_at,
}
use memory_agent.Postgres.Session.{
  Status, seen, documented, Session, IsPsycopg, idle, open_at, failed, no_block,
}
use memory_agent.Postgres.Simulation.{get-Sim, Sim-bind, upsert_with_vector-Sim}
use memory_agent.Prelude.{ℕ, ◌≡◌, refl, ◌≢◌, Option, none, some, List, ap, ◌∙◌}

module _ {F : Type 0}
    (nearest : List F → ℕ → List (Text × Option (List F)) → List (Text × Option F)) where
  record_of-final :
      (o : Option (Row F)) (s : Session F) → final (record_of (documented nearest) o s) ≡ s
  unfolding or_throw
  record_of-final none s = refl
  record_of-final (some r) s = step (make_record r)
    where
      step :
          (o : Option (MemoryRecord F))
          → final (then_do (λ m. return (some m)) (or_throw validation_error o s)) ≡ s
      step none = refl
      step (some m) = refl

  -- A read begins a transaction and leaves it open.
  get-final :
      (id : Text) (stored : Tables F) (u : Status F)
      → u ≢ failed
      → final (get (documented nearest) id (session_at stored u no_block))
        ≡ session_at stored (open_at (visible_at stored u)) no_block
  unfolding get
  get-final id stored idle n = record_of-final (find_row id stored.rows) _
  get-final id stored (open_at t) n = record_of-final (find_row id t.rows) _
  get-final id stored failed n = absurd (n refl)

  upsert_open :
      (r : MemoryRecord F) (v : List F) (stored t : Tables F)
      → (final (
          upsert_with_vector
            (documented nearest)
            r
            v
            (session_at stored (open_at t) no_block))).stored
        ≡ stored
  unfolding upsert_with_vector
  upsert_open r v stored t =
      ap (λ (o : Outcome (Session F) (Unit {0})). (final o).stored)
        (in_block-open (insert_both (documented nearest) r v) (inserted r v)
          (insert_both-ended nearest r v) stored t)
      ∙ step (inserted r v t)
    where
      step : (i : Inner F) → (final (ended_open stored t i)).stored ≡ stored
      step (fine t') = refl
      step (broke e u) = refl

  after_read :
      (r : MemoryRecord F) (v : List F) (stored t : Tables F)
      → (o : Outcome (Session F) (Option (MemoryRecord F)))
      → final o ≡ session_at stored (open_at t) no_block
      → (final (then_do (λ _. upsert_with_vector (documented nearest) r v) o)).stored ≡ stored
  after_read r v stored t (done a s) e =
      ap (λ x. (final (upsert_with_vector (documented nearest) r v x)).stored) e
      ∙ upsert_open r v stored t
  after_read r v stored t (raised x s) e = ap (λ y. y.stored) e

final-seen :
    {F Conn : Type 0} (view : Conn → Session F) (o : Outcome Conn (Unit {0}))
    → (view (final o)).stored ≡ (final (seen view o)).stored
final-seen view (done a t) = refl
final-seen view (raised x t) = refl

-- A record that is written with its vector after a read of the same connection is not stored: for
-- every connection in no block and without a failed transaction, what is stored after `get` and
-- `upsert_with_vector` is what was stored before, whether they return or raise.
pub write_after_read :
    {F Conn : Type 0} (c : Connection F Conn) (view : Conn → Session F)
    → IsPsycopg c view
    → (id : Text) (r : MemoryRecord F) (v : List F) (s : Conn) → (view s).block ≡ no_block
    → (view s).status ≢ failed
    → (view (final ((get c id >>= λ _. upsert_with_vector c r v) s))).stored ≡ (view s).stored
write_after_read {F} c view laws id r v s e n =
    final-seen view ((get c id >>= λ _. upsert_with_vector c r v) s)
    ∙ ap (λ (o : Outcome (Session F) (Unit {0})). (final o).stored)
        (Sim-bind view (get c id) (get (documented c.nearest) id) (λ _. upsert_with_vector c r v)
          (λ _. upsert_with_vector (documented c.nearest) r v) (get-Sim c view laws id)
          (λ _. upsert_with_vector-Sim c view laws r v) s)
    ∙ ap
        (λ b.
          (final (
            (get (documented c.nearest) id >>= λ _. upsert_with_vector (documented c.nearest) r v)
              (session_at (view s).stored (view s).status b))).stored)
        e
    ∙ after_read c.nearest r v (view s).stored (visible_at (view s).stored (view s).status)
        (get (documented c.nearest) id (session_at (view s).stored (view s).status no_block))
        (get-final c.nearest id (view s).stored (view s).status n)
