-- ===== src/Postgres/Session.antt =====
-- What a psycopg connection without autocommit is documented to do: the first statement begins a
-- transaction, an error of the server leaves the transaction failed until it is rolled back, and
-- `conn.transaction()` is a transaction of its own only where none is open, and a savepoint of the
-- open one otherwise.
use memory_agent.Action.{Outcome, Action, database_error, done, raised}
use memory_agent.Postgres.{Statement, Tables, Connection}
use memory_agent.Text.{Text}
use memory_agent.Prelude.{ℕ, ◌≡◌, Option, none, some, List}

pub data Status (F : Type 0) : Type 0 where
  idle : Status F
  -- An open transaction, with the tables as it sees them.
  open_at : Tables F → Status F
  failed : Status F

-- The block that runs: none, a transaction of its own, or a savepoint with the tables at its begin.
pub data Block (F : Type 0) : Type 0 where
  no_block outermost : Block F
  savepoint : Tables F → Block F

-- `stored` is what other connections see, and what is left after a crash.
pub record Session (F : Type 0) : Type 0 where
  pub stored : Tables F
  pub status : Status F
  pub block : Block F

module _ {F : Type 0} where
  abbrev pub with_status : Status F → Session F → Session F
  with_status u s = record s { status = u }

  abbrev pub ran : Session F → Option (ℕ × Tables F) → Outcome (Session F) ℕ
  ran s none = raised database_error (with_status failed s)
  ran s (some (n, t)) = done n (with_status (open_at t) s)

  abbrev execute_at : Statement F → Status F → Action (Session F) ℕ
  execute_at f idle s = ran s (f s.stored)
  execute_at f (open_at t) s = ran s (f t)
  execute_at f failed s = raised database_error s

  abbrev pub execute : Statement F → Action (Session F) ℕ
  execute f s = execute_at f s.status s

  abbrev select_at : Status F → Action (Session F) (Tables F)
  select_at idle s = done s.stored (with_status (open_at s.stored) s)
  select_at (open_at t) s = done t s
  select_at failed s = raised database_error s

  abbrev pub select : Action (Session F) (Tables F)
  select s = select_at s.status s

  -- COMMIT of a failed transaction rolls it back.
  abbrev commit_at : Status F → Action (Session F) (Unit {0})
  commit_at idle s = done tt s
  commit_at (open_at t) s = done tt (record s { stored = t; status = idle })
  commit_at failed s = done tt (with_status idle s)

  abbrev pub commit : Action (Session F) (Unit {0})
  commit s = commit_at s.status s

  abbrev enter_at : Status F → Action (Session F) (Unit {0})
  enter_at idle s = done tt (record s { status = open_at s.stored; block = outermost })
  enter_at (open_at t) s = done tt (record s { block = savepoint t })
  enter_at failed s = raised database_error s

  abbrev pub enter : Action (Session F) (Unit {0})
  enter s = enter_at s.status s

  abbrev leave_at : Block F → Action (Session F) (Unit {0})
  leave_at no_block s = done tt s
  leave_at outermost s = commit_at s.status (record s { block = no_block })
  leave_at (savepoint t) s = done tt (record s { block = no_block })

  abbrev pub leave : Action (Session F) (Unit {0})
  leave s = leave_at s.block s

  abbrev abandon_at : Block F → Action (Session F) (Unit {0})
  abandon_at no_block s = done tt s
  abandon_at outermost s = done tt (record s { status = idle; block = no_block })
  abandon_at (savepoint t) s = done tt (record s { status = open_at t; block = no_block })

  abbrev pub abandon : Action (Session F) (Unit {0})
  abandon s = abandon_at s.block s

  -- The connection as documented, with an order of distances.
  abbrev pub documented :
      (List F → ℕ → List (Text × Option (List F)) → List (Text × Option F))
      → Connection F (Session F)
  documented nearest = record {
    execute = execute;
    select = select;
    commit = commit;
    enter = enter;
    leave = leave;
    abandon = abandon;
    nearest = nearest;
  }

module _ {S T A : Type 0} where
  -- The same outcome, seen in another state.
  abbrev pub seen : (S → T) → Outcome S A → Outcome T A
  seen view (done a s) = done a (view s)
  seen view (raised e s) = raised e (view s)

-- A connection behaves as documented, where `view` is the session that it stands for.
pub record IsPsycopg {F Conn : Type 0} (c : Connection F Conn) (view : Conn → Session F)
    : Type 0 where
  pub execute_sim : (f : Statement F) (s : Conn) → seen view (c.execute f s) ≡ execute f (view s)
  pub select_sim : (s : Conn) → seen view (c.select s) ≡ select (view s)
  pub commit_sim : (s : Conn) → seen view (c.commit s) ≡ commit (view s)
  pub enter_sim : (s : Conn) → seen view (c.enter s) ≡ enter (view s)
  pub leave_sim : (s : Conn) → seen view (c.leave s) ≡ leave (view s)
  pub abandon_sim : (s : Conn) → seen view (c.abandon s) ≡ abandon (view s)
