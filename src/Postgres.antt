-- ===== src/Postgres.antt =====
-- src/mnema/adapters/vector_store/postgres_t1.py: the T1 store over psycopg and pgvector. The
-- statements of the adapter are functions on the two tables; the connection that runs them is a
-- parameter (Session says what it is documented to do). A row of `t1_vectors` has no embedding where
-- the column was dropped and added again.
pub mod Session
pub mod Calls
pub mod Version
pub mod Simulation
pub mod Blocks
pub mod Atomic
pub mod Durable
pub mod Rows
pub mod Refine
use memory_agent.Prelude.Dict
use memory_agent.Action.{throw, return, ◌>>◌, Outcome, Action, done, raised}
use memory_agent.Text.{Text, text_eq}
use memory_agent.T1.{is_hit, find_row, Row}
use memory_agent.Prelude.{
  ℕ, Bool, true, false, not, ◌&&◌, Option, none, some, List, [], ◌∷◌, map, eqb, if◌then◌else◌, ◌==◌,
  length, filter, any,
}
use memory_agent.Prelude.Dict.{Dict}
use memory_agent.RecordStore.{put}

pub record Tables (F : Type 0) : Type 0 where
  pub rows : List (Row F)
  pub vectors : Dict Text (Option (List F))
  pub dim : ℕ

-- What a statement does to the tables, with its rowcount; `none` is an error of the server.
abbrev pub Statement : Type 0 → Type 0
Statement F = Tables F → Option (ℕ × Tables F)

-- `psycopg.AsyncConnection`, opened without autocommit. `enter`, `leave` and `abandon` are the
-- begin and the two ends of `async with conn.transaction()`. `nearest q k vs` is the order by distance with
-- its limit, as the index answers it; a missing embedding has no distance.
pub record Connection (F Conn : Type 0) : Type 0 where
  pub execute : Statement F → Action Conn ℕ
  pub select : Action Conn (Tables F)
  pub commit : Action Conn (Unit {0})
  pub enter : Action Conn (Unit {0})
  pub leave : Action Conn (Unit {0})
  pub abandon : Action Conn (Unit {0})
  pub nearest : List F → ℕ → List (Text × Option (List F)) → List (Text × Option F)

module _ {F : Type 0} where
  -- INSERT … ON CONFLICT (id) DO UPDATE
  unfoldable pub put_row : Row F → List (Row F) → List (Row F)
  put_row r [] = r ∷ []
  put_row r (q ∷ rs) = if q.id == r.id then r ∷ rs else q ∷ put_row r rs

  abbrev pub insert_statement : Row F → Statement F
  insert_statement r t = some (1, record t { rows = put_row r t.rows })

  abbrev pub has_row : Text → List (Row F) → Bool
  has_row id rs = any (λ r. r.id == id) rs

  -- INSERT … ON CONFLICT (record_id) DO UPDATE, with the foreign key and the type `vector(dim)`.
  unfoldable pub vector_statement : Text → List F → Statement F
  unfolding Dict.put
  vector_statement id v t =
      if has_row id t.rows && eqb (length v) t.dim
      then some (1, record t { vectors = Dict.put id (some v) t.vectors })
      else none

  -- UPDATE … WHERE id = %s AND user_id = %s
  abbrev pub is_owned : Text → Text → Row F → Bool
  is_owned id user r = r.id == id && r.user_id == user

  unfoldable pub update_where : (Row F → Bool) → (Row F → Row F) → List (Row F) → List (Row F)
  update_where p f [] = []
  update_where p f (r ∷ rs) = (if p r then f r else r) ∷ update_where p f rs

  abbrev pub update_statement : (Row F → Bool) → (Row F → Row F) → Statement F
  update_statement p f t =
      some (length (filter p t.rows), record t { rows = update_where p f t.rows })

  unfoldable pub without : Text → Dict Text (Option (List F)) → Dict Text (Option (List F))
  without id [] = []
  without id ((j, v) ∷ d) = let rest = without id d in if j == id then rest else (j, v) ∷ rest

  abbrev pub delete_statement : Text → Statement F
  delete_statement id t = some (1, record t { vectors = without id t.vectors })

  -- DROP COLUMN and ADD COLUMN: the rows of `t1_vectors` stay, their embeddings are NULL.
  abbrev pub emptied : Text × Option (List F) → Text × Option (List F)
  emptied e = (e.0, none)

  abbrev pub recreate_statement : ℕ → Statement F
  recreate_statement new_dim t =
      some (0, record t { vectors = map emptied t.vectors; dim = new_dim })

  -- SET
  abbrev pub setting : Statement F
  setting t = some (0, t)

  -- The JOIN with the WHERE clause of the search.
  abbrev pub candidates : Text → Option Text → Tables F → List (Text × Option (List F))
  candidates user agent t = filter (λ e. is_hit user agent (find_row e.0 t.rows)) t.vectors

  abbrev pub is_given : Option (List F) → Bool
  is_given none = false
  is_given (some v) = true

  -- A distance between vectors of different widths is an error.
  abbrev pub distance_statement : List F → Text → Option Text → Statement F
  distance_statement q user agent t =
      if any (λ e. is_given e.1) (candidates user agent t) && not (eqb (length q) t.dim)
      then none
      else some (0, t)

  -- `float(row[1])`, which raises for NULL.
  abbrev pub floats_of : List (Text × Option F) → Option (List (Text × F))
  floats_of [] = some []
  floats_of ((id, none) ∷ rows) = none
  floats_of ((id, some x) ∷ rows) = elim (floats_of rows) [
    | none ↦ none
    | some rest ↦ some ((id, x) ∷ rest)
  ]

module _ {Conn A : Type 0} (enter leave abandon : Action Conn (Unit {0})) where
  abbrev pub end_block : Outcome Conn A → Outcome Conn A
  end_block (done a s) = (leave >> return a) s
  end_block (raised e s) = (abandon >> throw e) s

  -- `async with conn.transaction(): m`
  unfoldable pub in_block : Action Conn A → Action Conn A
  in_block m s = elim (enter s) [ done u s' ↦ end_block (m s') | raised e s' ↦ raised e s' ]
