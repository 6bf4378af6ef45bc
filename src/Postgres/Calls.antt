-- ===== src/Postgres/Calls.antt =====
-- src/mnema/adapters/vector_store/postgres_t1.py: the methods of PostgresT1.
use memory_agent.Action.{
  return, throw, Action, ◌>>◌, or_throw, ◌>>=◌, value_error, type_error, validation_error,
}
use memory_agent.Postgres.{
  candidates, recreate_statement, is_owned, Statement, setting, update_statement, update_where,
  distance_statement, in_block, floats_of, vector_statement, insert_statement, without,
  delete_statement, Connection,
}
use memory_agent.Schema.{MemoryRecord}
use memory_agent.Text.{Text, text_eq}
use memory_agent.T1.{
  assign_all, is_fenced, Row, Field, retire, find_row, record_params, newer, first_row, make_record,
  is_live, make_records, is_disallowed,
}
use memory_agent.Prelude.{
  ℕ, Bool, true, ◌&&◌, Option, none, some, List, [], ◌∷◌, eqb, if◌then◌else◌, ◌==◌, filter, any,
}
use memory_agent.Prelude.Sort.{sort}

module _ {F : Type 0} where
  -- The UPDATE of the old row, of the new record's user only.
  abbrev pub retirement : ℕ → Text → MemoryRecord F → Statement F
  retirement now old_id new = update_statement (is_owned old_id new.user_id) (retire now new.id)

module _ {F Conn : Type 0} (c : Connection F Conn) where
  -- Run a statement for its effect.
  abbrev pub run : Statement F → Action Conn (Unit {0})
  run f = c.execute f >>= λ _. return tt

  abbrev pub committed : Statement F → Action Conn (Unit {0})
  committed f = run f >> c.commit

  unfoldable pub upsert : MemoryRecord F → Action Conn (Unit {0})
  unfolding record_params
  upsert r = committed (insert_statement (record_params r))

  -- The two INSERTs of a record and its vector.
  abbrev pub insert_both : MemoryRecord F → List F → Action Conn (Unit {0})
  insert_both r v = run (insert_statement (record_params r)) >> run (vector_statement r.id v)

  -- `if cursor.rowcount != 1: raise ValueError`
  abbrev pub replace_if_one : ℕ → MemoryRecord F → List F → Action Conn (Unit {0})
  replace_if_one n r v = if eqb n 1 then insert_both r v else throw value_error

  abbrev pub retire_and_insert : ℕ → Text → MemoryRecord F → List F → Action Conn (Unit {0})
  retire_and_insert now old_id new v =
      c.execute (retirement now old_id new) >>= λ n. replace_if_one n new v

  unfoldable pub supersede : ℕ → Text → MemoryRecord F → List F → Action Conn (Unit {0})
  unfolding in_block update_where record_params vector_statement
  supersede now old_id new v =
      in_block c.enter c.leave c.abandon (retire_and_insert now old_id new v)

  unfoldable pub upsert_with_vector : MemoryRecord F → List F → Action Conn (Unit {0})
  unfolding in_block record_params vector_statement
  upsert_with_vector r v = in_block c.enter c.leave c.abandon (insert_both r v)

  -- `fetchone`, and the record of the row.
  abbrev pub record_of : Option (Row F) → Action Conn (Option (MemoryRecord F))
  record_of none = return none
  record_of (some r) = or_throw validation_error (make_record r) >>= λ m. return (some m)

  -- A SELECT of one row. No method that reads commits, but for the search.
  abbrev pub select_one : (List (Row F) → Option (Row F)) → Action Conn (Option (MemoryRecord F))
  select_one pick = c.select >>= λ t. record_of (pick t.rows)

  abbrev pub select_many : (Row F → Bool) → Action Conn (List (MemoryRecord F))
  select_many p = c.select >>= λ t. or_throw validation_error (make_records (filter p t.rows))

  unfoldable pub get : Text → Action Conn (Option (MemoryRecord F))
  unfolding find_row make_record or_throw
  get id = select_one (find_row id)

  unfoldable pub find_by_t0_ref : Text → Text → Action Conn (Option (MemoryRecord F))
  unfolding first_row make_record or_throw
  find_by_t0_ref ref user = select_one (first_row (is_fenced ref user))

  abbrev pub lives_for : Text → Row F → Bool
  lives_for user r = r.user_id == user && is_live r

  unfoldable pub live_records : Text → Action Conn (List (MemoryRecord F))
  unfolding make_records or_throw
  live_records user = select_many (lives_for user)

  unfoldable pub all_live_records : Action Conn (List (MemoryRecord F))
  unfolding make_records or_throw
  all_live_records = select_many is_live

  unfoldable pub get_live_records : Text → Action Conn (List (MemoryRecord F))
  unfolding make_records or_throw
  get_live_records user = select_many (lives_for user)

  -- ORDER BY created_at DESC LIMIT 1
  unfoldable pub get_latest : Text → Action Conn (Option (MemoryRecord F))
  unfolding sort first_row make_record or_throw
  get_latest user =
      select_one (λ rs. first_row (λ r. true) (sort newer (filter (lives_for user) rs)))

  unfoldable pub update : Text → List (Field F) → Action Conn (Unit {0})
  unfolding update_where assign_all is_disallowed
  update id [] = return tt
  update id (f ∷ fs) =
      if any is_disallowed (f ∷ fs)
      then throw value_error
      else committed (update_statement (λ r. r.id == id) (assign_all (f ∷ fs)))

  unfoldable pub upsert_vector : Text → List F → Action Conn (Unit {0})
  unfolding vector_statement
  upsert_vector id v = committed (vector_statement id v)

  unfoldable pub delete_vector : Text → Action Conn (Unit {0})
  unfolding without
  delete_vector id = committed (delete_statement id)

  unfoldable pub recreate_vector_store : ℕ → Action Conn (Unit {0})
  unfolding in_block
  recreate_vector_store new_dim =
      in_block c.enter c.leave c.abandon (run (recreate_statement new_dim))

  unfoldable pub vector_search : List F → ℕ → Text → Option Text → Action Conn (List (Text × F))
  unfolding find_row or_throw
  vector_search q k user agent = do
    run setting
    run (distance_statement q user agent)
    t ← c.select
    c.commit
    or_throw type_error (floats_of (c.nearest q k (candidates user agent t)))
