-- ===== src/Tests/Postgres.antt =====
-- The theorems on the T1 stores and their connection at concrete inputs.
use memory_agent.Postgres
use memory_agent.Postgres.Calls
use memory_agent.Postgres.Session
use memory_agent.Postgres.Atomic
use memory_agent.Samples.{nuts, likes_tea, sample_store, thousandths}
use memory_agent.RecordStore.{sqlite_write, Records, Holds, Refined, supersedes}
use memory_agent.Action.{◌>>=◌, final, Outcome, runtime_error, done, raised}
use memory_agent.Postgres.{Connection, Tables, put_row}
use memory_agent.Schema.{MemoryRecord}
use memory_agent.Text.{codes, Text, text_eq}
use memory_agent.T1.{record_params, Store, find_row}
use memory_agent.RecordStore.Sqlite.{sqlite_refines}
use memory_agent.Postgres.Atomic.{supersede-AllOrNothing}
use memory_agent.Postgres.Durable.{write_after_read}
use memory_agent.Postgres.Refine.{visible_rows, postgres_refines, postgres_write}
use memory_agent.Postgres.Blocks.{session_at}
use memory_agent.Postgres.Session.{
  leave, documented, commit, Session, select, Status, enter, seen, abandon, IsPsycopg, idle, failed,
  no_block,
}
use memory_agent.Postgres.Version.{
  version_text, check_pgvector_version, check_pgvector_version-numbers, IsAtLeast,
}
use memory_agent.Prelude.{
  ℕ, ◌≡◌, refl, ◌≢◌, Option, none, some, List, [], ◌∷◌, ne_of_eq-false, length, take,
}

-- The index answers with no distance for what has no embedding, and with 0 for all else.
abbrev distances : List (Text × Option (List ℕ)) → List (Text × Option ℕ)
distances [] = []
distances ((id, none) ∷ vs) = (id, none) ∷ distances vs
distances ((id, some v) ∷ vs) = (id, some 0) ∷ distances vs

abbrev sample_nearest : List ℕ → ℕ → List (Text × Option (List ℕ)) → List (Text × Option ℕ)
sample_nearest q k vs = take k (distances vs)

abbrev sample_connection : Connection ℕ (Session ℕ)
sample_connection = documented sample_nearest

seen_self : {A : Type 0} (o : Outcome (Session ℕ) A) → seen (λ s. s) o ≡ o
seen_self (done a s) = refl
seen_self (raised e s) = refl

sample_connection-IsPsycopg : IsPsycopg sample_connection (λ s. s)
sample_connection-IsPsycopg = record {
  execute_sim = λ f s. seen_self (Session.execute f s);
  select_sim = λ s. seen_self (Session.select s);
  commit_sim = λ s. seen_self (Session.commit s);
  enter_sim = λ s. seen_self (Session.enter s);
  leave_sim = λ s. seen_self (Session.leave s);
  abandon_sim = λ s. seen_self (Session.abandon s);
}

abbrev sample_tables : Tables ℕ
sample_tables = record {
  rows = record_params nuts ∷ record_params likes_tea ∷ [];
  vectors = [];
  dim = 1;
}

-- A new connection, and one after a read.
abbrev new_session : Session ℕ
new_session = session_at sample_tables idle no_block

idle-failed : ◌≡◌ {A = Status ℕ} idle failed → ⊥
idle-failed e = cc

abbrev third : MemoryRecord ℕ
third = record nuts { id = codes "r3" }

supersede-AllOrNothing_example :
    Atomic.AllOrNothing 9 (codes "r2") third (1000 ∷ []) new_session (
      seen
        (λ s. s)
        (Calls.supersede sample_connection 9 (codes "r2") third (1000 ∷ []) new_session))
supersede-AllOrNothing_example =
    supersede-AllOrNothing sample_connection (λ s. s) sample_connection-IsPsycopg 9 (codes "r2")
      third (1000 ∷ []) new_session refl idle-failed

write_after_read_example :
    (final (
      (Calls.get sample_connection (codes "r1") >>= λ _.
      Calls.upsert_with_vector sample_connection third (1000 ∷ []))
        new_session)).stored
    ≡ sample_tables
write_after_read_example =
    write_after_read sample_connection (λ s. s) sample_connection-IsPsycopg (codes "r1") third
      (1000 ∷ []) new_session refl idle-failed

-- The same write without the read is stored.
stored_alone :
    length
      (final (Calls.upsert_with_vector sample_connection third (1000 ∷ []) new_session)).stored.rows
    ≡ 3
unfolding Calls.upsert_with_vector Postgres.put_row
stored_alone = refl

abbrev sample_records : Records ℕ
sample_records j = find_row j sample_tables.rows

r1-r2 : (record_params likes_tea).id ≢ (record_params nuts).id
unfolding record_params
r1-r2 = ne_of_eq-false (codes "r2") (codes "r1") refl

sample-Holds : Holds sample_records sample_tables.rows
sample-Holds = (((r1-r2, tt), (tt, tt)), λ j. refl)

postgres_refines_example :
    Refined visible_rows (supersedes 9 (codes "r2") third (1000 ∷ [])) sample_records (
      seen
        (λ s. s)
        (postgres_write sample_connection
          (supersedes 9 (codes "r2") third (1000 ∷ []))
          new_session))
postgres_refines_example =
    postgres_refines sample_connection (λ s. s) sample_connection-IsPsycopg
      (supersedes 9 (codes "r2") third (1000 ∷ [])) sample_records new_session refl idle-failed
      sample-Holds

sqlite_refines_example :
    Refined {S = Store ℕ}
      (λ s. s.rows)
      (supersedes 9 (codes "r2") third (1000 ∷ []))
      sample_records
      (sqlite_write (supersedes 9 (codes "r2") third (1000 ∷ [])) sample_store)
sqlite_refines_example =
    sqlite_refines (supersedes 9 (codes "r2") third (1000 ∷ [])) sample_records sample_store
      sample-Holds

check_pgvector_version_example :
    (IsAtLeast 0 8 1
      → check_pgvector_version (some (version_text 0 8 1)) new_session ≡ done tt new_session)
    × (¬ IsAtLeast 0 8 1
        → check_pgvector_version (some (version_text 0 8 1)) new_session
          ≡ raised runtime_error new_session)
check_pgvector_version_example = check_pgvector_version-numbers 0 8 1 new_session
