-- ===== src/RecordStore.antt =====
-- src/mnema/ports/record_store.py: what a T1 store promises for its writes. The table is a function
-- from ids to rows, whatever holds the rows and in whatever order.
pub mod Rows
pub mod Sqlite
use memory_agent.T1
use mathlib.Core.Option
use memory_agent.Action.{Outcome, Action, done, raised}
use memory_agent.Schema.{MemoryRecord}
use memory_agent.Floats.{Floats}
use memory_agent.Text.{Text, text_eq}
use memory_agent.T1.{Row, Field, Store, assign_all, retire, record_params, find_row, as_stored}
use memory_agent.Prelude.{ℕ, ◌≡◌, ◌≢◌, Option, some, List, [], ◌∷◌, map, if◌then◌else◌, ◌==◌, All}

abbrev pub Records : Type 0 → Type 0
Records F = Text → Option (Row F)

-- The writes of a record, alone or with a vector, of a supersession and of some columns.
pub data Write (F : Type 0) : Type 0 where
  puts : MemoryRecord F → Write F
  puts_vector : MemoryRecord F → List F → Write F
  supersedes : ℕ → Text → MemoryRecord F → List F → Write F
  updates : Text → List (Field F) → Write F

module _ {F : Type 0} where
  abbrev pub put : Row F → Records F → Records F
  put r m j = if r.id == j then some r else m j

  abbrev pub change : Text → (Row F → Row F) → Records F → Records F
  change id f m j = if id == j then Option.map f (m j) else m j

  -- The table after a write.
  abbrev pub written : Write F → Records F → Records F
  written (puts r) m = put (record_params r) m
  written (puts_vector r v) m = put (record_params r) m
  written (supersedes now old_id new v) m =
      put (record_params new) (change old_id (retire now new.id) m)
  written (updates id fs) m = change id (assign_all fs) m

  abbrev pub HasNo : Text → List (Row F) → Type 0
  HasNo id rs = All (λ q. q.id ≢ id) rs

  -- The primary key: no two rows have one id.
  abbrev pub Unique : List (Row F) → Type 0
  Unique [] = Unit
  Unique (r ∷ rs) = HasNo r.id rs × Unique rs

  -- The rows are those of the table.
  abbrev pub Holds : Records F → List (Row F) → Type 0
  Holds m rs = Unique rs × ((j : Text) → find_row j rs ≡ m j)

module _ {F : Type 0} ⦃fl : Floats F⦄ where
  -- The write with its record as SQLite stores it.
  abbrev pub sqlite_stored : Write F → Write F
  sqlite_stored (puts r) = puts (as_stored r)
  sqlite_stored (puts_vector r v) = puts_vector (as_stored r) v
  sqlite_stored (supersedes now old_id new v) = supersedes now old_id (as_stored new) v
  sqlite_stored (updates id fs) = updates id fs

  -- The writes of SqliteT1.
  abbrev pub sqlite_write : Write F → Action (Store F) (Unit {0})
  sqlite_write (puts r) = T1.upsert r
  sqlite_write (puts_vector r v) = T1.upsert_with_vector r v
  sqlite_write (supersedes now old_id new v) = T1.supersede now old_id new v
  sqlite_write (updates id fs) = T1.update id fs

module _ {F S : Type 0} where
  -- A write that raises leaves the table, one that returns makes it the written one.
  abbrev pub Refined : (S → List (Row F)) → Write F → Records F → Outcome S (Unit {0}) → Type 0
  Refined rows_of w m (raised e s) = Holds m (rows_of s)
  Refined rows_of w m (done a s) = Holds (written w m) (rows_of s)
