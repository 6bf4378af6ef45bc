-- ===== src/Lib.antt =====
-- A verification library for mnema, a memory engine for agents.
--
-- The program keeps what users say in three tiers. T0 is an append-only log of turns in files, T1 a
-- table of records with a vector index, T2 a vault of markdown files. `MemoryEngine`
-- (src/mnema/core/engine.py) has the verbs remember, recall, expand, forget, evict and consolidate.
-- `remember` runs the write path: the turn goes to T0, to the buffer of recent turns and to the
-- staging queue, and a durable or safety-relevant text also becomes a provisional record in T1.
-- `recall` searches T1, adds turns of the buffer, re-ranks and packs into a token budget.
-- `consolidate` drains the queue: a language model extracts records, which confirm the provisional
-- one, are merged, supersede an older record, or are inserted; then salient records are promoted to
-- the vault and decayed ones are evicted.
--
-- Which file models which part:
--   Schema          core/schema.py: Turn, MemoryRecord, RecordType
--   T1              adapters/vector_store/sqlite_t1.py: rows, statements, transactions, search
--   LocalFs         adapters/object_store/local_fs.py: append, get, archive, append_audit
--   OssS3           adapters/object_store/oss_s3.py: the same over a bucket, with the count of keys
--   ObjectStore     what both object stores refine: lists of turns, and histories of appends
--   Postgres        adapters/vector_store/postgres_t1.py: the statements, the methods (Calls), the
--                   connection (Session) and the version check (Version)
--   RecordStore     what both T1 stores refine: a table by ids
--   Vault           adapters/vault/local_fs_vault.py: promote, get_user_model
--   Buffer          core/buffer.py: push, as_candidates, as_candidates_for_user
--   Classifier      core/classifier.py: looks_like_durable_claim, with a matcher for its patterns
--   Packer, Decay   core/packer.py and core/decay.py: re_rank, pack_records, keep_score, decay_pass
--   WritePath       core/write_path.py: the safety rule and execute
--   Recall          core/recall.py: execute, with one function for each of its steps
--   Consolidation   core/consolidation.py: run, and in its children the steps of a turn
--                   (Extraction), the verdicts of the judge (Verdict) and the passes (Passes)
--   Engine          core/engine.py: the verbs, ScopedHandle, and histories of calls (`after_all`)
--   StubLlm         adapters/llm/stub.py: complete, by keywords and by a digest
--   Scheduler       adapters/scheduler/in_process.py and cron.py, over APScheduler
--   Evaluation      eval/baseline.py: containment_check and the naive context
--   Migrate, Mcp    migrate.py and mcp/server.py
-- (all paths under src/mnema). World is the state that the engine wires together; Env is what the
-- program does not implement: clock, uuids, embedder, language model, codecs, token counter, the
-- scan of the vector index, the order of a set. Each call of these is numbered, so that the answers
-- may differ from call to call. Floats is the interface of `float`. Action has the statements:
-- state passing, with exceptions that keep what was written. Action.Triples and Action.Results have
-- the rules by which the proofs follow the statements. Prelude, Text and Json have the helpers.
-- Samples has concrete parameters, Tests the theorems at concrete inputs.
--
-- Conventions. A text is the list of its code points, which are no lone surrogates; an instant is
-- its microseconds; a record is `Columns` at the types of checked columns, a row `Columns` at the
-- types as stored, and reading a row checks them. The calls of a verb do not overlap: an await is a
-- sequence point, and a verb runs to its end before the next. A loop over `live_records` of SqliteT1
-- sees the rows as they are when it begins, but makes records of them 64 at a time: where a row
-- cannot be read, it raises when it comes to the fetch of the row (`live_stream`). SQLite stores NaN
-- as NULL, so that a record is written with its columns' defaults (`as_stored`) and an UPDATE is
-- refused; the store of SqliteT1 is in no transaction, and what such a refusal leaves open, on which
-- the next BEGIN raises, is not modelled. A file read as text has its line ends translated
-- (Text.Returns).
-- A run of digits is printed with fuel n + 1 for the number n, which is more than its digits. The
-- pages of a listing are read with fuel, of which more than the number of objects is enough. Other
-- loops are over lists and need no fuel. The engine runs over SqliteT1 and LocalFS, the stores of
-- the local configuration; PostgresT1 and OSSS3Store are modelled beside them.
--
-- Not modelled: network adapters and the stub of the embedder, which call services or sum floats,
-- configuration, which wires adapters together, the creation of schemas, the runner of the evaluation
-- and the demo, which are scripts over the verbs. Case mapping is the one of ASCII.
pub mod Prelude
pub mod StubLlm
pub mod Scheduler
pub mod Evaluation
pub mod Samples
pub mod Tests
pub mod Text
pub mod Floats
pub mod Json
pub mod Action
pub mod Schema
pub mod T1
pub mod Env
pub mod LocalFs
pub mod ObjectStore
pub mod OssS3
pub mod RecordStore
pub mod Postgres
pub mod Vault
pub mod World
pub mod WritePath
pub mod Recall
pub mod Consolidation
pub mod Engine
pub mod Migrate
pub mod Mcp
pub mod Buffer
pub mod Decay
pub mod Classifier
pub mod Packer
