-- ===== src/Engine/Provenance.antt =====
-- From a remembered text to its record, and from the record back to the turn.
use memory_agent.WritePath
use memory_agent.T1.{get as get_record, as_stored, upsert_with_vector, Store, find_row}
use memory_agent.LocalFs.{
  get as get_turn, contents, ref_of, valid_id, file_of, Directory, append_line, lines,
}
use memory_agent.WritePath.Effects.{turn_at, ref_at, after_turn, execute-index}
use memory_agent.Action.{◌>>=◌, return, Action, done, write, then_do, Outcome}
use memory_agent.Env.{Env, IsCodecOf}
use memory_agent.Schema.{MemoryRecord, new_record}
use memory_agent.Text.{strip, Text, codes, text_eq}
use memory_agent.Floats.{Floats}
use memory_agent.WritePath.{
  resolve_record_type, write_provisional, provisional_record, Utterance, is_safety_claim,
  is_durable, enqueue,
}
use memory_agent.World.{ask, embed, at_t1, fresh_record, World, at_t0}
use memory_agent.Action.Results.{focus_done, bind_run}
use memory_agent.Prelude.{
  ℕ, suc, ◌≡◌, refl, ap, ◌∙◌, true, Option, some, List, ◌++◌, take, ◌≢◌, Bool, false, none, [], ◌∷◌,
  if◌then◌else◌, ◌==◌, eq_refl, length, All,
}
use memory_agent.Engine.{expand_found, expand, turn_of}
use memory_agent.LocalFs.History.{contents-some, joined_nonempty}
use memory_agent.LocalFs.Lines.{IsLine, joined, lines-joined, append_line-joined}
use memory_agent.T1.RoundTrip.{get-upsert_with_vector}
use memory_agent.LocalFs.Refs.{get-ref_of}
use memory_agent.World.Runs.{embed-run}

module _ {F : Type 0} ⦃fl : Floats F⦄ (env : Env F) (u : Utterance) where
  -- The provisional record, whose uuid is the n-th call.
  abbrev pub record_at : Text → ℕ → MemoryRecord F
  record_at ref n =
      record (new_record (codes "mem_" ++ env.uuid n) u.user_id u.session_id
        (resolve_record_type u.type_hint) u.content (env.clock (suc n)) (env.clock (suc (suc n)))) {
          agent_id = u.agent_id;
          summary = strip (take 80 u.content);
          provisional = true;
          protected = is_safety_claim u.content;
          t0_ref = some ref;
          embedding_model = some env.embedder_name;
          embedding_dim = some env.embedder_dim;
          embedding_version = env.embedder_version;
        }

  provisional_record-run :
      (ref : Text) (w : World F)
      → provisional_record env u ref w
        ≡ done (record_at ref w.calls) (record w { calls = suc (suc (suc w.calls)) })
  unfolding provisional_record fresh_record ask
  provisional_record-run ref w = refl

  abbrev pub indexed : World F → Store F → World F
  indexed w t = record w { t1 = t; calls = suc (suc (suc (suc w.calls))) }

  write_provisional-run :
      (ref : Text) (w : World F) (v : List F) (t : Store F)
      → env.embed w.calls u.content ≡ some v
      → upsert_with_vector (record_at ref (suc w.calls)) v w.t1 ≡ done tt t
      → write_provisional env u ref w
        ≡ done (some (codes "mem_" ++ env.uuid (suc w.calls))) (indexed w t)
  unfolding write_provisional new_record
  write_provisional-run ref w v t e q =
      bind_run (embed env u.content) rest w v (record w { calls = suc w.calls })
        (embed-run env u.content w v e)
      ∙ bind_run (provisional_record env u ref) (store v) (record w { calls = suc w.calls })
          (record_at ref (suc w.calls)) _
          (provisional_record-run ref (record w { calls = suc w.calls }))
      ∙ bind_run (at_t1 (upsert_with_vector (record_at ref (suc w.calls)) v))
          (λ _. return (some (codes "mem_" ++ env.uuid (suc w.calls)))) _ tt (indexed w t)
          (focus_done (λ x. x.t1) (λ s x. record x { t1 = s })
            (upsert_with_vector (record_at ref (suc w.calls)) v) _ tt t q)
    where
      store : List F → MemoryRecord F → Action (World F) (Option Text)
      store v r = at_t1 (upsert_with_vector r v) >>= λ _. return (some r.id)

      rest : List F → Action (World F) (Option Text)
      rest v = provisional_record env u ref >>= store v

  -- The call of the uuid that makes the id of the record.
  abbrev pub uuid_call : World F → ℕ
  uuid_call w = suc (suc (suc w.calls))

  abbrev pub record_of : World F → MemoryRecord F
  record_of w = record_at (ref_at env u w) (uuid_call w)

  abbrev pub remembered_world : World F → Store F → World F
  remembered_world w t = record (indexed (after_turn env u w) t) {
    staging =
        w.staging
        ++ (record { turn = turn_at env u w; t0_ref = ref_at env u w; user_id = u.user_id }) ∷ [];
  }

  execute_durable :
      (w : World F) (v : List F) (t : Store F)
      → valid_id u.session_id ≡ true
      → is_durable u ≡ true
      → env.embed (suc (suc w.calls)) u.content ≡ some v
      → upsert_with_vector (record_of w) v w.t1 ≡ done tt t
      → WritePath.execute env u w
        ≡ done (ref_at env u w, some (record_of w).id) (remembered_world w t)
  unfolding write new_record
  execute_durable w v t s d e q =
      execute-index env u w s
      ∙ ap (λ b. whole b) d
      ∙ ap (then_do stage) (write_provisional-run (ref_at env u w) (after_turn env u w) v t e q)
    where
      stage : Option Text → Action (World F) (Text × Option Text)
      stage t1_id =
          enqueue env
            (record { turn = turn_at env u w; t0_ref = ref_at env u w; user_id = u.user_id })
          >>= λ _. return (ref_at env u w, t1_id)

      whole : Bool → Outcome (World F) (Text × Option Text)
      whole b =
          ((if b then write_provisional env u (ref_at env u w) else return none) >>= stage)
            (after_turn env u w)

  -- A durable text in a valid session, whose session file consists of ended lines, whose turn the
  -- codecs read back from one line, whose embedding is given and whose row and vector T1 takes: the
  -- write path returns a reference and a record id, and `expand` of this id by the same user yields
  -- the turn of the text.
  pub expand_remembered :
      (w : World F) (v : List F) (t : Store F) (ls : List Text)
      → valid_id u.session_id ≡ true
      → is_durable u ≡ true
      → env.embed (suc (suc w.calls)) u.content ≡ some v
      → upsert_with_vector (record_of w) v w.t1 ≡ done tt t
      → IsCodecOf env (turn_at env u w)
      → contents (file_of u.session_id) w.t0 ≡ joined ls
      → All IsLine ls
      → let w' = remembered_world w t in
        (WritePath.execute env u w ≡ done (ref_at env u w, some (record_of w).id) w')
        × (expand env (record_of w).id u.user_id w' ≡ done (some (turn_at env u w)) w')
  unfolding expand new_record
  expand_remembered w v t ls s d e q law f h = (
    execute_durable w v t s d e q,
    bind_run (at_t1 (get_record (record_of w).id)) (expand_found env u.user_id) w'
          (some (as_stored (record_of w))) w'
          (focus_done (λ x. x.t1) (λ y x. record x { t1 = y }) (get_record (record_of w).id) w'
            (some (as_stored (record_of w))) t stored.0)
        ∙ own (u.user_id == u.user_id) (eq_refl u.user_id),
  )
    where
      w' : World F
      w' = remembered_world w t

      stored :
          (get_record (record_of w).id t ≡ done (some (as_stored (record_of w))) t)
          × ((id : Text) → (record_of w).id ≢ id → find_row id t.rows ≡ find_row id w.t1.rows)
      stored = get-upsert_with_vector (record_of w) v w.t1 t q

      d1 : Directory
      d1 = append_line (file_of u.session_id) (env.dump_turn (turn_at env u w)) w.t0

      filed : get_turn env (ref_of u.session_id (length ls)) d1 ≡ done (turn_at env u w) d1
      filed =
          get-ref_of env u.session_id (turn_at env u w) ls [] d1 law s
            (contents-some (file_of u.session_id) _ d1
              (joined_nonempty ls (env.dump_turn (turn_at env u w)) [])
              (append_line-joined (file_of u.session_id) (env.dump_turn (turn_at env u w)) w.t0 ls
                f))
            h tt

      same_ref : ref_at env u w ≡ ref_of u.session_id (length ls)
      same_ref = ap (λ xs. ref_of u.session_id (length xs)) (ap lines f ∙ lines-joined ls h)

      own :
          (b : Bool)
          → b ≡ true
          → (if b then turn_of env (some (ref_at env u w)) else return none) w'
            ≡ done (some (turn_at env u w)) w'
      own false p = cc
      own true p =
          bind_run (at_t0 (get_turn env (ref_at env u w))) (λ turn. return (some turn)) w'
            (turn_at env u w) w'
            (focus_done (λ x. x.t0) (λ d x. record x { t0 = d }) (get_turn env (ref_at env u w)) w'
              (turn_at env u w) d1 (ap (λ r. get_turn env r d1) same_ref ∙ filed))
