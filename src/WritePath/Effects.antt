-- ===== src/WritePath/Effects.antt =====
-- What a call of the write path leaves in the stores, on each of its ways.
use memory_agent.Buffer
use memory_agent.WritePath.{execute, Utterance, enqueue, is_durable, write_provisional, index}
use memory_agent.Action.{◌>>=◌, write, return, value_error, raised, Outcome, then_do, done}
use memory_agent.Env.{Env}
use memory_agent.Schema.{Turn}
use memory_agent.Buffer.{Buffer, push}
use memory_agent.Text.{Text, codes}
use memory_agent.Floats.{Floats}
use memory_agent.LocalFs.{lines, file_of, append, contents, append_line, valid_id, ref_of}
use memory_agent.World.{new_turn, ask, World, at_t0}
use memory_agent.Prelude.{
  suc, ◌≡◌, true, false, Option, none, [], ◌∷◌, ◌++◌, if◌then◌else◌, length, ap, ◌∙◌, Bool,
}
use memory_agent.LocalFs.History.{append-invalid, append-final}
use memory_agent.Action.Results.{bind_run, focus_done}

module _ {F : Type 0} ⦃fl : Floats F⦄ (env : Env F) (u : Utterance) where
  -- The turn that the call makes.
  abbrev pub turn_at : World F → Turn F
  turn_at w = record {
    id = codes "turn_" ++ env.uuid w.calls;
    session_id = u.session_id;
    content = u.content;
    role = codes "user";
    created_at = env.clock (suc w.calls);
    metadata = [];
  }

  abbrev pub ref_at : World F → Text
  ref_at w = ref_of u.session_id (length (lines (contents (file_of u.session_id) w.t0)))

  -- The state behind the turn: filed, and in the buffer.
  abbrev pub after_turn : World F → World F
  after_turn w = record w {
    t0 = append_line (file_of u.session_id) (env.dump_turn (turn_at w)) w.t0;
    buffer = Buffer.push (turn_at w) u.session_id u.user_id w.buffer;
    calls = suc (suc w.calls);
  }

  -- With a valid session id the turn is filed before anything else is done.
  pub execute-index :
      (w : World F)
      → valid_id u.session_id ≡ true
      → execute env u w
        ≡ index env u (turn_at w) (ref_at w) (record w {
          t0 = append_line (file_of u.session_id) (env.dump_turn (turn_at w)) w.t0;
          calls = suc (suc w.calls);
        })
  unfolding execute new_turn ask
  execute-index w v =
      bind_run (at_t0 (append env u.session_id (turn_at w))) (index env u (turn_at w))
        (record w { calls = suc (suc w.calls) }) (ref_at w) _
        (focus_done (λ x. x.t0) (λ d x. record x { t0 = d }) (append env u.session_id (turn_at w))
          (record w { calls = suc (suc w.calls) }) (ref_at w) _
          (append-final env u.session_id (turn_at w) w.t0 v))

  -- The state behind a text that is filed and staged, and no more.
  abbrev pub only_staged : World F → World F
  only_staged w = record (after_turn w) {
    staging =
        w.staging ++ (record { turn = turn_at w; t0_ref = ref_at w; user_id = u.user_id }) ∷ [];
  }

  -- A text that is neither durable nor a safety claim is filed in T0, buffered and staged. The call
  -- returns whatever the providers would answer, and T1 stays as it was.
  pub execute_ephemeral :
      (w : World F)
      → valid_id u.session_id ≡ true
      → is_durable u ≡ false
      → execute env u w ≡ done (ref_at w, none) (only_staged w)
  unfolding write
  execute_ephemeral w v e = execute-index w v ∙ ap (λ b. rest b) e
    where
      filed : World F
      filed = record w {
        t0 = append_line (file_of u.session_id) (env.dump_turn (turn_at w)) w.t0;
        buffer = Buffer.push (turn_at w) u.session_id u.user_id w.buffer;
        calls = suc (suc w.calls);
      }

      rest : Bool → Outcome (World F) (Text × Option Text)
      rest b =
          ((if b then write_provisional env u (ref_at w) else return none) >>= λ t1_id.
          enqueue env (record { turn = turn_at w; t0_ref = ref_at w; user_id = u.user_id }) >>= λ _.
          return (ref_at w, t1_id))
            filed

  -- A call with an invalid session id raises ValueError. It stores nothing.
  pub execute_invalid :
      (w : World F)
      → valid_id u.session_id ≡ false
      → execute env u w ≡ raised value_error (record w { calls = suc (suc w.calls) })
  unfolding execute new_turn ask
  execute_invalid w v =
      ap
        (λ o.
          then_do (index env u (turn_at w))
            (at_t0 (λ d. o) (record w { calls = suc (suc w.calls) })))
        (append-invalid env u.session_id (turn_at w) w.t0 v)
