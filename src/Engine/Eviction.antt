-- ===== src/Engine/Eviction.antt =====
-- What the loop of `evict` does: which records it retires, what it files, and what it returns.
use memory_agent.Env.{Audit, Env}
use memory_agent.Schema.{MemoryRecord}
use memory_agent.Text.{Text, text_eq}
use memory_agent.Floats.{Floats}
use memory_agent.LocalFs.{archive_file, contents, append_line, audit_file, archive, append_audit}
use memory_agent.World.{World, at_t1, ask}
use memory_agent.T1.{
  drop_vector, update_row, Row, is_disallowed, assign, assign_all, delete_vector, update,
  live_records, is_live, live_stream,
}
use memory_agent.Consolidation.Passes.{keep_threshold}
use memory_agent.LocalFs.Lines.{joined, contents-append_line_ne, contents-append_line, joined_chain}
use memory_agent.Prelude.{
  ℕ, ◌≡◌, ap, ◌∙◌, ◌≢◌, not, some, List, [], ◌∷◌, ◌++◌, map, filter, suc, ◌+◌, refl, sym, Bool,
  true, false, append-nil, arith, if◌then◌else◌, length, eq_iff, ◌&&◌, none, ◌==◌, Option,
}
use memory_agent.Action.{
  ◌>>=◌, done, Action, then_do, validation_error, or_throw, read, throw, return, when,
}
use memory_agent.Engine.{evict_all, retire_record, evict}
use memory_agent.Action.Results.{bind_run, focus_done}
use memory_agent.Decay.{decay_pass}
use memory_agent.T1.Stream.{yielded_all}
use memory_agent.T1.Rows.{fetches, yielded, make_records}

module _ {F : Type 0} ⦃fl : Floats F⦄ (env : Env F) (now : ℕ) where
  -- The scored records that fall below the threshold.
  abbrev pub below : List (MemoryRecord F × F) → List (MemoryRecord F × F)
  below ps = filter (λ p. not (fl.le keep_threshold p.1)) ps

  abbrev pub audit_entry : MemoryRecord F × F → Audit F
  audit_entry p = record {
    record_id = p.0.id;
    user_id = p.0.user_id;
    keep_score = some p.1;
    evicted_at = now;
    reason = env.reason p.1;
  }

  abbrev pub end_row : Row F → Row F
  end_row r = record r { valid_until = some now }

  abbrev pub end_all : List (MemoryRecord F × F) → List (Row F) → List (Row F)
  end_all [] rs = rs
  end_all (p ∷ ps) rs = end_all ps (update_row p.0.id end_row rs)

  abbrev pub drop_all : List (MemoryRecord F × F) → List (Text × List F) → List (Text × List F)
  drop_all [] vs = vs
  drop_all (p ∷ ps) vs = drop_all ps (drop_vector p.0.id vs)

  -- What the evictions of the given records leave.
  abbrev pub IsEvicted : List (MemoryRecord F × F) → World F → World F → Type 0
  IsEvicted ps w w' =
      (w'.t1.rows ≡ end_all ps w.t1.rows)
      × (w'.t1.vectors ≡ drop_all ps w.t1.vectors)
      × (contents archive_file w'.t0
          ≡ contents archive_file w.t0 ++ joined (map (λ p. env.dump_record p.0) ps))
      × (contents audit_file w'.t0
          ≡ contents audit_file w.t0 ++ joined (map (λ p. env.dump_audit (audit_entry p)) ps))

  archive_ne : archive_file ≢ audit_file
  archive_ne e = let t = (eq_iff archive_file audit_file).1 e in cc

  -- The state after one eviction.
  evicted_one : MemoryRecord F × F → World F → World F
  evicted_one p w = record w {
    t1 = record w.t1 {
      rows = update_row p.0.id end_row w.t1.rows;
      vectors = drop_vector p.0.id w.t1.vectors;
    };
    t0 =
        append_line audit_file (env.dump_audit (audit_entry p))
          (append_line archive_file (env.dump_record p.0) w.t0);
  }

  retire_record-result :
      (p : MemoryRecord F × F) (w : World F)
      → retire_record env p.0.id now p.0 (audit_entry p) w ≡ done tt (evicted_one p w)
  unfolding retire_record update assign_all assign is_disallowed delete_vector archive append_audit
      evicted_one
  retire_record-result p w = refl

  IsEvicted-cons :
      (p : MemoryRecord F × F) (ps : List (MemoryRecord F × F)) (w w' : World F)
      → IsEvicted ps (evicted_one p w) w'
      → IsEvicted (p ∷ ps) w w'
  unfolding evicted_one
  IsEvicted-cons p ps w w' h = (
    h.0,
    h.1,
    joined_chain (contents archive_file w.t0) (env.dump_record p.0) _
        (contents-append_line_ne audit_file _ archive_file _ (λ e. archive_ne (sym e))
          ∙ contents-append_line archive_file (env.dump_record p.0) w.t0)
        h.2,
    joined_chain (contents audit_file w.t0) (env.dump_audit (audit_entry p)) _
        (contents-append_line audit_file _ (append_line archive_file (env.dump_record p.0) w.t0)
          ∙ ap (λ x. x ++ joined (env.dump_audit (audit_entry p) ∷ []))
              (contents-append_line_ne archive_file (env.dump_record p.0) audit_file w.t0
                archive_ne))
        h.3,
  )

  -- The loop of `evict` always returns. It ends the records below the threshold and no others,
  -- removes their vectors, appends for each of them, in order, one line to the archive with the
  -- record and one line to the audit log, and returns their number.
  pub evict_all-IsEvicted :
      (ps : List (MemoryRecord F × F)) (evicted : ℕ) (w : World F)
      → (w' : World F) × (evict_all env now ps evicted w ≡ done (evicted + length (below ps)) w')
        × IsEvicted (below ps) w w'
  unfolding evict_all
  evict_all-IsEvicted [] evicted w = (
    w,
    ap (λ n. done n w) (let z : evicted ≡ evicted + 0 = omega arith in z),
    (refl, refl, sym (append-nil _), sym (append-nil _)),
  )
  evict_all-IsEvicted (p ∷ ps) evicted w = step (fl.le keep_threshold p.1) (evict_all-IsEvicted ps)
    where
      go : Action (World F) ℕ
      go = retire_record env p.0.id now p.0 (audit_entry p) >>= λ _.
          evict_all env now ps (evicted + 1)

      step :
          (b : Bool)
          → ((n : ℕ) (u : World F)
              → (w' : World F) × (evict_all env now ps n u ≡ done (n + length (below ps)) w')
                × IsEvicted (below ps) u w')
          → (w' : World F) × ((if b then evict_all env now ps evicted else go) w
              ≡ done (evicted + length (if not b then p ∷ below ps else below ps)) w')
            × IsEvicted (if not b then p ∷ below ps else below ps) w w'
      step true ih = ih evicted w
      step false ih =
          let rest = ih (evicted + 1) (evicted_one p w) in
          (
            rest.0,
            bind_run (retire_record env p.0.id now p.0 (audit_entry p))
                  (λ _. evict_all env now ps (evicted + 1)) w tt (evicted_one p w)
                  (retire_record-result p w)
                ∙ rest.1
                ∙ ap (λ n. done n rest.0)
                    (let z : evicted + 1 + length (below ps) ≡ evicted + suc (length (below ps)) =
                        omega arith in
                      z),
            IsEvicted-cons p (below ps) w rest.0 rest.2,
          )

module _ {F : Type 0} ⦃fl : Floats F⦄ (env : Env F) where
  -- The rest of `evict`, once the generator has been started.
  abbrev evict_yielded : ℕ → List (MemoryRecord F) × Bool → Action (World F) ℕ
  evict_yielded now live = evict_all env now (decay_pass live.0 now) 0 >>= λ evicted.
      when live.1 (throw validation_error) >>= λ _. return evicted

  abbrev live_rows : Text → World F → List (Row F)
  live_rows user_id w = filter (λ r. r.user_id == user_id && is_live r) w.t1.rows

  stream :
      (user_id : Text) (w : World F) (live : List (MemoryRecord F))
      → live_records user_id w.t1 ≡ done live w.t1
      → yielded (fetches 64 (live_rows user_id w)) ≡ (live, false)
  unfolding live_records or_throw
  stream user_id w live e =
      yielded_all 64 (live_rows user_id w) live (made (make_records (live_rows user_id w)) e)
    where
      made :
          (o : Option (List (MemoryRecord F)))
          → or_throw validation_error o w.t1 ≡ done live w.t1
          → o ≡ some live
      made none q = cc
      made (some ms) q = cc

  -- `evict`, where the live records of the user can be read: it returns the number of the
  -- unprotected live records whose score is below the threshold, and these are what it evicts.
  pub evict-IsEvicted :
      (user_id : Text) (w : World F) (live : List (MemoryRecord F))
      → live_records user_id w.t1 ≡ done live w.t1
      → let now = env.clock w.calls in
        let gone = below env now (decay_pass live now) in
        (w' : World F) × (evict env user_id w ≡ done (length gone) w') × IsEvicted env now gone w w'
  unfolding evict ask live_stream read
  evict-IsEvicted user_id w live e =
      let now = env.clock w.calls in
      let w1 : World F = record w { calls = suc w.calls } in
      let loop = evict_all-IsEvicted env now (decay_pass live now) 0 w1 in
      (
        loop.0,
        bind_run (at_t1 (live_stream user_id)) (evict_yielded now) w1 (live, false) w1
              (focus_done (λ x. x.t1) (λ t x. record x { t1 = t }) (live_stream user_id) w1
                (live, false) w.t1 (ap (λ y. done y w.t1) (stream user_id w live e)))
            ∙ ap (then_do return) loop.1
            ∙ ap (λ n. done n loop.0)
                (let z : 0 + length (below env now (decay_pass live now))
                      ≡ length (below env now (decay_pass live now)) =
                    omega arith in
                  z),
        loop.2,
      )
