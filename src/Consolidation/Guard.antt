-- ===== src/Consolidation/Guard.antt =====
-- A consolidation run keeps a guarded id: a protected record is refined or marked, and not
-- superseded. Extraction has the rest of a turn, Passes the passes.
pub mod Extraction
pub mod Passes
use memory_agent.T1
use memory_agent.LocalFs
use memory_agent.Vault
use memory_agent.Consolidation.Extraction.{
  same_type, reconcile, near_match, judge, resolve, confirmed, pin, process_extracted, process_turn,
}
use memory_agent.Action.{Action, ◌>>=◌, return, for_each}
use memory_agent.Json.{Json, dicts, str, arr}
use memory_agent.Env.{Env}
use memory_agent.Schema.{RecordType, MemoryRecord}
use memory_agent.Text.{Text, text_eq, codes}
use memory_agent.Floats.{Floats}
use memory_agent.World.{at_t1, World, Item}
use memory_agent.T1.{Field, update}
use memory_agent.Consolidation.Verdict.{
  replace, insert_new_confirmed, refine, is_protected, Extracted, confirmed_record, mark_pending,
  Origin, apply_verdict, refined, lookup_or, to_text,
}
use memory_agent.World.Guard.{
  ask_provider-Triple, fresh_record-Triple, ask-Triple, IsNew, or_throw-Triple, Keeps, at_t1-Triple,
}
use memory_agent.T1.Guard.{IsHarmless}
use memory_agent.T1.Guard.Reads.{IsSafeFound, get-Triple, IsSafe, find_by_t0_ref-Triple}
use memory_agent.T1.Guard.Statements.{
  update-Triple, upsert_with_vector-Triple, supersede-Triple, vector_search-Triple,
}
use memory_agent.Action.Triples.{
  Triple-return, Triple, Triple-if, Triple-bind, Anything, Triple-for_each,
}
use memory_agent.Prelude.{
  ◌≡◌, ◌≢◌, Bool, true, ◌||◌, Option, none, some, List, [], ◌∷◌, arith, if◌then◌else◌, All, false,
  ◌==◌, All-intro,
}
use memory_agent.Prelude.Dict.{Dict}
use memory_agent.Packer.{is_fact}

module _ {F : Type 0} ⦃fl : Floats F⦄ (env : Env F) (id : Text) where
  pub update-Keeps :
      (j : Text) (fs : List (Field F))
      → (j ≡ id → All IsHarmless fs)
      → Triple (Keeps env id) (at_t1 (T1.update j fs)) Anything
  update-Keeps j fs h = at_t1-Triple env id _ (update-Triple id j fs h)

  -- What protects a record: `x || protected`.
  pub or_protected :
      (b : Bool) (r : MemoryRecord F) → IsSafe id r → r.id ≡ id → (b || r.protected) ≡ true
  or_protected b r s p = ground (arith, s p)

  not_protected : (b c : Bool) → (b || c) ≡ false → b ≢ true
  not_protected b c e t = ground arith

  pub confirmed_record-Triple :
      (ext : Extracted F) (o : Origin F) (summary : Text) (edges : List (Dict Text (Json F)))
      → Triple (Keeps env id) (confirmed_record env ext o summary edges) (IsNew env id)
  unfolding confirmed_record
  confirmed_record-Triple ext o summary edges = Triple-bind (or_throw-Triple env id _ _) (λ items _.
      Triple-bind (or_throw-Triple env id _ _) (λ salience _.
        Triple-bind (or_throw-Triple env id _ _) (λ keywords _.
          Triple-bind (fresh_record-Triple env id o.user_id o.session_id _ o.content)
            (λ r n. Triple-return _ n))))

  pub insert_new_confirmed-Triple :
      (ext : Extracted F) (o : Origin F)
      → Triple (Keeps env id) (insert_new_confirmed env ext o) Anything
  unfolding insert_new_confirmed
  insert_new_confirmed-Triple ext o =
      Triple-bind (confirmed_record-Triple ext o _ [])
        (λ r n. at_t1-Triple env id _ (upsert_with_vector-Triple id r o.embedding n))

  pub refine-Triple :
      (r : MemoryRecord F) (ext : Extracted F) (text : Text)
      → IsSafe id r
      → Triple (Keeps env id) (refine env r ext text) Anything
  unfolding refine
  refine-Triple r ext text s = Triple-bind (or_throw-Triple env id _ _) (λ salience _.
      Triple-bind (or_throw-Triple env id _ _) (λ keywords _.
        let h : r.id ≡ id → All IsHarmless (refined env r ext text salience keywords) =
          λ p. (tt, (tt, (tt, (tt, (or_protected (is_protected ext) r s p, tt))))) in
        update-Keeps r.id _ h))

  pub mark_pending-Triple :
      (r : MemoryRecord F) (t0_ref : Text)
      → Triple (Keeps env id) (mark_pending env r t0_ref) Anything
  unfolding mark_pending
  mark_pending-Triple r t0_ref =
      Triple-bind (ask-Triple env id env.clock) (λ now _. update-Keeps r.id _ (λ p. (tt, tt)))

  pub replace-Triple :
      (r : MemoryRecord F) (ext : Extracted F) (o : Origin F)
      → r.id ≢ id
      → Triple (Keeps env id) (replace env r ext o) Anything
  unfolding replace
  replace-Triple r ext o other = Triple-bind (confirmed_record-Triple ext o _ _) (λ new n.
      Triple-bind (ask-Triple env id env.clock)
        (λ now _. at_t1-Triple env id _ (supersede-Triple id now r.id new o.embedding other n)))

  pub apply_verdict-Triple :
      (verdict : Text) (r : MemoryRecord F) (ext : Extracted F) (o : Origin F)
      → IsSafe id r
      → Triple (Keeps env id) (apply_verdict env verdict r ext o) Anything
  unfolding apply_verdict
  apply_verdict-Triple verdict r ext o s =
      Triple-if (verdict == codes "refine") (λ _. refine-Triple r ext o.content s)
        (λ _.
          Triple-if (verdict == codes "contradict")
            (λ _.
              Triple-if (r.protected || is_fact r.record_type) (λ _. mark_pending-Triple r o.t0_ref)
                (λ e. replace-Triple r ext o (λ p. not_protected r.protected _ e (s p))))
            (λ _. insert_new_confirmed-Triple ext o))
