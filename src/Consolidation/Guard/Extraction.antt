-- ===== src/Consolidation/Guard/Extraction.antt =====
-- A turn keeps a guarded id: what becomes of its extracted dicts.
use memory_agent.Consolidation.Extraction.{
  same_type, reconcile, near_match, judge, resolve, confirmed, pin, process_extracted, process_turn,
}
use memory_agent.Action.{Action, ◌>>=◌, return, for_each}
use memory_agent.Json.{Json, dicts, str, arr}
use memory_agent.Env.{Env}
use memory_agent.Schema.{RecordType, MemoryRecord}
use memory_agent.Text.{Text, text_eq, codes}
use memory_agent.Floats.{Floats}
use memory_agent.World.{World, Item}
use memory_agent.Consolidation.Verdict.{
  insert_new_confirmed, is_protected, Extracted, Origin, apply_verdict, lookup_or, to_text,
}
use memory_agent.World.Guard.{ask_provider-Triple, or_throw-Triple, Keeps, at_t1-Triple}
use memory_agent.T1.Guard.{IsHarmless}
use memory_agent.T1.Guard.Reads.{IsSafeFound, get-Triple, IsSafe, find_by_t0_ref-Triple}
use memory_agent.T1.Guard.Statements.{vector_search-Triple}
use memory_agent.Action.Triples.{
  Triple-return, Triple, Triple-if, Triple-bind, Anything, Triple-for_each,
}
use memory_agent.Prelude.{◌≡◌, Option, none, some, List, [], ◌∷◌, if◌then◌else◌, All, All-intro}
use memory_agent.Consolidation.Guard.{
  apply_verdict-Triple, insert_new_confirmed-Triple, update-Keeps, or_protected,
}

module _ {F : Type 0} ⦃fl : Floats F⦄ (env : Env F) (id : Text) where
  reconcile-Triple :
      (r : MemoryRecord F) (ext : Extracted F) (text : Text)
      → IsSafe id r
      → Triple (Keeps env id) (reconcile env r ext text) Anything
  unfolding reconcile
  reconcile-Triple r ext text s = Triple-bind (or_throw-Triple env id _ _) (λ salience _.
      Triple-bind (or_throw-Triple env id _ _) (λ keywords _.
        let h : r.id ≡ id → All IsHarmless (confirmed env r ext text salience keywords) =
          λ p. (tt, (tt, (tt, (tt, (tt, (or_protected env id (is_protected ext) r s p, tt)))))) in
        update-Keeps env id r.id _ h))

  near_match-Triple :
      (t : RecordType) (hits : List (Text × F))
      → Triple (Keeps env id) (near_match env t hits) (IsSafeFound id)
  unfolding near_match
  near_match-Triple t [] = Triple-return _ tt
  near_match-Triple t ((j, d) ∷ hits) =
      let rest = near_match-Triple t hits in
      Triple-if _
        (λ _. Triple-bind (at_t1-Triple env id _ (get-Triple id j)) (λ o s. taken rest o s))
        (λ _. rest)
    where
      taken :
          Triple (Keeps env id) (near_match env t hits) (IsSafeFound id)
          → (o : Option (MemoryRecord F)) → IsSafeFound id o
          → Triple
              (Keeps env id)
              (elim o as (λ _. Action (World F) (Option (MemoryRecord F))) [
                | none ↦ near_match env t hits
                | some r ↦
                    if same_type r.record_type t then return (some r) else near_match env t hits
              ])
              (IsSafeFound id)
      taken rest none s = rest
      taken rest (some r) s =
          Triple-if (same_type r.record_type t) (λ _. Triple-return _ s) (λ _. rest)

  judge-Triple :
      (r : MemoryRecord F) (text : Text) → Triple (Keeps env id) (judge env r text) Anything
  unfolding judge
  judge-Triple r text = Triple-bind (ask_provider-Triple env id _) (λ v _. Triple-return _ tt)

  resolve-Triple :
      (ext : Extracted F) (text t0_ref user_id session_id : Text)
      → Triple (Keeps env id) (resolve env ext text t0_ref user_id session_id) Anything
  unfolding resolve
  resolve-Triple ext text t0_ref user_id session_id =
      Triple-bind (ask_provider-Triple env id _) (λ v _.
        Triple-bind (at_t1-Triple env id _ (vector_search-Triple id env.knn v 5 user_id none))
          (λ hits _. Triple-bind (near_match-Triple _ hits) (λ found s. decided v found s)))
    where
      origin : List F → Origin F
      origin v = record {
        user_id = user_id;
        session_id = session_id;
        t0_ref = t0_ref;
        content = text;
        embedding = v;
      }

      decided :
          (v : List F) (found : Option (MemoryRecord F))
          → IsSafeFound id found
          → Triple
              (Keeps env id)
              (elim found as (λ _. Action (World F) Unit) [
                | none ↦ insert_new_confirmed env ext (origin v)
                | some r ↦
                    judge env r text >>= λ verdict. apply_verdict env verdict r ext (origin v)
              ])
              Anything
      decided v none s = insert_new_confirmed-Triple env id ext (origin v)
      decided v (some r) s =
          Triple-bind (judge-Triple r text)
            (λ verdict _. apply_verdict-Triple env id verdict r ext (origin v) s)

  process_extracted-Triple :
      (t0_ref user_id session_id content : Text) (raw : Extracted F)
      → Triple (Keeps env id) (process_extracted env t0_ref user_id session_id content raw) Anything
  unfolding process_extracted
  process_extracted-Triple t0_ref user_id session_id content raw =
      Triple-bind (at_t1-Triple env id _ (find_by_t0_ref-Triple id t0_ref user_id))
        (λ found s. chosen found s)
    where
      text : Text
      text = to_text env (lookup_or (codes "content") (str content) raw)

      chosen :
          (found : Option (MemoryRecord F))
          → IsSafeFound id found
          → Triple
              (Keeps env id)
              (elim found as (λ _. Action (World F) Unit) [
                | some r ↦ reconcile env r (pin text raw) text
                | none ↦ resolve env (pin text raw) text t0_ref user_id session_id
              ])
              Anything
      chosen none s = resolve-Triple (pin text raw) text t0_ref user_id session_id
      chosen (some r) s = reconcile-Triple r (pin text raw) text s

  pub process_turn-Triple : (item : Item F) → Triple (Keeps env id) (process_turn env item) Anything
  unfolding process_turn
  process_turn-Triple item =
      Triple-bind (ask_provider-Triple env id _) (λ raw _. parsed (env.loads raw))
    where
      step : Extracted F → Action (World F) Unit
      step = process_extracted env item.t0_ref item.user_id item.turn.session_id item.turn.content

      skip : Triple (Keeps env id) (return tt) Anything
      skip = Triple-return tt tt

      parsed :
          (o : Option (Json F))
          → Triple
              (Keeps env id)
              (elim o as (λ _. Action (World F) Unit) [
                | some (arr xs) ↦ for_each (dicts xs) step
                | _ ↦ return tt
              ])
              Anything
      parsed (some (arr xs)) =
          Triple-for_each Anything (dicts xs) (All-intro Anything (dicts xs) (λ a i. tt)) (λ raw _.
            process_extracted-Triple item.t0_ref item.user_id item.turn.session_id item.turn.content
              raw)
      parsed _ = skip
