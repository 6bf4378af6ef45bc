-- ===== src/WritePath/Guard.antt =====
-- The write path keeps a guarded id: it changes no stored record.
use memory_agent.LocalFs
use memory_agent.WritePath.{execute, write_provisional, Utterance, is_durable, provisional_record}
use memory_agent.Env.{Env}
use memory_agent.Text.{Text}
use memory_agent.Floats.{Floats}
use memory_agent.LocalFs.{append}
use memory_agent.World.Guard.{
  write-Triple, ask_provider-Triple, new_turn-Triple, fresh_record-Triple, Keeps, at_t0-Triple,
  at_t1-Triple, IsNew,
}
use memory_agent.T1.Guard.Statements.{upsert_with_vector-Triple}
use memory_agent.Action.Triples.{Anything, Triple-if, Triple, Triple-return, Triple-bind}
use memory_agent.Prelude.{refl}

module _ {F : Type 0} ⦃fl : Floats F⦄ (env : Env F) (id : Text) where
  provisional_record-Triple :
      (u : Utterance) (t0_ref : Text)
      → Triple (Keeps env id) (provisional_record env u t0_ref) (IsNew env id)
  unfolding provisional_record
  provisional_record-Triple u t0_ref =
      Triple-bind (fresh_record-Triple env id u.user_id u.session_id _ u.content)
        (λ r n. Triple-return _ n)

  write_provisional-Triple :
      (u : Utterance) (t0_ref : Text)
      → Triple (Keeps env id) (write_provisional env u t0_ref) Anything
  unfolding write_provisional
  write_provisional-Triple u t0_ref =
      Triple-bind (ask_provider-Triple env id (λ n. env.embed n u.content)) (λ v _.
        Triple-bind (provisional_record-Triple u t0_ref) (λ r n.
          Triple-bind (at_t1-Triple env id _ (upsert_with_vector-Triple id r v n))
            (λ a _. Triple-return _ tt)))

  pub execute-Triple : (u : Utterance) → Triple (Keeps env id) (execute env u) Anything
  unfolding execute
  execute-Triple u = Triple-bind (new_turn-Triple env id u.session_id u.content) (λ turn _.
      Triple-bind (at_t0-Triple env id (LocalFs.append env u.session_id turn)) (λ ref _.
        Triple-bind (write-Triple env id _ (λ w. refl) (λ w. refl)) (λ a _.
          Triple-bind
            (Triple-if (is_durable u) (λ _. write_provisional-Triple u ref)
              (λ _. Triple-return _ tt))
            (λ t1_id _.
              Triple-bind (write-Triple env id _ (λ w. refl) (λ w. refl))
                (λ b _. Triple-return _ tt)))))
