-- ===== src/Buffer/Users.antt =====
-- The buffer between users: a push shows to the user who speaks, at once, and to nobody else.
use memory_agent.Prelude.Dict
use mathlib.Core.Path.{subst}
use memory_agent.Schema.{Turn}
use memory_agent.Buffer.{push, deque_append, as_candidates_for_user, Buffer, turns_where, Key}
use memory_agent.Text.{Text, text_eq}
use memory_agent.Buffer.Bounded.{session_turns, drop-append_one}
use memory_agent.Prelude.{
  ◌+◌, ◌-◌, ◌≤◌, ◌≡◌, refl, sym, ap, ◌∙◌, ◌≢◌, inl, inr, Bool, true, false, List, [], ◌∷◌, ◌++◌,
  arith, if◌then◌else◌, Bool-cases, ◌==◌, eq_iff, eq_refl, eq-false_of_ne, length, drop, In,
  In-append_left, In-append_right, pair_eq,
}
use memory_agent.Prelude.Dict.{Dict}

module _ {F : Type 0} where
  turns_where-put_other :
      (p : Key → Bool) (key : Key) (dq : List (Turn F)) (d : Dict Key (List (Turn F)))
      → p key ≡ false
      → turns_where p (Dict.put key dq d) ≡ turns_where p d
  unfolding turns_where Dict.put
  turns_where-put_other p key dq [] h = rw h refl
  turns_where-put_other p key dq ((k, old) ∷ d) h = elim (Bool-cases (k == key)) [
    | inl e ↦ let same = ap p ((eq_iff k key).0 e) ∙ h in rw (e, same) refl
    | inr e ↦ rw e (step (p k) (turns_where-put_other p key dq d h))
  ]
    where
      step :
          (b : Bool)
          → turns_where p (Dict.put key dq d) ≡ turns_where p d
          → (if b
              then old ++ turns_where p (Dict.put key dq d)
              else turns_where p (Dict.put key dq d))
            ≡ (if b then old ++ turns_where p d else turns_where p d)
      step true ih = ap (λ xs. old ++ xs) ih
      step false ih = ih

  turns_where-put-In :
      (p : Key → Bool) (key : Key) (dq : List (Turn F)) (d : Dict Key (List (Turn F))) (t : Turn F)
      → p key ≡ true
      → In t dq
      → In t (turns_where p (Dict.put key dq d))
  unfolding turns_where Dict.put
  turns_where-put-In p key dq [] t h i = rw h (In-append_left t dq [] i)
  turns_where-put-In p key dq ((k, old) ∷ d) t h i = elim (Bool-cases (k == key)) [
    | inl e ↦
        let same = ap p ((eq_iff k key).0 e) ∙ h in
        rw (e, same) (In-append_left t dq (turns_where p d) i)
    | inr e ↦ rw e (step (p k) (turns_where-put-In p key dq d t h i))
  ]
    where
      step :
          (b : Bool)
          → In t (turns_where p (Dict.put key dq d))
          → In t (
              if b
              then old ++ turns_where p (Dict.put key dq d)
              else turns_where p (Dict.put key dq d))
      step true ih = In-append_right t old _ ih
      step false ih = ih

  -- A push changes the candidates of no other user.
  pub push_other_user :
      (turn : Turn F) (session_id user_id other : Text) (b : Buffer F)
      → user_id ≢ other
      → as_candidates_for_user other (push turn session_id user_id b)
        ≡ as_candidates_for_user other b
  unfolding as_candidates_for_user push
  push_other_user turn session_id user_id other b h =
      turns_where-put_other (λ key. key.0 == other) (user_id, session_id) _ b.turns
        (eq-false_of_ne user_id other h)

  -- With room for at least one turn, the pushed turn is a candidate of its user at once.
  pub push_own_user :
      (turn : Turn F) (session_id user_id : Text) (b : Buffer F)
      → 1 ≤ b.k
      → In turn (as_candidates_for_user user_id (push turn session_id user_id b))
  unfolding as_candidates_for_user push deque_append
  push_own_user turn session_id user_id b h =
      turns_where-put-In (λ key. key.0 == user_id) (user_id, session_id) _ b.turns turn
        (eq_refl user_id) (newest (session_turns user_id session_id b))
    where
      newest : (dq : List (Turn F)) → In turn (drop (length dq + 1 - b.k) (dq ++ turn ∷ []))
      newest dq =
          subst (In turn) (sym (drop-append_one (length dq + 1 - b.k) dq turn (omega (arith, h))))
            (In-append_right turn _ (turn ∷ []) (inl refl))
