-- ===== src/Buffer/Bounded.antt =====
-- What the buffer holds: at most k turns of a session, the newest last, and of a user only its own.
use memory_agent.Prelude.Dict
use memory_agent.Prelude.Dict.{get-put_self, get-put_ne, Dict}
use memory_agent.Schema.{Turn}
use memory_agent.Buffer.{push, deque_append, or_empty, Buffer}
use memory_agent.Text.{Text, text_eq}
use memory_agent.Prelude.{
  ℕ, zero, suc, ◌+◌, ◌-◌, ◌≤◌, ◌≡◌, refl, List, [], ◌∷◌, ◌++◌, arith, length, drop, length-append,
  length-drop, pair_eq,
}

module _ {A : Type 0} where
  deque_append-length : (k : ℕ) (dq : List A) (x : A) → length (deque_append k dq x) ≤ k
  unfolding deque_append
  deque_append-length k dq x =
      omega (arith, length-drop (length dq + 1 - k) (dq ++ x ∷ []), length-append dq (x ∷ []))

  pub drop-append_one :
      (n : ℕ) (xs : List A) (x : A) → n ≤ length xs → drop n (xs ++ x ∷ []) ≡ drop n xs ++ x ∷ []
  drop-append_one zero xs x h = refl
  drop-append_one (suc n) [] x h = let z : ⊥ = omega (arith, h) in absurd z
  drop-append_one (suc n) (y ∷ xs) x h = drop-append_one n xs x (omega (arith, h))

module _ {F : Type 0} where
  abbrev pub session_turns : (user_id session_id : Text) → Buffer F → List (Turn F)
  session_turns user_id session_id b = or_empty (Dict.get (user_id, session_id) b.turns)

  -- The turns of a session after a push: the last `k - 1` that it had, and the pushed one.
  pub push-session_turns :
      (turn : Turn F) (session_id user_id : Text) (b : Buffer F)
      → 1 ≤ b.k
      → session_turns user_id session_id (push turn session_id user_id b)
        ≡ drop
            (length (session_turns user_id session_id b) + 1 - b.k)
            (session_turns user_id session_id b)
          ++ turn ∷ []
  unfolding push deque_append
  push-session_turns turn session_id user_id b h =
      rw
        (get-put_self (user_id, session_id)
          (deque_append b.k (session_turns user_id session_id b) turn) b.turns)
        (drop-append_one _ (session_turns user_id session_id b) turn (omega (arith, h)))
