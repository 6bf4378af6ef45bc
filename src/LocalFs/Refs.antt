-- ===== src/LocalFs/Refs.antt =====
-- References: `get` returns the turn that `append` gave the reference for, whatever is appended
-- to the session later.
use memory_agent.Prelude.Dict
use memory_agent.LocalFs.{
  get, Directory, valid_id, prefix, split_last, lines, line_at, ref_of, file_of, read_turn,
}
use memory_agent.Action.{Outcome, or_throw, value_error, done, raised}
use memory_agent.Json.{ℤ, pos}
use memory_agent.Env.{Env, IsCodecOf}
use memory_agent.Schema.{Turn}
use memory_agent.Text.{Text, starts_with, drop_prefix, text_eq}
use memory_agent.LocalFs.Lines.{IsLine, lines-joined, joined, eqb-false}
use memory_agent.Text.RoundTrip.{IsDigit, show_ℕ-IsDigit, read_int-show_ℕ}
use memory_agent.Text.Decimal.{read_int, show_ℕ}
use memory_agent.Prelude.{
  ℕ, ◌≡◌, refl, ap, ◌∙◌, ◌≢◌, Bool, true, false, Option, none, some, List, [], ◌∷◌, ◌++◌,
  append_assoc, arith, if◌then◌else◌, length, get_elem?, All, get_elem?-append_end, All-append,
}
use memory_agent.Prelude.Dict.{Dict}
use memory_agent.Samples.{session}
use memory_agent.LocalFs.Ids.{HasNoSlash}

split_last-none : (t : Text) → HasNoSlash t → split_last t ≡ none
unfolding split_last
split_last-none [] h = refl
split_last-none (c ∷ t) h = rw (split_last-none t h.1, eqb-false c b'/' h.0) refl

pub split_last-slash : (s t : Text) → HasNoSlash t → split_last (s ++ b'/' ∷ t) ≡ some (s, t)
unfolding split_last
split_last-slash [] t h = rw (split_last-none t h) refl
split_last-slash (c ∷ s) t h = rw (split_last-slash s t h) refl

digit-slash : (c : ℕ) → IsDigit c → c ≢ b'/'
digit-slash c h = let l = h.0 in λ e. omega (arith, l, e)

pub digits-slash : (t : Text) → All IsDigit t → HasNoSlash t
digits-slash [] h = tt
digits-slash (c ∷ t) h = (digit-slash c h.0, digits-slash t h.1)

starts_with-prefix : (t : Text) → starts_with (prefix ++ t) prefix ≡ true
unfolding starts_with
starts_with-prefix t = refl

drop_prefix-prefix : (t : Text) → drop_prefix (prefix ++ t) prefix ≡ t
unfolding drop_prefix
drop_prefix-prefix t = refl

pub ref_of-parts : (s : Text) (n : ℕ) → ref_of s n ≡ prefix ++ (s ++ b'/' ∷ show_ℕ n)
ref_of-parts s n = append_assoc prefix s (b'/' ∷ show_ℕ n)

module _ {F : Type 0} (env : Env F) where
  -- A line of the file of a session, read back.
  read_turn-line :
      (s : Text) (turn : Turn F) (before behind : List Text) (d : Directory)
      → IsCodecOf env turn
      → Dict.get (file_of s) d ≡ some (joined (before ++ env.dump_turn turn ∷ behind))
      → All IsLine before
      → All IsLine behind
      → read_turn env s (show_ℕ (length before)) d ≡ some turn
  unfolding read_turn
  read_turn-line s turn before behind d laws e hb ha =
      let whole : All IsLine (before ++ env.dump_turn turn ∷ behind) =
        All-append IsLine before (env.dump_turn turn ∷ behind) hb (laws.dump_one_line, ha) in
      step (read_int (show_ℕ (length before))) (Dict.get (file_of s) d)
        (read_int-show_ℕ (length before)) e
        (ap (λ ls. get_elem? ls (length before)) (lines-joined _ whole)
          ∙ get_elem?-append_end before (env.dump_turn turn) behind)
    where
      at_line :
          (o : Option Text)
          → o ≡ some (env.dump_turn turn)
          → elim o as (λ _. Option (Turn F)) [ none ↦ none | some l ↦ env.parse_turn l ] ≡ some turn
      at_line none q = cc
      at_line (some l) q =
          let same : l ≡ env.dump_turn turn = cc in ap env.parse_turn same ∙ laws.parse-dump

      step :
          (i : Option ℤ) (o : Option Text)
          → i ≡ some (pos (length before))
          → o ≡ some (joined (before ++ env.dump_turn turn ∷ behind))
          → get_elem? (lines (joined (before ++ env.dump_turn turn ∷ behind))) (length before)
            ≡ some (env.dump_turn turn)
          → elim i as (λ _. Option (Turn F)) [
            | none ↦ none
            | some n ↦ elim o as (λ _. Option (Turn F)) [
              | none ↦ none
              | some c ↦ elim (line_at n (lines c)) as (λ _. Option (Turn F)) [
                | none ↦ none
                | some l ↦ env.parse_turn l
              ]
            ]
          ]
            ≡ some turn
      step none o p q g = cc
      step (some n) none p q g = cc
      step (some n) (some c) p q g =
          let a : n ≡ pos (length before) = cc in
          let b : c ≡ joined (before ++ env.dump_turn turn ∷ behind) = cc in
          at_line (line_at n (lines c))
            (ap (λ k. line_at k (lines c)) a ∙ ap (λ x. get_elem? (lines x) (length before)) b ∙ g)

  -- The turn behind a reference: wherever the file of the session still has its line.
  pub get-ref_of :
      (s : Text) (turn : Turn F) (before behind : List Text) (d : Directory)
      → IsCodecOf env turn
      → valid_id s ≡ true
      → Dict.get (file_of s) d ≡ some (joined (before ++ env.dump_turn turn ∷ behind))
      → All IsLine before
      → All IsLine behind
      → get env (ref_of s (length before)) d ≡ done turn d
  unfolding get or_throw
  get-ref_of s turn before behind d laws v e hb ha =
      ap (λ ref. get env ref d) (ref_of-parts s (length before))
      ∙ step (starts_with (prefix ++ tail) prefix)
          (split_last (drop_prefix (prefix ++ tail) prefix)) (starts_with-prefix tail)
          (ap split_last (drop_prefix-prefix tail)
            ∙ split_last-slash s (show_ℕ (length before))
                (digits-slash _ (show_ℕ-IsDigit (length before))))
          (read_turn-line s turn before behind d laws e hb ha)
    where
      tail : Text
      tail = s ++ b'/' ∷ show_ℕ (length before)

      turn_of : (o : Option (Turn F)) → o ≡ some turn → or_throw value_error o d ≡ done turn d
      turn_of none q = cc
      turn_of (some t) q = let same : t ≡ turn = cc in ap (λ x. done x d) same

      of_session :
          (session offset : Text)
          → session ≡ s
          → offset ≡ show_ℕ (length before)
          → read_turn env s (show_ℕ (length before)) d ≡ some turn
          → (if valid_id session
              then or_throw value_error (read_turn env session offset d) d
              else raised value_error d)
            ≡ done turn d
      of_session session offset p q g =
          ap
            (λ x.
              if valid_id x
              then or_throw value_error (read_turn env x offset d) d
              else raised value_error d)
            p
          ∙ ap
              (λ x.
                if valid_id s
                then or_throw value_error (read_turn env s x d) d
                else raised value_error d)
              q
          ∙ ap
              (λ b.
                if b
                then or_throw value_error (read_turn env s (show_ℕ (length before)) d) d
                else raised value_error d)
              v
          ∙ turn_of _ g

      step :
          (b : Bool) (o : Option (Text × Text))
          → b ≡ true
          → o ≡ some (s, show_ℕ (length before))
          → read_turn env s (show_ℕ (length before)) d ≡ some turn
          → (if b
              then elim o as (λ _. Outcome Directory (Turn F)) [
                | none ↦ raised value_error d
                | some (session_id, offset) ↦
                    if valid_id session_id
                    then or_throw value_error (read_turn env session_id offset d) d
                    else raised value_error d
              ]
              else raised value_error d)
            ≡ done turn d
      step true none p q g = cc
      step true (some (session, offset)) p q g =
          (let a : session ≡ s = cc in
            let c : offset ≡ show_ℕ (length before) = cc in of_session session offset a c g)
      step false o p q g = cc
