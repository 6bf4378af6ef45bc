-- ===== src/LocalFs/History.antt =====
-- A session's file over a history of appends.
use memory_agent.Prelude.Dict
use memory_agent.LocalFs.{
  get, append, ref_of, contents, lines, append_line, file_of, valid_id, Directory,
}
use memory_agent.Action.{final, done, value_error, raised}
use memory_agent.Env.{Env, IsCodecOf}
use memory_agent.Schema.{Turn}
use memory_agent.Text.{Text, newline, text_eq}
use memory_agent.LocalFs.Lines.{lines-joined, joined, IsLine, append_line-joined}
use memory_agent.LocalFs.Refs.{get-ref_of}
use memory_agent.Prelude.{
  ◌≡◌, refl, sym, ap, ◌∙◌, ◌≢◌, true, Option, none, some, List, [], ◌∷◌, ◌++◌, map, append_assoc,
  append-nil, length, All, false,
}
use memory_agent.Prelude.Dict.{Dict}

line_nonempty : (l s : Text) → [] ≢ l ++ newline ∷ s
line_nonempty [] s e = cc
line_nonempty (c ∷ l) s e = cc

pub joined_nonempty : (xs : List Text) (l : Text) (ys : List Text) → [] ≢ joined (xs ++ l ∷ ys)
joined_nonempty [] l ys = line_nonempty l (joined ys)
joined_nonempty (x ∷ xs) l ys = line_nonempty x (joined (xs ++ l ∷ ys))

-- A file that is not empty is there.
pub contents-some :
    (name s : Text) (d : Directory) → [] ≢ s → contents name d ≡ s → Dict.get name d ≡ some s
contents-some name s d n e = step (Dict.get name d) e
  where
    step : (o : Option Text) → elim o as (λ _. Text) [ none ↦ [] | some t ↦ t ] ≡ s → o ≡ some s
    step none q = absurd (n q)
    step (some t) q = ap some q

module _ {F : Type 0} (env : Env F) (s : Text) where
  -- The directory after the turns were appended to the session, in order.
  abbrev pub append_all : List (Turn F) → Directory → Directory
  append_all [] d = d
  append_all (t ∷ ts) d = append_all ts (final (append env s t d))

  pub append-invalid :
      (t : Turn F) (d : Directory) → valid_id s ≡ false → append env s t d ≡ raised value_error d
  unfolding append
  append-invalid t d v = rw v refl

  pub append-final :
      (t : Turn F) (d : Directory)
      → valid_id s ≡ true
      → append env s t d
        ≡ done
            (ref_of s (length (lines (contents (file_of s) d))))
            (append_line (file_of s) (env.dump_turn t) d)
  unfolding append
  append-final t d v = rw v refl

  contents-append_all :
      (ts : List (Turn F)) (d : Directory) (ls : List Text)
      → valid_id s ≡ true
      → contents (file_of s) d ≡ joined ls
      → contents (file_of s) (append_all ts d) ≡ joined (ls ++ map env.dump_turn ts)
  contents-append_all [] d ls v e = e ∙ ap joined (sym (append-nil ls))
  contents-append_all (t ∷ ts) d ls v e =
      contents-append_all ts (final (append env s t d)) (ls ++ env.dump_turn t ∷ []) v (
        ap (λ o. contents (file_of s) (final o)) (append-final t d v)
        ∙ append_line-joined (file_of s) (env.dump_turn t) d ls e)
      ∙ ap joined (append_assoc ls (env.dump_turn t ∷ []) (map env.dump_turn ts))

module _ {F : Type 0} (env : Env F) where
  pub dumped-IsLine :
      (ts : List (Turn F)) → All (IsCodecOf env) ts → All IsLine (map env.dump_turn ts)
  dumped-IsLine [] h = tt
  dumped-IsLine (t ∷ ts) h =
      let law : IsCodecOf env t = h.0 in (law.dump_one_line, dumped-IsLine ts h.1)

  -- The reference that `append` returns for a turn yields the turn, at once and after any further
  -- turns of the session, if the session id is valid and its file consists of ended lines. The
  -- codecs are as documented: a turn is parsed back from its text, which is one line.
  pub get-append :
      (s : Text) (turn : Turn F) (later : List (Turn F)) (d : Directory) (ls : List Text)
      → All (IsCodecOf env) (turn ∷ later)
      → valid_id s ≡ true
      → contents (file_of s) d ≡ joined ls
      → All IsLine ls
      → let ref = ref_of s (length ls) in
        let d' = append_all env s (turn ∷ later) d in
        (append env s turn d ≡ done ref (append_line (file_of s) (env.dump_turn turn) d))
        × (get env ref d' ≡ done turn d')
  get-append s turn later d ls laws v e h =
      let all = contents-append_all env s (turn ∷ later) d ls v e in
      (
        append-final env s turn d v
            ∙ ap
                (λ xs. done (ref_of s (length xs)) (append_line (file_of s) (env.dump_turn turn) d))
                (ap lines e ∙ lines-joined ls h),
        get-ref_of env s turn ls (map env.dump_turn later) _ laws.0 v
            (contents-some (file_of s) _ _
              (joined_nonempty ls (env.dump_turn turn) (map env.dump_turn later)) all)
            h (dumped-IsLine later laws.1),
      )
