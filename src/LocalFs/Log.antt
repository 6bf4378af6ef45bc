-- ===== src/LocalFs/Log.antt =====
-- src/mnema/adapters/object_store/local_fs.py: the files as lists of turns.
use mathlib.Core.Path.{subst}
use mathlib.Core.List.{append_cancel_right, map-append}
use memory_agent.Env.{IsCodecOf, Env}
use memory_agent.Schema.{Turn}
use memory_agent.ObjectStore.{add, Sessions, IsLogStore}
use memory_agent.LocalFs.{
  get, append, ref_of, append_line, file_of, Directory, valid_id, lines, contents,
}
use memory_agent.Text.{codes, Text, text_eq}
use memory_agent.LocalFs.History.{
  dumped-IsLine, append-invalid, append-final, joined_nonempty, contents-some,
}
use memory_agent.LocalFs.Lines.{append_line-joined, joined, contents-append_line_ne, lines-joined}
use memory_agent.LocalFs.Refs.{get-ref_of}
use memory_agent.ObjectStore.History.{
  state_after, Yields, replies-Yields, replies, Codecs, log_replies, log_after, replies_refine,
}
use memory_agent.Prelude.{
  ℕ, suc, ◌≡◌, sym, ap, ◌∙◌, ◌≢◌, inl, inr, true, some, List, [], ◌∷◌, ◌++◌, map, Bool-cases, ◌==◌,
  eq_iff, ne_of_eq-false, length, get_elem?, take, drop, take-drop, All, length-map, All-split,
  All-append,
}
use memory_agent.Action.{done}

pub file_of_ne : (s r : Text) → s ≢ r → file_of s ≢ file_of r
file_of_ne s r n e = n (append_cancel_right s r (codes ".jsonl") e)

module _ {F : Type 0} (env : Env F) where
  -- The file of each session consists of the lines of its turns.
  pub record HoldsLines (log : Sessions F) (d : Directory) : Type 0 where
    pub content :
        (s : Text) → valid_id s ≡ true → contents (file_of s) d ≡ joined (map env.dump_turn (log s))
    pub codec : (s : Text) → valid_id s ≡ true → All (IsCodecOf env) (log s)

  abbrev after_append : Text → Turn F → Directory → Directory
  after_append s t d = append_line (file_of s) (env.dump_turn t) d

  append_done :
      (log : Sessions F) (s : Text) (t : Turn F) (d : Directory)
      → HoldsLines log d
      → valid_id s ≡ true
      → append env s t d ≡ done (ref_of s (length (log s))) (after_append s t d)
  append_done log s t d h v =
      append-final env s t d v
      ∙ ap (λ n. done (ref_of s n) (after_append s t d))
          (ap (λ x. length (lines x)) (h.content s v)
            ∙ ap length (lines-joined _ (dumped-IsLine env (log s) (h.codec s v)))
            ∙ length-map env.dump_turn (log s))

  content_after :
      (log : Sessions F) (s : Text) (t : Turn F) (d : Directory)
      → HoldsLines log d
      → (r : Text) → valid_id r ≡ true
      → contents (file_of r) (after_append s t d) ≡ joined (map env.dump_turn (add s t log r))
  content_after log s t d h r w = elim (Bool-cases (s == r)) [
    | inl e ↦
        let same = (eq_iff s r).0 e in
        rw e (
          ap (λ x. contents (file_of r) (append_line (file_of x) (env.dump_turn t) d)) same
          ∙ append_line-joined (file_of r) (env.dump_turn t) d _ (h.content r w)
          ∙ ap joined (sym (map-append env.dump_turn (log r) (t ∷ []))))
    | inr e ↦ rw e (
        contents-append_line_ne (file_of s) (env.dump_turn t) (file_of r) d
          (file_of_ne s r (ne_of_eq-false s r e))
        ∙ h.content r w)
  ]

  codec_after :
      (log : Sessions F) (s : Text) (t : Turn F) (r : Text)
      → All (IsCodecOf env) (log r)
      → IsCodecOf env t
      → All (IsCodecOf env) (add s t log r)
  codec_after log s t r h c = elim (Bool-cases (s == r)) [
    | inl e ↦ rw e (All-append (IsCodecOf env) (log r) (t ∷ []) h (c, tt))
    | inr e ↦ rw e h
  ]

  get_done :
      (log : Sessions F) (s : Text) (i : ℕ) (t : Turn F) (d : Directory)
      → HoldsLines log d
      → valid_id s ≡ true
      → get_elem? (log s) i ≡ some t
      → get env (ref_of s i) d ≡ done t d
  get_done log s i t d h v e =
      let cut = take-drop (log s) i t e in
      let before = map env.dump_turn (take i (log s)) in
      let behind = map env.dump_turn (drop (suc i) (log s)) in
      let laws = split_All (subst (All (IsCodecOf env)) cut.0 (h.codec s v)) in
      let file : contents (file_of s) d ≡ joined (before ++ env.dump_turn t ∷ behind) =
        h.content s v
        ∙ ap (λ ts. joined (map env.dump_turn ts)) cut.0
        ∙ ap joined (map-append env.dump_turn (take i (log s)) (t ∷ drop (suc i) (log s))) in
      ap (λ n. get env (ref_of s n) d) (sym cut.1 ∙ sym (length-map env.dump_turn (take i (log s))))
      ∙ get-ref_of env s t before behind d laws.1.0 v
          (contents-some (file_of s) _ d (joined_nonempty before (env.dump_turn t) behind) file)
          (dumped-IsLine env (take i (log s)) laws.0)
          (dumped-IsLine env (drop (suc i) (log s)) laws.1.1)
    where
      split_All :
          All (IsCodecOf env) (take i (log s) ++ t ∷ drop (suc i) (log s))
          → All (IsCodecOf env) (take i (log s)) × All (IsCodecOf env) (t ∷ drop (suc i) (log s))
      split_All q = All-split (IsCodecOf env) (take i (log s)) (t ∷ drop (suc i) (log s)) q

  abbrev fs_log_store : IsLogStore env (append env) (get env)
  fs_log_store = record {
    Represents = HoldsLines;
    after = after_append;
    append_done = append_done;
    append_keeps = λ log s t d h v c. record {
      content = content_after log s t d h;
      codec = λ r w. codec_after log s t r (h.codec r w) c;
    };
    append_invalid = append-invalid env;
    get_done = get_done;
  }

  -- The directory answers every history of appends as the lists of turns do: with the references of
  -- consecutive places, and a refusal for an invalid session id. The files hold the turns of all
  -- valid sessions afterwards, and every reference that was returned yields its turn. For turns that
  -- the codecs read back from one line.
  pub fs_refines :
      (h : List (Text × Turn F)) (log : Sessions F) (d : Directory)
      → HoldsLines log d
      → Codecs env h
      → (replies (append env) h d ≡ log_replies h log)
        × HoldsLines (log_after h log) (state_after (append env) h d)
        × Yields (get env) (state_after (append env) h d) (replies (append env) h d) h
  fs_refines h log d r c =
      let all = replies_refine env (append env) (get env) fs_log_store h log d r c in
      (all.0, all.1, replies-Yields env (append env) (get env) fs_log_store h log d r c)
