-- ===== src/Evaluation/Naive.antt =====
-- What the naive context holds of the turns of a session.
use memory_agent.Prelude.Dict
use mathlib.Core.Path.{subst}
use memory_agent.Json.{truthy, to_dict, Fields, str, obj, Json}
use memory_agent.Env.{Env}
use memory_agent.Schema.{Turn}
use memory_agent.Text.{Text, nonempty, strip, lower_char, contains, newline, codes, lower, text_eq}
use memory_agent.Floats.{Floats}
use memory_agent.LocalFs.{lines}
use memory_agent.Evaluation.{
  join_lines, parts_of_lines, is_session_log, naive_context, parts, containment_check, part_of_line,
}
use memory_agent.LocalFs.Lines.{joined, lines-joined, IsLine}
use memory_agent.Text.Search.{contains_append}
use memory_agent.Text.Insertion.{contains_more}
use memory_agent.Prelude.{
  ◌≡◌, refl, sym, ap, ◌∙◌, inl, inr, Bool, true, false, ◌&&◌, some, List, [], ◌∷◌, ◌++◌, map,
  append_assoc, if◌then◌else◌, all, In, All, In-append_left, In-append_right, All-In, none,
}
use memory_agent.Prelude.Dict.{Dict}
use memory_agent.Consolidation.Verdict.{to_text}

lower-append : (a b : Text) → lower (a ++ b) ≡ lower a ++ lower b
unfolding lower
lower-append [] b = refl
lower-append (c ∷ a) b = ap (λ s. lower_char c ∷ s) (lower-append a b)

-- A phrase of a part is in the joined parts.
join_lines-lower :
    (x : Text) (xs : List Text) (p : Text)
    → In x xs
    → contains (lower x) p ≡ true
    → contains (lower (join_lines xs)) p ≡ true
join_lines-lower x [] p i h = absurd i
join_lines-lower x (y ∷ []) p (inl e) h = subst (λ z. contains (lower z) p ≡ true) e h
join_lines-lower x (y ∷ []) p (inr i) h = absurd i
join_lines-lower x (y ∷ z ∷ xs) p (inl e) h =
    subst (λ s. contains s p ≡ true) (sym (lower-append y (newline ∷ join_lines (z ∷ xs))))
      (contains_more (lower y) (lower (newline ∷ join_lines (z ∷ xs))) p
        (subst (λ w. contains (lower w) p ≡ true) e h))
join_lines-lower x (y ∷ z ∷ xs) p (inr i) h =
    subst (λ s. contains s p ≡ true)
      (sym (lower-append (y ++ newline ∷ []) (join_lines (z ∷ xs)))
        ∙ ap lower (append_assoc y (newline ∷ []) (join_lines (z ∷ xs))))
      (contains_append (lower (y ++ newline ∷ [])) (lower (join_lines (z ∷ xs))) p
        (join_lines-lower x (z ∷ xs) p i h))

-- The line of a turn: one line of JSON that is read back as a dict with the turn's content.
pub record IsJsonLine {F : Type 0} (env : Env F) (t : Turn F) : Type 0 where
  pub one_line : IsLine (env.dump_turn t)
  pub not_blank : nonempty (strip (env.dump_turn t)) ≡ true
  pub fields : Fields F
  pub parsed : env.loads (strip (env.dump_turn t)) ≡ some (obj fields)
  pub with_content : Dict.get (codes "content") (to_dict fields) ≡ some (str t.content)

module _ {F : Type 0} ⦃fl : Floats F⦄ (env : Env F) where
  part_of_turn :
      (t : Turn F)
      → IsJsonLine env t
      → nonempty t.content ≡ true
      → part_of_line env (env.dump_turn t) ≡ t.content ∷ []
  unfolding part_of_line truthy
  part_of_turn t j n =
      let from_content : (if nonempty t.content then t.content ∷ [] else []) ≡ t.content ∷ [] =
        rw n refl in
      rw (j.not_blank, j.parsed)
        (ap
            (λ o.
              let content : Json F = elim o as (λ _. Json F) [ none ↦ str [] | some x ↦ x ] in
              if truthy content then to_text env content ∷ [] else [])
            j.with_content
          ∙ from_content)

  In-parts_of_lines :
      (t : Turn F) (ts : List (Turn F))
      → In t ts
      → part_of_line env (env.dump_turn t) ≡ t.content ∷ []
      → In t.content (parts_of_lines env (map env.dump_turn ts))
  In-parts_of_lines t [] i e = absurd i
  In-parts_of_lines t (u ∷ ts) (inl p) e =
      In-append_left t.content (part_of_line env (env.dump_turn u)) _
        (subst (In t.content) (sym e ∙ ap (λ v. part_of_line env (env.dump_turn v)) p) (inl refl))
  In-parts_of_lines t (u ∷ ts) (inr i) e =
      In-append_right t.content (part_of_line env (env.dump_turn u)) _ (In-parts_of_lines t ts i e)

  In-parts :
      (c name text : Text) (files : List (Text × Text))
      → In (name, text) files
      → is_session_log name ≡ true
      → In c (parts_of_lines env (lines text))
      → In c (parts env files)
  unfolding parts
  In-parts c name text [] i l h = absurd i
  In-parts c name text ((m, s) ∷ files) i l h =
      step (is_session_log m) refl i (λ j. In-parts c name text files j l h)
    where
      step :
          (b : Bool)
          → is_session_log m ≡ b
          → In (name, text) ((m, s) ∷ files)
          → (In (name, text) files → In c (parts env files))
          → In c (if b then parts_of_lines env (lines s) ++ parts env files else parts env files)
      step true e (inl p) ih =
          In-append_left c (parts_of_lines env (lines s)) (parts env files)
            (subst (λ x. In c (parts_of_lines env (lines x))) (ap (λ (z : Text × Text). z.1) p) h)
      step true e (inr j) ih =
          In-append_right c (parts_of_lines env (lines s)) (parts env files) (ih j)
      step false e (inl p) ih =
          let same : name ≡ m = ap (λ (z : Text × Text). z.0) p in
          let bad = ap is_session_log same in cc
      step false e (inr j) ih = ih j

  -- A phrase that some turn of a list has.
  abbrev pub IsSaid : List (Turn F) → Text → Type 0
  IsSaid ts phrase =
      (t : Turn F) × In t ts
      × (nonempty t.content ≡ true)
      × (contains (lower t.content) (lower phrase) ≡ true)

  -- The naive context of files among which is the log of a session, whose lines are read back: it
  -- passes every probe that excludes no phrase and whose phrases were all said in the session.
  pub naive_passes :
      (files : List (Text × Text)) (name : Text) (ts : List (Turn F)) (must_contain : List Text)
      → In (name, joined (map env.dump_turn ts)) files
      → is_session_log name ≡ true
      → All (IsJsonLine env) ts
      → All (IsSaid ts) must_contain
      → containment_check (naive_context env files) must_contain [] ≡ true
  unfolding containment_check naive_context
  naive_passes files name ts must_contain i l j said = each must_contain said
    where
      logged : (us : List (Turn F)) → All (IsJsonLine env) us → All IsLine (map env.dump_turn us)
      logged [] h = tt
      logged (u ∷ us) h = (h.0.one_line, logged us h.1)

      within :
          (phrase : Text)
          → IsSaid ts phrase
          → contains (lower (naive_context env files)) (lower phrase) ≡ true
      within phrase (t, k, n, h) =
          join_lines-lower t.content (parts env files) (lower phrase)
            (In-parts t.content name (joined (map env.dump_turn ts)) files i l (
              subst (λ ls. In t.content (parts_of_lines env ls))
                (sym (lines-joined (map env.dump_turn ts) (logged ts j)))
                (In-parts_of_lines t ts k (part_of_turn t (All-In (IsJsonLine env) ts j k) n))))
            h

      each :
          (ps : List Text)
          → All (IsSaid ts) ps
          → (all (λ phrase. contains (lower (naive_context env files)) (lower phrase)) ps && true)
            ≡ true
      each [] h = refl
      each (p ∷ ps) h = rw (within p h.0) (each ps h.1)
