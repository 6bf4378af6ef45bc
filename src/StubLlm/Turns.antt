-- ===== src/StubLlm/Turns.antt =====
-- What a consolidation over src/mnema/adapters/llm/stub.py does with one turn.
use memory_agent.Prelude.Dict
use memory_agent.Action.{
  or_throw, then_do, Action, for_each, return, Outcome, done, raised, provider_error,
}
use memory_agent.Json.{truthy, Json, to_dict, arr, bool, float, str, dicts}
use memory_agent.Env.{Env}
use memory_agent.Schema.{of_value, fact, preference, MemoryRecord}
use memory_agent.Text.{strip, is_space, lstrip, Text, codes, text_eq, newline, contains, lower}
use memory_agent.Floats.{Floats}
use memory_agent.WritePath.{is_safety_claim}
use memory_agent.World.{Item, World, ask}
use memory_agent.StubLlm.{
  stub_safety_keywords, classify, stub_complete, has_any, extracted_fields, with_stub, extract,
  stub_preference_keywords, fields_of, verdicts, after, stub_judge, answer,
}
use memory_agent.Consolidation.Verdict.{
  Extracted, record_type_or, is_protected, extracted_type, to_text, lookup_or,
}
use memory_agent.Consolidation.Extraction.{
  pin, process_extracted, process_turn, setdefault, judge_sentinel, judge, extract_sentinel,
}
use memory_agent.Prelude.{
  ℕ, suc, ◌≡◌, true, some, arith, if◌then◌else◌, refl, Bool, false, ap, ◌∙◌, Option, ◌∷◌, ◌++◌, In,
  zero, ◌%◌, ◌≤◌, inl, inr, get_elem?,
}
use memory_agent.Prelude.Dict.{Dict}

-- The safety keywords of the stub are keywords of the write path.
stub_safety : (t : Text) → has_any stub_safety_keywords t ≡ true → is_safety_claim t ≡ true
unfolding is_safety_claim
stub_safety t h = ground (arith, h)

module _ {F : Type 0} ⦃fl : Floats F⦄ where
  -- `pin`, once the safety of the text is known.
  abbrev pin_when : Bool → Extracted F → Extracted F
  pin_when b ext =
      if b
      then Dict.put (codes "record_type") (str (codes "fact")) (
          Dict.put (codes "salience") (float (fl.decimal 10 1))
            (Dict.put (codes "protected") (bool true) ext))
      else setdefault (codes "record_type") (str (codes "preference")) (
          setdefault (codes "salience") (float (fl.decimal 5 1))
            (setdefault (codes "protected") (bool false) ext))

  -- `classify`, once it is known which keywords occur.
  abbrev class_when : Bool → Bool → Text × Bool × F
  class_when s p =
      if s
      then (codes "fact", true, fl.decimal 10 1)
      else if p
      then (codes "preference", false, fl.decimal 7 1)
      else (codes "preference", false, fl.decimal 5 1)

  -- The three entries that the pipeline reads off a dict.
  abbrev pub IsPinned : Bool → Bool → Extracted F → Type 0
  IsPinned safe liked ext =
      (is_protected ext ≡ safe)
      × (extracted_type ext ≡ (if safe then fact else preference))
      × (Dict.get (codes "salience") ext
          ≡ some (
              float (
                if safe
                then fl.decimal 10 1
                else if liked
                then fl.decimal 7 1
                else fl.decimal 5 1)))

  pin_when-IsPinned :
      (t : Text) (safe s liked : Bool)
      → (s ≡ true → safe ≡ true)
      → IsPinned safe liked (pin_when safe (to_dict (fields_of t (class_when s liked))))
  unfolding Dict.put Dict.get truthy record_type_or of_value
  pin_when-IsPinned t true s liked h = (refl, refl, refl)
  pin_when-IsPinned t false true liked h = let e = h refl in cc
  pin_when-IsPinned t false false true h = (refl, refl, refl)
  pin_when-IsPinned t false false false h = (refl, refl, refl)

module _ (F : Type 0) ⦃fl : Floats F⦄ where
  -- What the pipeline reads off the dict of the stub: the content decides.
  pub pin-IsPinned :
      (t : Text)
      → IsPinned {F = F}
          (is_safety_claim t)
          (has_any stub_preference_keywords t)
          (pin t (to_dict (extracted_fields t)))
  unfolding pin extracted_fields classify
  pin-IsPinned t =
      pin_when-IsPinned t (is_safety_claim t) (has_any stub_safety_keywords t)
        (has_any stub_preference_keywords t) (stub_safety t)

module _ {F : Type 0} ⦃fl : Floats F⦄ (env : Env F) (dumps : Json F → Text)
    (digest : Text → ℕ) where
  abbrev stub_env : Env F
  stub_env = with_stub dumps digest env

  abbrev process_parsed : Item F → Option (Json F) → Action (World F) (Unit {0})
  process_parsed item o = elim o [
    | some (arr xs) ↦
        for_each (dicts xs) (
          process_extracted stub_env item.t0_ref item.user_id item.turn.session_id
            item.turn.content)
    | _ ↦ return tt
  ]

  then_nothing : (o : Outcome (World F) Unit) → then_do (λ _. done tt) o ≡ o
  then_nothing (done a s) = refl
  then_nothing (raised e s) = refl

  -- The consolidation of a turn over the stub, whose answer `json.loads` reads back: the stub is
  -- asked once, and one extracted dict is processed. Its content is the stripped text of the turn.
  -- After the safety rule of the pipeline it is a protected FACT of salience 1.0 exactly if the
  -- text is a safety claim, else an unprotected PREFERENCE of salience 0.7, where a word of
  -- preference occurs, or 0.5.
  pub process_turn_stub :
      (item : Item F) (w : World F)
      → env.loads (dumps (answer (strip item.turn.content)))
        ≡ some (answer (strip item.turn.content))
      → let t = strip item.turn.content in
        let ext : Extracted F = to_dict (extracted_fields t) in
        (process_turn stub_env item w
          ≡ process_extracted stub_env item.t0_ref item.user_id item.turn.session_id
              item.turn.content ext
              (record w { calls = suc w.calls }))
        × (to_text stub_env (lookup_or (codes "content") (str item.turn.content) ext) ≡ t)
        × IsPinned (is_safety_claim t) (has_any stub_preference_keywords t) (pin t ext)
  unfolding process_turn stub_complete extract extracted_fields ask or_throw strip lstrip is_space
      for_each Dict.get
  process_turn_stub item w h =
      let t = strip item.turn.content in
      let after_answer : World F = record w { calls = suc w.calls } in
      (
        ap (λ o. process_parsed item o after_answer) h
            ∙ then_nothing (
                process_extracted stub_env item.t0_ref item.user_id item.turn.session_id
                  item.turn.content (to_dict (extracted_fields t)) after_answer),
        refl,
        pin-IsPinned F t,
      )

  verdict_at :
      (i : ℕ)
      → suc i ≤ 3
      → (v : Text) × In v verdicts × (get_elem? verdicts i ≡ some v) × (lower (strip v) ≡ v)
  unfolding lower strip
  verdict_at zero h = (_, inl refl, refl, refl)
  verdict_at (suc zero) h = (_, inr (inl refl), refl, refl)
  verdict_at (suc (suc zero)) h = (_, inr (inr (inl refl)), refl, refl)
  verdict_at (suc (suc (suc i))) h = absurd (omega (arith, h))

  below_3 : (n : ℕ) → suc (n % 3) ≤ 3
  below_3 n = omega arith

  -- The judge over the stub, where its prompt does not have the sentinel of an extraction: it
  -- returns one of the three verdicts, after one call.
  pub judge_stub :
      (existing : MemoryRecord F) (text : Text) (w : World F)
      → contains (judge_sentinel ++ b' ' ∷ existing.content ++ newline ∷ text) extract_sentinel
        ≡ false
      → (verdict : Text) × In verdict verdicts
        × (judge stub_env existing text w ≡ done verdict (record w { calls = suc w.calls }))
  unfolding judge ask or_throw stub_complete stub_judge
  judge_stub existing text w h =
      let prompt : Text = judge_sentinel ++ b' ' ∷ existing.content ++ newline ∷ text in
      let n = digest (strip (after prompt judge_sentinel)) in
      let (v, among, at, clean) = verdict_at (n % 3) (below_3 n) in
      let after_answer : World F = record w { calls = suc w.calls } in
      let answered : stub_complete dumps digest prompt ≡ some v =
        ap (λ b. if b then some (extract dumps prompt) else stub_judge digest prompt) h ∙ at in
      (
        v,
        among,
        ap (λ o. then_do (λ s. done (lower (strip s))) (or_throw provider_error o after_answer))
              answered
            ∙ ap (λ s. done s after_answer) clean,
      )
