-- ===== src/Recall/Represents.antt =====
-- What recall returns of the turns in the buffer.
use memory_agent.Buffer
use mathlib.Core.Path.{subst}
use memory_agent.T1.{vector_search}
use memory_agent.Recall.{fetch, reinforce, synthesize, turn_to_record, accessed, execute}
use memory_agent.Schema.{Turn, MemoryRecord, new_record}
use memory_agent.Text.{Text, text_eq}
use memory_agent.Prelude.{
  ◌≡◌, refl, ◌⊎◌, inl, inr, true, false, List, [], ◌∷◌, ◌++◌, map, Bool-cases, ◌==◌, any, In, sym,
  ap, ◌∙◌, Bool, ℕ, Option, none, some, All, All-append,
}
use memory_agent.Floats.{Floats}
use memory_agent.Action.{done, read}
use memory_agent.Env.{Env}
use memory_agent.World.{at_t1, ask, World, embed}
use memory_agent.Recall.Protection.{reinforce-In}
use memory_agent.Action.Results.{Leads-always, Leads, Leads-bind, Leads-weaken, Leads-focus}
use memory_agent.Buffer.{Buffer, as_candidates_for_user}
use memory_agent.Recall.Recent.{
  HasContent, HasContent-right, is_seen, HasContent-left, IsKept, buffer_only-IsKept, any_content,
}
use memory_agent.World.Runs.{embed-run}
use memory_agent.Recall.Fetched.{fetch-ids}
use memory_agent.Packer.Rank.{In-re_rank}

module _ {ℓ} {A : Type ℓ} (p : A → Bool) where
  none_of : (xs : List A) → All (λ x. p x ≡ false) xs → any p xs ≡ false
  none_of [] h = refl
  none_of (x ∷ xs) h = rw h.0 (none_of xs h.1)

  of_none : (xs : List A) → any p xs ≡ false → All (λ x. p x ≡ false) xs
  of_none [] h = tt
  of_none (x ∷ xs) h = elim (Bool-cases (p x)) [
    | inl e ↦ (let z = rw e at h in cc)
    | inr e ↦ (e, of_none xs (rw e at h))
  ]

module _ {ℓ κ} {A : Type ℓ} {B : Type κ} where
  All-map : (P : B → Type 0) (f : A → B) (xs : List A) → All (λ x. P (f x)) xs → All P (map f xs)
  All-map P f [] h = tt
  All-map P f (x ∷ xs) h = (h.0, All-map P f xs h.1)

module _ {F : Type 0} ⦃fl : Floats F⦄ (env : Env F) where
  synthesize-content :
      (user : Text) (us : List (Turn F)) (u : Turn F) (w : World F)
      → In u us
      → Leads (λ rs w'. HasContent u.content rs) (synthesize env user us w)
  unfolding synthesize turn_to_record new_record
  synthesize-content user [] u w i = absurd i
  synthesize-content user (x ∷ us) u w (inl p) =
      Leads-bind _ _ (ask env.clock w) _ (Leads-always _) (λ now w1 _.
        Leads-bind _ _ (synthesize env user us w1) _ (Leads-always _) (λ rs w2 _.
          (turn_to_record user now x, inl refl, ap (λ (y : Turn F). y.content) (sym p))))
  synthesize-content user (x ∷ us) u w (inr i) =
      let rest = λ (v : World F). synthesize-content user us u v i in
      Leads-bind _ _ (ask env.clock w) _ (Leads-always _) (λ now w1 _.
        Leads-bind _ _ (synthesize env user us w1) _ (rest w1) (λ rs w2 k. (k.0, inr k.1, k.2)))

  reinforce-content :
      (now : ℕ) (content : Text) (rs : List (MemoryRecord F)) (w : World F)
      → HasContent content rs
      → Leads (λ qs w'. HasContent content qs) (reinforce env now rs w)
  reinforce-content now content rs w (r, i, e) =
      Leads-weaken _ _ (reinforce env now rs w) (reinforce-In env now r rs w i)
        (λ qs w' k. (accessed env now r, k, e))

  -- If recall without a budget returns, every turn in the buffer of the user whose id is not that
  -- of a hit is represented: a record with its content is in the result.
  pub execute_represents :
      (query user : Text) (agent : Option Text) (k : ℕ) (w : World F)
      → (q : List F) (hits : List (Text × F)) (t : Turn F) → env.embed w.calls query ≡ some q
      → vector_search env.knn q k user agent w.t1 ≡ done hits w.t1
      → In t (Buffer.as_candidates_for_user user w.buffer)
      → any (λ (h : Text × F). h.0 == t.id) hits ≡ false
      → Leads (λ rs w'. HasContent t.content rs) (execute env query user agent k none w)
  unfolding execute read
  execute_represents query user agent k w q hits t e s i n =
      Leads-bind _ (λ v w'. (v ≡ q) × (w'.t1 ≡ w.t1) × (w'.buffer ≡ w.buffer)) (embed env query w) _
        (subst (Leads (λ v w'. (v ≡ q) × (w'.t1 ≡ w.t1) × (w'.buffer ≡ w.buffer)))
          (sym (embed-run env query w q e)) (refl, refl, refl))
        (λ v w1 a.
          Leads-bind _ (λ hs w'. (w'.buffer ≡ w.buffer) × (hs ≡ hits))
            (at_t1 (vector_search env.knn v k user agent) w1) _ (searched v w1 a)
            (λ hs w2 b.
              Leads-bind _
                (λ rs w'. (w'.buffer ≡ w2.buffer) × All (λ (r : MemoryRecord F). IsOther r.id) rs)
                (fetch env hs w2) _
                (fetch-ids env hs w2 IsOther (
                  subst (All (λ h. IsOther h.0)) (sym b.1)
                    (of_none (λ (h : Text × F). h.0 == t.id) hits n)))
                (λ stored w3 c.
                  Leads-bind _ (λ rs w'. HasContent t.content stored ⊎ HasContent t.content rs)
                    (synthesize env user _ w3) _
                    (made stored _ w3 (
                      buffer_only-IsKept _ t (map (λ r. r.content) stored)
                        (Buffer.as_candidates_for_user user w3.buffer)
                        (subst (λ (x : Buffer F). In t (Buffer.as_candidates_for_user user x))
                          (sym (c.0 ∙ b.0)) i)
                        (not_there stored hs c.1 b.1)))
                    (λ buffered w4 d.
                      Leads-bind _ _ (ask env.clock w4) _ (Leads-always _) (λ now w5 _.
                        Leads-bind _ (λ rs w'. HasContent t.content (rs ++ buffered))
                          (reinforce env now stored w5) _ (joined now stored buffered w5 d)
                          (λ rs w6 m. (m.0, In-re_rank hs now m.0 (rs ++ buffered) m.1, m.2)))))))
    where
      IsOther : Text → Type 0
      IsOther id = (id == t.id) ≡ false

      searched :
          (v : List F) (w1 : World F)
          → (v ≡ q) × (w1.t1 ≡ w.t1) × (w1.buffer ≡ w.buffer)
          → Leads
              (λ hs w'. (w'.buffer ≡ w.buffer) × (hs ≡ hits))
              (at_t1 (vector_search env.knn v k user agent) w1)
      searched v w1 a =
          Leads-focus _ (λ x. x.t1) (λ t x. record x { t1 = t })
            (vector_search env.knn v k user agent) w1
            (subst (Leads (λ hs t. (w1.buffer ≡ w.buffer) × (hs ≡ hits)))
              (sym (
                ap (λ t. vector_search env.knn v k user agent t) a.1
                ∙ ap (λ z. vector_search env.knn z k user agent w.t1) a.0
                ∙ s))
              (a.2, refl))

      not_there :
          (stored : List (MemoryRecord F)) (hs : List (Text × F))
          → All (λ (r : MemoryRecord F). IsOther r.id) stored
          → hs ≡ hits
          → any (λ id. id == t.id) (map (λ r. r.id) stored ++ map (λ h. h.0) hs) ≡ false
      not_there stored hs c e =
          none_of (λ id. id == t.id) _
            (All-append IsOther (map (λ r. r.id) stored) (map (λ h. h.0) hs)
              (All-map IsOther (λ (r : MemoryRecord F). r.id) stored c)
              (All-map IsOther (λ (h : Text × F). h.0) hs
                (subst (All (λ (h : Text × F). IsOther h.0)) (sym e)
                  (of_none (λ (h : Text × F). h.0 == t.id) hits n))))

      made :
          (stored : List (MemoryRecord F)) (us : List (Turn F)) (w3 : World F)
          → (is_seen t.content (map (λ r. r.content) stored) ≡ true) ⊎ IsKept t us
          → Leads
              (λ rs w'. HasContent t.content stored ⊎ HasContent t.content rs)
              (synthesize env user us w3)
      made stored us w3 (inl h) =
          Leads-weaken _ _ (synthesize env user us w3) (Leads-always _)
            (λ rs w' _. inl (any_content t.content stored h))
      made stored us w3 (inr (u, i, e)) =
          Leads-weaken _ _ (synthesize env user us w3) (synthesize-content user us u w3 i)
            (λ rs w' k. inr (k.0, k.1, k.2 ∙ e))

      joined :
          (now : ℕ) (stored buffered : List (MemoryRecord F)) (w5 : World F)
          → HasContent t.content stored ⊎ HasContent t.content buffered
          → Leads (λ rs w'. HasContent t.content (rs ++ buffered)) (reinforce env now stored w5)
      joined now stored buffered w5 (inl c) =
          Leads-weaken _ _ (reinforce env now stored w5)
            (reinforce-content now t.content stored w5 c)
            (λ rs w' m. HasContent-left t.content rs buffered m)
      joined now stored buffered w5 (inr c) =
          Leads-weaken _ _ (reinforce env now stored w5) (Leads-always _)
            (λ rs w' _. HasContent-right t.content rs buffered c)
