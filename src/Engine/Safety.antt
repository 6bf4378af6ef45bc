-- ===== src/Engine/Safety.antt =====
-- From the words of a user to a record that no call removes: the write path and the history after.
use memory_agent.LocalFs
use memory_agent.WritePath
use memory_agent.Buffer
use mathlib.Core.Path.{subst}
use memory_agent.Action.{done, write, return, Action, or_throw, provider_error}
use memory_agent.Env.{Env}
use memory_agent.Schema.{MemoryRecord, new_record}
use memory_agent.Text.{Text, text_eq, codes}
use memory_agent.Floats.{Floats}
use memory_agent.T1.{as_stored, insert_row, Row, upsert_with_vector, record_params}
use memory_agent.T1.Guard.{Guards, IsGuarded}
use memory_agent.Prelude.{
  ◌≡◌, inl, inr, true, Option, none, some, List, [], ◌∷◌, arith, Bool-cases, ◌==◌, eq_iff, eq_refl,
  any, All, ℕ, suc, ◌<◌, refl, ◌++◌, Bool, false, if◌then◌else◌, sym, ◌≤◌,
}
use memory_agent.WritePath.{
  is_safety_claim, provisional_record, Utterance, write_provisional, is_durable,
}
use memory_agent.World.{ask, World, fresh_record, at_t1, embed, new_turn, at_t0, ask_provider}
use memory_agent.World.Guard.{IsUnused}
use memory_agent.Action.Results.{
  Leads, Leads-focus, Leads-weaken, Leads-bind, Leads-always, Leads-done,
}
use memory_agent.Buffer.{push, Buffer}
use memory_agent.LocalFs.{append, Directory}
use memory_agent.Engine.{Call, after_all, remember}
use memory_agent.Engine.Guard.{after_all-Keeps}
use memory_agent.T1.RoundTrip.{upsert_with_vector-Leads}

module _ {F : Type 0} where
  -- What a provisional write of a safety claim leaves: one guarded row of a new id.
  insert_row-Guards_new :
      (r : Row F) (rs : List (Row F)) → IsGuarded r → Guards r.id (insert_row r rs)
  insert_row-Guards_new r rs g = (found rs, kept rs)
    where
      found : (qs : List (Row F)) → any (λ q. q.id == r.id) (insert_row r qs) ≡ true
      found [] = ground (arith, eq_refl r.id)
      found (q ∷ qs) = elim (Bool-cases (q.id == r.id)) [
        | inl e ↦ rw e (found qs)
        | inr e ↦ rw e (ground (arith, found qs))
      ]

      kept : (qs : List (Row F)) → All (λ q. q.id ≡ r.id → IsGuarded q) (insert_row r qs)
      kept [] = (λ p. g, tt)
      kept (q ∷ qs) = elim (Bool-cases (q.id == r.id)) [
        | inl e ↦ rw e (kept qs)
        | inr e ↦ rw e (λ p. let t = (eq_iff q.id r.id).1 p in cc, kept qs)
      ]

  insert_row-Guards_record :
      (r : MemoryRecord F) (rs : List (Row F))
      → r.protected ≡ true
      → r.valid_until ≡ none
      → Guards r.id (insert_row (record_params r) rs)
  unfolding record_params
  insert_row-Guards_record r rs p v = insert_row-Guards_new (record_params r) rs (p, v)

  Guards-of : {i j : Text} {qs rs : List (Row F)} → i ≡ j → qs ≡ rs → Guards i rs → Guards j qs
  Guards-of {i} {j} {qs} {rs} p e g = subst (λ x. Guards x qs) p (subst (Guards i) (sym e) g)

module _ {F : Type 0} ⦃fl : Floats F⦄ (env : Env F) (u : Utterance)
    (is_safety : is_safety_claim u.content ≡ true)
    (injective : (m n : ℕ) → env.uuid m ≡ env.uuid n → m ≡ n) where
  -- The id that the n-th uuid makes.
  abbrev id_at : ℕ → Text
  id_at n = codes "mem_" ++ env.uuid n

  id_at-IsUnused : (n : ℕ) → IsUnused env (id_at n) (suc n)
  id_at-IsUnused n m le e =
      let q : env.uuid m ≡ env.uuid n = cc in let p = injective m n q in omega (arith, p, le)

  provisional_record-Leads :
      (ref : Text) (w : World F)
      → Leads
          (λ r w'.
            (r.id ≡ id_at w.calls)
            × (r.protected ≡ true)
            × (r.valid_until ≡ none)
            × (w.calls < w'.calls))
          (provisional_record env u ref w)
  unfolding provisional_record fresh_record new_record ask
  provisional_record-Leads ref w = (refl, is_safety, refl, omega arith)

  -- A uuid drawn since the m-th call made the id of a guarded row.
  abbrev HasGuarded : ℕ → World F → Type 0
  HasGuarded m w = (n : ℕ) × (m ≤ n) × (n < w.calls) × Guards (id_at n) w.t1.rows

  stored-Leads :
      (m n : ℕ) (r : MemoryRecord F) (v : List F) (w : World F)
      → m ≤ n
      → (r.id ≡ id_at n) × (r.protected ≡ true) × (r.valid_until ≡ none) × (n < w.calls)
      → Leads (λ a. HasGuarded m) (at_t1 (upsert_with_vector r v) w)
  stored-Leads m n r v w le p =
      Leads-focus (λ a. HasGuarded m) (λ x. x.t1) (λ t x. record x { t1 = t })
        (upsert_with_vector r v) w
        (Leads-weaken _ (λ a t. HasGuarded m (record w { t1 = t })) _
          (upsert_with_vector-Leads r v w.t1)
          (λ a t e.
            let g = insert_row-Guards_record (as_stored r) w.t1.rows p.1 p.2 in
            (n, le, p.3, Guards-of p.0 e g)))

  -- The calls are counted up.
  abbrev Later : {A : Type 0} → World F → A → World F → Type 0
  Later w a w' = w.calls ≤ w'.calls

  ask_provider-Later :
      {A : Type 0} (f : ℕ → Option A) (w : World F) → Leads (Later w) (ask_provider f w)
  unfolding ask or_throw
  ask_provider-Later f w = step (f w.calls)
    where
      step :
          {A : Type 0} (o : Option A)
          → Leads (Later w) (or_throw provider_error o (record w { calls = suc w.calls }))
      step none = tt
      step (some a) = omega arith

  at_t0-Later : {A : Type 0} (m : Action Directory A) (w : World F) → Leads (Later w) (at_t0 m w)
  at_t0-Later m w =
      Leads-focus (Later w) (λ x. x.t0) (λ d x. record x { t0 = d }) m w
        (Leads-weaken _ _ _ (Leads-always (m w.t0))
          (λ a d _. let z : w.calls ≤ w.calls = omega arith in z))

  new_turn-Later : (s c : Text) (w : World F) → Leads (Later w) (new_turn env s c w)
  unfolding new_turn ask
  new_turn-Later s c w = omega arith

  write_provisional-Leads :
      (m : ℕ) (ref : Text) (w : World F)
      → m ≤ w.calls
      → Leads (λ o. HasGuarded m) (write_provisional env u ref w)
  unfolding write_provisional
  write_provisional-Leads m ref w le =
      Leads-bind _ _ (embed env u.content w) _ (ask_provider-Later (λ n. env.embed n u.content) w)
        (λ v w1 l1.
          Leads-bind _ _ (provisional_record env u ref w1) _ (provisional_record-Leads ref w1)
            (λ r w2 p.
              Leads-bind _ (λ a. HasGuarded m) (at_t1 (upsert_with_vector r v) w2) _
                (stored-Leads m w1.calls r v w2 (omega (arith, le, l1)) p) (λ a w3 g. g)))

  durable-Leads :
      (m : ℕ) (b : Bool) (ref : Text) (w : World F)
      → b ≡ true
      → m ≤ w.calls
      → Leads (λ o. HasGuarded m) ((if b then write_provisional env u ref else return none) w)
  durable-Leads m true ref w e le = write_provisional-Leads m ref w le
  durable-Leads m false ref w e le = cc

  execute-Leads : (w : World F) → Leads (λ p. HasGuarded w.calls) (WritePath.execute env u w)
  unfolding WritePath.execute write
  execute-Leads w =
      Leads-bind _ _ (new_turn env u.session_id u.content w) _
        (new_turn-Later u.session_id u.content w)
        (λ turn w1 l1.
          Leads-bind _ _ (at_t0 (LocalFs.append env u.session_id turn) w1) _
            (at_t0-Later (LocalFs.append env u.session_id turn) w1)
            (λ ref w2 l2.
              Leads-bind _ (λ o. HasGuarded w.calls)
                ((if is_durable u then write_provisional env u ref else return none)
                  (record w2 { buffer = Buffer.push turn u.session_id u.user_id w2.buffer }))
                _
                (durable-Leads w.calls (is_durable u) ref _ (ground (arith, is_safety))
                  (omega (arith, l1, l2)))
                (λ o w3 g. g)))

  remember-Leads : (w : World F) → Leads (λ p. HasGuarded w.calls) (remember env u w)
  unfolding remember
  remember-Leads w =
      Leads-bind _ (λ p. HasGuarded w.calls) (WritePath.execute env u w) _ (execute-Leads w)
        (λ p w' g. g)

  -- Once `remember` has returned for a text with a safety keyword, there is a protected live record
  -- for it after every history of later calls, by any users and wherever they raise: an id that
  -- this call drew has a row, and no row with this id is unprotected or retired. The hypothesis is
  -- that no two uuids are equal.
  pub safety_claim_kept :
      (w w' : World F) (t0_ref : Text)
      → remember env u w ≡ done t0_ref w'
      → (cs : List Call)
      → (n : ℕ) × (w.calls ≤ n) × (n < w'.calls) × Guards (id_at n) (after_all env cs w').t1.rows
  safety_claim_kept w w' t0_ref e cs =
      let g = Leads-done _ (remember env u w) t0_ref w' (remember-Leads w) e in
      let unused : IsUnused env (id_at g.0) w'.calls =
        λ m le. id_at-IsUnused g.0 m (let h = g.2 in omega (arith, h, le)) in
      (g.0, g.1, g.2, (after_all-Keeps env (id_at g.0) cs w' (g.3, unused)).0)
