-- ===== src/Recall/Fetched.antt =====
-- What the lookups of the hits return.
use mathlib.Core.Path.{subst}
use memory_agent.T1.{get, Row, find_row, Store, fetch_one, make_record}
use memory_agent.Recall.{fetch}
use memory_agent.Schema.{MemoryRecord}
use memory_agent.Text.{Text, text_eq}
use memory_agent.Prelude.{◌≡◌, refl, List, [], ◌∷◌, sym, ap, ◌∙◌, Option, none, some, All}
use memory_agent.Floats.{Floats}
use memory_agent.Action.{Outcome, validation_error, done, raised}
use memory_agent.Env.{Env}
use memory_agent.World.{at_t1, World}
use memory_agent.T1.Guard.Reads.{make_record_inv, find_row-id}
use memory_agent.Action.Results.{Leads, Leads-bind, Leads-focus, Leads-weaken}

module _ {F : Type 0} where
  -- What a lookup by an id returns.
  abbrev FoundAs : Text → Option (MemoryRecord F) → Type 0
  FoundAs id none = Unit
  FoundAs id (some m) = m.id ≡ id

  get-FoundAs : (id : Text) (t : Store F) → Leads (λ m t'. FoundAs id m) (get id t)
  unfolding get
  get-FoundAs id t = found (find_row id t.rows) refl
    where
      made :
          (r : Row F) (o : Option (MemoryRecord F))
          → r.id ≡ id
          → make_record r ≡ o
          → Leads
              (λ m t'. FoundAs id m)
              (elim o as (λ _. Outcome (Store F) (Option (MemoryRecord F))) [
                | none ↦ raised validation_error t
                | some m ↦ done (some m) t
              ])
      made r none e q = tt
      made r (some m) e q = ap (λ (x : MemoryRecord F). x.id) (make_record_inv r m q).2 ∙ e

      found :
          (o : Option (Row F))
          → find_row id t.rows ≡ o
          → Leads (λ m t'. FoundAs id m) (fetch_one o t)
      found none e = tt
      found (some r) e = made r (make_record r) (find_row-id [] id t.rows r e) refl

module _ {F : Type 0} ⦃fl : Floats F⦄ (env : Env F) where
  -- Every record that is fetched has the id of a hit, and the buffer stays.
  pub fetch-ids :
      (hits : List (Text × F)) (w : World F) (P : Text → Type 0)
      → All (λ h. P h.0) hits
      → Leads
          (λ rs w'. (w'.buffer ≡ w.buffer) × All (λ (r : MemoryRecord F). P r.id) rs)
          (fetch env hits w)
  unfolding fetch
  fetch-ids [] w P h = (refl, tt)
  fetch-ids ((id, d) ∷ hits) w P h =
      let rest = λ (v : World F). fetch-ids hits v P h.1 in
      Leads-bind _ (λ m w'. (w'.buffer ≡ w.buffer) × FoundAs id m) (at_t1 (get id) w) _
        (Leads-focus _ (λ x. x.t1) (λ t x. record x { t1 = t }) (get id) w
          (Leads-weaken _ _ (get id w.t1) (get-FoundAs id w.t1) (λ m t q. (refl, q))))
        (λ m w1 q.
          Leads-bind _ _ (fetch env hits w1) _ (rest w1)
            (λ rs w2 k. (k.0 ∙ q.0, step m rs q.1 k.1)))
    where
      step :
          (m : Option (MemoryRecord F)) (rs : List (MemoryRecord F))
          → FoundAs id m
          → All (λ (r : MemoryRecord F). P r.id) rs
          → All
              (λ (r : MemoryRecord F). P r.id)
              (elim m as (λ _. List (MemoryRecord F)) [ none ↦ rs | some x ↦ x ∷ rs ])
      step none rs q k = k
      step (some r) rs q k = (subst P (sym q) h.0, k)
