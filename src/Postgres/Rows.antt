-- ===== src/Postgres/Rows.antt =====
-- src/mnema/adapters/vector_store/postgres_t1.py: the statements on rows with unique ids.
use mathlib.Core.Option
use mathlib.Core.Path.{subst}
use memory_agent.RecordStore.{Records, Holds, HasNo, put, Unique, change}
use memory_agent.Postgres.{update_where, put_row, is_owned}
use memory_agent.Text.{Text, text_eq}
use memory_agent.T1.{Row, find_row}
use memory_agent.Prelude.{
  ◌≡◌, refl, sym, ap, ◌∙◌, ◌≢◌, inl, inr, Bool, true, false, Option, none, some, List, [], ◌∷◌,
  arith, if◌then◌else◌, Bool-cases, ◌==◌, eq_iff, eq-false_of_ne, ne_of_eq-false, ◌&&◌, length,
  filter,
}
use memory_agent.T1.Guard.Reads.{find_row-id}

module _ {F : Type 0} where
  find_row-none : (j : Text) (rs : List (Row F)) → HasNo j rs → find_row j rs ≡ none
  unfolding find_row
  find_row-none j [] h = refl
  find_row-none j (r ∷ rs) h = rw (eq-false_of_ne r.id j h.0) (find_row-none j rs h.1)

  put_row-HasNo :
      (j : Text) (r : Row F) (rs : List (Row F)) → r.id ≢ j → HasNo j rs → HasNo j (put_row r rs)
  unfolding put_row
  put_row-HasNo j r [] n h = (n, tt)
  put_row-HasNo j r (q ∷ rs) n h = elim (Bool-cases (q.id == r.id)) [
    | inl e ↦ rw e (n, h.1)
    | inr e ↦ rw e (h.0, put_row-HasNo j r rs n h.1)
  ]

  put_row-Unique : (r : Row F) (rs : List (Row F)) → Unique rs → Unique (put_row r rs)
  unfolding put_row
  put_row-Unique r [] u = (tt, tt)
  put_row-Unique r (q ∷ rs) u = elim (Bool-cases (q.id == r.id)) [
    | inl e ↦ rw e (subst (λ k. HasNo k rs) ((eq_iff q.id r.id).0 e) u.0, u.1)
    | inr e ↦
        let n = ne_of_eq-false q.id r.id e in
        rw e (put_row-HasNo q.id r rs (λ p. n (sym p)) u.0, put_row-Unique r rs u.1)
  ]

  find_row-put_row :
      (j : Text) (r : Row F) (rs : List (Row F))
      → find_row j (put_row r rs) ≡ (if r.id == j then some r else find_row j rs)
  unfolding find_row put_row
  find_row-put_row j r [] = refl
  find_row-put_row j r (q ∷ rs) =
      ground (arith, eq_iff q.id r.id, eq_iff r.id j, eq_iff q.id j, find_row-put_row j r rs)

  pub put_row-Holds :
      (r : Row F) (m : Records F) (rs : List (Row F)) → Holds m rs → Holds (put r m) (put_row r rs)
  put_row-Holds r m rs h = (
    put_row-Unique r rs h.0,
    λ j. find_row-put_row j r rs ∙ ap (λ o. if r.id == j then some r else o) (h.1 j),
  )

  module _ (p : Row F → Bool) (f : Row F → Row F) (k : (r : Row F) → (f r).id ≡ r.id) where
    update_where-HasNo : (j : Text) (rs : List (Row F)) → HasNo j rs → HasNo j (update_where p f rs)
    unfolding update_where
    update_where-HasNo j [] h = tt
    update_where-HasNo j (r ∷ rs) h = (step (p r), update_where-HasNo j rs h.1)
      where
        step : (b : Bool) → (if b then f r else r).id ≢ j
        step true = λ e. h.0 (sym (k r) ∙ e)
        step false = h.0

    pub update_where-Unique : (rs : List (Row F)) → Unique rs → Unique (update_where p f rs)
    unfolding update_where
    update_where-Unique [] u = tt
    update_where-Unique (r ∷ rs) u = (step (p r), update_where-Unique rs u.1)
      where
        step : (b : Bool) → HasNo (if b then f r else r).id (update_where p f rs)
        step true =
            subst (λ x. HasNo x (update_where p f rs)) (sym (k r)) (update_where-HasNo r.id rs u.0)
        step false = update_where-HasNo r.id rs u.0

  abbrev pub change_where : (Row F → Bool) → (Row F → Row F) → Row F → Row F
  change_where p f r = if p r then f r else r

  change_where-id :
      (p : Row F → Bool) (f : Row F → Row F) (r : Row F)
      → ((q : Row F) → (f q).id ≡ q.id)
      → (change_where p f r).id ≡ r.id
  change_where-id p f r k = step (p r)
    where
      step : (b : Bool) → (if b then f r else r).id ≡ r.id
      step true = k r
      step false = refl

  find_row-update_where :
      (p : Row F → Bool) (f : Row F → Row F) (j : Text) (rs : List (Row F))
      → ((r : Row F) → (f r).id ≡ r.id)
      → find_row j (update_where p f rs) ≡ Option.map (change_where p f) (find_row j rs)
  unfolding find_row update_where
  find_row-update_where p f j [] k = refl
  find_row-update_where p f j (r ∷ rs) k =
      ap (λ x. if x == j then some (change_where p f r) else find_row j (update_where p f rs))
        (change_where-id p f r k)
      ∙ step (p r) refl (r.id == j) (find_row-update_where p f j rs k)
    where
      step :
          (b : Bool)
          → p r ≡ b
          → (c : Bool)
          → find_row j (update_where p f rs) ≡ Option.map (change_where p f) (find_row j rs)
          → (if c then some (if b then f r else r) else find_row j (update_where p f rs))
            ≡ Option.map (change_where p f) (if c then some r else find_row j rs)
      step b e true ih = ap (λ x. some (if x then f r else r)) (sym e)
      step b e false ih = ih

  -- An UPDATE whose condition names an id, and holds of the row with this id.
  pub update_where-Holds :
      (id : Text) (p : Row F → Bool) (f : Row F → Row F) (m : Records F) (rs : List (Row F))
      → ((r : Row F) → (f r).id ≡ r.id)
      → ((r : Row F) → p r ≡ true → r.id ≡ id)
      → ((r : Row F) → find_row id rs ≡ some r → p r ≡ true)
      → Holds m rs
      → Holds (change id f m) (update_where p f rs)
  update_where-Holds id p f m rs k named sure h =
      (update_where-Unique p f k rs h.0, λ j. find_row-update_where p f j rs k ∙ found j)
    where
      at_row :
          (j : Text) (r : Row F)
          → find_row j rs ≡ some r
          → some (change_where p f r) ≡ (if id == j then some (f r) else some r)
      at_row j r e = elim (Bool-cases (id == j)) [
        | inl q ↦
            let same = sym ((eq_iff id j).0 q) in
            let e' : find_row id rs ≡ some r = ap (λ x. find_row x rs) (sym same) ∙ e in
            rw (q, sure r e') refl
        | inr q ↦
            let n = ne_of_eq-false id j q in
            elim (Bool-cases (p r)) [
              | inl t ↦ absurd (n (sym (named r t) ∙ find_row-id j j rs r e))
              | inr t ↦ rw (q, t) refl
            ]
      ]

      step :
          (j : Text) (o : Option (Row F))
          → find_row j rs ≡ o
          → Option.map (change_where p f) o ≡ (if id == j then Option.map f o else o)
      step j none e = absent (id == j)
        where
          absent : (b : Bool) → ◌≡◌ {A = Option (Row F)} none (if b then none else none)
          absent true = refl
          absent false = refl
      step j (some r) e = at_row j r e

      found : (j : Text) → Option.map (change_where p f) (find_row j rs) ≡ change id f m j
      found j =
          step j (find_row j rs) refl ∙ ap (λ o. if id == j then Option.map f o else o) (h.1 j)

  filter-HasNo_nil :
      (id user : Text) (rs : List (Row F)) → HasNo id rs → length (filter (is_owned id user) rs) ≡ 0
  filter-HasNo_nil id user [] h = refl
  filter-HasNo_nil id user (r ∷ rs) h =
      rw (eq-false_of_ne r.id id h.0) (filter-HasNo_nil id user rs h.1)

  -- Where one row has the id and the user, it is the row that is found by the id.
  pub owned_found :
      (id user : Text) (rs : List (Row F)) (r : Row F)
      → Unique rs
      → length (filter (is_owned id user) rs) ≡ 1
      → find_row id rs ≡ some r
      → is_owned id user r ≡ true
  unfolding find_row
  owned_found id user [] r u n e = cc
  owned_found id user (q ∷ rs) r u n e =
      step (q.id == id) refl (q.user_id == user) refl (owned_found id user rs r u.1) n e
    where
      none_left : q.id ≡ id → length (filter (is_owned id user) rs) ≡ 0
      none_left s = filter-HasNo_nil id user rs (subst (λ k. HasNo k rs) s u.0)

      found_here : q ≡ r → is_owned id user q ≡ true → is_owned id user r ≡ true
      found_here s t = subst (λ x. is_owned id user x ≡ true) s t

      step :
          (b : Bool)
          → (q.id == id) ≡ b
          → (c : Bool) → (q.user_id == user) ≡ c
          → (length (filter (is_owned id user) rs) ≡ 1
              → find_row id rs ≡ some r
              → is_owned id user r ≡ true)
          → length
              (if b && c then q ∷ filter (is_owned id user) rs else filter (is_owned id user) rs)
            ≡ 1
          → (if b then some q else find_row id rs) ≡ some r
          → is_owned id user r ≡ true
      step true s true t ih n e = found_here (cc) (rw (s, t) refl)
      step true s false t ih n e =
          let z = none_left ((eq_iff q.id id).0 s) in absurd (omega (arith, n, z))
      step false s c t ih n e = ih n e
