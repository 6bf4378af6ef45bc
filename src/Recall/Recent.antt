-- ===== src/Recall/Recent.antt =====
-- Which turns of the buffer step 4 of src/mnema/core/recall.py leaves out.
use memory_agent.Recall.{buffer_only}
use memory_agent.Schema.{Turn, MemoryRecord}
use memory_agent.Text.{Text, text_eq}
use memory_agent.Postgres.Session.{seen}
use memory_agent.Prelude.{
  ◌≡◌, refl, ◌⊎◌, inl, inr, true, false, List, [], ◌∷◌, ◌++◌, map, Bool-cases, ◌==◌, eq_iff, any,
  In, In-append_left, In-append_right, sym, ap, ◌∙◌, Bool, if◌then◌else◌,
}
use memory_agent.Floats.{Floats}

-- A record or a turn with the content.
module _ {F : Type 0} where
  abbrev pub HasContent : Text → List (MemoryRecord F) → Type 0
  HasContent content rs = (r : MemoryRecord F) × In r rs × (r.content ≡ content)

  pub HasContent-left :
      (content : Text) (rs qs : List (MemoryRecord F))
      → HasContent content rs
      → HasContent content (rs ++ qs)
  HasContent-left content rs qs (r, i, e) = (r, In-append_left r rs qs i, e)

  pub HasContent-right :
      (content : Text) (rs qs : List (MemoryRecord F))
      → HasContent content qs
      → HasContent content (rs ++ qs)
  HasContent-right content rs qs (r, i, e) = (r, In-append_right r rs qs i, e)

  pub any_content :
      (content : Text) (rs : List (MemoryRecord F))
      → any (λ c. c == content) (map (λ (r : MemoryRecord F). r.content) rs) ≡ true
      → HasContent content rs
  any_content content [] h = cc
  any_content content (r ∷ rs) h = elim (Bool-cases (r.content == content)) [
    | inl e ↦ (r, inl refl, (eq_iff r.content content).0 e)
    | inr e ↦ let (q, i, p) = any_content content rs (rw e at h) in (q, inr i, p)
  ]

abbrev pub is_seen : Text → List Text → Bool
is_seen content seen = any (λ c. c == content) seen

module _ {F : Type 0} (t : Turn F) where
  -- A turn that step 4 keeps has the content.
  abbrev pub IsKept : List (Turn F) → Type 0
  IsKept us = (u : Turn F) × In u us × (u.content ≡ t.content)

  IsKept-cons : (x : Turn F) (us : List (Turn F)) → IsKept us → IsKept (x ∷ us)
  IsKept-cons x us (u, i, e) = (u, inr i, e)

  seen_or_IsKept :
      (x : Turn F) (seen : List Text) (us : List (Turn F))
      → (is_seen t.content (x.content ∷ seen) ≡ true) ⊎ IsKept us
      → (is_seen t.content seen ≡ true) ⊎ IsKept (x ∷ us)
  seen_or_IsKept x seen us (inr k) = inr (IsKept-cons x us k)
  seen_or_IsKept x seen us (inl h) = elim (Bool-cases (x.content == t.content)) [
    | inl e ↦ inr (x, inl refl, (eq_iff x.content t.content).0 e)
    | inr e ↦ inl (rw e at h)
  ]

module _ {F : Type 0} ⦃fl : Floats F⦄ (ids : List Text) (t : Turn F) where
  -- Step 4 leaves out a turn only where its id or its content is there already.
  pub buffer_only-IsKept :
      (seen : List Text) (ts : List (Turn F))
      → In t ts
      → any (λ id. id == t.id) ids ≡ false
      → (is_seen t.content seen ≡ true) ⊎ IsKept t (buffer_only ids seen ts)
  unfolding buffer_only
  buffer_only-IsKept seen [] i h = absurd i
  buffer_only-IsKept seen (x ∷ ts) (inl p) h =
      step (any (λ id. id == x.id) ids) (is_seen x.content seen)
        (ap (λ (y : Turn F). any (λ id. id == y.id) ids) (sym p) ∙ h) refl
    where
      step :
          (b c : Bool)
          → b ≡ false
          → is_seen x.content seen ≡ c
          → (is_seen t.content seen ≡ true)
            ⊎ IsKept t (
                if b
                then buffer_only ids seen ts
                else if c
                then buffer_only ids seen ts
                else x ∷ buffer_only ids (x.content ∷ seen) ts)
      step true c e q = cc
      step false true e q = inl (ap (λ (y : Turn F). is_seen y.content seen) p ∙ q)
      step false false e q = inr (x, inl refl, ap (λ (y : Turn F). y.content) (sym p))
  buffer_only-IsKept seen (x ∷ ts) (inr i) h =
      step (any (λ id. id == x.id) ids) (is_seen x.content seen) (buffer_only-IsKept seen ts i h)
        (seen_or_IsKept t x seen _ (buffer_only-IsKept (x.content ∷ seen) ts i h))
    where
      step :
          (b c : Bool)
          → (is_seen t.content seen ≡ true) ⊎ IsKept t (buffer_only ids seen ts)
          → (is_seen t.content seen ≡ true) ⊎ IsKept t (x ∷ buffer_only ids (x.content ∷ seen) ts)
          → (is_seen t.content seen ≡ true)
            ⊎ IsKept t (
                if b
                then buffer_only ids seen ts
                else if c
                then buffer_only ids seen ts
                else x ∷ buffer_only ids (x.content ∷ seen) ts)
      step true c l r = l
      step false true l r = l
      step false false l r = r
