-- ===== src/OssS3/Log.antt =====
-- src/mnema/adapters/object_store/oss_s3.py: the bucket as lists of turns.
use memory_agent.Prelude.Dict
use mathlib.Core.Path.{subst}
use memory_agent.Action.{then_do, done}
use memory_agent.Env.{Env, IsCodecOf}
use memory_agent.Schema.{Turn}
use memory_agent.ObjectStore.{Sessions, add}
use memory_agent.OssS3.{put_turn, IsS3, key_of, Client, append, session_prefix, count_prefix}
use memory_agent.Text.{Text, text_eq}
use memory_agent.LocalFs.{valid_id, ref_of}
use memory_agent.OssS3.Listing.{count_keys-total}
use memory_agent.Text.Decimal.{show_ℕ}
use memory_agent.Prelude.{
  ℕ, suc, ◌≤◌, ◌≡◌, ap, ◌∙◌, true, none, some, [], ◌∷◌, arith, length, get_elem?, refl, sym, ◌≢◌,
  ◌⊎◌, inl, inr, ◌++◌, if◌then◌else◌, Bool-cases, ◌==◌, eq_iff, ne_of_eq-false, get_elem?-lt,
  get_elem?-snoc, length-append,
}
use memory_agent.Prelude.Dict.{Dict, get-put_self, get-put_ne}
use memory_agent.OssS3.Keys.{count_prefix-put, key_of_injective, key-session_prefix}
use memory_agent.LocalFs.Ids.{valid_id-HasNoSlash}

module _ {F Bucket : Type 0} (env : Env F) (s3 : Client Bucket) (laws : IsS3 s3) where
  -- The bucket holds exactly the turns of each session, under consecutive keys.
  pub record HoldsLog (log : Sessions F) (b : Bucket) : Type 0 where
    pub counted :
        (s : Text)
        → valid_id s ≡ true
        → count_prefix (session_prefix s) (laws.objects b) ≡ length (log s)
    pub stored :
        (s : Text) (i : ℕ) (t : Turn F)
        → valid_id s ≡ true
        → get_elem? (log s) i ≡ some t
        → (Dict.get (key_of s (show_ℕ i)) (laws.objects b) ≡ some (env.dump_turn t))
          × IsCodecOf env t
    pub free :
        (s : Text) (i : ℕ)
        → valid_id s ≡ true
        → length (log s) ≤ i
        → Dict.get (key_of s (show_ℕ i)) (laws.objects b) ≡ none

  -- Enough rounds for every listing of the bucket.
  abbrev pub rounds : Bucket → ℕ
  rounds b = suc (length (laws.objects b))

  count_prefix-le : (p : Text) (d : Dict Text Text) → count_prefix p d ≤ length d
  count_prefix-le p [] = omega arith
  count_prefix-le p ((k, v) ∷ d) = ground (arith, count_prefix-le p d)

  abbrev pub next_key : Text → Bucket → Text
  next_key s b = key_of s (show_ℕ (count_prefix (session_prefix s) (laws.objects b)))

  abbrev pub after_append : Text → Turn F → Bucket → Bucket
  after_append s t b = laws.after_put (next_key s b) (env.dump_turn t) b

  pub append-total :
      (s : Text) (t : Turn F) (b : Bucket)
      → valid_id s ≡ true
      → append s3 env (rounds b) s t b
        ≡ done (ref_of s (count_prefix (session_prefix s) (laws.objects b))) (after_append s t b)
  unfolding append put_turn
  append-total s t b v = rw v (
      ap (then_do _) (
        count_keys-total s3 laws (rounds b) (session_prefix s) b
          (omega (arith, count_prefix-le (session_prefix s) (laws.objects b))))
      ∙ ap (then_do _) (laws.put _ _ b))

  module _ (log : Sessions F) (s : Text) (t : Turn F) (b : Bucket) (h : HoldsLog log b)
      (v : valid_id s ≡ true) where
    next_key-length : next_key s b ≡ key_of s (show_ℕ (length (log s)))
    next_key-length = ap (λ n. key_of s (show_ℕ n)) (h.counted s v)

    next_key-free : Dict.get (next_key s b) (laws.objects b) ≡ none
    next_key-free = ap (λ k. Dict.get k (laws.objects b)) next_key-length ∙ h.free s _ v le_self
      where
        le_self : length (log s) ≤ length (log s)
        le_self = omega arith

    -- The key that is written is no key of another place.
    next_key-ne :
        (r : Text) (i : ℕ) → (s ≡ r → i ≡ length (log s) → ⊥) → next_key s b ≢ key_of r (show_ℕ i)
    next_key-ne r i n e =
        let p = key_of_injective s r (length (log s)) i (sym next_key-length ∙ e) in n p.0 (sym p.1)

    get-other :
        (r : Text) (i : ℕ)
        → (s ≡ r → i ≡ length (log s) → ⊥)
        → Dict.get (key_of r (show_ℕ i)) (laws.objects (after_append s t b))
          ≡ Dict.get (key_of r (show_ℕ i)) (laws.objects b)
    get-other r i n =
        ap (Dict.get (key_of r (show_ℕ i))) (laws.put_objects _ _ b)
        ∙ get-put_ne _ _ _ _ (next_key-ne r i n)

    get-written :
        Dict.get (key_of s (show_ℕ (length (log s)))) (laws.objects (after_append s t b))
        ≡ some (env.dump_turn t)
    get-written =
        ap (Dict.get (key_of s (show_ℕ (length (log s))))) (laws.put_objects _ _ b)
        ∙ ap (λ k. Dict.get k (Dict.put (next_key s b) (env.dump_turn t) (laws.objects b)))
            (sym next_key-length)
        ∙ get-put_self _ _ _

    count-after :
        (r : Text)
        → valid_id r ≡ true
        → count_prefix (session_prefix r) (laws.objects (after_append s t b))
          ≡ (if s == r then suc (length (log r)) else length (log r))
    count-after r w =
        ap (count_prefix (session_prefix r)) (laws.put_objects _ _ b)
        ∙ count_prefix-put (session_prefix r) _ _ _ next_key-free
        ∙ ap
            (λ c.
              if c
              then suc (count_prefix (session_prefix r) (laws.objects b))
              else count_prefix (session_prefix r) (laws.objects b))
            (key-session_prefix s r _ (valid_id-HasNoSlash s v) (valid_id-HasNoSlash r w))
        ∙ ap (λ n. if s == r then suc n else n) (h.counted r w)

    pub append-HoldsLog : IsCodecOf env t → HoldsLog (add s t log) (after_append s t b)
    append-HoldsLog c = record {
      counted = λ r w. counted' r w;
      stored = λ r i u w e. stored' r i u w e;
      free = λ r i w e. free' r i w e;
    }
      where
        counted' :
            (r : Text)
            → valid_id r ≡ true
            → count_prefix (session_prefix r) (laws.objects (after_append s t b))
              ≡ length (add s t log r)
        counted' r w = elim (Bool-cases (s == r)) [
          | inl e ↦ count-after r w ∙ rw e (omega (arith, length-append (log r) (t ∷ [])))
          | inr e ↦ count-after r w ∙ rw e refl
        ]

        at_end :
            (i : ℕ) (u : Turn F)
            → ((get_elem? (log s) i ≡ some u) ⊎ ((i ≡ length (log s)) × (t ≡ u)))
            → (Dict.get (key_of s (show_ℕ i)) (laws.objects (after_append s t b))
                ≡ some (env.dump_turn u))
              × IsCodecOf env u
        at_end i u (inl e) =
            let l = get_elem?-lt (log s) i u e in
            let old = h.stored s i u v e in
            (get-other s i (λ _ q. omega (arith, l, q)) ∙ old.0, old.1)
        at_end i u (inr (e, q)) = (
          ap (λ n. Dict.get (key_of s (show_ℕ n)) (laws.objects (after_append s t b))) e
              ∙ get-written
              ∙ ap (λ x. some (env.dump_turn x)) q,
          subst (IsCodecOf env) q c,
        )

        stored' :
            (r : Text) (i : ℕ) (u : Turn F)
            → valid_id r ≡ true
            → get_elem? (add s t log r) i ≡ some u
            → (Dict.get (key_of r (show_ℕ i)) (laws.objects (after_append s t b))
                ≡ some (env.dump_turn u))
              × IsCodecOf env u
        stored' r i u w e = elim (Bool-cases (s == r)) [
          | inl q ↦
              let same = (eq_iff s r).0 q in
              let e' : get_elem? (log r ++ t ∷ []) i ≡ some u = rw q at e in
              subst
                (λ x.
                  (Dict.get (key_of x (show_ℕ i)) (laws.objects (after_append s t b))
                    ≡ some (env.dump_turn u))
                  × IsCodecOf env u)
                same (at_end i u (get_elem?-snoc (log s) t i u (rw same e')))
          | inr q ↦
              let e' : get_elem? (log r) i ≡ some u = rw q at e in
              let old = h.stored r i u w e' in
              (get-other r i (λ p _. ne_of_eq-false s r q p) ∙ old.0, old.1)
        ]

        free' :
            (r : Text) (i : ℕ)
            → valid_id r ≡ true
            → length (add s t log r) ≤ i
            → Dict.get (key_of r (show_ℕ i)) (laws.objects (after_append s t b)) ≡ none
        free' r i w e = elim (Bool-cases (s == r)) [
          | inl q ↦
              let same = (eq_iff s r).0 q in
              let e' : length (log r ++ t ∷ []) ≤ i = rw q at e in
              let m : suc (length (log r)) ≤ i =
                omega (arith, e', length-append (log r) (t ∷ [])) in
              let n = ap (λ x. length (log x)) same in
              get-other r i (λ _ p. omega (arith, m, n, p)) ∙ h.free r i w (omega (arith, m))
          | inr q ↦
              let e' : length (log r) ≤ i = rw q at e in
              get-other r i (λ p _. ne_of_eq-false s r q p) ∙ h.free r i w e'
        ]
