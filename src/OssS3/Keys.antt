-- ===== src/OssS3/Keys.antt =====
-- src/mnema/adapters/object_store/oss_s3.py: the keys of turns. Different turns have different
-- keys, and the prefix of a session is that of its own keys only.
use memory_agent.Prelude.Dict
use mathlib.Core.List.{append_cancel_right}
use memory_agent.OssS3.{session_prefix, key_of, count_prefix, json_suffix}
use memory_agent.Text.{starts_with, Text, text_eq}
use memory_agent.LocalFs.{split_last}
use memory_agent.LocalFs.Ids.{HasNoSlash}
use memory_agent.LocalFs.Lines.{eqb-false}
use memory_agent.LocalFs.Refs.{split_last-slash, digits-slash}
use memory_agent.Text.RoundTrip.{show_ℕ-IsDigit, read_int-show_ℕ}
use memory_agent.Text.Decimal.{show_ℕ, read_int}
use memory_agent.Prelude.{
  ℕ, suc, ◌≡◌, refl, sym, ap, ◌∙◌, ◌≢◌, inl, inr, true, ◌&&◌, none, some, [], ◌∷◌, ◌++◌, arith, eqb,
  if◌then◌else◌, Bool-cases, ◌==◌, All-append,
}
use memory_agent.Prelude.Dict.{Dict}

starts_with-nil : (s : Text) → starts_with s [] ≡ true
unfolding starts_with
starts_with-nil [] = refl
starts_with-nil (c ∷ s) = refl

pub key-session_prefix :
    (s r offset : Text)
    → HasNoSlash s
    → HasNoSlash r
    → starts_with (key_of s offset) (session_prefix r) ≡ (s == r)
unfolding starts_with
key-session_prefix [] [] offset hs hr = starts_with-nil (offset ++ json_suffix)
key-session_prefix [] (d ∷ r) offset hs hr = rw (eqb-false b'/' d (λ e. hr.0 (sym e))) refl
key-session_prefix (c ∷ s) [] offset hs hr = rw (eqb-false c b'/' hs.0) refl
key-session_prefix (c ∷ s) (d ∷ r) offset hs hr =
    ap (λ b. eqb c d && b) (key-session_prefix s r offset hs.1 hr.1)

suffix-HasNoSlash : HasNoSlash json_suffix
suffix-HasNoSlash = omega arith

key_of-parts :
    (s : Text) (n : ℕ) → split_last (key_of s (show_ℕ n)) ≡ some (s, show_ℕ n ++ json_suffix)
key_of-parts s n = split_last-slash s (show_ℕ n ++ json_suffix) (
    All-append (λ c. c ≢ b'/') (show_ℕ n) json_suffix (digits-slash _ (show_ℕ-IsDigit n))
      suffix-HasNoSlash)

show_ℕ_injective : (m n : ℕ) → show_ℕ m ≡ show_ℕ n → m ≡ n
show_ℕ_injective m n e =
    let p = sym (read_int-show_ℕ m) ∙ ap read_int e ∙ read_int-show_ℕ n in ground (arith, p)

pub key_of_injective :
    (s r : Text) (m n : ℕ) → key_of s (show_ℕ m) ≡ key_of r (show_ℕ n) → (s ≡ r) × (m ≡ n)
key_of_injective s r m n e =
    let p = sym (key_of-parts s m) ∙ ap split_last e ∙ key_of-parts r n in
    let q : show_ℕ m ++ json_suffix ≡ show_ℕ n ++ json_suffix = cc in
    (cc, show_ℕ_injective m n (append_cancel_right (show_ℕ m) (show_ℕ n) json_suffix q))

-- A new key is counted by the listings whose prefix it has.
pub count_prefix-put :
    (p k v : Text) (d : Dict Text Text)
    → Dict.get k d ≡ none
    → count_prefix p (Dict.put k v d)
      ≡ (if starts_with k p then suc (count_prefix p d) else count_prefix p d)
unfolding Dict.put Dict.get
count_prefix-put p k v [] h = refl
count_prefix-put p k v ((j, w) ∷ d) h = elim (Bool-cases (j == k)) [
  | inl e ↦ absurd_some (rw e at h)
  | inr e ↦ rw e (ground (arith, count_prefix-put p k v d (rw e at h)))
]
  where
    absurd_some :
        some w ≡ none
        → count_prefix p (Dict.put k v ((j, w) ∷ d)) ≡ (
            if starts_with k p
            then suc (count_prefix p ((j, w) ∷ d))
            else count_prefix p ((j, w) ∷ d))
    absurd_some q = cc
