-- ===== src/LocalFs/Ids.antt =====
-- Session ids: a valid one has no slash, which keeps the names of sessions apart.
use memory_agent.Text.{Text, newline}
use memory_agent.LocalFs.{drop_final_newline, is_id_char, valid_id}
use memory_agent.Prelude.{
  ℕ, ◌≡◌, ◌≢◌, inl, inr, Bool, true, false, ◌&&◌, [], ◌∷◌, arith, eqb, Bool-cases, all, All,
}

abbrev pub HasNoSlash : Text → Type 0
HasNoSlash t = All (λ c. c ≢ b'/') t

is_id_char-slash : (c : ℕ) → is_id_char c ≡ true → c ≢ b'/'
is_id_char-slash c h e = ground (arith, h, e)

all_id_chars : (s : Text) → all is_id_char s ≡ true → HasNoSlash s
all_id_chars [] h = tt
all_id_chars (c ∷ s) h = elim (Bool-cases (is_id_char c)) [
  | inl e ↦ (is_id_char-slash c e, all_id_chars s (rw e at h))
  | inr e ↦ absurd_test (rw e at h)
]
  where
    absurd_test : false ≡ true → HasNoSlash (c ∷ s)
    absurd_test q = cc

newline_last : (c : ℕ) → eqb c newline ≡ true → c ≢ b'/'
newline_last c h e = ground (arith, h, e)

drop_final_newline-HasNoSlash : (s : Text) → HasNoSlash (drop_final_newline s) → HasNoSlash s
unfolding drop_final_newline
drop_final_newline-HasNoSlash [] h = tt
drop_final_newline-HasNoSlash (c ∷ []) h = elim (Bool-cases (eqb c newline)) [
  | inl e ↦ (newline_last c e, tt)
  | inr e ↦ rw e at h
]
drop_final_newline-HasNoSlash (c ∷ d ∷ s) h = (h.0, drop_final_newline-HasNoSlash (d ∷ s) h.1)

pub valid_id-HasNoSlash : (s : Text) → valid_id s ≡ true → HasNoSlash s
unfolding valid_id
valid_id-HasNoSlash s h =
    drop_final_newline-HasNoSlash s (all_id_chars (drop_final_newline s) (and_right _ _ h))
  where
    and_right : (a b : Bool) → (a && b) ≡ true → b ≡ true
    and_right true b q = q
    and_right false b q = cc
