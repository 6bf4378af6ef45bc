-- ===== src/Vault/Keeps.antt =====
-- src/mnema/adapters/vault/local_fs_vault.py: a promotion leaves the bullets that there were.
use memory_agent.Prelude.Dict
use mathlib.Core.Path.{subst}
use memory_agent.Schema.{MemoryRecord}
use memory_agent.Text.{
  lstrip, Text, starts_with, replace_first, codes, contains, newline, nonempty, text_eq,
}
use memory_agent.LocalFs.{valid_id, Directory}
use memory_agent.Vault.{bullet_line, promote, vault_summary, header_of, vault_file, with_bullet}
use memory_agent.Text.Insertion.{
  contains_more, contains_inserted, replace_first_parts, HasNoNewline,
}
use memory_agent.Vault.Promote.{model_of, header_ne, written-model}
use memory_agent.Prelude.{
  ◌≡◌, refl, sym, ap, ◌∙◌, Bool, true, false, [], ◌∷◌, ◌++◌, append_assoc, if◌then◌else◌,
}
use memory_agent.Action.{done}
use memory_agent.Prelude.Dict.{Dict, get-put_self}
use memory_agent.Text.Returns.{HasNoReturn}

no_line : (t : Text) → contains [] (t ++ newline ∷ []) ≡ true → ⊥
unfolding contains starts_with
no_line [] q = cc
no_line (c ∷ t) q = cc

module _ {F : Type 0} where
  -- The text of a bullet, without its line end.
  abbrev pub bullet_text : MemoryRecord F → Text
  bullet_text r = codes "- " ++ vault_summary r

  with_bullet-line :
      (r : MemoryRecord F) (existing t : Text)
      → HasNoNewline t
      → contains existing (t ++ newline ∷ []) ≡ true
      → contains (with_bullet r existing) (t ++ newline ∷ []) ≡ true
  unfolding with_bullet
  with_bullet-line r existing t n h = there existing h _ (updated (contains existing header) refl)
    where
      title : Text
      title = header_of r.record_type

      header : Text
      header = title ++ newline ∷ []

      in_section :
          (u : Text) × (v : Text) × (existing ≡ u ++ (header ++ v))
            × (replace_first existing header (header ++ bullet_line r)
                ≡ u ++ ((header ++ bullet_line r) ++ v))
          → contains (replace_first existing header (header ++ bullet_line r)) (t ++ newline ∷ [])
            ≡ true
      in_section (u, v, d, e) =
          let before : u ++ (header ++ v) ≡ (u ++ title) ++ (newline ∷ v) =
            ap (λ x. u ++ x) (append_assoc title (newline ∷ []) v)
            ∙ sym (append_assoc u title (newline ∷ v)) in
          let after : u ++ ((header ++ bullet_line r) ++ v)
              ≡ (u ++ title) ++ (newline ∷ (bullet_line r ++ v)) =
            ap (λ x. u ++ (x ++ v)) (append_assoc title (newline ∷ []) (bullet_line r))
            ∙ ap (λ x. u ++ x) (append_assoc title (newline ∷ bullet_line r) v)
            ∙ sym (append_assoc u title (newline ∷ (bullet_line r ++ v))) in
          let old : contains ((u ++ title) ++ (newline ∷ v)) (t ++ newline ∷ []) ≡ true =
            subst (λ x. contains x (t ++ newline ∷ []) ≡ true) (d ∙ before) h in
          subst (λ x. contains x (t ++ newline ∷ []) ≡ true) (sym (e ∙ after))
            (contains_inserted (u ++ title) (bullet_line r) v t n old)

      updated :
          (b : Bool)
          → contains existing header ≡ b
          → contains
              (if b
                then replace_first existing header (header ++ bullet_line r)
                else existing ++ newline ∷ header ++ bullet_line r)
              (t ++ newline ∷ [])
            ≡ true
      updated true e =
          in_section (replace_first_parts existing header (header ++ bullet_line r) (header_ne r) e)
      updated false e =
          contains_more (existing ++ newline ∷ header) (bullet_line r) (t ++ newline ∷ [])
            (contains_more existing (newline ∷ header) (t ++ newline ∷ []) h)

      there :
          (x : Text)
          → contains x (t ++ newline ∷ []) ≡ true
          → (u : Text) → contains u (t ++ newline ∷ []) ≡ true
          → contains (if nonempty x then u else lstrip u) (t ++ newline ∷ []) ≡ true
      there [] q u k = absurd (no_line t q)
      there (c ∷ x) q u k = k

  -- A promotion for a user keeps the lines of the user's file.
  pub promote-line :
      (r : MemoryRecord F) (d d' : Directory) (t : Text)
      → valid_id r.user_id ≡ true
      → HasNoReturn (bullet_line r)
      → HasNoNewline t
      → promote r d ≡ done tt d'
      → contains (model_of r.user_id d) (t ++ newline ∷ []) ≡ true
      → contains (model_of r.user_id d') (t ++ newline ∷ []) ≡ true
  unfolding promote
  promote-line r d d' t v k n e h = step (contains existing (bullet_line r)) (rw v at e)
    where
      existing : Text
      existing = model_of r.user_id d

      new_files : Directory
      new_files = Dict.put (vault_file r.user_id) (with_bullet r existing) d

      step :
          (b : Bool)
          → (if b then done tt d else done tt new_files) ≡ done tt d'
          → contains (model_of r.user_id d') (t ++ newline ∷ []) ≡ true
      step true q =
          let same : d ≡ d' = cc in
          subst (λ x. contains (model_of r.user_id x) (t ++ newline ∷ []) ≡ true) same h
      step false q =
          let same : new_files ≡ d' = cc in
          subst (λ x. contains (model_of r.user_id x) (t ++ newline ∷ []) ≡ true) same
            (ap (λ s. contains s (t ++ newline ∷ [])) (written-model r d k)
              ∙ with_bullet-line r existing t n h)
