-- ===== src/Vault/Promote.antt =====
-- What a promotion leaves in the vault: the bullet of the record, once.
use memory_agent.Prelude.Dict
use memory_agent.Schema.{RecordType, MemoryRecord, fact, preference, event, procedure}
use memory_agent.Text.{lstrip, is_space, newline, Text, contains, replace_first, nonempty, text_eq}
use memory_agent.LocalFs.{Directory, contents, valid_id}
use memory_agent.Vault.{bullet_line, with_bullet, vault_file, header_of, promote}
use memory_agent.Text.Search.{contains-lstrip, contains-replace_first, contains-end}
use memory_agent.Prelude.{
  ◌≡◌, refl, ◌≢◌, Bool, true, false, [], ◌∷◌, ◌++◌, if◌then◌else◌, ap, ◌∙◌, none, some, All-append,
}
use memory_agent.Action.{done}
use memory_agent.Prelude.Dict.{Dict, get-put_self}
use memory_agent.Text.Returns.{
  lstrip-HasNoReturn, replace_first-HasNoReturn, all-HasNoReturn, HasNoReturn,
  read_text-HasNoReturn, read_text, read_text_same,
}

-- What is read of the vault file of a user.
abbrev pub model_of : Text → Directory → Text
model_of user_id d = read_text (contents (vault_file user_id) d)

dash_space : is_space b'-' ≡ false
unfolding is_space
dash_space = refl

header-HasNoReturn : (t : RecordType) → HasNoReturn (header_of t ++ newline ∷ [])
header-HasNoReturn fact = all-HasNoReturn (header_of fact ++ newline ∷ []) refl
header-HasNoReturn preference = all-HasNoReturn (header_of preference ++ newline ∷ []) refl
header-HasNoReturn event = all-HasNoReturn (header_of event ++ newline ∷ []) refl
header-HasNoReturn procedure = all-HasNoReturn (header_of procedure ++ newline ∷ []) refl

module _ {F : Type 0} where
  pub header_ne : (r : MemoryRecord F) → header_of r.record_type ++ newline ∷ [] ≢ []
  header_ne r = step r.record_type
    where
      step : (t : RecordType) → header_of t ++ newline ∷ [] ≢ []
      step fact e = cc
      step preference e = cc
      step event e = cc
      step procedure e = cc

  with_bullet-contains :
      (r : MemoryRecord F) (existing : Text)
      → contains (with_bullet r existing) (bullet_line r) ≡ true
  unfolding with_bullet
  with_bullet-contains r existing = stripped existing _ (updated (contains existing header) refl)
    where
      header : Text
      header = header_of r.record_type ++ newline ∷ []

      updated :
          (b : Bool)
          → contains existing header ≡ b
          → contains
              (if b
                then replace_first existing header (header ++ bullet_line r)
                else existing ++ newline ∷ header ++ bullet_line r)
              (bullet_line r)
            ≡ true
      updated true e = contains-replace_first existing header header (bullet_line r) (header_ne r) e
      updated false e = contains-end (existing ++ newline ∷ header) (bullet_line r)

      stripped :
          (t u : Text)
          → contains u (bullet_line r) ≡ true
          → contains (if nonempty t then u else lstrip u) (bullet_line r) ≡ true
      stripped [] u h = contains-lstrip u b'-' _ dash_space h
      stripped (c ∷ t) u h = h

  with_bullet-HasNoReturn :
      (r : MemoryRecord F) (existing : Text)
      → HasNoReturn existing
      → HasNoReturn (bullet_line r)
      → HasNoReturn (with_bullet r existing)
  unfolding with_bullet
  with_bullet-HasNoReturn r existing h k = stripped existing _ (updated (contains existing header))
    where
      header : Text
      header = header_of r.record_type ++ newline ∷ []

      section : HasNoReturn (header ++ bullet_line r)
      section = All-append _ header (bullet_line r) (header-HasNoReturn r.record_type) k

      updated :
          (b : Bool)
          → HasNoReturn (
              if b
              then replace_first existing header (header ++ bullet_line r)
              else existing ++ newline ∷ header ++ bullet_line r)
      updated true = replace_first-HasNoReturn existing header _ h section
      updated false =
          All-append _ (existing ++ newline ∷ header) (bullet_line r)
            (All-append _ existing (newline ∷ header) h (refl, header-HasNoReturn r.record_type)) k

      stripped : (t u : Text) → HasNoReturn u → HasNoReturn (if nonempty t then u else lstrip u)
      stripped [] u n = lstrip-HasNoReturn u n
      stripped (c ∷ t) u n = n

  -- What a promotion writes is read back as it was written.
  pub written-model :
      (r : MemoryRecord F) (d : Directory)
      → HasNoReturn (bullet_line r)
      → let existing = model_of r.user_id d in
        model_of r.user_id (Dict.put (vault_file r.user_id) (with_bullet r existing) d)
        ≡ with_bullet r existing
  written-model r d k =
      let existing = model_of r.user_id d in
      ap (λ o. read_text (elim o as (λ _. Text) [ none ↦ [] | some s ↦ s ]))
        (get-put_self (vault_file r.user_id) (with_bullet r existing) d)
      ∙ read_text_same (with_bullet r existing) (
          with_bullet-HasNoReturn r existing
            (read_text-HasNoReturn (contents (vault_file r.user_id) d)) k)

  -- The two cases of a promotion for a valid user.
  pub promote-model :
      (r : MemoryRecord F) (d : Directory)
      → valid_id r.user_id ≡ true
      → HasNoReturn (bullet_line r)
      → (d' : Directory) × (promote r d ≡ done tt d')
        × (contains (model_of r.user_id d') (bullet_line r) ≡ true)
  unfolding promote
  promote-model r d v k = rw v (step (contains existing (bullet_line r)) refl)
    where
      existing : Text
      existing = model_of r.user_id d

      written : Directory
      written = Dict.put (vault_file r.user_id) (with_bullet r existing) d

      step :
          (b : Bool)
          → contains existing (bullet_line r) ≡ b
          → (d' : Directory) × ((if b then done tt d else done tt written) ≡ done tt d')
            × (contains (model_of r.user_id d') (bullet_line r) ≡ true)
      step true e = (d, refl, e)
      step false e = (
        written,
        refl,
        ap (λ s. contains s (bullet_line r)) (written-model r d k)
            ∙ with_bullet-contains r existing,
      )

  promote_again :
      (r : MemoryRecord F) (d : Directory)
      → valid_id r.user_id ≡ true
      → contains (model_of r.user_id d) (bullet_line r) ≡ true
      → promote r d ≡ done tt d
  unfolding promote
  promote_again r d v h = rw (v, h) refl

  -- The promotion of a record of a valid user, whose bullet has no carriage return, returns,
  -- leaves the bullet in the user's file as it is read, and a second promotion changes nothing.
  pub promote_once :
      (r : MemoryRecord F) (d : Directory)
      → valid_id r.user_id ≡ true
      → HasNoReturn (bullet_line r)
      → (d' : Directory) × (promote r d ≡ done tt d')
        × (contains (model_of r.user_id d') (bullet_line r) ≡ true)
        × (promote r d' ≡ done tt d')
  promote_once r d v k =
      let first = promote-model r d v k in
      (first.0, first.1, first.2, promote_again r first.0 v first.2)
