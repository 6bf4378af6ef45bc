-- ===== src/Vault.antt =====
-- src/mnema/adapters/vault/local_fs_vault.py: the T2 vault, one markdown file for each user.
pub mod Promote
pub mod Keeps
use memory_agent.Prelude.Dict
use memory_agent.LocalFs.{Directory, valid_id, contents}
use memory_agent.Prelude.{[], ◌∷◌, ◌++◌, if◌then◌else◌, take}
use memory_agent.Action.{value_error, done, raised, Action}
use memory_agent.Text.Returns.{read_text}
use memory_agent.Text.{
  Text, codes, newline, nonempty, or_else, lstrip, strip, contains, replace_first, text_eq,
}
use memory_agent.Prelude.Dict.{Dict}
use memory_agent.Schema.{RecordType, MemoryRecord, fact, preference, event, procedure}
use memory_agent.RecordStore.{put}

abbrev pub vault_file : Text → Text
vault_file user_id = user_id ++ codes ".md"

-- `s.capitalize()` of a record type.
abbrev pub header_of : RecordType → Text
header_of fact = codes "## Facts"
header_of preference = codes "## Preferences"
header_of event = codes "## Events"
header_of procedure = codes "## Procedures"

module _ {F : Type 0} where
  abbrev pub vault_summary : MemoryRecord F → Text
  vault_summary r = strip (or_else r.summary (take 80 r.content))

  abbrev pub bullet_line : MemoryRecord F → Text
  bullet_line r = codes "- " ++ vault_summary r ++ newline ∷ []

  -- The text of the file after the promotion of a record whose bullet it does not contain.
  unfoldable pub with_bullet : MemoryRecord F → Text → Text
  unfolding contains replace_first lstrip
  with_bullet r existing =
      let header = header_of r.record_type ++ newline ∷ [] in
      let updated =
        if contains existing header
        then replace_first existing header (header ++ bullet_line r)
        else existing ++ newline ∷ header ++ bullet_line r in
      if nonempty existing then updated else lstrip updated

  unfoldable pub promote : MemoryRecord F → Action Directory (Unit {0})
  unfolding valid_id contains with_bullet read_text Dict.get Dict.put
  promote r d =
      if valid_id r.user_id
      then (let existing = read_text (contents (vault_file r.user_id) d) in
          if contains existing (bullet_line r)
          then done tt d
          else done tt (Dict.put (vault_file r.user_id) (with_bullet r existing) d))
      else raised value_error d

unfoldable pub get_user_model : Text → Action Directory Text
unfolding valid_id read_text Dict.get
get_user_model user_id d =
    if valid_id user_id
    then done (read_text (contents (vault_file user_id) d)) d
    else raised value_error d
