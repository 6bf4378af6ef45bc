-- ===== src/Consolidation/Promotion.antt =====
-- src/mnema/core/consolidation.py: what the file of a user holds after a loop of promotions.
pub mod First
use memory_agent.Vault
use mathlib.Core.Path.{subst}
use memory_agent.Action.{when, Action, for_each, then_do, done}
use memory_agent.Schema.{MemoryRecord}
use memory_agent.Text.{Text, newline, contains}
use memory_agent.Floats.{Floats}
use memory_agent.LocalFs.{Directory, valid_id}
use memory_agent.World.{World}
use memory_agent.Vault.{promote, bullet_line}
use memory_agent.Consolidation.{run}
use memory_agent.Consolidation.Passes.{is_promotable, promote_record}
use memory_agent.Action.Results.{focus_done}
use memory_agent.Text.Insertion.{HasNoNewline}
use memory_agent.Text.Returns.{HasNoReturn}
use memory_agent.Vault.Promote.{model_of, promote-model}
use memory_agent.Vault.Keeps.{bullet_text, promote-line}
use memory_agent.Prelude.{
  ◌≡◌, refl, sym, ap, ◌∙◌, inl, inr, true, some, List, [], ◌∷◌, ◌++◌, Bool-cases, filter, all, All,
}

module _ (uid : Text) where
  -- The lines of the user's file stay.
  abbrev pub KeepsLines : Directory → Directory → Type 0
  KeepsLines d d' =
      (t : Text)
      → HasNoNewline t
      → contains (model_of uid d) (t ++ newline ∷ []) ≡ true
      → contains (model_of uid d') (t ++ newline ∷ []) ≡ true

module _ {F : Type 0} where
  abbrev pub with_vault : Directory → World F → World F
  with_vault d w = record w { vault = some d }

  -- The user's file has the bullet of the record.
  abbrev pub IsInVault : Text → Directory → MemoryRecord F → Type 0
  IsInVault uid d r = contains (model_of uid d) (bullet_line r) ≡ true

  -- A record of the user whose bullet is one line, also for who reads the file.
  abbrev pub IsPlain : Text → MemoryRecord F → Type 0
  IsPlain uid r = (r.user_id ≡ uid) × HasNoNewline (bullet_text r) × HasNoReturn (bullet_line r)

  abbrev pub promote_each : ⦃fl : Floats F⦄ → List (MemoryRecord F) → Action (World F) (Unit {0})
  promote_each ms = for_each ms (λ r. when (is_promotable r) (promote_record r))

module _ {F : Type 0} ⦃fl : Floats F⦄ (uid : Text) (valid : valid_id uid ≡ true) where
  promote_record-run :
      (r : MemoryRecord F) (d : Directory) (w : World F)
      → IsPlain uid r
      → (d' : Directory) × (promote_record r (with_vault d w) ≡ done tt (with_vault d' w))
        × KeepsLines uid d d'
        × IsInVault uid d' r
  unfolding promote_record
  promote_record-run r d w p =
      let v : valid_id r.user_id ≡ true = ap valid_id p.0 ∙ valid in
      let (d', e, c) = promote-model r d v p.2 in
      (
        d',
        focus_done (λ _. d) (λ x u. record u { vault = some x }) (Vault.promote r) (with_vault d w)
            tt d' e,
        λ t n h.
            subst (λ u. contains (model_of u d') (t ++ newline ∷ []) ≡ true) p.0
              (promote-line r d d' t v p.2 n e
                (subst (λ u. contains (model_of u d) (t ++ newline ∷ []) ≡ true) (sym p.0) h)),
        subst (λ u. contains (model_of u d') (bullet_line r) ≡ true) p.0 c,
      )

  -- The loop of promotions always returns. The bullet of every promotable record is then in the
  -- user's file, and the lines of the file stay.
  pub promote_each-run :
      (ms : List (MemoryRecord F)) (d : Directory) (w : World F)
      → All (IsPlain uid) ms
      → (d' : Directory) × (promote_each ms (with_vault d w) ≡ done tt (with_vault d' w))
        × KeepsLines uid d d'
        × All (IsInVault uid d') (filter is_promotable ms)
  unfolding for_each
  promote_each-run [] d w h = (d, refl, λ t n c. c, tt)
  promote_each-run (r ∷ ms) d w h = elim (Bool-cases (is_promotable r)) [
    | inl e ↦
        let (d1, run, keep, there) = promote_record-run r d w h.0 in
        let (d2, rest, keep', all) = promote_each-run ms d1 w h.1 in
        (
          d2,
          rw e (ap (then_do (λ _. promote_each ms)) run ∙ rest),
          λ t n c. keep' t n (keep t n c),
          rw e (keep' (bullet_text r) h.0.1 there, all),
        )
    | inr e ↦
        let (d1, rest, keep, all) = promote_each-run ms d w h.1 in (d1, rw e rest, keep, rw e all)
  ]
