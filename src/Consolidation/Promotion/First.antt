-- ===== src/Consolidation/Promotion/First.antt =====
-- `passes` of one user: what the vault holds when both are over.
use memory_agent.T1
use memory_agent.LocalFs
use memory_agent.Schema.{MemoryRecord}
use memory_agent.Text.{Text, text_eq}
use memory_agent.Floats.{Floats}
use memory_agent.LocalFs.{Directory, valid_id}
use memory_agent.World.{World, at_t1, at_t0}
use memory_agent.T1.{make_records, make_record, is_live, Row, Store, Field}
use memory_agent.Consolidation.Passes.{
  is_promotable, promotion_pass, keep_threshold, archive_and_audit, evict_one, eviction_pass,
}
use memory_agent.Consolidation.Promotion.{
  IsPlain, with_vault, IsInVault, promote_each-run, promote_each,
}
use memory_agent.T1.Guard.Reads.{make_record_inv}
use memory_agent.Text.Insertion.{HasNoNewline}
use memory_agent.Vault.Keeps.{bullet_text}
use memory_agent.Vault.{bullet_line}
use memory_agent.T1.Stream.{yielded_all}
use memory_agent.Text.Returns.{HasNoReturn}
use memory_agent.Prelude.{
  ◌≡◌, refl, ap, ◌∙◌, true, ◌&&◌, Option, none, some, List, [], ◌∷◌, ◌==◌, eq_iff, filter, All,
  In-filter_inv, All-intro, ℕ, Bool, arith, if◌then◌else◌, all, false,
}
use memory_agent.Action.{
  done, Action, return, throw, when, read, then_do, ◌>>=◌, ◌>>◌, runtime_error, validation_error,
  raised, final, Outcome,
}
use memory_agent.Env.{Env, Audit}
use memory_agent.Decay.{decay_pass}
use memory_agent.Consolidation.{run, passes}
use memory_agent.Action.Triples.{
  Triple-return, Triple-for_each, Ends-of_final, keeps, Ends, Triple-focus, Triple-bind, Triple,
  Anything, Triple-if, Triple-when, Triple-throw,
}
use memory_agent.Action.Results.{focus_done, bind_run}

both : (a b : Bool) → (a && b) ≡ true → a ≡ true
both a b e = ground arith

module _ {F : Type 0} ⦃fl : Floats F⦄ where
  -- The rows of a user that can be read are records of the user.
  make_records-user :
      (uid : Text) (rs : List (Row F)) (ms : List (MemoryRecord F))
      → All (λ r. r.user_id ≡ uid) rs
      → make_records rs ≡ some ms
      → All (λ m. m.user_id ≡ uid) ms
  unfolding make_records
  make_records-user uid [] ms g e = let q : ms ≡ [] = cc in rw q tt
  make_records-user uid (r ∷ rs) ms g e =
      step (make_record r) refl (make_records rs) (λ xs. make_records-user uid rs xs g.1) ms e
    where
      step :
          (o : Option (MemoryRecord F))
          → make_record r ≡ o
          → (p : Option (List (MemoryRecord F)))
          → ((xs : List (MemoryRecord F)) → p ≡ some xs → All (λ m. m.user_id ≡ uid) xs)
          → (ms : List (MemoryRecord F))
          → elim o as (λ _. Option (List (MemoryRecord F))) [
            | none ↦ none
            | some m ↦ elim p [ none ↦ none | some xs ↦ some (m ∷ xs) ]
          ]
            ≡ some ms
          → All (λ m. m.user_id ≡ uid) ms
      step none q p k ms e = cc
      step (some m) q none k ms e = cc
      step (some m) q (some xs) k ms e =
          let same : ms ≡ m ∷ xs = cc in
          let inv = make_record_inv r m q in
          rw same (ap (λ (x : MemoryRecord F). x.user_id) inv.2 ∙ g.0, k xs refl)

  -- The live rows of a user.
  abbrev pub live_rows : Text → World F → List (Row F)
  live_rows uid w = filter (λ r. r.user_id == uid && is_live r) w.t1.rows

  live_rows-user : (uid : Text) (w : World F) → All (λ r. r.user_id ≡ uid) (live_rows uid w)
  live_rows-user uid w =
      All-intro (λ r. r.user_id ≡ uid) (live_rows uid w)
        (λ r i.
          let b = (In-filter_inv (λ (r : Row F). r.user_id == uid && is_live r) r w.t1.rows i).1 in
          (eq_iff r.user_id uid).0 (both (r.user_id == uid) (is_live r) b))

  -- Every record's bullet is one line, with no line end of any kind in it.
  abbrev pub HasPlainBullets : List (MemoryRecord F) → Type 0
  HasPlainBullets ms = All (λ m. HasNoNewline (bullet_text m) × HasNoReturn (bullet_line m)) ms

  All-IsPlain :
      (uid : Text) (ms : List (MemoryRecord F))
      → All (λ m. m.user_id ≡ uid) ms
      → HasPlainBullets ms
      → All (IsPlain uid) ms
  All-IsPlain uid [] h k = tt
  All-IsPlain uid (m ∷ ms) h k = ((h.0, k.0.0, k.0.1), All-IsPlain uid ms h.1 k.1)

  promotion_pass-run :
      (uid : Text) (w : World F) (d : Directory) (ms : List (MemoryRecord F))
      → valid_id uid ≡ true
      → w.vault ≡ some d
      → make_records (live_rows uid w) ≡ some ms
      → HasPlainBullets ms
      → (d' : Directory) × (promotion_pass uid w ≡ done tt (with_vault d' w))
        × All (IsInVault uid d') (filter is_promotable ms)
  unfolding promotion_pass T1.live_stream read
  promotion_pass-run uid w d ms valid e r h =
      let plain = All-IsPlain uid ms (make_records-user uid _ ms (live_rows-user uid w) r) h in
      let (d', run, keeps, all) = promote_each-run uid valid ms d w plain in
      (d', started ∙ ap (then_do promote_all) read_live ∙ ap (then_do (λ _. return tt)) run, all)
    where
      same : w ≡ with_vault d w
      same = ap (λ v. record w { vault = v }) e

      promote_all : List (MemoryRecord F) × Bool → Action (World F) (Unit {0})
      promote_all live = promote_each live.0 >>= λ _. when live.1 (throw validation_error)

      started : promotion_pass uid w ≡ (at_t1 (T1.live_stream uid) >>= promote_all) (with_vault d w)
      started = ap (promotion_pass uid) same

      read_live : at_t1 (T1.live_stream uid) (with_vault d w) ≡ done (ms, false) (with_vault d w)
      read_live =
          focus_done (λ x. x.t1) (λ t x. record x { t1 = t }) (T1.live_stream uid) (with_vault d w)
            (ms, false) w.t1 (ap (λ y. done y w.t1) (yielded_all 64 (live_rows uid w) ms r))

module _ {F : Type 0} ⦃fl : Floats F⦄ (env : Env F) (d : Directory) where
  abbrev HasVault : World F → Type 0
  HasVault w = w.vault ≡ some d

  at_t1-HasVault : {A : Type 0} (m : Action (Store F) A) → Triple HasVault (at_t1 m) Anything
  at_t1-HasVault m =
      Triple-focus _ _ m
        (λ w h. Ends-of_final (λ t. (record w { t1 = t }).vault ≡ some d) (m w.t1) h)

  at_t0-HasVault : {A : Type 0} (m : Action Directory A) → Triple HasVault (at_t0 m) Anything
  at_t0-HasVault m =
      Triple-focus _ _ m
        (λ w h. Ends-of_final (λ t. (record w { t0 = t }).vault ≡ some d) (m w.t0) h)

  archive_and_audit-HasVault :
      (now : ℕ) (r : MemoryRecord F) (score : F)
      → Triple HasVault (archive_and_audit env now r score) Anything
  unfolding archive_and_audit
  archive_and_audit-HasVault now r score = record { from = λ w h. step w.archives w h }
    where
      entry : Audit F
      entry = record {
        record_id = r.id;
        user_id = r.user_id;
        keep_score = some score;
        evicted_at = now;
        reason = env.reason score;
      }

      both_files : Action (World F) (Unit {0})
      both_files = at_t0 (LocalFs.archive env r) >> at_t0 (LocalFs.append_audit env entry)

      filed : Triple HasVault both_files Anything
      filed =
          Triple-bind (at_t0-HasVault (LocalFs.archive env r))
            (λ a _. at_t0-HasVault (LocalFs.append_audit env entry))

      step :
          (b : Bool) (w : World F)
          → HasVault w
          → Ends HasVault Anything (if b then both_files w else raised runtime_error w)
      step true w h = filed.from w h
      step false w h = h

  evict_one-HasVault :
      (now : ℕ) (p : MemoryRecord F × F) → Triple HasVault (evict_one env now p) Anything
  unfolding evict_one
  evict_one-HasVault now (r, score) =
      Triple-if (fl.le keep_threshold score) (λ _. Triple-return tt tt)
        (λ _.
          Triple-bind (at_t1-HasVault (T1.update r.id (Field.valid_until (some now) ∷ []))) (λ a _.
            Triple-bind (at_t1-HasVault (T1.delete_vector r.id))
              (λ b _. archive_and_audit-HasVault now r score)))

  eviction_pass-HasVault :
      (now : ℕ) (uid : Text) → Triple HasVault (eviction_pass env now uid) Anything
  unfolding eviction_pass
  eviction_pass-HasVault now uid = Triple-bind (at_t1-HasVault (T1.live_stream uid)) (λ live _.
      Triple-bind
        (Triple-for_each Anything (decay_pass live.0 now) (All-intro _ _ (λ a i. tt))
          (λ p _. evict_one-HasVault now p))
        (λ a _. Triple-when live.1 (λ _. Triple-throw validation_error)))

module _ {F : Type 0} ⦃fl : Floats F⦄ (env : Env F) where
  -- The two passes for a user, where there is a vault, the live records of the user can be read
  -- and no bullet has a line end or a carriage return in it: whether or not the eviction pass
  -- raises, the user's file then has the bullet of every record that was live and promotable when
  -- the passes began, the evicted ones included.
  pub passes-IsInVault :
      (now : ℕ) (uid : Text) (w : World F) (d : Directory) (ms : List (MemoryRecord F))
      → valid_id uid ≡ true
      → w.vault ≡ some d
      → make_records (live_rows uid w) ≡ some ms
      → HasPlainBullets ms
      → (d' : Directory) × ((final (passes env now uid w)).vault ≡ some d')
        × All (IsInVault uid d') (filter is_promotable ms)
  unfolding passes
  passes-IsInVault now uid w d ms valid e r h =
      let (d', run, all) = promotion_pass-run uid w d ms valid e r h in
      (
        d',
        ap (λ (o : Outcome (World F) Unit). (final {S = World F} o).vault)
              (bind_run (promotion_pass uid) (λ _. eviction_pass env now uid) w tt (with_vault d' w)
                run)
            ∙ keeps (eviction_pass-HasVault env d' now uid) (with_vault d' w) refl,
        all,
      )
