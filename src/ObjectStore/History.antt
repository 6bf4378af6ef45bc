-- ===== src/ObjectStore/History.antt =====
-- src/mnema/ports/object_store.py: a history of appends against any T0 store.
use memory_agent.Action.{Action, final, Outcome, done, raised}
use memory_agent.Env.{Env, IsCodecOf}
use memory_agent.Schema.{Turn}
use memory_agent.ObjectStore.{Sessions, add, IsLogStore}
use memory_agent.Text.{Text, text_eq}
use memory_agent.LocalFs.{valid_id, ref_of}
use memory_agent.Prelude.{
  ℕ, ◌≡◌, refl, ap, ◌∙◌, inl, inr, Bool, true, false, Option, none, some, List, [], ◌∷◌, ◌++◌,
  if◌then◌else◌, Bool-cases, ◌==◌, eq_refl, length, get_elem?, All, get_elem?-append_end,
  get_elem?-append_left,
}

module _ {F : Type 0} where
  -- The turns of every session after a history. An append to an invalid session is refused.
  abbrev pub log_step : Text → Turn F → Sessions F → Sessions F
  log_step s t log = if valid_id s then add s t log else log

  abbrev pub log_after : List (Text × Turn F) → Sessions F → Sessions F
  log_after [] log = log
  log_after ((s, t) ∷ h) log = log_after h (log_step s t log)

  -- The references that the appends of a history return, `none` where one is refused.
  abbrev pub log_replies : List (Text × Turn F) → Sessions F → List (Option Text)
  log_replies [] log = []
  log_replies ((s, t) ∷ h) log =
      (if valid_id s then some (ref_of s (length (log s))) else none)
      ∷ log_replies h (log_step s t log)

  -- Every turn of a log stands at its place in the other.
  abbrev pub Extends : Sessions F → Sessions F → Type 0
  Extends log log' =
      (s : Text) (i : ℕ) (t : Turn F) → get_elem? (log s) i ≡ some t → get_elem? (log' s) i ≡ some t

  Extends-step : (s : Text) (t : Turn F) (log : Sessions F) → Extends log (log_step s t log)
  Extends-step s t log r i u e = elim (Bool-cases (valid_id s)) [
    | inl v ↦ rw v (added (s == r))
    | inr v ↦ rw v e
  ]
    where
      added : (b : Bool) → get_elem? (if b then log r ++ t ∷ [] else log r) i ≡ some u
      added true = get_elem?-append_left (log r) (t ∷ []) i u e
      added false = e

  Extends-after : (h : List (Text × Turn F)) (log : Sessions F) → Extends log (log_after h log)
  Extends-after [] log r i u e = e
  Extends-after ((s, t) ∷ h) log r i u e =
      Extends-after h (log_step s t log) r i u (Extends-step s t log r i u e)

  add-last :
      (s : Text) (t : Turn F) (log : Sessions F)
      → get_elem? (add s t log s) (length (log s)) ≡ some t
  add-last s t log = rw (eq_refl s) (get_elem?-append_end (log s) t [])

module _ {F : Type 0} (env : Env F) where
  abbrev pub Codecs : List (Text × Turn F) → Type 0
  Codecs h = All (λ e. IsCodecOf env e.1) h

module _ {S : Type 0} where
  abbrev pub reply : Outcome S Text → Option Text
  reply (done r s) = some r
  reply (raised e s) = none

module _ {F S : Type 0} (append : Text → Turn F → Action S Text) where
  abbrev pub replies : List (Text × Turn F) → S → List (Option Text)
  replies [] d = []
  replies ((s, t) ∷ h) d = reply (append s t d) ∷ replies h (final (append s t d))

  abbrev pub state_after : List (Text × Turn F) → S → S
  state_after [] d = d
  state_after ((s, t) ∷ h) d = state_after h (final (append s t d))

module _ {F S : Type 0} (get : Text → Action S (Turn F)) where
  -- Every reference that was returned yields the turn of its append.
  abbrev pub Yields : S → List (Option Text) → List (Text × Turn F) → Type 0
  Yields d [] h = Unit
  Yields d (r ∷ rs) [] = Unit
  Yields d (none ∷ rs) (e ∷ h) = Yields d rs h
  Yields d (some r ∷ rs) ((s, t) ∷ h) = (get r d ≡ done t d) × Yields d rs h

module _ {F S : Type 0} (get : Text → Action S (Turn F)) where
  -- An accepted append needs its turn behind its reference, a refused one nothing.
  Yields-cons :
      (b : Bool) (r s : Text) (t : Turn F) (rs : List (Option Text)) (h : List (Text × Turn F))
      → (d : S) → (b ≡ true → get r d ≡ done t d)
      → Yields get d rs h
      → Yields get d ((if b then some r else none) ∷ rs) ((s, t) ∷ h)
  Yields-cons true r s t rs h d e more = (e refl, more)
  Yields-cons false r s t rs h d e more = more

module _ {F S : Type 0} (env : Env F) (append : Text → Turn F → Action S Text)
    (get : Text → Action S (Turn F)) (store : IsLogStore env append get) where
  Represents-step :
      (log : Sessions F) (s : Text) (t : Turn F) (d : S)
      → store.Represents log d
      → IsCodecOf env t
      → (reply (append s t d) ≡ (if valid_id s then some (ref_of s (length (log s))) else none))
        × store.Represents (log_step s t log) (final (append s t d))
  Represents-step log s t d r c = elim (Bool-cases (valid_id s)) [
    | inl v ↦ rw (v, store.append_done log s t d r v) (refl, store.append_keeps log s t d r v c)
    | inr v ↦ rw (v, store.append_invalid s t d v) (refl, r)
  ]

  -- The store answers a history as the lists of turns do.
  pub replies_refine :
      (h : List (Text × Turn F)) (log : Sessions F) (d : S)
      → store.Represents log d
      → Codecs env h
      → (replies append h d ≡ log_replies h log)
        × store.Represents (log_after h log) (state_after append h d)
  replies_refine [] log d r c = (refl, r)
  replies_refine ((s, t) ∷ h) log d r c =
      let one = Represents-step log s t d r c.0 in
      let more = replies_refine h (log_step s t log) (final (append s t d)) one.1 c.1 in
      (
        ap (λ x. x ∷ replies append h (final (append s t d))) one.0
            ∙ ap (λ rs. (if valid_id s then some (ref_of s (length (log s))) else none) ∷ rs)
                more.0,
        more.1,
      )

  -- In a state that has the turns of the whole history, all its references work.
  log_replies-Yields :
      (h : List (Text × Turn F)) (log log' : Sessions F) (d : S)
      → store.Represents log' d
      → Extends (log_after h log) log'
      → Yields get d (log_replies h log) h
  log_replies-Yields [] log log' d r x = tt
  log_replies-Yields ((s, t) ∷ h) log log' d r x =
      Yields-cons get (valid_id s) _ s t _ h d
        (λ v. store.get_done log' s (length (log s)) t d r v (
          x s (length (log s)) t
            (Extends-after h (log_step s t log) s (length (log s)) t (rw v (add-last s t log)))))
        (log_replies-Yields h (log_step s t log) log' d r x)

  pub replies-Yields :
      (h : List (Text × Turn F)) (log : Sessions F) (d : S)
      → store.Represents log d
      → Codecs env h
      → Yields get (state_after append h d) (replies append h d) h
  replies-Yields h log d r c =
      let all = replies_refine h log d r c in
      rw (all.0)
        (log_replies-Yields h log (log_after h log) (state_after append h d) all.1 (λ s i t e. e))
