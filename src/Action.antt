-- ===== src/Action.antt =====
-- Python's statements over mutable state: an action ends with a value or by an exception, and
-- what was written before the exception stays written.
pub mod Moves
pub mod Triples
pub mod Results
use memory_agent.Prelude.{Bool, true, false, Option, none, some, List, [], ◌∷◌, ◌≡◌, refl}

pub data Error : Type 0 where
  value_error runtime_error type_error validation_error database_error provider_error : Error
  -- of the model only: a loop that was given too few rounds
  out_of_fuel : Error

pub data Outcome (S A : Type 0) : Type 0 where
  done : A → S → Outcome S A
  raised : Error → S → Outcome S A

abbrev pub Action : Type 0 → Type 0 → Type 0
Action S A = S → Outcome S A

module _ {S A : Type 0} where
  -- The state in which an action leaves the program, by either way out.
  abbrev pub final : Outcome S A → S
  final (done a s) = s
  final (raised e s) = s

  abbrev pub return : A → Action S A
  return = done

  abbrev pub throw : Error → Action S A
  throw = raised

  unfoldable pub read : (S → A) → Action S A
  read f s = done (f s) s

  -- A pure step that may raise.
  unfoldable pub or_throw : Error → Option A → Action S A
  or_throw e none = raised e
  or_throw e (some a) = done a

module _ {S A B : Type 0} where
  abbrev pub then_do : (A → Action S B) → Outcome S A → Outcome S B
  then_do f (done a s) = f a s
  then_do f (raised e s) = raised e s

  infixl 5 ◌>>=◌ ◌>>◌
  abbrev pub ◌>>=◌ : Action S A → (A → Action S B) → Action S B
  ◌>>=◌ m f s = then_do f (m s)

  abbrev pub ◌>>◌ : Action S A → Action S B → Action S B
  m >> n = m >>= λ _. n

module _ {S : Type 0} where
  unfoldable pub write : (S → S) → Action S (Unit {0})
  write f s = done tt (f s)

  -- A statement that runs only under a test.
  abbrev pub when : Bool → Action S (Unit {0}) → Action S (Unit {0})
  when true m = m
  when false m = done tt

  -- `try: m finally: n`
  abbrev pub finally : Action S (Unit {0}) → Action S (Unit {0}) → Action S (Unit {0})
  finally m n s = elim (m s) [
    | done a s' ↦ n s'
    | raised e s' ↦ elim (n s') [ done a s'' ↦ raised e s'' | raised e' s'' ↦ raised e' s'' ]
  ]

module _ {S A : Type 0} where
  -- `for a in xs: m a`
  unfoldable pub for_each : List A → (A → Action S (Unit {0})) → Action S (Unit {0})
  for_each [] m = done tt
  for_each (a ∷ xs) m = m a >>= λ _. for_each xs m

module _ {W S A : Type 0} where
  -- An action on a part of the state.
  abbrev pub focus : (W → S) → (S → W → W) → Action S A → Action W A
  focus view put m w = elim (m (view w)) [
    | done a s ↦ done a (put s w)
    | raised e s ↦ raised e (put s w)
  ]
