-- ===== src/Floats.antt =====
-- Python's `float`, of which the program uses comparisons, arithmetic, `exp`, `log` and `sqrt`.
-- The type and its operations are the interpreter's and the C library's: an interface.
use memory_agent.Prelude.{ℕ, Bool, true, false, ◌≡◌, ◌⊎◌, Option, if◌then◌else◌}
use memory_agent.Text.{Text}

pub record Floats (F : Type 0) : Type 0 where
  -- `decimal m e` is the literal m · 10⁻ᵉ.
  pub decimal : ℕ → ℕ → F
  -- `float(n)` and `float(-n)` of an `int`.
  pub of_ℕ : ℕ → F
  pub neg : F → F
  pub add : F → F → F
  pub sub : F → F → F
  pub mul : F → F → F
  pub div : F → F → F
  pub exp : F → F
  pub log : F → F
  pub sqrt : F → F
  pub le : F → F → Bool
  pub lt : F → F → Bool
  -- `(a - b).total_seconds()` of two instants, which are microseconds.
  pub seconds_between : ℕ → ℕ → F
  -- `float(s)` of a text, `none` where it raises ValueError.
  pub parse : Text → Option F

-- What holds of IEEE comparisons, also where an operand is NaN.
pub record IsComparable {F : Type 0} (fl : Floats F) : Type 0 where
  pub le_of_lt : (x y : F) → fl.lt x y ≡ true → fl.le x y ≡ true
  pub zero_le : fl.le (fl.decimal 0 1) (fl.decimal 0 1) ≡ true
  pub zero-le-one : fl.le (fl.decimal 0 1) (fl.decimal 10 1) ≡ true
  pub one_le : fl.le (fl.decimal 10 1) (fl.decimal 10 1) ≡ true

-- What holds of values that are not NaN.
pub record IsOrdered {F : Type 0} (fl : Floats F) : Type 0 where
  pub lt_asymm : (x y : F) → fl.lt x y ≡ true → fl.lt y x ≡ false
  pub lt_cotrans : (x y z : F) → fl.lt x z ≡ true → (fl.lt x y ≡ true) ⊎ (fl.lt y z ≡ true)

module _ {F : Type 0} ⦃fl : Floats F⦄ where
  -- `max(a, b)` and `min(a, b)` keep the first argument unless the second is strictly better.
  unfoldable pub max_float : F → F → F
  max_float a b = if fl.lt a b then b else a

  unfoldable pub min_float : F → F → F
  min_float a b = if fl.lt b a then b else a
