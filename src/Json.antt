-- ===== src/Json.antt =====
-- The values that `json.loads` returns, and Python's conversions of them.
use memory_agent.Prelude.{
  ℕ, suc, Bool, true, false, not, ◌||◌, Option, none, some, List, [], ◌∷◌, map, eqb,
}
use memory_agent.Text.{Text, nonempty, text_eq}
use memory_agent.Floats.{Floats}
use memory_agent.Prelude.Dict.{Dict}

-- `negsuc n` is -(n + 1).
pub data ℤ : Type 0 where
  pos : ℕ → ℤ
  negsuc : ℕ → ℤ

mutual
  pub data Json (F : Type 0) : Type 0 where
    null : Json F
    bool : Bool → Json F
    int : ℤ → Json F
    float : F → Json F
    str : Text → Json F
    arr : Items F → Json F
    obj : Fields F → Json F

  pub data Items (F : Type 0) : Type 0 where
    nil : Items F
    cons : Json F → Items F → Items F

  pub data Fields (F : Type 0) : Type 0 where
    end : Fields F
    field : Text → Json F → Fields F → Fields F

module _ {F : Type 0} where
  abbrev pub to_list : Items F → List (Json F)
  to_list nil = []
  to_list (cons x xs) = x ∷ to_list xs

  abbrev pub to_dict : Fields F → Dict Text (Json F)
  to_dict end = []
  to_dict (field k v fs) = (k, v) ∷ to_dict fs

  abbrev pub keys : Fields F → List (Json F)
  keys end = []
  keys (field k v fs) = str k ∷ keys fs

  -- The elements of a parsed list that are dicts.
  abbrev pub dicts : Items F → List (Dict Text (Json F))
  dicts nil = []
  dicts (cons (obj fs) xs) = to_dict fs ∷ dicts xs
  dicts (cons x xs) = dicts xs

  -- `list(x)`, `none` where it raises TypeError.
  unfoldable pub as_list : Json F → Option (List (Json F))
  as_list (str s) = some (map (λ c. str (c ∷ [])) s)
  as_list (arr xs) = some (to_list xs)
  as_list (obj fs) = some (keys fs)
  as_list _ = none

  -- The texts of a list, `none` where an element is no text: pydantic's `list[str]`.
  unfoldable pub as_texts : List (Json F) → Option (List Text)
  as_texts [] = some []
  as_texts (str s ∷ xs) = elim (as_texts xs) [ none ↦ none | some ts ↦ some (s ∷ ts) ]
  as_texts (x ∷ xs) = none

module _ {F : Type 0} ⦃fl : Floats F⦄ where
  -- `float(x)`, `none` where it raises ValueError or TypeError.
  unfoldable pub as_float : Json F → Option F
  as_float (float x) = some x
  as_float (int (pos n)) = some (fl.of_ℕ n)
  as_float (int (negsuc n)) = some (fl.neg (fl.of_ℕ (suc n)))
  as_float (bool true) = some (fl.of_ℕ 1)
  as_float (bool false) = some (fl.of_ℕ 0)
  as_float (str s) = fl.parse s
  as_float _ = none

  -- `bool(x)`
  unfoldable pub truthy : Json F → Bool
  truthy null = false
  truthy (bool b) = b
  truthy (int (pos n)) = not (eqb n 0)
  truthy (int (negsuc n)) = true
  truthy (float x) = fl.lt x (fl.of_ℕ 0) || fl.lt (fl.of_ℕ 0) x || not (fl.le x x)
  truthy (str s) = nonempty s
  truthy (arr nil) = false
  truthy (arr (cons x xs)) = true
  truthy (obj end) = false
  truthy (obj (field k v fs)) = true
