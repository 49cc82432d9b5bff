-- ===== src/Tasks/Json.antt =====
-- JSON values as `json.loads` gives them, and the questions that the code asks of them.
use night_voyager.Base.Int.{ℤ, pos}
use night_voyager.Base.{
  if◌then◌else◌, ◌==◌, nat_eq, string_eq, option_eq, list_eq, ℕ, suc, String, Bool, true, false,
  Option, none, some, List, [], ◌∷◌,
}

-- Of a float the code asks only whether it equals 1.
mutual
  pub data Json : Type 0 where
    null : Json
    boolean : Bool → Json
    integer : ℤ → Json
    float : Bool → Json
    text : String → Json
    array : Items → Json
    object : Members → Json

  pub data Items : Type 0 where
    nil : Items
    cons : Json → Items → Items

  pub data Members : Type 0 where
    end : Members
    member : String → Json → Members → Members

-- `value == 1`, which also holds of `True` and of `1.0`
abbrev pub equals_one : Json → Bool
equals_one (integer (pos n)) = n == 1
equals_one (boolean b) = b
equals_one (float b) = b
equals_one _ = false

-- `mapping.get(key)`: the last of repeated members counts, and a missing key is `None`.
abbrev pub get_member : String → Members → Option Json
get_member k end = none
get_member k (member j v rest) = elim (get_member k rest) [
  | some w ↦ some w
  | none ↦ if j == k then some v else none
]

abbrev pub as_object : Option Json → Option Members
as_object (some (object m)) = some m
as_object _ = none

abbrev pub as_array : Option Json → Option Items
as_array (some (array xs)) = some xs
as_array _ = none

abbrev pub as_text : Option Json → Option String
as_text (some (text s)) = some s
as_text _ = none

abbrev pub items_length : Items → ℕ
items_length nil = 0
items_length (cons _ xs) = suc (items_length xs)

-- `all(isinstance(item, dict) for item in xs)`
abbrev pub all_objects : Items → Bool
all_objects nil = true
all_objects (cons (object _) xs) = all_objects xs
all_objects (cons _ xs) = false

-- `tuple(item for item in xs if isinstance(item, str))`
abbrev pub texts_of : Items → List String
texts_of nil = []
texts_of (cons (text s) xs) = s ∷ texts_of xs
texts_of (cons _ xs) = texts_of xs
