-- ===== src/Artifacts/Json.antt =====
-- JSON values as `json.loads` gives them, and the parts of Python that artifacts/manifest.py uses on
-- them. A number is its literal; an object's keys are distinct.
use voxedge.Base.{ℕ, Bool, true, false, not, Option, is_empty, if◌then◌else◌}
use voxedge.Text.Strip.{Text}
use voxedge.Text.Equality.{same_text}

mutual
  pub data Json : Type 0 where
    null : Json
    bool : Bool → Json
    number : Text → Json
    string : Text → Json
    list : Items → Json
    object : Fields → Json

  pub data Items : Type 0 where
    nil : Items
    cons : Json → Items → Items

  pub data Fields : Type 0 where
    end : Fields
    field : Text → Json → Fields → Fields

-- `str` on values that are not strings, the values of number literals, `dict` on values that are not
-- dicts, where `none` is an exception, and `str.isspace`.
pub record Python : Type 0 where
  pub render : Json → Text
  pub is_zero : Text → Bool
  pub is_one : Text → Bool
  pub as_dict : Json → Option Fields
  pub blank : ℕ → Bool

-- `raw.get(key)`, with the default
abbrev pub get_or : Json → Text → Fields → Json
get_or d key end = d
get_or d key (field k v fs) = if same_text k key then v else get_or d key fs

module _ (py : Python) where
  abbrev pub text_of : Json → Text
  text_of (string s) = s
  text_of v = py.render v

  -- What a condition makes of a value.
  abbrev pub is_true : Json → Bool
  is_true null = false
  is_true (bool b) = b
  is_true (number n) = not (py.is_zero n)
  is_true (string s) = not (is_empty s)
  is_true (list nil) = false
  is_true (list (cons v vs)) = true
  is_true (object end) = false
  is_true (object (field k v fs)) = true

  -- `v or d`
  abbrev pub value_or : Json → Json → Json
  value_or v d = if is_true v then v else d

  -- `v == 1`
  abbrev pub equals_one : Json → Bool
  equals_one (bool b) = b
  equals_one (number n) = py.is_one n
  equals_one v = false
