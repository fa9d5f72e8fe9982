-- ===== src/Prelude/Json.antt =====
-- Values that `json.loads` gives, and a look-up in an object.
use mathlib.Core.Bool.{Bool, true, false}
use solo_lmnp.Prelude.{if◌then◌else◌}
use solo_lmnp.Prelude.Text.{Text, same_text}

-- A number keeps its digits. The keys of an object are all different.
mutual
  pub data Json : Type 0 where
    null : Json
    bool : Bool → Json
    number : Text → Json
    text : Text → Json
    array : Items → Json
    object : Members → Json

  pub data Items : Type 0 where
    no_items : Items
    item : Json → Items → Items

  pub data Members : Type 0 where
    no_members : Members
    member : Text → Json → Members → Members

-- `d.get(key)`: a missing key reads as `None`, the value of JSON's null.
abbrev pub get : Members → Text → Json
get no_members key = null
get (member k v rest) key = if same_text k key then v else get rest key

-- `isinstance(v, str)` and a test on the text.
abbrev pub is_text : (Text → Bool) → Json → Bool
is_text p null = false
is_text p (bool b) = false
is_text p (number n) = false
is_text p (text t) = p t
is_text p (array l) = false
is_text p (object m) = false

-- `isinstance(v, dict)` and a test on the dictionary.
abbrev pub is_object : (Members → Bool) → Json → Bool
is_object p null = false
is_object p (bool b) = false
is_object p (number n) = false
is_object p (text t) = false
is_object p (array l) = false
is_object p (object m) = p m

-- `isinstance(v, list) and v`, and a test on every item.
abbrev pub all_items : (Json → Bool) → Items → Bool
all_items p no_items = true
all_items p (item v rest) = elim (p v) [ true ↦ all_items p rest | false ↦ false ]

abbrev pub is_filled_list : (Json → Bool) → Json → Bool
is_filled_list p null = false
is_filled_list p (bool b) = false
is_filled_list p (number n) = false
is_filled_list p (text t) = false
is_filled_list p (array no_items) = false
is_filled_list p (array (item v rest)) = all_items p (item v rest)
is_filled_list p (object m) = false

-- `v is True`
abbrev pub is_true : Json → Bool
is_true null = false
is_true (bool b) = b
is_true (number n) = false
is_true (text t) = false
is_true (array l) = false
is_true (object m) = false
