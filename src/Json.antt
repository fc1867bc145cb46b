-- ===== src/Json.antt =====
-- The values of the JSON columns (`dict[str, Any]`, `list[str]`) and of the tools' arguments and
-- results. A number is kept as its literal. Python's truth of a value, and look-up in an object.
use calling_agent.Prelude.{
  String, Bool, true, false, Option, none, some, str_eq, truthy, if◌then◌else◌,
}

mutual
  pub data Json : Type 0 where
    null : Json
    bool : Bool → Json
    number : String → Json
    text : String → Json
    array : Items → Json
    object : Fields → Json

  pub data Items : Type 0 where
    nil : Items
    cons : Json → Items → Items

  pub data Fields : Type 0 where
    end : Fields
    field : String → Json → Fields → Fields

-- `d.get(key)`
abbrev pub get : String → Fields → Option Json
get key end = none
get key (field k v rest) = if str_eq k key then some v else get key rest

-- `d[key] = value`, which keeps the place of a key that is there.
abbrev pub put : String → Json → Fields → Fields
put key value end = field key value end
put key value (field k v rest) =
    if str_eq k key then field k value rest else field k v (put key value rest)

-- `bool(value)`, for a number by its literal.
abbrev pub is_truthy : Json → Bool
is_truthy null = false
is_truthy (bool b) = b
is_truthy (number n) = if str_eq n "0" then false else true
is_truthy (text s) = truthy s
is_truthy (array nil) = false
is_truthy (array (cons v vs)) = true
is_truthy (object end) = false
is_truthy (object (field k v rest)) = true

-- `bool(d.get(key))`, and `bool(d.get(key, False))`.
abbrev pub flag : String → Fields → Bool
flag key d = elim (get key d) [ none ↦ false | some v ↦ is_truthy v ]
