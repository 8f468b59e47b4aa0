-- ===== src/Persistence/Json.antt =====
-- The dict and list operations that the program uses on JSON values.
use agentic_cartoon_demo.Base.{
  ℕ, Bool, true, false, not, String, List, [], ◌∷◌, Option, none, some, if◌then◌else◌, eqb, ◌=str=◌,
}
use agentic_cartoon_demo.Persistence.Types.{JsonValue, JsonItems, JsonFields}

-- `d.get(name)`; a dict that is built here has no name twice.
unfoldable pub get_field : String → JsonFields → Option JsonValue
get_field name JsonFields.end = none
get_field name (JsonFields.field n v rest) = if n =str= name then some v else get_field name rest

-- `d[name] = v`: in the place of the old value, or at the end.
unfoldable pub set_field : String → JsonValue → JsonFields → JsonFields
set_field name v JsonFields.end = JsonFields.field name v JsonFields.end
set_field name v (JsonFields.field n w rest) =
    let later = JsonFields.field n w (set_field name v rest) in
    if n =str= name then JsonFields.field n v rest else later

abbrev pub fields : List (String × JsonValue) → JsonFields
fields [] = JsonFields.end
fields ((name, v) ∷ rest) = JsonFields.field name v (fields rest)

abbrev pub dict_of : List (String × JsonValue) → JsonValue
dict_of entries = JsonValue.dict (fields entries)

-- `[f(x) for x in xs]`
abbrev pub items {ℓ} : {A : Type ℓ} → (A → JsonValue) → List A → JsonItems
items f [] = JsonItems.nil
items f (x ∷ xs) = JsonItems.item (f x) (items f xs)

abbrev pub list_of {ℓ} : {A : Type ℓ} → (A → JsonValue) → List A → JsonValue
list_of f xs = JsonValue.array (items f xs)

-- A value that may be None.
abbrev pub str_or_null : Option String → JsonValue
str_or_null none = JsonValue.null
str_or_null (some s) = JsonValue.str s

abbrev pub int_or_null : Option ℕ → JsonValue
int_or_null none = JsonValue.null
int_or_null (some n) = JsonValue.int n

-- `bool(v)`
abbrev pub is_truthy : JsonValue → Bool
is_truthy JsonValue.null = false
is_truthy (JsonValue.bool b) = b
is_truthy (JsonValue.int n) = not (eqb n 0)
is_truthy (JsonValue.str s) = not (s =str= "")
is_truthy (JsonValue.array JsonItems.nil) = false
is_truthy (JsonValue.array (JsonItems.item _ _)) = true
is_truthy (JsonValue.dict JsonFields.end) = false
is_truthy (JsonValue.dict (JsonFields.field _ _ _)) = true

-- `d.get(name) or default`
abbrev pub field_or : Option JsonValue → JsonValue → JsonValue
field_or none d = d
field_or (some v) d = if is_truthy v then v else d

-- `d.get(name) == text`
abbrev pub is_text : Option JsonValue → String → Bool
is_text (some (JsonValue.str s)) t = s =str= t
is_text _ t = false
