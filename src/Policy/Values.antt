-- ===== src/Policy/Values.antt =====
-- Dicts of JSON values, and `_string_projection` (memory_router/policy.py).
use hindsight_memory_router.Common.{
  text_le, String, Option, none, some, List, [], ◌∷◌, ◌==◌, if◌then◌else◌,
}
use Prim.Native.String
use hindsight_memory_router.Json.{
  Json, Items, Fields, null, boolean, integer, real, string, array, object, nil, cons, end, field,
}

-- dict.get
unfoldable pub lookup_field : String → Fields → Option Json
lookup_field k end = none
lookup_field k (field n v fs) = let rest = lookup_field k fs in if n == k then some v else rest

-- d[k] = v
unfoldable pub put_field : String → Json → Fields → Fields
put_field k v end = field k v end
put_field k v (field n w fs) =
    let rest = put_field k v fs in if n == k then field n v fs else field n w rest

-- `d.get(k)`, where None is JSON's null
unfoldable pub or_null : Option Json → Json
or_null none = null
or_null (some v) = v

-- _string_projection
unfoldable mutual
  pub string_projection : Json → Json
  string_projection (string t) = string t
  string_projection (array xs) = array (projected_values xs)
  string_projection (object fs) = object (projected_entries fs)
  string_projection null = null
  string_projection (boolean b) = null
  string_projection (integer s n) = null
  string_projection (real finite t) = null

  pub projected_values : Items → Items
  projected_values nil = nil
  projected_values (cons x xs) = cons (string_projection x) (projected_values xs)

  pub projected_entries : Fields → Fields
  projected_entries end = end
  projected_entries (field k v fs) = field k (string_projection v) (projected_entries fs)

-- str(v), whose text for anything but a text is a parameter
abbrev pub text_of : (Json → String) → Json → String
text_of repr (string t) = t
text_of repr v = repr v

abbrev pub strings : List String → Items
strings [] = nil
strings (s ∷ ss) = cons (string s) (strings ss)

-- the text of an f-string
abbrev pub concat : List String → String
concat [] = ""
concat (s ∷ ss) = String.◌++◌ s (concat ss)

-- sorted(texts)
unfoldable pub insert_sorted : String → List String → List String
insert_sorted s [] = s ∷ []
insert_sorted s (t ∷ ts) =
    let rest = insert_sorted s ts in if text_le s t then s ∷ t ∷ ts else t ∷ rest

unfoldable pub sorted : List String → List String
sorted [] = []
sorted (s ∷ ss) = insert_sorted s (sorted ss)

-- sep.join(texts)
unfoldable pub joined : String → List String → String
joined sep [] = ""
joined sep (s ∷ []) = s
joined sep (s ∷ t ∷ ts) = concat (s ∷ sep ∷ joined sep (t ∷ ts) ∷ [])

-- d.update(e)
unfoldable pub update_fields : Fields → Fields → Fields
update_fields d end = d
update_fields d (field k v e) = update_fields (put_field k v d) e

-- None is JSON's null
abbrev pub optional_text : Option String → Json
optional_text none = null
optional_text (some t) = string t
