-- ===== src/Util/Value.antt =====
-- src/util.rs: the dynamic `Value` that the field extraction yields, and its objects.
pub mod Objects
use risaml.Prelude.{
  String, Bool, true, false, Option, none, some, List, [], ◌∷◌, ◌++◌, ◌==◌, string_eq, contains,
  if◌then◌else◌,
}
use risaml.Prelude.Text.{split}

mutual
  pub data Value : Type 0 where
    null : Value
    str : String → Value
    array : Values → Value
    object : Entries → Value

  pub data Values : Type 0 where
    nil : Values
    cons : Value → Values → Values

  pub data Entries : Type 0 where
    end : Entries
    entry : String → Value → Entries → Entries

abbrev pub to_list : Values → List Value
to_list nil = []
to_list (cons v vs) = v ∷ to_list vs

abbrev pub of_list : List Value → Values
of_list [] = nil
of_list (v ∷ vs) = cons v (of_list vs)

abbrev pub array_of : List Value → Value
array_of vs = array (of_list vs)

abbrev pub of_pairs : List (String × Value) → Entries
of_pairs [] = end
of_pairs ((k, v) ∷ ps) = entry k v (of_pairs ps)

abbrev pub object_of : List (String × Value) → Value
object_of ps = object (of_pairs ps)

-- The first entry under a key.
abbrev pub lookup : String → Entries → Option Value
lookup key end = none
lookup key (entry k v es) = if k == key then some v else lookup key es

-- `Value::get`, behind the split of its path.
unfoldable pub get_path : List String → Value → Option Value
get_path [] v = some v
get_path (segment ∷ rest) (object es) = elim (lookup segment es) [
  | none ↦ none
  | some w ↦ get_path rest w
]
get_path (segment ∷ rest) _ = none

unfoldable pub get : Value → String → Option Value
unfolding get_path
get v path = get_path (split b'.' path) v

abbrev pub as_str : Value → Option String
as_str (str s) = some s
as_str _ = none

abbrev pub as_array : Value → Option (List Value)
as_array (array vs) = some (to_list vs)
as_array _ = none

abbrev pub is_null : Value → Bool
is_null null = true
is_null _ = false

abbrev pub str_of : Option Value → Option String
str_of none = none
str_of (some v) = as_str v

unfoldable pub get_str : Value → String → Option String
get_str v path = str_of (get v path)

unfoldable pub get_key : Value → String → Option Value
get_key (object es) key = lookup key es
get_key _ key = none

unfoldable pub insert_entry : String → Value → Entries → Entries
insert_entry key value end = entry key value end
insert_entry key value (entry k v es) =
    if k == key then entry k value es else entry k v (insert_entry key value es)

-- `Value::insert`, which leaves a value that is no object as it is.
unfoldable pub insert : Value → String → Value → Value
unfolding insert_entry
insert (object es) key value = object (insert_entry key value es)
insert v key value = v

abbrev pub append : Values → Value → Values
append nil v = cons v nil
append (cons w ws) v = cons w (append ws v)

-- What a second value under a key makes of the first.
abbrev pub merge : Value → Value → Value
merge (array vs) v = array (append vs v)
merge previous v = array (cons previous (cons v nil))

unfoldable pub add_entry : String → Value → Entries → Entries
add_entry key value end = entry key value end
add_entry key value (entry k v es) =
    if k == key then entry k (merge v value) es else entry k v (add_entry key value es)

-- The loop of `zip_object` over both lists, with the entries so far.
unfoldable pub zip_into : Bool → Entries → List String → List Value → Entries
unfolding insert_entry add_entry
zip_into skip_duplicated out (k ∷ ks) (v ∷ vs) =
    zip_into skip_duplicated (if skip_duplicated then insert_entry k v out else add_entry k v out)
      ks vs
zip_into skip_duplicated out _ _ = out

unfoldable pub zip_object : List String → List Value → Bool → Value
unfolding zip_into
zip_object keys values skip_duplicated = object (zip_into skip_duplicated end keys values)

abbrev uniq_from : List String → List String → List String
uniq_from seen [] = seen
uniq_from seen (s ∷ ss) = uniq_from (if contains seen s then seen else seen ++ s ∷ []) ss

unfoldable pub uniq : List String → List String
uniq items = uniq_from [] items
