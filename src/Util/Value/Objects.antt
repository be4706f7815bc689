-- ===== src/Util/Value/Objects.antt =====
-- Laws of the objects of src/util.rs.
use risaml.Prelude.{String, some, ◌≡◌, refl, eq_iff, arith, ◌==◌, string_eq, if◌then◌else◌}
use risaml.Util.Value.{Value, Entries, object, end, entry, lookup, insert, insert_entry, get_key}

lookup-insert_entry :
    (key other : String) (v : Value) (es : Entries)
    → lookup other (insert_entry key v es) ≡ (if key == other then some v else lookup other es)
unfolding insert_entry
lookup-insert_entry key other v end = refl
lookup-insert_entry key other v (entry k w es) =
    ground
      (arith, eq_iff k key, eq_iff k other, eq_iff key other, lookup-insert_entry key other v es)

-- After `insert`, an object holds the value under its key, and under every other key what it held.
pub get_key-insert :
    (es : Entries) (key other : String) (v : Value)
    → get_key (insert (object es) key v) other
      ≡ (if key == other then some v else get_key (object es) other)
unfolding insert get_key
get_key-insert es key other v = lookup-insert_entry key other v es
