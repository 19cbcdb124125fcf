-- ===== src/Api/Library.antt =====
-- The pure calls of Go's standard library that the modelled code makes: `encoding/json`,
-- `path/filepath`, `sort`, `fmt` and `crypto/sha256`.
use kubeopencode.Prelude.{String, Bool, List, [], ◌∷◌}
use kubeopencode.Prelude.Text.{Dict}
use kubeopencode.Api.Errors.{Result}

-- A decoded JSON value, an `interface{}`. A number is its text.
mutual
  pub data Json : Type 0 where
    null : Json
    bool : Bool → Json
    num : String → Json
    str : String → Json
    arr : Items → Json
    obj : Fields → Json

  pub data Items : Type 0 where
    no_items : Items
    item : Json → Items → Items

  pub data Fields : Type 0 where
    no_fields : Fields
    field : String → Json → Fields → Fields

-- `[]interface{}` and `map[string]interface{}`, as lists.
abbrev pub elements : Items → List Json
elements Items.no_items = []
elements (Items.item x xs) = x ∷ elements xs

abbrev pub array : List Json → Items
array [] = Items.no_items
array (x ∷ xs) = Items.item x (array xs)

abbrev pub members : Fields → Dict Json
members Fields.no_fields = []
members (Fields.field k x xs) = (k, x) ∷ members xs

abbrev pub object : Dict Json → Fields
object [] = Fields.no_fields
object ((k, x) ∷ xs) = Fields.field k x (object xs)

-- `parse` and `parse_object` are `json.Unmarshal` into an `interface{}` and into a
-- `map[string]interface{}` (the API's decoding leaves no `null` in a `RawExtension`, so the map is
-- never nil), `print_object` is `json.Marshal` of such a map, `join` is `filepath.Join`,
-- `sort_strings` is `sort.Strings`, `quote` is `%q`, `digest` is the hexadecimal SHA-256 of the
-- concatenated pieces, cut to 16 characters.
pub record Library : Type 0 where
  pub parse : String → Result Json
  pub parse_object : String → Result (Dict Json)
  pub print_object : Dict Json → Result String
  pub join : List String → String
  pub sort_strings : List String → List String
  pub quote : String → String
  pub digest : List String → String
