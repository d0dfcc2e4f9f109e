-- ===== src/Value.antt =====
-- The values of unknown type that the program inspects by `typeof`, `instanceof` and `in`: fields
-- of database documents and event payloads.
use driveparts_websockets.Prelude.{
  ℕ, Bool, String, Option, none, some, List, [], ◌∷◌, ◌==◌, if◌then◌else◌, trim,
}

mutual
  pub data Value : Type 0 where
    undefined null : Value
    boolean : Bool → Value
    -- A number that is a non-negative integer.
    integer : ℕ → Value
    -- Any other number: negative, with a fraction, or not finite.
    other_number : Value
    string : String → Value
    -- A Date by its milliseconds; `none` is an invalid Date.
    date : Option ℕ → Value
    -- A BSON ObjectId by its hexadecimal digits.
    object_id : String → Value
    array : Items → Value
    object : Fields → Value

  pub data Items : Type 0 where
    nil : Items
    cons : Value → Items → Items

  pub data Fields : Type 0 where
    end : Fields
    field : String → Value → Fields → Fields

-- `value.key`: undefined where the record has no such key.
unfoldable pub get_field : String → Fields → Value
get_field key end = undefined
get_field key (field k v fs) = if k == key then v else get_field key fs

abbrev fields_of : List (String × Value) → Fields
fields_of [] = end
fields_of ((k, v) ∷ fs) = field k v (fields_of fs)

-- `normalized_string`: the trimmed text, if it is a text with something in it.
unfoldable pub normalized_string : Value → Option String
unfolding trim
normalized_string (string s) =
    let normalized = trim s in if normalized == "" then none else some normalized
normalized_string _ = none
