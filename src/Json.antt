-- ===== src/Json.antt =====
-- Values of encoding/json: what Unmarshal into `any` makes of a text, with numbers as their literals. An
-- object is a map; its keys are looked up, replaced and deleted. The codec itself is a parameter.
use byos.Prelude.{
  ℕ, ◌≡◌, ◌≢◌, refl, String, Bool, Option, none, some, List, [], ◌∷◌, str_eq, str_eq_refl, eq_iff,
  if◌then◌else◌, arith,
}

mutual
  pub data Json : Type 0 where
    null : Json
    boolean : Bool → Json
    number text : String → Json
    array : Items → Json
    object : Fields → Json

  pub data Items : Type 0 where
    end : Items
    item : Json → Items → Items

  pub data Fields : Type 0 where
    empty : Fields
    field : String → Json → Fields → Fields

unfoldable pub to_list : Items → List Json
to_list end = []
to_list (item j rest) = j ∷ to_list rest

unfoldable pub of_list : List Json → Items
of_list [] = end
of_list (j ∷ js) = item j (of_list js)

pub to_list-of_list : (js : List Json) → to_list (of_list js) ≡ js
unfolding to_list of_list
to_list-of_list [] = refl
to_list-of_list (j ∷ js) = rw (to_list-of_list js) refl

unfoldable pub get_field : String → Fields → Option Json
get_field k empty = none
get_field k (field j v rest) = if str_eq j k then some v else get_field k rest

unfoldable pub set_field : String → Json → Fields → Fields
set_field k v empty = field k v empty
set_field k v (field j w rest) =
    let more = set_field k v rest in if str_eq j k then field j v rest else field j w more

unfoldable pub delete_field : String → Fields → Fields
delete_field k empty = empty
delete_field k (field j v rest) =
    let more = delete_field k rest in if str_eq j k then more else field j v more

pub get_field-set_field :
    (k : String) (v : Json) (fs : Fields) → get_field k (set_field k v fs) ≡ some v
unfolding get_field set_field
get_field-set_field k v empty = ground (arith, str_eq_refl k)
get_field-set_field k v (field j w rest) = ground (arith, get_field-set_field k v rest)

pub get_field-set_field_other :
    (k j : String) (v : Json) (fs : Fields)
    → k ≢ j
    → get_field j (set_field k v fs) ≡ get_field j fs
unfolding get_field set_field
get_field-set_field_other k j v empty h = ground (arith, eq_iff k j)
get_field-set_field_other k j v (field i w rest) h =
    ground (arith, eq_iff k j, eq_iff i k, eq_iff i j, get_field-set_field_other k j v rest)

pub get_field-delete_field : (k : String) (fs : Fields) → get_field k (delete_field k fs) ≡ none
unfolding get_field delete_field
get_field-delete_field k empty = refl
get_field-delete_field k (field j v rest) = ground (arith, get_field-delete_field k rest)

pub get_field-delete_field_other :
    (k j : String) (fs : Fields) → k ≢ j → get_field j (delete_field k fs) ≡ get_field j fs
unfolding get_field delete_field
get_field-delete_field_other k j empty h = refl
get_field-delete_field_other k j (field i w rest) h =
    ground (arith, eq_iff i k, eq_iff i j, get_field-delete_field_other k j rest)

-- `text, _ := fields[key].(string)`.
abbrev pub as_text : Option Json → String
as_text (some (text s)) = s
as_text _ = ""

-- json.Unmarshal and json.Marshal, and the length of a text in bytes.
pub record Codec : Type 0 where
  pub unmarshal : String → Option Json
  pub marshal : Json → String
  pub bytes : String → ℕ
