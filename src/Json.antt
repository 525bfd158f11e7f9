-- ===== src/Json.antt =====
-- Parsed JSON documents: what `json.loads` returns and `json.dumps` takes. A float is
-- kept as its literal, and with whether `is_integer()` holds for it.
use wotpy.Prelude.{ℕ, String, Bool, true, false, Option, none, some, ◌==◌, string_eq, if◌then◌else◌}

-- `negsuc n` is -(n + 1).
pub data ℤ : Type 0 where
  pos negsuc : ℕ → ℤ

mutual
  pub data Json : Type 0 where
    null : Json
    bool : Bool → Json
    integer : ℤ → Json
    real : (literal : String) (is_integral : Bool) → Json
    str : String → Json
    arr : Items → Json
    obj : Fields → Json

  pub data Items : Type 0 where
    nil : Items
    cons : Json → Items → Items

  pub data Fields : Type 0 where
    end : Fields
    field : String → Json → Fields → Fields

-- `d.get(key)` of an object
abbrev pub get_field : String → Fields → Option Json
get_field key end = none
get_field key (field k v fs) = if k == key then some v else get_field key fs

abbrev pub fields_of : Json → Fields
fields_of (obj fs) = fs
fields_of _ = end

-- The keywords of JSON Schema that the schemas of the source use. `properties` constrains a field
-- only where it is there; `required` wants it there.
abbrev pub is_object : Json → Bool
is_object (obj fs) = true
is_object _ = false

abbrev pub is_string : Json → Bool
is_string (str s) = true
is_string _ = false

abbrev pub is_integer : Json → Bool
is_integer (integer n) = true
is_integer (real s is_integral) = is_integral
is_integer _ = false

abbrev pub is_container : Json → Bool
is_container (obj fs) = true
is_container (arr xs) = true
is_container _ = false

abbrev pub if_there : (Json → Bool) → Option Json → Bool
if_there p none = true
if_there p (some v) = p v

abbrev pub is_there : Option Json → Bool
is_there none = false
is_there (some v) = true
