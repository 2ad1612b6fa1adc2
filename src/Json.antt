-- ===== src/Json.antt =====
-- The dynamic values of the Go code (`any`): what encoding/json decodes, and the numbers that a
-- caller may put into such a value.
use company_data_go.Prelude.{
  ℕ, String, ◌≡◌, refl, Bool, Option, none, some, List, arith, ℤ, str_eq, eq_iff, if◌then◌else◌,
}

-- `number` is a json.Number, the code points of a number's text; floats are IEEE bit patterns.
mutual
  pub data Value : Type 0 where
    null : Value
    boolean : Bool → Value
    number : List ℕ → Value
    float64 : ℕ → Value
    float32 : ℕ → Value
    int : ℤ → Value
    int64 : ℤ → Value
    string : String → Value
    array : Items → Value
    object : Fields → Value

  pub data Items : Type 0 where
    nil : Items
    cons : Value → Items → Items

  pub data Fields : Type 0 where
    end : Fields
    field : String → Value → Fields → Fields

-- `m[k]` with its second result.
abbrev pub get : Fields → String → Option Value
get end k = none
get (field j v m) k = if str_eq j k then some v else get m k

-- `m[k] = v`.
unfoldable pub put : Fields → String → Value → Fields
put end k v = field k v end
put (field j w m) k v = if str_eq j k then field k v m else field j w (put m k v)

-- The copy of a map with every key but one.
unfoldable pub without : Fields → String → Fields
without end k = end
without (field j v m) k = let rest = without m k in if str_eq j k then rest else field j v rest

pub get-put :
    (m : Fields) (k j : String) (v : Value)
    → get (put m k v) j ≡ (if str_eq k j then some v else get m j)
unfolding put
get-put end k j v = refl
get-put (field i w m) k j v = ground (arith, eq_iff k j, eq_iff i k, eq_iff i j, get-put m k j v)

pub get-without :
    (m : Fields) (k j : String) → get (without m k) j ≡ (if str_eq k j then none else get m j)
unfolding without
get-without end k j = ground arith
get-without (field i w m) k j =
    ground (arith, eq_iff k j, eq_iff i k, eq_iff i j, get-without m k j)

-- `v, _ := m[k].(string)`: the text under a key, or "".
abbrev pub text_or_empty : Option Value → String
text_or_empty none = ""
text_or_empty (some (string s)) = s
text_or_empty (some _) = ""
