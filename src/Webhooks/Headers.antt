-- ===== src/Webhooks/Headers.antt =====
-- The headers of a request (companydata/webhooks.go: header, lookup, asHeaderMap).
use company_data_go.Prelude.{String, Option, none, some, List, [], ◌∷◌, eqb, if◌then◌else◌}
use company_data_go.Config.Build.{to_lower}

-- A map from names to values, in the order in which Go's `range` visits it.
abbrev pub HeaderMap : Type 0
HeaderMap = List (String × List String)

-- The types of headers that a caller may pass.
pub data Headers : Type 0 where
  http_header : HeaderMap → Headers
  many : HeaderMap → Headers
  single : List (String × String) → Headers
  unknown : Headers

abbrev pub each_alone : List (String × String) → HeaderMap
each_alone [] = []
each_alone ((k, v) ∷ h) = (k, v ∷ []) ∷ each_alone h

abbrev pub as_header_map : Headers → HeaderMap
as_header_map (http_header h) = h
as_header_map (many h) = h
as_header_map (single h) = each_alone h
as_header_map unknown = []

abbrev pub first_value : List String → String
first_value [] = ""
first_value (v ∷ vs) = v

-- `none` is a name that is absent.
unfoldable pub lookup : HeaderMap → String → Option String
lookup [] name = none
lookup ((k, v) ∷ h) name =
    if eqb (to_lower k) (to_lower name) then some (first_value v) else lookup h name

abbrev pub value_or_empty : Option String → String
value_or_empty none = ""
value_or_empty (some v) = v

unfoldable pub header : HeaderMap → String → String
unfolding lookup
header h name = value_or_empty (lookup h name)
