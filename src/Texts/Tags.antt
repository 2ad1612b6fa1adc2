-- ===== src/Texts/Tags.antt =====
-- The tags that a text names (companydata/flowtext.go: FlowTextTags, flowTextAddressCloses, and its
-- regular expressions). A position in the text is the rest of the text from there, with the number
-- of characters that are still to be passed over.
use company_data_go.Prelude.{
  ℕ, zero, suc, ◌+◌, ◌-◌, String, Bool, true, false, ◌&&◌, ◌||◌, Option, none, some, List, [], ◌∷◌,
  ◌++◌, length, codes, of_codes, ◌==◌, leb, if◌then◌else◌,
}
use company_data_go.FieldTypes.Registry.{contains_string}

abbrev is_ascii_letter : ℕ → Bool
is_ascii_letter c = (leb b'A' c && leb c b'Z') || (leb b'a' c && leb c b'z')

-- What is left behind the '>' of an HTML tag.
abbrev tag_rest : List ℕ → Option (List ℕ)
tag_rest [] = none
tag_rest (c ∷ cs) =
    let rest = tag_rest cs in if c == b'>' then some cs else if c == b'<' then none else rest

abbrev named_rest : List ℕ → Option (List ℕ)
named_rest [] = none
named_rest (c ∷ cs) = if is_ascii_letter c then tag_rest cs else none

abbrev html_rest : List ℕ → Option (List ℕ)
html_rest [] = none
html_rest (c ∷ cs) = if c == b'/' then named_rest cs else named_rest (c ∷ cs)

-- The characters from the first text up to the rest of it.
abbrev passed : List ℕ → List ℕ → ℕ
passed s rest = length s - length rest

-- The HTML tag behind a character: how many more characters it has.
abbrev html_tag : ℕ → List ℕ → Option ℕ
html_tag c cs = if c == b'<' then size (html_rest cs) else none
  where
    size : Option (List ℕ) → Option ℕ
    size none = none
    size (some rest) = some (passed cs rest)

abbrev kept_or : ℕ → Option ℕ → (ℕ → List ℕ) → List ℕ
kept_or c none rest = c ∷ rest 0
kept_or c (some n) rest = rest n

-- `flowTextHTMLTag.ReplaceAllString(s, "")`.
unfoldable pub strip_html : ℕ → List ℕ → List ℕ
strip_html skip [] = []
strip_html (suc n) (c ∷ cs) = strip_html n cs
strip_html zero (c ∷ cs) = kept_or c (html_tag c cs) (λ n. strip_html n cs)

abbrev is_escapable : ℕ → Bool
is_escapable c = c == b'[' || c == b']' || c == b'{' || c == b'\\'

-- The character is a backslash that escapes the next one.
abbrev escapes : ℕ → List ℕ → Bool
escapes c [] = false
escapes c (d ∷ ds) = c == b'\\' && is_escapable d

unfoldable pub address_closes : ℕ → List ℕ → Bool
address_closes skip [] = false
address_closes (suc n) (c ∷ cs) = address_closes n cs
address_closes zero (c ∷ cs) =
    let behind = address_closes 1 cs in
    let next = address_closes 0 cs in
    if escapes c cs then behind else if c == b']' then true else next

-- ── the tag at a position ──

-- `(?i)[a-z]` also takes the long s and the Kelvin sign, which fold to letters.
abbrev is_letter : ℕ → Bool
is_letter c = is_ascii_letter c || c == 383 || c == 8490

abbrev is_word : ℕ → Bool
is_word c = is_letter c || (leb b'0' c && leb c b'9') || c == b'_'

-- strings.ToLower on these characters.
abbrev lower : ℕ → ℕ
lower c = if leb b'A' c && leb c b'Z' then c + 32 else if c == 8490 then b'k' else c

abbrev lowered : List ℕ → List ℕ
lowered [] = []
lowered (c ∷ cs) = lower c ∷ lowered cs

abbrev is_space : ℕ → Bool
is_space c = c == 9 || c == 10 || c == 12 || c == 13 || c == 32

abbrev drop_spaces : List ℕ → List ℕ
drop_spaces [] = []
drop_spaces (c ∷ cs) = let rest = drop_spaces cs in if is_space c then rest else c ∷ cs

abbrev prefixed : ℕ → List ℕ × List ℕ → List ℕ × List ℕ
prefixed c (ws, rest) = (c ∷ ws, rest)

abbrev word : List ℕ → List ℕ × List ℕ
word [] = ([], [])
word (c ∷ cs) = let rest = word cs in if is_word c then prefixed c rest else ([], c ∷ cs)

abbrev segment : List ℕ → Option (List ℕ × List ℕ)
segment [] = none
segment (c ∷ cs) = if is_letter c then some (prefixed c (word cs)) else none

abbrev joined_by_dot : List ℕ → List ℕ × List ℕ → List ℕ × List ℕ
joined_by_dot key (ws, rest) = (key ++ (b'.' ∷ ws), rest)

-- At most one more segment behind a dot.
abbrev more : List ℕ × List ℕ → List ℕ × List ℕ
more (key, []) = (key, [])
more (key, c ∷ cs) = if c == b'.' then take (segment cs) else (key, c ∷ cs)
  where
    take : Option (List ℕ × List ℕ) → List ℕ × List ℕ
    take none = (key, c ∷ cs)
    take (some s) = joined_by_dot key s

abbrev closed : List ℕ × List ℕ → Option (List ℕ × List ℕ)
closed (key, rest) = braces (drop_spaces rest)
  where
    braces : List ℕ → Option (List ℕ × List ℕ)
    braces (c ∷ d ∷ r) = if c == b'}' && d == b'}' then some (key, r) else none
    braces _ = none

abbrev key_at : Option (List ℕ × List ℕ) → Option (List ℕ × List ℕ)
key_at none = none
key_at (some s) = closed (more (more s))

-- The key of the tag and the text behind it.
unfoldable pub tag_at : List ℕ → Option (List ℕ × List ℕ)
tag_at (c ∷ d ∷ r) = if c == b'{' && d == b'{' then key_at (segment (drop_spaces r)) else none
tag_at _ = none

-- ── the loop ──

abbrev pub address_rest : List ℕ → List ℕ → Option (List ℕ)
address_rest [] s = some s
address_rest (p ∷ ps) [] = none
address_rest (p ∷ ps) (c ∷ cs) = if lower c == p then address_rest ps cs else none

-- What a position leads to: a tag, the end or the start of an address, or the next character; with
-- the number of characters behind this one that are passed over.
pub data Move : Type 0 where
  tag : String → ℕ → Move
  address : Bool → ℕ → Move
  next : ℕ → Move

abbrev at_address : Bool → ℕ → List ℕ → Move
at_address true c cs = if c == b']' then address false 0 else next 0
at_address false c cs = opened (address_rest (codes "[a href=") (c ∷ cs))
  where
    opened : Option (List ℕ) → Move
    opened none = next 0
    opened (some rest) = if address_closes 0 rest then address true 7 else next 0

abbrev tag_or : Option (List ℕ × List ℕ) → List ℕ → Move → Move
tag_or none cs otherwise = otherwise
tag_or (some (key, rest)) cs otherwise = tag (of_codes (lowered key)) (passed cs rest)

unfoldable pub move : Bool → ℕ → List ℕ → Move
unfolding tag_at address_closes
move in_address c cs =
    if escapes c cs then next 1 else tag_or (tag_at (c ∷ cs)) cs (at_address in_address c cs)

abbrev pub add_tag : String → List String → List String
add_tag k out = if contains_string out k then out else out ++ (k ∷ [])

abbrev pub after_move :
    Move → Bool → List String → (ℕ → Bool → List String → List String) → List String
after_move (tag k n) in_address out rest = rest n in_address (add_tag k out)
after_move (address b n) in_address out rest = rest n b out
after_move (next n) in_address out rest = rest n in_address out

unfoldable pub scan : ℕ → Bool → List String → List ℕ → List String
unfolding move
scan skip in_address out [] = out
scan (suc n) in_address out (c ∷ cs) = scan n in_address out cs
scan zero in_address out (c ∷ cs) =
    after_move (move in_address c cs) in_address out (λ n b o. scan n b o cs)

unfoldable pub flow_text_tags : String → List String
unfolding scan strip_html
flow_text_tags body = scan 0 false [] (strip_html 0 (codes body))
