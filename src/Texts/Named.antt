-- ===== src/Texts/Named.antt =====
-- Which tags are named (companydata/flowtext.go: FlowTextTags, NonOwnerPartyTags).
use company_data_go.Prelude.{
  ℕ, zero, suc, ◌≡◌, refl, ◌⊎◌, inl, inr, String, Bool, true, false, Bool-cases, not, ◌&&◌, Option,
  none, some, List, [], ◌∷◌, ◌++◌, codes, str_eq, eq_iff, eq_refl, if◌then◌else◌, arith,
}
use company_data_go.Json.{Items, Fields, get, text_or_empty}
use company_data_go.FieldTypes.Registry.{contains_string}
use company_data_go.Constants.Plugins.{list_in}
use company_data_go.Plugins.Elements.{Placed, each_element}
use company_data_go.Plugins.Privacy.{base_of}
use company_data_go.Keys.{Distinct, Distinct-append}
use company_data_go.Texts.Tags.{
  Move, tag, address, next, move, add_tag, after_move, scan, strip_html, flow_text_tags,
}
use company_data_go.Texts.Parties.{
  PartyTag, tags_of, body_of, is_known, is_owner, type_of, is_non_owner, add_if, add_behind,
  add_tags, add_texts, non_owner_party_tags,
}

known_other : (a b : Bool) → (a && not b) ≡ true → (a ≡ true) × (b ≡ false)
known_other true false h = (refl, refl)
known_other true true h = cc
known_other false b h = cc

add_tag-Distinct : (k : String) (out : List String) → Distinct out → Distinct (add_tag k out)
add_tag-Distinct k out d = elim (Bool-cases (contains_string out k)) [
  | inl e ↦ rw e d
  | inr e ↦ rw e (Distinct-append out k d e)
]

after_move-Distinct :
    (m : Move) (b : Bool) (out : List String) (rest : ℕ → Bool → List String → List String)
    → ((n : ℕ) (c : Bool) (o : List String) → Distinct o → Distinct (rest n c o))
    → Distinct out
    → Distinct (after_move m b out rest)
after_move-Distinct (tag k n) b out rest h d = h n b (add_tag k out) (add_tag-Distinct k out d)
after_move-Distinct (address c n) b out rest h d = h n c out d
after_move-Distinct (next n) b out rest h d = h n b out d

scan-Distinct :
    (skip : ℕ) (b : Bool) (out : List String) (s : List ℕ)
    → Distinct out
    → Distinct (scan skip b out s)
unfolding scan
scan-Distinct skip b out [] d = d
scan-Distinct (suc n) b out (c ∷ cs) d = scan-Distinct n b out cs d
scan-Distinct zero b out (c ∷ cs) d =
    after_move-Distinct (move b c cs) b out (λ n a o. scan n a o cs)
      (λ n a o e. scan-Distinct n a o cs e) d

-- A text names no tag twice.
flow_text_tags-Distinct : (body : String) → Distinct (flow_text_tags body)
unfolding flow_text_tags
flow_text_tags-Distinct body = scan-Distinct 0 false [] (strip_html 0 (codes body)) tt

-- ── the tags of parties ──

abbrev pub IsIn : Placed → List Placed → Type 0
IsIn p [] = ⊥
IsIn p (x ∷ xs) = (x ≡ p) ⊎ IsIn p xs

module _ (to_lower : String → String) (parties : Items) (all : List Placed) where
  -- The party of the tag is known and not the owner, and a text element names the tag.
  abbrev pub IsNamed : PartyTag → Type 0
  IsNamed t =
      (is_known to_lower parties t.party ≡ true)
      × (is_owner to_lower (type_of to_lower parties t.party) ≡ false)
      × (t.party ≡ base_of t.tag)
      × (p : Placed) × IsIn p all
      × (text_or_empty (get p.element "kind") ≡ "text")
      × (contains_string (flow_text_tags (body_of p.element)) t.tag ≡ true)

  abbrev pub AllNamed : List PartyTag → Type 0
  AllNamed [] = Unit
  AllNamed (t ∷ ts) = IsNamed t × AllNamed ts

  abbrev pub Good : List PartyTag → Type 0
  Good out = Distinct (tags_of out) × AllNamed out

  AllNamed-append :
      (out : List PartyTag) (t : PartyTag) → AllNamed out → IsNamed t → AllNamed (out ++ (t ∷ []))
  AllNamed-append [] t n p = (p, tt)
  AllNamed-append (x ∷ xs) t (q, n) p = (q, AllNamed-append xs t n p)

  tags_of-append :
      (out : List PartyTag) (t : PartyTag) → tags_of (out ++ (t ∷ [])) ≡ tags_of out ++ (t.tag ∷ [])
  tags_of-append [] t = refl
  tags_of-append (x ∷ xs) t = rw (tags_of-append xs t) refl

  add_if-Good :
      (a b : Bool) (t : PartyTag) (out : List PartyTag)
      → (a ≡ true → IsNamed t)
      → contains_string (tags_of out) t.tag ≡ b
      → Good out
      → Good (add_if to_lower parties (a && not b) t out)
  add_if-Good false b t out h e g = g
  add_if-Good true true t out h e g = g
  add_if-Good true false t out h e (d, n) = (
    rw (tags_of-append out t) (Distinct-append (tags_of out) t.tag d e),
    AllNamed-append out t n (h refl),
  )

  module _ (p : Placed) (m : IsIn p all) (k : text_or_empty (get p.element "kind") ≡ "text") where
    add_behind-Good :
        (t : String) (o : Option (List ℕ)) (out : List PartyTag)
        → contains_string (flow_text_tags (body_of p.element)) t ≡ true
        → Good out
        → Good (add_behind to_lower parties t o out)
    add_behind-Good t none out c g = g
    add_behind-Good t (some rest) out c g =
        add_if-Good (is_non_owner to_lower parties (base_of t)) (contains_string (tags_of out) t) _
          out (λ n. let (a, b) = known_other _ _ n in (a, b, refl, p, m, k, c)) refl g

    add_tags-Good :
        (tags : List String) (out : List PartyTag)
        → ((t : String)
            → contains_string tags t ≡ true
            → contains_string (flow_text_tags (body_of p.element)) t ≡ true)
        → Good out
        → Good (add_tags to_lower parties tags out)
    unfolding add_tags
    add_tags-Good [] out c g = g
    add_tags-Good (t ∷ tags) out c g =
        add_tags-Good tags _ (λ u h. c u (rw h (ground arith)))
          (add_behind-Good t _ out (c t (rw (eq_refl t) refl)) g)

  add_text-Good :
      (b : Bool) (p : Placed) (out : List PartyTag)
      → IsIn p all
      → str_eq (text_or_empty (get p.element "kind")) "text" ≡ b
      → Good out
      → Good (if b then add_tags to_lower parties (flow_text_tags (body_of p.element)) out else out)
  add_text-Good false p out m e g = g
  add_text-Good true p out m e g =
      add_tags-Good p m ((eq_iff _ "text").0 e) (flow_text_tags (body_of p.element)) out (λ t h. h)
        g

  add_texts-Good :
      (ps : List Placed) (out : List PartyTag)
      → ((p : Placed) → IsIn p ps → IsIn p all)
      → Good out
      → Good (add_texts to_lower parties ps out)
  unfolding add_texts
  add_texts-Good [] out i g = g
  add_texts-Good (p ∷ ps) out i g =
      add_texts-Good ps _ (λ q m. i q (inr m)) (add_text-Good _ p out (i p (inl refl)) refl g)

-- No tag occurs twice among the tags whose values a starter compiles; the party of each is known
-- and not the owner, and each is named by a text element.
pub non_owner_party_tags-Named :
    (to_lower : String → String) (definition : Fields)
    → Distinct (tags_of (non_owner_party_tags to_lower definition))
      × AllNamed to_lower
          (list_in (get definition "parties"))
          (each_element definition)
          (non_owner_party_tags to_lower definition)
unfolding non_owner_party_tags
non_owner_party_tags-Named to_lower definition =
    add_texts-Good to_lower (list_in (get definition "parties")) (each_element definition)
      (each_element definition) [] (λ p m. m) (tt, tt)
