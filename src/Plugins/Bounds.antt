-- ===== src/Plugins/Bounds.antt =====
-- A value that passes the bounds of its field lies within them (companydata/plugin.go:
-- flowBoundError).
use company_data_go.Prelude.{
  ℕ, ◌≡◌, refl, String, Bool, true, false, ◌||◌, Option, none, some, if◌then◌else◌, arith,
}
use company_data_go.Json.{
  Value, null, boolean, number, float64, float32, int, int64, string, array, object, Fields, get,
}
use company_data_go.Floats.{float_lt}
use company_data_go.Flow.Scalars.{FloatText, flow_answered, flow_to_num}
use company_data_go.Constants.Expr.{FloatMath, eval_expr}
use company_data_go.Plugins.Elements.{FlowRun, field_element_for_slug}
use company_data_go.Plugins.Inputs.{
  BoundError, is_broken, limit_error, bound_error, first_error, flow_bound_error,
}

abbrev pub AtLeast : ℕ → Option ℕ → Type 0
AtLeast a none = Unit
AtLeast a (some l) = float_lt a l ≡ false

abbrev pub AtMost : ℕ → Option ℕ → Type 0
AtMost a none = Unit
AtMost a (some l) = float_lt l a ≡ false

module _ (text : FloatText) (math : FloatMath) (run : FlowRun) where
  unbroken : (b : Bool) (e : BoundError) → (if b then some e else none) ≡ none → b ≡ false
  unbroken true e h = cc
  unbroken false e h = refl

  limit_error-broken :
      (slug bound : String) (v limit : Value) (l : ℕ)
      → flow_to_num text limit ≡ some l
      → limit_error text math run slug bound v limit ≡ none
      → is_broken text math run bound v limit ≡ false
  unfolding flow_to_num
  limit_error-broken slug bound v null l n h = cc
  limit_error-broken slug bound v (boolean x) l q h =
      unbroken (is_broken text math run bound v (boolean x)) _ h
  limit_error-broken slug bound v (number t) l q h =
      unbroken (is_broken text math run bound v (number t)) _ h
  limit_error-broken slug bound v (float64 f) l q h =
      unbroken (is_broken text math run bound v (float64 f)) _ h
  limit_error-broken slug bound v (float32 f) l q h =
      unbroken (is_broken text math run bound v (float32 f)) _ h
  limit_error-broken slug bound v (int n) l q h =
      unbroken (is_broken text math run bound v (int n)) _ h
  limit_error-broken slug bound v (int64 n) l q h =
      unbroken (is_broken text math run bound v (int64 n)) _ h
  limit_error-broken slug bound v (string t) l q h =
      unbroken (is_broken text math run bound v (string t)) _ h
  limit_error-broken slug bound v (array xs) l q h =
      unbroken (is_broken text math run bound v (array xs)) _ h
  limit_error-broken slug bound v (object m) l q h =
      unbroken (is_broken text math run bound v (object m)) _ h

  bound_error-broken :
      (slug bound : String) (v : Value) (live : Fields) (e : Value) (l : ℕ)
      → flow_to_num text (eval_expr text math live run.reference_date e) ≡ some l
      → bound_error text math run slug bound v live (some e) ≡ none
      → is_broken text math run bound v (eval_expr text math live run.reference_date e) ≡ false
  unfolding flow_to_num eval_expr
  bound_error-broken slug bound v live null l n h = cc
  bound_error-broken slug bound v live (boolean x) l q h =
      limit_error-broken slug bound v (eval_expr text math live run.reference_date (boolean x)) l q
        h
  bound_error-broken slug bound v live (number t) l q h =
      limit_error-broken slug bound v (eval_expr text math live run.reference_date (number t)) l q h
  bound_error-broken slug bound v live (float64 f) l q h =
      limit_error-broken slug bound v (eval_expr text math live run.reference_date (float64 f)) l q
        h
  bound_error-broken slug bound v live (float32 f) l q h =
      limit_error-broken slug bound v (eval_expr text math live run.reference_date (float32 f)) l q
        h
  bound_error-broken slug bound v live (int n) l q h =
      limit_error-broken slug bound v (eval_expr text math live run.reference_date (int n)) l q h
  bound_error-broken slug bound v live (int64 n) l q h =
      limit_error-broken slug bound v (eval_expr text math live run.reference_date (int64 n)) l q h
  bound_error-broken slug bound v live (string t) l q h =
      limit_error-broken slug bound v (eval_expr text math live run.reference_date (string t)) l q h
  bound_error-broken slug bound v live (array xs) l q h =
      limit_error-broken slug bound v (eval_expr text math live run.reference_date (array xs)) l q h
  bound_error-broken slug bound v live (object m) l q h =
      limit_error-broken slug bound v (eval_expr text math live run.reference_date (object m)) l q h

  both_none :
      (a b : Option BoundError) → first_error text math run a b ≡ none → (a ≡ none) × (b ≡ none)
  both_none none b h = (refl, h)
  both_none (some e) b h = cc

  -- The number that a bound evaluates to, if it is there and comes to one.
  abbrev pub limit_of : Option Value → Fields → Option ℕ
  limit_of none live = none
  limit_of (some e) live = flow_to_num text (eval_expr text math live run.reference_date e)

  below :
      (a l : ℕ) (v limit : Value)
      → flow_to_num text v ≡ some a
      → flow_to_num text limit ≡ some l
      → is_broken text math run "min" v limit ≡ false
      → float_lt a l ≡ false
  below a l v limit num q h = let k = rw (num, q) at h in plain (float_lt a l) k
    where
      plain : (b : Bool) → (b || false) ≡ false → b ≡ false
      plain b h = ground arith

  above :
      (a l : ℕ) (v limit : Value)
      → flow_to_num text v ≡ some a
      → flow_to_num text limit ≡ some l
      → is_broken text math run "max" v limit ≡ false
      → float_lt l a ≡ false
  above a l v limit num q h = rw (num, q) at h

  module _ (slug : String) (v : Value) (live : Fields) (a : ℕ)
      (num : flow_to_num text v ≡ some a) where
    min-AtLeast :
        (o : Option Value)
        → bound_error text math run slug "min" v live o ≡ none
        → AtLeast a (limit_of o live)
    min-AtLeast none h = tt
    min-AtLeast (some e) h = go (limit_of (some e) live) refl
      where
        go : (l : Option ℕ) → limit_of (some e) live ≡ l → AtLeast a l
        go none q = tt
        go (some l) q = below a l v _ num q (bound_error-broken slug "min" v live e l q h)

    max-AtMost :
        (o : Option Value)
        → bound_error text math run slug "max" v live o ≡ none
        → AtMost a (limit_of o live)
    max-AtMost none h = tt
    max-AtMost (some e) h = go (limit_of (some e) live) refl
      where
        go : (l : Option ℕ) → limit_of (some e) live ≡ l → AtMost a l
        go none q = tt
        go (some l) q = above a l v _ num q (bound_error-broken slug "max" v live e l q h)

  -- A number that passes the bounds of its field is neither below the number that "min" comes to
  -- nor above the one that "max" comes to.
  pub flow_bound_error-Within :
      (slug : String) (v : Value) (live m : Fields) (a : ℕ)
      → field_element_for_slug run.definition slug ≡ some m
      → flow_answered v ≡ true
      → flow_to_num text v ≡ some a
      → flow_bound_error text math run slug v live ≡ none
      → AtLeast a (limit_of (get m "min") live) × AtMost a (limit_of (get m "max") live)
  unfolding flow_bound_error
  flow_bound_error-Within slug v live m a el an num h =
      let (low, high) =
        both_none (bound_error text math run slug "min" v live (get m "min"))
          (bound_error text math run slug "max" v live (get m "max")) (rw (el, an) at h) in
      (min-AtLeast slug v live a num _ low, max-AtMost slug v live a num _ high)
