-- ===== src/CatalogGen/Reached.antt =====
-- The values that frontend/src/lib/catalogGen.ts reaches from the definitions of a schema.
use vortex_flow.Common.{
  has, ℕ, String, true, false, Option, none, some, List, [], ◌∷◌, ◌≡◌, refl, sym, subst, In,
  at_head, later, All, if◌then◌else◌,
}
use vortex_flow.CatalogGen.Outcome.{Outcome, returns, throws, overflows}
use vortex_flow.CatalogGen.Json.{
  Json, undefined, string, NumberTests, field, prop, elements, entries, object_of, truthy, or_value,
  guarded,
}
use vortex_flow.CatalogGen.Nodes.{union_of, unwrap_option}
use vortex_flow.CatalogGen.Merging.{deref, merge_object, normalize}
use vortex_flow.CatalogGen.Fields.{iterated}
use vortex_flow.CatalogGen.Build.{
  iterated_or_nil, first_union, union_in, resolve_union, read_parts, Variant,
}
use vortex_flow.CatalogGen.Ensures.{
  Ensures, returned, threw, overflowed, Any, Ensures-if, Ensures-bind, Ensures-bind-Any,
}
use vortex_flow.CatalogGen.Calm.{deref-Calm, normalize-Calm, prop-Calm, iterated-Calm}
use vortex_flow.CatalogGen.Nested.{prop-field}

-- What is known of the values that an outcome may return.
pub Ensures-returns_eq :
    {A : Type 0} {P : A → Type 0} {Q : Type 0} (m : Outcome A)
    → Ensures Any Q m
    → ((a : A) → m ≡ returns a → P a)
    → Ensures P Q m
Ensures-returns_eq (returns a) (returned u) h = returned (h a refl)
Ensures-returns_eq throws threw h = threw
Ensures-returns_eq overflows (overflowed q) h = overflowed q

All-of_In : {A : Type 0} {P : A → Type 0} (xs : List A) → ((x : A) → In x xs → P x) → All P xs
All-of_In [] h = tt
All-of_In (x ∷ xs) h = (h x (at_head refl), All-of_In xs (λ y at. h y (later at)))

-- The two definitions from which the catalog starts.
abbrev pub outer_refs : List String
outer_refs =
    "vector::config::source::SourceOuter" ∷ "vector::config::sink::SinkOuter<alloc::string::String>"
    ∷ []

module _ {N : Type 0} (js : NumberTests N) (defs : Json N) (stack : ℕ) where
  -- A value is reached from the definitions by reading fields, elements and entries, by running through it, by following a
  -- reference that was read or that the code names, and by what `deref`, `unwrapOption`, `normalize` and
  -- `mergeObject` make of a value that is reached.
  pub data Reached : Json N → Type 0 where
    the_definitions : Reached defs
    an_outer_ref : (ref : String) → has outer_refs ref ≡ true → Reached (string ref)
    a_round :
        {v w : Json N} {vs : List (Json N)}
        → Reached v
        → iterated v ≡ returns vs
        → In w vs
        → Reached w
    no_value : Reached undefined
    a_reference : {ref : Json N} → Reached ref → Reached (object_of (("$ref", ref) ∷ []))
    a_field : (k : String) {v : Json N} → Reached v → Reached (field k v)
    an_element :
        {v w : Json N} {vs : List (Json N)} → Reached v → elements v ≡ some vs → In w vs → Reached w
    an_entry : {v : Json N} {e : String × Json N} → Reached v → In e (entries v) → Reached e.1
    as_derefed : {v d : Json N} → Reached v → deref js defs v ≡ returns d → Reached d
    as_unwrapped : {v : Json N} → Reached v → Reached (unwrap_option js v)
    as_normalized : {v n : Json N} → Reached v → normalize js defs v ≡ returns n → Reached n
    as_merged : {v m : Json N} → Reached v → merge_object js defs stack v ≡ returns m → Reached m

  pub or_value-Reached : {a b : Json N} → Reached a → Reached b → Reached (or_value js a b)
  or_value-Reached {a} {b} ra rb = elim (truthy js a) as (λ t. Reached (if t then a else b)) [
    | true ↦ ra
    | false ↦ rb
  ]

  pub guarded-Reached : (k : String) {a : Json N} → Reached a → Reached (guarded js k a)
  guarded-Reached k {a} r = elim (truthy js a) as (λ t. Reached (if t then field k a else a)) [
    | true ↦ a_field k r
    | false ↦ r
  ]

  pub union_of-Reached : {v : Json N} → Reached v → Reached (union_of js v)
  union_of-Reached r = or_value-Reached (a_field "oneOf" r) (a_field "anyOf" r)

  pub elements-Reached :
      {v : Json N} {vs : List (Json N)} → Reached v → elements v ≡ some vs → All Reached vs
  elements-Reached {vs = vs} r e = All-of_In vs (λ w at. an_element r e at)

  pub entries-Reached : {v : Json N} → Reached v → All (λ e. Reached e.1) (entries v)
  entries-Reached {v} r = All-of_In (entries v) (λ e at. an_entry r at)

  module _ {Q : Type 0} where
    pub prop-Reached : (k : String) (v : Json N) → Reached v → Ensures Reached Q (prop k v)
    prop-Reached k v r =
        Ensures-returns_eq (prop k v) (prop-Calm k v)
          (λ a e. subst Reached (sym (prop-field js defs k v e)) (a_field k r))

    pub deref-Reached : (v : Json N) → Reached v → Ensures Reached Q (deref js defs v)
    deref-Reached v r =
        Ensures-returns_eq (deref js defs v) (deref-Calm js defs v) (λ d e. as_derefed r e)

    pub normalize-Reached : (v : Json N) → Reached v → Ensures Reached Q (normalize js defs v)
    normalize-Reached v r =
        Ensures-returns_eq (normalize js defs v) (normalize-Calm js defs v)
          (λ n e. as_normalized r e)

    iterated-Reached : (v : Json N) → Reached v → Ensures (All Reached) Q (iterated v)
    iterated-Reached v r =
        Ensures-returns_eq (iterated v) (iterated-Calm js v)
          (λ vs e. All-of_In vs (λ w at. a_round r e at))

    pub iterated_or_nil-Reached :
        (v : Json N) → Reached v → Ensures (All Reached) Q (iterated_or_nil js defs stack v)
    iterated_or_nil-Reached v r = Ensures-if (truthy js v) _ _ (iterated-Reached v r) (returned tt)

    first_union-Reached :
        (outer : Json N) (parts : List (Json N))
        → Reached outer
        → All Reached parts
        → Ensures Reached Q (first_union js defs stack outer parts)
    unfolding first_union
    first_union-Reached outer [] r h = returned r
    first_union-Reached outer (p ∷ ps) r h = Ensures-bind _ _ (deref-Reached p h.0) (λ d rd.
        Ensures-bind-Any _ _ (prop-Calm "oneOf" d)
          (λ one_of. Ensures-if _ _ _ (returned rd) (first_union-Reached outer ps r h.1)))

    union_in-Reached :
        (outer v : Json N) (o : Option (List (Json N)))
        → Reached outer
        → Reached v
        → elements v ≡ o
        → Ensures Reached Q (union_in js defs stack outer o)
    union_in-Reached outer v none r rv e = returned r
    union_in-Reached outer v (some ps) r rv e =
        first_union-Reached outer ps r (elements-Reached rv e)

    pub resolve_union-Reached :
        (ref : String)
        → has outer_refs ref ≡ true
        → Ensures Reached Q (resolve_union js defs stack ref)
    unfolding resolve_union
    resolve_union-Reached ref named =
        Ensures-bind _ _ (deref-Reached _ (a_reference (an_outer_ref ref named))) (λ outer r.
          Ensures-if _ _ _ (returned r)
            (union_in-Reached outer (field "allOf" outer) _ r (a_field "allOf" r) refl))

    pub read_parts-Reached :
        (parts : List (Json N)) (v : Variant N)
        → All Reached parts
        → Reached v.config_ref
        → Ensures (λ w. Reached w.config_ref) Q (read_parts js defs stack parts v)
    unfolding read_parts
    read_parts-Reached [] v h r = returned r
    read_parts-Reached (p ∷ ps) v h r =
        Ensures-bind _ _ (prop-Reached "$ref" p h.0)
          (λ ref rr. read_parts-Reached ps _ h.1 (or_value-Reached rr r))
