-- ===== src/CatalogGen/Shallow.antt =====
-- Schemas without definitions, in frontend/src/lib/catalogGen.ts: what is reached there.
use vortex_flow.Common.{
  ℕ, zero, suc, ◌+◌, String, true, false, Option, none, some, List, [], ◌∷◌, ◌≡◌, refl, ap, sym,
  ◌∙◌, subst, In, Dict, get, All, show, ◌∷ᶜ◌, inl, inr, if◌then◌else◌, nat_eq, ◌==◌, arith,
}
use vortex_flow.CatalogGen.Outcome.{Outcome, returns}
use vortex_flow.CatalogGen.Texts.{width}
use vortex_flow.CatalogGen.Json.{
  Json, undefined, or_undefined, string, object_of, NumberTests, field, prop, elements, entries,
  indexed_text, truthy, or_value,
}
use vortex_flow.CatalogGen.Nodes.{unwrap_option}
use vortex_flow.CatalogGen.Merging.{
  deref, deref_loop, merge_all, merge_object, normalize, normalize_loop,
}
use vortex_flow.CatalogGen.Fields.{iterated, letters}
use vortex_flow.CatalogGen.Unions.{deref_if}
use vortex_flow.CatalogGen.Ensures.{
  Ensures, returned, overflowed, Ensures-if, Ensures-bind, Ensures-bind-Any, Ensures-bind_eq,
  ensures_rules,
}
use vortex_flow.CatalogGen.Calm.{ref_text-Calm, prop-Calm, has_null_branch-Calm}
use vortex_flow.CatalogGen.Reached.{
  Reached, the_definitions, an_outer_ref, a_round, no_value, a_reference, a_field, an_element,
  an_entry, as_derefed, as_unwrapped, as_normalized, as_merged,
}
use vortex_flow.CatalogGen.Restored.{All-In, Ensures-returns}
use vortex_flow.CatalogGen.Nested.{next_part, next_branch, prop-field}
use vortex_flow.CatalogGen.Made.{IsTooDeep}

-- What can be met where there are no definitions: texts, nothing, and references.
data IsPlain {N : Type 0} : Json N → Type 0 where
  nothing : IsPlain undefined
  a_word : (s : String) → IsPlain (string s)
  no_fields : IsPlain (object_of [])
  a_ref : {r : Json N} → IsPlain r → IsPlain (object_of (("$ref", r) ∷ []))

texts-IsPlain :
    (N : Type 0) (i : ℕ) (s : String) → All (λ e. IsPlain {N = N} e.1) (indexed_text i s)
texts-IsPlain N i String.[] = tt
texts-IsPlain N i (String.◌∷◌ c s) =
    let rest = texts-IsPlain N (i + width c) s in
    elim (nat_eq (width c) 2)
      as (λ b.
        All (λ e. IsPlain {N = N} e.1)
          (if b
            then (show i, string (c ∷ᶜ ""))
              ∷ (show (suc i), string (c ∷ᶜ ""))
              ∷ indexed_text (i + width c) s
            else (show i, string (c ∷ᶜ "")) ∷ indexed_text (i + width c) s)) [
              | true ↦ (a_word _, (a_word _, rest))
              | false ↦ (a_word _, rest)
            ]

module _ {N : Type 0} where
  entries-IsPlain : {v : Json N} → IsPlain v → All (λ e. IsPlain e.1) (entries v)
  entries-IsPlain nothing = tt
  entries-IsPlain (a_word s) = texts-IsPlain _ 0 s
  entries-IsPlain no_fields = tt
  entries-IsPlain (a_ref r) = (r, tt)

  get-IsPlain :
      (k : String) (d : Dict (Json N)) → All (λ e. IsPlain e.1) d → IsPlain (or_undefined (get k d))
  unfolding get
  get-IsPlain k [] h = nothing
  get-IsPlain k ((j, v) ∷ d) h =
      elim (j == k) as (λ b. IsPlain (or_undefined (if b then some v else get k d))) [
        | true ↦ h.0
        | false ↦ get-IsPlain k d h.1
      ]

  field-IsPlain : {v : Json N} (k : String) → IsPlain v → IsPlain (field k v)
  unfolding field
  field-IsPlain {v} k h = get-IsPlain k (entries v) (entries-IsPlain h)

  elements-IsPlain : {v : Json N} → IsPlain v → elements v ≡ none
  elements-IsPlain nothing = refl
  elements-IsPlain (a_word s) = refl
  elements-IsPlain no_fields = refl
  elements-IsPlain (a_ref r) = refl

abbrev none_defined : {N : Type 0} → Json N
none_defined = object_of []

module _ {N : Type 0} (js : NumberTests N) where
  or_value-IsPlain : {a b : Json N} → IsPlain a → IsPlain b → IsPlain (or_value js a b)
  or_value-IsPlain {a} {b} p q = elim (truthy js a) as (λ t. IsPlain (if t then a else b)) [
    | true ↦ p
    | false ↦ q
  ]

  unwrap_option-IsPlain : {v : Json N} → IsPlain v → unwrap_option js v ≡ v
  unfolding unwrap_option
  unwrap_option-IsPlain {v} p =
      rw (elements-IsPlain (or_value-IsPlain (field-IsPlain "oneOf" p) (field-IsPlain "anyOf" p)))
        (ground arith)

  unwrapped : {v : Json N} → IsPlain v → IsPlain (unwrap_option js v)
  unwrapped p = subst IsPlain (sym (unwrap_option-IsPlain p)) p

  module _ {Q : Type 0} where
    deref_loop-kept : (n : ℕ) (v : Json N) → Ensures (λ d. d ≡ v) Q (deref_loop js none_defined n v)
    unfolding deref_loop field get
    deref_loop-kept zero v = returned refl
    deref_loop-kept (suc n) v =
        Ensures-if _ _ _ (Ensures-bind-Any _ _ (ref_text-Calm _) (λ ref. returned refl))
          (returned refl)

    deref-IsPlain : (v : Json N) → IsPlain v → Ensures IsPlain Q (deref js none_defined v)
    unfolding deref
    deref-IsPlain v p =
        Ensures-bind _ _ (deref_loop-kept 32 v)
          (λ d e. returned (or_value-IsPlain (subst IsPlain (sym e) p) p))

    normalize_loop-IsPlain :
        (i : ℕ) (v : Json N) → IsPlain v → Ensures IsPlain Q (normalize_loop js none_defined i v)
    unfolding normalize_loop
    normalize_loop-IsPlain zero v p = returned p
    normalize_loop-IsPlain (suc i) v p = Ensures-bind _ _ (deref-IsPlain v p) (λ d q.
        Ensures-if _ _ _
          (Ensures-bind-Any _ _ (search (ensures_rules, has_null_branch-Calm js)) (λ settled.
            Ensures-if settled _ _ (returned (unwrapped q))
              (normalize_loop-IsPlain i (unwrap_option js d) (unwrapped q))))
          (returned (unwrapped q)))

    deref_if-IsPlain : (v : Json N) → IsPlain v → Ensures IsPlain Q (deref_if js none_defined v)
    deref_if-IsPlain v p = Ensures-if _ _ _ (deref-IsPlain v p) (returned p)

  merge_all-IsPlain :
      (merge : Json N → Outcome (Json N)) (v : Json N) (o : Option (List (Json N)))
      → IsPlain v
      → o ≡ none
      → Ensures IsPlain Unit (merge_all js none_defined merge v o)
  merge_all-IsPlain merge v none p e = returned p
  merge_all-IsPlain merge v (some parts) p e = cc

  all_of-IsPlain : (v a : Json N) → IsPlain v → prop "allOf" v ≡ returns a → elements a ≡ none
  all_of-IsPlain v a p e =
      ap elements (prop-field js none_defined "allOf" v e)
      ∙ elements-IsPlain (field-IsPlain "allOf" p)

  merge_object-IsPlain :
      (stack : ℕ) (v : Json N)
      → IsPlain v
      → Ensures IsPlain Unit (merge_object js none_defined stack v)
  unfolding merge_object
  merge_object-IsPlain zero v p = overflowed tt
  merge_object-IsPlain (suc stack) v p = Ensures-bind _ _ (deref-IsPlain v p) (λ d q.
      Ensures-bind_eq _ _ (prop-Calm "allOf" (unwrap_option js d))
        (λ a e. merge_all-IsPlain _ _ _ (unwrapped q) (all_of-IsPlain _ a (unwrapped q) e)))

  letters-IsPlain : (s : String) → All (IsPlain {N = N}) (letters s)
  letters-IsPlain String.[] = tt
  letters-IsPlain (String.◌∷◌ c s) = (a_word _, letters-IsPlain s)

  round-IsPlain :
      (v : Json N) {w : Json N} {vs : List (Json N)}
      → IsPlain v
      → iterated v ≡ returns vs
      → In w vs
      → IsPlain w
  round-IsPlain v nothing e at = cc
  round-IsPlain v {w} {vs} (a_word s) e at =
      let same : letters s ≡ vs = cc e in
      All-In IsPlain (letters s) (letters-IsPlain s) (subst (λ ws. In w ws) (sym same) at)
  round-IsPlain v no_fields e at = cc
  round-IsPlain v (a_ref r) e at = cc

  Reached-IsPlain : (stack : ℕ) {v : Json N} → Reached js none_defined stack v → IsPlain v
  Reached-IsPlain stack the_definitions = no_fields
  Reached-IsPlain stack (an_outer_ref ref named) = a_word ref
  Reached-IsPlain stack (a_round {v} r e at) = round-IsPlain v (Reached-IsPlain stack r) e at
  Reached-IsPlain stack no_value = nothing
  Reached-IsPlain stack (a_reference r) = a_ref (Reached-IsPlain stack r)
  Reached-IsPlain stack (a_field k r) = field-IsPlain k (Reached-IsPlain stack r)
  Reached-IsPlain stack (an_element r e at) =
      let p = elements-IsPlain (Reached-IsPlain stack r) in cc
  Reached-IsPlain stack (an_entry {v} r at) =
      All-In (λ e. IsPlain e.1) (entries v) (entries-IsPlain (Reached-IsPlain stack r)) at
  Reached-IsPlain stack (as_derefed {v} r e) =
      Ensures-returns {Q = Unit} (deref-IsPlain v (Reached-IsPlain stack r)) e
  Reached-IsPlain stack (as_unwrapped r) = unwrapped (Reached-IsPlain stack r)
  Reached-IsPlain stack (as_normalized {v} r e) =
      Ensures-returns {Q = Unit} (normalize_loop-IsPlain 8 v (Reached-IsPlain stack r))
        (unfold normalize in e)
  Reached-IsPlain stack (as_merged {v} r e) =
      Ensures-returns (merge_object-IsPlain stack v (Reached-IsPlain stack r)) e

  -- Without definitions, no value that is reached has a part or a branch.
  not-IsTooDeep : (stack : ℕ) → ¬ IsTooDeep js none_defined (suc stack)
  not-IsTooDeep stack (inl (v, r, next_part part chain)) =
      let d =
        Ensures-returns {Q = Unit} (deref-IsPlain v (Reached-IsPlain (suc stack) r)) part.found in
      let e = elements-IsPlain (field-IsPlain "allOf" (unwrapped d)) in let f = part.all_of in cc
  not-IsTooDeep stack (inr (v, r, next_branch branch chain)) =
      let d =
        Ensures-returns {Q = Unit}
          (deref_if-IsPlain (unwrap_option js v) (unwrapped (Reached-IsPlain (suc stack) r)))
          branch.found in
      let e = elements-IsPlain (field-IsPlain branch.key d) in let f = branch.union in cc
