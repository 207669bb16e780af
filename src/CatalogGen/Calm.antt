-- ===== src/CatalogGen/Calm.antt =====
-- The functions on one node of the schema need no deep stack.
use vortex_flow.Common.{ℕ, zero, suc, String, Option, none, some, List, [], ◌∷◌}
use vortex_flow.CatalogGen.Outcome.{Outcome}
use vortex_flow.CatalogGen.Json.{
  Json, undefined, null, boolean, num, string, array, object, NumberTests, prop,
}
use vortex_flow.CatalogGen.Nodes.{
  ref_text, extract_enum, enum_of_union, enum_of_unions, first_nested, found_or, example_string,
  scalar_type,
}
use vortex_flow.CatalogGen.Merging.{deref_loop, deref, normalize_loop, normalize, has_null_branch}
use vortex_flow.CatalogGen.Fields.{iterated}
use vortex_flow.CatalogGen.Emit.{hint_of, sentence_of, humanize_value, array_items}
use vortex_flow.CatalogGen.Walk.{required_of}
use vortex_flow.CatalogGen.Build.{
  iterated_or_nil, first_union, union_in, resolve_union, read_parts, Variant,
}
use vortex_flow.CatalogGen.Ensures.{Ensures, returned, threw, Any, ensures_rules}

module _ {N : Type 0} {Q : Type 0} where
  pub prop-Calm : (k : String) (v : Json N) → Ensures Any Q (prop k v)
  prop-Calm k v = search ensures_rules

  pub ref_text-Calm : (v : Json N) → Ensures Any Q (ref_text v)
  ref_text-Calm undefined = threw
  ref_text-Calm null = threw
  ref_text-Calm (boolean b) = threw
  ref_text-Calm (num n) = threw
  ref_text-Calm (string s) = returned tt
  ref_text-Calm (array vs) = threw
  ref_text-Calm (object es) = threw

module _ {N : Type 0} (js : NumberTests N) {Q : Type 0} where
  found_or-Calm :
      (o : Option (List String)) (m : Outcome (Option (List String)))
      → Ensures Any Q m
      → Ensures Any Q (found_or js o m)
  found_or-Calm none m h = h
  found_or-Calm (some c) m h = returned tt

  first_nested-Calm : (bs : List (Json N)) → Ensures Any Q (first_nested js bs)
  unfolding first_nested
  first_nested-Calm [] = returned tt
  first_nested-Calm (b ∷ bs) = search (ensures_rules, found_or-Calm, first_nested-Calm bs)

  enum_of_union-Calm : (o : Option (List (Json N))) → Ensures Any Q (enum_of_union js o)
  unfolding enum_of_union
  enum_of_union-Calm none = returned tt
  enum_of_union-Calm (some bs) = search (ensures_rules, found_or-Calm, first_nested-Calm)

  pub extract_enum-Calm : (node : Json N) → Ensures Any Q (extract_enum js node)
  unfolding extract_enum enum_of_unions
  extract_enum-Calm node = search (ensures_rules, found_or-Calm, enum_of_union-Calm)

  pub example_string-Calm : (node : Json N) → Ensures Any Q (example_string js node)
  unfolding example_string
  example_string-Calm node = search (ensures_rules, prop-Calm)

  pub scalar_type-Calm : (node : Json N) → Ensures Any Q (scalar_type node)
  unfolding scalar_type
  scalar_type-Calm node = search (ensures_rules, prop-Calm)

  pub iterated-Calm : (v : Json N) → Ensures Any Q (iterated v)
  iterated-Calm undefined = threw
  iterated-Calm null = threw
  iterated-Calm (boolean b) = threw
  iterated-Calm (num n) = threw
  iterated-Calm (string s) = returned tt
  iterated-Calm (array vs) = returned tt
  iterated-Calm (object es) = threw

  pub has_null_branch-Calm :
      (defs v : Json N) (o : Option (List (Json N))) → Ensures Any Q (has_null_branch js defs v o)
  has_null_branch-Calm defs v none = search ensures_rules
  has_null_branch-Calm defs v (some bs) = returned tt

module _ {N : Type 0} (js : NumberTests N) (defs : Json N) {Q : Type 0} where
  deref_loop-Calm : (n : ℕ) (v : Json N) → Ensures Any Q (deref_loop js defs n v)
  unfolding deref_loop
  deref_loop-Calm zero v = returned tt
  deref_loop-Calm (suc n) v = search (ensures_rules, ref_text-Calm, deref_loop-Calm n)

  pub deref-Calm : (v : Json N) → Ensures Any Q (deref js defs v)
  unfolding deref
  deref-Calm v = search (ensures_rules, deref_loop-Calm)

  normalize_loop-Calm : (i : ℕ) (v : Json N) → Ensures Any Q (normalize_loop js defs i v)
  unfolding normalize_loop
  normalize_loop-Calm zero v = returned tt
  normalize_loop-Calm (suc i) v =
      search (ensures_rules, deref-Calm, has_null_branch-Calm js, normalize_loop-Calm i) depth 8

  pub normalize-Calm : (v : Json N) → Ensures Any Q (normalize js defs v)
  unfolding normalize
  normalize-Calm v = normalize_loop-Calm 8 v

  pub array_items-Calm : (stack : ℕ) (v : Json N) → Ensures Any Q (array_items js defs stack v)
  array_items-Calm stack v = search (ensures_rules, deref-Calm, scalar_type-Calm js)

  pub humanize_value-Calm :
      (stack : ℕ) (v : Json N) → Ensures Any Q (humanize_value js defs stack v)
  humanize_value-Calm stack undefined = threw
  humanize_value-Calm stack null = threw
  humanize_value-Calm stack (boolean b) = threw
  humanize_value-Calm stack (num n) = threw
  humanize_value-Calm stack (string s) = returned tt
  humanize_value-Calm stack (array vs) = threw
  humanize_value-Calm stack (object es) = threw

  sentence_of-Calm : (stack : ℕ) (o : Option String) → Ensures Any Q (sentence_of js defs stack o)
  sentence_of-Calm stack none = threw
  sentence_of-Calm stack (some s) = returned tt

  pub hint_of-Calm : (stack : ℕ) (v : Json N) → Ensures Any Q (hint_of js defs stack v)
  hint_of-Calm stack v = search (ensures_rules, sentence_of-Calm)

  pub required_of-Calm : (stack : ℕ) (v : Json N) → Ensures Any Q (required_of js defs stack v)
  required_of-Calm stack v = search (ensures_rules, iterated-Calm js)

  pub iterated_or_nil-Calm :
      (stack : ℕ) (v : Json N) → Ensures Any Q (iterated_or_nil js defs stack v)
  iterated_or_nil-Calm stack v = search (ensures_rules, iterated-Calm js)

  first_union-Calm :
      (stack : ℕ) (outer : Json N) (parts : List (Json N))
      → Ensures Any Q (first_union js defs stack outer parts)
  unfolding first_union
  first_union-Calm stack outer [] = returned tt
  first_union-Calm stack outer (p ∷ ps) =
      search (ensures_rules, deref-Calm, prop-Calm, first_union-Calm stack outer ps)

  union_in-Calm :
      (stack : ℕ) (outer : Json N) (o : Option (List (Json N)))
      → Ensures Any Q (union_in js defs stack outer o)
  union_in-Calm stack outer none = returned tt
  union_in-Calm stack outer (some ps) = first_union-Calm stack outer ps

  pub resolve_union-Calm :
      (stack : ℕ) (ref : String) → Ensures Any Q (resolve_union js defs stack ref)
  unfolding resolve_union
  resolve_union-Calm stack ref = search (ensures_rules, deref-Calm, union_in-Calm)

  pub read_parts-Calm :
      (stack : ℕ) (parts : List (Json N)) (v : Variant N)
      → Ensures Any Q (read_parts js defs stack parts v)
  unfolding read_parts
  read_parts-Calm stack [] v = returned tt
  read_parts-Calm stack (p ∷ ps) v = search (ensures_rules, prop-Calm, read_parts-Calm stack ps)
