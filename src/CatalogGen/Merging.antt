-- ===== src/CatalogGen/Merging.antt =====
-- frontend/src/lib/catalogGen.ts: `deref`, `mergeObject` and `normalize`. `defs` is DEFS; `stack` is how
-- many nested calls of `mergeObject` the engine can hold.
use vortex_flow.Common.{
  ℕ, zero, suc, String, Bool, true, false, not, ◌||◌, ◌&&◌, Option, none, some, List, [], ◌∷◌, ◌++◌,
  Dict, if◌then◌else◌, any, map_from,
}
use vortex_flow.CatalogGen.Outcome.{Outcome, returns, throws, overflows, ◌>>=◌}
use vortex_flow.CatalogGen.Json.{
  Json, undefined, string, array, NumberTests, field, prop, elements, elements_of, entries,
  object_of, string_of, spread, without_key, truthy, or_value,
}
use vortex_flow.CatalogGen.Nodes.{
  ref_key, ref_text, is_null_branch, non_null, only_branch, union_of, unwrap_option,
}

module _ {N : Type 0} (js : NumberTests N) (defs : Json N) where
  -- The loop of `deref`, on the rounds that its guard leaves.
  unfoldable pub deref_loop : ℕ → Json N → Outcome (Json N)
  deref_loop zero cur = returns cur
  deref_loop (suc n) cur =
      let replaced = λ (target : Json N). deref_loop n (spread target (without_key "$ref" cur)) in
      if truthy js cur && truthy js (field "$ref" cur)
      then (ref_text (field "$ref" cur) >>= λ ref.
          if truthy js (field (ref_key ref) defs)
          then replaced (field (ref_key ref) defs)
          else returns cur)
      else returns cur

  unfoldable pub deref : Json N → Outcome (Json N)
  deref node = deref_loop 32 node >>= λ cur. returns (or_value js cur node)

  -- `merged`, as it is filled.
  pub record Merged : Type 0 where
    pub properties : Dict (Json N)
    pub required : List (Json N)
    pub metadata : Json N
    pub description : Json N

  abbrev pub or_nil : Option (List (Json N)) → List (Json N)
  or_nil none = []
  or_nil (some vs) = vs

  -- `Object.assign(merged.properties, p.properties || {})`, and `push(...p.required)` of an array
  abbrev pub add_part : Merged → Json N → Merged
  add_part m p = record m {
    properties = map_from m.properties (entries (field "properties" p));
    required = m.required ++ or_nil (elements (field "required" p));
  }

  abbrev pub describe : Merged → Json N → Merged
  describe m p =
      if truthy js (field "description" p) && not (truthy js m.description)
      then record m { description = field "description" p }
      else m

  -- The loop over `n.allOf`; `merge` is the recursive call.
  unfoldable pub merge_parts : (Json N → Outcome (Json N)) → List (Json N) → Merged → Outcome Merged
  merge_parts merge [] m = returns m
  merge_parts merge (part ∷ parts) m =
      merge part >>= λ p. merge_parts merge parts (describe (add_part m p) p)

  abbrev pub merged_object : Merged → Json N
  merged_object m = object_of (
      ("type", string "object")
      ∷ ("properties", object_of m.properties)
      ∷ ("required", array (elements_of m.required))
      ∷ ("_metadata", m.metadata)
      ∷ ("description", m.description)
      ∷ [])

  abbrev pub merge_all :
      (Json N → Outcome (Json N)) → Json N → Option (List (Json N)) → Outcome (Json N)
  merge_all merge n none = returns n
  merge_all merge n (some parts) =
      merge_parts merge parts (record {
        properties = [];
        required = [];
        metadata = field "_metadata" n;
        description = undefined;
      })
      >>= λ m. returns (merged_object (add_part m n))

  unfoldable pub merge_object : ℕ → Json N → Outcome (Json N)
  merge_object zero node = overflows
  merge_object (suc stack) node = deref node >>= λ d.
      prop "allOf" (unwrap_option js d) >>= λ all_of.
      merge_all (merge_object stack) (unwrap_option js d) (elements all_of)

  -- `n.oneOf && n.oneOf.some(...)`, which throws where there is no `some`.
  abbrev pub has_null_branch : Json N → Option (List (Json N)) → Outcome Bool
  has_null_branch one_of none = if truthy js one_of then throws else returns false
  has_null_branch one_of (some branches) = returns (any is_null_branch branches)

  abbrev pub is_settled : Json N → Outcome Bool
  is_settled n =
      if truthy js (field "$ref" n)
      then returns false
      else has_null_branch (field "oneOf" n) (elements (field "oneOf" n)) >>= λ has_null.
          returns (not has_null)

  abbrev pub is_replaced : Option String → Bool
  is_replaced none = false
  is_replaced (some ref) = truthy js (field (ref_key ref) defs)

  -- Whether `deref` gives another object than the node, and whether `unwrapOption` does.
  abbrev pub derefs : Json N → Bool
  derefs node =
      truthy js node
      && (truthy js (field "$ref" node) && is_replaced (string_of (field "$ref" node)))

  abbrev pub is_some : {A : Type 0} → Option A → Bool
  is_some none = false
  is_some (some a) = true

  abbrev pub unwraps_union : Option (List (Json N)) → Bool
  unwraps_union none = false
  unwraps_union (some union) = is_some (only_branch (non_null union) union)

  abbrev pub unwraps : Json N → Bool
  unwraps node = truthy js node && unwraps_union (elements (union_of js node))

  -- The loop of `normalize`.
  unfoldable pub normalize_loop : ℕ → Json N → Outcome (Json N)
  normalize_loop zero n = returns n
  normalize_loop (suc i) n =
      let again = λ (m : Json N). normalize_loop i m in
      deref n >>= λ d.
      if derefs n || unwraps d
      then (is_settled (unwrap_option js d) >>= λ settled.
          if settled then returns (unwrap_option js d) else again (unwrap_option js d))
      else returns (unwrap_option js d)

  unfoldable pub normalize : Json N → Outcome (Json N)
  normalize node = normalize_loop 8 node
