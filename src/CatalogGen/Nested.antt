-- ===== src/CatalogGen/Nested.antt =====
-- Where the recursion of `mergeObject` or of `visit` is deeper than the stack, the schema is to blame.
use vortex_flow.Common.{
  ℕ, zero, suc, String, Option, has, true, none, some, List, [], ◌∷◌, ◌≡◌, refl, ap, sym, arith, In,
  at_head, later,
}
use vortex_flow.CatalogGen.Outcome.{Outcome, returns}
use vortex_flow.CatalogGen.Json.{Json, NumberTests, prop, field, elements}
use vortex_flow.CatalogGen.Nodes.{unwrap_option}
use vortex_flow.CatalogGen.Merging.{
  deref, merge_object, merge_parts, merge_all, Merged, describe, add_part,
}
use vortex_flow.CatalogGen.Unions.{
  Found, visit, visit_branches, visit_union, deref_if, is_object_like, add_option, discriminator,
  note_seen, sig_of, is_seen,
}
use vortex_flow.CatalogGen.Ensures.{
  Ensures, returned, overflowed, Any, ensures_rules, Ensures-if, Ensures-bind-Any, Ensures-bind_eq,
  Ensures-mono,
}
use vortex_flow.CatalogGen.Calm.{deref-Calm, prop-Calm}

module _ {N : Type 0} (js : NumberTests N) (defs : Json N) where
  -- The parts of the `allOf` of a node, as `mergeObject` finds them.
  pub record IsPart (part node : Json N) : Type 0 where
    pub derefed : Json N
    pub found : deref js defs node ≡ returns derefed
    pub parts : List (Json N)
    pub all_of : elements (field "allOf" (unwrap_option js derefed)) ≡ some parts
    pub at : In part parts

  -- A chain of `n` nodes below the first, each a part of the one before.
  pub data PartChain : ℕ → Json N → Type 0 where
    first_node : (node : Json N) → PartChain zero node
    next_part :
        {n : ℕ} {part node : Json N} → IsPart part node → PartChain n part → PartChain (suc n) node

  -- The branches of a node, as `visit` finds them.
  pub record IsBranch (branch raw : Json N) : Type 0 where
    pub node : Json N
    pub found : deref_if js defs (unwrap_option js raw) ≡ returns node
    pub key : String
    pub is_union : has ("oneOf" ∷ "anyOf" ∷ "allOf" ∷ []) key ≡ true
    pub branches : List (Json N)
    pub union : elements (field key node) ≡ some branches
    pub at : In branch branches

  pub data BranchChain : ℕ → Json N → Type 0 where
    first_node : (raw : Json N) → BranchChain zero raw
    next_branch :
        {n : ℕ} {branch raw : Json N}
        → IsBranch branch raw
        → BranchChain n branch
        → BranchChain (suc n) raw

  merge_parts-Nested :
      (n : ℕ) (merge : Json N → Outcome (Json N))
      → ((part : Json N) → Ensures Any (PartChain n part) (merge part))
      → (parts : List (Json N)) (m : Merged js defs)
      → Ensures Any
          ((part : Json N) × In part parts × PartChain n part)
          (merge_parts js defs merge parts m)
  unfolding merge_parts
  merge_parts-Nested n merge rule [] m = returned tt
  merge_parts-Nested n merge rule (part ∷ parts) m =
      Ensures-bind-Any (merge part) _
        (Ensures-mono (λ a u. tt) (λ c. (part, at_head refl, c)) (rule part))
        (λ p.
          Ensures-mono (λ a u. tt) (λ c. (c.0, later c.1, c.2))
            (merge_parts-Nested n merge rule parts (describe js defs (add_part js defs m p) p)))

  merge_all-Nested :
      (n : ℕ) (node d : Json N) (o : Option (List (Json N)))
      → deref js defs node ≡ returns d
      → elements (field "allOf" (unwrap_option js d)) ≡ o
      → ((part : Json N) → Ensures Any (PartChain n part) (merge_object js defs n part))
      → Ensures Any
          (PartChain (suc n) node)
          (merge_all js defs (merge_object js defs n) (unwrap_option js d) o)
  merge_all-Nested n node d none found e rule = returned tt
  merge_all-Nested n node d (some parts) found e rule =
      Ensures-bind-Any (merge_parts js defs (merge_object js defs n) parts _) _
        (Ensures-mono (λ a u. tt)
          (λ c.
            next_part (record { derefed = d; found = found; parts = parts; all_of = e; at = c.1 })
              c.2)
          (merge_parts-Nested n (merge_object js defs n) rule parts _))
        (λ m. returned tt)

  pub prop-field : (k : String) (v : Json N) {a : Json N} → prop k v ≡ returns a → a ≡ field k v
  prop-field k v h = ground arith

  -- A `mergeObject` that overflows a stack of `n` calls has met `n` parts within parts.
  pub merge_object-Nested :
      (n : ℕ) (node : Json N) → Ensures Any (PartChain n node) (merge_object js defs n node)
  unfolding merge_object
  merge_object-Nested zero node = overflowed (first_node node)
  merge_object-Nested (suc n) node =
      Ensures-bind_eq (deref js defs node) _ (deref-Calm js defs node) (λ d found.
        Ensures-bind_eq (prop "allOf" (unwrap_option js d)) _
          (prop-Calm "allOf" (unwrap_option js d))
          (λ a read.
            merge_all-Nested n node d (elements a) found
              (ap elements (sym (prop-field "allOf" (unwrap_option js d) read)))
              (merge_object-Nested n)))

  visit_branches-Nested :
      (n : ℕ) (deeper : Json N → Found → Outcome Found)
      → ((b : Json N) (f : Found) → Ensures Any (BranchChain n b) (deeper b f))
      → (bs : List (Json N)) (f : Found)
      → Ensures Any ((b : Json N) × In b bs × BranchChain n b) (visit_branches js defs deeper bs f)
  unfolding visit_branches
  visit_branches-Nested n deeper rule [] f = returned tt
  visit_branches-Nested n deeper rule (b ∷ bs) f =
      let next = λ (g : Found).
        Ensures-mono (λ a u. tt) (λ c. (c.0, later c.1, c.2))
          (visit_branches-Nested n deeper rule bs g) in
      Ensures-if (is_seen (sig_of js defs b) f) _ _ (next f) (
        Ensures-bind-Any (deeper b (note_seen (sig_of js defs b) f)) _
          (Ensures-mono (λ a u. tt) (λ c. (b, at_head refl, c))
            (rule b (note_seen (sig_of js defs b) f)))
          next)

  visit_union-Nested :
      (n : ℕ) (raw node : Json N) (key : String) (deeper : Json N → Found → Outcome Found)
      (o : Option (List (Json N))) (f : Found)
      → has ("oneOf" ∷ "anyOf" ∷ "allOf" ∷ []) key ≡ true
      → deref_if js defs (unwrap_option js raw) ≡ returns node
      → elements (field key node) ≡ o
      → ((b : Json N) (f : Found) → Ensures Any (BranchChain n b) (deeper b f))
      → Ensures Any (BranchChain (suc n) raw) (visit_union js defs deeper o f)
  visit_union-Nested n raw node key deeper none f named found e rule = returned tt
  visit_union-Nested n raw node key deeper (some bs) f named found e rule =
      Ensures-mono (λ a u. tt)
        (λ c.
          next_branch
            (record {
              node = node;
              found = found;
              key = key;
              is_union = named;
              branches = bs;
              union = e;
              at = c.1;
            })
            c.2)
        (visit_branches-Nested n deeper rule bs f)

  deref_if-Calm : {Q : Type 0} (v : Json N) → Ensures Any Q (deref_if js defs v)
  deref_if-Calm v = search (ensures_rules, deref-Calm)

  -- A `visit` that overflows a stack of `n` calls has met `n` branches within branches.
  pub visit-Nested :
      (prop_name : String) (n : ℕ) (raw : Json N) (f : Found)
      → Ensures Any (BranchChain n raw) (visit js defs prop_name n raw f)
  unfolding visit
  visit-Nested prop_name zero raw f = overflowed (first_node raw)
  visit-Nested prop_name (suc n) raw f =
      let union =
        λ (node : Json N) (found : deref_if js defs (unwrap_option js raw) ≡ returns node)
            (key : String) (named : has ("oneOf" ∷ "anyOf" ∷ "allOf" ∷ []) key ≡ true) (g : Found).
          visit_union-Nested n raw node key (λ r g. visit js defs prop_name n r g)
            (elements (field key node)) g named found refl (visit-Nested prop_name n) in
      Ensures-if (is_object_like raw) _ _
        (Ensures-bind_eq (deref_if js defs (unwrap_option js raw)) _
          (deref_if-Calm (unwrap_option js raw))
          (λ node found.
            Ensures-bind-Any _ _
              (union node found "oneOf" refl (add_option (discriminator js defs prop_name node) f))
              (λ g.
                Ensures-bind-Any _ _ (union node found "anyOf" refl g)
                  (λ h. union node found "allOf" refl h))))
        (returned tt)
