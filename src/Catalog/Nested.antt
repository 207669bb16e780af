-- ===== src/Catalog/Nested.antt =====
-- Nesting of dotted keys: no key stands twice at a level, and each value is found along its key.
use vortex_flow.Common.{
  text_tests, String, Bool, true, false, Option, none, some, List, [], ◌∷◌, ◌≡◌, refl, ap, ◌∙◌, not,
  ◌==◌, ◌&&◌, if◌then◌else◌, has, Dict, split, char_eq, push_head, eq_of_test, In, at_head, later,
  not-In-nil, Bool-cases, inl, inr, arith, eq_iff, eq_refl,
}
use Prim.Native.Char.{Char}
use vortex_flow.Catalog.{Value}
use vortex_flow.Catalog.Yaml.{
  Node, leaf, block, Entries, nothing, entry, put, node_at, open_block, put_path, nest_from,
  nest_dot_keys,
}

module _ {N : Type 0} where
  abbrev pub keys_of : Entries N → List String
  keys_of nothing = []
  keys_of (entry j m es) = j ∷ keys_of es

  -- No key stands twice in the object, nor in those it holds.
  unfoldable mutual
    pub tidy : Entries N → Bool
    tidy nothing = true
    tidy (entry j m es) = not (has (keys_of es) j) && (tidy_node m && tidy es)

    pub tidy_node : Node N → Bool
    tidy_node (leaf v) = true
    tidy_node (block es) = tidy es

  has-put :
      (k j : String) (n : Node N) (es : Entries N)
      → has (keys_of es) j ≡ false
      → (k == j) ≡ false
      → has (keys_of (put k n es)) j ≡ false
  unfolding put
  has-put k j n nothing h e = ground (arith, eq_iff k j)
  has-put k j n (entry i m es) h e = grind (text_tests, has-put k j n es)

  tidy-put :
      (k : String) (n : Node N) (es : Entries N)
      → tidy es ≡ true
      → tidy_node n ≡ true
      → tidy (put k n es) ≡ true
  unfolding put tidy
  tidy-put k n nothing h m = rw m refl
  tidy-put k n (entry i l es) h m =
      ground (arith, eq_iff i k, eq_iff k i, tidy-put k n es, has-put k i n es)

  tidy-open_block :
      (k : String) (es : Entries N) → tidy es ≡ true → tidy (open_block (node_at k es)) ≡ true
  unfolding node_at tidy
  tidy-open_block k nothing h = refl
  tidy-open_block k (entry i (leaf v) es) h = ground (arith, tidy-open_block k es)
  tidy-open_block k (entry i (block fs) es) h = ground (arith, tidy-open_block k es)

  tidy-put_path :
      (ps : List String) (v : Value N) (es : Entries N)
      → tidy es ≡ true
      → tidy (put_path ps v es) ≡ true
  unfolding put_path tidy
  tidy-put_path [] v es h = h
  tidy-put_path (p ∷ []) v es h = tidy-put p (leaf v) es h refl
  tidy-put_path (p ∷ q ∷ ps) v es h =
      tidy-put p _ es h
        (tidy-put_path (q ∷ ps) v (open_block (node_at p es)) (tidy-open_block p es h))

  tidy-nest_from :
      (flat : Dict (Value N)) (es : Entries N) → tidy es ≡ true → tidy (nest_from flat es) ≡ true
  unfolding nest_from
  tidy-nest_from [] es h = h
  tidy-nest_from ((key, v) ∷ flat) es h =
      tidy-nest_from flat _ (tidy-put_path (split "." key) v es h)

  -- Whatever the flat config, no key stands twice at a level of the nested one, so that the YAML
  -- that is printed from it has no duplicate mapping key.
  pub nest_dot_keys-tidy : (flat : Dict (Value N)) → tidy (nest_dot_keys flat) ≡ true
  unfolding nest_dot_keys tidy
  nest_dot_keys-tidy flat = tidy-nest_from flat nothing refl

  abbrev pub leaf_of : Option (Node N) → Option (Value N)
  leaf_of none = none
  leaf_of (some (leaf v)) = some v
  leaf_of (some (block es)) = none

  -- The value at the end of the path.
  unfoldable pub find_path : List String → Entries N → Option (Value N)
  find_path [] es = none
  find_path (p ∷ []) es = leaf_of (node_at p es)
  find_path (p ∷ q ∷ ps) es = find_path (q ∷ ps) (open_block (node_at p es))

  node_at-put :
      (k j : String) (n : Node N) (es : Entries N)
      → node_at j (put k n es) ≡ (if k == j then some n else node_at j es)
  unfolding put node_at
  node_at-put k j n nothing = refl
  node_at-put k j n (entry i m es) = grind (text_tests, node_at-put k j n es)

  find_path-put_path :
      (p : String) (ps : List String) (v : Value N) (es : Entries N)
      → find_path (p ∷ ps) (put_path (p ∷ ps) v es) ≡ some v
  unfolding put_path find_path
  find_path-put_path p [] v es = rw (node_at-put p p (leaf v) es, eq_refl p) refl
  find_path-put_path p (q ∷ ps) v es =
      rw (node_at-put p p (block (put_path (q ∷ ps) v (open_block (node_at p es)))) es, eq_refl p)
        (find_path-put_path q ps v (open_block (node_at p es)))

-- Neither path is a part of the other.
unfoldable pub apart : List String → List String → Bool
apart [] qs = false
apart (p ∷ ps) [] = false
apart (p ∷ ps) (q ∷ qs) = if p == q then apart ps qs else true

abbrev is_cons {ℓ} : {A : Type ℓ} → List A → Bool
is_cons [] = false
is_cons (x ∷ xs) = true

split-is_cons : (d : Char) (s : String) → is_cons (split d s) ≡ true
unfolding split
split-is_cons d String.[] = refl
split-is_cons d (String.◌∷◌ c s) = elim (Bool-cases (char_eq c d)) [
  | inl e ↦ rw e refl
  | inr e ↦ rw e (of_rest (split d s))
]
  where
    of_rest : (ps : List String) → is_cons (push_head c ps) ≡ true
    of_rest [] = refl
    of_rest (p ∷ ps) = refl

module _ {N : Type 0} where
  find_path-apart :
      (ps qs : List String) (v : Value N) (es : Entries N)
      → apart ps qs ≡ true
      → find_path qs (put_path ps v es) ≡ find_path qs es
  unfolding put_path find_path apart
  find_path-apart [] qs v es h = refl
  find_path-apart (p ∷ ps) [] v es h = refl
  find_path-apart (p ∷ []) (q ∷ []) v es h = rw (node_at-put p q (leaf v) es) (ground arith)
  find_path-apart (p ∷ []) (q ∷ r ∷ qs) v es h = rw (node_at-put p q (leaf v) es) (ground arith)
  find_path-apart (p ∷ o ∷ ps) (q ∷ []) v es h =
      rw (node_at-put p q (block (put_path (o ∷ ps) v (open_block (node_at p es)))) es)
        (ground arith)
  find_path-apart (p ∷ o ∷ ps) (q ∷ r ∷ qs) v es h =
      let put_at = node_at-put p q (block (put_path (o ∷ ps) v (open_block (node_at p es)))) es in
      elim (Bool-cases (p == q)) [
        | inl e ↦
            let same : p ≡ q = eq_of_test p q e in
            let ih =
              find_path-apart (o ∷ ps) (r ∷ qs) v (open_block (node_at p es)) (ground arith) in
            rw (put_at, e) (ih ∙ ap (λ k. find_path (r ∷ qs) (open_block (node_at k es))) same)
        | inr e ↦ rw (put_at, e) refl
      ]

  abbrev pub all_apart : String → Dict (Value N) → Bool
  all_apart key [] = true
  all_apart key ((j, v) ∷ flat) = apart (split "." j) (split "." key) && all_apart key flat

  -- No key of the config is, part by part, the start of another.
  unfoldable pub is_apart : Dict (Value N) → Bool
  is_apart [] = true
  is_apart ((key, v) ∷ flat) = all_apart key flat && is_apart flat

  find_path-nest_from :
      (key : String) (flat : Dict (Value N)) (es : Entries N)
      → all_apart key flat ≡ true
      → find_path (split "." key) (nest_from flat es) ≡ find_path (split "." key) es
  unfolding nest_from
  find_path-nest_from key [] es h = refl
  find_path-nest_from key ((j, v) ∷ flat) es h =
      find_path-nest_from key flat _ (ground arith)
      ∙ find_path-apart (split "." j) (split "." key) v es (ground arith)

  put_own :
      (path : List String) (v : Value N) (es : Entries N)
      → is_cons path ≡ true
      → find_path path (put_path path v es) ≡ some v
  put_own [] v es h = ground arith
  put_own (p ∷ ps) v es h = find_path-put_path p ps v es

  find-nest_from :
      (key : String) (v : Value N) (flat : Dict (Value N)) (es : Entries N)
      → is_apart flat ≡ true
      → In (key, v) flat
      → find_path (split "." key) (nest_from flat es) ≡ some v
  unfolding nest_from is_apart
  find-nest_from key v [] es h at = not-In-nil at
  find-nest_from key v ((j, w) ∷ flat) es h (at_head e) =
      let same : key ≡ j = ap (λ p. p.0) e in
      let value : v ≡ w = ap (λ p. p.1) e in
      rw (same, value)
        (find_path-nest_from j flat _ (ground arith)
          ∙ put_own (split "." j) w es (split-is_cons "." j))
  find-nest_from key v ((j, w) ∷ flat) es h (later at) =
      find-nest_from key v flat _ (ground arith) at

  -- Where no key is the start of another, each value of the flat config stands in the nested one at
  -- the end of the path that the parts of its key make.
  pub find-nest_dot_keys :
      (key : String) (v : Value N) (flat : Dict (Value N))
      → is_apart flat ≡ true
      → In (key, v) flat
      → find_path (split "." key) (nest_dot_keys flat) ≡ some v
  unfolding nest_dot_keys
  find-nest_dot_keys key v flat h at = find-nest_from key v flat nothing h at
