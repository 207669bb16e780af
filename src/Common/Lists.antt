-- ===== src/Common/Lists.antt =====
-- Lists with Boolean predicates, measured by native numbers; a JavaScript `Set` of strings as the
-- list of its elements in insertion order.
use Prim.Native.Nat.{ℕ, zero, suc, ◌+◌, ◌-◌}
use Prim.Native.String.{String}
use mathlib.Core.Path.{◌≡◌, refl, ap}
use mathlib.Core.Bool.{Bool, true, false, ◌&&◌, ◌||◌}
use mathlib.Core.Option.{Option, none, some}
use mathlib.Core.List.{List, [], ◌∷◌, ◌++◌, map, reverse, reverse-cons}
use native.Mathlib.Omega.{arith}
use text.Mathlib.TextEquality.{eq_iff}
use vortex_flow.Common.Tests.{◌==◌, if◌then◌else◌}

module _ {ℓ} {A : Type ℓ} where
  abbrev pub length : List A → ℕ
  length [] = 0
  length (x ∷ xs) = suc (length xs)

  pub length-append : (xs ys : List A) → length (xs ++ ys) ≡ length xs + length ys
  length-append [] ys = omega arith
  length-append (x ∷ xs) ys = omega (arith, length-append xs ys)

  abbrev pub any : (A → Bool) → List A → Bool
  any p [] = false
  any p (x ∷ xs) = p x || any p xs

  abbrev pub all : (A → Bool) → List A → Bool
  all p [] = true
  all p (x ∷ xs) = p x && all p xs

  abbrev pub find : (A → Bool) → List A → Option A
  find p [] = none
  find p (x ∷ xs) = if p x then some x else find p xs

  abbrev pub filter : (A → Bool) → List A → List A
  filter p [] = []
  filter p (x ∷ xs) = let rest = filter p xs in if p x then x ∷ rest else rest

  abbrev pub drop : ℕ → List A → List A
  drop zero xs = xs
  drop (suc n) [] = []
  drop (suc n) (x ∷ xs) = drop n xs

  pub length-drop : (n : ℕ) (xs : List A) → length (drop n xs) ≡ length xs - n
  length-drop zero xs = omega arith
  length-drop (suc n) [] = omega arith
  length-drop (suc n) (x ∷ xs) = omega (arith, length-drop n xs)

module _ {ℓ κ} {A : Type ℓ} {B : Type κ} where
  abbrev pub flat_map : (A → List B) → List A → List B
  flat_map f [] = []
  flat_map f (x ∷ xs) = f x ++ flat_map f xs

  pub length-map : (f : A → B) (xs : List A) → length (map f xs) ≡ length xs
  length-map f [] = refl
  length-map f (x ∷ xs) = ap suc (length-map f xs)

pub length-reverse {ℓ} : {A : Type ℓ} (xs : List A) → length (reverse xs) ≡ length xs
length-reverse [] = refl
length-reverse (x ∷ xs) =
    rw reverse-cons (omega (arith, length-append (reverse xs) (x ∷ []), length-reverse xs))

module _ {ℓ κ} {A : Type ℓ} (P : A → Type κ) where
  abbrev pub All : List A → Type κ
  All [] = Unit
  All (x ∷ xs) = P x × All xs

  pub All-append : (xs ys : List A) → All xs → All ys → All (xs ++ ys)
  All-append [] ys h k = k
  All-append (x ∷ xs) ys h k = (h.0, All-append xs ys h.1 k)

-- `xs.includes(a)`, `set.has(a)`
abbrev pub has : List String → String → Bool
has [] a = false
has (x ∷ xs) a = (x == a) || has xs a

pub has-append : (xs ys : List String) (a : String) → has (xs ++ ys) a ≡ (has xs a || has ys a)
has-append [] ys a = refl
has-append (x ∷ xs) ys a = ground (arith, has-append xs ys a)

pub has-reverse : (xs : List String) (a : String) → has (reverse xs) a ≡ has xs a
has-reverse [] a = refl
has-reverse (x ∷ xs) a = rw reverse-cons (rw has-append (ground (arith, has-reverse xs a)))

-- No string stands twice.
abbrev pub Distinct : List String → Type 0
Distinct [] = Unit
Distinct (x ∷ xs) = (has xs x ≡ false) × Distinct xs

-- `set.add(a)`
abbrev pub add : List String → String → List String
add xs a = if has xs a then xs else xs ++ (a ∷ [])

pub has-add : (xs : List String) (a b : String) → has (add xs a) b ≡ (has xs b || (a == b))
has-add xs a b = ground (arith, has-append xs (a ∷ []) b, has_same xs a b)
  where
    has_same : (xs : List String) (a b : String) → (a == b) ≡ true → has xs a ≡ has xs b
    has_same xs a b h = ap (has xs) ((eq_iff a b).0 h)

pub Distinct-snoc :
    (xs : List String) (a : String) → Distinct xs → has xs a ≡ false → Distinct (xs ++ (a ∷ []))
Distinct-snoc [] a h k = (refl, tt)
Distinct-snoc (x ∷ xs) a h k = (
  ground (arith, has-append xs (a ∷ []) x, eq_iff a x, eq_iff x a),
  Distinct-snoc xs a h.1 (ground arith),
)

pub Distinct-add : (xs : List String) (a : String) → Distinct xs → Distinct (add xs a)
Distinct-add xs a h = ground (arith, Distinct-snoc xs a h)

-- `Array.from(new Set(xs))`
abbrev pub uniq_from : List String → List String → List String
uniq_from seen [] = seen
uniq_from seen (x ∷ xs) = uniq_from (add seen x) xs

unfoldable pub uniq : List String → List String
uniq xs = uniq_from [] xs

has-uniq_from :
    (seen xs : List String) (a : String) → has (uniq_from seen xs) a ≡ (has seen a || has xs a)
has-uniq_from seen [] a = ground arith
has-uniq_from seen (x ∷ xs) a = ground (arith, has-uniq_from (add seen x) xs a, has-add seen x a)

pub has-uniq : (xs : List String) (a : String) → has (uniq xs) a ≡ has xs a
unfolding uniq
has-uniq xs a = has-uniq_from [] xs a

Distinct-uniq_from : (seen xs : List String) → Distinct seen → Distinct (uniq_from seen xs)
Distinct-uniq_from seen [] h = h
Distinct-uniq_from seen (x ∷ xs) h = Distinct-uniq_from (add seen x) xs (Distinct-add seen x h)

pub Distinct-uniq : (xs : List String) → Distinct (uniq xs)
unfolding uniq
Distinct-uniq xs = Distinct-uniq_from [] xs tt
