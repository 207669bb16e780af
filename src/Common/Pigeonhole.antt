-- ===== src/Common/Pigeonhole.antt =====
-- More distinct texts than a list holds do not all stand in it.
use Prim.Native.Nat.{suc, ◌≤◌}
use Prim.Native.String.{String}
use mathlib.Core.Path.{◌≡◌, refl}
use mathlib.Core.Bool.{true, false, not}
use mathlib.Core.Logic.{inl, inr}
use mathlib.Core.List.{List, [], ◌∷◌}
use native.Mathlib.Omega.{arith}
use text.Mathlib.TextEquality.{eq_iff}
use vortex_flow.Common.Tests.{◌==◌, Bool-cases}
use vortex_flow.Common.Lists.{length, has, all, filter, Distinct}

without : String → List String → List String
without a xs = filter (λ x. not (x == a)) xs

length-without_le : (a : String) (xs : List String) → length (without a xs) ≤ length xs
unfolding without
length-without_le a [] = omega arith
length-without_le a (x ∷ xs) = elim (Bool-cases (x == a)) [
  | inl e ↦ rw e (omega (arith, length-without_le a xs))
  | inr e ↦ rw e (omega (arith, length-without_le a xs))
]

length-without :
    (a : String) (xs : List String) → has xs a ≡ true → suc (length (without a xs)) ≤ length xs
unfolding without
length-without a [] h = cc
length-without a (x ∷ xs) h = elim (Bool-cases (x == a)) [
  | inl e ↦ rw e (omega (arith, length-without_le a xs))
  | inr e ↦ rw e (omega (arith, length-without a xs (rw e at h)))
]

has-without :
    (a b : String) (xs : List String)
    → (a == b) ≡ false
    → has xs b ≡ true
    → has (without a xs) b ≡ true
unfolding without
has-without a b [] e h = cc
has-without a b (x ∷ xs) e h =
    ground (arith, eq_iff x a, eq_iff x b, eq_iff a b, has-without a b xs e)

all-without :
    (a : String) (xs ys : List String)
    → has xs a ≡ false
    → all (has ys) xs ≡ true
    → all (has (without a ys)) xs ≡ true
all-without a [] ys e h = refl
all-without a (x ∷ xs) ys e h =
    ground (arith, eq_iff x a, eq_iff a x, has-without a x ys, all-without a xs ys)

-- Distinct texts that all stand in a list are no more than its length.
pub length-Distinct :
    (xs ys : List String) → Distinct xs → all (has ys) xs ≡ true → length xs ≤ length ys
length-Distinct [] ys d h = omega arith
length-Distinct (x ∷ xs) ys d h =
    let there : has ys x ≡ true = ground arith in
    let others : all (has ys) xs ≡ true = ground arith in
    omega (
      arith,
      length-without x ys there,
      length-Distinct xs (without x ys) d.1 (all-without x xs ys d.0 others),
    )
