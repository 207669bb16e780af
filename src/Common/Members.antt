-- ===== src/Common/Members.antt =====
-- Membership with its position kept, and what it says of `find`, `filter`, `map` and `any`.
use mathlib.Core.Path.{◌≡◌, refl, ap, sym}
use mathlib.Core.Logic.{◌⊎◌, inl, inr}
use mathlib.Core.Bool.{Bool, true, false}
use mathlib.Core.Option.{some}
use mathlib.Core.Option
use mathlib.Core.List.{List, [], ◌∷◌, ◌++◌, map}
use Prim.Native.String.{String}
use native.Mathlib.Omega.{arith}
use text.Mathlib.TextEquality.{eq_iff}
use text.Mathlib.TextPositions.{eq_refl}
use vortex_flow.Common.Tests.{◌==◌, Bool-cases}
use vortex_flow.Common.Lists.{any, find, filter, flat_map, has, Distinct}

pub data In {ℓ} {A : Type ℓ} (a : A) : List A → Type ℓ where
  at_head : {x : A} {xs : List A} → a ≡ x → In a (x ∷ xs)
  later : {x : A} {xs : List A} → In a xs → In a (x ∷ xs)

module _ {ℓ} {A : Type ℓ} where
  pub not-In-nil {κ} : {B : Type κ} {a : A} → In a [] → B
  not-In-nil h = elim h [ ]

  pub In-append_left : {a : A} (xs ys : List A) → In a xs → In a (xs ++ ys)
  In-append_left [] ys h = not-In-nil h
  In-append_left (x ∷ xs) ys (at_head e) = at_head e
  In-append_left (x ∷ xs) ys (later h) = later (In-append_left xs ys h)

  pub In-append_right : {a : A} (xs ys : List A) → In a ys → In a (xs ++ ys)
  In-append_right [] ys h = h
  In-append_right (x ∷ xs) ys h = later (In-append_right xs ys h)

  pub In-append : {a : A} (xs ys : List A) → In a (xs ++ ys) → In a xs ⊎ In a ys
  In-append [] ys h = inr h
  In-append (x ∷ xs) ys (at_head e) = inl (at_head e)
  In-append (x ∷ xs) ys (later h) = elim (In-append xs ys h) [
    | inl i ↦ inl (later i)
    | inr i ↦ inr i
  ]

  pub find-In : (p : A → Bool) (xs : List A) {a : A} → find p xs ≡ some a → In a xs × (p a ≡ true)
  find-In p [] h = cc
  find-In p (x ∷ xs) {a} h = elim (Bool-cases (p x)) [
    | inl e ↦ let same : x ≡ a = ground arith in (at_head (sym same), rw (← same) e)
    | inr e ↦ let (i, q) = find-In p xs (rw e at h) in (later i, q)
  ]

  pub In-filter : (p : A → Bool) (xs : List A) {a : A} → In a xs → p a ≡ true → In a (filter p xs)
  In-filter p [] h k = not-In-nil h
  In-filter p (x ∷ xs) {a} (at_head e) k = let q : p x ≡ true = rw (← e) k in rw q (at_head e)
  In-filter p (x ∷ xs) {a} (later h) k = elim (Bool-cases (p x)) [
    | inl q ↦ rw q (later (In-filter p xs h k))
    | inr q ↦ rw q (In-filter p xs h k)
  ]

  kept :
      (p : A → Bool) {x : A} {xs : List A} {a : A} (ys : List A)
      → (In a ys → In a xs × (p a ≡ true))
      → p x ≡ true
      → In a (x ∷ ys)
      → In a (x ∷ xs) × (p a ≡ true)
  kept p ys back q (at_head e) = (at_head e, rw e q)
  kept p ys back q (later i) = let (j, r) = back i in (later j, r)

  pub filter-In : (p : A → Bool) (xs : List A) {a : A} → In a (filter p xs) → In a xs × (p a ≡ true)
  filter-In p [] h = not-In-nil h
  filter-In p (x ∷ xs) {a} h = elim (Bool-cases (p x)) [
    | inl q ↦ kept p (filter p xs) (filter-In p xs) q (rw q at h)
    | inr q ↦ let (j, r) = filter-In p xs (rw q at h) in (later j, r)
  ]

  pub any-In : (p : A → Bool) (xs : List A) {a : A} → In a xs → p a ≡ true → any p xs ≡ true
  any-In p [] h k = not-In-nil h
  any-In p (x ∷ xs) (at_head e) k = let q : p x ≡ true = rw (← e) k in rw q
  any-In p (x ∷ xs) (later h) k = ground (arith, any-In p xs h k)

module _ {ℓ κ} {A : Type ℓ} {B : Type κ} (f : A → B) where
  pub In-map : (xs : List A) {a : A} → In a xs → In (f a) (map f xs)
  In-map [] h = not-In-nil h
  In-map (x ∷ xs) (at_head e) = at_head (ap f e)
  In-map (x ∷ xs) (later h) = later (In-map xs h)

  pub map-In : (xs : List A) {b : B} → In b (map f xs) → (a : A) × In a xs × (b ≡ f a)
  map-In [] h = not-In-nil h
  map-In (x ∷ xs) (at_head e) = (x, at_head refl, e)
  map-In (x ∷ xs) (later h) = let (a, i, e) = map-In xs h in (a, later i, e)

pub flat_map-In {ℓ κ} :
    {A : Type ℓ} {B : Type κ} (f : A → List B) (xs : List A) {b : B}
    → In b (flat_map f xs)
    → (a : A) × In a xs × In b (f a)
flat_map-In f [] h = not-In-nil h
flat_map-In f (x ∷ xs) h = elim (In-append (f x) (flat_map f xs) h) [
  | inl i ↦ (x, at_head refl, i)
  | inr i ↦ let (a, j, k) = flat_map-In f xs i in (a, later j, k)
]

pub In-any {ℓ} :
    {A : Type ℓ} (p : A → Bool) (xs : List A) → any p xs ≡ true → (a : A) × In a xs × (p a ≡ true)
In-any p [] h = cc
In-any p (x ∷ xs) h = elim (Bool-cases (p x)) [
  | inl e ↦ (x, at_head refl, e)
  | inr e ↦ let (a, i, q) = In-any p xs (rw e at h) in (a, later i, q)
]

pub has-In : (xs : List String) {a : String} → In a xs → has xs a ≡ true
has-In [] h = not-In-nil h
has-In (x ∷ xs) {a} (at_head e) = ground (arith, eq_iff x a)
has-In (x ∷ xs) (later h) = ground (arith, has-In xs h)

pub In-has : (xs : List String) (a : String) → has xs a ≡ true → In a xs
In-has [] a h = cc
In-has (x ∷ xs) a h = elim (Bool-cases (x == a)) [
  | inl e ↦ at_head (sym ((eq_iff x a).0 e))
  | inr e ↦ later (In-has xs a (ground arith))
]

-- A map that keeps the tested property keeps what `find` finds.
pub find-map {ℓ} :
    {A : Type ℓ} (p : A → Bool) (f : A → A)
    → ((x : A) → p (f x) ≡ p x)
    → (xs : List A) → find p (map f xs) ≡ Option.map f (find p xs)
find-map p f keeps [] = refl
find-map p f keeps (x ∷ xs) = elim (Bool-cases (p x)) [
  | inl e ↦ rw (keeps x, e) refl
  | inr e ↦ rw (keeps x, e) (find-map p f keeps xs)
]

-- With distinct keys, `find` by the key of a member finds that member.
pub find-Distinct {ℓ} :
    {A : Type ℓ} (key : A → String) (xs : List A) {a : A}
    → Distinct (map key xs)
    → In a xs
    → find (λ x. key x == key a) xs ≡ some a
find-Distinct key [] d h = not-In-nil h
find-Distinct key (x ∷ xs) {a} d (at_head e) = rw e (rw (eq_refl (key x)))
find-Distinct key (x ∷ xs) {a} d (later h) =
    let there = has-In (map key xs) (In-map key xs h) in
    let apart : (key x == key a) ≡ false =
      ground (arith, d.0, eq_iff (key x) (key a), ap (λ k. has (map key xs) k), there) in
    rw apart (find-Distinct key xs d.1 h)
