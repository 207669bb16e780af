-- ===== src/Routes/Slugs.antt =====
-- The keys that `uniqueSlugger` hands out.
use vortex_flow.Common.{
  ℕ, zero, suc, ◌≤◌, String, true, false, List, [], ◌∷◌, ◌≡◌, ◌≢◌, refl, ap, sym, ◌∙◌, inl, inr,
  has, Distinct, all, length, show, show-inj, slug, ◌+s◌, ◌∷ᶜ◌, Bool-cases, arith, length-Distinct,
  text_append_cancel_left, text_append_nil, cons-append, test_of_ne,
}
use vortex_flow.Routes.{numbered, next_key, key_of}

-- The first `f` keys that the loop tries.
tries : ℕ → String → String → ℕ → List String
tries zero base key n = []
tries (suc f) base key n = key ∷ tries f base (numbered base n) (suc n)

length-tries : (f : ℕ) (base key : String) (n : ℕ) → length (tries f base key n) ≡ f
unfolding tries
length-tries zero base key n = refl
length-tries (suc f) base key n = ap suc (length-tries f base (numbered base n) (suc n))

numbered-inj : (base : String) (n m : ℕ) → numbered base n ≡ numbered base m → n ≡ m
numbered-inj base n m e =
    show-inj n m
      (text_append_cancel_left "_" (show n) (show m) (text_append_cancel_left base _ _ e))

numbered-ne : (base : String) (n : ℕ) → numbered base n ≢ base
numbered-ne base n e =
    let same : "_" +s show n ≡ "" =
      text_append_cancel_left base _ _ (e ∙ sym (text_append_nil base)) in
    let cons : "_" ∷ᶜ ("" +s show n) ≡ "" = sym (cons-append "_" "" (show n)) ∙ same in cc

has-tries :
    (f : ℕ) (base a : String) (n : ℕ)
    → ((m : ℕ) → n ≤ m → numbered base m ≢ a)
    → has (tries f base (numbered base n) (suc n)) a ≡ false
unfolding tries
has-tries zero base a n h = refl
has-tries (suc f) base a n h =
    rw (test_of_ne (numbered base n) a (h n (omega arith)))
      (has-tries f base a (suc n) (λ m k. h m (omega (arith, k))))

Distinct-tries : (f : ℕ) (base : String) (n : ℕ) → Distinct (tries f base (numbered base n) (suc n))
unfolding tries
Distinct-tries zero base n = tt
Distinct-tries (suc f) base n = (
  has-tries f base (numbered base n) (suc n) (λ m k e. omega (arith, k, numbered-inj base m n e)),
  Distinct-tries f base (suc n),
)

Distinct-first_tries : (f : ℕ) (base : String) → Distinct (tries (suc f) base base 2)
unfolding tries
Distinct-first_tries f base =
    (has-tries f base base 2 (λ m k. numbered-ne base m), Distinct-tries f base 2)

all-tries :
    (f : ℕ) (used : List String) (base key : String) (n : ℕ)
    → has used (next_key f used base key n) ≡ true
    → all (has used) (tries f base key n) ≡ true
unfolding tries next_key
all-tries zero used base key n h = refl
all-tries (suc f) used base key n h = elim (Bool-cases (has used key)) [
  | inl e ↦ rw e (all-tries f used base (numbered base n) (suc n) (rw e at h))
  | inr e ↦ ground (arith, h, e)
]

-- The loop ends within the rounds that it is given, and the key that it finds is not in use.
pub has-key_of :
    (used : List String) (raw fallback : String) → has used (key_of used raw fallback) ≡ false
unfolding key_of
has-key_of used raw fallback =
    let base = slug raw fallback in
    let f = suc (length used) in
    elim (Bool-cases (has used (next_key f used base base 2))) [
      | inl e ↦ ground (
        arith,
        length-tries f base base 2,
        length-Distinct (tries f base base 2) used (Distinct-first_tries (length used) base)
            (all-tries f used base base 2 e),
      )
      | inr e ↦ e
    ]
