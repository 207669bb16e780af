-- ===== src/CatalogGen/Ensures.antt =====
-- What is known of an outcome: a value that is returned satisfies `P`, and `Q` holds where the stack
-- was too small. One rule for each way to build a call.
use vortex_flow.Common.{Bool, true, false, ◌≡◌, refl, if◌then◌else◌}
use vortex_flow.CatalogGen.Outcome.{Outcome, returns, throws, overflows, ◌>>=◌}

pub data Ensures {A : Type 0} (P : A → Type 0) (Q : Type 0) : Outcome A → Type 0 where
  returned : {a : A} → P a → Ensures P Q (returns a)
  threw : Ensures P Q throws
  overflowed : Q → Ensures P Q overflows

-- Nothing is said of the value.
abbrev pub Any : {A : Type 0} → A → Type 0
Any a = Unit {0}

module _ {A : Type 0} {Q : Type 0} where
  pub Ensures-Any : (a : A) → Ensures Any Q (returns a)
  Ensures-Any a = returned tt

  pub Ensures-if :
      {P : A → Type 0} (b : Bool) (m n : Outcome A)
      → Ensures P Q m
      → Ensures P Q n
      → Ensures P Q (if b then m else n)
  Ensures-if true m n hm hn = hm
  Ensures-if false m n hm hn = hn

-- A branch may use how the test came out.
pub Ensures-if_eq :
    {A : Type 0} {P : A → Type 0} {Q : Type 0} (b : Bool) (m n : Outcome A)
    → (b ≡ true → Ensures P Q m)
    → (b ≡ false → Ensures P Q n)
    → Ensures P Q (if b then m else n)
Ensures-if_eq true m n hm hn = hm refl
Ensures-if_eq false m n hm hn = hn refl

pub Ensures-bind :
    {A B : Type 0} {P : A → Type 0} {R : B → Type 0} {Q : Type 0} (m : Outcome A)
    (f : A → Outcome B)
    → Ensures P Q m
    → ((a : A) → P a → Ensures R Q (f a))
    → Ensures R Q (m >>= f)
Ensures-bind (returns a) f (returned p) rest = rest a p
Ensures-bind throws f threw rest = threw
Ensures-bind overflows f (overflowed q) rest = overflowed q

pub Ensures-bind-Any :
    {A B : Type 0} {R : B → Type 0} {Q : Type 0} (m : Outcome A) (f : A → Outcome B)
    → Ensures Any Q m
    → ((a : A) → Ensures R Q (f a))
    → Ensures R Q (m >>= f)
Ensures-bind-Any m f h rest = Ensures-bind m f h (λ a u. rest a)

-- The rest of the block may use what was returned.
pub Ensures-bind_eq :
    {A B : Type 0} {R : B → Type 0} {Q : Type 0} (m : Outcome A) (f : A → Outcome B)
    → Ensures Any Q m
    → ((a : A) → m ≡ returns a → Ensures R Q (f a))
    → Ensures R Q (m >>= f)
Ensures-bind_eq (returns a) f h rest = rest a refl
Ensures-bind_eq throws f h rest = threw
Ensures-bind_eq overflows f (overflowed q) rest = overflowed q

pub Ensures-mono :
    {A : Type 0} {P R : A → Type 0} {Q S : Type 0} {m : Outcome A}
    → ((a : A) → P a → R a)
    → (Q → S)
    → Ensures P Q m
    → Ensures R S m
Ensures-mono p q (returned h) = returned (p _ h)
Ensures-mono p q threw = threw
Ensures-mono p q (overflowed h) = overflowed (q h)

pub ruleset ensures_rules = (Ensures-Any, threw, Ensures-if, Ensures-bind-Any)
