-- ===== src/CatalogGen/Outcome.antt =====
-- How a call ends: it returns, it throws a TypeError, or its recursion is deeper than the stack of the
-- engine, which is a number of calls here.
pub data Outcome (A : Type 0) : Type 0 where
  returns : A → Outcome A
  throws overflows : Outcome A

infixl 5 ◌>>=◌
abbrev pub ◌>>=◌ : {A B : Type 0} → Outcome A → (A → Outcome B) → Outcome B
returns a >>= f = f a
throws >>= f = throws
overflows >>= f = overflows
