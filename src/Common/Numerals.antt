-- ===== src/Common/Numerals.antt =====
-- Decimal numbers are read back, so that no two of them have the same digits; and the names that a
-- number makes of a text.
use Prim.Native.Char.{Char, code}
use Prim.Native.Nat.{ℕ, zero, suc, ◌+◌, ◌-◌, ◌*◌, ◌/◌, ◌%◌, ◌<◌}
use Prim.Native.String.{String}
use mathlib.Core.Path.{◌≡◌, ap, sym, ◌∙◌}
use mathlib.Core.Logic.{inl, inr}
use native.Mathlib.Omega.{arith}
use vortex_flow.Common.Tests.{ltb, Bool-cases}
use vortex_flow.Common.Text.{char-append, ◌+s◌, ◌∷ᶜ◌}
use vortex_flow.Common.Decimal.{digit, show_from, show}

-- The number that the digits of a text make after the digits of `acc`.
value : ℕ → String → ℕ
value acc String.[] = acc
value acc (String.◌∷◌ c s) = value (acc * 10 + (code c - 48)) s

value-char :
    (c : Char) (acc : ℕ) (rest : String)
    → value acc ((c ∷ᶜ "") +s rest) ≡ value (acc * 10 + (code c - 48)) rest
unfolding value
value-char c acc rest = ap (value acc) (char-append c rest)

value-digit :
    (d acc : ℕ) (rest : String) → d < 10 → value acc (digit d +s rest) ≡ value (acc * 10 + d) rest
unfolding digit
value-digit zero acc rest h = value-char "0" acc rest
value-digit (suc zero) acc rest h = value-char "1" acc rest
value-digit (suc (suc zero)) acc rest h = value-char "2" acc rest
value-digit (suc (suc (suc zero))) acc rest h = value-char "3" acc rest
value-digit (suc (suc (suc (suc zero)))) acc rest h = value-char "4" acc rest
value-digit (suc (suc (suc (suc (suc zero))))) acc rest h = value-char "5" acc rest
value-digit (suc (suc (suc (suc (suc (suc zero)))))) acc rest h = value-char "6" acc rest
value-digit (suc (suc (suc (suc (suc (suc (suc zero))))))) acc rest h = value-char "7" acc rest
value-digit (suc (suc (suc (suc (suc (suc (suc (suc zero)))))))) acc rest h =
    value-char "8" acc rest
value-digit (suc (suc (suc (suc (suc (suc (suc (suc (suc zero))))))))) acc rest h =
    value-char "9" acc rest
value-digit (suc (suc (suc (suc (suc (suc (suc (suc (suc (suc n)))))))))) acc rest h =
    omega (arith, h)

value-show_from : (f n : ℕ) (rest : String) → n < f → value 0 (show_from f n rest) ≡ value n rest
unfolding show_from
value-show_from zero n rest h = omega (arith, h)
value-show_from (suc f) n rest h = elim (Bool-cases (ltb n 10)) [
  | inl e ↦ rw e (value-digit n 0 rest (ground arith) ∙ ap (λ k. value k rest) (omega arith))
  | inr e ↦ rw e (
      value-show_from f (n / 10) (digit (n % 10) +s rest) (ground arith)
      ∙ value-digit (n % 10) (n / 10) rest (omega arith)
      ∙ ap (λ k. value k rest) (omega arith))
]

pub show-inj : (n m : ℕ) → show n ≡ show m → n ≡ m
unfolding show value
show-inj n m e =
    sym (value-show_from (suc n) n "" (omega arith))
    ∙ ap (value 0) e
    ∙ value-show_from (suc m) m "" (omega arith)
