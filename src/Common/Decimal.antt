-- ===== src/Common/Decimal.antt =====
-- `String(n)` for a natural number.
use Prim.Native.Nat.{ℕ, zero, suc, ◌/◌, ◌%◌}
use Prim.Native.String.{String}
use vortex_flow.Common.Tests.{nat_eq, ltb, if◌then◌else◌}
use vortex_flow.Common.Text.{◌+s◌}

unfoldable pub digit : ℕ → String
digit d =
    if nat_eq d 0
    then "0"
    else if nat_eq d 1
    then "1"
    else if nat_eq d 2
    then "2"
    else if nat_eq d 3
    then "3"
    else if nat_eq d 4
    then "4"
    else if nat_eq d 5
    then "5"
    else if nat_eq d 6
    then "6"
    else if nat_eq d 7
    then "7"
    else if nat_eq d 8
    then "8"
    else "9"

-- The digits of `n` before `rest`; as many rounds as `n + 1` are more than it has digits.
unfoldable pub show_from : ℕ → ℕ → String → String
unfolding digit
show_from zero n rest = rest
show_from (suc f) n rest =
    let more = show_from f (n / 10) (digit (n % 10) +s rest) in
    if ltb n 10 then digit n +s rest else more

unfoldable pub show : ℕ → String
unfolding show_from
show n = show_from (suc n) n ""
