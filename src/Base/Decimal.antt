-- ===== src/Base/Decimal.antt =====
-- Decimal notation of natural numbers: `str(n)` and `int(s)`.
use Prim.Native.Char.{code}
use Prim.Native.String.{String, ◌++◌}
use text.Mathlib.TextLemmas.{nil-append, cons-append}
use native.Mathlib.Omega.{arith}
use Prim.Native.Nat.{ℕ, zero, suc, ◌+◌, ◌-◌, ◌*◌, ◌/◌, ◌%◌, ◌≤◌, ◌<◌}
use mathlib.Core.Path.{◌≡◌, sym, ap, ◌∙◌}
use mathlib.Core.Bool.{Bool, true, ◌&&◌}
use mathlib.Core.Option.{Option, none, some}
use xoc_api_aws.Base.Tests.{ltb, leb, ◌==◌, if◌then◌else◌, Bool-cases}
use mathlib.Core.Logic.{inl, inr}

digit : ℕ → String
digit zero = "0"
digit (suc zero) = "1"
digit (suc (suc zero)) = "2"
digit (suc (suc (suc zero))) = "3"
digit (suc (suc (suc (suc zero)))) = "4"
digit (suc (suc (suc (suc (suc zero))))) = "5"
digit (suc (suc (suc (suc (suc (suc zero)))))) = "6"
digit (suc (suc (suc (suc (suc (suc (suc zero))))))) = "7"
digit (suc (suc (suc (suc (suc (suc (suc (suc zero)))))))) = "8"
digit _ = "9"

-- Each round drops a digit, so `n` rounds are enough.
show_within : ℕ → ℕ → String
show_within zero n = digit n
show_within (suc fuel) n =
    let shorter = show_within fuel (n / 10) ++ digit (n % 10) in
    if ltb n 10 then digit n else shorter

-- `str(n)` for an integer n ≥ 0
unfoldable pub show_nat : ℕ → String
unfolding digit show_within
show_nat n = show_within n n

-- The number that the digits of a text stand for.
read_from : ℕ → String → ℕ
read_from acc String.[] = acc
read_from acc (String.◌∷◌ c s) = read_from (acc * 10 + (code c - 48)) s

read_from-append : (s t : String) (acc : ℕ) → read_from acc (s ++ t) ≡ read_from (read_from acc s) t
unfolding read_from
read_from-append String.[] t acc = rw nil-append
read_from-append (String.◌∷◌ c s) t acc =
    rw cons-append (read_from-append s t (acc * 10 + (code c - 48)))

read-digit : (d acc : ℕ) → d < 10 → read_from acc (digit d) ≡ acc * 10 + d
unfolding read_from digit
read-digit zero acc h = omega arith
read-digit (suc zero) acc h = omega arith
read-digit (suc (suc zero)) acc h = omega arith
read-digit (suc (suc (suc zero))) acc h = omega arith
read-digit (suc (suc (suc (suc zero)))) acc h = omega arith
read-digit (suc (suc (suc (suc (suc zero))))) acc h = omega arith
read-digit (suc (suc (suc (suc (suc (suc zero)))))) acc h = omega arith
read-digit (suc (suc (suc (suc (suc (suc (suc zero))))))) acc h = omega arith
read-digit (suc (suc (suc (suc (suc (suc (suc (suc zero)))))))) acc h = omega arith
read-digit (suc (suc (suc (suc (suc (suc (suc (suc (suc k))))))))) acc h =
    ap (λ t. acc * 10 + t) (omega arith)

-- One more digit at the end.
read-append-digit :
    (s : String) (d : ℕ) → d < 10 → read_from 0 (s ++ digit d) ≡ read_from 0 s * 10 + d
read-append-digit s d h = read_from-append s (digit d) 0 ∙ read-digit d (read_from 0 s) h

read-show_within : (fuel n : ℕ) → n ≤ fuel → read_from 0 (show_within fuel n) ≡ n
unfolding show_within
read-show_within zero n h = rw (read-digit n 0 (omega arith)) (omega arith)
read-show_within (suc fuel) n h = elim (Bool-cases (ltb n 10)) [
  | inl small ↦ rw small (rw (read-digit n 0 (ground arith)) (omega arith))
  | inr large ↦ rw large (
      rw
        (read-append-digit (show_within fuel (n / 10)) (n % 10) (omega arith)
          ∙ ap (λ t. t * 10 + n % 10) (read-show_within fuel (n / 10) (omega arith)))
        (omega arith))
]

-- Decimal notation determines the number.
pub show_nat-injective : (m n : ℕ) → show_nat m ≡ show_nat n → m ≡ n
unfolding show_nat
show_nat-injective m n h =
    sym (read-show_within m m (omega arith))
    ∙ ap (read_from 0) h
    ∙ read-show_within n n (omega arith)

-- `int(s)` for a text of ASCII digits; a text of another form is refused.
all_digits : String → Bool
all_digits String.[] = true
all_digits (String.◌∷◌ c s) = leb b'0' (code c) && leb (code c) b'9' && all_digits s

unfoldable pub read_nat : String → Option ℕ
unfolding read_from all_digits
read_nat s = if s == "" then none else if all_digits s then some (read_from 0 s) else none
