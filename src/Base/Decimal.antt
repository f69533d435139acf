-- ===== src/Base/Decimal.antt =====
-- Decimal printing, as `%d` and strconv.Itoa do it.
use Prim.Native.Nat.{ℕ, zero, suc, ◌+◌, ◌-◌, ◌*◌, ◌/◌, ◌%◌, ◌^◌, ◌<◌}
use Prim.Native.Char.{Char, code}
use Prim.Native.String.{String, [], ◌∷◌}
use mathlib.Core.Path.{◌≡◌, refl, sym, ap, ◌∙◌}
use mathlib.Core.Logic.{◌⊎◌}
use native.Mathlib.Omega.{arith}
use aizen_gate.Base.Tests.{ltb, if◌then◌else◌}
use aizen_gate.Base.Text.Laws.{Free}

-- The digit of a number below ten.
digit : ℕ → Char
digit zero = "0"
digit (suc zero) = "1"
digit (suc (suc zero)) = "2"
digit (suc (suc (suc zero))) = "3"
digit (suc (suc (suc (suc zero)))) = "4"
digit (suc (suc (suc (suc (suc zero))))) = "5"
digit (suc (suc (suc (suc (suc (suc zero)))))) = "6"
digit (suc (suc (suc (suc (suc (suc (suc zero))))))) = "7"
digit (suc (suc (suc (suc (suc (suc (suc (suc zero)))))))) = "8"
digit (suc (suc (suc (suc (suc (suc (suc (suc (suc n))))))))) = "9"

-- The digits of `n` before those of `out`; a fuel of `n + 1` is enough.
show_digits : ℕ → ℕ → String → String
show_digits zero n out = out
show_digits (suc fuel) n out =
    let rest = show_digits fuel (n / 10) (digit (n % 10) ∷ out) in
    if ltb n 10 then digit n ∷ out else rest

unfoldable pub show : ℕ → String
unfolding show_digits digit
show n = show_digits (suc n) n ""

-- An int64, as the bit pattern `n`.
unfoldable pub show_int64 : ℕ → String
unfolding show
show_int64 n = if ltb n (2 ^ 63) then show n else "-" ∷ show (2 ^ 64 - n)

-- The number that digits spell behind `acc`.
value : ℕ → String → ℕ
value acc [] = acc
value acc (c ∷ s) = value (acc * 10 + (code c - 48)) s

code-digit : (n : ℕ) → n < 10 → code (digit n) ≡ 48 + n
unfolding digit
code-digit zero h = refl
code-digit (suc zero) h = refl
code-digit (suc (suc zero)) h = refl
code-digit (suc (suc (suc zero))) h = refl
code-digit (suc (suc (suc (suc zero)))) h = refl
code-digit (suc (suc (suc (suc (suc zero))))) h = refl
code-digit (suc (suc (suc (suc (suc (suc zero)))))) h = refl
code-digit (suc (suc (suc (suc (suc (suc (suc zero))))))) h = refl
code-digit (suc (suc (suc (suc (suc (suc (suc (suc zero)))))))) h = refl
code-digit (suc (suc (suc (suc (suc (suc (suc (suc (suc zero))))))))) h = refl
code-digit (suc (suc (suc (suc (suc (suc (suc (suc (suc (suc n)))))))))) h = absurd (omega arith)

value-show_digits :
    (fuel n : ℕ) (out : String) → n < fuel → value 0 (show_digits fuel n out) ≡ value n out
unfolding show_digits value
value-show_digits zero n out h = elim h [ ]
value-show_digits (suc fuel) n out h = ground (
  arith,
  value-show_digits fuel (n / 10) (digit (n % 10) ∷ out),
  code-digit n,
  code-digit (n % 10),
)

-- Two numbers with the same print are the same.
pub show_inj : (n m : ℕ) → show n ≡ show m → n ≡ m
unfolding show value
show_inj n m e =
    sym (value-show_digits (suc n) n "" (omega arith))
    ∙ ap (value 0) e
    ∙ value-show_digits (suc m) m "" (omega arith)

-- A code that is none of a digit.
abbrev pub IsNoDigit : ℕ → Type 0
IsNoDigit sep = (sep < 48) ⊎ (57 < sep)

show_digits-Free :
    (fuel n sep : ℕ) (out : String)
    → IsNoDigit sep
    → Free sep out
    → Free sep (show_digits fuel n out)
unfolding show_digits
show_digits-Free zero n sep out h k = k
show_digits-Free (suc fuel) n sep out h k = ground (
  arith,
  show_digits-Free fuel (n / 10) sep (digit (n % 10) ∷ out) h,
  code-digit n,
  code-digit (n % 10),
)

-- A print holds digits alone.
pub show-Free : (n sep : ℕ) → IsNoDigit sep → Free sep (show n)
unfolding show
show-Free n sep h = show_digits-Free (suc n) n sep "" h tt

show_tests : (show 0 ≡ "0") × (show 502 ≡ "502") × (show_int64 (2 ^ 64 - 12) ≡ "-12")
unfolding show_int64
show_tests = (refl, refl, refl)
