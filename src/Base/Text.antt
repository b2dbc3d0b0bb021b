-- ===== src/Base/Text.antt =====
-- Go strings are native texts; `%d` of a number that is not negative is its decimal digits.
use Prim.Native.Nat.{ℕ, zero, suc, ◌+◌, ◌-◌, ◌*◌, ◌/◌, ◌%◌, ◌<◌}
use Prim.Native.Char.{Char, code}
use Prim.Native.String.{String}
use mathlib.Core.Bool.{Bool}
use mathlib.Core.Logic.{dite, dif_pos, dif_neg}
use mathlib.Core.Path.{◌≡◌, refl, sym, ◌∙◌, ap}
use mathlib.Core.WellFounded.{Acc, WellFounded}
use native.Mathlib.Bridge.{le_prop}
use native.Mathlib.Decide.{dec_lt}
use native.Mathlib.Omega.{arith}
use text.Mathlib.Text.{◌==◌}

abbrev pub str_eq : String → String → Bool
str_eq a b = a == b

digit : ℕ → Char
digit zero = "0"
digit (suc zero) = "1"
digit (suc (suc zero)) = "2"
digit (suc (suc (suc zero))) = "3"
digit (suc (suc (suc (suc zero)))) = "4"
digit (suc (suc (suc (suc (suc zero))))) = "5"
digit (suc (suc (suc (suc (suc (suc zero)))))) = "6"
digit (suc (suc (suc (suc (suc (suc (suc zero))))))) = "7"
digit (suc (suc (suc (suc (suc (suc (suc (suc zero)))))))) = "8"
digit _ = "9"

Acc-below : (k n : ℕ) → n < k → Acc ◌<◌ n
Acc-below zero n h = elim h [ ]
Acc-below (suc k) n h = Acc.intro n (λ m hm. Acc-below k m (omega arith))

lt_wf : WellFounded ◌<◌
unfolding Acc-below
lt_wf = record { apply = λ n. Acc-below (suc n) n (omega arith) }

tenth_lt : {n : ℕ} → 9 < n → n / 10 < n
tenth_lt h = omega arith

-- The digits of `n` in front of `out`: the last digit is written first.
emit : (n : ℕ) → Acc ◌<◌ n → String → String
emit n (Acc.intro _ smaller) out =
    dite (dec_lt 9 n)
      (λ h. emit (n / 10) (smaller (n / 10) (tenth_lt h)) (String.◌∷◌ (digit (n % 10)) out))
      (λ _. String.◌∷◌ (digit n) out)

unfoldable pub decimal : ℕ → String
unfolding emit lt_wf tenth_lt dec_lt digit
decimal n = emit n (lt_wf.apply n) ""

decimal_example : decimal 2048 ≡ "2048"
unfolding decimal
decimal_example = refl

-- The number that a text of digits stands for, read after `acc`.
read : ℕ → String → ℕ
read acc String.[] = acc
read acc (String.◌∷◌ c s) = read (acc * 10 + (code c - 48)) s

code-digit : (d : ℕ) → d < 10 → code (digit d) - 48 ≡ d
unfolding digit
code-digit zero h = refl
code-digit (suc zero) h = refl
code-digit (suc (suc zero)) h = refl
code-digit (suc (suc (suc zero))) h = refl
code-digit (suc (suc (suc (suc zero)))) h = refl
code-digit (suc (suc (suc (suc (suc zero))))) h = refl
code-digit (suc (suc (suc (suc (suc (suc zero)))))) h = refl
code-digit (suc (suc (suc (suc (suc (suc (suc zero))))))) h = refl
code-digit (suc (suc (suc (suc (suc (suc (suc (suc zero)))))))) h = refl
code-digit (suc (suc (suc (suc (suc (suc (suc (suc (suc zero))))))))) h = refl
code-digit (suc (suc (suc (suc (suc (suc (suc (suc (suc (suc n)))))))))) h = absurd (omega arith)

read-emit : (n : ℕ) (w : Acc ◌<◌ n) (out : String) → read 0 (emit n w out) ≡ read n out
unfolding emit read
read-emit n (Acc.intro _ smaller) out = elim (dec_lt 9 n) [
  | yes h ↦ rw (dif_pos _ le_prop h) (
      read-emit (n / 10) (smaller (n / 10) (tenth_lt h)) (String.◌∷◌ (digit (n % 10)) out)
      ∙ ap (λ k. read k out) (omega (arith, code-digit (n % 10) (omega arith))))
  | no h ↦ rw (dif_neg _ h) (ap (λ k. read k out) (omega (arith, code-digit n (omega arith))))
]

-- Different numbers are printed differently.
pub decimal_inj : (m n : ℕ) → decimal m ≡ decimal n → m ≡ n
unfolding decimal read
decimal_inj m n e =
    sym (read-emit m (lt_wf.apply m) "") ∙ ap (read 0) e ∙ read-emit n (lt_wf.apply n) ""
