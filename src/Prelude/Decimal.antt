-- ===== src/Prelude/Decimal.antt =====
-- Python's `str` of a natural number, which names no two numbers alike.
use Prim.Native.Nat.{ℕ, zero, suc, ◌+◌, ◌-◌, ◌*◌, ◌/◌, ◌%◌, ◌<◌}
use Prim.Native.Char.{Char, code}
use Prim.Native.String.{String, [], ◌∷◌, ◌++◌}
use mathlib.Core.Path.{◌≡◌, refl, sym, ap, ◌∙◌}
use Prim.Native.String.append
use mathlib.Core.Option.{Option, none, some}
use mathlib.Core.Bool.{Bool, true, false, ◌&&◌}
use native.Mathlib.Omega.{arith}
use text.Mathlib.TextLemmas.{append_cancel_left}
use dev_team.Prelude.Tests.{if◌then◌else◌, ltb, leb, eqb}

digit : ℕ → Char
digit zero = "0"
digit (suc zero) = "1"
digit (suc (suc zero)) = "2"
digit (suc (suc (suc zero))) = "3"
digit (suc (suc (suc (suc zero)))) = "4"
digit (suc (suc (suc (suc (suc zero))))) = "5"
digit (suc (suc (suc (suc (suc (suc zero)))))) = "6"
digit (suc (suc (suc (suc (suc (suc (suc zero))))))) = "7"
digit (suc (suc (suc (suc (suc (suc (suc (suc zero)))))))) = "8"
digit (suc (suc (suc (suc (suc (suc (suc (suc (suc n))))))))) = "9"

code-digit : (d : ℕ) → d < 10 → code (digit d) - 48 ≡ d
unfolding digit
code-digit zero h = refl
code-digit (suc zero) h = refl
code-digit (suc (suc zero)) h = refl
code-digit (suc (suc (suc zero))) h = refl
code-digit (suc (suc (suc (suc zero)))) h = refl
code-digit (suc (suc (suc (suc (suc zero))))) h = refl
code-digit (suc (suc (suc (suc (suc (suc zero)))))) h = refl
code-digit (suc (suc (suc (suc (suc (suc (suc zero))))))) h = refl
code-digit (suc (suc (suc (suc (suc (suc (suc (suc zero)))))))) h = refl
code-digit (suc (suc (suc (suc (suc (suc (suc (suc (suc zero))))))))) h = refl
code-digit (suc (suc (suc (suc (suc (suc (suc (suc (suc (suc n)))))))))) h = absurd (omega arith)

-- The digits of `n`, in front of `out`.
digits_before : ℕ → ℕ → String → String
digits_before zero n out = out
digits_before (suc fuel) n out =
    let out' = digit (n % 10) ∷ out in
    let rest = digits_before fuel (n / 10) out' in if ltb n 10 then out' else rest

unfoldable pub str : ℕ → String
unfolding digits_before digit
str n = digits_before (suc n) n ""

-- Python's `int` of a text of digits, after `acc`.
unfoldable pub value : String → ℕ → ℕ
value [] acc = acc
value (c ∷ s) acc = value s (acc * 10 + (code c - 48))

value-digits_before :
    (fuel n : ℕ) (out : String) → n < fuel → value (digits_before fuel n out) 0 ≡ value out n
unfolding digits_before value
value-digits_before zero n out h = absurd (omega arith)
value-digits_before (suc fuel) n out h =
    ground (arith, code-digit (n % 10), value-digits_before fuel (n / 10) (digit (n % 10) ∷ out))

pub str-inj : (m n : ℕ) → str m ≡ str n → m ≡ n
unfolding str value
str-inj m n e =
    sym (value-digits_before (suc m) m "" (omega arith))
    ∙ ap (λ s. value s 0) e
    ∙ value-digits_before (suc n) n "" (omega arith)

pub value-str : (n : ℕ) → value (str n) 0 ≡ n
unfolding str value
value-str n = value-digits_before (suc n) n "" (omega arith)

unfoldable pub is_digit : Char → Bool
is_digit c = leb 48 (code c) && leb (code c) 57

digit-is_digit : (d : ℕ) → d < 10 → is_digit (digit d) ≡ true
unfolding digit is_digit
digit-is_digit zero h = refl
digit-is_digit (suc zero) h = refl
digit-is_digit (suc (suc zero)) h = refl
digit-is_digit (suc (suc (suc zero))) h = refl
digit-is_digit (suc (suc (suc (suc zero)))) h = refl
digit-is_digit (suc (suc (suc (suc (suc zero))))) h = refl
digit-is_digit (suc (suc (suc (suc (suc (suc zero)))))) h = refl
digit-is_digit (suc (suc (suc (suc (suc (suc (suc zero))))))) h = refl
digit-is_digit (suc (suc (suc (suc (suc (suc (suc (suc zero)))))))) h = refl
digit-is_digit (suc (suc (suc (suc (suc (suc (suc (suc (suc zero))))))))) h = refl
digit-is_digit (suc (suc (suc (suc (suc (suc (suc (suc (suc (suc n)))))))))) h =
    absurd (omega arith)

-- `isdigit`, for texts of ASCII characters, but for the empty text.
unfoldable pub all_digits : String → Bool
all_digits [] = true
all_digits (c ∷ s) = is_digit c && all_digits s

unfoldable pub isdigit : String → Bool
unfolding all_digits is_digit
isdigit [] = false
isdigit (c ∷ s) = is_digit c && all_digits s

digits_before-all_digits :
    (fuel n : ℕ) (out : String)
    → all_digits out ≡ true
    → n < fuel
    → isdigit (digits_before fuel n out) ≡ true
unfolding digits_before all_digits isdigit
digits_before-all_digits zero n out a h = absurd (omega arith)
digits_before-all_digits (suc fuel) n out a h = ground (
  arith,
  a,
  digit-is_digit (n % 10),
  digits_before-all_digits fuel (n / 10) (digit (n % 10) ∷ out),
)

pub isdigit-str : (n : ℕ) → isdigit (str n) ≡ true
unfolding str all_digits
isdigit-str n = digits_before-all_digits (suc n) n "" refl (omega arith)

-- f"{s}-{n}"
unfoldable pub suffixed : String → ℕ → String
suffixed s n = s ++ ("-" ++ str n)

pub suffixed-inj : (s : String) (m n : ℕ) → suffixed s m ≡ suffixed s n → m ≡ n
unfolding suffixed
suffixed-inj s m n e =
    str-inj m n (append_cancel_left "-" _ _ (append_cancel_left s ("-" ++ str m) ("-" ++ str n) e))

-- f"{prefix}{n}"
unfoldable pub numbered : String → ℕ → String
numbered prefix n = prefix ++ str n

-- `s.startswith(prefix)`, and then `s[len(prefix):]`.
unfoldable pub after_prefix : String → String → Option String
after_prefix [] s = some s
after_prefix (c ∷ p) [] = none
after_prefix (c ∷ p) (d ∷ s) =
    let rest = after_prefix p s in if eqb (code c) (code d) then rest else none

after_prefix-append : (p s : String) → after_prefix p (p ++ s) ≡ some s
unfolding after_prefix
after_prefix-append [] s = ap some (append.nil s)
after_prefix-append (c ∷ p) s =
    ap (after_prefix (c ∷ p)) (append.cons c p s) ∙ ground (arith, after_prefix-append p s)

pub after_prefix-numbered : (p : String) (n : ℕ) → after_prefix p (numbered p n) ≡ some (str n)
unfolding numbered
after_prefix-numbered p n = after_prefix-append p (str n)
