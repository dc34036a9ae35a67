-- ===== src/Prelude/Texts.antt =====
-- Texts as the lists of their bytes, and the decimal numbers of `snprintf`, `strtol` and `strtoull`.
use Prim.Native.Nat.{ℕ, zero, suc, ◌+◌, ◌-◌, ◌*◌, ◌/◌, ◌%◌, ◌≤◌, ◌<◌}
use Prim.Native.Char.{code}
use Prim.Native.String.{String}
use mathlib.Core.Path.{◌≡◌, refl, ap, ◌∙◌}
use mathlib.Core.Logic.{inl, inr}
use mathlib.Core.Bool.{Bool, true, false, ◌&&◌}
use mathlib.Core.Option.{Option, none, some}
use mathlib.Core.List.{List, [], ◌∷◌, ◌++◌, append_assoc}
use native.Mathlib.Omega.{arith}
use canshift_firmware.Prelude.Tests.{ltb, leb, ◌==◌, if◌then◌else◌, Bool-cases}
use canshift_firmware.Prelude.Lists.{length, length-append}

-- The bytes of an ASCII text.
abbrev pub codes : String → List ℕ
codes String.[] = []
codes (String.◌∷◌ c s) = code c ∷ codes s

abbrev pub is_digit : ℕ → Bool
is_digit c = leb b'0' c && leb c b'9'

-- The decimal digits of a number up to `fuel`; every round divides it by ten.
pub print_digits : ℕ → ℕ → List ℕ
print_digits zero n = (b'0' + n) ∷ []
print_digits (suc fuel) n =
    let higher = print_digits fuel (n / 10) ++ ((b'0' + n % 10) ∷ []) in
    if ltb n 10 then (b'0' + n) ∷ [] else higher

-- `%lu`
unfoldable pub decimal : ℕ → List ℕ
unfolding print_digits
decimal n = print_digits n n

-- The number that leading digits spell after others that spelled `n`, and the text after them.
unfoldable pub read_digits : ℕ → List ℕ → ℕ × List ℕ
read_digits n [] = (n, [])
read_digits n (c ∷ cs) = if is_digit c then read_digits (n * 10 + (c - b'0')) cs else (n, c ∷ cs)

-- A text that does not go on with a digit.
abbrev pub EndsDigits : List ℕ → Type 0
EndsDigits [] = Unit
EndsDigits (c ∷ cs) = is_digit c ≡ false

read_last :
    (n : ℕ) (rest : List ℕ) → read_digits (n / 10) ((b'0' + n % 10) ∷ rest) ≡ read_digits n rest
unfolding read_digits
read_last n rest = ground arith

print_digits_read :
    (fuel n : ℕ) (rest : List ℕ)
    → n ≤ fuel
    → read_digits 0 (print_digits fuel n ++ rest) ≡ read_digits n rest
unfolding read_digits print_digits
print_digits_read zero n rest h = ground arith
print_digits_read (suc fuel) n rest h = elim (Bool-cases (ltb n 10)) [
  | inl e ↦ rw (e, print_digits) (ground arith)
  | inr e ↦
      rw (e, print_digits)
        (ap (read_digits 0) (append_assoc (print_digits fuel (n / 10)) ((b'0' + n % 10) ∷ []) rest)
          ∙ print_digits_read fuel (n / 10) ((b'0' + n % 10) ∷ rest) (ground arith)
          ∙ read_last n rest)
]

read_end : (n : ℕ) (rest : List ℕ) → EndsDigits rest → read_digits n rest ≡ (n, rest)
unfolding read_digits
read_end n [] h = refl
read_end n (c ∷ rest) h = rw h refl

-- What was printed is read back.
pub read_digits-decimal :
    (n : ℕ) (rest : List ℕ) → EndsDigits rest → read_digits 0 (decimal n ++ rest) ≡ (n, rest)
unfolding decimal
read_digits-decimal n rest h = print_digits_read n n rest (omega arith) ∙ read_end n rest h

abbrev StartsDigit : List ℕ → Type 0
StartsDigit text = (c : ℕ) × (cs : List ℕ) × (text ≡ c ∷ cs) × (is_digit c ≡ true)

head_lem : (fuel n : ℕ) → n ≤ fuel → StartsDigit (print_digits fuel n)
unfolding print_digits
head_lem zero n h = (b'0' + n, [], refl, ground arith)
head_lem (suc fuel) n h = elim (Bool-cases (ltb n 10)) [
  | inl e ↦ rw (e, print_digits) (b'0' + n, [], refl, ground arith)
  | inr e ↦
      let (c, cs, p, d) = head_lem fuel (n / 10) (ground arith) in
      rw (e, print_digits)
        (c, cs ++ ((b'0' + n % 10) ∷ []), ap (λ t. t ++ ((b'0' + n % 10) ∷ [])) p, d)
]

-- A printed number starts with a digit.
pub decimal_head : (n : ℕ) → (c : ℕ) × (cs : List ℕ) × (decimal n ≡ c ∷ cs) × (is_digit c ≡ true)
unfolding decimal
decimal_head n = head_lem n n (omega arith)

abbrev tens : ℕ → ℕ
tens zero = 10
tens (suc k) = 10 * tens k

length_digits : (k fuel n : ℕ) → n ≤ fuel → n < tens k → length (print_digits fuel n) ≤ k + 1
unfolding print_digits
length_digits k zero n h lt = omega arith
length_digits zero (suc fuel) n h lt = ground arith
length_digits (suc k) (suc fuel) n h lt = ground (
  arith,
  length_digits k fuel (n / 10),
  length-append (print_digits fuel (n / 10)) ((b'0' + n % 10) ∷ []),
)

-- A `uint32_t` has ten digits at most.
pub length-decimal : (n : ℕ) → n < 4294967296 → length (decimal n) ≤ 10
unfolding decimal
length-decimal n h = length_digits 9 n n (omega arith) (omega arith)

-- The text after a prefix, where it has the prefix.
abbrev pub strip_prefix : List ℕ → List ℕ → Option (List ℕ)
strip_prefix [] text = some text
strip_prefix (a ∷ rest) [] = none
strip_prefix (a ∷ rest) (c ∷ cs) = if a == c then strip_prefix rest cs else none

pub strip_prefix_lem : (a text : List ℕ) → strip_prefix a (a ++ text) ≡ some text
strip_prefix_lem [] text = refl
strip_prefix_lem (c ∷ cs) text = ground (arith, strip_prefix_lem cs text)

-- The text after the first place of a key, as `strstr` finds it.
unfoldable pub after_key : List ℕ → List ℕ → Option (List ℕ)
after_key key [] = strip_prefix key []
after_key key (c ∷ cs) = elim (strip_prefix key (c ∷ cs)) [
  | some rest ↦ some rest
  | none ↦ after_key key cs
]
