-- ===== src/Base/Text.antt =====
-- Text as the standard library reads and writes it: UTF-8 bytes, little-endian bytes of an integer,
-- decimal printing and parsing, and splitting at a character.
use Prim.Native.Char.{code}
use Prim.Native.Nat.{ℕ, zero, suc, ◌+◌, ◌-◌, ◌*◌, ◌/◌, ◌%◌}
use Prim.Native.String.{String, ◌++◌ as append_text, ◌∷◌ as cons_text}
use mathlib.Core.Bool.{Bool, ◌&&◌}
use mathlib.Core.Option.{Option, none, some}
use mathlib.Core.List.{List, [], ◌∷◌, ◌++◌, append_assoc}
use mathlib.Core.Path.{◌≡◌, refl, sym, ap, ◌∙◌}
use text.Mathlib.TextLemmas.{nil-append, cons-append}
use kerosene_node.Base.Int.{ℤ, pos, negsuc}
use kerosene_node.Base.Tests.{ltb, leb, nat_beq, if◌then◌else◌}

infixr 66 ◌+++◌
-- Concatenation of texts.
abbrev pub ◌+++◌ : String → String → String
s +++ t = append_text s t

abbrev pub is_empty_text : String → Bool
is_empty_text String.[] = Bool.true
is_empty_text (String.◌∷◌ _ _) = Bool.false

-- The code points of a text.
abbrev pub codes : String → List ℕ
codes String.[] = []
codes (String.◌∷◌ c s) = code c ∷ codes s

-- The UTF-8 encoding of one code point.
abbrev pub utf8_code : ℕ → List ℕ
utf8_code c =
    if ltb c 128
    then c ∷ []
    else if ltb c 2048
    then (192 + c / 64) ∷ (128 + c % 64) ∷ []
    else if ltb c 65536
    then (224 + c / 4096) ∷ (128 + c / 64 % 64) ∷ (128 + c % 64) ∷ []
    else (240 + c / 262144) ∷ (128 + c / 4096 % 64) ∷ (128 + c / 64 % 64) ∷ (128 + c % 64) ∷ []

utf8_codes : List ℕ → List ℕ
utf8_codes [] = []
utf8_codes (c ∷ cs) = utf8_code c ++ utf8_codes cs

-- `str::as_bytes`
unfoldable pub as_bytes : String → List ℕ
unfolding utf8_codes
as_bytes s = utf8_codes (codes s)

-- `to_le_bytes` of a `k`-byte integer
unfoldable pub to_le_bytes : ℕ → ℕ → List ℕ
to_le_bytes zero n = []
to_le_bytes (suc k) n = (n % 256) ∷ to_le_bytes k (n / 256)

digit_text : ℕ → String
digit_text d =
    if nat_beq d 0
    then "0"
    else if nat_beq d 1
    then "1"
    else if nat_beq d 2
    then "2"
    else if nat_beq d 3
    then "3"
    else if nat_beq d 4
    then "4"
    else if nat_beq d 5
    then "5"
    else if nat_beq d 6
    then "6"
    else if nat_beq d 7
    then "7"
    else if nat_beq d 8
    then "8"
    else "9"

-- The decimal digits of `n`, for at most `fuel` digits.
decimal_digits : ℕ → ℕ → String
unfolding digit_text
decimal_digits zero n = ""
decimal_digits (suc fuel) n =
    let high = decimal_digits fuel (n / 10) in
    if ltb n 10 then digit_text n else high +++ digit_text (n % 10)

-- `{}` of an unsigned integer of at most 128 bits, which has at most 39 digits
unfoldable pub decimal : ℕ → String
unfolding decimal_digits
decimal n = decimal_digits 39 n

parse_digits : ℕ → ℕ → List ℕ → Option ℕ
parse_digits limit acc [] = some acc
parse_digits limit acc (c ∷ cs) =
    let rest = parse_digits limit (acc * 10 + (c - 48)) cs in
    if leb 48 c && leb c 57 && ltb (acc * 10 + (c - 48)) limit then rest else none

-- `str::parse` into an unsigned integer below `limit`: an optional `+`, then one or more digits.
unfoldable pub parse_codes : ℕ → List ℕ → Option ℕ
unfolding parse_digits
parse_codes limit [] = none
parse_codes limit (c ∷ cs) =
    if nat_beq c 43
    then elim cs [ [] ↦ none | d ∷ ds ↦ parse_digits limit 0 (d ∷ ds) ]
    else parse_digits limit 0 (c ∷ cs)

abbrev pub parse_unsigned : ℕ → String → Option ℕ
parse_unsigned limit s = parse_codes limit (codes s)

-- `str::split_once`: the parts before and after the first `sep`.
unfoldable pub split_once : ℕ → String → Option (String × String)
split_once sep String.[] = none
split_once sep (String.◌∷◌ c s) =
    if nat_beq (code c) sep then some ("", s) else elim (split_once sep s) [
      | none ↦ none
      | some (before, after) ↦ some (cons_text c before, after)
    ]

-- `{}` of a signed integer
unfoldable pub decimal_int : ℤ → String
decimal_int (pos n) = decimal n
decimal_int (negsuc n) = "-" +++ decimal (suc n)

codes-append : (s t : String) → codes (s +++ t) ≡ codes s ++ codes t
codes-append String.[] t = ap codes (nil-append t)
codes-append (String.◌∷◌ c s) t =
    ap codes (cons-append c s t) ∙ ap (λ (cs : List ℕ). code c ∷ cs) (codes-append s t)

utf8_codes-append : (xs ys : List ℕ) → utf8_codes (xs ++ ys) ≡ utf8_codes xs ++ utf8_codes ys
unfolding utf8_codes
utf8_codes-append [] ys = refl
utf8_codes-append (x ∷ xs) ys =
    ap (λ (bs : List ℕ). utf8_code x ++ bs) (utf8_codes-append xs ys)
    ∙ sym (append_assoc (utf8_code x) (utf8_codes xs) (utf8_codes ys))

-- The bytes of a concatenation.
pub as_bytes-append : (s t : String) → as_bytes (s +++ t) ≡ as_bytes s ++ as_bytes t
unfolding as_bytes
as_bytes-append s t = ap utf8_codes (codes-append s t) ∙ utf8_codes-append (codes s) (codes t)
