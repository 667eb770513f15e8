-- ===== src/Phone.antt =====
-- src/utils/phone.ts: phone numbers as texts of code points, normalised to eleven digits.
pub mod Laws
pub mod RoundTrip
mod Tests
use leader_product_api.Base.{
  ℕ, zero, suc, ◌+◌, ◌*◌, ◌-◌, ◌/◌, ◌%◌, Bool, true, false, ◌&&◌, ◌||◌, not, Option, none, some,
  List, [], ◌∷◌, ◌++◌, leb, ◌==◌, if◌then◌else◌, length, take, drop, keep, is_empty,
}

pub is_digit : ℕ → Bool
is_digit c = leb b'0' c && leb c b'9'

-- `text.startsWith(c)` for one character.
abbrev pub starts_with : ℕ → List ℕ → Bool
starts_with c [] = false
starts_with c (d ∷ s) = c == d

-- `text.slice(from, to)`, within bounds.
abbrev pub slice : ℕ → ℕ → List ℕ → List ℕ
slice from to s = drop from (take to s)

-- `String(input ?? '').replace(/\D/g, '')`
pub sanitize_phone_for_search : List ℕ → List ℕ
unfolding is_digit
sanitize_phone_for_search input = keep is_digit input

add_country_code : List ℕ → List ℕ
add_country_code digits = if length digits == 10 then b'7' ∷ digits else digits

replace_trunk_prefix : List ℕ → List ℕ
replace_trunk_prefix digits =
    if length digits == 11 && starts_with b'8' digits then b'7' ∷ drop 1 digits else digits

check_digits11 : List ℕ → Option (List ℕ)
check_digits11 digits =
    if not (length digits == 11) || not (starts_with b'7' digits) then none else some digits

normalize_digits : List ℕ → Option (List ℕ)
unfolding add_country_code replace_trunk_prefix check_digits11
normalize_digits digits =
    if is_empty digits
    then none
    else check_digits11 (replace_trunk_prefix (add_country_code digits))

unfoldable pub normalize_phone_to_digits11 : List ℕ → Option (List ℕ)
unfolding normalize_digits sanitize_phone_for_search
normalize_phone_to_digits11 input = normalize_digits (sanitize_phone_for_search input)

-- `BigInt(digits)` on a text of digits.
value_from : ℕ → List ℕ → ℕ
value_from acc [] = acc
value_from acc (c ∷ s) = value_from (acc * 10 + (c - b'0')) s

pub big_int : List ℕ → ℕ
unfolding value_from
big_int digits = value_from 0 digits

unfoldable pub normalize_phone_to_big_int : List ℕ → Option ℕ
unfolding big_int normalize_phone_to_digits11
normalize_phone_to_big_int input = elim (normalize_phone_to_digits11 input) [
  | none ↦ none
  | some digits ↦ some (big_int digits)
]

-- `String(value)` of a number, digit by digit from the right; the fuel bounds the digits.
print_from : ℕ → ℕ → List ℕ → List ℕ
print_from zero n rest = rest
print_from (suc fuel) n rest =
    let more = print_from fuel (n / 10) ((b'0' + n % 10) ∷ rest) in
    if n / 10 == 0 then (b'0' + n % 10) ∷ rest else more

pub print : ℕ → List ℕ
unfolding print_from
print n = print_from (suc n) n []

unfoldable pub to_api_phone_string : Option ℕ → Option (List ℕ)
unfolding print normalize_phone_to_digits11
to_api_phone_string none = none
to_api_phone_string (some value) = normalize_phone_to_digits11 (print value)

abbrev display : List ℕ → List ℕ
display digits =
    b'+' ∷ b'7' ∷ b' ' ∷ b'(' ∷ slice 1 4 digits
    ++ (b')' ∷ b' ' ∷ slice 4 7 digits ++ (b'-' ∷ slice 7 9 digits ++ (b'-' ∷ slice 9 11 digits)))

pub format_digits11_to_display : List ℕ → Option (List ℕ)
format_digits11_to_display input = elim (normalize_phone_to_digits11 input) [
  | none ↦ none
  | some digits ↦ some (display digits)
]
