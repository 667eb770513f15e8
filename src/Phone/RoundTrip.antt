-- ===== src/Phone/RoundTrip.antt =====
-- src/utils/phone.ts: a phone stored as a number and printed, and one displayed and read again.
use mathlib.Core.List.{append-nil}
use native.Mathlib.Nat.{zero-add}
use leader_product_api.Base.{
  ℕ, zero, suc, ◌+◌, ◌-◌, ◌*◌, ◌/◌, ◌%◌, ◌≤◌, ◌<◌, ◌≡◌, refl, sym, ◌∙◌, ap, inl, inr, true, false,
  keep_of_All, some, List, [], ◌∷◌, ◌++◌, arith, Option-cases,
}
use leader_product_api.Phone.{
  is_digit, normalize_digits, normalize_phone_to_digits11, sanitize_phone_for_search, value_from,
  big_int, normalize_phone_to_big_int, print_from, print, to_api_phone_string, display,
  format_digits11_to_display,
}
use leader_product_api.Phone.Laws.{
  AllDigits, IsDigits11, normalize-IsDigits11, normalize_of_IsDigits11, digit_back,
}

quotient : (acc d : ℕ) → d ≤ 9 → (acc * 10 + d) / 10 ≡ acc
quotient acc d h = omega arith

last_digit : (acc c : ℕ) → 48 ≤ c → c ≤ 57 → 48 + (acc * 10 + (c - 48)) % 10 ≡ c
last_digit acc c h k = omega arith

print_step :
    (fuel left acc c : ℕ) (rest : List ℕ)
    → fuel ≡ suc left
    → 0 < acc
    → is_digit c ≡ true
    → print_from fuel (acc * 10 + (c - 48)) rest ≡ print_from left acc (c ∷ rest)
unfolding print_from
print_step fuel left acc c rest e p d =
    let (lo, hi) = digit_back c d in
    rw (e, quotient acc (c - 48) (omega arith), last_digit acc c lo hi) (ground arith)

-- Printing what `s` was read into gives `s` back, and goes on with the number read before `s`.
print_from-value_from :
    (s : List ℕ) (fuel acc : ℕ) (rest : List ℕ)
    → 0 < acc
    → AllDigits s
    → value_from acc s < fuel
    → (left : ℕ) × (acc < left)
      × (print_from fuel (value_from acc s) rest ≡ print_from left acc (s ++ rest))
unfolding value_from
print_from-value_from [] fuel acc rest p a h = (fuel, h, refl)
print_from-value_from (c ∷ s) fuel acc rest p a h =
    let (left, below, e) =
      print_from-value_from s fuel (acc * 10 + (c - 48)) rest (omega arith) a.1 h in
    (left - 1, omega arith, e ∙ print_step left (left - 1) acc c (s ++ rest) (omega arith) p a.0)

print_one :
    (fuel c : ℕ) (rest : List ℕ)
    → 0 < fuel
    → is_digit c ≡ true
    → print_from fuel (c - 48) rest ≡ c ∷ rest
unfolding print_from is_digit
print_one zero c rest h d = elim h [ ]
print_one (suc fuel) c rest h d = ground arith

-- A text of eleven digits with a leading 7 is what its value prints as.
print-big_int : (d : List ℕ) → IsDigits11 d → print (big_int d) ≡ d
unfolding print big_int value_from
print-big_int [] h = ground (arith, h.eleven)
print-big_int (c ∷ s) h =
    let seven : c ≡ 55 = ground (arith, h.seven) in
    let (left, below, e) =
      print_from-value_from s (suc (value_from (c - 48) s)) (c - 48) [] (omega arith) h.digits.1
        (omega arith) in
    rw (zero-add)
      (e ∙ (print_one left c (s ++ []) (omega arith) h.digits.0 ∙ ap (◌∷◌ c) (append-nil s)))

-- The number stored for a phone is shown as the digits that it was read from.
pub to_api_phone_string-normalize :
    (input : List ℕ)
    → to_api_phone_string (normalize_phone_to_big_int input) ≡ normalize_phone_to_digits11 input
unfolding to_api_phone_string normalize_phone_to_big_int
to_api_phone_string-normalize input = elim (Option-cases (normalize_phone_to_digits11 input)) [
  | inl e ↦ rw (e, normalize_phone_to_big_int)
  | inr (d, e) ↦
      let shape = normalize-IsDigits11 input d e in
      rw (e, normalize_phone_to_big_int, print-big_int d shape) (normalize_of_IsDigits11 d shape)
]

normalize_of_strip :
    (x y : List ℕ)
    → sanitize_phone_for_search x ≡ sanitize_phone_for_search y
    → normalize_phone_to_digits11 x ≡ normalize_phone_to_digits11 y
unfolding normalize_phone_to_digits11
normalize_of_strip x y e = ap normalize_digits e

-- The characters that the display adds are no digits, but for the country code.
punctuation :
    (is_digit b'+' ≡ false)
    × (is_digit b' ' ≡ false)
    × (is_digit b'(' ≡ false)
    × (is_digit b')' ≡ false)
    × (is_digit b'-' ≡ false)
    × (is_digit b'7' ≡ true)
unfolding is_digit
punctuation = (refl, refl, refl, refl, refl, refl)

strip-display : (d : List ℕ) → IsDigits11 d → sanitize_phone_for_search (display d) ≡ d
unfolding sanitize_phone_for_search
strip-display (a ∷ b ∷ c ∷ d ∷ e ∷ f ∷ g ∷ i ∷ j ∷ k ∷ l ∷ []) h =
    ground (arith, punctuation, h.digits, h.seven)
strip-display _ h = absurd (omega (arith, h.eleven))

strip-IsDigits11 : (d : List ℕ) → IsDigits11 d → sanitize_phone_for_search d ≡ d
unfolding sanitize_phone_for_search
strip-IsDigits11 d h = keep_of_All is_digit d h.digits

normalize-display : (d : List ℕ) → IsDigits11 d → normalize_phone_to_digits11 (display d) ≡ some d
normalize-display d h =
    normalize_of_strip (display d) d (strip-display d h ∙ sym (strip-IsDigits11 d h))
    ∙ normalize_of_IsDigits11 d h

-- A number shown for reading is normalised to the digits that it shows.
pub normalize-format_digits11_to_display :
    (input t : List ℕ)
    → format_digits11_to_display input ≡ some t
    → normalize_phone_to_digits11 t ≡ normalize_phone_to_digits11 input
unfolding format_digits11_to_display
normalize-format_digits11_to_display input t h =
    elim (Option-cases (normalize_phone_to_digits11 input)) [
      | inl e ↦ ground arith
      | inr (d, e) ↦
          let shape = normalize-IsDigits11 input d e in
          let shown : display d ≡ t = ground arith in rw (e, ← shown) (normalize-display d shape)
    ]
