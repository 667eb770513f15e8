-- ===== src/Phone/Laws.antt =====
-- src/utils/phone.ts: the shape of a normalised phone, and the usual spellings.
use leader_product_api.Base.{
  ℕ, ◌≤◌, ◌≡◌, refl, ◌↔◌, true, some, List, [], ◌∷◌, arith, length, keep, All, All-keep,
  keep_of_All,
}
use leader_product_api.Phone.{
  is_digit, starts_with, sanitize_phone_for_search, normalize_digits, normalize_phone_to_digits11,
}

abbrev pub AllDigits : List ℕ → Type 0
AllDigits = All (λ c. is_digit c ≡ true)

-- Eleven digits, the first of them 7.
pub record IsDigits11 (d : List ℕ) : Type 0 where
  pub eleven : length d ≡ 11
  pub seven : starts_with b'7' d ≡ true
  pub digits : AllDigits d

seven_is_digit : is_digit b'7' ≡ true
unfolding is_digit
seven_is_digit = refl

normalize_digits-IsDigits11 :
    (s d : List ℕ) → AllDigits s → normalize_digits s ≡ some d → IsDigits11 d
unfolding normalize_digits
normalize_digits-IsDigits11 [] d a h = ground arith
normalize_digits-IsDigits11 (c ∷ s) d a h = ground (arith, seven_is_digit)

-- What is accepted is normalised.
pub normalize-IsDigits11 :
    (input d : List ℕ) → normalize_phone_to_digits11 input ≡ some d → IsDigits11 d
unfolding normalize_phone_to_digits11 sanitize_phone_for_search
normalize-IsDigits11 input d h =
    normalize_digits-IsDigits11 (keep is_digit input) d (All-keep is_digit input) h

normalize_digits_of_IsDigits11 : (d : List ℕ) → IsDigits11 d → normalize_digits d ≡ some d
unfolding normalize_digits
normalize_digits_of_IsDigits11 [] h = ground arith
normalize_digits_of_IsDigits11 (c ∷ s) h = ground arith

pub normalize_of_IsDigits11 : (d : List ℕ) → IsDigits11 d → normalize_phone_to_digits11 d ≡ some d
unfolding normalize_phone_to_digits11 sanitize_phone_for_search
normalize_of_IsDigits11 d h =
    rw (keep_of_All is_digit d h.digits) (normalize_digits_of_IsDigits11 d h)

-- The fixed points of normalisation are exactly the texts of eleven digits with a leading 7.
pub normalize_fixed_iff : (d : List ℕ) → (normalize_phone_to_digits11 d ≡ some d) ↔ IsDigits11 d
normalize_fixed_iff d = (normalize-IsDigits11 d d, normalize_of_IsDigits11 d)

-- Ten digits, the same after a trunk prefix 8, and the same after the country code 7 are one number.
pub normalize_spellings :
    (s : List ℕ)
    → length s ≡ 10
    → AllDigits s
    → (normalize_phone_to_digits11 s ≡ some (b'7' ∷ s))
      × (normalize_phone_to_digits11 (b'8' ∷ s) ≡ some (b'7' ∷ s))
      × (normalize_phone_to_digits11 (b'7' ∷ s) ≡ some (b'7' ∷ s))
unfolding normalize_phone_to_digits11 sanitize_phone_for_search normalize_digits is_digit
normalize_spellings [] n a = ground arith
normalize_spellings (c ∷ s) n a =
    rw (keep_of_All is_digit (c ∷ s) a) (ground arith, ground arith, ground arith)

pub digit_back : (c : ℕ) → is_digit c ≡ true → (48 ≤ c) × (c ≤ 57)
unfolding is_digit
digit_back c h = ground arith
