-- ===== src/Decimal/RoundTrip.antt =====
-- What is printed by "%u" is read back by strtoul.
use cc_dey.Base.{
  ℕ, zero, suc, ◌+◌, ◌-◌, ◌*◌, ◌/◌, ◌%◌, ◌^◌, ◌≤◌, ◌<◌, ◌≡◌, refl, ap, ◌∙◌, false, [], ◌∷◌, ◌++◌,
  Bytes, length, All, All-append, arith, length-append, append_assoc, ltb, Bool-cases, inl, inr,
  ltb→lt, leb-true, uncons, subst, sym, append-nil,
}
use cc_dey.Decimal.{
  digits, decimal, is_space, is_digit, skip_spaces, scan, signed_value, after_sign, take_sign,
  strtoul,
}

abbrev pub IsDigit : ℕ → Type 0
IsDigit c = (b'0' ≤ c) × (c ≤ b'9')

abbrev pub bound : ℕ → ℕ
bound zero = 10
bound (suc fuel) = 10 * bound fuel

pub digits-IsDigit : (fuel n : ℕ) → n < bound fuel → All IsDigit (digits fuel n)
unfolding digits
digits-IsDigit zero n h = omega arith
digits-IsDigit (suc fuel) n h = ground (
  arith,
  All-append IsDigit (digits fuel (n / 10)) ((b'0' + n % 10) ∷ [])
      (digits-IsDigit fuel (n / 10) (omega arith)) (omega arith),
)

length-digits : (fuel n : ℕ) → (1 ≤ length (digits fuel n)) × (length (digits fuel n) ≤ suc fuel)
unfolding digits
length-digits zero n = omega arith
length-digits (suc fuel) n = ground (
  arith,
  length-digits fuel (n / 10),
  length-append (digits fuel (n / 10)) ((b'0' + n % 10) ∷ []),
)

pub decimal-IsDigit : (n : ℕ) → n < 2 ^ 32 → All IsDigit (decimal n)
unfolding decimal
decimal-IsDigit n h = digits-IsDigit 9 n (omega arith)

pub length-decimal : (n : ℕ) → (1 ≤ length (decimal n)) × (length (decimal n) ≤ 10)
unfolding decimal
length-decimal n = length-digits 9 n

scan_step :
    (m d n : ℕ) (rest : Bytes) → d < 10 → m * 10 + d ≡ n → scan m ((b'0' + d) ∷ rest) ≡ scan n rest
unfolding scan is_digit
scan_step m d n rest h e =
    let e' : m * 10 + (b'0' + d - b'0') ≡ n = omega arith in
    rw (leb-true (b'0' + d) b'9' (omega arith), leb-true b'0' (b'0' + d) (omega arith), e')

-- Reading the digits of n is the same as having read n.
scan-digits :
    (fuel n : ℕ) (rest : Bytes) → n < bound fuel → scan 0 (digits fuel n ++ rest) ≡ scan n rest
unfolding digits
scan-digits zero n rest h = scan_step 0 n n rest h (omega arith)
scan-digits (suc fuel) n rest h = elim (Bool-cases (ltb n 10)) [
  | inl small ↦ rw small (scan_step 0 n n rest (ltb→lt n 10 small) (omega arith))
  | inr large ↦
      rw (large, append_assoc)
        (scan-digits fuel (n / 10) ((b'0' + n % 10) ∷ rest) (omega arith)
          ∙ scan_step (n / 10) (n % 10) n rest (omega arith) (omega arith))
]

strtoul_digit :
    (c : ℕ) (s : Bytes)
    → IsDigit c
    → strtoul (c ∷ s)
      ≡ record { value = signed_value false (scan 0 (c ∷ s)).value; rest = (scan 0 (c ∷ s)).rest }
unfolding strtoul skip_spaces is_space take_sign after_sign is_digit
strtoul_digit c s h = ground arith

-- Every 32-bit number is read back from its print, to the end of the text.
pub strtoul-decimal : (n : ℕ) → n < 2 ^ 32 → strtoul (decimal n) ≡ record { value = n; rest = [] }
unfolding decimal
strtoul-decimal n h =
    let (c, s, e) = uncons (decimal n) (omega (arith, length-decimal n)) in
    let all_digits : All IsDigit (c ∷ s) = subst (All IsDigit) e (decimal-IsDigit n h) in
    let scanned : scan 0 (c ∷ s) ≡ record { value = n; rest = [] } =
      ap (scan 0) (sym e ∙ sym (append-nil (decimal n)))
      ∙ scan-digits 9 n [] (omega arith)
      ∙ (unfold scan in refl) in
    ap strtoul e
    ∙ strtoul_digit c s all_digits.0
    ∙ (λ i. record { value = signed_value false (scanned i).value; rest = (scanned i).rest })
    ∙ (unfold signed_value in ground arith)
