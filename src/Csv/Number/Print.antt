-- ===== src/Csv/Number/Print.antt =====
-- The text of a number, and that the cipher by cipher printing gives it.
use cc_dey.Base.{
  ℕ, zero, suc, ◌+◌, ◌-◌, ◌/◌, ◌%◌, ◌^◌, ◌<◌, ◌≡◌, refl, sym, ap, ◌∙◌, Bool, true, false, some, [],
  ◌∷◌, ◌++◌, append_assoc, append-nil, Bytes, length, arith, ltb, if◌then◌else◌, ℤ, pos, negsuc,
  nat_abs, length-append, Bool-cases, inl, inr,
}
use cc_dey.Decimal.{digits}
use cc_dey.Csv.{Buffer, put_character}
use cc_dey.Csv.Number.{
  IntInfo, DoubleInfo, count_loop, count_int_ciphers, divide_times, get_next_cipher,
  cipher_character, put_figures, put_all, process_integer, init_int_info, put_fraction, put_point,
  double_round, process_double,
}

-- A buffer with `text` behind what it held.
abbrev pub extend : Bytes → Buffer → Buffer
extend text b = record b { bytes = b.bytes ++ text; available = b.available - length text }

abbrev pub Roomy : Buffer → Type 0
Roomy b = (n : ℕ) → b.alloc n ≡ true

pub put_character-Roomy :
    (c : ℕ) (b : Buffer) → Roomy b → put_character c b ≡ (true, extend (c ∷ []) b)
unfolding put_character
put_character-Roomy c b h = ground (arith, h (length b.bytes + 1))

pub extend-extend : (s t : Bytes) (b : Buffer) → extend t (extend s b) ≡ extend (s ++ t) b
extend-extend s t b i =
    let less : b.available - length s - length t ≡ b.available - length (s ++ t) =
      omega (arith, length-append s t) in
    record b { bytes = append_assoc b.bytes s t i; available = less i }

pub extend-nil : (b : Buffer) → extend [] b ≡ b
extend-nil b i =
    let same : b.available - 0 ≡ b.available = omega arith in
    record b { bytes = append-nil b.bytes i; available = same i }

-- The last `figures` ciphers of a number, in base 10.
unfoldable pub ciphers : ℕ → ℕ → Bytes
ciphers zero n = []
ciphers (suc figures) n = (b'0' + divide_times figures n 10 % 10) ∷ ciphers figures n

ciphers-snoc : (k n : ℕ) → ciphers (suc k) n ≡ ciphers k (n / 10) ++ (b'0' + n % 10) ∷ []
unfolding ciphers divide_times
ciphers-snoc zero n = refl
ciphers-snoc (suc k) n = ap (λ l. (b'0' + divide_times k (n / 10) 10 % 10) ∷ l) (ciphers-snoc k n)

-- With the number of figures that is counted, all the digits.
pub ciphers-count_loop :
    (fuel n : ℕ) → n < 10 ^ suc fuel → ciphers (count_loop fuel n) n ≡ digits fuel n
unfolding count_loop digits
ciphers-count_loop zero n h =
    let small : n % 10 ≡ n = omega arith in unfold ciphers divide_times in rw small refl
ciphers-count_loop (suc fuel) n h = elim (Bool-cases (ltb n 10)) [
  | inl small ↦
      let one : ltb (n / 10) 1 ≡ true = ground arith in
      let same : n % 10 ≡ n = ground arith in
      rw (small, one) (unfold ciphers divide_times in rw same refl)
  | inr large ↦
      let more : ltb (n / 10) 1 ≡ false = ground arith in
      rw (large, more)
        (ciphers-snoc (count_loop fuel (n / 10)) n
          ∙ ap (λ l. l ++ (b'0' + n % 10) ∷ []) (ciphers-count_loop fuel (n / 10) (omega arith)))
]

put_figures-Roomy :
    (figures : ℕ) (i : IntInfo) (b : Buffer)
    → i.base ≡ 10
    → Roomy b
    → put_figures figures i b ≡ extend (ciphers figures i.value) b
unfolding put_figures ciphers
put_figures-Roomy zero i b e h = sym (extend-nil b)
put_figures-Roomy (suc figures) i b e h =
    let c : ℕ = b'0' + divide_times figures i.value 10 % 10 in
    let cipher : cipher_character (get_next_cipher i.value (suc figures) i.base) ≡ c =
      unfold cipher_character get_next_cipher in rw e (ground arith) in
    ap (λ x. put_figures figures i (put_character x b).1) cipher
    ∙ ap (λ x. put_figures figures i x.1) (put_character-Roomy c b h)
    ∙ put_figures-Roomy figures i (extend (c ∷ []) b) e h
    ∙ extend-extend (c ∷ []) (ciphers figures i.value) b

unfoldable pub sign : Bool → Bytes
sign true = b'-' ∷ []
sign false = []

-- What is printed of an IntInfo in base 10.
unfoldable pub info_text : IntInfo → Bytes
unfolding sign
info_text i = sign i.negative ++ ciphers i.figures i.value

abbrev pub printed : IntInfo → IntInfo
printed i = record i { figures = 0; negative = false }

pub process_integer-Roomy :
    (i : IntInfo) (b : Buffer)
    → i.base ≡ 10
    → Roomy b
    → process_integer i b ≡ (true, (printed i, extend (info_text i) b))
unfolding process_integer put_all info_text
process_integer-Roomy i b e h = elim (Bool-cases i.negative) [
  | inl minus ↦
      rw (minus, put_character-Roomy b'-' b h)
        (ap (λ x. (true, (printed i, x)))
          (put_figures-Roomy i.figures (record i { negative = true }) (extend (b'-' ∷ []) b) e h
            ∙ extend-extend (b'-' ∷ []) (ciphers i.figures i.value) b))
  | inr plus ↦ rw plus (
      ap (λ x. (true, (printed i, x)))
        (put_figures-Roomy i.figures (record i { negative = false }) b e h))
]

-- The decimal text of an integer of 64 bits.
unfoldable pub int_text : ℤ → Bytes
int_text (pos n) = digits 19 n
int_text (negsuc n) = b'-' ∷ digits 19 (suc n)

-- An integer is printed in decimal, whatever the buffer holds, as long as the heap has room.
pub process_integer-int_text :
    (z : ℤ) (b : Buffer)
    → nat_abs z < 2 ^ 64
    → Roomy b
    → process_integer (init_int_info z 10) b
      ≡ (true, (printed (init_int_info z 10), extend (int_text z) b))
unfolding init_int_info int_text info_text
process_integer-int_text (pos n) b small h =
    process_integer-Roomy (init_int_info (pos n) 10) b refl h
    ∙ ap (λ l. (true, (printed (init_int_info (pos n) 10), extend l b)))
        (unfold count_int_ciphers in ciphers-count_loop 19 n (omega arith))
process_integer-int_text (negsuc n) b small h =
    process_integer-Roomy (init_int_info (negsuc n) 10) b refl h
    ∙ ap (λ l. (true, (printed (init_int_info (negsuc n) 10), extend (b'-' ∷ l) b)))
        (unfold count_int_ciphers in ciphers-count_loop 19 (suc n) (omega arith))

-- What is printed of a DoubleInfo.
unfoldable pub double_text : DoubleInfo → Bytes
double_text d = info_text d.integer ++ (b'.' ∷ info_text d.fractional)

module _ (i f : IntInfo) (ei : i.base ≡ 10) (ef : f.base ≡ 10) (b : Buffer) (h : Roomy b) where
  abbrev after_integer : Buffer
  after_integer = extend (info_text i) b

  abbrev after_point : Buffer
  after_point = extend (b'.' ∷ []) after_integer

  abbrev done_double : Buffer → Bool × (Bool × (DoubleInfo × Buffer))
  done_double b' =
      (true, (true, (record { integer = printed i; fractional = printed f; point_set = true }, b')))

  put_fraction-Roomy :
      put_fraction (record { integer = printed i; fractional = f; point_set = true }) after_point
      ≡ done_double (extend (info_text f) after_point)
  unfolding put_fraction
  put_fraction-Roomy =
      ap
        (λ x. (
          x.0,
          (x.0, (record { integer = printed i; fractional = x.1.0; point_set = true }, x.1.1)),
        ))
        (process_integer-Roomy f after_point ef h)

  put_point-Roomy :
      put_point (record { integer = printed i; fractional = f; point_set = false }) after_integer
      ≡ done_double (extend (info_text f) after_point)
  unfolding put_point
  put_point-Roomy = rw (put_character-Roomy b'.' after_integer h) put_fraction-Roomy

  double_round-Roomy :
      double_round (record { integer = i; fractional = f; point_set = false }) b
      ≡ done_double (extend (info_text f) after_point)
  unfolding double_round
  double_round-Roomy = rw (process_integer-Roomy i b ei h) put_point-Roomy

  -- With room in the heap one round prints a double: the integer part, a point, the fraction.
  pub process_double-Roomy :
      (fuel : ℕ)
      → process_double (suc fuel) (record { integer = i; fractional = f; point_set = false }) b
        ≡ some (
          true,
          (
            record { integer = printed i; fractional = printed f; point_set = true },
            extend (double_text (record { integer = i; fractional = f; point_set = false })) b,
          ),
        )
  unfolding process_double double_text
  process_double-Roomy fuel =
      ap (λ x. if x.0 then some x.1 else process_double fuel x.1.1.0 x.1.1.1) double_round-Roomy
      ∙ ap (λ l. some (done_double l).1)
          (extend-extend (b'.' ∷ []) (info_text f) after_integer
            ∙ extend-extend (info_text i) (b'.' ∷ info_text f) b)
