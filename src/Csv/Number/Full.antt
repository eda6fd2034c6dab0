-- ===== src/Csv/Number/Full.antt =====
-- Numbers when the buffer is full and the heap is used up.
use cc_dey.Base.{
  ℕ, zero, suc, ◌+◌, ◌≡◌, refl, ap, ◌∙◌, true, false, none, length, Bool-cases, inl, inr, ◌==◌,
  if◌then◌else◌, arith,
}
use cc_dey.Csv.{Buffer, put_character}
use cc_dey.Csv.Number.{
  IntInfo, DoubleInfo, get_next_cipher, cipher_character, put_figures, put_all, process_integer,
  double_round, process_double,
}
use cc_dey.Csv.Number.Print.{printed}

-- No room, and none to be had.
abbrev pub Full : Buffer → Type 0
Full b = (b.available ≡ 0) × ((n : ℕ) → b.alloc n ≡ false)

pub put_character-Full : (c : ℕ) (b : Buffer) → Full b → put_character c b ≡ (false, b)
unfolding put_character
put_character-Full c b (e, h) =
    let no_room : (b.available == 0) ≡ true = ground arith in
    rw (no_room, h (length b.bytes + 1)) refl

put_figures-Full : (figures : ℕ) (i : IntInfo) (b : Buffer) → Full b → put_figures figures i b ≡ b
unfolding put_figures
put_figures-Full zero i b h = refl
put_figures-Full (suc figures) i b h =
    ap (λ r. put_figures figures i r.1)
      (put_character-Full (cipher_character (get_next_cipher i.value (suc figures) i.base)) b h)
    ∙ put_figures-Full figures i b h

process_integer-negative :
    (i : IntInfo) (b : Buffer) → Full b → i.negative ≡ true → process_integer i b ≡ (false, (i, b))
unfolding process_integer
process_integer-negative i b h minus = rw (minus, put_character-Full b'-' b h) refl

-- With a full buffer and no heap, a number that is not negative is reported as printed though
-- nothing is, and a negative one is not.
pub process_integer-Full :
    (i : IntInfo) (b : Buffer)
    → b.available ≡ 0
    → ((n : ℕ) → b.alloc n ≡ false)
    → process_integer i b ≡ (if i.negative then (false, (i, b)) else (true, (printed i, b)))
unfolding process_integer put_all
process_integer-Full i b e h = elim (Bool-cases i.negative) [
  | inl minus ↦ rw minus (rw (put_character-Full b'-' b (e, h)) refl)
  | inr plus ↦ rw plus (
      ap (λ x. (true, (printed i, x)))
        (put_figures-Full i.figures (record i { negative = false }) b (e, h)))
]

-- With a full buffer and no heap, process_double never comes back from a negative number, after
-- however many rounds.
pub process_double-Full :
    (fuel : ℕ) (d : DoubleInfo) (b : Buffer)
    → d.integer.negative ≡ true
    → b.available ≡ 0
    → ((n : ℕ) → b.alloc n ≡ false)
    → process_double fuel d b ≡ none
unfolding process_double double_round
process_double-Full zero d b minus e h = refl
process_double-Full (suc fuel) d b minus e h =
    rw (process_integer-negative d.integer b (e, h) minus) (process_double-Full fuel d b minus e h)
