-- ===== src/Backlog/Copy/Whole.antt =====
-- library/src/utils.c, `cp_file`: the copy where every write takes what it is given, and the copy
-- where the first write is short.
use cc_dey.Base.{
  ℕ, zero, suc, ◌-◌, ◌*◌, ◌≤◌, ◌<◌, ◌≡◌, refl, sym, ap, ◌∙◌, min, true, false, Option, some, List,
  [], ◌∷◌, ◌++◌, append_assoc, append-nil, Bytes, length, take, drop, take-length-append,
  length-take, length-drop, arith,
}
use cc_dey.Backlog.Copy.{
  block, written, write_block, copied, copy_blocks, file, Io, no_text, cp_file, from_input,
  copied_effect,
}

-- The answers of `n` calls, each of which would take or give `k` bytes.
unfoldable pub whole : ℕ → ℕ → List (Option ℕ)
whole k zero = []
whole k (suc n) = some k ∷ whole k n

take_split : (m : ℕ) (xs : Bytes) → take m xs ++ drop (length (take m xs)) xs ≡ xs
take_split zero xs = refl
take_split (suc m) [] = refl
take_split (suc m) (x ∷ xs) = ap (λ l. x ∷ l) (take_split m xs)

pub take_all : (xs : Bytes) → take (length xs) xs ≡ xs
take_all xs = ap (take (length xs)) (sym (append-nil xs)) ∙ take-length-append xs []

write_block-whole :
    (k : ℕ) (writes : List (Option ℕ)) (buffer out : Bytes) (left : ℕ)
    → block ≤ k
    → length buffer ≡ suc left
    → suc left ≤ block
    → write_block (some k ∷ writes) buffer (suc left) out ≡ written (out ++ buffer) writes
unfolding write_block
write_block-whole k writes buffer out left big e fits =
    let taken : min k (suc left) ≡ suc left = omega arith in
    let done : suc left - suc left ≡ 0 = omega arith in
    let all : take (suc left) buffer ≡ buffer = ap (λ n. take n buffer) (sym e) ∙ take_all buffer in
    ap (λ n. write_block writes buffer (suc left - n) (out ++ take n buffer)) taken
    ∙ ap (λ m. write_block writes buffer m (out ++ take (suc left) buffer)) done
    ∙ ap (λ l. written (out ++ l) writes) all

copy_step :
    (k len left : ℕ) (reads writes writes' : List (Option ℕ)) (rest out out' : Bytes)
    → length (take (min k block) rest) ≡ left
    → write_block writes (take (min k block) rest) left out ≡ written out' writes'
    → copy_blocks (some k ∷ reads) writes rest (suc len) out
      ≡ copy_blocks reads writes' (drop left rest) (suc len - left) out'
unfolding copy_blocks
copy_step k len left reads writes writes' rest out out' size e =
    rw (size, copy_blocks, e, copy_blocks)
      (ap (λ n. copy_blocks reads writes' (drop n rest) (suc len - n) out') size)

copy_blocks-whole :
    (k n len : ℕ) (rest out : Bytes)
    → block ≤ k
    → length rest ≡ len
    → len ≤ block * n
    → copy_blocks (whole k n) (whole k n) rest len out ≡ copied (out ++ rest)
unfolding copy_blocks whole
copy_blocks-whole k zero zero [] out big e enough = ap copied (sym (append-nil out))
copy_blocks-whole k (suc n) zero [] out big e enough = ap copied (sym (append-nil out))
copy_blocks-whole k zero (suc len) rest out big e enough = absurd (omega arith)
copy_blocks-whole k (suc n) zero (x ∷ rest) out big e enough = absurd (omega arith)
copy_blocks-whole k zero zero (x ∷ rest) out big e enough = absurd (omega arith)
copy_blocks-whole k (suc n) (suc len) rest out big e enough =
    let buffer = take (min k block) rest in
    let size = length-take (min k block) rest in
    let left = length buffer - 1 in
    let some_bytes : length buffer ≡ suc left = omega arith in
    let behind = length-drop (suc left) rest in
    copy_step k len (suc left) (whole k n) (whole k (suc n)) (whole k n) rest out (out ++ buffer)
      some_bytes (write_block-whole k (whole k n) buffer out left big some_bytes (omega arith))
    ∙ copy_blocks-whole k n (suc len - suc left) (drop (suc left) rest) (out ++ buffer) big
        (omega arith) (omega arith)
    ∙ ap copied (
        append_assoc out buffer (drop (suc left) rest)
        ∙ ap (λ l. out ++ l)
            (ap (λ m. buffer ++ drop m rest) (sym some_bytes) ∙ take_split (min k block) rest))

-- What is written where the first write takes only `k` of the bytes, and the next all that is left.
write_block-short :
    (k m left : ℕ) (writes : List (Option ℕ)) (buffer out : Bytes)
    → k < suc left
    → suc left - k ≤ m
    → write_block (some k ∷ some m ∷ writes) buffer (suc left) out
      ≡ written ((out ++ take k buffer) ++ take (suc left - k) buffer) writes
unfolding write_block
write_block-short k m left writes buffer out short enough =
    let one : min k (suc left) ≡ k = omega arith in
    let two : suc left - k ≡ suc (left - k) = omega arith in
    let rest : min m (suc (left - k)) ≡ suc (left - k) = omega arith in
    let done : suc (left - k) - suc (left - k) ≡ 0 = omega arith in
    ap (λ n. write_block (some m ∷ writes) buffer (suc left - n) (out ++ take n buffer)) one
    ∙ ap (λ n. write_block (some m ∷ writes) buffer n (out ++ take k buffer)) two
    ∙ ap
        (λ n.
          write_block writes buffer (suc (left - k) - n) ((out ++ take k buffer) ++ take n buffer))
        rest
    ∙ ap (λ n. write_block writes buffer n ((out ++ take k buffer) ++ take (suc (left - k)) buffer))
        done
    ∙ ap (λ n. written ((out ++ take k buffer) ++ take n buffer) writes) (sym two)

take_enough : (m : ℕ) (xs : Bytes) → length xs ≤ m → take m xs ≡ xs
take_enough zero [] h = refl
take_enough zero (x ∷ xs) h = absurd (omega arith)
take_enough (suc m) [] h = refl
take_enough (suc m) (x ∷ xs) h = ap (λ l. x ∷ l) (take_enough m xs (omega arith))

copy_blocks-short :
    (r k m : ℕ) (reads writes : List (Option ℕ)) (b : ℕ) (bs : Bytes)
    → k < suc (length bs)
    → suc (length bs) ≤ block
    → suc (length bs) ≤ r
    → suc (length bs) - k ≤ m
    → copy_blocks (some r ∷ reads) (some k ∷ some m ∷ writes) (b ∷ bs) (suc (length bs)) []
      ≡ copied (take k (b ∷ bs) ++ take (suc (length bs) - k) (b ∷ bs))
unfolding copy_blocks
copy_blocks-short r k m reads writes b bs short one enough rest =
    let content = b ∷ bs in
    let all : take (min r block) content ≡ content =
      take_enough (min r block) content (omega arith) in
    let done : suc (length bs) - suc (length bs) ≡ 0 = omega arith in
    copy_step r (length bs) (suc (length bs)) reads (some k ∷ some m ∷ writes) writes content [] _
      (ap length all)
      (ap (λ l. write_block (some k ∷ some m ∷ writes) l (suc (length bs)) []) all
        ∙ write_block-short k m (length bs) writes content [] short rest)
    ∙ ap
        (λ n.
          copy_blocks reads writes (drop (suc (length bs)) content) n
            (take k content ++ take (suc (length bs) - k) content))
        done

-- The input can be opened and measured, and the output opened.
pub record Ready (io : Io) (in_path out_path content : Bytes) : Type 0 where
  pub named : no_text in_path ≡ false
  pub target : no_text out_path ≡ false
  pub input : io.input in_path ≡ some content
  pub opens : io.opens out_path ≡ true
  pub sized : io.sized ≡ true

cp_file-copied :
    (io : Io) (in_path out_path content out : Bytes)
    → Ready io in_path out_path content
    → copy_blocks io.reads io.writes content (length content) [] ≡ copied out
    → cp_file io in_path out_path ≡ file out true
unfolding cp_file from_input copied_effect
cp_file-copied io in_path out_path content out h e =
    rw (h.named, h.target, h.input, h.opens, h.sized, e) refl

-- Where every read and every write could do a block or more, and there are as many of them as the
-- file has blocks, the copy comes to its end, and it is the file.
pub cp_file-whole :
    (io : Io) (in_path out_path content : Bytes) (k n : ℕ)
    → Ready io in_path out_path content
    → io.reads ≡ whole k n
    → io.writes ≡ whole k n
    → block ≤ k
    → length content ≤ block * n
    → cp_file io in_path out_path ≡ file content true
cp_file-whole io in_path out_path content k n h reads writes big enough =
    cp_file-copied io in_path out_path content content h
      (rw (reads, writes) (copy_blocks-whole k n (length content) content [] big refl enough))

-- Where the first write takes only `k` bytes of a file of one block, and the second write all that
-- it is given, the result is 0, and the copy is the first `k` bytes of the file and then, in place of
-- the bytes that are left, as many from the head of the file.
pub cp_file-short :
    (io : Io) (in_path out_path content : Bytes) (r k m : ℕ) (reads writes : List (Option ℕ))
    → Ready io in_path out_path content
    → io.reads ≡ some r ∷ reads
    → io.writes ≡ some k ∷ some m ∷ writes
    → k < length content
    → length content ≤ block
    → length content ≤ r
    → length content - k ≤ m
    → cp_file io in_path out_path ≡ file (take k content ++ take (length content - k) content) true
cp_file-short io in_path out_path [] r k m reads writes h e1 e2 short one enough rest =
    absurd (omega arith)
cp_file-short io in_path out_path (b ∷ bs) r k m reads writes h e1 e2 short one enough rest =
    cp_file-copied io in_path out_path (b ∷ bs) _ h
      (rw (e1, e2) (copy_blocks-short r k m reads writes b bs short one enough rest))
