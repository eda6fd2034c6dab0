-- ===== src/Registry/Dump/RoundTrip.antt =====
-- What dump_datarequests writes, import_datarequests registers.
use cc_dey.Base.{
  ℕ, zero, suc, ◌+◌, ◌-◌, ◌/◌, ◌%◌, ◌^◌, ◌≤◌, ◌<◌, ◌≡◌, ◌≢◌, refl, sym, ap, ◌∙◌, Bool, true, false,
  Option, some, List, [], ◌∷◌, ◌++◌, append_assoc, append-nil, Bytes, length, take-length-append,
  drop-length-append, length-append, All, ltb, leb, ◌==◌, arith,
}
use cc_dey.Registry.{Recipient, Request, Table, Ccapi}
use cc_dey.Registry.Dump.{
  object, object_value, recipient_object, recipient_value, Disk, fwrite, append_file, and_then,
  dump_request, dump_loop, dump_datarequests, fread, until_null, Heap, is_bad_length, malloc_fails,
  import_request, register_next, import_loop, import_datarequests,
}

length-object : (width n : ℕ) → length (object width n) ≡ width
unfolding object
length-object zero n = refl
length-object (suc width) n = ap (λ k. suc k) (length-object width (n / 256))

object_value-object : (width n : ℕ) → n < 256 ^ width → object_value (object width n) ≡ n
unfolding object object_value
object_value-object zero n h = omega arith
object_value-object (suc width) n h =
    let rest : object_value (object width (n / 256)) ≡ n / 256 =
      object_value-object width (n / 256) (omega arith) in
    omega arith

fread-append : (bs rest : Bytes) → fread (length bs) (bs ++ rest) ≡ some (bs, rest)
unfolding fread
fread-append bs rest =
    let enough : leb (length bs) (length (bs ++ rest)) ≡ true =
      ground (arith, length-append bs rest) in
    rw (enough, take-length-append bs rest, drop-length-append bs rest) refl

fread-object :
    (width n : ℕ) (rest : Bytes)
    → fread width (object width n ++ rest) ≡ some (object width n, rest)
fread-object width n rest =
    ap (λ k. fread k (object width n ++ rest)) (sym (length-object width n))
    ∙ fread-append (object width n) rest

-- A recipient as the C types have it.
abbrev pub RecipientFits : Recipient → Type 0
RecipientFits r = (r.family < 2 ^ 16) × (r.port < 2 ^ 16) × (r.addr < 2 ^ 32)

recipient_value-object :
    (r : Recipient) → RecipientFits r → recipient_value (recipient_object r) ≡ r
unfolding recipient_value recipient_object object object_value
recipient_value-object r (f, p, a) =
    let family : object_value (object 2 r.family) ≡ r.family =
      object_value-object 2 r.family (omega arith) in
    let port : object_value (object 2 r.port) ≡ r.port =
      object_value-object 2 r.port (omega arith) in
    let addr : object_value (object 4 r.addr) ≡ r.addr =
      object_value-object 4 r.addr (omega arith) in
    λ i. record { family = family i; port = port i; addr = addr i }

length-recipient_object : (r : Recipient) → length (recipient_object r) ≡ 16
unfolding recipient_object object
length-recipient_object r = refl

-- A target: a string that is not empty, of less than 2^63 bytes.
abbrev pub IsText : Bytes → Type 0
IsText s = (0 < length s) × (length s < 2 ^ 63) × All (λ c. c ≢ 0) s

until_null-text : (s : Bytes) → All (λ c. c ≢ 0) s → until_null s ≡ s
unfolding until_null
until_null-text [] h = refl
until_null-text (c ∷ s) (h, hs) =
    let present : (c == 0) ≡ false = ground arith in
    rw present (ap (λ l. c ∷ l) (until_null-text s hs))

abbrev pub RequestFits : Request → Type 0
RequestFits r = RecipientFits r.recipient × IsText r.target

-- The heap has room, and a block is at least as large as it was asked for.
pub record Ample (heap : Heap) : Type 0 where
  pub room : (n : ℕ) → heap.alloc n ≡ true
  pub large : (n : ℕ) → n ≤ heap.usable n

unfoldable pub request_object : Request → Bytes
request_object r = recipient_object r.recipient ++ (object 8 (length r.target) ++ r.target)

unfoldable pub requests_object : List Request → Bytes
requests_object [] = []
requests_object (r ∷ rs) = request_object r ++ requests_object rs

length-request_object : (r : Request) → length (request_object r) ≡ 24 + length r.target
unfolding request_object
length-request_object r = omega (
  arith,
  length-append (recipient_object r.recipient) (object 8 (length r.target) ++ r.target),
  length-append (object 8 (length r.target)) r.target,
  length-recipient_object r.recipient,
  length-object 8 (length r.target),
)

malloc_succeeds : (heap : Heap) (n : ℕ) → Ample heap → n < 2 ^ 63 → malloc_fails heap n ≡ false
unfolding malloc_fails
malloc_succeeds heap n ample small =
    let size : (n + 1) % 2 ^ 64 ≡ n + 1 = omega arith in
    let large : n + 1 ≤ heap.usable (n + 1) = ample.large (n + 1) in
    let enough : ltb (heap.usable (n + 1)) n ≡ false = ground arith in
    rw (size, ample.room (n + 1), enough) refl

good_length : (n left : ℕ) → 0 < n → n ≤ left → is_bad_length n left ≡ false
unfolding is_bad_length
good_length n left positive enough = ground arith

pub import_request-request_object :
    (heap : Heap) (r : Request) (rest : Bytes)
    → Ample heap
    → RequestFits r
    → import_request heap (request_object r ++ rest) ≡ some (r, rest)
unfolding import_request request_object
import_request-request_object heap r rest ample (fits, (positive, small, text)) =
    let n = length r.target in
    let order : (recipient_object r.recipient ++ (object 8 n ++ r.target)) ++ rest
        ≡ recipient_object r.recipient ++ (object 8 n ++ (r.target ++ rest)) =
      append_assoc (recipient_object r.recipient) (object 8 n ++ r.target) rest
      ∙ ap (λ l. recipient_object r.recipient ++ l) (append_assoc (object 8 n) r.target rest) in
    let first : fread 16 (recipient_object r.recipient ++ (object 8 n ++ (r.target ++ rest)))
        ≡ some (recipient_object r.recipient, object 8 n ++ (r.target ++ rest)) =
      ap (λ k. fread k (recipient_object r.recipient ++ (object 8 n ++ (r.target ++ rest))))
        (sym (length-recipient_object r.recipient))
      ∙ fread-append (recipient_object r.recipient) (object 8 n ++ (r.target ++ rest)) in
    let value : object_value (object 8 n) ≡ n = object_value-object 8 n (omega arith) in
    let good : is_bad_length n (length (r.target ++ rest)) ≡ false =
      good_length n (length (r.target ++ rest)) positive
        (omega (arith, length-append r.target rest)) in
    ap (import_request heap) order
    ∙ rw
        (
          import_request,
          first,
          fread-object 8 n (r.target ++ rest),
          value,
          good,
          malloc_succeeds heap n ample small,
          fread-append r.target rest,
          until_null-text r.target text,
          recipient_value-object r.recipient fits,
        )
        refl

-- With room on the disk the requests are written one behind the other.
append_file-Roomy :
    (bs old : Bytes) (opens : Bool) (buffer free : ℕ)
    → 0 < length bs
    → append_file bs
        (record { contents = some old; opens = opens; free = length bs + free; buffer = buffer })
      ≡ (true, record { contents = some (old ++ bs); opens = opens; free = free; buffer = buffer })
unfolding append_file fwrite
append_file-Roomy bs old opens buffer free positive =
    let fits : leb (length bs) (length bs + free) ≡ true = ground arith in
    let some_bytes : ltb 0 (length bs) ≡ true = ground arith in
    let left : length bs + free - length bs ≡ free = omega arith in rw (fits, some_bytes, left) refl

abbrev file : Bytes → Bool → ℕ → ℕ → Disk
file bytes opens buffer free = record {
  contents = some bytes;
  opens = opens;
  free = free;
  buffer = buffer;
}

dump_request-request_object :
    (r : Request) (old : Bytes) (opens : Bool) (buffer free : ℕ)
    → RequestFits r
    → dump_request r (file old opens buffer (length (request_object r) + free))
      ≡ (true, file (old ++ request_object r) opens buffer free)
unfolding dump_request and_then request_object
dump_request-request_object r old opens buffer free (fits, (positive, small, text)) =
    let a = recipient_object r.recipient in
    let l = object 8 (length r.target) in
    let la = length-recipient_object r.recipient in
    let ll = length-object 8 (length r.target) in
    let size : length (a ++ (l ++ r.target)) + free
        ≡ length a + (length l + (length r.target + free)) =
      omega (arith, length-append a (l ++ r.target), length-append l r.target) in
    let order : ((old ++ a) ++ l) ++ r.target ≡ old ++ (a ++ (l ++ r.target)) =
      append_assoc (old ++ a) l r.target ∙ append_assoc old a (l ++ r.target) in
    rw
      (
        size,
        append_file-Roomy a old opens buffer (length l + (length r.target + free)) (omega arith),
        append_file-Roomy l (old ++ a) opens buffer (length r.target + free) (omega arith),
        append_file-Roomy r.target ((old ++ a) ++ l) opens buffer free positive,
      )
      (ap (λ y. (true, file y opens buffer free)) order)

dump_loop-requests_object :
    (rs : List Request) (old : Bytes) (opens : Bool) (buffer free : ℕ)
    → All RequestFits rs
    → dump_loop rs (file old opens buffer (length (requests_object rs) + free))
      ≡ (true, file (old ++ requests_object rs) opens buffer free)
unfolding dump_loop and_then requests_object
dump_loop-requests_object [] old opens buffer free fits =
    let none_left : 0 + free ≡ free = omega arith in
    λ i. (true, file (sym (append-nil old) i) opens buffer (none_left i))
dump_loop-requests_object (r ∷ rs) old opens buffer free (fit, fits) =
    let size : length (request_object r ++ requests_object rs) + free
        ≡ length (request_object r) + (length (requests_object rs) + free) =
      omega (arith, length-append (request_object r) (requests_object rs)) in
    rw
      (
        size,
        dump_request-request_object r old opens buffer (length (requests_object rs) + free) fit,
      )
      (dump_loop-requests_object rs (old ++ request_object r) opens buffer free fits
        ∙ ap (λ y. (true, file y opens buffer free))
            (append_assoc old (request_object r) (requests_object rs)))

-- The bytes that a dump takes.
unfoldable pub dump_size : List Request → ℕ
dump_size rs = 8 + length (requests_object rs)

dump_datarequests-file :
    (t : Table) (contents : Option Bytes) (buffer free : ℕ)
    → length t.array ≢ 0
    → All RequestFits t.array
    → dump_datarequests t (record {
      contents = contents;
      opens = true;
      free = dump_size t.array + free;
      buffer = buffer;
    })
      ≡ (true, file (object 8 (length t.array) ++ requests_object t.array) true buffer free)
unfolding dump_datarequests and_then dump_size
dump_datarequests-file t contents buffer free full fits =
    let n = object 8 (length t.array) in
    let ln = length-object 8 (length t.array) in
    let left = length (requests_object t.array) + free in
    let some_targets : (length t.array == 0) ≡ false = ground arith in
    let size : 8 + length (requests_object t.array) + free ≡ length n + left = omega arith in
    rw (some_targets, size, append_file-Roomy n [] true buffer left (omega arith))
      (dump_loop-requests_object t.array n true buffer free fits)

module _ (ccapi : Ccapi) (heap : Heap) where
  open ccapi use {State}

  -- The registration of several targets in order.
  unfoldable pub register_all : List Request → State × Table → State × Table
  register_all [] s = s
  register_all (r ∷ rs) s = register_all rs (register_next ccapi heap r s)

  import_loop-requests_object :
      (rs : List Request) (s : State × Table)
      → Ample heap
      → All RequestFits rs
      → import_loop ccapi heap (length rs) (requests_object rs) s ≡ register_all rs s
  unfolding import_loop requests_object register_all
  import_loop-requests_object [] s ample fits = refl
  import_loop-requests_object (r ∷ rs) s ample (fit, fits) =
      rw (import_loop, import_request-request_object heap r (requests_object rs) ample fit)
        (import_loop-requests_object rs (register_next ccapi heap r s) ample fits)

  import_datarequests-file :
      (rs : List Request) (opens : Bool) (buffer free : ℕ) (s : State × Table)
      → Ample heap
      → length rs < 2 ^ 64
      → All RequestFits rs
      → import_datarequests ccapi heap
          (file (object 8 (length rs) ++ requests_object rs) opens buffer free)
          s
        ≡ register_all rs s
  unfolding import_datarequests
  import_datarequests-file rs opens buffer free s ample few fits =
      let value : object_value (object 8 (length rs)) ≡ length rs =
        object_value-object 8 (length rs) (omega arith) in
      rw (import_datarequests, fread-object 8 (length rs) (requests_object rs), value)
        (import_loop-requests_object rs s ample fits)

  -- A table that is dumped to a file that can be opened, on a disk with room for it, is dumped with
  -- success, and when the file is imported, with room in the heap, its requests are registered one
  -- after the other, each with its recipient: no request is lost, added or changed. The table has
  -- a request, and its requests have targets that are not empty.
  pub import_datarequests-dump_datarequests :
      (t : Table) (d : Disk) (s : State × Table)
      → length t.array ≢ 0
      → length t.array < 2 ^ 64
      → All RequestFits t.array
      → d.opens ≡ true
      → dump_size t.array ≤ d.free
      → Ample heap
      → ((dump_datarequests t d).0 ≡ true)
        × (import_datarequests ccapi heap (dump_datarequests t d).1 s ≡ register_all t.array s)
  import_datarequests-dump_datarequests t d s full few fits opens enough ample =
      let left = d.free - dump_size t.array in
      let size : d.free ≡ dump_size t.array + left = omega arith in
      let dumped =
        (λ i.
          dump_datarequests t
            (record { contents = d.contents; opens = opens i; free = size i; buffer = d.buffer }))
        ∙ dump_datarequests-file t d.contents d.buffer left full fits in
      (
        ap (λ r. r.0) dumped,
        ap (λ r. import_datarequests ccapi heap r.1 s) dumped
            ∙ import_datarequests-file t.array true d.buffer left s ample few fits,
      )
