-- ===== src/Registry/Dump.antt =====
-- library/src/services/service_data_request.c: `dump_datarequests` and `import_datarequests`, which
-- keep the registered targets in a file while the daemon is restarted.
pub mod RoundTrip
pub mod Restored
use cc_dey.Base.{
  ℕ, zero, suc, ◌+◌, ◌-◌, ◌*◌, ◌/◌, ◌%◌, ◌^◌, Bool, true, false, ◌&&◌, ◌||◌, Option, none, some,
  List, [], ◌∷◌, ◌++◌, Bytes, length, take, drop, ltb, leb, ◌==◌, if◌then◌else◌,
}
use cc_dey.Registry.{Recipient, Request, Table, Ccapi, register_data_request}

-- An object of `width` bytes as it lies in memory, the lowest byte first.
unfoldable pub object : ℕ → ℕ → Bytes
object zero n = []
object (suc width) n = (n % 256) ∷ object width (n / 256)

unfoldable pub object_value : Bytes → ℕ
object_value [] = 0
object_value (b ∷ bs) = b + 256 * object_value bs

-- struct sockaddr_in: 16 bytes, of which the last eight are sin_zero.
unfoldable pub recipient_object : Recipient → Bytes
unfolding object
recipient_object r = object 2 r.family ++ (object 2 r.port ++ (object 4 r.addr ++ object 8 0))

unfoldable pub recipient_value : Bytes → Recipient
unfolding object_value
recipient_value bs = record {
  family = object_value (take 2 bs);
  port = object_value (take 2 (drop 2 bs));
  addr = object_value (take 4 (drop 4 bs));
}

-- The file system, as far as the file of the targets goes: what is in it, whether it can be opened
-- for writing, how many bytes it takes, and how many more stdio holds back in its buffer. Those that
-- the disk does not take are lost at fclose, whose result is not looked at; `contents` has what is in
-- the file then.
pub record Disk : Type 0 where
  pub contents : Option Bytes
  pub opens : Bool
  pub free : ℕ
  pub buffer : ℕ

-- fwrite(p, size, 1, file) == 1, for the file that is open: an object of no bytes gives 0.
unfoldable pub fwrite : Bytes → Bytes → Disk → Bool × Disk
fwrite old bs d =
    if leb (length bs) d.free
    then (ltb 0 (length bs), record d { contents = some (old ++ bs); free = d.free - length bs })
    else if leb (length bs) (d.free + d.buffer)
    then (
      ltb 0 (length bs),
      record d {
        contents = some (old ++ take d.free bs);
        free = 0;
        buffer = d.free + d.buffer - length bs;
      },
    )
    else (false, record d { contents = some (old ++ take d.free bs); free = 0; buffer = 0 })

unfoldable pub append_file : Bytes → Disk → Bool × Disk
unfolding fwrite
append_file bs d = elim d.contents [ none ↦ (false, d) | some old ↦ fwrite old bs d ]

-- The next call, if this one did not fail.
unfoldable pub and_then : Bool × Disk → (Disk → Bool × Disk) → Bool × Disk
and_then (true, d) next = next d
and_then (false, d) next = (false, d)

unfoldable pub dump_request : Request → Disk → Bool × Disk
unfolding recipient_object object append_file and_then
dump_request r d =
    and_then (append_file (recipient_object r.recipient) d)
      (λ d'. and_then (append_file (object 8 (length r.target)) d') (append_file r.target))

unfoldable pub dump_loop : List Request → Disk → Bool × Disk
unfolding dump_request and_then
dump_loop [] d = (true, d)
dump_loop (r ∷ rs) d = and_then (dump_request r d) (dump_loop rs)

-- The first component is `true` for 0. With no targets the file is left as it is.
unfoldable pub dump_datarequests : Table → Disk → Bool × Disk
unfolding dump_loop object append_file and_then
dump_datarequests t d =
    if length t.array == 0
    then (true, d)
    else if d.opens
    then and_then (append_file (object 8 (length t.array)) (record d { contents = some [] }))
        (dump_loop t.array)
    else (false, d)

-- fread(p, size, 1, file) == 1, with what stands behind the position of the file.
unfoldable pub fread : ℕ → Bytes → Option (Bytes × Bytes)
fread size rest = if leb size (length rest) then some (take size rest, drop size rest) else none

unfoldable pub until_null : Bytes → Bytes
until_null [] = []
until_null (c ∷ s) = let rest = until_null s in if c == 0 then [] else c ∷ rest

-- malloc: whether there is a block, and malloc_usable_size of it.
pub record Heap : Type 0 where
  pub alloc : ℕ → Bool
  pub usable : ℕ → ℕ

-- string_len <= 0 || (long)string_len > (flen - fpos)
unfoldable pub is_bad_length : ℕ → ℕ → Bool
is_bad_length string_len left = string_len == 0 || (ltb string_len (2 ^ 63) && ltb left string_len)

unfoldable pub malloc_fails : Heap → ℕ → Bool
malloc_fails heap string_len =
    let size = (string_len + 1) % 2 ^ 64 in
    if heap.alloc size then ltb (heap.usable size) string_len else true

read_target : Heap → ℕ → Bytes → Option (Bytes × Bytes)
unfolding is_bad_length malloc_fails fread
read_target heap string_len rest =
    if is_bad_length string_len (length rest)
    then none
    else if malloc_fails heap string_len
    then none
    else fread string_len rest

infixl 5 ◌>>=◌
abbrev ◌>>=◌ : {A B : Type 0} → Option A → (A → Option B) → Option B
none >>= f = none
some a >>= f = f a

-- A round of the loop, up to the registration.
unfoldable pub import_request : Heap → Bytes → Option (Request × Bytes)
unfolding fread object_value recipient_value until_null read_target
import_request heap file = do
  (recipient, file₁) ← fread 16 file
  (string_len, file₂) ← fread 8 file₁
  (target, rest) ← read_target heap (object_value string_len) file₂
  some (record { recipient = recipient_value recipient; target = until_null target }, rest)

module _ (ccapi : Ccapi) (heap : Heap) where
  open ccapi use {State}

  -- What register_data_request sends goes nowhere, since there is no client.
  unfoldable pub register_next : Request → State × Table → State × Table
  register_next r (c, t) =
      let (answer, c') = register_data_request ccapi heap.alloc r c t in (c', answer.table)

  unfoldable pub import_loop : ℕ → Bytes → State × Table → State × Table
  unfolding import_request register_next
  import_loop zero file s = s
  import_loop (suc n) file s = elim (import_request heap file) [
    | none ↦ s
    | some (r, rest) ↦ import_loop n rest (register_next r s)
  ]

  -- It returns -1 whatever happens.
  unfoldable pub import_datarequests : Disk → State × Table → State × Table
  unfolding import_loop fread object_value
  import_datarequests d s = elim d.contents [
    | none ↦ s
    | some file ↦ elim (fread 8 file) [
      | none ↦ s
      | some (n, rest) ↦ import_loop (object_value n) rest s
    ]
  ]
