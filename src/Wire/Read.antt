-- ===== src/Wire/Read.antt =====
-- What the reading functions take from the wire.
use cc_dey.Base.{
  ℕ, ◌+◌, ◌%◌, ◌<◌, ◌≡◌, refl, ap, ◌∙◌, true, Option, [], ◌∷◌, ◌++◌, Bytes, length, take, arith,
  length-append, subst, append_assoc, append-nil, get_elem?-length, All, ==_self,
  take-length-append, lt→ltb,
}
use native.Mathlib.Nat.{mod-eq_of_lt}
use cc_dey.Socket.{
  Timeval, Sock, M, ok, done, read_amt, ◌>>=◌, pure, attempt, continue, attempt_run,
}
use cc_dey.Socket.Line.{Line, terminator, read_line}
use cc_dey.Socket.Line.Fair.{Unbroken, read_line-Gives}
use cc_dey.Socket.Fair.{Fair, Patient, Took, Gives, read_amt-Gives}
use cc_dey.Decimal.{decimal, strtoul}
use cc_dey.Decimal.RoundTrip.{IsDigit, decimal-IsDigit, length-decimal, strtoul-decimal}
use cc_dey.Wire.{
  separator, dt_integer, u32_mod, c_string, integer_result, integer_value, parse_integer,
  check_line, read_uint32, allocate, load, recv_payload, check_type, recv_blob,
}
use cc_dey.Wire.Grammar.{integer_frame, blob_frame}

Took-trans :
    {base window : ℕ} {r₁ r₂ : Bytes} {s s₁ s₂ : Sock}
    → Took base window r₁ s s₁
    → Took base window r₂ s₁ s₂
    → Took base window r₂ s s₂
Took-trans h k = record {
  incoming = k.incoming;
  sent = k.sent ∙ h.sent;
  sends = k.sends ∙ h.sends;
  alloc = k.alloc ∙ h.alloc;
  fair = k.fair;
}

pub Gives-bind :
    {A B : Type 0} (base window : ℕ) (m : M A) (f : A → M B) (s : Sock) (a : A) (b : B)
    (r₁ r₂ : Bytes)
    → (g : Gives base window m s a r₁) → Gives base window (f a) g.last b r₂
    → Gives base window (m >>= f) s b r₂
Gives-bind base window m f s a b r₁ r₂ g k = record {
  last = k.last;
  runs = rw g.runs k.runs;
  took = Took-trans g.took k.took;
}

-- A step that leaves the socket as it is.
pub Gives-still :
    {A : Type 0} (base window : ℕ) (m : M A) (s : Sock) (a : A) (rest : Bytes)
    → Fair base window s
    → s.incoming ≡ rest
    → m s ≡ done (ok a) s
    → Gives base window m s a rest
Gives-still base window m s a rest fair e runs = record {
  last = s;
  runs = runs;
  took = record { incoming = e; sent = refl; sends = refl; alloc = refl; fair = fair };
}

-- On every fair socket that `bytes` reach first, and whose heap has room, `m` gives `a` and takes
-- exactly those bytes.
abbrev pub Reads : {A : Type 0} → M A → ℕ → Bytes → A → Type 0
Reads m window bytes a =
    (base : ℕ) (rest : Bytes) (s : Sock)
    → Fair base window s
    → ((n : ℕ) → s.alloc n ≡ true)
    → s.incoming ≡ bytes ++ rest
    → Gives base window m s a rest

pub Reads-bind :
    {A B : Type 0} (window : ℕ) (m : M A) (f : A → M B) (xs ys : Bytes) (a : A) (b : B)
    → Reads m window xs a
    → Reads (f a) window ys b
    → Reads (m >>= f) window (xs ++ ys) b
Reads-bind window m f xs ys a b rm rf base rest s fair roomy e =
    let g = rm base (ys ++ rest) s fair roomy (e ∙ append_assoc xs ys rest) in
    Gives-bind base window m f s a b (ys ++ rest) rest g
      (rf base rest g.last g.took.fair (λ n. rw g.took.alloc (roomy n)) g.took.incoming)

c_string_digits : (s : Bytes) → All IsDigit s → c_string s ≡ s
unfolding c_string
c_string_digits [] h = refl
c_string_digits (c ∷ s) (hc, h) = ground (arith, c_string_digits s h)

Unbroken-digits : (s : Bytes) → All IsDigit s → Unbroken s
Unbroken-digits [] h = tt
Unbroken-digits (c ∷ s) (hc, h) = (omega arith, Unbroken-digits s h)

integer_value-decimal :
    (value : ℕ) (s : Sock) → value < u32_mod → integer_value (decimal value) s ≡ done (ok value) s
unfolding integer_value
integer_value-decimal value s h =
    ap (λ t. integer_result (strtoul t) s)
      (c_string_digits (decimal value) (decimal-IsDigit value h))
    ∙ ap (λ p. integer_result p s) (strtoul-decimal value h)
    ∙ ap (λ v. done (ok v) s) (mod-eq_of_lt h)

check_line-integer :
    (value : ℕ) (s : Sock)
    → value < u32_mod
    → check_line
        (ok (record {
          count = length (dt_integer ∷ separator ∷ decimal value) + 1;
          text = dt_integer ∷ separator ∷ decimal value;
        }))
        s
      ≡ done (ok value) s
unfolding check_line parse_integer
check_line-integer value s h =
    rw
      (lt→ltb 2 (length (dt_integer ∷ separator ∷ decimal value) + 1)
        (omega (arith, length-decimal value)))
      (integer_value-decimal value s h)

integer_frame-append :
    (value : ℕ) (rest : Bytes)
    → integer_frame value ++ rest ≡ (dt_integer ∷ separator ∷ decimal value) ++ terminator ∷ rest
unfolding integer_frame
integer_frame-append value rest =
    append_assoc (dt_integer ∷ separator ∷ decimal value) (terminator ∷ []) rest

-- Every uint32_t is read back from its frame.
pub read_uint32-Reads :
    (window value : ℕ) (timeout : Option Timeval)
    → Patient window timeout
    → value < u32_mod
    → Reads (read_uint32 timeout) window (integer_frame value) value
unfolding read_uint32
read_uint32-Reads window value timeout patient h base rest s fair roomy e =
    let g =
      read_line-Gives base window 48 (dt_integer ∷ separator ∷ decimal value) rest timeout s fair
        patient (e ∙ integer_frame-append value rest)
        (omega arith, (omega arith, Unbroken-digits (decimal value) (decimal-IsDigit value h)))
        (omega (arith, length-decimal value)) in
    let line : Line = record {
      count = length (dt_integer ∷ separator ∷ decimal value) + 1;
      text = dt_integer ∷ separator ∷ decimal value;
    } in
    Gives-bind base window (attempt (read_line 49 timeout)) check_line s (ok line) value rest rest
      (record { last = g.last; runs = ap attempt_run g.runs; took = g.took })
      (Gives-still base window (check_line (ok line)) g.last value rest g.took.fair g.took.incoming
        (check_line-integer value g.last h))

-- A step that reads nothing.
pub Reads-still :
    {A : Type 0} (window : ℕ) (m : M A) (a : A)
    → ((s : Sock) → ((n : ℕ) → s.alloc n ≡ true) → m s ≡ done (ok a) s)
    → Reads m window [] a
Reads-still window m a h base rest s fair roomy e =
    Gives-still base window m s a rest fair e (h s roomy)

pub Reads-attempt :
    {A : Type 0} (window : ℕ) (m : M A) (bytes : Bytes) (a : A)
    → Reads m window bytes a
    → Reads (attempt m) window bytes (ok a)
Reads-attempt window m bytes a r base rest s fair roomy e =
    let g = r base rest s fair roomy e in
    record { last = g.last; runs = ap attempt_run g.runs; took = g.took }

-- A result that is computed from what was read.
pub Reads-pure :
    {A B : Type 0} (window : ℕ) (m : M A) (f : A → B) (bytes : Bytes) (a : A)
    → Reads m window bytes a
    → Reads (m >>= λ x. pure (f x)) window bytes (f a)
Reads-pure window m f bytes a r base rest s fair roomy e =
    let g = r base rest s fair roomy e in
    record { last = g.last; runs = ap (λ x. continue x (λ a. pure (f a))) g.runs; took = g.took }

allocate-Reads : (window count : ℕ) → Reads (allocate count) window [] tt
unfolding allocate
allocate-Reads window count = Reads-still window (allocate count) tt (λ s roomy. rw (roomy count))

load-Reads :
    (window : ℕ) (bytes : Bytes)
    → Reads (load (bytes ++ terminator ∷ []) (length bytes)) window [] terminator
unfolding load
load-Reads window bytes =
    Reads-still window (load (bytes ++ terminator ∷ []) (length bytes)) terminator
      (λ s roomy. rw (get_elem?-length bytes [] terminator, load))

-- A payload and its terminator.
recv_payload-Reads :
    (window : ℕ) (bytes : Bytes) (timeout : Option Timeval)
    → Patient window timeout
    → length bytes + 1 < u32_mod
    → Reads (recv_payload (length bytes) timeout) window (bytes ++ terminator ∷ []) bytes
unfolding recv_payload
recv_payload-Reads window bytes timeout patient h =
    let total : (length bytes + 1) % u32_mod ≡ length (bytes ++ terminator ∷ []) =
      omega (arith, length-append bytes (terminator ∷ [])) in
    let whole : Bytes = bytes ++ terminator ∷ [] in
    subst (λ l. Reads (recv_payload (length bytes) timeout) window l bytes) (append-nil whole)
      (Reads-bind window (allocate ((length bytes + 1) % u32_mod)) _ [] (whole ++ []) tt bytes
        (allocate-Reads window ((length bytes + 1) % u32_mod))
        (Reads-bind window (read_amt ((length bytes + 1) % u32_mod) timeout) _ whole [] whole bytes
          (λ base rest s fair roomy e.
            rw total (read_amt-Gives base window whole rest timeout s fair patient e))
          (Reads-bind window (load whole (length bytes)) _ [] [] terminator bytes
            (load-Reads window bytes)
            (Reads-still window (pure (take (length bytes) whole)) bytes
              (λ s roomy. ap (λ l. done (ok l) s) (take-length-append bytes (terminator ∷ [])))))))

-- Every blob of less than 2^32 - 1 bytes, of either type, is read back from its frame.
pub recv_blob-Reads :
    (window type : ℕ) (bytes : Bytes) (timeout : Option Timeval)
    → Patient window timeout
    → length bytes + 1 < u32_mod
    → Reads (recv_blob type timeout) window (blob_frame type bytes) bytes
unfolding recv_blob blob_frame check_type
recv_blob-Reads window type bytes timeout patient h =
    Reads-bind window (read_amt 2 timeout) _ (type ∷ separator ∷ []) _ (type ∷ separator ∷ []) bytes
      (λ base rest s fair roomy e.
        read_amt-Gives base window (type ∷ separator ∷ []) rest timeout s fair patient e)
      (rw (==_self type) (
        Reads-bind window (read_uint32 timeout) _ (integer_frame (length bytes))
          (bytes ++ terminator ∷ []) (length bytes) bytes
          (read_uint32-Reads window (length bytes) timeout patient (omega arith))
          (recv_payload-Reads window bytes timeout patient h)))
