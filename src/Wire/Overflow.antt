-- ===== src/Wire/Overflow.antt =====
-- recv_blob on the one length whose `length + 1` does not fit into uint32_t.
use cc_dey.Base.{
  ℕ, ◌^◌, ◌-◌, ◌≡◌, refl, true, Option, [], ◌∷◌, ◌++◌, Bytes, ap, ◌∙◌, arith, ==_self,
}
use cc_dey.Socket.{Timeval, Sock, fault, read_amt, continue, read_turns}
use cc_dey.Socket.Fair.{Fair, Patient, read_amt-Gives}
use cc_dey.Wire.{separator, recv_blob, check_type, recv_payload, allocate, load}
use cc_dey.Wire.Grammar.{integer_frame}
use cc_dey.Wire.Read.{read_uint32-Reads}

abbrev pub max_length : ℕ
max_length = 2 ^ 32 - 1

payload-fault :
    (timeout : Option Timeval) (s : Sock)
    → ((n : ℕ) → s.alloc n ≡ true)
    → recv_payload max_length timeout s ≡ fault
unfolding recv_payload allocate load read_amt read_turns
payload-fault timeout s roomy = rw (roomy 0) refl

-- A blob that announces 2^32 - 1 bytes, of either type, from a fair socket within the time limit
-- and with a heap that has room: the buffer gets no byte, and recv_blob reads behind it.
pub recv_blob-overflow :
    (base window type : ℕ) (rest : Bytes) (timeout : Option Timeval) (s : Sock)
    → Patient window timeout
    → Fair base window s
    → ((n : ℕ) → s.alloc n ≡ true)
    → s.incoming ≡ type ∷ separator ∷ integer_frame max_length ++ rest
    → recv_blob type timeout s ≡ fault
unfolding recv_blob check_type
recv_blob-overflow base window type rest timeout s patient fair roomy e =
    let g =
      read_amt-Gives base window (type ∷ separator ∷ []) (integer_frame max_length ++ rest) timeout
        s fair patient e in
    let k =
      read_uint32-Reads window max_length timeout patient (omega arith) base rest g.last g.took.fair
        (λ n. ap (λ a. a n) g.took.alloc ∙ roomy n) g.took.incoming in
    ap (λ x. continue x (λ t. check_type type t timeout)) g.runs
    ∙ rw (check_type, ==_self type)
        (ap (λ x. continue x (λ n. recv_payload n timeout)) k.runs
          ∙ payload-fault timeout k.last
              (λ n. ap (λ a. a n) (k.took.alloc ∙ g.took.alloc) ∙ roomy n))
