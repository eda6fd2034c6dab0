-- ===== src/Socket/Fair.antt =====
-- Reading from a socket whose system behaves: no time limit passes, no call fails but by an
-- interruption, and rounds enough are to come for every byte.
use cc_dey.Base.{
  ℕ, zero, suc, ◌+◌, ◌-◌, ◌≤◌, ◌<◌, ◌≡◌, refl, min, Bool, true, Option, none, some, List, [], ◌∷◌,
  ◌++◌, Bytes, length, take, drop, All, arith, take-nil, drop-nil, ap, append-nil, append_assoc,
  ◌∙◌, length-drop, length-take, uncons, subst, sym, length-append, take-length-append,
  drop-length-append,
}
use native.Mathlib.Nat.{sub-zero}
use cc_dey.Socket.{
  Timeval, ready, Turn, Recv, chunk, recv_failed, Sock, M, ok, done, deadline, wait, read_turns,
  read_amt, advance, limit_from,
}

abbrev pub IsLive : Recv → Type 0
IsLive (chunk n) = Unit
IsLive (recv_failed e) = e ≡ true

-- The rounds lie in the `window` seconds from `base`, and each has data or an interruption.
pub record Prompt (base window : ℕ) (t : Turn) : Type 0 where
  pub is_ready : t.select ≡ ready
  pub live : IsLive t.recv
  pub after : base ≤ t.later.sec
  pub before : t.now.sec < base + window

-- The rounds that bring data.
abbrev pub chunks : List Turn → ℕ
chunks [] = 0
chunks (t ∷ ts) = elim t.recv [ chunk n ↦ suc (chunks ts) | recv_failed e ↦ chunks ts ]

pub record Fair (base window : ℕ) (s : Sock) : Type 0 where
  pub started : base ≤ s.clock.sec
  pub prompt : All (Prompt base window) s.turns
  pub enough : length s.incoming ≤ chunks s.turns

-- A time limit that the window respects.
abbrev pub Patient : ℕ → Option Timeval → Type 0
Patient window none = Unit
Patient window (some timeout) = window ≤ timeout.sec

-- A limit that no prompt round passes.
abbrev pub Open : ℕ → Option Timeval → Type 0
Open end none = Unit
Open end (some limit) = end ≤ limit.sec

pub Open-limit :
    (base window : ℕ) (now : Timeval) (timeout : Option Timeval)
    → base ≤ now.sec
    → Patient window timeout
    → Open (base + window) (limit_from now timeout)
unfolding deadline
Open-limit base window now none h p = tt
Open-limit base window now (some timeout) h p = omega arith

pub wait-Prompt :
    (base window : ℕ) (limit : Option Timeval) (t : Turn)
    → Open (base + window) limit
    → Prompt base window t
    → wait limit t ≡ none
unfolding wait
wait-Prompt base window none t o p = refl
wait-Prompt base window (some limit) t o p = ground (arith, p.is_ready, p.before)

-- The socket after a read that took what stood before `rest`.
pub record Took (base window : ℕ) (rest : Bytes) (s s' : Sock) : Type 0 where
  pub incoming : s'.incoming ≡ rest
  pub sent : s'.sent ≡ s.sent
  pub sends : s'.sends ≡ s.sends
  pub alloc : s'.alloc ≡ s.alloc
  pub fair : Fair base window s'

pub Took-of :
    {base window : ℕ} {rest : Bytes} {s s₁ s' : Sock}
    → s₁.sent ≡ s.sent
    → s₁.sends ≡ s.sends
    → s₁.alloc ≡ s.alloc
    → Took base window rest s₁ s'
    → Took base window rest s s'
Took-of a b c h = record {
  incoming = h.incoming;
  sent = h.sent ∙ a;
  sends = h.sends ∙ b;
  alloc = h.alloc ∙ c;
  fair = h.fair;
}

-- `m` returns `a` and leaves `rest`.
pub record Gives {ℓ} {A : Type ℓ} (base window : ℕ) (m : M A) (s : Sock) (a : A) (rest : Bytes)
    : Type ℓ where
  pub last : Sock
  pub runs : m s ≡ done (ok a) last
  pub took : Took base window rest s last

-- How a full read is made of a chunk and of the read of what is left.
take-take-drop :
    {A : Type 0} (k c : ℕ) (xs : List A) → k ≤ c → take k xs ++ take (c - k) (drop k xs) ≡ take c xs
take-take-drop zero c xs h = rw sub-zero
take-take-drop (suc k) zero xs h = absurd (omega arith)
take-take-drop (suc k) (suc c) [] h = take-nil (suc c - suc k)
take-take-drop (suc k) (suc c) (x ∷ xs) h =
    let e : suc c - suc k ≡ c - k = omega arith in
    rw e (ap (λ r. x ∷ r) (take-take-drop k c xs (omega arith)))

drop-drop : {A : Type 0} (k c : ℕ) (xs : List A) → k ≤ c → drop (c - k) (drop k xs) ≡ drop c xs
drop-drop zero c xs h = rw sub-zero
drop-drop (suc k) zero xs h = absurd (omega arith)
drop-drop (suc k) (suc c) [] h = drop-nil (suc c - suc k)
drop-drop (suc k) (suc c) (x ∷ xs) h =
    let e : suc c - suc k ≡ c - k = omega arith in rw e (drop-drop k c xs (omega arith))

module _ (n count b : ℕ) (rest : Bytes) (h : count ≤ length rest) where
  chunk_length : length (take (min n count) rest) ≡ min n count
  chunk_length = omega (arith, length-take (min n count) rest)

  rejoin_take :
      (got : Bytes)
      → (got ++ b ∷ take (min n count) rest)
          ++ take (count - length (take (min n count) rest)) (drop (min n count) rest)
        ≡ got ++ b ∷ take count rest
  rejoin_take got =
      rw (chunk_length, append_assoc)
        (ap (λ l. got ++ b ∷ l) (take-take-drop (min n count) count rest (omega arith)))

  rejoin_drop :
      drop (count - length (take (min n count) rest)) (drop (min n count) rest) ≡ drop count rest
  rejoin_drop = rw chunk_length (drop-drop (min n count) count rest (omega arith))

-- The lemmas about one round, for a round that `wait` lets pass.
module _ (limit : Option Timeval) (t : Turn) (ts : List Turn) (w : wait limit t ≡ none) where
  read_turns-interrupted :
      (count : ℕ) (got : Bytes) (s : Sock)
      → t.recv ≡ recv_failed true
      → read_turns limit (t ∷ ts) (suc count) got s
        ≡ read_turns limit ts (suc count) got (record (advance t ts s) { eintr = true })
  unfolding read_turns
  read_turns-interrupted count got s e = rw (w, e, read_turns)

  read_turns-chunk :
      (n count b : ℕ) (rest got : Bytes) (s : Sock)
      → t.recv ≡ chunk n
      → s.incoming ≡ b ∷ rest
      → read_turns limit (t ∷ ts) (suc count) got s
        ≡ read_turns limit ts
            (count - length (take (min n count) rest))
            (got ++ b ∷ take (min n count) rest)
            (record (advance t ts s) { incoming = drop (min n count) rest })
  unfolding read_turns
  read_turns-chunk n count b rest got s e h = rw (w, e, h, read_turns)

-- A read of `count` bytes, from the rounds `ts`, that gives `got` and those bytes.
abbrev Filled : ℕ → ℕ → Option Timeval → List Turn → ℕ → Bytes → Sock → Type 0
Filled base window limit ts count got s =
    (s' : Sock) × (read_turns limit ts count got s ≡ done (ok (got ++ take count s.incoming)) s')
    × Took base window (drop count s.incoming) s s'

pub data RecvCases (r : Recv) : Type 0 where
  is_chunk : (n : ℕ) → r ≡ chunk n → RecvCases r
  is_failed : (e : Bool) → r ≡ recv_failed e → RecvCases r

pub recv_cases : (r : Recv) → RecvCases r
recv_cases (chunk n) = is_chunk n refl
recv_cases (recv_failed e) = is_failed e refl

module _ (base window : ℕ) (limit : Option Timeval) (o : Open (base + window) limit) where
  read_turns-Filled :
      (ts : List Turn) (count : ℕ) (got : Bytes) (s : Sock)
      → base ≤ s.clock.sec
      → All (Prompt base window) ts
      → length s.incoming ≤ chunks ts
      → count ≤ length s.incoming
      → Filled base window limit ts count got s
  read_turns-Filled ts zero got s c p enough h = (
    record s { turns = ts },
    unfold read_turns in rw append-nil,
    record {
      incoming = refl;
      sent = refl;
      sends = refl;
      alloc = refl;
      fair = record { started = c; prompt = p; enough = enough };
    },
  )
  read_turns-Filled [] (suc count) got s c p enough h = absurd (omega arith)
  read_turns-Filled (t ∷ ts) (suc count) got s c (p, ps) enough h = elim (recv_cases t.recv) [
    | is_failed e r ↦
        let e_true : e ≡ true = rw r at p.live in
        let s₁ : Sock = record (advance t ts s) { eintr = true } in
        let fewer : length s.incoming ≤ chunks ts = rw r at enough in
        let (s', runs, took) = read_turns-Filled ts (suc count) got s₁ p.after ps fewer h in
        (
          s',
          read_turns-interrupted limit t ts (wait-Prompt base window limit t o p) count got s
                (rw e_true at r)
              ∙ runs,
          Took-of refl refl refl took,
        )
    | is_chunk n r ↦
        let (b, rest, whole) = uncons s.incoming (omega arith) in
        let s₁ : Sock = record (advance t ts s) { incoming = drop (min n count) rest } in
        let size : length s.incoming ≡ suc (length rest) = ap length whole in
        let fits : count ≤ length rest = omega arith in
        let part : length (take (min n count) rest) ≡ min n count =
          omega (arith, length-take (min n count) rest) in
        let fewer : length (drop (min n count) rest) ≤ chunks ts =
          omega (arith, length-drop (min n count) rest, rw r at enough) in
        let (s', runs, took) =
          read_turns-Filled ts (count - length (take (min n count) rest))
            (got ++ b ∷ take (min n count) rest) s₁ p.after ps fewer
            (omega (arith, length-drop (min n count) rest)) in
        (
          s',
          read_turns-chunk limit t ts (wait-Prompt base window limit t o p) n count b rest got s r
                whole
              ∙ runs
              ∙ ap (λ l. done (ok l) s')
                  (rejoin_take n count b rest fits got
                    ∙ ap (λ l. got ++ take (suc count) l) (sym whole)),
          Took-of refl refl refl (
              subst (λ l. Took base window l s₁ s')
                (rejoin_drop n count b rest fits ∙ ap (drop (suc count)) (sym whole)) took),
        )
  ]

-- On a fair socket that brings the bytes asked for within the time limit, cut anywhere, read_amt
-- returns: it gives exactly those bytes and takes no byte behind them.
pub read_amt-Gives :
    (base window : ℕ) (bs rest : Bytes) (timeout : Option Timeval) (s : Sock)
    → Fair base window s
    → Patient window timeout
    → s.incoming ≡ bs ++ rest
    → Gives base window (read_amt (length bs) timeout) s bs rest
unfolding read_amt
read_amt-Gives base window bs rest timeout s fair patient e =
    let (s', runs, took) =
      read_turns-Filled base window (limit_from s.clock timeout)
        (Open-limit base window s.clock timeout fair.started patient) s.turns (length bs) [] s
        fair.started fair.prompt fair.enough (omega (arith, ap length e, length-append bs rest)) in
    record {
      last = s';
      runs = runs ∙ ap (λ l. done (ok l) s') (ap (take (length bs)) e ∙ take-length-append bs rest);
      took =
          subst (λ l. Took base window l s s')
            (ap (drop (length bs)) e ∙ drop-length-append bs rest) took;
    }
