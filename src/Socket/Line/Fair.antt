-- ===== src/Socket/Line/Fair.antt =====
-- A line that fits in the buffer, read from a fair socket.
use cc_dey.Base.{
  ℕ, zero, suc, ◌+◌, ◌-◌, ◌≤◌, ◌<◌, ◌≡◌, ◌≢◌, refl, ap, ◌∙◌, min, true, Option, none, some, List,
  [], ◌∷◌, ◌++◌, append_assoc, Bytes, length, take, drop, leb, if◌then◌else◌, All, arith,
  take-append-drop, take-append_le, drop-append_le, take-take_append, All-drop, drop_past,
  length-append, length-take, length-drop,
}
use Prim.Native.Nat.{zero-le}
use native.Mathlib.Decide.{dec_lt}
use cc_dey.Socket.{Timeval, Turn, chunk, recv_failed, Sock, ok, done, wait, advance, limit_from}
use cc_dey.Socket.Fair.{
  Prompt, Fair, chunks, Open, Open-limit, Patient, wait-Prompt, Took, Took-of, Gives, recv_cases,
  is_chunk, is_failed,
}
use cc_dey.Socket.Line.{terminator, find_terminator, line_turns, read_line}

abbrev pub Unbroken : Bytes → Type 0
Unbroken = All (λ b. b ≢ terminator)

find_terminator-take :
    (l rest : Bytes) (k : ℕ)
    → Unbroken l
    → find_terminator (take k (l ++ terminator ∷ rest))
      ≡ (if leb k (length l) then none else some (length l))
unfolding find_terminator
find_terminator-take [] rest zero h = refl
find_terminator-take [] rest (suc k) h = ground arith
find_terminator-take (b ∷ l) rest zero h = ground arith
find_terminator-take (b ∷ l) rest (suc k) (hb, h) = ground (arith, find_terminator-take l rest k h)

module _ (limit : Option Timeval) (t : Turn) (ts : List Turn) (w : wait limit t ≡ none) where
  line_turns-interrupted :
      (left : ℕ) (buf : Bytes) (s : Sock)
      → t.recv ≡ recv_failed true
      → line_turns limit (t ∷ ts) (suc left) buf s
        ≡ line_turns limit ts (suc left) buf (record (advance t ts s) { eintr = true })
  unfolding line_turns
  line_turns-interrupted left buf s e = rw (w, e, line_turns)

  line_turns-found :
      (n left b k : ℕ) (rest buf : Bytes) (s : Sock)
      → t.recv ≡ chunk n
      → s.incoming ≡ b ∷ rest
      → find_terminator (b ∷ take (min n left) rest) ≡ some k
      → line_turns limit (t ∷ ts) (suc left) buf s
        ≡ done
            (ok (record {
              count = length buf + (k + 1);
              text = buf ++ take k (b ∷ take (min n left) rest);
            }))
            (record (advance t ts s) { incoming = drop (k + 1) (b ∷ rest) })
  unfolding line_turns
  line_turns-found n left b k rest buf s e h f = rw (w, e, h, f, line_turns)

  line_turns-more :
      (n left b : ℕ) (rest buf : Bytes) (s : Sock)
      → t.recv ≡ chunk n
      → s.incoming ≡ b ∷ rest
      → find_terminator (b ∷ take (min n left) rest) ≡ none
      → line_turns limit (t ∷ ts) (suc left) buf s
        ≡ line_turns limit ts
            (left - length (take (min n left) rest))
            (buf ++ b ∷ take (min n left) rest)
            (record (advance t ts s) { incoming = drop (min n left) rest })
  unfolding line_turns
  line_turns-more n left b rest buf s e h f = rw (w, e, h, f, line_turns)

abbrev Lined : ℕ → ℕ → Option Timeval → List Turn → ℕ → Bytes → Bytes → Bytes → Sock → Type 0
Lined base window limit ts left buf l rest s =
    (s' : Sock) × (line_turns limit ts left buf s
      ≡ done (ok (record { count = length buf + (length l + 1); text = buf ++ l })) s')
    × Took base window rest s s'

module _ (rest : Bytes) (n left b : ℕ) (l : Bytes) (u : Unbroken (b ∷ l)) where
  seen_terminator :
      length l < min n left
      → find_terminator (b ∷ take (min n left) (l ++ terminator ∷ rest)) ≡ some (suc (length l))
  unfolding find_terminator
  seen_terminator h = ground (arith, find_terminator-take l rest (min n left) u.1)

  unseen_terminator :
      min n left ≤ length l
      → find_terminator (b ∷ take (min n left) (l ++ terminator ∷ rest)) ≡ none
  unfolding find_terminator
  unseen_terminator h = ground (arith, find_terminator-take l rest (min n left) u.1)

  seen_text :
      length l < min n left
      → take (suc (length l)) (b ∷ take (min n left) (l ++ terminator ∷ rest)) ≡ b ∷ l
  seen_text h = ap (λ r. b ∷ r) (take-take_append (min n left) l (terminator ∷ rest) (omega arith))

  unseen_text :
      (buf : Bytes)
      → min n left ≤ length l
      → (buf ++ b ∷ take (min n left) (l ++ terminator ∷ rest)) ++ drop (min n left) l
        ≡ buf ++ b ∷ l
  unseen_text buf h =
      rw (append_assoc, take-append_le (min n left) l (terminator ∷ rest) h)
        (ap (λ r. buf ++ b ∷ r) (take-append-drop (min n left) l))

  unseen_length :
      min n left ≤ length l → length (take (min n left) (l ++ terminator ∷ rest)) ≡ min n left
  unseen_length h = omega (
    arith,
    length-take (min n left) (l ++ terminator ∷ rest),
    length-append l (terminator ∷ rest),
  )

  unseen_count :
      (buf : Bytes)
      → min n left ≤ length l
      → length (buf ++ b ∷ take (min n left) (l ++ terminator ∷ rest))
          + (length (drop (min n left) l) + 1)
        ≡ length buf + (length (b ∷ l) + 1)
  unseen_count buf h = omega (
    arith,
    length-append buf (b ∷ take (min n left) (l ++ terminator ∷ rest)),
    unseen_length h,
    length-drop (min n left) l,
  )

module _ (base window : ℕ) (limit : Option Timeval) (o : Open (base + window) limit)
    (rest : Bytes) where
  passes : (t : Turn) → Prompt base window t → wait limit t ≡ none
  passes t p = wait-Prompt base window limit t o p

  -- The terminator is in the chunk.
  line_turns-last :
      (t : Turn) (ts : List Turn) (n left : ℕ) (buf l : Bytes) (s : Sock)
      → Prompt base window t
      → All (Prompt base window) ts
      → t.recv ≡ chunk n
      → length s.incoming ≤ suc (chunks ts)
      → s.incoming ≡ l ++ terminator ∷ rest
      → Unbroken l
      → length l ≤ min n left
      → Lined base window limit (t ∷ ts) (suc left) buf l rest s
  line_turns-last t ts n left buf [] s p ps r enough inc u h = (
    record (advance t ts s) { incoming = rest },
    line_turns-found limit t ts (passes t p) n left terminator 0 rest buf s r inc
        (unfold find_terminator in ground arith),
    record {
      incoming = refl;
      sent = refl;
      sends = refl;
      alloc = refl;
      fair = record { started = p.after; prompt = ps; enough = omega (arith, ap length inc) };
    },
  )
  line_turns-last t ts n left buf (b ∷ l) s p ps r enough inc u h = (
    record (advance t ts s) { incoming = rest },
    line_turns-found limit t ts (passes t p) n left b (suc (length l)) (l ++ terminator ∷ rest) buf
          s r inc (seen_terminator rest n left b l u h)
        ∙ (λ i.
            done
              (ok (record {
                count = length buf + (suc (length l) + 1);
                text = buf ++ seen_text rest n left b l u h i;
              }))
              (record (advance t ts s) { incoming = drop_past (b ∷ l) rest terminator i })),
    record {
      incoming = refl;
      sent = refl;
      sends = refl;
      alloc = refl;
      fair = record {
        started = p.after;
        prompt = ps;
        enough = omega (arith, ap length inc, length-append l (terminator ∷ rest));
      };
    },
  )

  -- The chunk ends before the terminator.
  line_turns-next :
      (t : Turn) (ts : List Turn) (n left b : ℕ) (buf l : Bytes) (s : Sock)
      → Prompt base window t
      → t.recv ≡ chunk n
      → s.incoming ≡ b ∷ l ++ terminator ∷ rest
      → Unbroken (b ∷ l)
      → min n left ≤ length l
      → Lined base window limit ts
          (left - length (take (min n left) (l ++ terminator ∷ rest)))
          (buf ++ b ∷ take (min n left) (l ++ terminator ∷ rest))
          (drop (min n left) l)
          rest
          (record (advance t ts s) { incoming = drop (min n left) (l ++ terminator ∷ rest) })
      → Lined base window limit (t ∷ ts) (suc left) buf (b ∷ l) rest s
  line_turns-next t ts n left b buf l s p r inc u h (s', runs, took) = (
    s',
    line_turns-more limit t ts (passes t p) n left b (l ++ terminator ∷ rest) buf s r inc
          (unseen_terminator rest n left b l u h)
        ∙ runs
        ∙ (λ i.
            done
              (ok (record {
                count = unseen_count rest n left b l u buf h i;
                text = unseen_text rest n left b l u buf h i;
              }))
              s'),
    Took-of refl refl refl took,
  )

  line_turns-Lined :
      (ts : List Turn) (left : ℕ) (buf l : Bytes) (s : Sock)
      → base ≤ s.clock.sec
      → All (Prompt base window) ts
      → length s.incoming ≤ chunks ts
      → s.incoming ≡ l ++ terminator ∷ rest
      → Unbroken l
      → length l < left
      → Lined base window limit ts left buf l rest s
  line_turns-Lined ts zero buf l s c p enough inc u h = absurd (omega arith)
  line_turns-Lined [] (suc left) buf l s c p enough inc u h =
      absurd (omega (arith, ap length inc, length-append l (terminator ∷ rest)))
  line_turns-Lined (t ∷ ts) (suc left) buf [] s c (p, ps) enough inc u h =
      elim (recv_cases t.recv) [
        | is_failed e r ↦
            let e_true : e ≡ true = rw r at p.live in
            let s₁ : Sock = record (advance t ts s) { eintr = true } in
            let fewer : length s.incoming ≤ chunks ts = rw r at enough in
            let (s', runs, took) =
              line_turns-Lined ts (suc left) buf [] s₁ p.after ps fewer inc u h in
            (
              s',
              line_turns-interrupted limit t ts (passes t p) left buf s (rw e_true at r) ∙ runs,
              Took-of refl refl refl took,
            )
        | is_chunk n r ↦
            let fewer : length s.incoming ≤ suc (chunks ts) = rw r at enough in
            line_turns-last t ts n left buf [] s p ps r fewer inc u zero-le
      ]
  line_turns-Lined (t ∷ ts) (suc left) buf (b ∷ l) s c (p, ps) enough inc u h =
      elim (recv_cases t.recv) [
        | is_failed e r ↦
            let e_true : e ≡ true = rw r at p.live in
            let s₁ : Sock = record (advance t ts s) { eintr = true } in
            let fewer : length s.incoming ≤ chunks ts = rw r at enough in
            let (s', runs, took) =
              line_turns-Lined ts (suc left) buf (b ∷ l) s₁ p.after ps fewer inc u h in
            (
              s',
              line_turns-interrupted limit t ts (passes t p) left buf s (rw e_true at r) ∙ runs,
              Took-of refl refl refl took,
            )
        | is_chunk n r ↦
            let fewer : length s.incoming ≤ suc (chunks ts) = rw r at enough in
            elim (dec_lt (length l) (min n left)) [
              | yes d ↦ line_turns-last t ts n left buf (b ∷ l) s p ps r fewer inc u d
              | no d ↦
                  let part : min n left ≤ length l = omega arith in
                  let tail : length (l ++ terminator ∷ rest) ≤ chunks ts =
                    omega (arith, ap length inc) in
                  line_turns-next t ts n left b buf l s p r inc u part (
                    line_turns-Lined ts (left - length (take (min n left) (l ++ terminator ∷ rest)))
                      (buf ++ b ∷ take (min n left) (l ++ terminator ∷ rest)) (drop (min n left) l)
                      (record (advance t ts s) {
                        incoming = drop (min n left) (l ++ terminator ∷ rest);
                      })
                      p.after ps (omega (arith, length-drop (min n left) (l ++ terminator ∷ rest)))
                      (drop-append_le (min n left) l (terminator ∷ rest) part)
                      (All-drop _ (min n left) l u.1)
                      (omega
                        (arith, unseen_length rest n left b l u part, length-drop (min n left) l)))
            ]
      ]

-- On a fair socket that brings a line shorter than the buffer and its terminator within the time
-- limit, cut anywhere, read_line returns: it gives the line before the terminator and its length
-- with the terminator, and takes no byte behind it.
pub read_line-Gives :
    (base window left : ℕ) (l rest : Bytes) (timeout : Option Timeval) (s : Sock)
    → Fair base window s
    → Patient window timeout
    → s.incoming ≡ l ++ terminator ∷ rest
    → Unbroken l
    → length l < suc left
    → Gives base window
        (read_line (suc left) timeout)
        s
        (record { count = length l + 1; text = l })
        rest
unfolding read_line
read_line-Gives base window left l rest timeout s fair patient inc u h =
    let (s', runs, took) =
      line_turns-Lined base window (limit_from s.clock timeout)
        (Open-limit base window s.clock timeout fair.started patient) rest s.turns (suc left) [] l s
        fair.started fair.prompt fair.enough inc u h in
    record {
      last = s';
      runs = runs ∙ ap (λ k. done (ok (record { count = k; text = l })) s') (omega arith);
      took = took;
    }
