-- ===== src/Collection/Request.antt =====
-- The points of one request, and what the exchange with the daemon gives.
use cc_dey.Base.{
  ℕ, zero, suc, ◌<◌, ◌≡◌, ◌≢◌, refl, ap, false, Option, none, some, List, [], ◌∷◌, Bytes, length,
  take, ◌==◌, arith, length-append,
}
use cc_dey.CommError
use cc_dey.Socket.{ok, err, done, blocked, fault}
use cc_dey.Csv.Number.{Floats}
use cc_dey.Csv.Point.{Point, Stream}
use cc_dey.Csv.Generator.Text.{line_text, then_comma}
use cc_dey.Csv.Generator.Sheet.{sheet, limited, lines_text}
use cc_dey.Client.Upload.{
  Resp, metrics, Call, refused, ran, send_dp_data, is_invalid, no_data, finish, resp_code,
}
use cc_dey.Collection.{
  Collection, dp_max_number_per_request, limit_dp, after_send, on_call, code_only,
}
use cc_dey.Collection.Taken.{sheet_of}

module _ (floats : Floats) where
  -- The points of one request.
  unfoldable pub request_points : Collection floats → List (Stream floats × Point floats)
  request_points c = take (limit_dp floats c dp_max_number_per_request) (sheet_of floats c.streams)

  pub limited-take :
      (n : ℕ) (ys : List (Stream floats × Point floats)) → n ≢ 0 → limited floats n ys ≡ take n ys
  unfolding limited
  limited-take n ys h = let bound : (n == 0) ≡ false = ground arith in rw bound refl

  pub take-take-length :
      (n : ℕ) (ys : List (Stream floats × Point floats)) → take (length (take n ys)) ys ≡ take n ys
  take-take-length zero ys = refl
  take-take-length (suc n) [] = refl
  take-take-length (suc n) (y ∷ ys) = ap (λ l. y ∷ l) (take-take-length n ys)

  then_comma-some : (a b : Bytes) → 0 < length (then_comma floats a b)
  unfolding then_comma
  then_comma-some a b = omega (arith, length-append a (b',' ∷ b))

  line_text-some : (s : Stream floats) (x : Point floats) → 0 < length (line_text floats s x)
  unfolding line_text
  line_text-some s x = then_comma-some _ _

  -- The first point of the first stream is among those of a request.
  abbrev pub Starts : List (Stream floats × Point floats) → Type 0
  Starts ys = (length ys ≢ 0) × (0 < length (lines_text floats ys))

  cons-Starts :
      (s : Stream floats) (x : Point floats) (ys : List (Stream floats × Point floats))
      → Starts ((s, x) ∷ ys)
  unfolding lines_text
  cons-Starts s x ys =
      let some_bytes = line_text-some s x in
      (ground arith, omega (arith, length-append (line_text floats s x) (lines_text floats ys)))

  pub take-Starts :
      (n : ℕ) (later : List (Stream floats)) (s : Stream floats) (xs : List (Point floats))
      → n ≢ 0
      → xs ≢ []
      → Starts (take n (sheet floats later s xs))
  unfolding sheet
  take-Starts zero later s xs some_points full = absurd (some_points refl)
  take-Starts (suc n) later s [] some_points full = absurd (full refl)
  take-Starts (suc n) [] s (x ∷ xs) some_points full = cons-Starts s x _
  take-Starts (suc n) (s' ∷ later) s (x ∷ xs) some_points full = cons-Starts s x _

  -- What an exchange that is over gives.
  unfoldable pub answer : Call → Option (ℕ × Resp)
  answer (refused r) = some r
  answer (ran (done (ok r) k)) = some r
  answer (ran (done (err e) k)) = none
  answer (ran blocked) = none
  answer (ran fault) = none

  pub on_call-answer :
      (c : Collection floats) (n : ℕ) (call : Call) (r : ℕ × Resp)
      → answer call ≡ some r
      → on_call floats c n call ≡ after_send floats c n r
  unfolding on_call answer
  on_call-answer c n (refused r') r e = ap (after_send floats c n) (cc)
  on_call-answer c n (ran (done (ok r') k)) r e = ap (after_send floats c n) (cc)
  on_call-answer c n (ran (done (err x) k)) r e = cc
  on_call-answer c n (ran blocked) r e = cc
  on_call-answer c n (ran fault) r e = cc

  pub length-some : (xs : List (Point floats)) → xs ≢ [] → length xs ≢ 0
  length-some [] full = absurd (full refl)
  length-some (x ∷ xs) full = ground arith

  pub send_dp_data-unconnected :
      (t : Bytes) (timeout : ℕ)
      → 0 < length t
      → answer (send_dp_data (metrics (some t)) timeout none)
        ≡ some (CommError.unable_to_connect, code_only floats 0)
  unfolding send_dp_data is_invalid no_data finish resp_code answer
  send_dp_data-unconnected [] timeout h = absurd (omega arith)
  send_dp_data-unconnected (b ∷ t) timeout h = refl
