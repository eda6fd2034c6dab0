-- ===== src/Monitor/Ends.antt =====
-- The matcher comes to an end on every value and every pattern.
use cc_dey.Base.{
  ℕ, zero, suc, ◌≤◌, ◌<◌, ◌≡◌, refl, ap, Bool, true, false, Option, none, some, [], ◌∷◌, Bytes,
  length, ◌==◌, if◌then◌else◌, arith, Bool-cases, inl, inr,
}
use cc_dey.Monitor.{
  Scan, any, one, Match, result, null_read, past_end, Pass, returns, goes_on, value_null,
  value_past, is_empty, take_character, star, restart_at, mismatch, pass, match_loop,
  value_matches_wildcard_pattern,
}

abbrev variables : Bytes → Bytes → Bool → Option Bytes → Option Bytes → Scan
variables value pattern wildcard lp lv = record {
  value = value;
  pattern = pattern;
  wildcard = wildcard;
  last_pattern_start = lp;
  last_value_start = lv;
}

-- Some number of turns is enough.
abbrev pub Ends : Scan → Type 0
Ends s = (fuel : ℕ) × (m : Match) × (match_loop fuel s ≡ some m)

-- The loop ends if it does from where the body leaves it.
abbrev Later : Pass → Type 0
Later (goes_on s) = Ends s
Later _ = Unit

through : (s : Scan) (t : Pass) → pass s s.value s.pattern ≡ t → Later t → Ends s
unfolding match_loop
through s (returns b) e l = (1, result b, rw (match_loop, e) refl)
through s value_null e l = (1, null_read, rw (match_loop, e) refl)
through s value_past e l = (1, past_end, rw (match_loop, e) refl)
through s (goes_on s') e (fuel, m, l) = elim (Bool-cases (is_empty s'.value)) [
  | inl over ↦ (1, result (is_empty s'.pattern), rw (match_loop, e, over) refl)
  | inr more ↦ (suc fuel, m, rw (match_loop, e, more) l)
]

Ends-Later : (s : Scan) → Later (pass s s.value s.pattern) → Ends s
Ends-Later s later = through s (pass s s.value s.pattern) refl later

-- What is needed where a character is not taken.
abbrev Missed : Bool → Bytes → Bytes → Option Bytes → Option Bytes → Type 0
Missed true value pattern lp lv =
    (c : ℕ) (vs : Bytes) → value ≡ c ∷ vs → Ends (variables vs pattern true lp lv)
Missed false value pattern lp lv = Later (restart_at (variables value pattern false lp lv) lp lv)

Missed-past :
    (w : Bool) (value pattern : Bytes) (lp lv : Option Bytes)
    → Missed w value pattern lp lv
    → Later (mismatch (variables value pattern w lp lv) value_past)
unfolding mismatch
Missed-past true value pattern lp lv h = tt
Missed-past false value pattern lp lv h = h

Missed-skip :
    (w : Bool) (c : ℕ) (vs pattern : Bytes) (lp lv : Option Bytes)
    → Missed w (c ∷ vs) pattern lp lv
    → Later (mismatch (variables (c ∷ vs) pattern w lp lv) (goes_on (variables vs pattern w lp lv)))
unfolding mismatch
Missed-skip true c vs pattern lp lv h = h c vs refl
Missed-skip false c vs pattern lp lv h = h

star-Later :
    (w : Bool) (q : ℕ) (value ps : Bytes) (lp lv : Option Bytes)
    → Ends (variables value ps true (some (any ∷ ps)) lv)
    → Later (star (variables value (q ∷ ps) w lp lv) ps)
unfolding star is_empty
star-Later w q value [] lp lv h = tt
star-Later w q value (r ∷ ps) lp lv h = h

module _ (w : Bool) (value pattern : Bytes) (lp lv : Option Bytes) where
  abbrev IfTaken : Type 0
  IfTaken =
      (c q : ℕ) (vs ps : Bytes)
      → value ≡ c ∷ vs
      → pattern ≡ q ∷ ps
      → Ends (variables vs ps false lp (if w then some vs else lv))

  abbrev IfStarred : Type 0
  IfStarred =
      (q : ℕ) (ps : Bytes) → pattern ≡ q ∷ ps → Ends (variables value ps true (some (any ∷ ps)) lv)

-- A state ends if those behind it do.
pass-Ends :
    (w : Bool) (value pattern : Bytes) (lp lv : Option Bytes)
    → IfTaken w value pattern lp lv
    → IfStarred w value pattern lp lv
    → Missed w value pattern lp lv
    → Later (pass (variables value pattern w lp lv) value pattern)
unfolding pass take_character
pass-Ends w [] [] lp lv taken starred missed = tt
pass-Ends w [] (q ∷ ps) lp lv taken starred missed = elim (Bool-cases (q == one)) [
  | inl is_one ↦ rw is_one tt
  | inr no_one ↦ elim (Bool-cases (q == any)) [
    | inl is_any ↦ rw (no_one, is_any) (star-Later w q [] ps lp lv (starred q ps refl))
    | inr no_any ↦ rw (no_one, no_any) (Missed-past w [] (q ∷ ps) lp lv missed)
  ]
]
pass-Ends w (c ∷ vs) [] lp lv taken starred missed = Missed-skip w c vs [] lp lv missed
pass-Ends w (c ∷ vs) (q ∷ ps) lp lv taken starred missed = elim (Bool-cases (q == c)) [
  | inl equal ↦ rw equal (taken c q vs ps refl refl)
  | inr differ ↦ elim (Bool-cases (q == one)) [
    | inl is_one ↦ rw (differ, is_one) (taken c q vs ps refl refl)
    | inr no_one ↦ elim (Bool-cases (q == any)) [
      | inl is_any ↦
          rw (differ, no_one, is_any) (star-Later w q (c ∷ vs) ps lp lv (starred q ps refl))
      | inr no_any ↦ rw (differ, no_one, no_any) (Missed-skip w c vs (q ∷ ps) lp lv missed)
    ]
  ]
]

-- The states behind a '*' whose pattern is not longer than `n`.
abbrev SkipsEnd : ℕ → Type 0
SkipsEnd n =
    (q pattern value : Bytes) (lv : Option Bytes)
    → length q ≤ n
    → length pattern < length q
    → Ends (variables value pattern true (some q) lv)

-- The states with that pattern, with `m` characters to restart from at most.
record Bounded (n m : ℕ) : Type 0 where
  skips :
      (q pattern value : Bytes) (lv : Option Bytes)
      → length q ≤ n
      → length pattern < length q
      → length value ≤ m
      → Ends (variables value pattern true (some q) lv)
  restarts :
      (q pattern value : Bytes)
      → length q ≤ n
      → length pattern ≤ length q
      → length value ≤ m
      → Ends (variables value pattern false (some q) none)
  takes :
      (q pattern value u : Bytes)
      → length q ≤ n
      → length pattern < length q
      → length u ≤ m
      → Ends (variables value pattern false (some q) (some u))

module _ (n : ℕ) (shorter : SkipsEnd n) where
  behind_star :
      (q : ℕ) (ps pattern value : Bytes) (lv : Option Bytes)
      → pattern ≡ q ∷ ps
      → length pattern ≤ n
      → Ends (variables value ps true (some (any ∷ ps)) lv)
  behind_star q ps pattern value lv e h =
      shorter (any ∷ ps) ps value lv (omega (arith, ap length e)) (omega arith)

  take_all :
      (m k : ℕ) (q pattern value u : Bytes)
      → ((q' pattern' value' : Bytes)
          → length q' ≤ suc n
          → length pattern' ≤ length q'
          → length value' ≤ m
          → Ends (variables value' pattern' false (some q') none))
      → length value ≤ k
      → length q ≤ suc n
      → length pattern < length q
      → length u ≤ m
      → Ends (variables value pattern false (some q) (some u))
  unfolding restart_at
  take_all m zero q pattern value u restarts hv hq hp hu =
      Ends-Later (variables value pattern false (some q) (some u)) (
        pass-Ends false value pattern (some q) (some u)
          (λ c p vs ps ev ep.
            let bad : length (c ∷ vs) ≤ 0 = omega (arith, ap length ev) in absurd (omega arith))
          (λ p ps ep. behind_star p ps pattern value (some u) ep (omega arith))
          (restarts q q u hq (omega arith) hu))
  take_all m (suc k) q pattern value u restarts hv hq hp hu =
      Ends-Later (variables value pattern false (some q) (some u)) (
        pass-Ends false value pattern (some q) (some u)
          (λ c p vs ps ev ep.
            take_all m k q ps vs u restarts (omega (arith, ap length ev)) hq
              (omega (arith, ap length ep)) hu)
          (λ p ps ep. behind_star p ps pattern value (some u) ep (omega arith))
          (restarts q q u hq (omega arith) hu))

  -- The three kinds of states, from the two that come first.
  less-Bounded :
      (m : ℕ)
      → ((q pattern value : Bytes) (lv : Option Bytes)
          → length q ≤ suc n
          → length pattern < length q
          → length value ≤ m
          → Ends (variables value pattern true (some q) lv))
      → ((c p : ℕ) (q vs ps value : Bytes)
          → value ≡ c ∷ vs
          → length q ≤ suc n
          → length ps ≤ length q
          → length value ≤ m
          → Ends (variables vs ps false (some q) none))
      → Bounded (suc n) m
  unfolding restart_at
  less-Bounded m skips less =
      let restarts : (q pattern value : Bytes)
          → length q ≤ suc n
          → length pattern ≤ length q
          → length value ≤ m
          → Ends (variables value pattern false (some q) none) =
        λ q pattern value hq hp hv. Ends-Later (variables value pattern false (some q) none) (
          pass-Ends false value pattern (some q) none
            (λ c p vs ps ev ep. less c p q vs ps value ev hq (omega (arith, ap length ep)) hv)
            (λ p ps ep.
              skips (any ∷ ps) ps value none (omega (arith, ap length ep)) (omega arith) hv)
            tt) in
      record {
        skips = skips;
        restarts = restarts;
        takes = λ q pattern value u hq hp hu.
            take_all m (length value) q pattern value u restarts (omega arith) hq hp hu;
      }

  all-Bounded : (m : ℕ) → Bounded (suc n) m
  all-Bounded zero =
      less-Bounded zero
        (λ q pattern value lv hq hp hv. Ends-Later (variables value pattern true (some q) lv) (
          pass-Ends true value pattern (some q) lv
            (λ c p vs ps ev ep.
              let bad : length (c ∷ vs) ≤ 0 = omega (arith, ap length ev) in absurd (omega arith))
            (λ p ps ep. behind_star p ps pattern value lv ep (omega arith))
            (λ c vs ev.
              let bad : length (c ∷ vs) ≤ 0 = omega (arith, ap length ev) in absurd (omega arith))))
        (λ c p q vs ps value ev hq hp hv.
          let bad : length (c ∷ vs) ≤ 0 = omega (arith, ap length ev) in absurd (omega arith))
  all-Bounded (suc m) =
      let before = all-Bounded m in
      less-Bounded (suc m)
        (λ q pattern value lv hq hp hv. Ends-Later (variables value pattern true (some q) lv) (
          pass-Ends true value pattern (some q) lv
            (λ c p vs ps ev ep.
              before.takes q ps vs vs hq (omega (arith, ap length ep))
                (omega (arith, ap length ev)))
            (λ p ps ep. behind_star p ps pattern value lv ep (omega arith))
            (λ c vs ev. before.skips q pattern vs lv hq hp (omega (arith, ap length ev)))))
        (λ c p q vs ps value ev hq hp hv.
          before.restarts q ps vs hq hp (omega (arith, ap length ev)))

all-SkipsEnd : (n : ℕ) → SkipsEnd n
all-SkipsEnd zero q pattern value lv hq hp = absurd (omega arith)
all-SkipsEnd (suc n) q pattern value lv hq hp =
    (all-Bounded n (all-SkipsEnd n) (length value)).skips q pattern value lv hq hp (omega arith)

-- Before the first '*'.
plain-Ends :
    (k : ℕ) (value pattern : Bytes)
    → length value ≤ k
    → Ends (variables value pattern false none none)
unfolding restart_at
plain-Ends zero value pattern h = Ends-Later (variables value pattern false none none) (
    pass-Ends false value pattern none none
      (λ c p vs ps ev ep.
        let bad : length (c ∷ vs) ≤ 0 = omega (arith, ap length ev) in absurd (omega arith))
      (λ p ps ep.
        all-SkipsEnd (length (any ∷ ps)) (any ∷ ps) ps value none (omega arith) (omega arith))
      tt)
plain-Ends (suc k) value pattern h = Ends-Later (variables value pattern false none none) (
    pass-Ends false value pattern none none
      (λ c p vs ps ev ep. plain-Ends k vs ps (omega (arith, ap length ev)))
      (λ p ps ep.
        all-SkipsEnd (length (any ∷ ps)) (any ∷ ps) ps value none (omega arith) (omega arith))
      tt)

-- The matcher comes to an end for every value and every pattern: some number of turns is enough.
pub value_matches_wildcard_pattern-Ends :
    (value pattern : Bytes)
    → (fuel : ℕ) × (m : Match) × (value_matches_wildcard_pattern fuel value pattern ≡ some m)
unfolding value_matches_wildcard_pattern
value_matches_wildcard_pattern-Ends value pattern =
    plain-Ends (length value) value pattern (omega arith)
