-- ===== src/Monitor/Sound.antt =====
-- What is matched is in the language of the pattern.
use cc_dey.Base.{
  ℕ, zero, suc, ◌≡◌, refl, sym, Bool, true, false, Option, none, some, [], ◌∷◌, Bytes, ◌==◌,
  if◌then◌else◌, arith, Bool-cases, inl, inr, subst,
}
use cc_dey.Monitor.{
  Scan, any, one, Match, result, null_read, past_end, Pass, returns, goes_on, value_null,
  value_past, is_empty, take_character, star, restart_at, mismatch, pass, match_loop,
  value_matches_wildcard_pattern,
}

-- The language of a pattern: '?' stands for one character and '*' for any number of them.
pub data Glob : Bytes → Bytes → Type 0 where
  empty : Glob [] []
  same : (c : ℕ) {p v : Bytes} → Glob p v → Glob (c ∷ p) (c ∷ v)
  single : (c : ℕ) {p v : Bytes} → Glob p v → Glob (one ∷ p) (c ∷ v)
  stop : {p v : Bytes} → Glob p v → Glob (any ∷ p) v
  skip : (c : ℕ) {p v : Bytes} → Glob (any ∷ p) v → Glob (any ∷ p) (c ∷ v)

all_skipped : (v : Bytes) → Glob (any ∷ []) v
all_skipped [] = stop empty
all_skipped (c ∷ v) = skip c (all_skipped v)

-- What is left to match: after a '*', characters may be skipped.
abbrev goal : Bool → Bytes → Bytes
goal true pattern = any ∷ pattern
goal false pattern = pattern

-- A way from the variables back to the whole pattern and the whole value.
record Leads (p v : Bytes) (s : Scan) : Type 0 where
  here : Glob (goal s.wildcard s.pattern) s.value → Glob p v
  starred : s.wildcard ≡ true → s.last_pattern_start ≡ some (any ∷ s.pattern)
  behind :
      (q u : Bytes)
      → s.wildcard ≡ false
      → s.last_pattern_start ≡ some q
      → s.last_value_start ≡ some u
      → Glob q u
      → Glob p v

module _ (p v : Bytes) where
  -- A turn that goes on keeps the way, and one that returns true is right.
  PassLeads : Pass → Type 0
  PassLeads (returns true) = Glob p v
  PassLeads (returns false) = Unit
  PassLeads (goes_on s) = Leads p v s
  PassLeads value_null = Unit
  PassLeads value_past = Unit

  abbrev variables : Bytes → Bytes → Bool → Option Bytes → Option Bytes → Scan
  variables value pattern wildcard lp lv = record {
    value = value;
    pattern = pattern;
    wildcard = wildcard;
    last_pattern_start = lp;
    last_value_start = lv;
  }

  take_character-Leads :
      (w : Bool) (c q : ℕ) (vs ps : Bytes) (lp lv : Option Bytes)
      → ((r u : Bytes) → Glob r u → Glob (q ∷ r) (c ∷ u))
      → Leads p v (variables (c ∷ vs) (q ∷ ps) w lp lv)
      → PassLeads (take_character (variables (c ∷ vs) (q ∷ ps) w lp lv) vs ps)
  unfolding PassLeads take_character
  take_character-Leads false c q vs ps lp lv takes leads = record {
    here = λ g. leads.here (takes _ _ g);
    starred = λ e. ground arith;
    behind = leads.behind;
  }
  take_character-Leads true c q vs ps lp lv takes leads = record {
    here = λ g. leads.here (stop (takes _ _ g));
    starred = λ e. ground arith;
    behind = λ r u e er eu g.
        let pattern : r ≡ any ∷ (q ∷ ps) = ground (arith, leads.starred refl) in
        let value : u ≡ vs = ground arith in
        leads.here
          (skip c (subst (λ x. Glob (any ∷ (q ∷ ps)) x) value (subst (λ x. Glob x u) pattern g)));
  }

  star-Leads :
      (w : Bool) (value ps : Bytes) (lp lv : Option Bytes)
      → Leads p v (variables value (any ∷ ps) w lp lv)
      → PassLeads (star (variables value (any ∷ ps) w lp lv) ps)
  unfolding PassLeads star is_empty
  star-Leads true value [] lp lv leads = leads.here (stop (all_skipped value))
  star-Leads false value [] lp lv leads = leads.here (all_skipped value)
  star-Leads true value (q ∷ ps) lp lv leads = record {
    here = λ g. leads.here (stop g);
    starred = λ e. refl;
    behind = λ r u e er eu g. ground arith;
  }
  star-Leads false value (q ∷ ps) lp lv leads = record {
    here = λ g. leads.here g;
    starred = λ e. refl;
    behind = λ r u e er eu g. ground arith;
  }

  restart_at-Leads :
      (value ps : Bytes) (lp lv : Option Bytes)
      → Leads p v (variables value ps false lp lv)
      → PassLeads (restart_at (variables value ps false lp lv) lp lv)
  unfolding PassLeads restart_at
  restart_at-Leads value ps none lv leads = tt
  restart_at-Leads value ps (some lp) none leads = tt
  restart_at-Leads value ps (some lp) (some lv) leads = record {
    here = λ g. leads.behind lp lv refl refl refl g;
    starred = λ e. ground arith;
    behind = λ r u e er eu g. ground arith;
  }

  mismatch-Leads :
      (w : Bool) (c : ℕ) (vs ps : Bytes) (lp lv : Option Bytes)
      → Leads p v (variables (c ∷ vs) ps w lp lv)
      → PassLeads (mismatch (variables (c ∷ vs) ps w lp lv) (goes_on (variables vs ps w lp lv)))
  unfolding PassLeads mismatch restart_at
  mismatch-Leads true c vs ps lp lv leads = record {
    here = λ g. leads.here (skip c g);
    starred = leads.starred;
    behind = leads.behind;
  }
  mismatch-Leads false c vs ps lp lv leads = restart_at-Leads (c ∷ vs) ps lp lv leads

  -- The value is used up, and the pattern is not.
  short-Leads :
      (w : Bool) (q : ℕ) (ps : Bytes) (lp lv : Option Bytes)
      → Leads p v (variables [] (q ∷ ps) w lp lv)
      → PassLeads (mismatch (variables [] (q ∷ ps) w lp lv) value_past)
  unfolding PassLeads mismatch
  short-Leads true q ps lp lv leads = tt
  short-Leads false q ps lp lv leads = restart_at-Leads [] (q ∷ ps) lp lv leads

  is_any-Leads :
      (w : Bool) (q : ℕ) (value ps : Bytes) (lp lv : Option Bytes)
      → (q == any) ≡ true
      → Leads p v (variables value (q ∷ ps) w lp lv)
      → PassLeads (star (variables value (q ∷ ps) w lp lv) ps)
  is_any-Leads w q value ps lp lv h =
      let e : any ≡ q = ground arith in
      subst
        (λ x.
          Leads p v (variables value (x ∷ ps) w lp lv)
          → PassLeads (star (variables value (x ∷ ps) w lp lv) ps))
        e (star-Leads w value ps lp lv)

  pass-Leads :
      (w : Bool) (value pattern : Bytes) (lp lv : Option Bytes)
      → Leads p v (variables value pattern w lp lv)
      → PassLeads (pass (variables value pattern w lp lv) value pattern)
  unfolding PassLeads pass
  pass-Leads w [] [] lp lv leads = tt
  pass-Leads w [] (q ∷ ps) lp lv leads = elim (Bool-cases (q == one)) [
    | inl is_one ↦ rw is_one tt
    | inr no_one ↦ elim (Bool-cases (q == any)) [
      | inl is_any ↦ rw (no_one, is_any) (is_any-Leads w q [] ps lp lv is_any leads)
      | inr no_any ↦ rw (no_one, no_any) (short-Leads w q ps lp lv leads)
    ]
  ]
  pass-Leads w (c ∷ vs) [] lp lv leads = mismatch-Leads w c vs [] lp lv leads
  pass-Leads w (c ∷ vs) (q ∷ ps) lp lv leads = elim (Bool-cases (q == c)) [
    | inl equal ↦
        let e : c ≡ q = ground arith in
        rw equal (
          take_character-Leads w c q vs ps lp lv
            (λ r u g. subst (λ x. Glob (q ∷ r) (x ∷ u)) (sym e) (same q g)) leads)
    | inr differ ↦ elim (Bool-cases (q == one)) [
      | inl is_one ↦
          let e : one ≡ q = ground arith in
          rw (differ, is_one)
            (take_character-Leads w c q vs ps lp lv
              (λ r u g. subst (λ x. Glob (x ∷ r) (c ∷ u)) e (single c g)) leads)
      | inr no_one ↦ elim (Bool-cases (q == any)) [
        | inl is_any ↦ rw (differ, no_one, is_any) (is_any-Leads w q (c ∷ vs) ps lp lv is_any leads)
        | inr no_any ↦ rw (differ, no_one, no_any) (mismatch-Leads w c vs (q ∷ ps) lp lv leads)
      ]
    ]
  ]

  is_empty-nil : (t : Bytes) → is_empty t ≡ true → t ≡ []
  unfolding is_empty
  is_empty-nil [] e = refl
  is_empty-nil (c ∷ t) e = ground arith

  ended : (w : Bool) → Glob (goal w []) []
  ended true = stop empty
  ended false = empty

  -- Both strings are used up.
  end-Glob :
      (s : Scan) → Leads p v s → is_empty s.value ≡ true → is_empty s.pattern ≡ true → Glob p v
  end-Glob s leads ev ep = leads.here (
      subst (λ x. Glob (goal s.wildcard x) s.value) (sym (is_empty-nil s.pattern ep))
        (subst (λ x. Glob (goal s.wildcard []) x) (sym (is_empty-nil s.value ev))
          (ended s.wildcard)))

  after_pass :
      (fuel : ℕ) (t : Pass)
      → ((s : Scan) → Leads p v s → match_loop fuel s ≡ some (result true) → Glob p v)
      → PassLeads t
      → (elim t as (λ t. Option Match) [
        | returns b ↦ some (result b)
        | value_null ↦ some null_read
        | value_past ↦ some past_end
        | goes_on s' ↦
            if is_empty s'.value then some (result (is_empty s'.pattern)) else match_loop fuel s'
      ])
        ≡ some (result true)
      → Glob p v
  unfolding PassLeads
  after_pass fuel (returns true) later leads e = leads
  after_pass fuel (returns false) later leads e = ground arith
  after_pass fuel value_null later leads e = ground arith
  after_pass fuel value_past later leads e = ground arith
  after_pass fuel (goes_on s) later leads e = elim (Bool-cases (is_empty s.value)) [
    | inl over ↦ let all : is_empty s.pattern ≡ true = ground arith in end-Glob s leads over all
    | inr more ↦ let on : match_loop fuel s ≡ some (result true) = ground arith in later s leads on
  ]

  loop-Glob :
      (fuel : ℕ) (s : Scan) → Leads p v s → match_loop fuel s ≡ some (result true) → Glob p v
  unfolding match_loop
  loop-Glob zero s leads e = ground arith
  loop-Glob (suc fuel) s leads e =
      after_pass fuel (pass s s.value s.pattern) (loop-Glob fuel)
        (pass-Leads s.wildcard s.value s.pattern s.last_pattern_start s.last_value_start leads) e

-- Whenever the matcher answers that a value matches a pattern, the value is in the language of the
-- pattern, where '?' stands for one character and '*' for any number of them.
pub value_matches_wildcard_pattern-Glob :
    (fuel : ℕ) (value pattern : Bytes)
    → value_matches_wildcard_pattern fuel value pattern ≡ some (result true)
    → Glob pattern value
unfolding value_matches_wildcard_pattern
value_matches_wildcard_pattern-Glob fuel value pattern e =
    loop-Glob pattern value fuel (variables pattern value value pattern false none none)
      (record {
        here = λ g. g;
        starred = λ w. ground arith;
        behind = λ q u w er eu g. ground arith;
      })
      e
