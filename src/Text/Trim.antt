-- ===== src/Text/Trim.antt =====
-- What trimming and unquoting leave of a string.
use cc_dey.Base.{
  ℕ, ◌≡◌, ◌≢◌, ◌⊎◌, inl, inr, refl, sym, ap, ◌∙◌, true, false, [], ◌∷◌, ◌++◌, append_assoc, Bytes,
  All, All-append, arith, Bool-cases, subst,
}
use mathlib.Core.List.{reverse, reverse-append, reverse-reverse}
use cc_dey.Text.{
  is_blank, cleaned, out_of_bounds, leading_loop, delete_leading_spaces, trailing_loop, backwards,
  delete_trailing_spaces, then_leading, trim,
}

abbrev pub Blank : ℕ → Type 0
Blank c = is_blank c ≡ true

-- The first byte of a string is not blank.
abbrev pub StartsClean : Bytes → Type 0
StartsClean [] = Unit
StartsClean (c ∷ s) = is_blank c ≡ false

-- A string with no blank at its start, behind blanks that are left out.
abbrev Led : Bytes → Type 0
Led s =
    (before kept : Bytes) × (leading_loop s ≡ cleaned kept)
    × (s ≡ before ++ kept)
    × All Blank before
    × StartsClean kept
    × (kept ≢ [])

abbrev HasText : Bytes → Type 0
HasText [] = ⊥
HasText (c ∷ s) = (is_blank c ≡ false) ⊎ HasText s

leading_loop-Led : (s : Bytes) → HasText s → Led s
unfolding leading_loop
leading_loop-Led [] h = absurd h
leading_loop-Led (c ∷ s) h = elim (Bool-cases (is_blank c)) [
  | inr clean ↦ ([], c ∷ s, rw clean, refl, tt, clean, (cc))
  | inl blank ↦
      let rest : HasText s = ground arith in
      let (before, kept, runs, whole, blanks, clean, some_left) = leading_loop-Led s rest in
      (c ∷ before, kept, rw blank runs, ap (λ l. c ∷ l) whole, (blank, blanks), clean, some_left)
]

leading_loop-Blank : (s : Bytes) → All Blank s → leading_loop s ≡ out_of_bounds
unfolding leading_loop
leading_loop-Blank [] h = refl
leading_loop-Blank (c ∷ s) (hc, h) = rw hc (leading_loop-Blank s h)

-- '\0' is not printable, so its own test changes nothing.
trailing-leading : (s : Bytes) → trailing_loop s ≡ leading_loop s
unfolding trailing_loop leading_loop is_blank
trailing-leading [] = refl
trailing-leading (c ∷ s) = ground (arith, trailing-leading s)

HasText-left : (xs ys : Bytes) → HasText xs → HasText (xs ++ ys)
HasText-left [] ys h = absurd h
HasText-left (x ∷ xs) ys (inl h) = inl h
HasText-left (x ∷ xs) ys (inr h) = inr (HasText-left xs ys h)

HasText-right : (xs ys : Bytes) → HasText ys → HasText (xs ++ ys)
HasText-right [] ys h = h
HasText-right (x ∷ xs) ys h = inr (HasText-right xs ys h)

reverse-cons : (c : ℕ) (s : Bytes) → reverse (c ∷ s) ≡ reverse s ++ c ∷ []
reverse-cons c s = reverse-append (c ∷ []) s

HasText-reverse : (s : Bytes) → HasText s → HasText (reverse s)
HasText-reverse [] h = absurd h
HasText-reverse (c ∷ s) (inl h) = rw reverse-cons (HasText-right (reverse s) (c ∷ []) (inl h))
HasText-reverse (c ∷ s) (inr h) =
    rw reverse-cons (HasText-left (reverse s) (c ∷ []) (HasText-reverse s h))

Blank-reverse : (s : Bytes) → All Blank s → All Blank (reverse s)
Blank-reverse [] h = tt
Blank-reverse (c ∷ s) (hc, h) =
    rw reverse-cons (All-append Blank (reverse s) (c ∷ []) (Blank-reverse s h) (hc, tt))

HasText-StartsClean : (s : Bytes) → s ≢ [] → StartsClean s → HasText s
HasText-StartsClean [] h c = h refl
HasText-StartsClean (b ∷ s) h c = inl c

StartsClean-left : (xs ys : Bytes) → StartsClean (xs ++ ys) → StartsClean xs
StartsClean-left [] ys h = tt
StartsClean-left (x ∷ xs) ys h = h

delete_trailing-eq :
    (s : Bytes) → HasText s → delete_trailing_spaces s ≡ backwards (trailing_loop (reverse s))
unfolding delete_trailing_spaces
delete_trailing-eq [] h = absurd h
delete_trailing-eq (c ∷ s) h = refl

delete_leading-eq : (s : Bytes) → HasText s → delete_leading_spaces s ≡ leading_loop s
unfolding delete_leading_spaces
delete_leading-eq [] h = absurd h
delete_leading-eq (c ∷ s) h = refl

-- A string with a byte that is not blank is trimmed to what stands between its first and its last
-- such byte: only blanks are left out, at the two ends, and neither end of the result is blank.
pub trim_lem :
    (s : Bytes)
    → HasText s
    → (before kept after : Bytes) × (trim s ≡ cleaned kept)
      × (s ≡ before ++ (kept ++ after))
      × All Blank before
      × All Blank after
      × StartsClean kept
      × StartsClean (reverse kept)
      × (kept ≢ [])
unfolding trim then_leading backwards
trim_lem s h =
    let (b₁, k₁, runs₁, whole₁, blanks₁, clean₁, some₁) =
      leading_loop-Led (reverse s) (HasText-reverse s h) in
    let text : HasText (reverse k₁) = HasText-reverse k₁ (HasText-StartsClean k₁ some₁ clean₁) in
    let (b₂, k₂, runs₂, whole₂, blanks₂, clean₂, some₂) = leading_loop-Led (reverse k₁) text in
    let parts : s ≡ reverse k₁ ++ reverse b₁ =
      sym (reverse-reverse s) ∙ ap reverse whole₁ ∙ reverse-append b₁ k₁ in
    let k₁_parts : k₁ ≡ reverse k₂ ++ reverse b₂ =
      sym (reverse-reverse k₁) ∙ ap reverse whole₂ ∙ reverse-append b₂ k₂ in
    (
      b₂,
      k₂,
      reverse b₁,
      ap then_leading (delete_trailing-eq s h ∙ ap backwards (trailing-leading (reverse s) ∙ runs₁))
          ∙ delete_leading-eq (reverse k₁) text
          ∙ runs₂,
      parts ∙ ap (λ l. l ++ reverse b₁) whole₂ ∙ append_assoc b₂ k₂ (reverse b₁),
      blanks₂,
      Blank-reverse b₁ blanks₁,
      clean₂,
      StartsClean-left (reverse k₂) (reverse b₂) (subst StartsClean k₁_parts clean₁),
      some₂,
    )

-- A string of blanks only, of one or more, is read before its start.
pub trim-Blank : (c : ℕ) (s : Bytes) → All Blank (c ∷ s) → trim (c ∷ s) ≡ out_of_bounds
unfolding trim delete_trailing_spaces then_leading backwards
trim-Blank c s h =
    rw (trailing-leading, leading_loop-Blank (reverse (c ∷ s)) (Blank-reverse (c ∷ s) h))
