-- ===== src/Registry/Lookup.antt =====
-- The table as a map from targets to recipients.
use cc_dey.Base.Lists.{All-map}
use cc_dey.Base.{
  All, ℕ, ◌+◌, ◌*◌, ◌≤◌, ◌≡◌, ◌≢◌, refl, Bool, true, Option, none, some, List, [], ◌∷◌, ◌++◌, Bytes,
  length, eq_bytes, eq_bytes_iff, if◌then◌else◌, arith, Bool-cases, inl, inr,
}
use cc_dey.Registry.{
  Recipient, Request, Table, add_registered_target, find_in, remove_first, override_in,
}

-- The size never passes the capacity, and no target stands twice.
abbrev pub Unique : List Request → Type 0
Unique [] = Unit
Unique (r ∷ rs) = (find_in rs r.target ≡ none) × Unique rs

pub record IsValid (t : Table) : Type 0 where
  pub fits : length t.array ≤ t.max_size
  pub unique : Unique t.array

abbrev pub recipient_in : List Request → Bytes → Option Recipient
recipient_in rs target = elim (find_in rs target) [ none ↦ none | some r ↦ some r.recipient ]

find_in-append :
    (rs : List Request) (r : Request) (target : Bytes)
    → find_in (rs ++ r ∷ []) target ≡ elim (find_in rs target) [
      | none ↦ if eq_bytes r.target target then some r else none
      | some q ↦ some q
    ]
unfolding find_in
find_in-append [] r target = refl
find_in-append (q ∷ rs) r target = ground (arith, find_in-append rs r target)

pub recipient_in-append :
    (rs : List Request) (r : Request) (target : Bytes)
    → find_in rs r.target ≡ none
    → recipient_in (rs ++ r ∷ []) target
      ≡ (if eq_bytes r.target target then some r.recipient else recipient_in rs target)
recipient_in-append rs r target h =
    ground (arith, find_in-append rs r target, eq_bytes_iff r.target target)

-- Each request of a list without duplicates is the one that is found.
pub Unique-known :
    (rs : List Request) → Unique rs → All (λ r. recipient_in rs r.target ≡ some r.recipient) rs
unfolding find_in
Unique-known [] unique = tt
Unique-known (r ∷ rs) (new, unique) = (
  ground (arith, eq_bytes_iff r.target r.target),
  All-map (λ q. recipient_in rs q.target ≡ some q.recipient) _
      (λ q h. ground (arith, h, new, eq_bytes_iff r.target q.target)) rs (Unique-known rs unique),
)

-- A request that is appended behind one for its target changes nothing.
pub recipient_in-append_known :
    (rs : List Request) (r : Request) (target : Bytes)
    → recipient_in rs r.target ≡ some r.recipient
    → recipient_in (rs ++ r ∷ []) target ≡ recipient_in rs target
recipient_in-append_known rs r target h =
    ground (arith, find_in-append rs r target, eq_bytes_iff r.target target, h)

pub recipient_in-override :
    (rs : List Request) (new : Request) (target : Bytes)
    → find_in rs new.target ≢ none
    → recipient_in (override_in rs new) target
      ≡ (if eq_bytes new.target target then some new.recipient else recipient_in rs target)
unfolding find_in override_in
recipient_in-override [] new target h = absurd (h refl)
recipient_in-override (r ∷ rs) new target h = ground (
  arith,
  recipient_in-override rs new target,
  eq_bytes_iff r.target new.target,
  eq_bytes_iff r.target target,
  eq_bytes_iff new.target target,
)

pub recipient_in-remove :
    (rs : List Request) (gone target : Bytes)
    → Unique rs
    → recipient_in (remove_first rs gone) target
      ≡ (if eq_bytes gone target then none else recipient_in rs target)
unfolding find_in remove_first
recipient_in-remove [] gone target u = ground arith
recipient_in-remove (r ∷ rs) gone target (hr, u) = ground (
  arith,
  recipient_in-remove rs gone target u,
  eq_bytes_iff r.target gone,
  eq_bytes_iff r.target target,
  eq_bytes_iff gone target,
)

find_in-override :
    (rs : List Request) (new : Request) (target : Bytes)
    → find_in rs target ≡ none
    → find_in (override_in rs new) target ≡ none
unfolding find_in override_in
find_in-override [] new target h = refl
find_in-override (r ∷ rs) new target h = ground (arith, find_in-override rs new target)

find_in-remove :
    (rs : List Request) (gone target : Bytes)
    → find_in rs target ≡ none
    → find_in (remove_first rs gone) target ≡ none
unfolding find_in remove_first
find_in-remove [] gone target h = refl
find_in-remove (r ∷ rs) gone target h = ground (arith, find_in-remove rs gone target)

pub Unique-append :
    (rs : List Request) (r : Request)
    → find_in rs r.target ≡ none
    → Unique rs
    → Unique (rs ++ r ∷ [])
unfolding find_in
Unique-append [] r h u = (refl, tt)
Unique-append (q ∷ rs) r h (hq, u) = (
  ground (
    arith,
    find_in-append rs r q.target,
    eq_bytes_iff q.target r.target,
    eq_bytes_iff r.target q.target,
  ),
  Unique-append rs r (ground arith) u,
)

pub Unique-override : (rs : List Request) (new : Request) → Unique rs → Unique (override_in rs new)
unfolding override_in
Unique-override [] new u = tt
Unique-override (r ∷ rs) new (hr, u) = elim (Bool-cases (eq_bytes r.target new.target)) [
  | inl e ↦ rw e (hr, u)
  | inr e ↦ rw e (find_in-override rs new r.target hr, Unique-override rs new u)
]

pub Unique-remove : (rs : List Request) (gone : Bytes) → Unique rs → Unique (remove_first rs gone)
unfolding remove_first
Unique-remove [] gone u = tt
Unique-remove (r ∷ rs) gone (hr, u) = elim (Bool-cases (eq_bytes r.target gone)) [
  | inl e ↦ rw e u
  | inr e ↦ rw e (find_in-remove rs gone r.target hr, Unique-remove rs gone u)
]

pub length-override : (rs : List Request) (new : Request) → length (override_in rs new) ≡ length rs
unfolding override_in
length-override [] new = refl
length-override (r ∷ rs) new = ground (arith, length-override rs new)

pub length-remove : (rs : List Request) (gone : Bytes) → length (remove_first rs gone) ≤ length rs
unfolding remove_first
length-remove [] gone = omega arith
length-remove (r ∷ rs) gone = ground (arith, length-remove rs gone)

-- What each change of the table does to the recipient of every target.
abbrev pub recipient_of : Table → Bytes → Option Recipient
recipient_of t target = recipient_in t.array target

module _ (alloc : ℕ → Bool) (room : (n : ℕ) → alloc n ≡ true) (r : Request) (t : Table)
    (fits : length t.array ≤ t.max_size) where
  -- With room in the heap an addition succeeds: the array has the request at its end.
  pub add_array :
      (add_registered_target alloc r t).0 ≡ true
      × ((add_registered_target alloc r t).1.array ≡ t.array ++ r ∷ [])
      × (length t.array + 1 ≤ (add_registered_target alloc r t).1.max_size)
  unfolding add_registered_target
  add_array =
      ground (arith, room (length r.target + 1), fits, room (16 * 24), room (2 * t.max_size * 24))
