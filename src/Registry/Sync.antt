-- ===== src/Registry/Sync.antt =====
-- The table of the daemon beside the targets that CCAPI serves, which are more: the daemon adds some
-- that never are in the table (`register_builtin_requests`).
use cc_dey.Base.{
  ℕ, ◌+◌, ◌≡◌, ◌≢◌, refl, sym, ap, ◌∙◌, Bool, true, false, ◌&&◌, not, Option, none, some, List, [],
  ◌∷◌, codes, Bytes, length, length-append, eq_bytes, eq_bytes_iff, ==_self, ◌==◌, if◌then◌else◌,
  arith, inl, inr, Option-cases, ◌⊎◌, subst,
}
use native.Mathlib.Decide.{ℕ_discrete}
use cc_dey.Registry.{
  Recipient, Request, Table, find_in, find_request_data, override_in, add_registered_target,
  add_or_complain, Ccapi, Registered, receive_error_none, register_answered, register_data_request,
}
use cc_dey.Registry.Lookup.{
  IsValid, Unique, recipient_in, recipient_of, recipient_in-append, recipient_in-override,
  add_array, Unique-append, Unique-override, length-override,
}

-- What ccapi_receive_add_target and ccapi_receive_remove_target are documented to do to the set of
-- targets that CCAPI serves: on "none" the target is added or removed, and it was new or there; on
-- "already added" it was there; whatever else they return, nothing changes.
pub record Laws (ccapi : Ccapi) : Type 0 where
  pub has_target : ccapi.State → Bytes → Bool
  pub codes_differ : ccapi.already_added ≢ receive_error_none
  pub add_new :
      (u : Bytes) (c : ccapi.State)
      → (ccapi.add_target u c).0 ≡ receive_error_none
      → has_target c u ≡ false
  pub add_sets :
      (u v : Bytes) (c : ccapi.State)
      → (ccapi.add_target u c).0 ≡ receive_error_none
      → has_target (ccapi.add_target u c).1 v ≡ (if eq_bytes u v then true else has_target c v)
  pub add_old :
      (u : Bytes) (c : ccapi.State)
      → (ccapi.add_target u c).0 ≡ ccapi.already_added
      → has_target c u ≡ true
  pub add_keeps :
      (u v : Bytes) (c : ccapi.State)
      → (ccapi.add_target u c).0 ≢ receive_error_none
      → has_target (ccapi.add_target u c).1 v ≡ has_target c v
  pub remove_clears :
      (u v : Bytes) (c : ccapi.State)
      → (ccapi.remove_target u c).0 ≡ receive_error_none
      → has_target (ccapi.remove_target u c).1 v ≡ (if eq_bytes u v then false else has_target c v)
  pub remove_keeps :
      (u v : Bytes) (c : ccapi.State)
      → (ccapi.remove_target u c).0 ≢ receive_error_none
      → has_target (ccapi.remove_target u c).1 v ≡ has_target c v

abbrev pub is_known : Option Recipient → Bool
is_known none = false
is_known (some r) = true

module _ (ccapi : Ccapi) (laws : Laws ccapi) where
  open ccapi use {State, add_target, remove_target, already_added}
  open laws use {has_target}

  -- The table is valid, and CCAPI serves every target in it.
  pub record Covered (c : State) (t : Table) : Type 0 where
    pub valid : IsValid t
    pub serves : (u : Bytes) → is_known (recipient_of t u) ≡ true → has_target c u ≡ true

  -- At the start, whatever CCAPI serves by then.
  pub empty-Covered :
      (c : State) (max_size : ℕ) → Covered c (record { array = []; max_size = max_size })
  unfolding find_in
  empty-Covered c max_size = record {
    valid = record { fits = omega arith; unique = tt };
    serves = λ u h. ground arith;
  }

  module _ (alloc : ℕ → Bool) (room : (n : ℕ) → alloc n ≡ true) (r : Request) (c : State)
      (t : Table) (covered : Covered c t) where
    unknown-find : has_target c r.target ≡ false → find_in t.array r.target ≡ none
    unknown-find h = ground (arith, covered.serves r.target)

    abbrev status : ℕ
    status = (add_target r.target c).0

    abbrev answered : Registered
    answered = register_answered ccapi alloc status r t

    -- A target that the table does not have is added at the end.
    abbrev with_added : List Bytes → Registered
    with_added messages = record {
      result = true;
      messages = messages;
      table = (add_registered_target alloc r t).1;
    }

    abbrev complaint : List Bytes
    complaint = codes "Internal connector error" ∷ []

    pub register_new : status ≡ receive_error_none → answered ≡ with_added []
    unfolding register_answered
    register_new h =
        let differ : (receive_error_none == already_added) ≡ false =
          ground (arith, laws.codes_differ) in
        rw (h, differ, add_or_complain, (add_array alloc room r t covered.valid.fits).0)

    register_stray :
        status ≡ already_added → find_in t.array r.target ≡ none → answered ≡ with_added complaint
    unfolding register_answered find_request_data
    register_stray h absent = rw (
      h,
      ==_self already_added,
      absent,
      add_or_complain,
      (add_array alloc room r t covered.valid.fits).0,
    )

    register_old :
        (q : Request)
        → status ≡ already_added
        → find_in t.array r.target ≡ some q
        → answered ≡ record {
          result = true;
          messages = [];
          table = record t { array = override_in t.array r };
        }
    unfolding register_answered find_request_data
    register_old q h found = rw (h, ==_self already_added, found)

    register_refused :
        status ≢ already_added
        → status ≢ receive_error_none
        → (answered.result ≡ false) × (answered.table ≡ t) × (length answered.messages ≡ 1)
    unfolding register_answered
    register_refused h k = ground arith

    -- Whether CCAPI serves the target and the table does not have it.
    abbrev stray : Bool
    stray = status == already_added && not (is_known (recipient_of t r.target))

    abbrev messages_of : List Bytes
    messages_of = if stray then complaint else []

    data Answered : Type 0 where
      is_added :
          find_in t.array r.target ≡ none
          → (status ≡ receive_error_none) ⊎ (status ≡ already_added)
          → answered ≡ with_added messages_of
          → Answered
      is_old :
          (q : Request)
          → find_in t.array r.target ≡ some q
          → status ≡ already_added
          → answered ≡ record {
            result = true;
            messages = messages_of;
            table = record t { array = override_in t.array r };
          }
          → Answered
      is_refused :
          status ≢ already_added
          → status ≢ receive_error_none
          → (answered.result ≡ false) × (answered.table ≡ t) × (length answered.messages ≡ 1)
          → Answered

    answered_cases : Answered
    answered_cases = elim (ℕ_discrete status already_added) [
      | yes old ↦ elim (Option-cases (find_in t.array r.target)) [
        | inl absent ↦
            let mark : stray ≡ true = ground (arith, old, absent) in
            is_added absent (inr old) (register_stray old absent ∙ ap with_added (rw mark refl))
        | inr (q, found) ↦
            let mark : stray ≡ false = ground (arith, old, found) in
            is_old q found old (rw mark (register_old q old found))
      ]
      | no not_old ↦ elim (ℕ_discrete status receive_error_none) [
        | yes new ↦
            let mark : stray ≡ false = ground arith in
            is_added (unknown-find (laws.add_new r.target c new)) (inl new)
              (register_new new ∙ ap with_added (rw mark refl))
        | no other ↦ is_refused not_old other (register_refused not_old other)
      ]
    ]

    abbrev recipient_after : Bytes → Option Recipient
    recipient_after u = if eq_bytes r.target u then some r.recipient else recipient_of t u

    recipient_added :
        (u : Bytes)
        → find_in t.array r.target ≡ none
        → recipient_of (add_registered_target alloc r t).1 u ≡ recipient_after u
    recipient_added u absent =
        ap (λ l. recipient_in l u) (add_array alloc room r t covered.valid.fits).1
        ∙ recipient_in-append t.array r u absent

    pub recipient_new :
        (u : Bytes)
        → status ≡ receive_error_none
        → recipient_of (add_registered_target alloc r t).1 u ≡ recipient_after u
    recipient_new u h = recipient_added u (unknown-find (laws.add_new r.target c h))

    recipient_old :
        (u : Bytes) (q : Request)
        → find_in t.array r.target ≡ some q
        → recipient_in (override_in t.array r) u ≡ recipient_after u
    recipient_old u q found = recipient_in-override t.array r u (λ e. cc (e, found))

    -- With room in the heap, a CCAPI that keeps the laws, and a table of targets that CCAPI serves, a
    -- registration either succeeds, and then the target has the new recipient and every other target
    -- the one that it had, and a message was sent exactly if CCAPI had the target already and the
    -- table did not; or it fails, and then the table is as it was and one message was sent.
    pub register-recipient_of :
        (answered.result ≡ true)
          × (answered.messages ≡ messages_of)
          × ((u : Bytes) → recipient_of answered.table u ≡ recipient_after u)
        ⊎ (answered.result ≡ false) × (answered.table ≡ t) × (length answered.messages ≡ 1)
    register-recipient_of = elim answered_cases [
      | is_added absent h e ↦ inl (rw e refl, rw e refl, λ u. rw e (recipient_added u absent))
      | is_old q found h e ↦ inl (rw e refl, rw e refl, λ u. rw e (recipient_old u q found))
      | is_refused h k e ↦ inr e
    ]

    pub accepted-recipient_of :
        (u : Bytes)
        → (status ≡ receive_error_none) ⊎ (status ≡ already_added)
        → recipient_of answered.table u ≡ recipient_after u
    accepted-recipient_of u h = elim answered_cases [
      | is_added absent k e ↦ rw e (recipient_added u absent)
      | is_old q found k e ↦ rw e (recipient_old u q found)
      | is_refused not_old other e ↦ absurd (elim h [ inl new ↦ other new | inr old ↦ not_old old ])
    ]

    added-IsValid : find_in t.array r.target ≡ none → IsValid (add_registered_target alloc r t).1
    added-IsValid absent =
        let (_, array, fits) = add_array alloc room r t covered.valid.fits in
        record {
          fits = omega (arith, ap length array, length-append t.array (r ∷ []));
          unique = subst Unique (sym array) (Unique-append t.array r absent covered.valid.unique);
        }

    old-IsValid : IsValid (record t { array = override_in t.array r })
    old-IsValid = record {
      fits = omega (arith, length-override t.array r, covered.valid.fits);
      unique = Unique-override t.array r covered.valid.unique;
    }

    -- CCAPI serves the target of the request after it, and all that it served before.
    after-serves :
        (u : Bytes)
        → (status ≡ receive_error_none) ⊎ (status ≡ already_added)
        → is_known (recipient_after u) ≡ true
        → has_target (add_target r.target c).1 u ≡ true
    after-serves u (inl new) known =
        laws.add_sets r.target u c new ∙ ground (arith, covered.serves u)
    after-serves u (inr old) known =
        laws.add_keeps r.target u c (λ z. laws.codes_differ (sym old ∙ z))
        ∙ ground (arith, covered.serves u, laws.add_old r.target c old, eq_bytes_iff r.target u)

    -- With room in the heap and a CCAPI that keeps the laws, a registration keeps the table valid
    -- and made of targets that CCAPI serves, whatever CCAPI answers.
    pub register-Covered : Covered (add_target r.target c).1 answered.table
    register-Covered = elim answered_cases [
      | is_added absent h e ↦ rw e (record {
        valid = added-IsValid absent;
        serves = λ u k. after-serves u h (sym (ap is_known (recipient_added u absent)) ∙ k);
      })
      | is_old q found h e ↦ rw e (record {
        valid = old-IsValid;
        serves = λ u k. after-serves u (inr h) (sym (ap is_known (recipient_old u q found)) ∙ k);
      })
      | is_refused not_old other e ↦ rw e.1 (record {
        valid = covered.valid;
        serves = λ u k. laws.add_keeps r.target u c other ∙ covered.serves u k;
      })
    ]

  -- What is left behind when CCAPI takes a new target and the heap has no room for the copy of
  -- its name, the table having none but targets that CCAPI serves: the registration fails, CCAPI
  -- serves the target from then on, and the table does not know it.
  pub register_out_of_memory :
      (alloc : ℕ → Bool) (r : Request) (c : State) (t : Table)
      → Covered c t
      → (add_target r.target c).0 ≡ receive_error_none
      → alloc (length r.target + 1) ≡ false
      → ((register_data_request ccapi alloc r c t).0.result ≡ false)
        × (has_target (register_data_request ccapi alloc r c t).1 r.target ≡ true)
        × (recipient_of (register_data_request ccapi alloc r c t).0.table r.target ≡ none)
  unfolding register_data_request
  register_out_of_memory alloc r c t covered new full =
      let differ : (receive_error_none == already_added) ≡ false =
        ground (arith, laws.codes_differ) in
      (
        unfold register_answered add_or_complain add_registered_target in
            rw (new, differ) (ground arith),
        ground (arith, laws.add_sets r.target r.target c new, eq_bytes_iff r.target r.target),
        unfold register_answered add_or_complain add_registered_target in
            rw (new, differ) (ground (arith, covered.serves r.target, laws.add_new r.target c new)),
      )
