-- ===== src/Responder/Expiry.antt =====
-- The expiry of connections: `tick` looks at the entries of its queue alone.
use farsight.Prelude.{
  ℕ, ◌≤◌, ◌<◌, ◌≡◌, ◌⊎◌, refl, inl, inr, true, false, List, [], ◌∷◌, none, some, ltb, arith,
  Option-cases, Bool-cases,
}
use farsight.Std.Eq.{nat_eq, pair_eq, ==_refl}
use farsight.Std.Eq as E
use farsight.Std.Map.{lookup, remove, contains_key, remove_origin}
use farsight.Responder.Types.{Services, State, Responder}
use farsight.Responder.{Outcome, and_then, entries, expire_loop, expire}
use farsight.Responder.Expired.{Expires, expire_loop-Expires}
use farsight.Responder.Each.{Each, and_then-Each, record_empty-Each, expire_loop-Each}

contains-lookup :
    (key : ℕ × ℕ) (st : State) (m : List ((ℕ × ℕ) × State))
    → lookup key m ≡ some st
    → contains_key key m ≡ true
unfolding contains_key
contains-lookup key st m e = rw (e, contains_key) refl

module _ (s : Services) where
  -- What is in hand when the loop stops: nothing, or an entry that is not due, of a connection.
  pub Stopped : ℕ → Responder s → Type 0
  Stopped now r =
      ((r.pending_expiry ≡ none) × (r.expiries ≡ []))
      ⊎ ((t : ℕ) × (key : ℕ × ℕ) × (r.pending_expiry ≡ some (t, key))
          × (now < t)
          × (contains_key key r.connections ≡ true))

  and_then_cases :
      (o : Outcome s) (next : Responder s → Outcome s) (Q : Outcome s → Type 0)
      → ((r : Responder s) → Q (next r))
      → ((r : Responder s) → Q (r, false))
      → Q (and_then s o next)
  unfolding and_then
  and_then_cases (r, true) next Q n e = n r
  and_then_cases (r, false) next Q n e = e r

  Ends : ℕ → Outcome s → Type 0
  Ends now o = o.1 ≡ true → Stopped now o.0

  expire_loop-Ends :
      (now : ℕ) (r : Responder s) (es : List (ℕ × (ℕ × ℕ))) → Ends now (expire_loop s now r es)
  unfolding expire_loop Ends Stopped
  expire_loop-Ends now r [] = λ ok. inl (refl, refl)
  expire_loop-Ends now r ((t, key) ∷ rest) = elim (Bool-cases (contains_key key r.connections)) [
    | inr gone ↦ rw (gone, expire_loop) (expire_loop-Ends now r rest)
    | inl there ↦ elim (Bool-cases (ltb now t)) [
      | inl later ↦
          rw (there, later, expire_loop) (λ ok. inr (t, key, refl, ground (arith, later), there))
      | inr due ↦
          rw (there, due, expire_loop)
            (and_then_cases _ _ (Ends now) (λ r1. expire_loop-Ends now r1 rest)
              (λ r1 ok. absurd (ground (arith, ok))))
    ]
  ]

  -- When `expire` ends without an error, the queue is at its end, or it has stopped at the entry of
  -- a connection that is not due. The entries in front of that are gone from the queue: every
  -- connection that one of them names is closed, and was due by one of them; every other connection
  -- is as it was.
  pub expire-Stopped :
      (now : ℕ) (r : Responder s)
      → (expire s now r).1 ≡ true
      → Stopped now (expire s now r).0
        × Expires s now r.connections (entries s r) (expire s now r).0
  unfolding expire Ends
  expire-Stopped now r ok =
      (expire_loop-Ends now r (entries s r) ok, expire_loop-Expires s now r (entries s r) ok)

  -- A connection that is not the one under the key.
  abbrev Other : ℕ × ℕ → ℕ × ℕ → State → Type 0
  Other key k st = E.◌==◌ key k ≡ false

  closed_stays :
      (key : ℕ × ℕ) (m : List ((ℕ × ℕ) × State)) → Each s (Other key) m → lookup key m ≡ none
  unfolding Each
  closed_stays key m h = elim (Option-cases (lookup key m)) [
    | inl none_there ↦ none_there
    | inr (st, there) ↦ absurd (ground (arith, h key st there, ==_refl key))
  ]

  remove-Other : (key : ℕ × ℕ) (m : List ((ℕ × ℕ) × State)) → Each s (Other key) (remove key m)
  unfolding Each
  remove-Other key m k st e = (remove_origin key k st m e).1

  expire_loop-due :
      (now t : ℕ) (key : ℕ × ℕ) (r : Responder s) (rest : List (ℕ × (ℕ × ℕ)))
      → contains_key key r.connections ≡ true
      → ltb now t ≡ false
      → Each s (Other key) (expire_loop s now r ((t, key) ∷ rest)).0.connections
  unfolding expire_loop
  expire_loop-due now t key r rest there due =
      rw (there, due, expire_loop)
        (and_then-Each s (Other key) _ _
          (record_empty-Each s (Other key) _ key.0 key.1 (remove-Other key r.connections))
          (λ r1 h1. expire_loop-Each s (Other key) now r1 rest h1))

  -- `tick` does not look at `expires_at`. Let the first entry of the queue be due and name a
  -- connection, whose own deadline an incomplete banner has moved behind the time of the tick. Then
  -- the connection is closed all the same.
  pub expire_ignores_extension :
      (now t : ℕ) (key : ℕ × ℕ) (st : State) (r : Responder s) (rest : List (ℕ × (ℕ × ℕ)))
      → entries s r ≡ (t, key) ∷ rest
      → t ≤ now
      → lookup key r.connections ≡ some st
      → now < st.expires_at
      → lookup key (expire s now r).0.connections ≡ none
  unfolding expire
  expire_ignores_extension now t key st r rest first due there extended = closed_stays key _ (
      rw first (
        expire_loop-due now t key r rest (contains-lookup key st r.connections there)
          (ground (arith, due))))
