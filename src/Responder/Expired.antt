-- ===== src/Responder/Expired.antt =====
-- The entries that a run of `expire` takes from the queue, and the connections that it closes.
use farsight.Prelude.{
  ℕ, ◌≡◌, refl, inl, inr, Bool, true, false, ◌&&◌, ◌||◌, List, [], ◌∷◌, ◌++◌, Option, none, some,
  ltb, leb, if◌then◌else◌, if_elim, arith, ap, ◌∙◌, sym, subst, Bool-cases, Option-cases,
}
use farsight.Std.Eq.{nat_eq, pair_eq, ==_refl}
use farsight.Std.Eq as E
use farsight.Std.Map.{lookup, remove, contains_key, lookup-remove}
use farsight.Responder.Types.{Services, State, Responder}
use farsight.Responder.{
  Outcome, and_then, send_packet, record_result, record_empty, entries, expire_loop,
}

-- An entry of the queue names the connection.
unfoldable pub named : ℕ × ℕ → List (ℕ × (ℕ × ℕ)) → Bool
named key [] = false
named key ((t, k) ∷ rest) = E.◌==◌ k key || named key rest

-- An entry that names the connection is due.
unfoldable pub due : ℕ → ℕ × ℕ → List (ℕ × (ℕ × ℕ)) → Bool
due now key [] = false
due now key ((t, k) ∷ rest) = (E.◌==◌ k key && leb t now) || due now key rest

absent-lookup :
    (key : ℕ × ℕ) (m : List ((ℕ × ℕ) × State)) → contains_key key m ≡ false → lookup key m ≡ none
unfolding contains_key
absent-lookup key m gone = elim (Option-cases (lookup key m)) [
  | inl nothing ↦ nothing
  | inr (st, there) ↦ absurd (
      ground
        (arith, gone, ap (λ (o : Option State). elim o [ none ↦ false | some _ ↦ true ]) there))
]

module _ (s : Services) where
  -- The queue splits into the entries `passed` and those that are left. A connection that an entry of
  -- `passed` names is closed, and was due; every other is as before.
  pub record Expires (now : ℕ) (m : List ((ℕ × ℕ) × State)) (es : List (ℕ × (ℕ × ℕ)))
      (r : Responder s) : Type 0 where
    pub passed : List (ℕ × (ℕ × ℕ))
    pub split : es ≡ passed ++ entries s r
    pub closes :
        (key : ℕ × ℕ) → lookup key r.connections ≡ (if named key passed then none else lookup key m)
    pub were_due :
        (key : ℕ × ℕ) (st : State)
        → lookup key m ≡ some st
        → named key passed ≡ true
        → due now key passed ≡ true

  and_then_ok :
      (o : Outcome s) (next : Responder s → Outcome s)
      → (and_then s o next).1 ≡ true
      → and_then s o next ≡ next o.0
  unfolding and_then
  and_then_ok (r, true) next ok = refl
  and_then_ok (r, false) next ok = absurd (ground (arith, ok))

  record_empty-connections :
      (r : Responder s) (ip port : ℕ) → (record_empty s r ip port).0.connections ≡ r.connections
  unfolding record_empty record_result send_packet
  record_empty-connections r ip port = elim (Option-cases (s.port_result r.ports ip port none).1) [
    | inl nothing ↦ rw (nothing, record_result) refl
    | inr (t, some_template) ↦ rw (some_template, record_result) refl
  ]

  -- An entry of a connection that is gone.
  Expires-gone :
      (now t : ℕ) (key : ℕ × ℕ) (m : List ((ℕ × ℕ) × State)) (es : List (ℕ × (ℕ × ℕ)))
      (r : Responder s)
      → contains_key key m ≡ false
      → Expires now m es r
      → Expires now m ((t, key) ∷ es) r
  unfolding named due
  Expires-gone now t key m es r gone h = record {
    passed = (t, key) ∷ h.passed;
    split = ap (λ xs. (t, key) ∷ xs) h.split;
    closes = λ k. elim (Bool-cases (E.◌==◌ key k)) [
      | inl same ↦ rw same (
          h.closes k
          ∙ if_elim (λ o. o ≡ none) (named k h.passed) none (lookup k m) refl (absent k same))
      | inr other ↦ rw other (h.closes k)
    ];
    were_due = λ k st there names. elim (Bool-cases (E.◌==◌ key k)) [
      | inl same ↦ absurd (ground (arith, absent k same, there))
      | inr other ↦ ground (arith, other, names, h.were_due k st there)
    ];
  }
    where
      absent : (k : ℕ × ℕ) → E.◌==◌ key k ≡ true → lookup k m ≡ none
      absent k same =
          subst (λ k. lookup k m ≡ none) ((pair_eq.equal_iff key k).0 same)
            (absent-lookup key m gone)

  -- A due entry of a connection that is there.
  Expires-due :
      (now t : ℕ) (key : ℕ × ℕ) (m : List ((ℕ × ℕ) × State)) (es : List (ℕ × (ℕ × ℕ)))
      (r : Responder s)
      → ltb now t ≡ false
      → Expires now (remove key m) es r
      → Expires now m ((t, key) ∷ es) r
  unfolding named due
  Expires-due now t key m es r is_due h = record {
    passed = (t, key) ∷ h.passed;
    split = ap (λ xs. (t, key) ∷ xs) h.split;
    closes = λ k. ground (arith, h.closes k, lookup-remove key k m);
    were_due = λ k st there names. elim (Bool-cases (E.◌==◌ key k)) [
      | inl same ↦ ground (arith, same, is_due)
      | inr other ↦
          let kept : lookup k (remove key m) ≡ some st = lookup-remove key k m ∙ rw other there in
          ground (arith, other, names, h.were_due k st kept)
    ];
  }

  Ran : ℕ → List ((ℕ × ℕ) × State) → List (ℕ × (ℕ × ℕ)) → Outcome s → Type 0
  Ran now m es o = o.1 ≡ true → Expires now m es o.0

  -- A due connection is closed, and the loop goes on with the rest of the queue.
  and_then-Ran :
      (now t : ℕ) (key : ℕ × ℕ) (m : List ((ℕ × ℕ) × State)) (rest : List (ℕ × (ℕ × ℕ)))
      (o : Outcome s) (next : Responder s → Outcome s)
      → ltb now t ≡ false
      → o.0.connections ≡ remove key m
      → ((r1 : Responder s) → Ran now r1.connections rest (next r1))
      → Ran now m ((t, key) ∷ rest) (and_then s o next)
  unfolding Ran
  and_then-Ran now t key m rest o next is_due closed h ok =
      let on = and_then_ok o next ok in
      let ok1 : (next o.0).1 ≡ true = ap (λ (x : Outcome s). x.1) (sym on) ∙ ok in
      let ran : Expires now (remove key m) rest (next o.0).0 =
        subst (λ c. Expires now c rest (next o.0).0) closed (h o.0 ok1) in
      subst (λ (x : Outcome s). Expires now m ((t, key) ∷ rest) x.0) (sym on)
        (Expires-due now t key m rest (next o.0).0 is_due ran)

  expire_loop-Ran :
      (now : ℕ) (r : Responder s) (es : List (ℕ × (ℕ × ℕ)))
      → Ran now r.connections es (expire_loop s now r es)
  unfolding Ran expire_loop named
  expire_loop-Ran now r [] = λ ok. record {
    passed = [];
    split = refl;
    closes = λ k. refl;
    were_due = λ k st there names. absurd (ground (arith, names));
  }
  expire_loop-Ran now r ((t, key) ∷ rest) = elim (Bool-cases (contains_key key r.connections)) [
    | inr gone ↦
        rw (gone, expire_loop)
          (λ ok. Expires-gone now t key r.connections rest _ gone (expire_loop-Ran now r rest ok))
    | inl there ↦ elim (Bool-cases (ltb now t)) [
      | inl later ↦
          rw (there, later, expire_loop)
            (λ ok. record {
              passed = [];
              split = refl;
              closes = λ k. refl;
              were_due = λ k st there names. absurd (ground (arith, names));
            })
      | inr is_due ↦
          rw (there, is_due, expire_loop)
            (and_then-Ran now t key r.connections rest _ _ is_due
              (record_empty-connections _ key.0 key.1) (λ r1. expire_loop-Ran now r1 rest))
    ]
  ]

  pub expire_loop-Expires :
      (now : ℕ) (r : Responder s) (es : List (ℕ × (ℕ × ℕ)))
      → (expire_loop s now r es).1 ≡ true
      → Expires now r.connections es (expire_loop s now r es).0
  unfolding Ran
  expire_loop-Expires now r es = expire_loop-Ran now r es
