-- ===== src/Xdp/Consuming.antt =====
-- The consumer's side of a ring: what is peeked is what the kernel has put in and not yet got back.
use farsight.Prelude.{
  ℕ, ◌+◌, ◌^◌, ◌≤◌, ◌<◌, ◌≡◌, refl, none, some, List, [], ◌∷◌, ◌++◌, if◌then◌else◌, arith, ap, ap₂,
  ◌∙◌, sym, min, ◌==◌, Option, Bool-cases, inl, inr,
}
use farsight.Words.{add32, sub32}
use farsight.Xdp.{
  Ring, complete, rx, new, first_positions, available, peek, unpeek, release, kernel_puts, entries,
  store, index,
}
use farsight.Xdp.Positions.{entries-append, entries_same, entries-store_last}
use farsight.Xdp.Producing.{InBounds, SameShared, SameShared-entries, SameCells-entries}

-- The number of entries in an answer of `peek`.
unfoldable pub handed_count : Option (ℕ × ℕ) → ℕ
handed_count none = 0
handed_count (some (first, n)) = n

module _ {ℓ} {T : Type ℓ} where
  -- The consumer's positions: peeked and not released, and known to be there, among those put in.
  abbrev pub IsConsuming : Ring T → Type 0
  IsConsuming r =
      InBounds r
      × (sub32 r.cached_cons r.cons + sub32 r.cached_prod r.cached_cons ≤ sub32 r.prod r.cons)
      × (sub32 r.prod r.cons ≤ r.size)

  -- The entries that are not peeked yet.
  abbrev pub unread : Ring T → List T
  unread r = entries r r.cached_cons (sub32 r.prod r.cached_cons)

  pub new-IsConsuming :
      (n : ℕ) (m : ℕ → T) (flags : ℕ)
      → n < 2 ^ 32
      → IsConsuming (new complete n m 0 0 flags) × IsConsuming (new rx n m 0 0 flags)
  unfolding new first_positions
  new-IsConsuming n m flags lt = omega arith

  pub peek-IsConsuming : (r : Ring T) (n : ℕ) → IsConsuming r → IsConsuming (peek r n).1
  unfolding peek available
  peek-IsConsuming r n h = ground arith

  pub peek-SameShared : (r : Ring T) (n : ℕ) → SameShared (peek r n).1 r
  unfolding peek available
  peek-SameShared r n = ground arith

  -- The entries that `peek` takes.
  abbrev pub count : Ring T → ℕ → ℕ
  count r n = min (sub32 r.prod r.cached_cons) n

  -- On a consumer's ring, `peek` takes as many of the unread entries as it may, and nothing when there
  -- are none: the cached positions do not change its answer.
  pub peek-exact :
      (r : Ring T) (n : ℕ)
      → IsConsuming r
      → (peek r n).0 ≡ (if count r n == 0 then none else some (r.cached_cons, count r n))
  unfolding peek available
  peek-exact r n h = ground arith

  -- What a caller of `peek` reads through its answer: the entries from the index on, or none.
  unfoldable pub handed : Ring T → Option (ℕ × ℕ) → List T
  handed r none = []
  handed r (some (first, n)) = entries r first n

  pub handed_count-peek :
      (r : Ring T) (n : ℕ) → IsConsuming r → handed_count (peek r n).0 ≡ count r n
  unfolding handed_count
  handed_count-peek r n h = elim (Bool-cases (count r n == 0)) [
    | inl empty ↦ rw (peek-exact r n h, empty, handed_count) (ground (arith, empty))
    | inr some_there ↦ rw (peek-exact r n h, some_there, handed_count) refl
  ]

  pub handed-peek :
      (r : Ring T) (n : ℕ)
      → IsConsuming r
      → handed (peek r n).1 (peek r n).0 ≡ entries r r.cached_cons (count r n)
  unfolding handed entries
  handed-peek r n h = elim (Bool-cases (count r n == 0)) [
    | inl empty ↦
        let nothing : 0 ≡ count r n = ground (arith, empty) in
        rw (peek-exact r n h, empty, handed) (ap (entries r r.cached_cons) nothing)
    | inr some_there ↦
        rw (peek-exact r n h, some_there, handed)
          (SameShared-entries (peek r n).1 r _ _ (peek-SameShared r n))
  ]

  -- A number of entries peeked is in turn moved past.
  pub peek-moves :
      (r : Ring T) (n : ℕ)
      → IsConsuming r
      → (peek r n).1.cached_cons ≡ add32 r.cached_cons (count r n)
  unfolding peek available
  peek-moves r n h = ground arith

  pub unpeek-IsConsuming :
      (r : Ring T) (n : ℕ)
      → IsConsuming r
      → n ≤ sub32 r.cached_cons r.cons
      → IsConsuming (unpeek r n)
  unfolding unpeek
  unpeek-IsConsuming r n h le = omega arith

  pub release-IsConsuming :
      (r : Ring T) (n : ℕ)
      → IsConsuming r
      → n ≤ sub32 r.cached_cons r.cons
      → IsConsuming (release r n)
  unfolding release
  release-IsConsuming r n h le = omega arith

  pub puts-IsConsuming :
      (r : Ring T) (v : T)
      → IsConsuming r
      → sub32 r.prod r.cons < r.size
      → IsConsuming (kernel_puts r v)
  unfolding kernel_puts store
  puts-IsConsuming r v h le = omega arith

  -- The peeked entries are the front of the unread ones.
  pub peek-unread :
      (r : Ring T) (n : ℕ)
      → IsConsuming r
      → unread r ≡ entries r r.cached_cons (count r n) ++ unread (peek r n).1
  peek-unread r n h =
      let (size, cells, prod, cons) = peek-SameShared r n in
      let next = peek-moves r n h in
      let whole : sub32 r.prod r.cached_cons
          ≡ (count r n) + sub32 r.prod (add32 r.cached_cons (count r n)) =
        omega arith in
      ap (entries r r.cached_cons) whole
      ∙ entries-append r r.cached_cons (count r n) _ (omega arith)
      ∙ ap (λ es. entries r r.cached_cons (count r n) ++ es)
          (ap₂ (λ p c. entries r c (sub32 p c)) (sym prod) (sym next)
            ∙ sym (SameShared-entries (peek r n).1 r _ _ (peek-SameShared r n)))

  -- `unpeek` gives them back.
  pub unpeek-peek-unread :
      (r : Ring T) (n : ℕ) → IsConsuming r → unread (unpeek (peek r n).1 (count r n)) ≡ unread r
  unfolding unpeek index
  unpeek-peek-unread r n h =
      let back : sub32 (peek r n).1.cached_cons (count r n) ≡ r.cached_cons =
        omega (arith, peek-moves r n h) in
      let (size, cells, prod, cons) = peek-SameShared r n in
      SameShared-entries (unpeek (peek r n).1 (count r n)) r _ _ (size, cells, prod, cons)
      ∙ ap₂ (λ p c. entries r c (sub32 p c)) prod back

  pub unpeek-peek-IsConsuming :
      (r : Ring T) (n : ℕ) → IsConsuming r → IsConsuming (unpeek (peek r n).1 (count r n))
  unfolding unpeek
  unpeek-peek-IsConsuming r n h =
      let (size, cells, prod, cons) = peek-SameShared r n in
      unpeek-IsConsuming (peek r n).1 (count r n) (peek-IsConsuming r n h)
        (omega (arith, peek-moves r n h, cons, prod))

  pub release-unread : (r : Ring T) (n : ℕ) → unread (release r n) ≡ unread r
  unfolding release index
  release-unread r n = SameCells-entries (release r n) r _ _ refl refl

  -- What the kernel puts in is the last of the unread entries, and the others stay.
  pub puts-unread :
      (k : ℕ) (r : Ring T) (v : T)
      → k < 32
      → r.size ≡ 2 ^ k
      → IsConsuming r
      → sub32 r.prod r.cons < r.size
      → unread (kernel_puts r v) ≡ unread r ++ v ∷ []
  unfolding kernel_puts index store
  puts-unread k r v small whole h lt =
      let c = r.cached_cons in
      let left = sub32 r.prod c in
      let more : sub32 (add32 r.prod 1) c ≡ left + 1 = omega arith in
      let place : add32 c left ≡ r.prod = omega arith in
      entries_same (kernel_puts r v) (store r r.prod v) (λ j. refl) c (sub32 (add32 r.prod 1) c)
      ∙ ap (entries (store r r.prod v) c) more
      ∙ ap (λ p. entries (store r p v) c (left + 1)) (sym place)
      ∙ entries-store_last k small r c left v whole (omega arith) (omega arith)
