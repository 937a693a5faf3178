-- ===== src/Writer/Written.antt =====
-- Every hit is written to the database once, in the order of the queue.
use farsight.Prelude.{
  ℕ, ◌-◌, ◌≤◌, ◌<◌, ◌≡◌, refl, ap, ◌∙◌, sym, subst, true, false, not, ◌&&◌, ◌||◌, List, [], ◌∷◌,
  ◌++◌, append-nil, append_assoc, Option, none, some, leb, ◌==◌, length, arith, ◌⊎◌, inl, inr,
  Bool-cases,
}
use farsight.Writer.{
  Wake, received, housekeeping, Writer, collect, join, spawn_write, flush, run, write_last,
  spawn_database,
}

module _ {S : Type 0} where
  -- The hits of the rounds, in order.
  unfoldable pub hits : List (ℕ × Wake S) → List S
  hits [] = []
  hits ((now, received scanling more) ∷ rest) = scanling ∷ more ++ hits rest
  hits ((now, housekeeping) ∷ rest) = hits rest

  unfoldable pub concat : List (List S) → List S
  concat [] = []
  concat (xs ∷ rest) = xs ++ concat rest

  concat-append : (xss : List (List S)) (ys : List S) → concat (xss ++ ys ∷ []) ≡ concat xss ++ ys
  unfolding concat
  concat-append [] ys = append-nil ys
  concat-append (xs ∷ xss) ys =
      ap (λ zs. xs ++ zs) (concat-append xss ys) ∙ sym (append_assoc xs (concat xss) ys)

  abbrev held : Option (List S) → List S
  held none = []
  held (some batch) = batch

  -- All that the writer has taken in, in order.
  abbrev taken : Writer S → List S
  taken w = (concat w.writes ++ held w.write_task) ++ w.batch

  -- The batches that are written are not empty.
  abbrev pub AllFilled : List (List S) → Type 0
  AllFilled [] = 0 ≤ 0
  AllFilled (xs ∷ rest) = (0 < length xs) × AllFilled rest

  AllFilled-append :
      (xss : List (List S)) (ys : List S)
      → AllFilled xss
      → 0 < length ys
      → AllFilled (xss ++ ys ∷ [])
  AllFilled-append [] ys all pos = (pos, omega arith)
  AllFilled-append (xs ∷ xss) ys (first, all) pos = (first, AllFilled-append xss ys all pos)

  TaskFilled : Option (List S) → Type 0
  TaskFilled none = 0 ≤ 0
  TaskFilled (some batch) = 0 < length batch

  nil_cases : (xs : List S) → (xs ≡ []) ⊎ (0 < length xs)
  nil_cases [] = inl refl
  nil_cases (x ∷ xs) = inr (omega arith)

  -- The writer holds what it has been given, and no empty batch to write.
  Holds : List S → Writer S → Type 0
  Holds all w = (taken w ≡ all) × AllFilled w.writes × TaskFilled w.write_task

  -- Nothing is left but the batch.
  Joined : List S → Writer S → Type 0
  Joined all w = (concat w.writes ++ w.batch ≡ all) × AllFilled w.writes × (w.write_task ≡ none)

  join-Joined :
      (all : List S) (t : Option (List S)) (w : Writer S)
      → w.write_task ≡ t
      → Holds all w
      → Joined all (join t w) × ((join t w).batch ≡ w.batch)
  unfolding join Holds Joined TaskFilled
  join-Joined all none w e (same, filled, task) =
      let empty : held w.write_task ≡ [] = ap held e in
      (
        (
          ap (λ xs. xs ++ w.batch) (sym (append-nil (concat w.writes)))
              ∙ ap (λ xs. (concat w.writes ++ xs) ++ w.batch) (sym empty)
              ∙ same,
          filled,
          e,
        ),
        refl,
      )
  join-Joined all (some batch) w e (same, filled, task) =
      let full : 0 < length batch = subst TaskFilled e task in
      (
        (
          ap (λ xs. xs ++ w.batch) (concat-append w.writes batch)
              ∙ ap (λ xs. (concat w.writes ++ xs) ++ w.batch) (sym (ap held e))
              ∙ same,
          AllFilled-append w.writes batch filled full,
          refl,
        ),
        refl,
      )

  spawn_write-Holds :
      (all : List S) (now : ℕ) (w : Writer S)
      → 0 < length w.batch
      → Holds all w
      → Holds all (spawn_write now w)
  unfolding spawn_write Holds Joined TaskFilled
  spawn_write-Holds all now w pos h =
      let (joined, batch) = join-Joined all w.write_task w refl h in
      (
        append-nil (concat (join w.write_task w).writes ++ w.batch)
            ∙ ap (λ xs. concat (join w.write_task w).writes ++ xs) (sym batch)
            ∙ joined.0,
        joined.1,
        pos,
      )

  flush-Holds :
      (all : List S) (interval capacity now : ℕ) (w : Writer S)
      → 0 < capacity
      → Holds all w
      → Holds all (flush interval capacity now w)
  unfolding flush
  flush-Holds all interval capacity now w pos h =
      let full =
        leb capacity (length w.batch)
        || (not (length w.batch == 0) && leb interval (now - w.last_flush)) in
      elim (Bool-cases full) [
        | inl due ↦ rw due (spawn_write-Holds all now w (ground (arith, due)) h)
        | inr later ↦ rw later h
      ]

  -- The hits of a round.
  new_hits : Wake S → List S
  new_hits (received scanling more) = scanling ∷ more
  new_hits housekeeping = []

  hits-cons :
      (now : ℕ) (wake : Wake S) (rest : List (ℕ × Wake S))
      → hits ((now, wake) ∷ rest) ≡ new_hits wake ++ hits rest
  unfolding hits new_hits
  hits-cons now (received scanling more) rest = refl
  hits-cons now housekeeping rest = refl

  collect-Holds :
      (all : List S) (w : Writer S) (wake : Wake S)
      → Holds all w
      → Holds (all ++ new_hits wake) (collect w wake)
  unfolding collect Holds new_hits
  collect-Holds all w (received scanling more) (same, filled, task) = (
    sym (append_assoc (concat w.writes ++ held w.write_task) w.batch (scanling ∷ more))
        ∙ ap (λ xs. xs ++ scanling ∷ more) same,
    filled,
    task,
  )
  collect-Holds all w housekeeping (same, filled, task) =
      (same ∙ sym (append-nil all), filled, task)

  run-Holds :
      (all : List S) (interval capacity : ℕ) (rounds : List (ℕ × Wake S)) (w : Writer S)
      → 0 < capacity
      → Holds all w
      → Holds (all ++ hits rounds) (run interval capacity rounds w)
  unfolding run hits
  run-Holds all interval capacity [] w pos h = subst (λ xs. Holds xs w) (sym (append-nil all)) h
  run-Holds all interval capacity ((now, wake) ∷ rest) w pos h =
      let stage =
        flush-Holds (all ++ new_hits wake) interval capacity now (collect w wake) pos
          (collect-Holds all w wake h) in
      subst (λ xs. Holds xs (run interval capacity ((now, wake) ∷ rest) w))
        (append_assoc all (new_hits wake) (hits rest)
          ∙ ap (λ xs. all ++ xs) (sym (hits-cons now wake rest)))
        (run-Holds (all ++ new_hits wake) interval capacity rest
          (flush interval capacity now (collect w wake)) pos stage)

  write_last-Joined :
      (all : List S) (w : Writer S)
      → Joined all w
      → (concat (write_last w).writes ≡ all)
        × AllFilled (write_last w).writes
        × ((write_last w).batch ≡ [])
        × ((write_last w).write_task ≡ none)
  unfolding write_last Joined
  write_last-Joined all w (same, filled, none_left) = elim (nil_cases w.batch) [
    | inl empty ↦
        let zero : (length w.batch == 0) ≡ true = ap (λ xs. length xs == 0) empty in
        rw zero (
          sym (append-nil (concat w.writes)) ∙ ap (λ xs. concat w.writes ++ xs) (sym empty) ∙ same,
          filled,
          empty,
          none_left,
        )
    | inr pos ↦
        let more : (length w.batch == 0) ≡ false = ground (arith, pos) in
        rw more (
          concat-append w.writes w.batch ∙ same,
          AllFilled-append w.writes w.batch filled pos,
          refl,
          none_left,
        )
  ]

  -- For any positive capacity and any interval, whatever the rounds are: when the queue is closed and the
  -- last batches are written, what was given to the database, batch by batch, is all the hits of the
  -- rounds, each once and in the order of the queue; no batch was empty, and nothing is left.
  pub spawn_database-writes_all :
      (interval capacity now : ℕ) (rounds : List (ℕ × Wake S))
      → 0 < capacity
      → let w = spawn_database interval capacity now rounds in
        (concat w.writes ≡ hits rounds)
        × AllFilled w.writes
        × (w.batch ≡ [])
        × (w.write_task ≡ none)
  unfolding spawn_database concat Holds TaskFilled
  spawn_database-writes_all interval capacity now rounds pos =
      let start : Writer S = record {
        batch = [];
        last_flush = now;
        write_task = none;
        writes = [];
      } in
      let w = run interval capacity rounds start in
      let h = run-Holds [] interval capacity rounds start pos (refl, omega arith, omega arith) in
      write_last-Joined (hits rounds) (join w.write_task w)
        (join-Joined (hits rounds) w.write_task w refl h).0
