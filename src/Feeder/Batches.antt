-- ===== src/Feeder/Batches.antt =====
-- What a tick collects for the queue.
use farsight.Prelude.{
  ℕ, zero, suc, ◌+◌, ◌-◌, ◌≤◌, ◌<◌, ◌≡◌, refl, Bool, true, false, List, [], ◌∷◌, ◌++◌, Option, none,
  some, leb, length, length-append, if_elim, arith,
}
use farsight.Feeder.{Strategies, Feeder, feed, feed_guarded, feed_loop, finish, tick}

module _ (s : Strategies) where
  open s use {World, Probe, guard, next_address, generate, batch}

  -- Each probe was generated for the address of its entry, which expires at `due`.
  abbrev pub Matched : ℕ → List Probe → List (ℕ × ℕ) → Type 0
  Matched due [] [] = 0 ≤ 0
  Matched due (p ∷ probes) ((time, addr) ∷ entries) =
      (time ≡ due) × ((w : World) × ((generate addr w).0 ≡ p)) × Matched due probes entries
  Matched due _ _ = 1 ≤ 0

  Matched-append :
      (due : ℕ) (probes : List Probe) (entries : List (ℕ × ℕ)) (addr : ℕ) (w : World)
      → Matched due probes entries
      → Matched due (probes ++ (generate addr w).0 ∷ []) (entries ++ (due, addr) ∷ [])
  Matched-append due [] [] addr w h = (refl, (w, refl), omega arith)
  Matched-append due [] (e ∷ entries) addr w h = absurd (omega arith)
  Matched-append due (p ∷ probes) [] addr w h = absurd (omega arith)
  Matched-append due (p ∷ probes) ((time, a) ∷ entries) addr w (same, made, h) =
      (same, made, Matched-append due probes entries addr w h)

  -- At most `n` probes, with their entries.
  abbrev pub Batched : ℕ → ℕ → Feeder s → Type 0
  Batched due n f = Matched due f.result_batch f.expiries_batch × (length f.result_batch ≤ n)

  feed-Batched :
      (due n : ℕ) (f : Feeder s) (found : Option ℕ × World)
      → Batched due n f
      → Batched due (n + 1) (feed s due f found).1
  unfolding feed
  feed-Batched due n f (none, w) (matched, short) = (matched, omega arith)
  feed-Batched due n f (some addr, w) (matched, short) = (
    Matched-append due f.result_batch f.expiries_batch addr w matched,
    omega (arith, length-append f.result_batch ((generate addr w).0 ∷ [])),
  )

  feed_guarded-Batched :
      (due n : ℕ) (f : Feeder s) (got : Bool × World)
      → Batched due n f
      → Batched due (n + 1) (feed_guarded s due f got).1
  unfolding feed_guarded
  feed_guarded-Batched due n f (false, w) (matched, short) = (matched, omega arith)
  feed_guarded-Batched due n f (true, w) h =
      feed-Batched due n (record f { world = w }) (next_address w) h

  feed_loop-Batched :
      (m due n : ℕ) (f : Feeder s) → Batched due n f → Batched due (n + m) (feed_loop s m due f).1
  unfolding feed_loop
  feed_loop-Batched zero due n f (matched, short) = (matched, omega arith)
  feed_loop-Batched (suc m) due n f h =
      let out = feed_guarded s due f (guard f.world) in
      let (matched, short) = feed_guarded-Batched due n f (guard f.world) h in
      let (later, bound) = feed_loop-Batched m due (n + 1) out.1 (matched, short) in
      if_elim (λ o. Batched due (n + suc m) o.1) out.0 (true, out.1) (feed_loop s m due out.1)
        (matched, omega arith) (later, omega arith)

  finish-Batched :
      (due n : ℕ) (out : Bool × Feeder s) → Batched due n out.1 → Batched due n (finish s out).1
  unfolding finish
  finish-Batched due n (true, f) h = h
  finish-Batched due n (false, f) h = h

  -- A tick before the end of the session leaves at most `batch_size` probes, whatever the strategies
  -- do; beside each stands an entry with the address that it was generated for and the time of the tick plus
  -- the timeout, in the same order.
  pub tick-Batched :
      (now : ℕ) (f : Feeder s)
      → now - f.start < f.duration
      → Batched (now + f.timeout) f.batch_size (tick s now f).1
  unfolding tick
  tick-Batched now f running =
      let going : leb f.duration (now - f.start) ≡ false = ground arith in
      let cleared : Feeder s = record f { result_batch = []; expiries_batch = [] } in
      let out = feed_loop s f.batch_size (now + f.timeout) cleared in
      let (matched, short) =
        feed_loop-Batched f.batch_size (now + f.timeout) 0 cleared (omega arith, omega arith) in
      rw going (finish-Batched (now + f.timeout) f.batch_size out (matched, omega arith))
