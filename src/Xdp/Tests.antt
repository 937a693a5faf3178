-- ===== src/Xdp/Tests.antt =====
-- Runs of a ring of two slots, past the end of `u32`, and the theorems at concrete rings.
use farsight.Prelude.{
  ℕ, ◌+◌, ◌-◌, ◌^◌, ◌≡◌, refl, [], ◌∷◌, ◌++◌, none, some, arith, if◌then◌else◌, leb,
}
use farsight.Words.{add32}
use farsight.Xdp.{
  Ring, new, first_positions, reserve, free, submit, kernel_takes, peek, available, kernel_puts,
  entries, store, index,
}
use farsight.Xdp.Producing.{in_flight, pending, reserve-exact}
use farsight.Xdp.Consuming.{handed, unread}
use farsight.Xdp.Producer as P
use farsight.Xdp.Consumer as C

-- A ring whose positions are about to wrap round, with one entry that the kernel has not taken.
abbrev late : Ring ℕ
late = record {
  cached_prod = 2 ^ 32 - 1;
  cached_cons = 2 ^ 32 - 1;
  size = 2;
  cells = λ i. i;
  prod = 2 ^ 32 - 1;
  cons = 2 ^ 32 - 2;
  ring_flags = 0;
}

reserve-exact_example :
    (reserve late 2).0 ≡ (if leb (in_flight late + 2) 2 then some (2 ^ 32 - 1) else none)
reserve-exact_example = reserve-exact late 2 (omega arith)

one_reserved :
    reserve late 1 ≡ (some (2 ^ 32 - 1), record late { cached_prod = 0; cached_cons = 0 })
unfolding reserve free
one_reserved = refl

abbrev arrived : Ring ℕ
arrived = record late { cached_prod = 2 ^ 32 - 2; cached_cons = 2 ^ 32 - 2; prod = 0 }

two_peeked : (peek arrived 8).0 ≡ some (2 ^ 32 - 2, 2)
unfolding peek available
two_peeked = refl

abbrev blank : ℕ → ℕ
blank i = 0

abbrev s1 : P.Sending ℕ
s1 = record (P.start 1 blank) { ring = (reserve (P.start 1 blank).ring 2).1 }

abbrev s2 : P.Sending ℕ
s2 = record s1 { ring = store s1.ring (add32 s1.ring.prod 0) 7 }

abbrev s3 : P.Sending ℕ
s3 = record s2 {
  ring = submit s2.ring 1;
  submitted = s2.submitted ++ entries s2.ring s2.ring.prod 1;
}

abbrev s4 : P.Sending ℕ
s4 = record s3 { ring = kernel_takes s3.ring 1; taken = s3.taken ++ entries s3.ring s3.ring.cons 1 }

sent : P.Reach (P.start 1 blank) s4
unfolding reserve free new first_positions submit store
sent =
    let reserving : P.Step (P.start 1 blank) s1 = P.reserves 2 in
    let storing : P.Step s1 s2 = P.stores 0 7 (omega arith) in
    let submitting : P.Step s2 s3 = P.submits 1 (omega arith) in
    let taking : P.Step s3 s4 = P.takes 1 (omega arith) in
    P.later (P.later (P.later (P.later P.here reserving) storing) submitting) taking

taken_seven : s4.taken ≡ 7 ∷ []
unfolding reserve free new first_positions submit store entries index
taken_seven = refl

Reach-takes_in_order_example : s4.submitted ≡ s4.taken ++ pending s4.ring
Reach-takes_in_order_example = P.Reach-takes_in_order 1 blank s4 (omega arith) sent

abbrev r1 : C.Receiving ℕ
r1 = record (C.start 1 blank) { ring = kernel_puts (C.start 1 blank).ring 5; put_in = [] ++ 5 ∷ [] }

abbrev r2 : C.Receiving ℕ
r2 = record r1 {
  ring = (peek r1.ring 4).1;
  peeked = r1.peeked ++ handed (peek r1.ring 4).1 (peek r1.ring 4).0;
}

received : C.Reach (C.start 1 blank) r2
unfolding new first_positions
received =
    let putting : C.Step (C.start 1 blank) r1 = C.puts 5 (omega arith) in
    let peeking : C.Step r1 r2 = C.peeks 4 in C.later (C.later C.here putting) peeking

peeked_five : r2.peeked ≡ 5 ∷ []
unfolding peek available new first_positions kernel_puts store entries index handed
peeked_five = refl

Reach-peeks_in_order_example : r2.put_in ≡ r2.peeked ++ unread r2.ring
Reach-peeks_in_order_example = C.Reach-peeks_in_order 1 blank r2 (omega arith) received
