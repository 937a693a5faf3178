-- ===== src/Receiver/Conserves.antt =====
-- Each frame of a batch is on the receive ring before, and on the fill ring after it.
use farsight.Prelude.{
  ℕ, ◌<◌, ◌≡◌, refl, sym, ap, subst, ◌∙◌, Bool, true, false, not, ◌&&◌, Option, none, some, ◌++◌,
  arith, ℕ_discrete, if_elim, ◌==◌,
}
use farsight.Xdp.{Ring, needs_wakeup, reserve, peek, unpeek, entries}
use farsight.Xdp.Producing.{
  IsProducing, Reserved, SameShared, SameShared-entries, reserve-Reserved, reserve-IsProducing,
  reserve-SameShared, SameShared-pending,
}
use farsight.Xdp.Consuming.{
  count, unread, unpeek-peek-IsConsuming, peek-IsConsuming, peek-SameShared, peek-exact, peek-moves,
  peek-unread, unpeek-peek-unread,
}
use farsight.Receiver.{Receiver, receive, receive_peeked, receive_reserved}
use farsight.Receiver.Guard.{IsIdle, Untouched, Returned, Conserves, consume-Returned}

-- The receive ring after `unpeek` has given the entries back.
given_back-Untouched :
    (k j : ℕ) (r : Receiver) (fr : Ring ℕ)
    → IsIdle k j r
    → IsProducing fr × (fr.cached_prod ≡ r.fr.cached_prod) × SameShared fr r.fr
    → let rx = unpeek (peek r.rx r.batch_size).1 (count r.rx r.batch_size) in
      Untouched k j r (record r { fr = fr; rx = rx })
unfolding unpeek
given_back-Untouched k j r fr idle (producing, place, same) =
    let (size, size_rx, h, consuming, fresh, read) = idle in
    let (size_same, cells, prod, cons) = peek-SameShared r.rx r.batch_size in
    (
      (
        same.0 ∙ size,
        size_same ∙ size_rx,
        producing,
        unpeek-peek-IsConsuming r.rx r.batch_size consuming,
        place ∙ fresh ∙ sym same.2,
        omega (arith, peek-moves r.rx r.batch_size consuming, cons),
      ),
      SameShared-pending fr r.fr same,
      unpeek-peek-unread r.rx r.batch_size consuming,
    )

-- What `receive` has peeked.
abbrev peeked_receiver : Receiver → Receiver
peeked_receiver r = record r { rx = (peek r.rx r.batch_size).1 }

with_frames-Conserves :
    (k j m : ℕ) (r : Receiver) (filled fill : ℕ) (fr : Ring ℕ)
    → k < 32
    → IsIdle k j r
    → let n = count r.rx r.batch_size in
      IsProducing fr × SameShared fr r.fr × Reserved r.fr n (some fill, fr)
      → Returned k j m r filled (record {
        owner = record r { fr = fr; rx = (peek r.rx r.batch_size).1 };
        filled = filled;
        rx_start = r.rx.cached_cons;
        fill_start = fill;
        count = count r.rx r.batch_size;
        cursor = 0;
      })
unfolding entries
with_frames-Conserves k j m r filled fill fr small idle (producing, same, (place, moved, room)) =
    let (size, size_rx, h, consuming, fresh, read) = idle in
    let (size_same, cells, prod, cons) = peek-SameShared r.rx r.batch_size in
    let taken = peek-moves r.rx r.batch_size consuming in
    let batch_same : entries (peek r.rx r.batch_size).1 r.rx.cached_cons (count r.rx r.batch_size)
        ≡ entries r.rx r.rx.cached_cons (count r.rx r.batch_size) =
      SameShared-entries (peek r.rx r.batch_size).1 r.rx _ _ (peek-SameShared r.rx r.batch_size) in
    consume-Returned k j m r filled _ small (refl, refl)
      (
        size_same ∙ size_rx,
        peek-IsConsuming r.rx r.batch_size consuming,
        omega (arith, taken, cons),
        omega (arith, consuming),
      )
      (
        same.0 ∙ size,
        producing,
        omega (arith, moved, fresh, same.2),
        place ∙ fresh ∙ sym same.2,
        SameShared-pending fr r.fr same,
        refl,
      )
      (peek-unread r.rx r.batch_size consuming
        ∙ ap (λ es. es ++ unread (peek r.rx r.batch_size).1) (sym batch_same))

reserve-Conserves :
    (k j m : ℕ) (r : Receiver) (filled : ℕ) (out : Option ℕ × Ring ℕ)
    → k < 32
    → IsIdle k j r
    → IsProducing out.1
    → SameShared out.1 r.fr
    → Reserved r.fr (count r.rx r.batch_size) out
    → Conserves k j m r filled
        (receive_reserved (peeked_receiver r) filled r.rx.cached_cons (count r.rx r.batch_size) out)
unfolding receive_reserved
reserve-Conserves k j m r filled (none, fr) small idle producing same place =
    given_back-Untouched k j r fr idle (producing, place, same)
reserve-Conserves k j m r filled (some fill, fr) small idle producing same place =
    with_frames-Conserves k j m r filled fill fr small idle (producing, same, place)

peeked_some-Conserves :
    (k j m : ℕ) (r : Receiver) (kicked : Bool) (filled : ℕ)
    → k < 32
    → IsIdle k j r
    → Conserves k j m r filled (
        receive_peeked r kicked filled
          (some (r.rx.cached_cons, count r.rx r.batch_size), (peek r.rx r.batch_size).1))
unfolding receive_peeked
peeked_some-Conserves k j m r kicked filled small idle =
    let n = count r.rx r.batch_size in
    if_elim (Conserves k j m r filled) (needs_wakeup r.fr && not kicked) _ _
      (given_back-Untouched k j r r.fr idle (idle.2, refl, (refl, refl, refl, refl)))
      (reserve-Conserves k j m r filled (reserve r.fr n) small idle
        (reserve-IsProducing r.fr n idle.2) (reserve-SameShared r.fr n)
        (reserve-Reserved r.fr n idle.2))

peeked_none-Conserves :
    (k j m : ℕ) (r : Receiver) (kicked : Bool) (filled : ℕ)
    → IsIdle k j r
    → count r.rx r.batch_size ≡ 0
    → Conserves k j m r filled (receive_peeked r kicked filled (none, (peek r.rx r.batch_size).1))
unfolding receive_peeked entries
peeked_none-Conserves k j m r kicked filled (size, size_rx, h, consuming, fresh, read) empty =
    let (size_same, cells, prod, cons) = peek-SameShared r.rx r.batch_size in
    let none_taken : unread r.rx ≡ unread (peek r.rx r.batch_size).1 =
      peek-unread r.rx r.batch_size consuming
      ∙ ap (λ n. entries r.rx r.rx.cached_cons n ++ unread (peek r.rx r.batch_size).1) empty in
    (
      (
        size,
        size_same ∙ size_rx,
        h,
        peek-IsConsuming r.rx r.batch_size consuming,
        fresh,
        omega (arith, peek-moves r.rx r.batch_size consuming, empty, cons),
      ),
      refl,
      sym none_taken,
    )

-- Every frame is accounted for, whatever `receive` returns and however many packets are looked at before
-- the guard is dropped. If it returns nothing or an error, both rings are as they were. If it returns a
-- batch, the packets handed out are the first of it, in order; the batch leaves the receive ring; and
-- the frame of each packet of the batch, looked at or not, is appended to the fill ring.
pub receive-Conserves :
    (k j m : ℕ) (r : Receiver) (kicked : Bool) (filled : ℕ)
    → k < 32
    → IsIdle k j r
    → Conserves k j m r filled (receive r kicked filled)
unfolding receive
receive-Conserves k j m r kicked filled small idle =
    let n = count r.rx r.batch_size in
    subst
      (λ peeked.
        Conserves k j m r filled
          (receive_peeked r kicked filled (peeked, (peek r.rx r.batch_size).1)))
      (sym (peek-exact r.rx r.batch_size idle.3))
      (elim (ℕ_discrete n 0) [
        | yes empty ↦
            let nothing_there : (n == 0) ≡ true = ground (arith, empty) in
            rw nothing_there (peeked_none-Conserves k j m r kicked filled idle empty)
        | no some_there ↦
            let more : (n == 0) ≡ false = ground arith in
            rw more (peeked_some-Conserves k j m r kicked filled small idle)
      ])
