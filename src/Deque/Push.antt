-- ===== src/Deque/Push.antt =====
-- A push that fits keeps what is in the queue and adds its tasks behind it.
use native.Mathlib.Nat as N
use farsight.Prelude.{
  ℕ, suc, ◌+◌, ◌-◌, ◌*◌, ◌%◌, ◌^◌, ◌≤◌, ◌<◌, ◌≡◌, refl, ap, subst, sym, ◌∙◌, inl, inr, List, [],
  ◌++◌, none, leb, length, get_elem?, arith, dec_lt, length-append, get_elem?-append_left,
  get_elem?-append_right, Bool-cases,
}
use farsight.Words.{wrap, mod_wrap, pow_pos}
use farsight.Deque.{
  Deque, slot, segments, split_range, copy_tasks, alloc, resize, make_room, push, new,
}
use farsight.Deque.Ring.{slot-pow, copy_all-moves, copy_tasks-writes, copy_tasks-keeps}

-- A capacity, as `Buffer::alloc` asserts of it.
abbrev pub IsPower : ℕ → Type 0
IsPower cap = (k : ℕ) × (cap ≡ 2 ^ k)

pub IsPower-pos : (cap : ℕ) → IsPower cap → 0 < cap
IsPower-pos cap p = omega (arith, pow_pos p.0, p.1)

pub slot-mod : (cap x : ℕ) → IsPower cap → slot cap x ≡ x % cap
slot-mod cap x p = subst (λ c. slot c x ≡ x % c) (sym p.1) (slot-pow p.0 x)

pub slot-wrap :
    (cap base e : ℕ) → IsPower cap → e ≤ cap → slot cap (base + e) ≡ wrap (base % cap) cap e
slot-wrap cap base e p le = slot-mod cap (base + e) p ∙ mod_wrap base cap e le (IsPower-pos cap p)

module _ {T : Type 0} where
  -- The queue has been pushed the tasks of `history`, the first `consumed` of which are stolen.
  pub record Holds (history : List T) (d : Deque T) : Type 0 where
    pub power : IsPower d.buffer.cap
    pub size : d.produced ≡ length history
    pub ordered : d.consumed ≤ d.produced
    pub bounded : d.produced ≤ d.consumed + d.buffer.cap
    pub cached : d.cached_cons ≤ d.consumed
    pub cells :
        (e : ℕ)
        → e < d.produced - d.consumed
        → d.buffer.cells (slot d.buffer.cap (d.consumed + e)) ≡ get_elem? history (d.consumed + e)

  pub new-Holds : Holds [] (new {T = T})
  unfolding new alloc
  new-Holds = record {
    power = (6, refl);
    size = refl;
    ordered = omega arith;
    bounded = omega arith;
    cached = omega arith;
    cells = λ e h. absurd (omega arith);
  }

  resize-Holds :
      (history : List T) (d : Deque T)
      → Holds history d
      → Holds history (resize d (2 * d.buffer.cap))
  unfolding resize split_range alloc
  resize-Holds history d h =
      let cap = d.buffer.cap in
      let p2 : IsPower (2 * cap) =
        (suc h.power.0, omega (arith, N.pow-suc 2 h.power.0, h.power.1)) in
      let pos = IsPower-pos cap h.power in
      record {
        power = p2;
        size = h.size;
        ordered = h.ordered;
        bounded = omega (arith, h.bounded);
        cached = h.cached;
        cells = λ e lt.
            let moved =
              copy_all-moves d.buffer.cells (λ x. none) cap (2 * cap) (d.consumed % cap)
                (d.consumed % (2 * cap)) (d.produced - d.consumed) e (omega (arith, h.bounded))
                (omega (arith, h.bounded)) (N.mod-lt d.consumed pos)
                (N.mod-lt d.consumed (omega (arith, pos))) lt in
            rw
              (
                slot-mod cap d.consumed h.power,
                slot-mod (2 * cap) d.consumed p2,
                slot-wrap (2 * cap) d.consumed e p2 (omega (arith, h.bounded)),
                moved,
              )
              (ap d.buffer.cells
                  (sym (slot-wrap cap d.consumed e h.power (omega (arith, h.bounded))))
                ∙ h.cells e lt);
      }

  abbrev renewed : Deque T → Deque T
  renewed d = record d { cached_cons = d.consumed }

  renewed-Holds : (history : List T) (d : Deque T) → Holds history d → Holds history (renewed d)
  renewed-Holds history d h = record {
    power = h.power;
    size = h.size;
    ordered = h.ordered;
    bounded = h.bounded;
    cached = omega arith;
    cells = h.cells;
  }

  -- `make_room` moves neither count, and whatever fits before fits after.
  pub record Roomy (d d' : Deque T) : Type 0 where
    pub consumed : d'.consumed ≡ d.consumed
    pub produced : d'.produced ≡ d.produced
    pub room : d'.produced < d'.consumed + d'.buffer.cap

  pub make_room-Holds :
      (history : List T) (d : Deque T)
      → Holds history d
      → Holds history (make_room d) × Roomy d (make_room d)
  unfolding make_room
  make_room-Holds history d h = elim (Bool-cases (leb d.buffer.cap (d.produced - d.cached_cons))) [
    | inr room ↦
        rw room (
          h,
          record { consumed = refl; produced = refl; room = ground (arith, h.cached, h.ordered) },
        )
    | inl seems_full ↦
        rw seems_full (elim (Bool-cases (leb d.buffer.cap (d.produced - d.consumed))) [
          | inr room ↦ rw room (
            renewed-Holds history d h,
            record { consumed = refl; produced = refl; room = ground (arith, h.ordered) },
          )
          | inl full ↦
              let h' = renewed-Holds history d h in
              rw full (
                resize-Holds history (renewed d) h',
                record {
                  consumed = refl;
                  produced = refl;
                  room = omega (arith, h.bounded, IsPower-pos d.buffer.cap h.power);
                },
              )
        ])
  ]

  -- The tasks fit into the buffer beside those that are there.
  abbrev pub Fits : Deque T → List T → Type 0
  Fits d task = d.produced + length task ≤ d.consumed + (make_room d).buffer.cap

  -- A push of one task at most always fits.
  pub single-Fits :
      (history : List T) (d : Deque T) (task : List T)
      → Holds history d
      → length task ≤ 1
      → Fits d task
  single-Fits history d task h one =
      let r = (make_room-Holds history d h).1 in omega (arith, r.room, r.consumed, r.produced)

  -- `push` behind `make_room`.
  unfoldable pub write_tasks : Deque T → List T → Deque T
  write_tasks d task = record d {
    produced = d.produced + length task;
    buffer = record d.buffer {
      cells =
          copy_tasks task d.buffer.cells
            (split_range d.buffer.cap d.produced (d.produced + length task));
    };
  }

  pub write_tasks-consumed :
      (d : Deque T) (task : List T) → (write_tasks d task).consumed ≡ d.consumed
  unfolding write_tasks
  write_tasks-consumed d task = refl

  pub push-write_tasks :
      (d : Deque T) (task : List T) → push d task ≡ write_tasks (make_room d) task
  unfolding push write_tasks
  push-write_tasks d task = refl

  write_tasks-Holds :
      (history : List T) (d : Deque T) (task : List T)
      → Holds history d
      → d.produced + length task ≤ d.consumed + d.buffer.cap
      → Holds (history ++ task) (write_tasks d task)
  unfolding write_tasks split_range
  write_tasks-Holds history d task h fit =
      let cap = d.buffer.cap in
      let r = d.consumed % cap in
      let held = d.produced - d.consumed in
      let small = N.mod-lt d.consumed (IsPower-pos cap h.power) in
      let at_end : slot cap d.produced ≡ wrap r cap held =
        ap (slot cap) (omega (arith, h.ordered))
        ∙ slot-wrap cap d.consumed held h.power (omega arith) in
      let len : d.produced + length task - d.produced ≡ length task = omega arith in
      record {
        power = h.power;
        size = omega (arith, h.size, length-append history task);
        ordered = omega (arith, h.ordered);
        bounded = fit;
        cached = h.cached;
        cells = λ e lt.
            rw (len, at_end, slot-wrap cap d.consumed e h.power (omega (arith, h.ordered)))
              (elim (dec_lt e held) [
                | yes old ↦
                    copy_tasks-keeps task d.buffer.cells cap r held e small
                      (omega (arith, h.ordered)) old
                    ∙ ap d.buffer.cells
                        (sym (slot-wrap cap d.consumed e h.power (omega (arith, h.ordered))))
                    ∙ h.cells e old
                    ∙ sym (
                        get_elem?-append_left history task (d.consumed + e)
                          (omega (arith, h.size, h.ordered)))
                | no new ↦
                    let k = e - held in
                    ap
                      (λ x.
                        copy_tasks task d.buffer.cells
                          (segments cap (wrap r cap held) (length task)) (wrap r cap x))
                      (omega arith)
                    ∙ copy_tasks-writes task d.buffer.cells cap r held k small
                        (omega (arith, h.ordered)) (omega (arith, lt, h.ordered))
                    ∙ sym (get_elem?-append_right history task k)
                    ∙ ap (get_elem? (history ++ task)) (omega (arith, h.ordered, h.size))
              ]);
      }

  -- Let the queue hold a history, and let the pushed tasks fit beside those that are not stolen.
  -- Then `push`, whether it grows the buffer or not, leaves the queue with the tasks added to its
  -- history, and none stolen.
  pub push-Holds :
      (history : List T) (d : Deque T) (task : List T)
      → Holds history d
      → Fits d task
      → Holds (history ++ task) (push d task) × ((push d task).consumed ≡ d.consumed)
  push-Holds history d task h fit =
      let (h', r) = make_room-Holds history d h in
      let fit' : (make_room d).produced + length task
          ≤ (make_room d).consumed + (make_room d).buffer.cap =
        omega (arith, fit, r.consumed, r.produced) in
      rw (push-write_tasks d task) (
        write_tasks-Holds history (make_room d) task h' fit',
        write_tasks-consumed (make_room d) task ∙ r.consumed,
      )
