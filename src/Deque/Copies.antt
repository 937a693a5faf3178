-- ===== src/Deque/Copies.antt =====
-- What a stealer has copied, as part of the history of the queue.
use farsight.Prelude.{
  ℕ, zero, suc, ◌+◌, ◌%◌, ◌≤◌, ◌<◌, ◌≡◌, refl, ap, ap₂, sym, ◌∙◌, List, [], ◌∷◌, ◌++◌, Option, some,
  length, get_elem?, arith, take, map,
}
use native.Mathlib.Nat as N
use farsight.Words.{wrap}
use farsight.Deque.{Buffer, Deque, slot, copy_seg}
use farsight.Deque.Push.{Holds, slot-mod, slot-wrap, IsPower-pos}
use farsight.Deque.Stealer.{Call, one, batch, copy_out, cells_list}

module _ {T : Type 0} where
  batch_copies :
      (buffer : Buffer T) (capacity f n j r : ℕ)
      → slot buffer.cap f ≡ r
      → r < buffer.cap
      → n ≤ buffer.cap
      → j < n
      → copy_out buffer (batch capacity) f n j ≡ buffer.cells (wrap r buffer.cap j)
  unfolding copy_out copy_seg
  batch_copies buffer capacity f n j r at h1 h2 h3 = rw at (ground arith)

  one_copies :
      (buffer : Buffer T) (f n j : ℕ) → copy_out buffer one f n j ≡ buffer.cells (slot buffer.cap f)
  unfolding copy_out
  one_copies buffer f n j = refl

  -- A stealer that copies while `consumed` is still where it loaded it gets the history's tasks.
  pub copy_out-history :
      (history : List T) (d : Deque T) (call : Call) (n j : ℕ)
      → Holds history d
      → d.consumed + n ≤ d.produced
      → (call ≡ one → n ≤ 1)
      → j < n
      → copy_out d.buffer call d.consumed n j ≡ get_elem? history (d.consumed + j)
  copy_out-history history d one n j h le single lt =
      let first : j ≡ 0 = omega (arith, single refl) in
      let base : d.consumed ≡ d.consumed + 0 = omega arith in
      one_copies d.buffer d.consumed n j
      ∙ ap (λ x. d.buffer.cells (slot d.buffer.cap x)) base
      ∙ h.cells 0 (omega (arith, single refl))
      ∙ ap (λ x. get_elem? history (d.consumed + x)) (sym first)
  copy_out-history history d (batch capacity) n j h le single lt =
      let cap = d.buffer.cap in
      batch_copies d.buffer capacity d.consumed n j (d.consumed % cap)
        (slot-mod cap d.consumed h.power) (N.mod-lt d.consumed (IsPower-pos cap h.power))
        (omega (arith, h.bounded)) lt
      ∙ ap d.buffer.cells (sym (slot-wrap cap d.consumed j h.power (omega (arith, h.bounded))))
      ∙ h.cells j (omega arith)

  pub cells_list-add :
      (cells : ℕ → Option T) (s n m : ℕ)
      → cells_list cells s (n + m) ≡ cells_list cells s n ++ cells_list cells (s + n) m
  unfolding cells_list
  cells_list-add cells s zero m = ap₂ (cells_list cells) (omega arith) (omega arith)
  cells_list-add cells s (suc n) m =
      let shape : suc n + m ≡ suc (n + m) = omega arith in
      let start : s + 1 + n ≡ s + suc n = omega arith in
      ap (cells_list cells s) shape
      ∙ ap (◌∷◌ (cells s)) (
          cells_list-add cells (s + 1) n m
          ∙ ap (λ t. cells_list cells (s + 1) n ++ cells_list cells t m) start)

  shift_zero :
      (cells other : ℕ → Option T) (s t : ℕ) → cells (s + 0) ≡ other (t + 0) → cells s ≡ other t
  shift_zero cells other s t e =
      let a : s ≡ s + 0 = omega arith in
      let b : t + 0 ≡ t = omega arith in ap cells a ∙ e ∙ ap other b

  shift_suc :
      (cells other : ℕ → Option T) (s t j : ℕ)
      → cells (s + suc j) ≡ other (t + suc j)
      → cells (s + 1 + j) ≡ other (t + 1 + j)
  shift_suc cells other s t j e =
      let a : s + 1 + j ≡ s + suc j = omega arith in
      let b : t + suc j ≡ t + 1 + j = omega arith in ap cells a ∙ e ∙ ap other b

  pub cells_list-same :
      (cells other : ℕ → Option T) (s t n : ℕ)
      → ((j : ℕ) → j < n → cells (s + j) ≡ other (t + j))
      → cells_list cells s n ≡ cells_list other t n
  unfolding cells_list
  cells_list-same cells other s t zero same = refl
  cells_list-same cells other s t (suc n) same =
      ap₂ ◌∷◌ (shift_zero cells other s t (same 0 (omega arith))) (
        cells_list-same cells other (s + 1) (t + 1) n
          (λ j lt. shift_suc cells other s t j (same (suc j) (omega arith))))

  pub cells_list-take :
      (xs : List T) (n : ℕ) → n ≤ length xs → cells_list (get_elem? xs) 0 n ≡ map some (take n xs)
  unfolding cells_list
  cells_list-take xs zero le = refl
  cells_list-take [] (suc n) le = absurd (omega arith)
  cells_list-take (x ∷ xs) (suc n) le = ap (◌∷◌ (some x)) (
      cells_list-same (get_elem? (x ∷ xs)) (get_elem? xs) 1 0 n (λ j lt.
        let a : 1 + j ≡ suc j = omega arith in
        let b : j ≡ 0 + j = omega arith in ap (get_elem? (x ∷ xs)) a ∙ ap (get_elem? xs) b)
      ∙ cells_list-take xs n (omega arith))
