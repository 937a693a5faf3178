-- ===== src/Std/BinaryHeap.antt =====
-- `BinaryHeap`: the elements in descending order, so that `peek` is the head and `pop` the tail.
use farsight.Prelude.{ℕ, ◌+◌, ◌<◌, ◌≡◌, refl, Bool, true, ◌&&◌, List, [], ◌∷◌, arith, if◌then◌else◌}
use farsight.Std.Eq.{LinearOrder}

module _ {ℓ} {A : Type ℓ} ⦃o : LinearOrder A⦄ where
  -- `a.eq(b)`, which an order with `cmp` implies.
  abbrev pub same : A → A → Bool
  same a b = o.leq a b && o.leq b a

  unfoldable pub push : A → List A → List A
  push a [] = a ∷ []
  push a (b ∷ h) = if o.leq b a then a ∷ b ∷ h else b ∷ push a h

  -- No element is above `top`, and each is at most the one before it.
  abbrev pub Below : A → List A → Type 0
  Below top [] = Unit {0}
  Below top (a ∷ h) = (o.leq a top ≡ true) × Below a h

  abbrev pub Descending : List A → Type 0
  Descending [] = Unit {0}
  Descending (a ∷ h) = Below a h

  unfoldable pub count : A → List A → ℕ
  count a [] = 0
  count a (b ∷ h) = (if same a b then 1 else 0) + count a h

  pub Below-Descending : (top : A) (h : List A) → Below top h → Descending h
  Below-Descending top [] b = tt
  Below-Descending top (a ∷ h) b = b.1

  push-Below : (a top : A) (h : List A) → o.leq a top ≡ true → Below top h → Below top (push a h)
  unfolding push
  push-Below a top [] le b = (le, tt)
  push-Below a top (c ∷ h) le b = ground (arith, o.leq_total a c, push-Below a c h)

  pub push-Descending : (a : A) (h : List A) → Descending h → Descending (push a h)
  unfolding push
  push-Descending a [] d = tt
  push-Descending a (b ∷ h) d = ground (arith, o.leq_total a b, push-Below a b h)

  pub count-push :
      (a b : A) (h : List A) → count a (push b h) ≡ (if same a b then 1 else 0) + count a h
  unfolding count push
  count-push a b [] = refl
  count-push a b (c ∷ h) = ground (arith, count-push a b h)

  -- What occurs below `top` is at most `top`.
  pub Below-leq : (a top : A) (h : List A) → Below top h → 0 < count a h → o.leq a top ≡ true
  unfolding count
  Below-leq a top [] b c = absurd (omega arith)
  Below-leq a top (x ∷ h) b c = ground (arith, Below-leq a x h, o.leq_trans a x top)
