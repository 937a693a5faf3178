-- ===== src/IpAdapter/Scanned.antt =====
-- The addresses that the bitmaps of all the /24s hold together, and how one call changes that set.
use farsight.Prelude.{
  ℕ, ◌+◌, ◌*◌, ◌/◌, ◌%◌, ◌<◌, ◌≡◌, inl, inr, Bool, false, not, ◌||◌, List, none, some, ◌==◌,
  if◌then◌else◌, arith, Bool-cases, Option-cases, ap₂, subst, ℕ_discrete, ap, ◌∙◌,
}
use farsight.Std.Eq.{nat_eq}
use farsight.Std.Map.{lookup, insert, lookup-insert}
use farsight.PrefixState.{PrefixState, is_unscanned, mark_scanned}
use farsight.PrefixState.Invariant.{new-IsValid, new-is_unscanned, mark_scanned_lem}
use farsight.PrefixState.Invariant
use farsight.IpAdapter.{entry}

abbrev pub scanned : List (ℕ × PrefixState) → ℕ → Bool
scanned actives addr = elim (lookup (addr / 256) actives) [
  | none ↦ false
  | some s ↦ not (is_unscanned s (addr % 256))
]

abbrev pub Valid : List (ℕ × PrefixState) → Type 0
Valid actives = (k : ℕ) (s : PrefixState) → lookup k actives ≡ some s → Invariant.IsValid s

pub entry-IsValid :
    (actives : List (ℕ × PrefixState)) (k : ℕ) → Valid actives → Invariant.IsValid (entry actives k)
unfolding entry
entry-IsValid actives k v = elim (Option-cases (lookup k actives)) [
  | inl absent ↦ rw absent new-IsValid
  | inr (s, there) ↦ rw there (v k s there)
]

-- The set through `entry`, which hides that a /24 may have no bitmap yet.
scanned-entry :
    (actives : List (ℕ × PrefixState)) (x : ℕ)
    → scanned actives x ≡ not (is_unscanned (entry actives (x / 256)) (x % 256))
unfolding entry
scanned-entry actives x = ground (arith, new-is_unscanned (x % 256))

entry-insert :
    (actives : List (ℕ × PrefixState)) (k j : ℕ) (s : PrefixState)
    → entry (insert k s actives) j ≡ (if k == j then s else entry actives j)
unfolding entry
entry-insert actives k j s = ground (arith, lookup-insert k j s actives)

pub scanned-at :
    (actives : List (ℕ × PrefixState)) (k j : ℕ)
    → j < 256
    → scanned actives (k * 256 + j) ≡ not (is_unscanned (entry actives k) j)
scanned-at actives k j h =
    let hi : (k * 256 + j) / 256 ≡ k = omega arith in
    let lo : (k * 256 + j) % 256 ≡ j = omega arith in
    scanned-entry actives (k * 256 + j) ∙ ap₂ (λ h l. not (is_unscanned (entry actives h) l)) hi lo

pub insert-Valid :
    (actives : List (ℕ × PrefixState)) (k : ℕ) (s : PrefixState)
    → Valid actives
    → Invariant.IsValid s
    → Valid (insert k s actives)
insert-Valid actives k s v w j t e = elim (Bool-cases (k == j)) [
  | inl here ↦
      let same : some s ≡ some t = ground (arith, lookup-insert k j s actives) in
      let same' : s ≡ t = cc same in subst Invariant.IsValid same' w
  | inr elsewhere ↦ v j t (ground (arith, lookup-insert k j s actives))
]

-- Putting back the entry that was read changes no address.
pub scanned-insert-entry :
    (actives : List (ℕ × PrefixState)) (k x : ℕ)
    → scanned (insert k (entry actives k) actives) x ≡ scanned actives x
scanned-insert-entry actives k x = ground (
  arith,
  scanned-entry actives x,
  scanned-entry (insert k (entry actives k) actives) x,
  entry-insert actives k (x / 256) (entry actives k),
  ap (entry actives) {x = k} {y = x / 256},
)

-- Marking an offset of a /24 scans the one address.
pub scanned-mark :
    (actives : List (ℕ × PrefixState)) (k j x : ℕ)
    → Valid actives
    → j < 256
    → scanned (insert k (mark_scanned (entry actives k) j).0 actives) x
      ≡ (scanned actives x || x == k * 256 + j)
scanned-mark actives k j x v h =
    let w = entry-IsValid actives k v in
    let at = (mark_scanned_lem (entry actives k) j w h).1 (x % 256) (omega arith) in
    elim (ℕ_discrete k (x / 256)) [
      | yes here ↦ ground (
        arith,
        scanned-entry actives x,
        scanned-entry (insert k (mark_scanned (entry actives k) j).0 actives) x,
        entry-insert actives k (x / 256) (mark_scanned (entry actives k) j).0,
        at,
        ap (entry actives) here,
      )
      | no away ↦ ground (
        arith,
        scanned-entry actives x,
        scanned-entry (insert k (mark_scanned (entry actives k) j).0 actives) x,
        entry-insert actives k (x / 256) (mark_scanned (entry actives k) j).0,
      )
    ]
