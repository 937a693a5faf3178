-- ===== src/Xdp.antt =====
-- farsight/src/xdp/ring.rs: the rings shared with the kernel, with the producer's and the consumer's
-- operations. Positions are `u32` and wrap round; the memory of the cells is a function of the cell.
pub mod Positions
pub mod Producing
pub mod Producer
pub mod Consuming
pub mod Consumer
mod Tests
use Prim.Native.Nat.{bit_and}
use farsight.Prelude.{
  ℕ, Bool, not, ◌+◌, ◌%◌, zero, suc, Option, none, some, List, [], ◌∷◌, min, ltb, leb, ◌==◌,
  if◌then◌else◌,
}
use farsight.Words.{add32, sub32}

pub data RingKind : Type 0 where
  fill : RingKind
  complete : RingKind
  tx : RingKind
  rx : RingKind

pub record RingOffset : Type 0 where
  pub producer : ℕ
  pub consumer : ℕ
  pub desc : ℕ
  pub flags : ℕ

pub record MmapOffsets : Type 0 where
  pub rx_offset : RingOffset
  pub tx_offset : RingOffset
  pub fr_offset : RingOffset
  pub cr_offset : RingOffset

-- `MmapOffsets::get_offset`
unfoldable pub get_offset : MmapOffsets → RingKind → RingOffset
get_offset o fill = o.fr_offset
get_offset o complete = o.cr_offset
get_offset o tx = o.tx_offset
get_offset o rx = o.rx_offset

pub record Descriptor : Type 0 where
  pub addr : ℕ
  pub len : ℕ
  pub options : ℕ

-- The ring and the memory it shares with the kernel: `cells`, `prod`, `cons` and
-- `ring_flags`.
pub record Ring {ℓ} (T : Type ℓ) : Type ℓ where
  pub cached_prod : ℕ
  pub cached_cons : ℕ
  pub size : ℕ
  pub cells : ℕ → T
  pub prod : ℕ
  pub cons : ℕ
  pub ring_flags : ℕ

-- The positions that `Ring::new` keeps for itself, from the shared ones.
unfoldable pub first_positions : RingKind → ℕ → ℕ → ℕ → ℕ × ℕ
first_positions fill n p c = (0, n)
first_positions complete n p c = (0, 0)
first_positions tx n p c = (p, add32 c n)
first_positions rx n p c = (p, c)

module _ {ℓ} {T : Type ℓ} where
  -- `Ring::new` over mapped memory.
  unfoldable pub new : RingKind → ℕ → (ℕ → T) → ℕ → ℕ → ℕ → Ring T
  unfolding first_positions
  new kind n m p c flag_bits =
      let (first_prod, first_cons) = first_positions kind n p c in
      record {
        cached_prod = first_prod;
        cached_cons = first_cons;
        size = n;
        cells = m;
        prod = p;
        cons = c;
        ring_flags = flag_bits;
      }

  -- `RingFlags::needs_wakeup`, by the bit XDP_RING_NEED_WAKEUP.
  unfoldable pub needs_wakeup : Ring T → Bool
  needs_wakeup r = not (bit_and r.ring_flags 1 == 0)

  -- `Index::index`
  unfoldable pub index : Ring T → ℕ → T
  index r i = r.cells (i % r.size)

  -- `IndexMut::index_mut`, with the value stored through it.
  unfoldable pub store : Ring T → ℕ → T → Ring T
  store r i v = record r { cells = λ j. if j == i % r.size then v else r.cells j }

  -- `Producer::free`, with the ring after it.
  unfoldable pub free : Ring T → ℕ → ℕ × Ring T
  free r batch_size =
      let free_entries = sub32 r.cached_cons r.cached_prod in
      let reloaded : Ring T = record r { cached_cons = add32 r.cons r.size } in
      if leb batch_size free_entries
      then (free_entries, r)
      else (sub32 reloaded.cached_cons reloaded.cached_prod, reloaded)

  -- `Producer::reserve`
  unfoldable pub reserve : Ring T → ℕ → Option ℕ × Ring T
  reserve r batch_size =
      let (n, r1) = free r batch_size in
      if ltb n batch_size
      then (none, r1)
      else (some r1.cached_prod, record r1 { cached_prod = add32 r1.cached_prod batch_size })

  -- `Producer::submit`: `fetch_add` on the shared number.
  unfoldable pub submit : Ring T → ℕ → Ring T
  submit r batch_size = record r { prod = add32 r.prod batch_size }

  -- `Consumer::available`
  unfoldable pub available : Ring T → ℕ → ℕ × Ring T
  available r batch_size =
      let entries = sub32 r.cached_prod r.cached_cons in
      let reloaded : Ring T = record r { cached_prod = r.prod } in
      if ltb entries batch_size
      then (min (sub32 reloaded.cached_prod reloaded.cached_cons) batch_size, reloaded)
      else (min entries batch_size, r)

  -- `Consumer::peek`: the first position and the number of entries.
  unfoldable pub peek : Ring T → ℕ → Option (ℕ × ℕ) × Ring T
  peek r batch_size =
      let (entries, r1) = available r batch_size in
      if entries == 0 then (none, r1) else (
        some (r1.cached_cons, entries),
        record r1 { cached_cons = add32 r1.cached_cons entries },
      )

  -- `Consumer::unpeek`
  unfoldable pub unpeek : Ring T → ℕ → Ring T
  unpeek r entries = record r { cached_cons = sub32 r.cached_cons entries }

  -- `Consumer::release`
  unfoldable pub release : Ring T → ℕ → Ring T
  release r batch_size = record r { cons = add32 r.cons batch_size }

  -- The `n` entries from position `i` on.
  unfoldable pub entries : Ring T → ℕ → ℕ → List T
  unfolding index
  entries r i zero = []
  entries r i (suc n) = index r i ∷ entries r (add32 i 1) n

  -- What the kernel does to the ring between two operations: it takes `n` entries from a producer's ring,
  abbrev pub kernel_takes : Ring T → ℕ → Ring T
  kernel_takes r n = record r { cons = add32 r.cons n }

  -- or puts one into the ring of a consumer.
  unfoldable pub kernel_puts : Ring T → T → Ring T
  unfolding store
  kernel_puts r v = record (store r r.prod v) { prod = add32 r.prod 1 }
