-- ===== src/Filter.antt =====
-- farsight-ebpf/src/xdp.rs: the filter in the kernel, which hands a frame to a receive ring or passes
-- it on. The layouts of the headers are those of the crate network-types.
pub mod Passed
mod Tests
use Prim.Native.Nat.{bit_and}
use farsight.Prelude.{
  ℕ, ◌+◌, ◌*◌, ◌%◌, Bool, not, ◌||◌, Option, none, some, ltb, leb, ◌==◌, if◌then◌else◌,
}
use farsight.Tcp.{Frame}

-- The variables that the program sets before it loads the filter.
pub record Statics : Type 0 where
  pub source_port_start : ℕ
  pub source_port_end : ℕ
  pub usable_queues : ℕ

-- XDP_PASS, or a redirection to the socket of a queue. A remainder by zero queues is undefined.
pub data Action : Type 0 where
  pass undefined : Action
  redirect : ℕ → Action

-- `ptr_at` succeeds: `size` bytes from `offset` on are inside the frame.
unfoldable pub ptr_at : ℕ → ℕ → ℕ → Bool
ptr_at len offset size = leb (offset + size) len

-- `SOCKS.redirect`, by whether the map has a socket for the queue.
unfoldable pub redirect_or_pass : (ℕ → Bool) → ℕ → Action
redirect_or_pass has_socket queue = if has_socket queue then redirect queue else pass

-- The part of `try_farsight_xdp` behind the header of IP.
unfoldable pub check_tcp : Statics → (ℕ → Bool) → ℕ → Frame → ℕ → ℕ → Option Action
unfolding ptr_at redirect_or_pass
check_tcp st has_socket rx_queue f len tcp =
    let dest = f (tcp + 2) * 256 + f (tcp + 3) in
    if not (ptr_at len tcp 20)
    then none
    else if ltb dest st.source_port_start || ltb st.source_port_end dest
    then some pass
    else if st.usable_queues == 0
    then some undefined
    else some (redirect_or_pass has_socket (rx_queue % st.usable_queues))

-- `try_farsight_xdp` on a frame of `len` bytes, with `none` for its errors.
unfoldable pub try_farsight_xdp : Statics → (ℕ → Bool) → ℕ → Frame → ℕ → Option Action
unfolding check_tcp ptr_at
try_farsight_xdp st has_socket rx_queue f len =
    let ihl = bit_and (f 14) 15 in
    if st.source_port_start == 0
    then none
    else if st.source_port_end == 0
    then none
    else if not (ptr_at len 0 14)
    then none
    else if not (f 12 * 256 + f 13 == 2048)
    then some pass
    else if not (ptr_at len 14 20)
    then none
    else if not (f 23 == 6)
    then some pass
    else if ltb ihl 5
    then some pass
    else check_tcp st has_socket rx_queue f len (14 + 4 * ihl)

-- `farsight_xdp`
unfoldable pub farsight_xdp : Statics → (ℕ → Bool) → ℕ → Frame → ℕ → Action
unfolding try_farsight_xdp
farsight_xdp st has_socket rx_queue f len = elim (try_farsight_xdp st has_socket rx_queue f len) [
  | none ↦ pass
  | some action ↦ action
]
