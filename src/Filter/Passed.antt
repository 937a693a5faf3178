-- ===== src/Filter/Passed.antt =====
-- What the filter hands to the responder never makes it panic.
use Prim.Native.Nat.{bit_and}
use farsight.Prelude.{ℕ, ◌+◌, ◌*◌, ◌≤◌, ◌≡◌, ap, Bool, subst, arith}
use farsight.Words.{bit_and-pow}
use farsight.Tcp.{Frame}
use farsight.Filter.{
  Statics, Action, redirect, ptr_at, redirect_or_pass, check_tcp, try_farsight_xdp, farsight_xdp,
}
use farsight.Responder.Cut.{Cut, panics, ignored, segment, read_header, tcp_start, cut}

-- What a redirected frame has been tested for.
IsTested : Statics → Frame → ℕ → Type 0
IsTested st f len =
    let tcp = 14 + 4 * bit_and (f 14) 15 in
    (34 ≤ len)
    × (5 ≤ bit_and (f 14) 15)
    × (tcp + 20 ≤ len)
    × (st.source_port_start ≤ f (tcp + 2) * 256 + f (tcp + 3))
    × (f (tcp + 2) * 256 + f (tcp + 3) ≤ st.source_port_end)

-- An action, and what it says of the frame.
Tells : Statics → Frame → ℕ → Action → Type 0
Tells st f len (redirect q) = IsTested st f len
Tells st f len _ = 0 ≤ 0

farsight_xdp-Tells :
    (st : Statics) (has_socket : ℕ → Bool) (rx_queue : ℕ) (f : Frame) (len : ℕ)
    → Tells st f len (farsight_xdp st has_socket rx_queue f len)
unfolding farsight_xdp try_farsight_xdp check_tcp ptr_at redirect_or_pass Tells IsTested
farsight_xdp-Tells st has_socket rx_queue f len = ground arith

-- A cut without a panic, of a segment to one of the ports from `lo` to `hi` if there is one.
abbrev pub SafeCut : ℕ → ℕ → Cut → Type 0
SafeCut lo hi panics = 1 ≤ 0
SafeCut lo hi ignored = 0 ≤ 0
SafeCut lo hi (segment ip hdr payload) = (lo ≤ hdr.dest_port) × (hdr.dest_port ≤ hi)

tested-tcp_start : (f : Frame) → tcp_start f ≡ 14 + 4 * bit_and (f 14) 15
unfolding tcp_start
tested-tcp_start f = omega (arith, bit_and-pow (f 14) 4)

tested-SafeCut :
    (st : Statics) (f : Frame) (len : ℕ)
    → IsTested st f len
    → SafeCut st.source_port_start st.source_port_end (cut f len)
unfolding cut read_header IsTested
tested-SafeCut st f len (enough, five, fits, low, high) =
    let tcp = 14 + 4 * bit_and (f 14) 15 in
    let next : f (tcp + 2 + 1) ≡ f (tcp + 3) = ap f (omega arith) in
    rw (tested-tcp_start f, next) (ground arith)

-- Let the filter in the kernel redirect a frame to a receive ring. Then `process_packet` cuts it
-- without a panic, whatever its bytes and its length are, and a segment that it cuts out is to one
-- of the program's source ports.
pub farsight_xdp-SafeCut :
    (st : Statics) (has_socket : ℕ → Bool) (rx_queue q : ℕ) (f : Frame) (len : ℕ)
    → farsight_xdp st has_socket rx_queue f len ≡ redirect q
    → SafeCut st.source_port_start st.source_port_end (cut f len)
unfolding Tells
farsight_xdp-SafeCut st has_socket rx_queue q f len redirected =
    tested-SafeCut st f len
      (subst (Tells st f len) redirected (farsight_xdp-Tells st has_socket rx_queue f len))
