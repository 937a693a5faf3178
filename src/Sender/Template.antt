-- ===== src/Sender/Template.antt =====
-- What `Sender::new` puts into the frames and the sums, and what a valid checksum is.
use farsight.Prelude.{ℕ, ◌+◌, ◌-◌, ◌*◌, ◌/◌, ◌%◌, ◌^◌, ◌≡◌, refl, [], ◌∷◌, arith, false}
use farsight.Tcp.{octets, ipv4_sum, sum_body, sum_loop, Frame}
use farsight.Tcp.Sums.{internet_sum, ones_complement, slice}
use farsight.Sender.{Shared, Sender, template, fixed_tcp_sum, fixed_ipv4_sum}

-- The bytes of a frame that no later packet changes.
abbrev pub IsTemplate : ℕ → Frame → Type 0
IsTemplate source f =
    ((f 14 ≡ 69) × (f 15 ≡ 0))
    × ((f 18 ≡ 0) × (f 19 ≡ 1) × (f 20 ≡ 64) × (f 21 ≡ 0) × (f 22 ≡ 64) × (f 23 ≡ 6))
    × ((f 26 ≡ source / 2 ^ 24 % 256)
        × (f 27 ≡ source / 2 ^ 16 % 256)
        × (f 28 ≡ source / 2 ^ 8 % 256)
        × (f 29 ≡ source % 256))
    × ((f 46 ≡ 112) × (f 48 ≡ 128) × (f 49 ≡ 0) × (f 52 ≡ 0) × (f 53 ≡ 0))
    × ((f 54 ≡ 2) × (f 55 ≡ 4) × (f 56 ≡ 5) × (f 57 ≡ 60))
    × ((f 58 ≡ 1) × (f 59 ≡ 1) × (f 60 ≡ 4) × (f 61 ≡ 2))

pub template-IsTemplate :
    (shared : Shared) (f : Frame) (g0 g1 g2 g3 g4 g5 i0 i1 i2 i3 i4 i5 : ℕ)
    → shared.gateway ≡ g0 ∷ g1 ∷ g2 ∷ g3 ∷ g4 ∷ g5 ∷ []
    → shared.interface ≡ i0 ∷ i1 ∷ i2 ∷ i3 ∷ i4 ∷ i5 ∷ []
    → IsTemplate shared.source_ip (template shared f)
unfolding template
template-IsTemplate shared f g0 g1 g2 g3 g4 g5 i0 i1 i2 i3 i4 i5 gateway interface =
    rw (gateway, interface)
      (
        (refl, refl),
        (refl, refl, refl, refl, refl, refl),
        (refl, refl, refl, refl),
        (refl, refl, refl, refl, refl),
        (refl, refl, refl, refl),
        (refl, refl, refl, refl),
      )

-- The header of Ethernet: to the gateway, from the interface, of the type of IP.
abbrev pub IsFramed : Shared → Frame → Type 0
IsFramed shared f =
    (slice f 0 6 ≡ shared.gateway) × (slice f 6 6 ≡ shared.interface) × (f 12 ≡ 8) × (f 13 ≡ 0)

pub template-IsFramed :
    (shared : Shared) (f : Frame) (g0 g1 g2 g3 g4 g5 i0 i1 i2 i3 i4 i5 : ℕ)
    → shared.gateway ≡ g0 ∷ g1 ∷ g2 ∷ g3 ∷ g4 ∷ g5 ∷ []
    → shared.interface ≡ i0 ∷ i1 ∷ i2 ∷ i3 ∷ i4 ∷ i5 ∷ []
    → IsFramed shared (template shared f)
unfolding template slice
template-IsFramed shared f g0 g1 g2 g3 g4 g5 i0 i1 i2 i3 i4 i5 gateway interface =
    rw (gateway, interface) (refl, refl, refl, refl)

-- The sums that the sender keeps are those of its template.
abbrev pub HasSums : Shared → Sender → Type 0
HasSums shared s =
    (s.ipv4_checksum ≡ fixed_ipv4_sum shared)
    × (s.tcp_checksum ≡ fixed_tcp_sum shared)
    × (s.checksum_offload ≡ shared.offload)

pub fixed_ipv4_sum_lem :
    (shared : Shared) → fixed_ipv4_sum shared ≡ 50487 + ipv4_sum (octets shared.source_ip)
unfolding fixed_ipv4_sum sum_body sum_loop ipv4_sum
fixed_ipv4_sum_lem shared = omega arith

pub fixed_tcp_sum_lem :
    (shared : Shared)
    → shared.offload ≡ false
    → fixed_tcp_sum shared ≡ 34 + 64579 + ipv4_sum (octets shared.source_ip)
unfolding fixed_tcp_sum sum_body sum_loop ipv4_sum
fixed_tcp_sum_lem shared direct = rw direct (omega arith)

-- A receiver's tests: the sum over the header of IP, and over the pseudo-header and the segment of TCP.
abbrev pub tcp_length : Frame → ℕ
tcp_length f = f 16 * 256 + f 17 - 20

abbrev pub tcp_sum : Frame → ℕ
tcp_sum f =
    internet_sum (slice f 26 8) + f 23 + tcp_length f + internet_sum (slice f 34 (tcp_length f))

abbrev pub Verifies : Frame → Type 0
Verifies f =
    (ones_complement (internet_sum (slice f 14 20)) ≡ 65535) × (ones_complement (tcp_sum f) ≡ 65535)
