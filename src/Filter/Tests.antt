-- ===== src/Filter/Tests.antt =====
-- A frame that the filter redirects, and one that it passes on.
use farsight.Prelude.{ℕ, ◌≡◌, refl, Bool, true, List, [], ◌∷◌, get_or}
use farsight.Tcp.{Frame}
use farsight.Responder.Cut.{cut}
use farsight.Filter.{
  Statics, pass, redirect, ptr_at, redirect_or_pass, check_tcp, try_farsight_xdp, farsight_xdp,
}
use farsight.Filter.Passed.{SafeCut, farsight_xdp-SafeCut}

abbrev statics : Statics
statics = record { source_port_start = 61000; source_port_end = 61010; usable_queues = 4 }

-- A SYN-ACK of a host, to port 61001.
abbrev answer_bytes : List ℕ
answer_bytes =
    1
    ∷ 2
    ∷ 3
    ∷ 4
    ∷ 5
    ∷ 6
    ∷ 7
    ∷ 8
    ∷ 9
    ∷ 10
    ∷ 11
    ∷ 12
    ∷ 8
    ∷ 0
    ∷ (69
        ∷ 0
        ∷ 0
        ∷ 40
        ∷ 0
        ∷ 1
        ∷ 64
        ∷ 0
        ∷ 64
        ∷ 6
        ∷ 0
        ∷ 0
        ∷ 192
        ∷ 168
        ∷ 1
        ∷ 1
        ∷ 10
        ∷ 0
        ∷ 0
        ∷ 1
        ∷ (99 ∷ 221 ∷ 238 ∷ 73 ∷ 0 ∷ 0 ∷ 0 ∷ 7 ∷ 0 ∷ 0 ∷ 0 ∷ 9 ∷ 80 ∷ 18 ∷ 0 ∷ 0 ∷ 0 ∷ 0 ∷ 0 ∷ 0
            ∷ []))

abbrev syn_ack_answer : Frame
syn_ack_answer i = get_or answer_bytes i 0

abbrev all_queues : ℕ → Bool
all_queues q = true

redirected : farsight_xdp statics all_queues 6 syn_ack_answer 54 ≡ redirect 2
unfolding farsight_xdp try_farsight_xdp check_tcp ptr_at redirect_or_pass
redirected = refl

cut_short : farsight_xdp statics all_queues 6 syn_ack_answer 53 ≡ pass
unfolding farsight_xdp try_farsight_xdp check_tcp ptr_at redirect_or_pass
cut_short = refl

farsight_xdp-SafeCut_example : SafeCut 61000 61010 (cut syn_ack_answer 54)
farsight_xdp-SafeCut_example =
    farsight_xdp-SafeCut statics all_queues 6 2 syn_ack_answer 54 redirected
