-- ===== src/Responder/Types.antt =====
-- farsight/src/controller/responder.rs: its data, and the traits that it calls as an interface.
use farsight.Prelude.{ℕ, Bool, List, [], Option}

-- `Result<Banner, ParseError>` of a `Parser`.
pub data ParseResult (B : Type 0) : Type 0 where
  banner : B → ParseResult B
  invalid incomplete : ParseResult B

pub data Flag : Type 0 where
  rst ack : Flag

-- What the sender is asked to send: the address, the two ports, and the numbers `ack` and `seq` of
-- the packet that is answered; or a SYN to a template's address and port.
pub data Packet : Type 0 where
  control : Flag → ℕ → ℕ → ℕ → ℕ → ℕ → Packet
  with_data : ℕ → ℕ → ℕ → ℕ → ℕ → List ℕ → Packet
  syn : ℕ × ℕ → Packet

-- `PortAdapter`, `IpAdapter`, `Payload`, `Parser` and `Sender`, with the hash of a banner and the
-- cookie. `send` says whether it succeeded.
pub record Services : Type 1 where
  pub PortState : Type 0
  pub IpState : Type 0
  pub SenderState : Type 0
  pub Banner : Type 0
  pub port_result : PortState → ℕ → ℕ → Option ℕ → PortState × Option (ℕ × ℕ)
  pub ip_result : IpState → ℕ → IpState
  pub build : ℕ → ℕ → Option (List ℕ)
  pub parse : List ℕ → ParseResult Banner
  pub hash64 : Banner → ℕ
  pub cookie : ℕ → ℕ → ℕ → ℕ
  pub send : SenderState → Packet → SenderState × Bool

-- `State`, for a connection; its address and port are its key. Time is a number.
pub record State : Type 0 where
  pub data_received : List ℕ
  pub next_expected_seq : ℕ
  pub next_expected_ack : ℕ
  pub reorder_buffer : List (ℕ × List ℕ)
  pub expires_at : ℕ

pub record Config : Type 0 where
  pub seed : ℕ
  pub timeout : ℕ
  pub max_reorder_bytes : ℕ
  pub max_reorder_segments : ℕ

-- The fields of `TcpHdr` that the handlers read.
pub record TcpHdr : Type 0 where
  pub source_port : ℕ
  pub dest_port : ℕ
  pub seq : ℕ
  pub ack_number : ℕ
  pub flags : ℕ

-- What `process_packet` cuts out of a frame, and when it is handled.
pub record Segment : Type 0 where
  pub time : ℕ
  pub ip : ℕ
  pub hdr : TcpHdr
  pub payload : List ℕ

-- What `receive` has for a tick: an error, nothing, or a batch.
pub data Arrival : Type 0 where
  receive_failed nothing_arrived : Arrival
  arrived : List Segment → Arrival

-- The segments that a tick handles.
abbrev pub arrived_segments : Arrival → List Segment
arrived_segments receive_failed = []
arrived_segments nothing_arrived = []
arrived_segments (arrived batch) = batch

pub record Responder (s : Services) : Type 0 where
  pub ports : s.PortState
  pub ips : s.IpState
  pub sender : s.SenderState
  pub connections : List ((ℕ × ℕ) × State)
  pub expiries : List (ℕ × (ℕ × ℕ))
  pub pending_expiry : Option (ℕ × (ℕ × ℕ))
  pub scanlings : List ((ℕ × ℕ) × s.Banner)
