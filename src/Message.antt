-- ===== src/Message.antt =====
-- The data of a synchronisation: pkg/client/client.go's NAT state, which the conduit's API reads
-- and writes, and pkg/failover/failover.frpc.go's messages, which travel between the nodes. A Go
-- pointer is an `Option`; a uint16 or uint32 is a number whose range `FitsApi` and the codec state.
pub mod Codec
use architect_networking.Base.{ℕ, ◌<◌, String, Bool, Option, none, some, List, All, ℤ}

pub record NatKey : Type 0 where
  pub destination_ip : String
  pub destination_port : ℕ  -- uint16
  pub source_ip : String
  pub source_port : ℕ  -- uint16

pub record NatValue : Type 0 where
  pub last_seen : String
  pub translate_ip : String
  pub translate_port : ℕ  -- uint16

pub record NatKeyValuePair : Type 0 where
  pub key : NatKey
  pub value : NatValue

pub record NatBitmapPair : Type 0 where
  pub bitmap : String
  pub destination_ip : Option String
  pub last_chunk : ℕ  -- uint16
  pub natip : String

pub record NatState : Type 0 where
  pub ips : List String
  pub nat_ports : List NatBitmapPair
  pub tcp_inbound : List NatKeyValuePair
  pub tcp_outbound : List NatKeyValuePair
  pub udp_inbound : List NatKeyValuePair
  pub udp_outbound : List NatKeyValuePair

-- The values that the uint16 fields can hold.
abbrev pub u16_mod : ℕ
u16_mod = 65536

abbrev pub PairFits : NatKeyValuePair → Type 0
PairFits kv =
    (kv.key.destination_port < u16_mod)
    × (kv.key.source_port < u16_mod)
    × (kv.value.translate_port < u16_mod)

abbrev pub BitmapFits : NatBitmapPair → Type 0
BitmapFits bp = bp.last_chunk < u16_mod

pub record FitsApi (s : NatState) : Type 0 where
  pub tcp_inbound : All PairFits s.tcp_inbound
  pub tcp_outbound : All PairFits s.tcp_outbound
  pub udp_inbound : All PairFits s.udp_inbound
  pub udp_outbound : All PairFits s.udp_outbound
  pub nat_ports : All BitmapFits s.nat_ports

-- `GetStateResponse` and `SetStateResponse`: the status code of the HTTP response, if there is
-- one, and the decoded body of a 200. The raw body is read by error messages alone.
pub record GetStateResponse : Type 0 where
  pub http_response : Option ℕ
  pub json200 : Option NatState

pub record SetStateResponse : Type 0 where
  pub http_response : Option ℕ

abbrev pub status_of : Option ℕ → ℕ
status_of (some code) = code
status_of none = 0

unfoldable pub get_status_code : GetStateResponse → ℕ
get_status_code r = status_of r.http_response

unfoldable pub set_status_code : SetStateResponse → ℕ
set_status_code r = status_of r.http_response

-- The messages. Each carries an `error` and `flags` of its own.
pub record FailoverNatKey : Type 0 where
  pub error : Option String
  pub flags : ℕ  -- uint8
  pub destination_ip : String
  pub destination_port : ℕ  -- uint32
  pub source_ip : String
  pub source_port : ℕ  -- uint32

pub record FailoverNatValue : Type 0 where
  pub error : Option String
  pub flags : ℕ
  pub last_seen : String
  pub translate_ip : String
  pub translate_port : ℕ  -- uint32

pub record FailoverNatKeyValuePair : Type 0 where
  pub error : Option String
  pub flags : ℕ
  pub key : Option FailoverNatKey
  pub value : Option FailoverNatValue

pub record FailoverNatBitmapPair : Type 0 where
  pub error : Option String
  pub flags : ℕ
  pub bitmap : String
  pub destination_ip : String
  pub last_chunk : ℕ  -- uint32
  pub natip : String

pub record FailoverNatState : Type 0 where
  pub error : Option String
  pub flags : ℕ
  pub ips : List String
  pub tcp_inbound : List (Option FailoverNatKeyValuePair)
  pub tcp_outbound : List (Option FailoverNatKeyValuePair)
  pub udp_inbound : List (Option FailoverNatKeyValuePair)
  pub udp_outbound : List (Option FailoverNatKeyValuePair)
  pub nat_ports : List (Option FailoverNatBitmapPair)

pub record FailoverSyncStateRequest : Type 0 where
  pub error : Option String
  pub flags : ℕ
  pub request_id : String

pub record FailoverSyncStateResponse : Type 0 where
  pub error : Option String
  pub flags : ℕ
  pub request_id : String
  pub success : Bool
  pub error_message : String
  pub state : Option FailoverNatState

pub record FailoverHealthCheckRequest : Type 0 where
  pub error : Option String
  pub flags : ℕ
  pub request_id : String

pub record FailoverHealthCheckResponse : Type 0 where
  pub error : Option String
  pub flags : ℕ
  pub request_id : String
  pub success : Bool
  pub node_role : String
  pub instance_id : String

pub record FailoverHeartbeatRequest : Type 0 where
  pub error : Option String
  pub flags : ℕ
  pub request_id : String
  pub timestamp : ℤ  -- int64
  pub primary_eni : String

pub record FailoverHeartbeatResponse : Type 0 where
  pub error : Option String
  pub flags : ℕ
  pub request_id : String
  pub success : Bool
  pub timestamp : ℤ  -- int64
