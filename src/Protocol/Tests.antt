-- ===== src/Protocol/Tests.antt =====
-- Two frames (scrutiny/server/protocol) under the round trips.
use scrutiny.Prelude.{ℕ, List, ◌≡◌, refl, [], ◌∷◌, arith, ok, err, out_of_fuel, Bytes, All, IsByte}
use scrutiny.Protocol.Commands
use scrutiny.Protocol.Crc
use scrutiny.Protocol.Commands.{Command}
use scrutiny.Protocol.Request
use scrutiny.Protocol.Request.{Request}
use scrutiny.Protocol.Request.RoundTrip.{from_bytes-to_bytes_request}
use scrutiny.Protocol.Request.Canonical.{to_bytes-from_bytes}
use scrutiny.Protocol.Response
use scrutiny.Protocol.Response.{Response}
use scrutiny.Protocol.Response.RoundTrip.{from_bytes-to_bytes_response}
use scrutiny.Protocol.Response.TopBit.{from_bytes-top_bit}
use scrutiny.Protocol.CommControl
use scrutiny.Protocol.CommControl.{DeviceParams}
use scrutiny.Protocol.CommControl.RoundTrip.{Fit, parse_response-respond_comm_get_params}
use scrutiny.Prelude.Dict
use scrutiny.Protocol.MemoryControl
use scrutiny.Protocol.MemoryControl.{AddressFormat, parse_read_response, parse_write_request}
use scrutiny.Protocol.MemoryControl.Ranges.{parse_write_response}
use scrutiny.Protocol.MemoryControl.Rpv.{parse_read_rpv_response}
use scrutiny.Protocol.MemoryControl.Masked.{parse_masked_write_request, parse_write_rpv_request}
use scrutiny.Protocol.MemoryControl.Fuel.{parse_read_response_ends}
use scrutiny.Protocol.MemoryControl.RoundTrip.{
  BlockFits, parse_write_request-write_memory_blocks,
  parse_read_response-respond_read_memory_blocks,
}

abbrev request : Request
request = record {
  command = Command.memory_control;
  subfn = 1;
  payload = 16 ∷ 0 ∷ 4 ∷ [];
  response_payload_size = 12;
}

abbrev response : Response
response = record {
  command = Command.get_info;
  subfn = 2;
  code = Response.ResponseCode.busy;
  payload = 255 ∷ [];
}

from_bytes-to_bytes_request_example :
    (d : Bytes) × (Request.to_bytes request ≡ ok d)
    × (Request.from_bytes d ≡ ok (record request { response_payload_size = 0 }))
from_bytes-to_bytes_request_example =
    from_bytes-to_bytes_request request (omega arith) (omega arith)

from_bytes-to_bytes_response_example :
    (d : Bytes) × (Response.to_bytes response ≡ ok d) × (Response.from_bytes d ≡ ok response)
from_bytes-to_bytes_response_example =
    from_bytes-to_bytes_response response (omega arith) (omega arith)

from_bytes-top_bit_example :
    Response.from_bytes (129 ∷ 2 ∷ 0 ∷ 0 ∷ 0 ∷ 1 ∷ 2 ∷ 3 ∷ 4 ∷ [])
    ≡ Response.from_bytes (1 ∷ 2 ∷ 0 ∷ 0 ∷ 0 ∷ 1 ∷ 2 ∷ 3 ∷ 4 ∷ [])
from_bytes-top_bit_example = from_bytes-top_bit 1 (2 ∷ 0 ∷ 0 ∷ 0 ∷ 1 ∷ 2 ∷ 3 ∷ 4 ∷ []) (omega arith)

abbrev received : Request
received = record request { response_payload_size = 0 }

abbrev frame : Bytes
frame = 3 ∷ 1 ∷ 0 ∷ 3 ∷ 16 ∷ 0 ∷ 4 ∷ 110 ∷ 38 ∷ 222 ∷ 193 ∷ []

frame_bytes : All IsByte frame
frame_bytes = ground arith

frame_read : Request.from_bytes frame ≡ ok received
unfolding Request.from_bytes Request.from_header Request.check Request.make_bytes_no_crc
    Commands.from_command_id Commands.from_members Commands.request_id Commands.cmd_id Crc.crc32
    Crc.crc_loop Crc.crc_bits Crc.crc_bit Crc.not32
frame_read = refl

to_bytes-from_bytes_example : Request.to_bytes received ≡ ok frame
to_bytes-from_bytes_example = to_bytes-from_bytes frame received frame_bytes frame_read

abbrev params : DeviceParams
params = record {
  max_rx_data_size = 128;
  max_tx_data_size = 256;
  max_bitrate_bps = 100000;
  heartbeat_timeout_us = 5000000;
  rx_timeout_us = 50000;
  address_size_byte = 4;
}

params-Fit : Fit params
params-Fit = record {
  rx = omega arith;
  tx = omega arith;
  bitrate = omega arith;
  heartbeat = omega arith;
  timeout = omega arith;
  address = omega arith;
}

parse_response-respond_comm_get_params_example :
    (r : Response) × (CommControl.respond_comm_get_params params ≡ ok r)
    × (CommControl.parse_response r ≡ ok (CommControl.CommData.params_given params))
parse_response-respond_comm_get_params_example =
    parse_response-respond_comm_get_params params params-Fit

abbrev blocks : List (ℕ × Bytes)
blocks = (4096, 1 ∷ 2 ∷ []) ∷ (8192, 3 ∷ []) ∷ []

blocks-BlockFits : All (BlockFits MemoryControl.bits_64) blocks
blocks-BlockFits = ground arith

parse_write_request-write_memory_blocks_example :
    (q : Request) × (MemoryControl.write_memory_blocks MemoryControl.bits_64 blocks ≡ ok q)
    × (MemoryControl.parse_write_request MemoryControl.bits_64 q ≡ ok blocks)
    × (q.command ≡ Command.memory_control)
    × (q.subfn ≡ 2)
parse_write_request-write_memory_blocks_example =
    parse_write_request-write_memory_blocks MemoryControl.bits_64 (4096, 1 ∷ 2 ∷ [])
      ((8192, 3 ∷ []) ∷ []) blocks-BlockFits

parse_read_response-respond_read_memory_blocks_example :
    (r : Response) × (MemoryControl.respond_read_memory_blocks MemoryControl.bits_64 blocks ≡ ok r)
    × (MemoryControl.parse_read_response MemoryControl.bits_64 r ≡ ok blocks)
    × (r.command ≡ Command.memory_control)
    × (r.subfn ≡ 1)
    × (r.code ≡ Response.ok_code)
parse_read_response-respond_read_memory_blocks_example =
    parse_read_response-respond_read_memory_blocks MemoryControl.bits_64 (4096, 1 ∷ 2 ∷ [])
      ((8192, 3 ∷ []) ∷ []) blocks-BlockFits

-- An answer that stops in the head of a block, and a request that does.
abbrev cut_answer : Response
cut_answer = record response { payload = 0 ∷ 0 ∷ [] }

parse_read_response_ends_example :
    (¬ (parse_read_response AddressFormat.bits_32 cut_answer ≡ err out_of_fuel))
    × (¬ (parse_write_response AddressFormat.bits_32 cut_answer ≡ err out_of_fuel))
    × (¬ (parse_read_rpv_response Dict.empty cut_answer ≡ err out_of_fuel))
    × (¬ (parse_write_request AddressFormat.bits_32 request ≡ err out_of_fuel))
    × (¬ (parse_masked_write_request AddressFormat.bits_32 request ≡ err out_of_fuel))
    × (¬ (parse_write_rpv_request Dict.empty request ≡ err out_of_fuel))
parse_read_response_ends_example =
    parse_read_response_ends AddressFormat.bits_32 Dict.empty cut_answer request
