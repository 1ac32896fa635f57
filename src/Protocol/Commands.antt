-- ===== src/Protocol/Commands.antt =====
-- scrutiny/server/protocol/commands: the command classes with their identifiers.
use scrutiny.Prelude.{
  ℕ, ◌+◌, ◌<◌, ◌≡◌, refl, List, [], ◌∷◌, arith, ◌==◌, if◌then◌else◌, Result, ok, err, value_error,
  bit_and, bit_or,
}

pub data Command : Type 0 where
  dummy_command get_info comm_control memory_control user_command datalog_control : Command

-- _cmd_id
unfoldable pub cmd_id : Command → ℕ
cmd_id dummy_command = 0
cmd_id get_info = 1
cmd_id comm_control = 2
cmd_id memory_control = 3
cmd_id user_command = 4
cmd_id datalog_control = 5

unfoldable pub response_id : Command → ℕ
unfolding cmd_id
response_id c = bit_or (cmd_id c) 0x80

unfoldable pub request_id : Command → ℕ
unfolding cmd_id
request_id c = bit_and (cmd_id c) 0x7f

-- The subclasses of BaseCommand, by name.
abbrev pub members : List Command
members =
    comm_control ∷ datalog_control ∷ dummy_command ∷ get_info ∷ memory_control ∷ user_command ∷ []

unfoldable pub from_members : List Command → ℕ → Result Command
from_members [] given = err value_error
from_members (c ∷ cs) given = if request_id c == given then ok c else from_members cs given

unfoldable pub from_command_id : ℕ → Result Command
from_command_id given = from_members members (bit_and given 0x7f)

pub from_command_id-request_id : (c : Command) → from_command_id (request_id c) ≡ ok c
unfolding from_command_id from_members request_id
from_command_id-request_id dummy_command = refl
from_command_id-request_id get_info = refl
from_command_id-request_id comm_control = refl
from_command_id-request_id memory_control = refl
from_command_id-request_id user_command = refl
from_command_id-request_id datalog_control = refl

pub from_command_id-response_id : (c : Command) → from_command_id (response_id c) ≡ ok c
unfolding from_command_id from_members request_id response_id
from_command_id-response_id dummy_command = refl
from_command_id-response_id get_info = refl
from_command_id-response_id comm_control = refl
from_command_id-response_id memory_control = refl
from_command_id-response_id user_command = refl
from_command_id-response_id datalog_control = refl

pub request_id_small : (c : Command) → request_id c < 128
unfolding request_id
request_id_small dummy_command = omega arith
request_id_small get_info = omega arith
request_id_small comm_control = omega arith
request_id_small memory_control = omega arith
request_id_small user_command = omega arith
request_id_small datalog_control = omega arith

pub response_id-request_id : (c : Command) → response_id c ≡ 128 + request_id c
unfolding request_id response_id
response_id-request_id dummy_command = refl
response_id-request_id get_info = refl
response_id-request_id comm_control = refl
response_id-request_id memory_control = refl
response_id-request_id user_command = refl
response_id-request_id datalog_control = refl

-- An identifier is found only by its low seven bits.
pub request_id-from_members :
    (cs : List Command) (given : ℕ) (c : Command)
    → from_members cs given ≡ ok c
    → request_id c ≡ given
unfolding from_members
request_id-from_members [] given c e = cc
request_id-from_members (d ∷ cs) given c e = ground (arith, request_id-from_members cs given c)

pub request_id-from_command_id :
    (given : ℕ) (c : Command) → from_command_id given ≡ ok c → request_id c ≡ bit_and given 0x7f
unfolding from_command_id
request_id-from_command_id given c e = request_id-from_members members (bit_and given 0x7f) c e
