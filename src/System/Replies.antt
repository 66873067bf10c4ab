-- ===== src/System/Replies.antt =====
-- What the replies of a server to a command do at the end of the client that waits for them.
use iec104_python.Base.{
  ℕ, ◌≤◌, ◌<◌, ◌≡◌, ◌≢◌, refl, sym, Bool, true, false, ◌==◌, elem, List, [], ◌∷◌, some, ok, arith,
}
use iec104_python.Protocol.{cot_activation, cot_activation_con}
use iec104_python.Point.Data.{DataPoint}
use iec104_python.Point.Update.{OnReceive, ResponseState, success, failure, no_response}
use iec104_python.Message.Incoming.{Asdu, IncomingMessage, extract_meta_data}
use iec104_python.Message.Objects.{command_types}
use iec104_python.Connection.State.{CmdId, Connection, is_open}
use iec104_python.Connection.Pending.{Pending, find, erase}
use iec104_python.Connection.Link.{Response, response_id, set_command_success}
use iec104_python.Connection.Command.{
  Move, responded, move, moves, ends_any, Wake, notified, timed_out, finish, returned, await_loop,
  await_command_success, cmd_id,
}
use iec104_python.Connection.Sending.{response_found}
use iec104_python.Server.Replies.{Output, sent}
use iec104_python.Server.Execution.{confirmation}
use iec104_python.Client.Reports.{client_asdu_handler, handle_message, response_of}
use iec104_python.System.Link.{End, Codec, take_output, take_outputs}

-- The message of an ASDU with one object, at the start.
abbrev pub message_of : Asdu → IncomingMessage
message_of a = record {
  type = a.type;
  cot = a.cot;
  ca = a.ca;
  oa = a.oa;
  negative = a.negative;
  sequence = a.sequence;
  test = a.test;
  number_of_object = 1;
  ioa = a.ioa;
  position = 0;
  position_reset = true;
  position_valid = true;
}

-- The ASDU that the library makes of a command: one object of a command type, not negative, with the
-- cause ACTIVATION, for a single station.
pub record IsCommand (a : Asdu) : Type 0 where
  pub command_type : elem a.type command_types ≡ true
  pub activation : a.cot ≡ cot_activation
  pub one_object : a.elements ≡ 1
  pub no_sequence : a.sequence ≡ false
  pub single_station : a.ca ≢ 65535

abbrev pub InRange : ℕ → Type 0
InRange t = (45 ≤ t) × (t < 65)

pub command-InRange : (t : ℕ) → elem t command_types ≡ true → InRange t
command-InRange t h = ground arith

pub extract-command :
    (a : Asdu)
    → InRange a.type
    → a.elements ≡ 1
    → a.sequence ≡ false
    → extract_meta_data a ≡ ok (message_of a)
unfolding extract_meta_data
extract-command a t n s = ground arith

-- The identifier that the client gives a command.
abbrev pub id_of : Asdu → CmdId
id_of a = cmd_id a.ca a.type a.ioa

-- The confirmation of a command on the server's side.
abbrev confirmed : Bool → Asdu → Asdu
confirmed negative a = record a { cot = cot_activation_con; negative = negative }

confirmed_response : Bool → Asdu → Response
confirmed_response negative a = response_of (message_of (confirmed negative a))

take_confirmation :
    (now : ℕ) (callback : DataPoint → OnReceive) (codec : Codec) (a : Asdu) (negative : Bool)
    (e : End)
    → InRange a.type
    → a.elements ≡ 1
    → a.sequence ≡ false
    → is_open e.link ≡ true
    → (take_output now callback codec (sent (confirmed negative a)) e).link
      ≡ set_command_success (confirmed_response negative a) e.link
unfolding take_output client_asdu_handler handle_message confirmed_response
take_confirmation now callback codec a negative e t n s o =
    ground (arith, extract-command (confirmed negative a) t n s)

-- What the client has recorded of the command once the replies are there.
pub recorded : ResponseState → ℕ
recorded success = 1
recorded failure = 0
recorded no_response = 3

pub recorded-confirmation :
    (now : ℕ) (callback : DataPoint → OnReceive) (codec : Codec) (a : Asdu) (r : ResponseState)
    (e : End)
    → InRange a.type
    → a.elements ≡ 1
    → a.sequence ≡ false
    → is_open e.link ≡ true
    → find (id_of a) e.link.expected ≡ some 3
    → find (id_of a) (take_outputs now callback codec (confirmation r a) e).link.expected
      ≡ some (recorded r)
unfolding take_outputs recorded confirmed_response
recorded-confirmation now callback codec a no_response e t n s o h = h
recorded-confirmation now callback codec a failure e t n s o h =
    rw (take_confirmation now callback codec a true e t n s o)
      (response_found e.link (confirmed_response true a) 3 h)
recorded-confirmation now callback codec a success e t n s o h =
    rw (take_confirmation now callback codec a false e t n s o)
      (response_found e.link (confirmed_response false a) 3 h)

-- What the connection's thread does to the map of awaited answers when it takes the replies.
abbrev pub answers_of : List Output → List Move
answers_of [] = []
answers_of (sent a ∷ outputs) = responded (id_of a) a.negative ∷ answers_of outputs
answers_of (_ ∷ outputs) = answers_of outputs

set_command_success-move :
    (r : Response) (c : Connection)
    → (set_command_success r c).expected ≡ move (responded (response_id r) r.negative) c.expected
unfolding set_command_success move
set_command_success-move r c = ground arith

pub answers_of-confirmation :
    (now : ℕ) (callback : DataPoint → OnReceive) (codec : Codec) (a : Asdu) (r : ResponseState)
    (e : End)
    → InRange a.type
    → a.elements ≡ 1
    → a.sequence ≡ false
    → is_open e.link ≡ true
    → moves (answers_of (confirmation r a)) e.link.expected
      ≡ (take_outputs now callback codec (confirmation r a) e).link.expected
unfolding take_outputs confirmed_response moves
answers_of-confirmation now callback codec a no_response e t n s o = refl
answers_of-confirmation now callback codec a failure e t n s o =
    rw (take_confirmation now callback codec a true e t n s o)
      (sym (set_command_success-move (confirmed_response true a) e.link))
answers_of-confirmation now callback codec a success e t n s o =
    rw (take_confirmation now callback codec a false e t n s o)
      (sym (set_command_success-move (confirmed_response false a) e.link))

-- The replies come while the thread waits; the wait is woken by them, if there are any, and ends with
-- its time.
abbrev pub answered_or_late : List Output → List (List Move × Wake)
answered_or_late outputs = (answers_of outputs, notified) ∷ ([], timed_out) ∷ []

-- No reply comes while the thread waits.
abbrev pub late : List (List Move × Wake)
late = ([], timed_out) ∷ []

pub confirmation-kept :
    (id : CmdId) (r : ResponseState) (a : Asdu)
    → ends_any id (answers_of (confirmation r a)) ≡ false
confirmation-kept id no_response a = refl
confirmation-kept id failure a = refl
confirmation-kept id success a = refl

pub wait_ends :
    (id : CmdId) (v : ℕ) (outputs : List Output) (m : Pending)
    → find id m ≡ some 3
    → ends_any id (answers_of outputs) ≡ false
    → find id (moves (answers_of outputs) m) ≡ some v
    → await_command_success id (answered_or_late outputs) m
      ≡ returned (v == 1) (erase id (moves (answers_of outputs) m))
unfolding await_command_success await_loop finish
wait_ends id v outputs m h kept found = ground (arith, h, kept, found)

pub wait_late :
    (id : CmdId) (v : ℕ) (m : Pending)
    → find id m ≡ some v
    → await_command_success id late m ≡ returned false (erase id m)
unfolding await_command_success await_loop finish
wait_late id v m h = ground arith

abbrev pub is_success : ResponseState → Bool
is_success success = true
is_success _ = false

pub recorded-is_success : (r : ResponseState) → (recorded r == 1) ≡ is_success r
unfolding recorded
recorded-is_success success = refl
recorded-is_success failure = refl
recorded-is_success no_response = refl
