-- ===== src/Server/Reader.antt =====
-- `sr_read_from_server_expect` of 20100117_RouterAssign_1/router/sr_vns_comm.c with the handlers of
-- the server's messages. The printing of the server's texts is not modelled.
pub mod Framing
pub mod Delivery
pub mod Ready
pub mod Routing
use internet_course.Base.{
  ℕ, zero, suc, ◌+◌, ◌-◌, ◌%◌, ◌^◌, ◌≡◌, Bool, true, false, ◌&&◌, Option, none, some, List, [], ◌∷◌,
  ◌++◌, length, take, drop, get_or, map, if◌then◌else◌, ◌==◌, leb, ltb,
}
use internet_course.Base.Result.{
  Result, ok, fault, Cmd, pure, raise, need, guard, get_state, out_of_bounds, ◌>>=◌, ◌>>◌,
}
use internet_course.Bytes.{slice, splice, word_le, bytes_le, htonl, ntohl}
use internet_course.Iface.{SrIf}
use internet_course.Iface.Hardware.{sr_handle_hwinfo}
use internet_course.Route.{sr_verify_routing_table}
use internet_course.Router.{SrInstance, Env}
use internet_course.Router.Filter.{sr_arp_req_not_for_us}
use internet_course.Router.Send.{log_packet, vnspacket}
use internet_course.Server.Command.{
  vnsclose, vnsbanner, vnshwinfo, vns_rtable, vns_auth_request, vns_auth_reply, vns_auth_status,
}
use internet_course.Router.Handle.{sr_handlepacket}
use internet_course.Server.Socket.{Event, read_all}
use internet_course.Server.Session.{
  Session, World, Status, one, nought, minus_one, c_string, on_router, send,
}

-- "rtable."
abbrev pub rtable_prefix : List ℕ
rtable_prefix = 114 ∷ 116 ∷ 97 ∷ 98 ∷ 108 ∷ 101 ∷ 46 ∷ []

-- `fwrite` to the new file.
unfoldable pub write_file : List ℕ → List ℕ → Cmd Session Bool
write_file name bytes s = ok (true, record s { files = (name, bytes) ∷ s.files })

-- The name in the message goes into an array of 40 bytes, behind the prefix.
unfoldable pub sr_handle_rtable : World → List ℕ → Cmd Session Bool
sr_handle_rtable w rtable = do
  name ← need (c_string (drop 8 rtable)) out_of_bounds
  guard (leb (length name) 32) out_of_bounds
  let size = (ntohl (word_le (slice rtable 0 4)) + (2 ^ 32 - 40)) % 2 ^ 32
  if w.can_write (rtable_prefix ++ name)
      then (guard (leb (40 + size) (length rtable)) out_of_bounds
          >> write_file (rtable_prefix ++ name) (slice rtable 40 size))
      else pure false

-- The 64 bytes of `auth_key` that are hashed: the line, its NUL, and what lay there before.
unfoldable pub key_bytes : World → List ℕ → List ℕ
key_bytes w line = take 64 (take 64 line ++ 0 ∷ w.stack 65)

-- The message `c_auth_reply`: the user's name and the digest behind the header.
unfoldable pub auth_reply : List ℕ → List ℕ → List ℕ
auth_reply user digest =
    bytes_le 4 (htonl (12 + length user + 20))
    ++ (bytes_le 4 (htonl vns_auth_reply) ++ (bytes_le 4 (htonl (length user)) ++ (user ++ digest)))

-- The digest as it is stored, each word in network order.
unfoldable pub digest_bytes : List ℕ → List ℕ
digest_bytes [] = []
digest_bytes (word ∷ words) = bytes_le 4 (htonl word) ++ digest_bytes words

-- The reply with the user's name, if there is a digest.
unfoldable pub send_digest : World → List ℕ → Option (List ℕ) → Cmd Session Bool
send_digest w user none = pure false
send_digest w user (some words) = do
  name ← need (c_string user) out_of_bounds
  send w (auth_reply name (digest_bytes words))

-- With the key at hand: the salt and the key are hashed.
unfoldable pub answer_auth_request : World → List ℕ → List ℕ → Cmd Session Bool
answer_auth_request w req line = do
  let size = (ntohl (word_le (slice req 0 4)) + (2 ^ 32 - 8)) % 2 ^ 32
  guard (leb (8 + size) (length req)) out_of_bounds
  s ← get_state
  send_digest w s.user (w.sha1 (slice req 8 size ++ key_bytes w line))

-- The file must open, and `fgets` must read a line.
unfoldable pub if_key : World → List ℕ → Option (Option (List ℕ)) → Cmd Session Bool
if_key w req none = pure false
if_key w req (some none) = pure false
if_key w req (some (some line)) = answer_auth_request w req line

unfoldable pub sr_handle_auth_request : World → List ℕ → Cmd Session Bool
sr_handle_auth_request w req = if_key w req w.auth_key

unfoldable pub sr_handle_auth_status : List ℕ → Cmd Session Bool
sr_handle_auth_status status = do
  guard (leb 9 (length status)) out_of_bounds
  pure (if get_or status 8 0 == 0 then false else true)

-- The frame goes to the log and to the router unless the filter drops it.
unfoldable pub unless_dropped :
    World → ℕ → ℕ → List ℕ → ℕ → List ℕ → Result Bool → Cmd Session Status
unless_dropped w fuel now packet len interface (fault e) = raise e
unless_dropped w fuel now packet len interface (ok true) = pure one
unless_dropped w fuel now packet len interface (ok false) =
    on_router (log_packet w.env packet len >> sr_handlepacket w.env fuel now packet len interface)
    >> pure one

-- The case VNSPACKET: the frame lies behind the header of 24 bytes, the interface's name in it.
unfoldable pub handle_vnspacket : World → ℕ → ℕ → List ℕ → Cmd Session Status
handle_vnspacket w fuel now buf = do
  let packet = drop 24 buf
  let len = (length buf + (2 ^ 32 - 24)) % 2 ^ 32
  let interface = drop 8 buf
  s ← get_state
  unless_dropped w fuel now packet len interface
      (sr_arp_req_not_for_us s.router packet len interface)

-- With the new list of interfaces the table is verified.
unfoldable pub verify_hwinfo : Session → Result (List SrIf) → Result (Status × Session)
verify_hwinfo s (fault e) = fault e
verify_hwinfo s (ok ifs) = ok (
  if sr_verify_routing_table ifs s.router.routing_table == 0 then one else minus_one,
  record s { router = record s.router { if_list = ifs } },
)

-- The case VNSHWINFO.
unfoldable pub handle_vnshwinfo : World → List ℕ → Cmd Session Status
handle_vnshwinfo w buf s = verify_hwinfo s (sr_handle_hwinfo w.fresh_if buf s.router.if_list)

abbrev pub one_if : Bool → Status
one_if true = one
one_if false = minus_one

-- The `switch`.
unfoldable pub handle_command : World → ℕ → ℕ → ℕ → List ℕ → Cmd Session Status
handle_command w fuel now command buf =
    if command == vnspacket
    then handle_vnspacket w fuel now buf
    else if command == vnsclose
    then pure nought
    else if command == vnsbanner
    then pure one
    else if command == vnshwinfo
    then handle_vnshwinfo w buf
    else if command == vns_rtable
    then (sr_handle_rtable w buf >>= λ done. pure (one_if done))
    else if command == vns_auth_request
    then (sr_handle_auth_request w buf >>= λ done. pure (one_if done))
    else if command == vns_auth_status
    then (sr_handle_auth_status buf >>= λ done. pure (one_if done))
    else pure one

-- The session after a reading.
abbrev pub with_input :
    Session → Result (Option (List ℕ) × List Event) → Result (Option (List ℕ) × Session)
with_input s (ok (bytes, input')) = ok (bytes, record s { input = input' })
with_input s (fault e) = fault e

-- The two loops that read from the socket.
unfoldable pub read_bytes : ℕ → ℕ → Cmd Session (Option (List ℕ))
read_bytes fuel n s = with_input s (read_all fuel n s.input)

-- What follows when the rest of the command has come. The command is put into host order in place.
-- One that is not expected is refused, unless it is VNSCLOSE.
unfoldable pub take_command : World → ℕ → ℕ → ℕ → List ℕ → Option (List ℕ) → Cmd Session Status
take_command w fuel now expected_cmd header none = pure minus_one
take_command w fuel now expected_cmd header (some rest) = do
  let buf = header ++ rest
  guard (leb 8 (length buf)) out_of_bounds
  let command = ntohl (word_le (slice buf 4 4))
  if ltb 0 expected_cmd
        && ((if command == expected_cmd then false else true)
            && (if command == vnsclose then false else true))
      then pure minus_one
      else handle_command w fuel now command (splice buf 4 (bytes_le 4 command))

-- What follows when the length has come. A negative `int` is more than 10000 as an unsigned number.
-- The length is written back to the block, which must have room for it.
unfoldable pub take_length : World → ℕ → ℕ → ℕ → Option (List ℕ) → Cmd Session Status
take_length w fuel now expected_cmd none = pure minus_one
take_length w fuel now expected_cmd (some header) =
    let len = ntohl (word_le header) in
    if ltb 10000 len
    then pure minus_one
    else (guard (leb 4 len) out_of_bounds
        >> (read_bytes fuel (len - 4) >>= take_command w fuel now expected_cmd header))

unfoldable pub sr_read_from_server_expect : World → ℕ → ℕ → ℕ → Cmd Session Status
sr_read_from_server_expect w fuel now expected_cmd =
    read_bytes fuel 4 >>= take_length w fuel now expected_cmd

unfoldable pub sr_read_from_server : World → ℕ → ℕ → Cmd Session Status
sr_read_from_server w fuel now = sr_read_from_server_expect w fuel now 0
