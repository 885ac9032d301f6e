-- ===== src/Server/Connect.antt =====
-- `sr_connect_to_server` of 20100117_RouterAssign_1/router/sr_vns_comm.c.
pub mod Quiet
use internet_course.Base.{
  ℕ, ◌+◌, ◌≡◌, Bool, true, false, List, [], ◌∷◌, ◌++◌, length, replicate, if◌then◌else◌, ltb,
}
use internet_course.Base.Result.{Cmd, pure, need, get_state, out_of_bounds, ◌>>=◌, ◌>>◌}
use internet_course.Bytes.{bytes_le, htons, htonl}
use internet_course.CString.{strncpy}
use internet_course.Server.Command.{
  vnsopen, vns_open_template, vns_rtable, vns_auth_request, vns_auth_status,
}
use internet_course.Server.Session.{Session, World, Status, one, nought, minus_one, c_string, send}
use internet_course.Server.Reader.{sr_read_from_server_expect}

-- The message `c_open`; the password and the padding are 0.
unfoldable pub open_message : ℕ → List ℕ → List ℕ → List ℕ
open_message topo_id host user =
    bytes_le 4 (htonl 108)
    ++ (bytes_le 4 (htonl vnsopen)
        ++ (bytes_le 2 (htons topo_id)
            ++ (bytes_le 2 0 ++ (strncpy host 32 ++ (strncpy user 32 ++ replicate 32 0)))))

-- The message `c_open_template`, without source filters.
unfoldable pub open_template_message : List ℕ → List ℕ → List ℕ
open_template_message template host =
    bytes_le 4 (htonl 70)
    ++ (bytes_le 4 (htonl vns_open_template) ++ (strncpy template 30 ++ strncpy host 32))

-- Go on only behind a return value of 1; `false` is the return value -1.
unfoldable pub if_one : Cmd Session Bool → Status → Cmd Session Bool
if_one m one = m
if_one m nought = pure false
if_one m minus_one = pure false

-- The last part: the opening message, and with a template the routing table that the server sends.
unfoldable pub request_topology : World → ℕ → ℕ → Cmd Session Bool
request_topology w fuel now = do
  s ← get_state
  template ← need (c_string s.template) out_of_bounds
  let named = ltb 0 (length template)
  sent ← send w (
      if named
      then open_template_message s.template s.host
      else open_message s.topo_id s.host s.user)
  if sent
      then (if named
          then (sr_read_from_server_expect w fuel now vns_rtable >>= if_one (pure true))
          else pure true)
      else pure false

-- The authentication, which the server begins.
unfoldable pub authenticate : World → ℕ → ℕ → Cmd Session Bool
authenticate w fuel now =
    sr_read_from_server_expect w fuel now vns_auth_request
    >>= if_one (
        sr_read_from_server_expect w fuel now vns_auth_status
        >>= if_one (request_topology w fuel now))

-- `true` is the return value 0.
unfoldable pub sr_connect_to_server : World → ℕ → ℕ → Cmd Session Bool
sr_connect_to_server w fuel now =
    if w.resolves
    then if w.makes_socket
      then if w.connects then authenticate w fuel now else pure false
      else pure false
    else pure false
