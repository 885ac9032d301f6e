-- ===== src/Server/Examples/Commands.antt =====
-- The theorem on the messages that the client sends, at concrete names.
use internet_course.Base.{ℕ, ◌≡◌, refl, List, [], ◌∷◌, ◌++◌, length, arith}
use internet_course.Bytes.{slice, htonl}
use internet_course.CString.{strncpy}
use internet_course.Router.Send.{packet_message}
use internet_course.Router.Examples.Network.{eth0, frame}
use internet_course.Server.Connect.{open_message, open_template_message}
use internet_course.Server.Reader.{auth_reply, digest_bytes}
use internet_course.Server.Command.{c_open, c_open_template, c_packet_header, c_auth_reply}
use internet_course.Server.Command.Sent.{
  Carries, open_fields, template_fields, reply_fields, sent-Carries,
}

abbrev me : List ℕ
me = 109 ∷ 101 ∷ []

abbrev digest : List ℕ
digest = digest_bytes (1 ∷ 2 ∷ 3 ∷ 4 ∷ 5 ∷ [])

-- Topology 3 for "me" on the host "h", or the template "t"; and a frame of 42 bytes.
sent-Carries_example :
    (Carries c_open (open_message 3 (104 ∷ []) me) (open_fields 3 (104 ∷ []) me (116 ∷ [])) []
      × (length (open_message 3 (104 ∷ []) me) ≡ 108))
    × (Carries c_open_template
          (open_template_message (116 ∷ []) (104 ∷ []))
          (template_fields 3 (104 ∷ []) me (116 ∷ []))
          []
        × (length (open_template_message (116 ∷ []) (104 ∷ [])) ≡ 70))
    × (Carries c_packet_header
          (packet_message frame 42 eth0.name)
          (htonl 66, (htonl 4, (strncpy eth0.name 16, tt)))
          (slice frame 0 42)
        × (length (packet_message frame 42 eth0.name) ≡ 66))
    × (Carries c_auth_reply (auth_reply me digest) (reply_fields me digest) (me ++ digest)
        × (length (auth_reply me digest) ≡ 34))
unfolding digest_bytes
sent-Carries_example =
    sent-Carries 3 (104 ∷ []) me (116 ∷ []) frame 42 eth0.name digest (omega arith) (omega arith)
      (omega arith) refl
