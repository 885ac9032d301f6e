-- ===== src/Server/Command/Sent.antt =====
-- What the client sends, read by the structs of vnscommand.h.
use internet_course.Base.{
  ℕ, ◌+◌, ◌%◌, ◌^◌, ◌<◌, ◌≤◌, ◌≡◌, ◌∙◌, refl, ap, sym, List, [], ◌++◌, length, replicate, drop,
  length-append, arith,
}
use mathlib.Core.List.{append-nil}
use internet_course.Bytes.{bytes_le, slice, htonl, htons}
use internet_course.Bytes.Laws.{length-slice, drop-append}
use internet_course.CString.{strncpy, length-strncpy}
use internet_course.Router.Send.{packet_message}
use internet_course.Server.Connect.{open_message, open_template_message}
use internet_course.Server.Reader.{auth_reply}
use internet_course.Server.Reader.Framing.{htonl-lt}
use internet_course.Server.Command.{
  Field, Contents, sizeof, width, read_fields, write_field, write_fields, c_open, c_open_template,
  c_packet_header, c_auth_reply,
}
use internet_course.Server.Command.Layout.{FieldsFit, read-write_fields, length-write_fields}

-- The message is the struct with these fields, and behind it these bytes.
abbrev pub Carries : (fs : List Field) → List ℕ → Contents fs → List ℕ → Type 0
Carries fs message v behind =
    (read_fields fs message ≡ v)
    × (drop (sizeof fs) message ≡ behind)
    × (length message ≡ sizeof fs + length behind)

carries :
    (fs : List Field) (message : List ℕ) (v : Contents fs) (behind : List ℕ)
    → message ≡ write_fields fs v ++ behind
    → FieldsFit fs v
    → Carries fs message v behind
carries fs message v behind same fits = (
  ap (read_fields fs) same ∙ read-write_fields fs v behind fits,
  ap (drop (sizeof fs)) same
      ∙ drop-append (write_fields fs v) behind (sizeof fs) 0
          (omega (arith, length-write_fields fs v fits)),
  ap length same
      ∙ length-append (write_fields fs v) behind
      ∙ omega (arith, length-write_fields fs v fits),
)

module _ (topo_id : ℕ) (host user template : List ℕ) where
  abbrev pub open_fields : Contents c_open
  open_fields = (
    htonl 108,
    (htonl 1, (htons topo_id, (0, (strncpy host 32, (strncpy user 32, (replicate 32 0, tt)))))),
  )

  open_message-Carries :
      topo_id < 65536 → Carries c_open (open_message topo_id host user) open_fields []
  unfolding open_message write_fields write_field
  open_message-Carries fits =
      carries c_open (open_message topo_id host user) open_fields [] (sym (append-nil _)) (
        omega arith,
        (
          omega arith,
          (
            omega arith,
            (omega arith, (length-strncpy host 32, (length-strncpy user 32, (refl, tt)))),
          ),
        ),
      )

  abbrev pub template_fields : Contents c_open_template
  template_fields = (htonl 70, (htonl 64, (strncpy template 30, (strncpy host 32, tt))))

  open_template_message-Carries :
      Carries c_open_template (open_template_message template host) template_fields []
  unfolding open_template_message write_fields write_field
  open_template_message-Carries =
      carries c_open_template (open_template_message template host) template_fields []
        (ap (λ x. bytes_le 4 (htonl 70) ++ (bytes_le 4 (htonl 64) ++ (strncpy template 30 ++ x)))
            (sym (append-nil (strncpy host 32)))
          ∙ sym (append-nil (write_fields c_open_template template_fields)))
        (omega arith, (omega arith, (length-strncpy template 30, (length-strncpy host 32, tt))))

module _ (buf : List ℕ) (len : ℕ) (iface : List ℕ) where
  abbrev pub packet_fields : Contents c_packet_header
  packet_fields = (htonl ((len + 24) % 2 ^ 32), (htonl 4, (strncpy iface 16, tt)))

  packet_message-Carries :
      Carries c_packet_header (packet_message buf len iface) packet_fields (slice buf 0 len)
  unfolding packet_message write_fields write_field
  packet_message-Carries =
      carries c_packet_header (packet_message buf len iface) packet_fields (slice buf 0 len)
        (ap
          (λ x.
            bytes_le 4 (htonl ((len + 24) % 2 ^ 32))
            ++ (bytes_le 4 (htonl 4) ++ (x ++ slice buf 0 len)))
          (sym (append-nil (strncpy iface 16))))
        (htonl-lt ((len + 24) % 2 ^ 32), (omega arith, (length-strncpy iface 16, tt)))

module _ (user digest : List ℕ) where
  abbrev pub reply_fields : Contents c_auth_reply
  reply_fields = (htonl (12 + length user + 20), (htonl 256, (htonl (length user), tt)))

  auth_reply-Carries : Carries c_auth_reply (auth_reply user digest) reply_fields (user ++ digest)
  unfolding auth_reply write_fields write_field
  auth_reply-Carries =
      carries c_auth_reply (auth_reply user digest) reply_fields (user ++ digest) refl
        (htonl-lt (12 + length user + 20), (omega arith, (htonl-lt (length user), tt)))

module _ (topo_id : ℕ) (host user template buf : List ℕ) (len : ℕ) (iface digest : List ℕ) where
  -- The messages that the client writes, read by the structs of vnscommand.h, for a topology of 16
  -- bits, a frame of `len` bytes within its block, and a digest of 20 bytes: the opening message, with
  -- and without a template, the header of a frame and the authentication reply hold in their fields,
  -- in network order, the length of the whole message, its type, and the topology, the names cut or
  -- padded to their arrays, and the length of the user's name; the bytes behind the struct are none in
  -- the opening messages, then the frame's first `len` bytes, and then the user's name followed by the
  -- digest.
  pub sent-Carries :
      topo_id < 65536
      → len ≤ length buf
      → len + 24 < 4294967296
      → length digest ≡ 20
      → (Carries c_open (open_message topo_id host user) (open_fields topo_id host user template) []
          × (length (open_message topo_id host user) ≡ 108))
        × (Carries c_open_template
              (open_template_message template host)
              (template_fields topo_id host user template)
              []
            × (length (open_template_message template host) ≡ 70))
        × (Carries c_packet_header
              (packet_message buf len iface)
              (htonl (len + 24), (htonl 4, (strncpy iface 16, tt)))
              (slice buf 0 len)
            × (length (packet_message buf len iface) ≡ len + 24))
        × (Carries c_auth_reply (auth_reply user digest) (reply_fields user digest) (user ++ digest)
            × (length (auth_reply user digest) ≡ 12 + length user + 20))
  unfolding sizeof width
  sent-Carries fits inside narrow words =
      let opening = open_message-Carries topo_id host user template fits in
      let with_template = open_template_message-Carries topo_id host user template in
      let (fields, behind, size) = packet_message-Carries buf len iface in
      let total : (len + 24) % 2 ^ 32 ≡ len + 24 = omega arith in
      let reply = auth_reply-Carries user digest in
      (
        (opening, opening.2),
        (with_template, with_template.2),
        (
          ((fields ∙ ap (λ n. (htonl n, (htonl 4, (strncpy iface 16, tt)))) total), behind, size),
          size ∙ omega (arith, length-slice buf 0 len (omega arith)),
        ),
        (reply, reply.2 ∙ omega (arith, length-append user digest, words)),
      )
