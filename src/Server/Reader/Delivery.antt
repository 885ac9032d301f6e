-- ===== src/Server/Reader/Delivery.antt =====
-- Frames on their way through the connection: what `sr_send_packet` writes for a frame is what the
-- reader of the other side hands to `sr_handlepacket`.
use internet_course.Base.{
  ℕ, ◌+◌, ◌-◌, ◌%◌, ◌^◌, ◌≤◌, ◌≡◌, refl, ap, ◌∙◌, Bool, true, false, List, ◌++◌, length, drop,
  take_all, length-append, arith,
}
use internet_course.Base.Result.{Cmd, ok, pure, ◌>>◌}
use internet_course.Bytes.{slice}
use internet_course.Bytes.Laws.{drop-append}
use internet_course.CString.{strncpy, length-strncpy}
use internet_course.Router.Send.{packet_message, log_packet}
use internet_course.Router.Filter.{sr_arp_req_not_for_us}
use internet_course.Router.Handle.{sr_handlepacket}
use internet_course.Server.Socket.{Event}
use internet_course.Server.Socket.Stream.{content, Reliable}
use internet_course.Server.Session.{Session, World, Status, one, on_router}
use internet_course.Server.Reader.{
  unless_dropped, handle_vnspacket, handle_command, sr_read_from_server,
}
use internet_course.Server.Reader.Framing.{message, block, sr_read_from_server_lem}

-- What becomes of a frame: dropped, or logged and handled.
abbrev pub delivered : World → ℕ → ℕ → List ℕ → List ℕ → Bool → Cmd Session Status
delivered w fuel now frame interface true = pure one
delivered w fuel now frame interface false =
    on_router (
      log_packet w.env frame (length frame)
      >> sr_handlepacket w.env fuel now frame (length frame) interface)
    >> pure one

unless_dropped-delivered :
    (w : World) (fuel now : ℕ) (frame interface : List ℕ) (b : Bool)
    → unless_dropped w fuel now frame (length frame) interface (ok b)
      ≡ delivered w fuel now frame interface b
unfolding unless_dropped
unless_dropped-delivered w fuel now frame interface true = refl
unless_dropped-delivered w fuel now frame interface false = refl

module _ (frame name : List ℕ) (small : 24 + length frame ≤ 10000) where
  abbrev pub named : List ℕ
  named = strncpy name 16 ++ frame

  length-named : length named ≡ 16 + length frame
  length-named = length-append (strncpy name 16) frame ∙ omega (arith, length-strncpy name 16)

  packet_message-message : packet_message frame (length frame) name ≡ message 4 named
  unfolding packet_message
  packet_message-message =
      let total : (length frame + 24) % 2 ^ 32 ≡ 8 + length named = omega (arith, length-named) in
      let whole : slice frame 0 (length frame) ≡ frame =
        take_all (length frame) frame (omega arith) in
      rw (total, whole) refl

  handle_vnspacket-frame :
      (w : World) (fuel now : ℕ) (s : Session) (b : Bool)
      → sr_arp_req_not_for_us s.router frame (length frame) named ≡ ok b
      → handle_vnspacket w fuel now (block 4 named) s ≡ delivered w fuel now frame named b s
  unfolding handle_vnspacket
  handle_vnspacket-frame w fuel now s b filtered =
      let cut : drop 24 (block 4 named) ≡ frame =
        drop-append (strncpy name 16) frame 16 0 (omega (arith, length-strncpy name 16)) in
      let sized : (length (block 4 named) + (2 ^ 32 - 24)) % 2 ^ 32 ≡ length frame =
        omega (arith, length-named) in
      rw (cut, sized, filtered) (ap (λ m. m s) (unless_dropped-delivered w fuel now frame named b))

  -- The case VNSPACKET, with what is left to be read.
  pub frame-taken :
      (w : World) (fuel now : ℕ) (more : List ℕ) (s : Session) (b : Bool)
      → Reliable s.input
      → length s.input ≤ fuel
      → content s.input ≡ packet_message frame (length frame) name ++ more
      → sr_arp_req_not_for_us s.router frame (length frame) named ≡ ok b
      → (rest : List Event) × (content rest ≡ more)
        × Reliable rest
        × (length rest ≤ length s.input)
        × (sr_read_from_server w fuel now s
            ≡ delivered w fuel now frame named b (record s { input = rest }))
  unfolding handle_command
  frame-taken w fuel now more s b reliable enough arrived filtered =
      let (rest, behind, still, shorter, ran) =
        sr_read_from_server_lem w fuel now 4 named more s reliable enough (omega arith)
          (omega (arith, length-named)) (arrived ∙ ap (λ m. m ++ more) packet_message-message) in
      (
        rest,
        behind,
        still,
        shorter,
        ran ∙ handle_vnspacket-frame w fuel now (record s { input = rest }) b filtered,
      )

  -- The message that `sr_send_packet` writes for a frame of at most 9976 bytes, at the front of the
  -- stream and cut into pieces anyhow, is taken off the stream by `sr_read_from_server`, and the bytes
  -- behind it stay there. If the filter of ARP requests comes to a result, the frame and its length,
  -- for the interface that the message names, are logged and go to `sr_handlepacket`, or the frame is
  -- dropped, as the filter says.
  pub sr_read_from_server-frame :
      (w : World) (fuel now : ℕ) (more : List ℕ) (s : Session) (b : Bool)
      → Reliable s.input
      → length s.input ≤ fuel
      → content s.input ≡ packet_message frame (length frame) name ++ more
      → sr_arp_req_not_for_us s.router frame (length frame) named ≡ ok b
      → (rest : List Event) × (content rest ≡ more)
        × (sr_read_from_server w fuel now s
            ≡ delivered w fuel now frame named b (record s { input = rest }))
  sr_read_from_server-frame w fuel now more s b reliable enough arrived filtered =
      let (rest, behind, still, shorter, ran) =
        frame-taken w fuel now more s b reliable enough arrived filtered in
      (rest, behind, ran)
