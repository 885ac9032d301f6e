-- ===== src/Server/Reader/Framing.antt =====
-- How the reader cuts the stream of the server into messages.
use internet_course.Base.{
  ℕ, ◌+◌, ◌-◌, ◌<◌, ◌≤◌, ◌≡◌, refl, ap, ◌∙◌, true, false, some, List, ◌++◌, length, take, drop,
  length-append, arith, leb, ltb,
}
use internet_course.Base.Result.{ok, fault, out_of_fuel}
use internet_course.Bytes.{splice, overlay, word_le, bytes_le, htonl, ntohl}
use internet_course.Bytes.Laws.{word_le-bytes_le₄, slice-append_left, drop-append}
use internet_course.Server.Socket.{Event, read_all}
use internet_course.Server.Socket.Stream.{content, Reliable, read_all_lem, read_all-closed}
use internet_course.Server.Session.{Session, World}
use internet_course.Server.Reader.{
  handle_command, read_bytes, take_command, take_length, sr_read_from_server_expect,
  sr_read_from_server,
}

ntohl-htonl : (v : ℕ) → v < 4294967296 → ntohl (htonl v) ≡ v
ntohl-htonl v h = omega arith

pub htonl-lt : (v : ℕ) → htonl v < 4294967296
htonl-lt v = omega arith

-- What the reader gets back from four bytes in network order.
read_word : (v : ℕ) → v < 4294967296 → ntohl (word_le (bytes_le 4 (htonl v))) ≡ v
read_word v h = ap ntohl (word_le-bytes_le₄ (htonl v) (htonl-lt v)) ∙ ntohl-htonl v h

-- A message of the server: its length, its type, and the rest.
abbrev pub message : ℕ → List ℕ → List ℕ
message command body = bytes_le 4 (htonl (8 + length body)) ++ (bytes_le 4 (htonl command) ++ body)

-- The message in the block, its type in host order.
abbrev pub block : ℕ → List ℕ → List ℕ
block command body = bytes_le 4 (htonl (8 + length body)) ++ (bytes_le 4 command ++ body)

-- The three stages of the reader, for a message of at most 10000 bytes.
module _ (w : World) (fuel now command : ℕ) (body : List ℕ) (known : command < 4294967296)
    (small : 8 + length body ≤ 10000) where
  abbrev len : ℕ
  len = 8 + length body

  abbrev head : List ℕ
  head = bytes_le 4 (htonl len)

  abbrev tail : List ℕ
  tail = bytes_le 4 (htonl command) ++ body

  first_stage :
      (s : Session) (rest : List Event)
      → read_all fuel 4 s.input ≡ ok (some head, rest)
      → sr_read_from_server w fuel now s
        ≡ take_length w fuel now 0 (some head) (record s { input = rest })
  unfolding sr_read_from_server sr_read_from_server_expect read_bytes
  first_stage s rest ran = rw ran refl

  second_stage :
      (s : Session) (rest : List Event)
      → read_all fuel (len - 4) s.input ≡ ok (some tail, rest)
      → take_length w fuel now 0 (some head) s
        ≡ take_command w fuel now 0 head (some tail) (record s { input = rest })
  unfolding take_length read_bytes
  second_stage s rest ran =
      let fits : ltb 10000 len ≡ false = ground arith in
      let room : leb 4 len ≡ true = ground arith in
      rw (read_word len (omega arith)) (rw (fits, room) (rw ran refl))

  third_stage :
      (s : Session)
      → take_command w fuel now 0 head (some tail) s
        ≡ handle_command w fuel now command (block command body) s
  unfolding take_command splice overlay
  third_stage s =
      let room : leb 8 (length (head ++ tail)) ≡ true = ground arith in
      rw (room, read_word command known) refl

module _ (w : World) (fuel now command : ℕ) (body more : List ℕ) (s : Session)
    (reliable : Reliable s.input) (enough : length s.input ≤ fuel) (known : command < 4294967296)
    (small : 8 + length body ≤ 10000)
    (arrived : content s.input ≡ message command body ++ more) where
  size : length (content s.input) ≡ 8 + length body + length more
  size = ap length arrived ∙ omega (arith, length-append body more)

  -- One call of `sr_read_from_server` takes exactly the first message off the stream, however the
  -- bytes were cut, and does what the `switch` says for it.
  pub sr_read_from_server_lem :
      (rest : List Event) × (content rest ≡ more)
      × Reliable rest
      × (length rest ≤ length s.input)
      × (sr_read_from_server w fuel now s
          ≡ handle_command w fuel now command (block command body) (record s { input = rest }))
  sr_read_from_server_lem =
      let n = 8 + length body - 4 in
      let front = bytes_le 4 (htonl (8 + length body)) in
      let back = bytes_le 4 (htonl command) ++ body in
      let (rest₁, ran₁, left₁) =
        read_all_lem fuel 4 s.input enough reliable (omega (arith, size)) in
      let behind₁ : content rest₁ ≡ back ++ more = left₁.behind ∙ ap (drop 4) arrived in
      let sized : length back ≡ n = omega arith in
      let (rest₂, ran₂, left₂) =
        read_all_lem fuel n rest₁ (omega (arith, left₁.shorter)) left₁.reliable
          (omega (arith, ap length behind₁, length-append body more)) in
      let body₂ : take n (content rest₁) ≡ back =
        ap (take n) behind₁ ∙ slice-append_left back more n sized in
      (
        rest₂,
        left₂.behind ∙ (ap (drop n) behind₁ ∙ drop-append back more n 0 (omega (arith, sized))),
        left₂.reliable,
        omega (arith, left₁.shorter, left₂.shorter),
        first_stage w fuel now command body known small s rest₁
              (ran₁ ∙ ap (λ t. ok (some t, rest₁)) (ap (take 4) arrived))
            ∙ (second_stage w fuel now command body known small (record s { input = rest₁ }) rest₂
                  (ran₂ ∙ ap (λ t. ok (some t, rest₂)) body₂)
                ∙ third_stage w fuel now command body known small (record s { input = rest₂ })),
      )

-- If the connection is closed in front of the length of a message, or within it, the reader does not
-- come back, whatever the fuel.
pub sr_read_from_server-closed :
    (w : World) (fuel now : ℕ) (s : Session)
    → Reliable s.input
    → length (content s.input) < 4
    → sr_read_from_server w fuel now s ≡ fault out_of_fuel
unfolding sr_read_from_server sr_read_from_server_expect read_bytes
sr_read_from_server-closed w fuel now s reliable short =
    rw (read_all-closed fuel 4 s.input reliable short) refl
