-- ===== src/Server/Connect/Quiet.antt =====
-- While the connection is made no frame is handled: the interfaces, the routing table and the ARP
-- cache are as before.
use internet_course.Base.{
  ℕ, ◌-◌, ◌<◌, ◌≡◌, ◌≢◌, drop, refl, ◌∙◌, subst, Bool, true, false, Bool-cases, inl, inr, Option,
  none, some, List, ◌++◌, ◌&&◌, length, arith, if◌then◌else◌, ◌==◌, ltb, leb,
}
use internet_course.Base.Result.{Result, ok, fault, Cmd, out_of_bounds}
use internet_course.Base.Keep.{
  Order, Keeping, After, keep_bind, keep_then, keep_pure, keep_need, keep_if, keep_guard,
  keep_state,
}
use internet_course.Bytes.{slice, word_le, ntohl}
use internet_course.Server.Socket.{Event, read_all}
use internet_course.Server.Session.{Session, World, Status, one, nought, minus_one, c_string, send}
use internet_course.Server.Reader.{
  write_file, send_digest, if_key, sr_handle_rtable, answer_auth_request, sr_handle_auth_request,
  sr_handle_auth_status, rtable_prefix, with_input, handle_command, read_bytes, take_command,
  take_length, sr_read_from_server_expect,
}
use internet_course.Server.Connect.{if_one, request_topology, authenticate, sr_connect_to_server}

pub record Quiet (s t : Session) : Type 0 where
  pub interfaces : t.router.if_list ≡ s.router.if_list
  pub routes : t.router.routing_table ≡ s.router.routing_table
  pub cache : t.router.cache ≡ s.router.cache

pub Quiet-refl : (s : Session) → Quiet s s
Quiet-refl s = record { interfaces = refl; routes = refl; cache = refl }

pub Quiet-trans : (s t u : Session) → Quiet s t → Quiet t u → Quiet s u
Quiet-trans s t u p q = record {
  interfaces = q.interfaces ∙ p.interfaces;
  routes = q.routes ∙ p.routes;
  cache = q.cache ∙ p.cache;
}

abbrev pub quiet : Order Session
quiet = record { Keeps = Quiet; keeps_refl = Quiet-refl; keeps_trans = Quiet-trans }

-- A command that the code may wait for: none that is for the router itself.
abbrev Awaited : ℕ → Type 0
Awaited command = (0 < command) × (command ≢ 4) × (command ≢ 16)

module _ (w : World) where
  send-quiet : (message : List ℕ) → Keeping quiet (send w message)
  unfolding send
  send-quiet message = record {
    run = λ s. record { interfaces = refl; routes = refl; cache = refl };
  }

  file-quiet : (name bytes : List ℕ) → Keeping quiet (write_file name bytes)
  unfolding write_file
  file-quiet name bytes = record {
    run = λ s. record { interfaces = refl; routes = refl; cache = refl };
  }

  rtable-quiet : (buf : List ℕ) → Keeping quiet (sr_handle_rtable w buf)
  unfolding sr_handle_rtable
  rtable-quiet buf =
      keep_bind quiet _ _ (keep_need quiet (c_string (drop 8 buf)) out_of_bounds) λ name.
        keep_then quiet _ _ (keep_guard quiet (leb (length name) 32) out_of_bounds) (
          keep_if quiet (w.can_write (rtable_prefix ++ name)) _ _
            (keep_then quiet _ _ (keep_guard quiet _ _) (file-quiet _ _)) (keep_pure quiet false))

  status-quiet : (buf : List ℕ) → Keeping quiet (sr_handle_auth_status buf)
  unfolding sr_handle_auth_status
  status-quiet buf =
      keep_then quiet _ _ (keep_guard quiet (leb 9 (length buf)) out_of_bounds) (keep_pure quiet _)

  digest-quiet :
      (user : List ℕ) (words : Option (List ℕ)) → Keeping quiet (send_digest w user words)
  unfolding send_digest
  digest-quiet user none = keep_pure quiet false
  digest-quiet user (some words) =
      keep_bind quiet _ _ (keep_need quiet (c_string user) out_of_bounds) (λ name. send-quiet _)

  answer-quiet : (buf line : List ℕ) → Keeping quiet (answer_auth_request w buf line)
  unfolding answer_auth_request
  answer-quiet buf line =
      keep_then quiet _ _ (keep_guard quiet _ _)
        (keep_bind quiet _ _ (keep_state quiet) (λ s. digest-quiet s.user _))

  key-quiet : (buf : List ℕ) (key : Option (Option (List ℕ))) → Keeping quiet (if_key w buf key)
  unfolding if_key
  key-quiet buf none = keep_pure quiet false
  key-quiet buf (some none) = keep_pure quiet false
  key-quiet buf (some (some line)) = answer-quiet buf line

  request-quiet : (buf : List ℕ) → Keeping quiet (sr_handle_auth_request w buf)
  unfolding sr_handle_auth_request
  request-quiet buf = key-quiet buf w.auth_key

  -- Of the commands only those for the router itself change it.
  pub command-quiet :
      (fuel now command : ℕ) (buf : List ℕ)
      → command ≢ 4
      → command ≢ 16
      → Keeping quiet (handle_command w fuel now command buf)
  unfolding handle_command
  command-quiet fuel now command buf h k =
      let not_packet : (command == 4) ≡ false = ground arith in
      let not_hardware : (command == 16) ≡ false = ground arith in
      rw (not_packet, not_hardware)
        (keep_if quiet (command == 2) _ _ (keep_pure quiet nought) (
          keep_if quiet (command == 8) _ _ (keep_pure quiet one) (
            keep_if quiet (command == 32) _ _
              (keep_bind quiet _ _ (rtable-quiet buf) (λ done. keep_pure quiet _))
              (keep_if quiet (command == 128) _ _
                (keep_bind quiet _ _ (request-quiet buf) (λ done. keep_pure quiet _))
                (keep_if quiet (command == 512) _ _
                  (keep_bind quiet _ _ (status-quiet buf) (λ done. keep_pure quiet _))
                  (keep_pure quiet one))))))

  input-quiet :
      (s : Session) (r : Result (Option (List ℕ) × List Event)) → After quiet s (with_input s r)
  input-quiet s (ok (bytes, input')) = record { interfaces = refl; routes = refl; cache = refl }
  input-quiet s (fault e) = tt

  pub bytes-quiet : (fuel n : ℕ) → Keeping quiet (read_bytes fuel n)
  unfolding read_bytes
  bytes-quiet fuel n = record { run = λ s. input-quiet s (read_all fuel n s.input) }

  take_command-quiet :
      (fuel now expected_cmd : ℕ) (header : List ℕ) (rest : Option (List ℕ))
      → Awaited expected_cmd
      → Keeping quiet (take_command w fuel now expected_cmd header rest)
  unfolding take_command
  take_command-quiet fuel now expected_cmd header none a = keep_pure quiet minus_one
  take_command-quiet fuel now expected_cmd header (some rest) a =
      let buf = header ++ rest in
      let command = ntohl (word_le (slice buf 4 4)) in
      let refused =
        ltb 0 expected_cmd
        && ((if command == expected_cmd then false else true)
            && (if command == 2 then false else true)) in
      keep_then quiet _ _ (keep_guard quiet (leb 8 (length buf)) out_of_bounds)
        (elim (Bool-cases refused) [
          | inl t ↦ rw t (keep_pure quiet minus_one)
          | inr f ↦ rw f (command-quiet fuel now command _ (ground (arith, a)) (ground (arith, a)))
        ])

  take_length-quiet :
      (fuel now expected_cmd : ℕ) (header : Option (List ℕ))
      → Awaited expected_cmd
      → Keeping quiet (take_length w fuel now expected_cmd header)
  unfolding take_length
  take_length-quiet fuel now expected_cmd none a = keep_pure quiet minus_one
  take_length-quiet fuel now expected_cmd (some header) a =
      let len = ntohl (word_le header) in
      keep_if quiet (ltb 10000 len) _ _ (keep_pure quiet minus_one) (
        keep_then quiet _ _ (keep_guard quiet (leb 4 len) out_of_bounds) (
          keep_bind quiet _ _ (bytes-quiet fuel (len - 4))
            λ rest. take_command-quiet fuel now expected_cmd header rest a))

  expect-quiet :
      (fuel now expected_cmd : ℕ)
      → Awaited expected_cmd
      → Keeping quiet (sr_read_from_server_expect w fuel now expected_cmd)
  unfolding sr_read_from_server_expect
  expect-quiet fuel now expected_cmd a =
      keep_bind quiet _ _ (bytes-quiet fuel 4)
        λ header. take_length-quiet fuel now expected_cmd header a

  if_one-quiet : (m : Cmd Session Bool) (r : Status) → Keeping quiet m → Keeping quiet (if_one m r)
  unfolding if_one
  if_one-quiet m one k = k
  if_one-quiet m nought k = keep_pure quiet false
  if_one-quiet m minus_one k = keep_pure quiet false

  topology-quiet : (fuel now : ℕ) → Keeping quiet (request_topology w fuel now)
  unfolding request_topology
  topology-quiet fuel now = keep_bind quiet _ _ (keep_state quiet) λ s.
      keep_bind quiet _ _ (keep_need quiet (c_string s.template) out_of_bounds) λ template.
        keep_bind quiet _ _ (send-quiet _) λ sent.
          keep_if quiet sent _ _
            (keep_if quiet (ltb 0 (length template)) _ _
              (keep_bind quiet _ _ (expect-quiet fuel now 32 (omega arith))
                λ r. if_one-quiet _ r (keep_pure quiet true))
              (keep_pure quiet true))
            (keep_pure quiet false)

  authenticate-quiet : (fuel now : ℕ) → Keeping quiet (authenticate w fuel now)
  unfolding authenticate
  authenticate-quiet fuel now = keep_bind quiet _ _ (expect-quiet fuel now 128 (omega arith)) λ r.
      if_one-quiet _ r (
        keep_bind quiet _ _ (expect-quiet fuel now 512 (omega arith))
          λ q. if_one-quiet _ q (topology-quiet fuel now))

  connect-quiet : (fuel now : ℕ) → Keeping quiet (sr_connect_to_server w fuel now)
  unfolding sr_connect_to_server
  connect-quiet fuel now =
      keep_if quiet w.resolves _ _
        (keep_if quiet w.makes_socket _ _
          (keep_if quiet w.connects _ _ (authenticate-quiet fuel now) (keep_pure quiet false))
          (keep_pure quiet false))
        (keep_pure quiet false)

  -- Whatever the server sends while the connection is made: where `sr_connect_to_server` returns, the
  -- interfaces, the routing table and the ARP cache are as before.
  pub sr_connect_to_server_quiet :
      (fuel now : ℕ) (s t : Session) (connected : Bool)
      → sr_connect_to_server w fuel now s ≡ ok (connected, t)
      → (t.router.if_list ≡ s.router.if_list)
        × (t.router.routing_table ≡ s.router.routing_table)
        × (t.router.cache ≡ s.router.cache)
  sr_connect_to_server_quiet fuel now s t connected returned =
      let kept : Quiet s t = subst (After quiet s) returned ((connect-quiet fuel now).run s) in
      (kept.interfaces, kept.routes, kept.cache)
