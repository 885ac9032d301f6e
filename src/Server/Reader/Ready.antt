-- ===== src/Server/Reader/Ready.antt =====
-- The routing table stays checked: once the reader has accepted the hardware information, whatever
-- the server sends and whenever the time-out thread runs.
use internet_course.Base.{
  ℕ, ◌-◌, ◌≡◌, refl, subst, Bool, true, false, Bool-cases, inl, inr, Option, none, some, List, ◌++◌,
  length, arith, if◌then◌else◌, ◌==◌, leb, ltb,
}
use internet_course.Base.Result.{Result, ok, fault, Cmd, pure, out_of_bounds, and_then, ◌>>=◌, ◌>>◌}
use internet_course.Base.Keep.{Keeping, After, keep_then, keep_guard, keep_pure}
use internet_course.Bytes.{word_le, ntohl}
use internet_course.Iface.{SrIf}
use internet_course.Iface.Hardware.{sr_handle_hwinfo}
use internet_course.Route.{SrRt, sr_verify_routing_table, longest_prefix_sum}
use internet_course.Route.Laws.{HasInterface, longest_prefix_sum-HasInterface}
use internet_course.Router.{SrInstance}
use internet_course.Router.Keeping.{router_order}
use internet_course.Router.Keepers.{log-Keeping}
use internet_course.Router.Invariant.{handlepacket-Keeping}
use internet_course.Router.Sweep.{sr_arpcache_timeout}
use internet_course.Router.Sweep.Keeping.{timeout-Keeping}
use internet_course.Server.Session.{Session, World, Status, one, nought, minus_one, on_router}
use internet_course.Server.Reader.{
  unless_dropped, handle_vnspacket, verify_hwinfo, handle_vnshwinfo, handle_command, take_command,
  take_length, sr_read_from_server_expect, sr_read_from_server,
}
use internet_course.Server.Connect.Quiet.{quiet, command-quiet, bytes-quiet}

-- The check of the table against the interfaces passes.
abbrev pub IsVerified : Session → Type 0
IsVerified s = sr_verify_routing_table s.router.if_list s.router.routing_table ≡ 0

same_tables :
    (s t : Session)
    → t.router.if_list ≡ s.router.if_list
    → t.router.routing_table ≡ s.router.routing_table
    → IsVerified s
    → IsVerified t
same_tables s t interfaces routes v = rw (interfaces, routes) v

-- A handler that returns 1 leaves a session that is checked, if it found one.
abbrev IfOne : Session → Result (Status × Session) → Type 0
IfOne s (ok (one, t)) = IsVerified s → IsVerified t
IfOne s (ok (nought, t)) = Unit
IfOne s (ok (minus_one, t)) = Unit
IfOne s (fault e) = Unit

record Safe (m : Cmd Session Status) : Type 0 where
  run : (s : Session) → IfOne s (m s)

IfOne-mono :
    (s t : Session) (r : Result (Status × Session))
    → (IsVerified s → IsVerified t)
    → IfOne t r
    → IfOne s r
IfOne-mono s t (ok (one, u)) f p = λ v. p (f v)
IfOne-mono s t (ok (nought, u)) f p = tt
IfOne-mono s t (ok (minus_one, u)) f p = tt
IfOne-mono s t (fault e) f p = tt

Safe-result :
    {A : Type 0} (s : Session) (r : Result (A × Session)) (k : A → Cmd Session Status)
    → After quiet s r
    → ((a : A) → Safe (k a))
    → IfOne s (and_then r k)
Safe-result s (fault e) k q h = tt
Safe-result s (ok (a, t)) k q h =
    IfOne-mono s t (k a t) (same_tables s t q.interfaces q.routes) ((h a).run t)

Safe-bind :
    {A : Type 0} (m : Cmd Session A) (k : A → Cmd Session Status)
    → Keeping quiet m
    → ((a : A) → Safe (k a))
    → Safe (m >>= k)
Safe-bind m k q h = record { run = λ s. Safe-result s (m s) k (q.run s) h }

Safe-then :
    {A : Type 0} (m : Cmd Session A) (k : Cmd Session Status)
    → Keeping quiet m
    → Safe k
    → Safe (m >> k)
Safe-then m k q h = record { run = λ s. Safe-result s (m s) (λ _. k) (q.run s) (λ _. h) }

Safe-if : (b : Bool) (m k : Cmd Session Status) → Safe m → Safe k → Safe (if b then m else k)
Safe-if true m k p q = p
Safe-if false m k p q = q

quiet_one : (s : Session) (r : Result (Status × Session)) → After quiet s r → IfOne s r
quiet_one s (ok (one, t)) q = same_tables s t q.interfaces q.routes
quiet_one s (ok (nought, t)) q = tt
quiet_one s (ok (minus_one, t)) q = tt
quiet_one s (fault e) q = tt

quiet-Safe : (m : Cmd Session Status) → Keeping quiet m → Safe m
quiet-Safe m q = record { run = λ s. quiet_one s (m s) (q.run s) }

-- The session after a command of the router.
abbrev lifted : Session → Result (Unit {0} × SrInstance) → Result (Unit {0} × Session)
lifted s (ok (a, router')) = ok (a, record s { router = router' })
lifted s (fault e) = fault e

on_router_one :
    (s : Session) (r : Result (Unit {0} × SrInstance))
    → After router_order s.router r
    → IfOne s (and_then (lifted s r) (λ _. pure one))
on_router_one s (ok (a, router')) q =
    same_tables s (record s { router = router' }) q.interfaces q.routes
on_router_one s (fault e) q = tt

on_router-Safe :
    (m : Cmd SrInstance (Unit {0})) → Keeping router_order m → Safe (on_router m >> pure one)
on_router-Safe m q = record { run = λ s. on_router_one s (m s.router) (q.run s.router) }

-- The hardware information is accepted only with a table that fits.
verified : (s t : Session) (r : Result (List SrIf)) → verify_hwinfo s r ≡ ok (one, t) → IsVerified t
unfolding verify_hwinfo
verified s t (fault f) h = absurd (cc)
verified s t (ok ifs) h =
    let u : Session = record s { router = record s.router { if_list = ifs } } in
    elim (Bool-cases (sr_verify_routing_table ifs s.router.routing_table == 0)) [
      | inl e ↦ let same : u ≡ t = cc (rw e at h) in subst IsVerified same (ground arith)
      | inr e ↦ absurd (cc (rw e at h))
    ]

hwinfo_one :
    (s : Session) (x : Result (List SrIf)) (r : Result (Status × Session))
    → verify_hwinfo s x ≡ r
    → IfOne s r
hwinfo_one s x (ok (one, t)) e = λ _. verified s t x e
hwinfo_one s x (ok (nought, t)) e = tt
hwinfo_one s x (ok (minus_one, t)) e = tt
hwinfo_one s x (fault f) e = tt

hwinfo-Safe : (w : World) (buf : List ℕ) → Safe (handle_vnshwinfo w buf)
unfolding handle_vnshwinfo
hwinfo-Safe w buf = record {
  run = λ s. hwinfo_one s (sr_handle_hwinfo w.fresh_if buf s.router.if_list) _ refl;
}

module _ (w : World) where
  dropped-Safe :
      (fuel now : ℕ) (packet : List ℕ) (len : ℕ) (interface : List ℕ) (r : Result Bool)
      → Safe (unless_dropped w fuel now packet len interface r)
  unfolding unless_dropped
  dropped-Safe fuel now packet len interface (fault e) = record { run = λ s. tt }
  dropped-Safe fuel now packet len interface (ok true) = quiet-Safe _ (keep_pure quiet one)
  dropped-Safe fuel now packet len interface (ok false) = on_router-Safe _ (
      keep_then router_order _ _ (log-Keeping w.env packet len)
        (handlepacket-Keeping w.env fuel now packet len interface))

  packet-Safe : (fuel now : ℕ) (buf : List ℕ) → Safe (handle_vnspacket w fuel now buf)
  unfolding handle_vnspacket
  packet-Safe fuel now buf = record { run = λ s. (dropped-Safe fuel now _ _ _ _).run s }

  command-Safe :
      (fuel now command : ℕ) (buf : List ℕ) → Safe (handle_command w fuel now command buf)
  unfolding handle_command
  command-Safe fuel now command buf = elim (Bool-cases (command == 4)) [
    | inl e ↦ rw (e) (packet-Safe fuel now buf)
    | inr e ↦ elim (Bool-cases (command == 16)) [
      | inl h ↦
          let not_two : (command == 2) ≡ false = ground arith in
          let not_eight : (command == 8) ≡ false = ground arith in
          rw (e, not_two, not_eight, h) (hwinfo-Safe w buf)
      | inr h ↦ quiet-Safe _ (command-quiet w fuel now command buf (ground arith) (ground arith))
    ]
  ]

  take_command-Safe :
      (fuel now expected_cmd : ℕ) (header : List ℕ) (rest : Option (List ℕ))
      → Safe (take_command w fuel now expected_cmd header rest)
  unfolding take_command
  take_command-Safe fuel now expected_cmd header none = quiet-Safe _ (keep_pure quiet minus_one)
  take_command-Safe fuel now expected_cmd header (some rest) =
      Safe-then _ _ (keep_guard quiet (leb 8 (length (header ++ rest))) out_of_bounds)
        (Safe-if _ _ _ (quiet-Safe _ (keep_pure quiet minus_one)) (command-Safe fuel now _ _))

  take_length-Safe :
      (fuel now expected_cmd : ℕ) (header : Option (List ℕ))
      → Safe (take_length w fuel now expected_cmd header)
  unfolding take_length
  take_length-Safe fuel now expected_cmd none = quiet-Safe _ (keep_pure quiet minus_one)
  take_length-Safe fuel now expected_cmd (some header) =
      let len = ntohl (word_le header) in
      Safe-if (ltb 10000 len) _ _ (quiet-Safe _ (keep_pure quiet minus_one)) (
        Safe-then _ _ (keep_guard quiet (leb 4 len) out_of_bounds) (
          Safe-bind _ _ (bytes-quiet w fuel (len - 4))
            λ rest. take_command-Safe fuel now expected_cmd header rest))

  server-Safe : (fuel now : ℕ) → Safe (sr_read_from_server w fuel now)
  unfolding sr_read_from_server sr_read_from_server_expect
  server-Safe fuel now =
      Safe-bind _ _ (bytes-quiet w fuel 4) (λ header. take_length-Safe fuel now 0 header)

  -- A turn of the main loop behind which the loop goes on: a message that is read with the return
  -- value 1, or a round of the thread.
  pub data Round (fuel rounds : ℕ) (s t : Session) : Type 0 where
    reading : (now : ℕ) → sr_read_from_server w fuel now s ≡ ok (one, t) → Round fuel rounds s t
    sweeping :
        (now : ℕ)
        → on_router (sr_arpcache_timeout w.env fuel rounds now) s ≡ ok (tt, t)
        → Round fuel rounds s t

  pub data Reach (fuel rounds : ℕ) (s : Session) : Session → Type 0 where
    here : Reach fuel rounds s s
    later : {t u : Session} → Reach fuel rounds s t → Round fuel rounds t u → Reach fuel rounds s u

  swept_one :
      (s t : Session) (r : Result (Unit {0} × SrInstance))
      → After router_order s.router r
      → lifted s r ≡ ok (tt, t)
      → IsVerified s
      → IsVerified t
  swept_one s t (ok (a, router')) q h =
      let u : Session = record s { router = router' } in
      let same : u ≡ t = cc in λ v. subst IsVerified same (same_tables s u q.interfaces q.routes v)
  swept_one s t (fault e) q h = absurd (cc)

  Round-IsVerified :
      (fuel rounds : ℕ) (s t : Session) → Round fuel rounds s t → IsVerified s → IsVerified t
  Round-IsVerified fuel rounds s t (reading now h) =
      subst (IfOne s) h ((server-Safe fuel now).run s)
  Round-IsVerified fuel rounds s t (sweeping now h) =
      swept_one s t _ ((timeout-Keeping w.env fuel rounds now).run s.router) h

  Reach-IsVerified :
      (fuel rounds : ℕ) (s : Session) {t : Session}
      → IsVerified s
      → Reach fuel rounds s t
      → IsVerified t
  Reach-IsVerified fuel rounds s v here = v
  Reach-IsVerified fuel rounds s v (later r step) =
      Round-IsVerified fuel rounds _ _ step (Reach-IsVerified fuel rounds s v r)

  -- From the moment at which the hardware information is accepted, in whatever order messages are read
  -- and the time-out thread runs, as long as the main loop goes on: each route that the lookup finds has
  -- its interface.
  pub Reach-HasInterface :
      (fuel rounds : ℕ) (buf : List ℕ) (s t : Session) {u : Session} (ip_dst : ℕ) {r : SrRt}
      → handle_vnshwinfo w buf s ≡ ok (one, t)
      → Reach fuel rounds t u
      → longest_prefix_sum u.router.routing_table ip_dst ≡ some r
      → HasInterface u.router.if_list r
  unfolding handle_vnshwinfo
  Reach-HasInterface fuel rounds buf s t {u} ip_dst {r} accept run found =
      longest_prefix_sum-HasInterface u.router.if_list u.router.routing_table ip_dst {r = r}
        (Reach-IsVerified fuel rounds t (verified s t _ accept) run) found
