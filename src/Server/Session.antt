-- ===== src/Server/Session.antt =====
-- The rest of `struct sr_instance` of 20100117_RouterAssign_1/router/sr_router.h: what the connection
-- to the server uses, with the socket and the files beside it.
use internet_course.Base.{ℕ, Bool, Option, none, some, List, [], ◌∷◌, if◌then◌else◌, ◌==◌}
use mathlib.Core.Option
use internet_course.Base.Result.{ok, fault, Cmd}
use internet_course.Iface.{SrIf}
use internet_course.Router.{SrInstance, Env}
use internet_course.Server.Socket.{Event}

-- `files` holds the files that were written, the latest first, each a name and its content. What is
-- sent goes to the `wire` of the router.
pub record Session : Type 0 where
  pub router : SrInstance
  pub user : List ℕ
  pub host : List ℕ
  pub template : List ℕ
  pub topo_id : ℕ
  pub input : List Event
  pub files : List (List ℕ × List ℕ)

-- What the program meets outside.
pub record World : Type 0 where
  pub env : Env
  -- What a new interface node holds.
  pub fresh_if : ℕ → SrIf
  -- What `fgets` reads from the file "auth_key"; `none` where it cannot be opened.
  pub auth_key : Option (Option (List ℕ))
  -- What lies in a character array that was not written to.
  pub stack : ℕ → List ℕ
  -- The five words of the digest of these bytes by sha1.c; `none` where it reports an error.
  pub sha1 : List ℕ → Option (List ℕ)
  -- Whether a file can be opened for writing.
  pub can_write : List ℕ → Bool
  -- Whether the server's name is known, a socket is made, and the server answers.
  pub resolves : Bool
  pub makes_socket : Bool
  pub connects : Bool

-- The return values 1, 0 and -1.
pub data Status : Type 0 where
  one : Status
  nought : Status
  minus_one : Status

-- The string in an array: the characters in front of the first NUL. Without one, the code reads on
-- behind the array.
unfoldable pub c_string : List ℕ → Option (List ℕ)
c_string [] = none
c_string (c ∷ cs) = if c == 0 then some [] else Option.map (λ s. c ∷ s) (c_string cs)

-- A command on the router alone.
abbrev pub on_router : {A : Type 0} → Cmd SrInstance A → Cmd Session A
on_router m s = elim (m s.router) [
  | ok (a, router') ↦ ok (a, record s { router = router' })
  | fault e ↦ fault e
]

-- A message handed to the socket; whether it was taken whole.
unfoldable pub send : World → List ℕ → Cmd Session Bool
send w message s =
    let whole = w.env.write_whole s.router.wire in
    ok (whole, record s { router = record s.router { wire = message ∷ s.router.wire } })
