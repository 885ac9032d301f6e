-- ===== src/Server/Socket.antt =====
-- The two loops of `sr_read_from_server_expect` in 20100117_RouterAssign_1/router/sr_vns_comm.c that
-- read a number of bytes from the socket.
pub mod Stream
use internet_course.Base.{
  ℕ, zero, suc, ◌+◌, ◌-◌, ◌<◌, ◌≤◌, ◌≡◌, refl, sym, ap, ◌∙◌, Option, none, some, List, [], ◌∷◌,
  ◌++◌, length, take, drop, length-append, arith,
}
use internet_course.Base.Result.{Result, ok, fault, out_of_fuel}

-- What the socket will do: bytes arrive, at least one; a signal breaks a call; a call fails.
pub data Event : Type 0 where
  arrives : ℕ → List ℕ → Event
  interrupted : Event
  fails : Event

-- What one call of `recv` or `read` gives: bytes, or -1 with the `errno` EINTR or another.
pub data Received : Type 0 where
  bytes : List ℕ → Received
  eintr : Received
  error : Received

-- The bytes that have arrived and are not yet read stay for the next call.
abbrev pub left_over : List ℕ → List Event → List Event
left_over [] input = input
left_over (b ∷ bs) input = arrives b bs ∷ input

-- A call for `n` bytes: as many of those that have arrived, up to `n`; none where the other side
-- has closed the connection.
unfoldable pub recv : ℕ → List Event → Received × List Event
recv n [] = (bytes [], [])
recv n (arrives b bs ∷ input) = (bytes (take n (b ∷ bs)), left_over (drop n (b ∷ bs)) input)
recv n (interrupted ∷ input) = (eintr, input)
recv n (fails ∷ input) = (error, input)

-- The bytes in front of those that the rest of the loop reads.
abbrev pub prepend :
    List ℕ → Result (Option (List ℕ) × List Event) → Result (Option (List ℕ) × List Event)
prepend bs (ok (some rest, input)) = ok (some (bs ++ rest), input)
prepend bs (ok (none, input)) = ok (none, input)
prepend bs (fault e) = fault e

-- The loop until `n` bytes are read. The first bytes read come first; after EINTR the call is made
-- again; `none` is the return of -1.
unfoldable pub read_all : ℕ → ℕ → List Event → Result (Option (List ℕ) × List Event)
read_all fuel zero input = ok (some [], input)
read_all zero (suc n) input = fault out_of_fuel
read_all (suc fuel) (suc n) input =
    let (received, rest) = recv (suc n) input in
    elim received [
      | bytes bs ↦ prepend bs (read_all fuel (suc n - length bs) rest)
      | eintr ↦ read_all fuel (suc n) rest
      | error ↦ ok (none, rest)
    ]
