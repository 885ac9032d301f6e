-- ===== src/Sender.antt =====
-- `DatagrumpSender` of Assign_3/sender.cc. The congestion controller is an interface, with two
-- implementations; the socket, the poller and the messages of the contest are not in the repository:
-- what `poll` reports and what the code reads of a message are arguments.
pub mod LongDouble
pub mod Aimd
pub mod Throughput
pub mod Window
pub mod Runs
mod Examples
use internet_course.Base.{
  ℕ, zero, suc, ◌+◌, ◌-◌, ◌%◌, ◌^◌, ◌≡◌, Bool, true, false, Option, none, some, List, [], ◌∷◌,
  if◌then◌else◌, ltb,
}

-- `class Controller` of Assign_3/controller.hh, as the sender uses it. The sender relies on this:
-- that a datagram was sent does not change the window.
pub record Controller : Type 1 where
  pub State : Type 0
  pub window_size : State → ℕ
  pub datagram_was_sent : State → ℕ → ℕ → Bool → State
  pub ack_received : State → ℕ → ℕ → ℕ → ℕ → State
  pub timeout_ms : State → ℕ
  pub sent_keeps :
      (c : State) (n time : ℕ) (after_timeout : Bool)
      → window_size (datagram_was_sent c n time after_timeout) ≡ window_size c

-- The larger of two `uint64_t`.
abbrev pub max : ℕ → ℕ → ℕ
max a b = if ltb a b then b else a

-- What an event of `poll` leads to.
pub data Next (S : Type 0) : Type 0 where
  continues : S → Next S
  exits : ℕ → Next S
  throws : Next S
  runs_on : Next S

-- What `poll` reports: the socket takes data; a message came, with what the code reads of it; no
-- event before the time-out; the end.
pub data PollEvent : Type 0 where
  writable : PollEvent
  readable : Bool → ℕ → ℕ → ℕ → ℕ → PollEvent
  timeout : PollEvent
  finished : ℕ → PollEvent

module _ (c : Controller) where
  -- `wire` holds the numbers of the datagrams that were sent, the latest first.
  pub record DatagrumpSender : Type 0 where
    pub controller : c.State
    pub sequence_number : ℕ
    pub next_ack_expected : ℕ
    pub wire : List ℕ

  unfoldable pub start : c.State → DatagrumpSender
  start controller = record {
    controller = controller;
    sequence_number = 0;
    next_ack_expected = 0;
    wire = [];
  }

  unfoldable pub window_is_open : DatagrumpSender → Bool
  window_is_open s =
      ltb ((s.sequence_number + (2 ^ 64 - s.next_ack_expected)) % 2 ^ 64)
        (c.window_size s.controller)

  -- `clock` gives the time at which a datagram is sent.
  unfoldable pub send_datagram : (ℕ → ℕ) → Bool → DatagrumpSender → DatagrumpSender
  send_datagram clock after_timeout s =
      let n = s.sequence_number in
      record s {
        controller = c.datagram_was_sent s.controller n (clock n) after_timeout;
        sequence_number = (n + 1) % 2 ^ 64;
        wire = n ∷ s.wire;
      }

  -- `none` is the exception.
  unfoldable pub got_ack : ℕ → Bool → ℕ → ℕ → ℕ → DatagrumpSender → Option DatagrumpSender
  got_ack timestamp false n sent received s = none
  got_ack timestamp true n sent received s = some (record s {
    next_ack_expected = max s.next_ack_expected ((n + 1) % 2 ^ 64);
    controller = c.ack_received s.controller n sent received timestamp;
  })

  -- `while (window_is_open()) send_datagram(false)`; `none` where the fuel is used up.
  unfoldable pub close_window : (ℕ → ℕ) → ℕ → DatagrumpSender → Option DatagrumpSender
  close_window clock zero s = if window_is_open s then none else some s
  close_window clock (suc fuel) s =
      let rest = close_window clock fuel (send_datagram clock false s) in
      if window_is_open s then rest else some s

  -- One round of the loop. The rule for a writable socket is on only while the window is open.
  unfoldable pub handle_event : (ℕ → ℕ) → ℕ → PollEvent → DatagrumpSender → Next DatagrumpSender
  handle_event clock fuel writable s =
      if window_is_open s
      then elim (close_window clock fuel s) [ none ↦ runs_on | some t ↦ continues t ]
      else continues s
  handle_event clock fuel (readable is_ack n sent received timestamp) s =
      elim (got_ack timestamp is_ack n sent received s) [ none ↦ throws | some t ↦ continues t ]
  handle_event clock fuel timeout s = continues (send_datagram clock true s)
  handle_event clock fuel (finished status) s = exits status

  -- The loop, over what `poll` reports round by round.
  unfoldable pub loop : (ℕ → ℕ) → ℕ → List PollEvent → DatagrumpSender → Next DatagrumpSender
  loop clock fuel [] s = continues s
  loop clock fuel (e ∷ es) s = elim (handle_event clock fuel e s) [
    | continues t ↦ loop clock fuel es t
    | exits status ↦ exits status
    | throws ↦ throws
    | runs_on ↦ runs_on
  ]
