-- ===== src/Sender/Aimd.antt =====
-- The controller of Assign_3/controller_AIMD_best.cc.
use internet_course.Base.{
  ℕ, ◌+◌, ◌-◌, ◌%◌, ◌^◌, ◌≤◌, ◌≡◌, refl, Bool, false, Bool-cases, inl, inr, arith, if◌then◌else◌,
  leb,
}
use internet_course.Sender.{Controller}
use internet_course.Sender.LongDouble.{LongDouble}

module _ (W : Type 0) (f : LongDouble W) where
  open f use {
    of_nat, add, sub, div, lt, le, to_uint, to_long, Fits, to_uint_nat, lt_nat, to_uint_positive,
  }

  -- The fields that the code sets, and its global variables.
  pub record State : Type 0 where
    pub this_window : W
    pub ssthresh : W
    pub next_time_out : W
    pub previous_rtt : W

  unfoldable pub controller : W → W → State
  controller window thresh = record {
    this_window = window;
    ssthresh = to_long thresh;
    next_time_out = of_nat 105;
    previous_rtt = of_nat 0;
  }

  unfoldable pub window_size : State → ℕ
  window_size s = to_uint s.this_window

  -- It only prints.
  abbrev pub datagram_was_sent : State → ℕ → ℕ → Bool → State
  datagram_was_sent s n time after_timeout = s

  pub set_window_size : W → State → State
  set_window_size size s = record s { this_window = size }

  pub slow_start : State → State
  slow_start s = record s { this_window = add s.this_window (of_nat 1) }

  unfoldable pub timeout_ms : State → ℕ
  timeout_ms s = to_uint s.next_time_out

  -- The round trip in an `unsigned int`.
  unfoldable pub current_rtt : ℕ → ℕ → ℕ
  current_rtt sent received = (received + (2 ^ 64 - sent)) % 2 ^ 64 % 2 ^ 32

  -- The window and the threshold for a round trip, before the lower bound of 1.
  unfoldable pub adapt : ℕ → State → State
  adapt rtt s =
      if leb rtt (timeout_ms s)
      then if le s.this_window s.ssthresh
        then record s { this_window = add s.this_window (of_nat 1) }
        else record s { this_window = add s.this_window (div (of_nat 2) s.this_window) }
      else record s {
        ssthresh = to_long (add (div s.this_window (of_nat 2)) (of_nat 1));
        this_window = of_nat 3;
      }

  unfoldable pub at_least_one : State → State
  at_least_one s = if lt s.this_window (of_nat 1) then record s { this_window = of_nat 1 } else s

  unfoldable pub ack_received : State → ℕ → ℕ → ℕ → ℕ → State
  ack_received s n sent received timestamp =
      let rtt = current_rtt sent timestamp in
      at_least_one (adapt rtt (record s { previous_rtt = of_nat rtt }))

  abbrev pub aimd : Controller
  aimd = record {
    State = State;
    window_size = window_size;
    datagram_was_sent = datagram_was_sent;
    ack_received = ack_received;
    timeout_ms = timeout_ms;
    sent_keeps = λ s n time after_timeout. refl;
  }

  at_least_one-lt : (s : State) → lt (at_least_one s).this_window (of_nat 1) ≡ false
  unfolding at_least_one
  at_least_one-lt s = elim (Bool-cases (lt s.this_window (of_nat 1))) [
    | inl e ↦ rw e (lt_nat 1 1 (omega arith) (omega arith))
    | inr e ↦ rw e e
  ]

  -- After an acknowledgement the window lets at least one datagram out, as long as it is a number in
  -- the range of `unsigned int`.
  pub window_size-ack_received :
      (s : State) (n sent received timestamp : ℕ)
      → Fits (ack_received s n sent received timestamp).this_window
      → 1 ≤ window_size (ack_received s n sent received timestamp)
  unfolding window_size ack_received
  window_size-ack_received s n sent received timestamp fits =
      to_uint_positive _ fits (at_least_one-lt _)
