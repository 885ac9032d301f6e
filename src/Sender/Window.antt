-- ===== src/Sender/Window.antt =====
-- The loop that closes the window, and when the window opens again.
use internet_course.Base.{
  ℕ, zero, suc, ◌+◌, ◌-◌, ◌%◌, ◌^◌, ◌<◌, ◌≤◌, ◌≡◌, refl, ◌∙◌, ap, true, false, some, List, ◌∷◌,
  arith, ltb,
}
use internet_course.Sender.{
  Controller, DatagrumpSender, window_is_open, send_datagram, close_window, got_ack,
}

-- The numbers from `n` on, `count` of them, the latest first, in front of those before.
abbrev pub numbered : ℕ → ℕ → List ℕ → List ℕ
numbered zero n wire = wire
numbered (suc count) n wire = numbered count (suc n) (n ∷ wire)

module _ (c : Controller) where
  -- No more datagrams are acknowledged than were sent, and the numbers do not wrap around.
  pub record IsAccounted (s : DatagrumpSender c) : Type 0 where
    pub acknowledged : s.next_ack_expected ≤ s.sequence_number
    pub no_wrap : s.sequence_number < 2 ^ 64

  pub window_is_open_lem :
      (s : DatagrumpSender c)
      → IsAccounted s
      → window_is_open c s
        ≡ ltb (s.sequence_number - s.next_ack_expected) (c.window_size s.controller)
  unfolding window_is_open
  window_is_open_lem s a = ap (λ d. ltb d (c.window_size s.controller)) (omega (arith, a))

  -- With no more acknowledged than sent, and numbers that stay below 2 ^ 64, the loop ends, with as
  -- much fuel as datagrams are missing from the window: it sends exactly those, numbered one after the
  -- other, and afterwards the window is closed. What was acknowledged stays.
  pub close_window_lem :
      (clock : ℕ → ℕ) (fuel room : ℕ) (s : DatagrumpSender c)
      → room ≤ fuel
      → s.next_ack_expected ≤ s.sequence_number
      → s.sequence_number + room + 1 < 2 ^ 64
      → room ≡ c.window_size s.controller - (s.sequence_number - s.next_ack_expected)
      → (t : DatagrumpSender c) × (close_window c clock fuel s ≡ some t)
        × (t.sequence_number ≡ s.sequence_number + room)
        × (t.next_ack_expected ≡ s.next_ack_expected)
        × (t.wire ≡ numbered room s.sequence_number s.wire)
        × (window_is_open c t ≡ false)
  unfolding close_window send_datagram
  close_window_lem clock zero zero s enough a below e =
      let shut : window_is_open c s ≡ false = window_is_open_lem s (omega arith) ∙ ground arith in
      (s, rw shut, omega arith, refl, refl, shut)
  close_window_lem clock zero (suc room) s enough a below e = absurd (omega arith)
  close_window_lem clock (suc fuel) zero s enough a below e =
      let shut : window_is_open c s ≡ false = window_is_open_lem s (omega arith) ∙ ground arith in
      (s, rw shut, omega arith, refl, refl, shut)
  close_window_lem clock (suc fuel) (suc room) s enough a below e =
      let opened : window_is_open c s ≡ true = window_is_open_lem s (omega arith) ∙ ground arith in
      let n = s.sequence_number in
      let kept = c.sent_keeps s.controller n (clock n) false in
      let next : (n + 1) % 2 ^ 64 ≡ suc n = omega arith in
      let (t, ran, count, ack, wire, shut) =
        close_window_lem clock fuel room (send_datagram c clock false s) (omega arith)
          (omega (arith, next)) (omega (arith, next)) (omega (arith, next, kept)) in
      (
        t,
        rw opened ran,
        omega (arith, count, next),
        ack,
        wire ∙ ap (λ m. numbered room m (n ∷ s.wire)) next,
        shut,
      )

  -- With no more acknowledged than sent, and numbers below 2 ^ 64: when the last datagram that was sent
  -- is acknowledged, the window is open, if the controller then lets at least one datagram out; the
  -- sender does not stall.
  pub got_ack-opens :
      (s : DatagrumpSender c) (n sent received timestamp : ℕ)
      → IsAccounted s
      → s.sequence_number ≡ n + 1
      → 1 ≤ c.window_size (c.ack_received s.controller n sent received timestamp)
      → (t : DatagrumpSender c) × (got_ack c timestamp true n sent received s ≡ some t)
        × (window_is_open c t ≡ true)
  unfolding got_ack window_is_open
  got_ack-opens s n sent received timestamp a last lets =
      (_, refl, ground (arith, a.acknowledged, a.no_wrap))
