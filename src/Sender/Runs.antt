-- ===== src/Sender/Runs.antt =====
-- Every run of the sender, as a relation: `poll` reports events in any order.
use internet_course.Base.{
  ℕ, zero, suc, ◌+◌, ◌%◌, ◌^◌, ◌<◌, ◌≤◌, ◌≡◌, ◌≢◌, refl, ◌∙◌, sym, subst, ap, Bool, true, false,
  Bool-cases, inl, inr, Option-cases, none, some, List, [], ◌∷◌, length, arith, if◌then◌else◌, ltb,
}
use mathlib.Core.Option.{some-injective}
use internet_course.Sender.{
  Controller, DatagrumpSender, PollEvent, writable, readable, timeout, finished, continues, start,
  window_is_open, send_datagram, got_ack, close_window, handle_event,
}

-- The numbers below `n`, the latest first.
abbrev pub down : ℕ → List ℕ
down zero = []
down (suc n) = n ∷ down n

length-down : (n : ℕ) → length (down n) ≡ n
length-down zero = refl
length-down (suc n) = ap suc (length-down n)

module _ (c : Controller) (clock : ℕ → ℕ) (fuel : ℕ) where
  -- A receiver acknowledges what was sent.
  abbrev pub Honest : DatagrumpSender c → PollEvent → Type 0
  Honest s writable = Unit
  Honest s (readable is_ack n sent received timestamp) = n < s.sequence_number
  Honest s timeout = Unit
  Honest s (finished status) = Unit

  pub data Step (s t : DatagrumpSender c) : Type 0 where
    event : (e : PollEvent) → Honest s e → handle_event c clock fuel e s ≡ continues t → Step s t

  pub data Reach (k : c.State) : DatagrumpSender c → Type 0 where
    here : Reach k (start c k)
    later : {s t : DatagrumpSender c} → Reach k s → Step s t → Reach k t

  -- No more was acknowledged than was sent, and the datagrams are numbered from 0 on, each number
  -- once.
  pub record IsNumbered (s : DatagrumpSender c) : Type 0 where
    pub acknowledged : s.next_ack_expected ≤ s.sequence_number
    pub consecutive : s.wire ≡ down s.sequence_number

  IsNumbered-length : (s : DatagrumpSender c) → IsNumbered s → length s.wire ≡ s.sequence_number
  IsNumbered-length s i = ap length i.consecutive ∙ length-down s.sequence_number

  send-IsNumbered :
      (after_timeout : Bool) (s : DatagrumpSender c)
      → IsNumbered s
      → length (send_datagram c clock after_timeout s).wire < 2 ^ 64
      → IsNumbered (send_datagram c clock after_timeout s)
  unfolding send_datagram
  send-IsNumbered after_timeout s i few =
      let next : (s.sequence_number + 1) % 2 ^ 64 ≡ suc s.sequence_number =
        omega (arith, IsNumbered-length s i) in
      record {
        acknowledged = omega (arith, next, i.acknowledged);
        consecutive = ap (◌∷◌ s.sequence_number) i.consecutive ∙ ap down (sym next);
      }

  close_window-grows :
      (rounds : ℕ) (s t : DatagrumpSender c)
      → close_window c clock rounds s ≡ some t
      → length s.wire ≤ length t.wire
  unfolding close_window send_datagram
  close_window-grows zero s t e = ground arith
  close_window-grows (suc rounds) s t e =
      ground (arith, close_window-grows rounds (send_datagram c clock false s) t)

  close_window-IsNumbered :
      (rounds : ℕ) (s t : DatagrumpSender c)
      → close_window c clock rounds s ≡ some t
      → length t.wire < 2 ^ 64
      → IsNumbered s
      → IsNumbered t
  unfolding close_window
  close_window-IsNumbered zero s t e few i = elim (Bool-cases (window_is_open c s)) [
    | inl o ↦ let e' : none ≡ some t = rw o at e in cc
    | inr o ↦ let e' : some s ≡ some t = rw o at e in subst IsNumbered (some-injective _ _ e') i
  ]
  close_window-IsNumbered (suc rounds) s t e few i = elim (Bool-cases (window_is_open c s)) [
    | inl o ↦
        let u = send_datagram c clock false s in
        let e' : close_window c clock rounds u ≡ some t = rw o at e in
        let grown = close_window-grows rounds u t e' in
        close_window-IsNumbered rounds u t e' few
          (send-IsNumbered false s i (omega (arith, grown, few)))
    | inr o ↦ let e' : some s ≡ some t = rw o at e in subst IsNumbered (some-injective _ _ e') i
  ]

  handle_event-grows :
      (e : PollEvent) (s t : DatagrumpSender c)
      → handle_event c clock fuel e s ≡ continues t
      → length s.wire ≤ length t.wire
  unfolding handle_event send_datagram got_ack
  handle_event-grows writable s t h = ground (arith, close_window-grows fuel s t)
  handle_event-grows (readable true n sent received timestamp) s t h = ground arith
  handle_event-grows (readable false n sent received timestamp) s t h = ground arith
  handle_event-grows timeout s t h = ground arith
  handle_event-grows (finished status) s t h = ground arith

  acked-IsNumbered :
      (n sent received timestamp : ℕ) (s t : DatagrumpSender c)
      → n < s.sequence_number
      → got_ack c timestamp true n sent received s ≡ some t
      → length t.wire < 2 ^ 64
      → IsNumbered s
      → IsNumbered t
  unfolding got_ack
  acked-IsNumbered n sent received timestamp s t honest h few i =
      let e = some-injective _ t h in
      let sized = IsNumbered-length s i in
      let wire : s.wire ≡ t.wire = ap (λ u. u.wire) e in
      let count : s.sequence_number ≡ t.sequence_number = ap (λ u. u.sequence_number) e in
      let ack : (if ltb s.next_ack_expected ((n + 1) % 2 ^ 64)
            then (n + 1) % 2 ^ 64
            else s.next_ack_expected)
          ≡ t.next_ack_expected =
        ap (λ u. u.next_ack_expected) e in
      record {
        acknowledged = ground (arith, ap length wire);
        consecutive = sym wire ∙ i.consecutive ∙ ap down count;
      }

  not_an_ack :
      (n sent received timestamp : ℕ) (s t : DatagrumpSender c)
      → handle_event c clock fuel (readable false n sent received timestamp) s ≢ continues t
  unfolding handle_event got_ack
  not_an_ack n sent received timestamp s t h = cc

  handle_event-IsNumbered :
      (e : PollEvent) (s t : DatagrumpSender c)
      → Honest s e
      → handle_event c clock fuel e s ≡ continues t
      → length t.wire < 2 ^ 64
      → IsNumbered s
      → IsNumbered t
  unfolding handle_event
  handle_event-IsNumbered writable s t honest h few i = elim (Bool-cases (window_is_open c s)) [
    | inl o ↦ elim (Option-cases (close_window c clock fuel s)) [
      | inl e ↦ let h' = rw o at h in absurd (cc)
      | inr (u, e) ↦
          let same : u ≡ t = cc (rw (o, e) at h) in
          close_window-IsNumbered fuel s t (e ∙ ap some same) few i
    ]
    | inr o ↦ let same : s ≡ t = cc (rw o at h) in subst IsNumbered same i
  ]
  handle_event-IsNumbered (readable true n sent received timestamp) s t honest h few i =
      elim (Option-cases (got_ack c timestamp true n sent received s)) [
        | inl e ↦ absurd (cc)
        | inr (u, e) ↦
            let same : u ≡ t = cc (rw (e, handle_event) at h) in
            acked-IsNumbered n sent received timestamp s t honest (e ∙ ap some same) few i
      ]
  handle_event-IsNumbered (readable false n sent received timestamp) s t honest h few i =
      absurd (not_an_ack n sent received timestamp s t h)
  handle_event-IsNumbered timeout s t honest h few i =
      let same : send_datagram c clock true s ≡ t = cc in
      subst IsNumbered same (send-IsNumbered true s i (rw same few))
  handle_event-IsNumbered (finished status) s t honest h few i = absurd (cc)

  -- However `poll` orders its events, and whatever the controller does, with a receiver that
  -- acknowledges only what was sent: as long as fewer than 2 ^ 64 datagrams were sent, they are
  -- numbered from 0 on, each number once, and no more is acknowledged than was sent.
  pub Reach-IsNumbered :
      (k : c.State) {t : DatagrumpSender c} → length t.wire < 2 ^ 64 → Reach k t → IsNumbered t
  unfolding start
  Reach-IsNumbered k few here = record { acknowledged = omega arith; consecutive = refl }
  Reach-IsNumbered k {t} few (later {s} r (event e honest h)) =
      let grown = handle_event-grows e s t h in
      handle_event-IsNumbered e s t honest h few (Reach-IsNumbered k (omega (arith, grown, few)) r)
