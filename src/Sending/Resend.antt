-- ===== src/Sending/Resend.antt =====
-- RepeatMessage against the packets that are due.
use dubuframework.Base.{
  ℕ, zero, suc, ◌+◌, ◌%◌, ◌≤◌, ◌<◌, ◌≡◌, ◌≢◌, refl, sym, ap, ap₂, ◌∙◌, Bool, true, false, not, ◌&&◌,
  Option, none, some, List, [], ◌∷◌, arith, ◌==◌, leb, if◌then◌else◌, Bool-cases, Option-cases, inl,
  inr, update, update_ne, update-same, u32, sub32, succ32, ne→==,
}
use dubuframework.PacketState.{window_count}
use dubuframework.Pending.{PendingPacket, SendState}
use dubuframework.Socket.{Addr, Request, Net, send_to_repeat}
use dubuframework.Sending.Slots.{slots_update}
use dubuframework.Sending.{repeat_slot, repeat_from, repeat_message}

module _ {S : Type 0} (resend_delay now : ℕ) where
  -- Whether the kernel is done with the packet and the delay is over
  abbrev pub is_due : ℕ → PendingPacket → Net S → Bool
  is_due a p n =
      not (n.packets.buffers a).obj_type.sending && leb resend_delay (sub32 now p.time_stamp)

  abbrev due_slot : Option ℕ → PendingPacket → Net S → List ℕ → List ℕ
  due_slot none p n rest = rest
  due_slot (some a) p n rest = if is_due a p n then a ∷ rest else rest

  -- The buffers of the `len` messages from `k` on that are due, in their order
  unfoldable pub due : ℕ → ℕ → SendState → Net S → List ℕ
  due zero k s n = []
  due (suc len) k s n =
      let p = s.pending_packets (k % window_count) in due_slot p.buffer p n (due len (k + 1) s n)

-- Sending each buffer of a list, one after another
abbrev pub requested : Addr → List ℕ → List Request → List Request
requested addr [] rest = rest
requested addr (a ∷ as') rest = requested addr as' (Request.send addr a ∷ rest)

-- No buffer stands in two slots.
abbrev pub AreApart : SendState → Type 0
AreApart s =
    (i j a : ℕ)
    → (s.pending_packets i).buffer ≡ some a
    → (s.pending_packets j).buffer ≡ some a
    → i ≡ j

-- The window of RepeatMessage once the buffer of slot `i` is sent again at the time `now`
abbrev again : ℕ → ℕ → SendState → SendState
again now i s = record s {
  pending_packets = update s.pending_packets i (record (s.pending_packets i) { time_stamp = now });
}

again-AreApart : (now i : ℕ) (s : SendState) → AreApart s → AreApart (again now i s)
again-AreApart now i s apart j k b atj atk =
    let same =
      slots_update s.pending_packets i (record (s.pending_packets i) { time_stamp = now })
      ∙ update-same (λ j. (s.pending_packets j).buffer) i in
    let slot : (j : ℕ) → ((again now i s).pending_packets j).buffer ≡ (s.pending_packets j).buffer =
      λ j. ap (λ f. f j) same in
    apart j k b (sym (slot j) ∙ atj) (sym (slot k) ∙ atk)

module _ {S : Type 0} (addr : Addr) (resend_delay now : ℕ) where
  -- What is due does not depend on the slots and buffers outside.
  due-same :
      (len k : ℕ) (s s' : SendState) (n n' : Net S)
      → ((d : ℕ)
          → d < len
          → s'.pending_packets ((k + d) % window_count)
            ≡ s.pending_packets ((k + d) % window_count))
      → ((d a : ℕ)
          → d < len
          → (s.pending_packets ((k + d) % window_count)).buffer ≡ some a
          → (n'.packets.buffers a).obj_type.sending ≡ (n.packets.buffers a).obj_type.sending)
      → due resend_delay now len k s' n' ≡ due resend_delay now len k s n
  unfolding due
  due-same zero k s s' n n' same idle = refl
  due-same (suc len) k s s' n n' same idle =
      let z : k + 0 ≡ k = omega arith in
      let at : s'.pending_packets (k % window_count) ≡ s.pending_packets (k % window_count) =
        rw z at (same 0 (omega arith)) in
      let rest =
        due-same len (k + 1) s s' n n'
          (λ d lt.
            let e : k + (d + 1) ≡ k + 1 + d = omega arith in rw e at (same (d + 1) (omega arith)))
          (λ d a lt is.
            let e : k + (d + 1) ≡ k + 1 + d = omega arith in
            idle (d + 1) a (omega arith) (rw e is)) in
      elim (Option-cases (s.pending_packets (k % window_count)).buffer) [
        | inl gone ↦ rw (at, rest, gone) refl
        | inr (a, is) ↦ rw (at, rest, is, idle 0 a (omega arith) (rw z is)) refl
      ]

  slot_none :
      (i : ℕ) (s : SendState) (n : Net S)
      → (s.pending_packets i).buffer ≡ none
      → repeat_slot addr resend_delay now (s.pending_packets i).buffer i (s, n) ≡ (s, n)
  unfolding repeat_slot
  slot_none i s n gone = rw (gone, repeat_slot) refl

  slot_late :
      (i a : ℕ) (s : SendState) (n : Net S)
      → (s.pending_packets i).buffer ≡ some a
      → is_due resend_delay now a (s.pending_packets i) n ≡ false
      → repeat_slot addr resend_delay now (s.pending_packets i).buffer i (s, n) ≡ (s, n)
  unfolding repeat_slot
  slot_late i a s n is off = rw (is, repeat_slot, off) refl

  slot_due :
      (i a : ℕ) (s : SendState) (n : Net S)
      → (s.pending_packets i).buffer ≡ some a
      → is_due resend_delay now a (s.pending_packets i) n ≡ true
      → repeat_slot addr resend_delay now (s.pending_packets i).buffer i (s, n)
        ≡ (again now i s, send_to_repeat addr a n)
  unfolding repeat_slot
  slot_due i a s n is on = ap (λ o. repeat_slot addr resend_delay now o i (s, n)) is ∙ rw on refl

  -- Sending one message again leaves what else is due.
  due-again :
      (len k a : ℕ) (s : SendState) (n : Net S)
      → suc len ≤ window_count
      → AreApart s
      → (s.pending_packets (k % window_count)).buffer ≡ some a
      → due resend_delay now len (k + 1) (again now (k % window_count) s) (send_to_repeat addr a n)
        ≡ due resend_delay now len (k + 1) s n
  unfolding send_to_repeat
  due-again len k a s n few apart is =
      due-same len (k + 1) s (again now (k % window_count) s) n (send_to_repeat addr a n)
        (λ d lt.
          let ne : k % window_count ≢ (k + 1 + d) % window_count = omega arith in
          update_ne s.pending_packets (k % window_count) _ _ ne)
        (λ d b lt at.
          let ne : k % window_count ≢ (k + 1 + d) % window_count = omega arith in
          let other : a ≢ b = λ e. ne (apart _ _ b (is ∙ ap some e) at) in
          ap (λ x. x.obj_type.sending) (update_ne n.packets.buffers a _ b other))

  -- One round, by what stands in the slot
  due-none :
      (len k : ℕ) (s : SendState) (n : Net S)
      → (s.pending_packets (k % window_count)).buffer ≡ none
      → due resend_delay now (suc len) k s n ≡ due resend_delay now len (k + 1) s n
  unfolding due
  due-none len k s n gone = rw gone refl

  due_late :
      (len k a : ℕ) (s : SendState) (n : Net S)
      → (s.pending_packets (k % window_count)).buffer ≡ some a
      → is_due resend_delay now a (s.pending_packets (k % window_count)) n ≡ false
      → due resend_delay now (suc len) k s n ≡ due resend_delay now len (k + 1) s n
  unfolding due
  due_late len k a s n is off = rw (is, off) refl

  due-now :
      (len k a : ℕ) (s : SendState) (n : Net S)
      → (s.pending_packets (k % window_count)).buffer ≡ some a
      → is_due resend_delay now a (s.pending_packets (k % window_count)) n ≡ true
      → due resend_delay now (suc len) k s n ≡ a ∷ due resend_delay now len (k + 1) s n
  unfolding due
  due-now len k a s n is on = rw (is, on) refl

  round :
      (len k : ℕ) (s : SendState) (n : Net S)
      → suc len ≤ window_count
      → s.local_seqence ≡ u32 (k + suc len)
      → repeat_from addr resend_delay now (suc len) (u32 k) (s, n)
        ≡ repeat_from addr resend_delay now len (u32 (k + 1)) (
            repeat_slot addr resend_delay now
              (s.pending_packets (k % window_count)).buffer
              (k % window_count)
              (s, n))
  unfolding repeat_from
  round len k s n few end =
      let at : u32 k % window_count ≡ k % window_count = omega arith in
      let next : succ32 (u32 k) ≡ u32 (k + 1) = omega arith in
      let ne : u32 k ≢ s.local_seqence = λ q. omega (arith, q, end, few) in
      let go : (u32 k == s.local_seqence) ≡ false = ne→== _ _ ne in rw (go, at, next) refl

  repeat_from-due :
      (len k : ℕ) (s : SendState) (n : Net S)
      → len ≤ window_count
      → AreApart s
      → s.local_seqence ≡ u32 (k + len)
      → (repeat_from addr resend_delay now len (u32 k) (s, n)).1.requests
        ≡ requested addr (due resend_delay now len k s n) n.requests
  unfolding repeat_from due send_to_repeat
  repeat_from-due zero k s n few apart end = refl
  repeat_from-due (suc len) k s n few apart end =
      let i = k % window_count in
      let end' : s.local_seqence ≡ u32 (k + 1 + len) = omega (arith, end) in
      let first = round len k s n few end in
      let go : SendState × Net S → List Request =
        λ sn. (repeat_from addr resend_delay now len (u32 (k + 1)) sn).1.requests in
      let all : List ℕ → List Request = λ l. requested addr l n.requests in
      let rest = repeat_from-due len (k + 1) s n (omega arith) apart end' in
      ap (λ r. r.1.requests) first ∙ elim (Option-cases (s.pending_packets i).buffer) [
        | inl gone ↦ ap go (slot_none i s n gone) ∙ (rest ∙ ap all (sym (due-none len k s n gone)))
        | inr (a, is) ↦ elim (Bool-cases (is_due resend_delay now a (s.pending_packets i) n)) [
          | inr off ↦
              ap go (slot_late i a s n is off) ∙ (rest ∙ ap all (sym (due_late len k a s n is off)))
          | inl on ↦
              ap go (slot_due i a s n is on)
              ∙ (repeat_from-due len (k + 1) (again now i s) (send_to_repeat addr a n) (omega arith)
                    (again-AreApart now i s apart) end'
                  ∙ (ap (λ l. requested addr l (Request.send addr a ∷ n.requests))
                        (due-again len k a s n few apart is)
                      ∙ ap all (sym (due-now len k a s n is on))))
        ]
      ]

  -- If no buffer stands in two slots, RepeatMessage of a window of at most 64 messages from `k` on
  -- requests, in their order, exactly the sends of the buffers that are due: those that wait, that
  -- the kernel does not send, and whose delay is over. So each packet that waits is sent again.
  pub repeat_message-due :
      (len k : ℕ) (s : SendState) (n : Net S)
      → len ≤ window_count
      → AreApart s
      → s.local_window_start ≡ u32 k
      → s.local_seqence ≡ u32 (k + len)
      → (repeat_message addr resend_delay now (s, n)).1.requests
        ≡ requested addr (due resend_delay now len k s n) n.requests
  unfolding repeat_message
  repeat_message-due len k s n few apart start end =
      let long : sub32 s.local_seqence s.local_window_start ≡ len =
        omega (arith, start, end, few) in
      ap₂ (λ rounds from. (repeat_from addr resend_delay now rounds from (s, n)).1.requests) long
        start
      ∙ repeat_from-due len k s n few apart end
