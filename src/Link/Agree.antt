-- ===== src/Link/Agree.antt =====
-- What the two ends of a channel agree on.
use dubuframework.Base.{
  ℕ, ◌+◌, ◌%◌, ◌≤◌, ◌<◌, ◌≡◌, ◌⊎◌, inl, inr, refl, sym, ap, ◌∙◌, Bool, true, false, Option, none,
  some, List, ◌++◌, arith, ◌==◌, update, update_self, update_ne, u32, Bool-cases, Option-cases,
  append_assoc,
}
use native.Mathlib.Decide.{ℕ_discrete}
use dubuframework.PacketState.{window_count}
use dubuframework.Packet.{Packet}
use dubuframework.PacketManager.{PacketManager}
use dubuframework.Pending.{SendState, add_pending_packet, ack_slot, ack_process, is_null}
use dubuframework.Pending.Window.{Waits}
use dubuframework.Channel.{Receiving}
use dubuframework.Channel.Ahead.{messages, IsWindow}
use dubuframework.Channel.Order.{messages-add}
use dubuframework.Link.{Link, message}

abbrev pub is_some : {A : Type 0} → Option A → Bool
is_some none = false
is_some (some a) = true

-- `live` tells the buffers that wait, from message `k` on; `got` the messages that were received, all
-- of them up to `upto`. A message has the number of the call that sent it.
pub record IsLink {S : Type 0} (content : ℕ → Packet) (seen : S → List Packet)
    (before : List Packet) (l : Link S) : Type 0 where
  pub live : ℕ → Option ℕ
  pub k : ℕ
  pub len : ℕ
  pub got : ℕ → Bool
  pub upto : ℕ
  pub w : ℕ
  pub drawn : l.sender.send_repeat_seq ≡ u32 l.count
  pub waits : Waits live k len l.sender
  pub last : k + len ≤ l.count + 1
  pub window : IsWindow (message content) got 2 upto w l.receiver.cap
  pub log : seen l.receiver.host ≡ before ++ messages (message content) 0 upto
  pub wire :
      (n : ℕ) (p : Packet)
      → l.sent n ≡ some p
      → (p ≡ message content n) × (1 ≤ n) × (n ≤ l.count) × (n < k + window_count)
  pub waiting : (n : ℕ) → is_null (live n) ≡ false → is_some (l.sent n) ≡ true
  pub received : (n : ℕ) → got n ≡ true → (n ≡ 0) ⊎ (is_some (l.sent n) ≡ true)
  pub settled : (n : ℕ) → is_some (l.sent n) ≡ true → live n ≡ none → got n ≡ true
  pub acked : (n : ℕ) → l.acks n ≡ true → (got n ≡ true) × (n ≤ l.count)

-- The numbers drawn stay those of the calls.
pub add_pending_packet-drawn :
    (m : PacketManager) (a : ℕ) (s : SendState)
    → (add_pending_packet m a s).0.send_repeat_seq ≡ s.send_repeat_seq
unfolding add_pending_packet
add_pending_packet-drawn m a s = ground arith

pub ack_process-drawn :
    (smooth : ℕ → ℕ → ℕ) (now n : ℕ) (s : SendState) (rtt : ℕ) (m : PacketManager)
    → (ack_process smooth now n s rtt m).0.send_repeat_seq ≡ s.send_repeat_seq
unfolding ack_process ack_slot
ack_process-drawn smooth now n s rtt m =
    let p = s.pending_packets (n % window_count) in
    elim (Bool-cases (p.sequence_no == n)) [
      | inr off ↦ rw (off, ack_process) refl
      | inl on ↦ elim (Option-cases p.buffer) [
        | inl gone ↦ rw (on, gone, ack_process, ack_slot) refl
        | inr (a, is) ↦ rw (on, is, ack_process, ack_slot) refl
      ]
    ]

pub some-is_some : {A : Type 0} {o : Option A} {a : A} → o ≡ some a → is_some o ≡ true
some-is_some e = ap is_some e

pub is_some-some : {A : Type 0} (o : Option A) → is_some o ≡ true → (a : A) × (o ≡ some a)
is_some-some none on = cc on
is_some-some (some a) on = (a, refl)

module _ {S : Type 0} {content : ℕ → Packet} {seen : S → List Packet} {before : List Packet} where
  -- A message that is received was sent.
  pub received_le :
      (l : Link S) (v : IsLink content seen before l) (n : ℕ)
      → v.got n ≡ true
      → (n ≤ l.count) × (n < v.k + window_count)
  received_le l v n on = elim (v.received n on) [
    | inl z ↦ (omega (arith, z), omega (arith, z))
    | inr there ↦
        let (p, is) = is_some-some (l.sent n) there in
        let (e, low, high, near) = v.wire n p is in (high, near)
  ]

  pub upto_le :
      (l : Link S) (v : IsLink content seen before l)
      → (v.upto ≤ l.count) × (v.upto < v.k + window_count)
  upto_le l v = received_le l v v.upto (v.window.done v.upto (omega arith))

  -- The receiver has gone on, and what it has received is still what was sent.
  pub received-IsLink :
      (l : Link S) (v : IsLink content seen before l) (got : ℕ → Bool) (m w : ℕ) (r : Receiving S)
      (acks : ℕ → Bool)
      → IsWindow (message content) got 2 (v.upto + m) w r.cap
      → seen r.host ≡ seen l.receiver.host ++ messages (message content) v.upto m
      → ((j : ℕ) → v.got j ≡ true → got j ≡ true)
      → ((j : ℕ) → got j ≡ true → (j ≡ 0) ⊎ (is_some (l.sent j) ≡ true))
      → ((j : ℕ) → acks j ≡ true → (got j ≡ true) × (j ≤ l.count))
      → IsLink content seen before (record l { receiver = r; acks = acks })
  received-IsLink l v got m w r acks window log more sent acked = record {
    live = v.live;
    k = v.k;
    len = v.len;
    got = got;
    upto = v.upto + m;
    w = w;
    drawn = v.drawn;
    waits = v.waits;
    last = v.last;
    window = window;
    log =
        let e : 0 + v.upto ≡ v.upto = omega arith in
        rw (log, v.log, messages-add (message content) 0 v.upto m, e, append_assoc) refl;
    wire = v.wire;
    waiting = v.waiting;
    received = sent;
    settled = λ j on gone. more j (v.settled j on gone);
    acked = acked;
  }

pub update_more : (got : ℕ → Bool) (n j : ℕ) → got j ≡ true → update got n true j ≡ true
update_more got n j on = ground (arith, on)

pub marked_cases :
    (got : ℕ → Bool) (n j : ℕ) → update got n true j ≡ true → (j ≡ n) ⊎ (got j ≡ true)
marked_cases got n j on = elim (ℕ_discrete n j) [
  | yes e ↦ inl (sym e)
  | no ne ↦ inr (rw (update_ne got n true j ne) at on)
]

pub marked_kept :
    {A : Type 0} (f : ℕ → Option A) (n j : ℕ) (a : A)
    → is_some (f j) ≡ true
    → is_some (update f n (some a) j) ≡ true
marked_kept f n j a on = elim (ℕ_discrete n j) [
  | yes e ↦ rw (sym e) (some-is_some (update_self f n (some a)))
  | no ne ↦ rw (update_ne f n (some a) j ne) on
]

pub some_gone : (f : ℕ → Option ℕ) (n j a : ℕ) → n ≡ j → ¬ (update f n (some a) j ≡ none)
some_gone f n j a e gone = cc (update_self f n (some a), ap (update f n (some a)) e, gone)

pub none_there : (f : ℕ → Option ℕ) (n j : ℕ) → n ≡ j → ¬ (is_null (update f n none j) ≡ false)
none_there f n j e there =
    let at : update f n none j ≡ none = ap (update f n none) (sym e) ∙ update_self f n none in
    cc (ap is_null at, there)
