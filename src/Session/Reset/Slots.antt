-- ===== src/Session/Reset/Slots.antt =====
-- The loop of Reset over the slots of a channel's kept packets.
use dubuframework.Base.{
  ℕ, zero, suc, ◌+◌, ◌≤◌, ◌<◌, ◌≡◌, ◌≢◌, refl, ap, subst, ◌∙◌, inl, inr, false, Option, none, some,
  arith, Option-cases, update, update_self, update_ne,
}
use native.Mathlib.Decide.{ℕ_discrete}
use dubuframework.Packet.{Packet}
use dubuframework.CachePool.{CachePool, push_packet_buffer}
use dubuframework.Channel.{CachePacket}
use dubuframework.Chunk.{push_all}
use dubuframework.Session.Reset.{reset_slot, reset_slots}

abbrev one_more : Option Packet → ℕ → ℕ
one_more none n = n
one_more (some p) n = suc n

-- How many of `rounds` slots from `i` on keep a packet
unfoldable pub kept : ℕ → ℕ → (ℕ → CachePacket) → ℕ
kept zero i slots = 0
kept (suc rounds) i slots = one_more (slots i).buffer (kept rounds (i + 1) slots)

pub kept_later :
    (rounds i j : ℕ) (slots : ℕ → CachePacket) (c : CachePacket)
    → j < i
    → kept rounds i (update slots j c) ≡ kept rounds i slots
unfolding kept
kept_later zero i j slots c lt = refl
kept_later (suc rounds) i j slots c lt =
    rw (update_ne slots j c i (omega arith), kept_later rounds (i + 1) j slots c (omega arith))

pub reset_slots_back :
    (rounds i : ℕ) (slots : ℕ → CachePacket) (caches : CachePool)
    → (reset_slots rounds i slots caches).1 ≡ push_all (kept rounds i slots) caches
unfolding reset_slots reset_slot kept push_all
reset_slots_back zero i slots caches = refl
reset_slots_back (suc rounds) i slots caches = elim (Option-cases (slots i).buffer) [
  | inl gone ↦ rw (gone, reset_slots, reset_slot) (reset_slots_back rounds (i + 1) slots caches)
  | inr (p, is) ↦
      rw (is, reset_slots, reset_slot)
        (reset_slots_back rounds (i + 1) _ (push_packet_buffer caches)
          ∙ ap (λ n. push_all n (push_packet_buffer caches))
              (kept_later rounds (i + 1) i slots _ (omega arith)))
]

-- The loop leaves the slots before `i` alone.
reset_slots_before :
    (rounds i j : ℕ) (slots : ℕ → CachePacket) (caches : CachePool)
    → j < i
    → (reset_slots rounds i slots caches).0 j ≡ slots j
unfolding reset_slots reset_slot
reset_slots_before zero i j slots caches lt = refl
reset_slots_before (suc rounds) i j slots caches lt = elim (Option-cases (slots i).buffer) [
  | inl gone ↦
      rw (gone, reset_slots, reset_slot)
        (reset_slots_before rounds (i + 1) j slots caches (omega arith))
  | inr (p, is) ↦
      rw (is, reset_slots, reset_slot)
        (reset_slots_before rounds (i + 1) j _ (push_packet_buffer caches) (omega arith)
          ∙ update_ne slots i _ j (omega arith))
]

-- What Reset makes of a slot: one that keeps a packet is blank, any other one is as it was.
abbrev pub emptied_as : Option Packet → CachePacket → CachePacket
emptied_as none c = c
emptied_as (some p) c = record { buffer = none; time_stamp = 0; sequence_no = 0; is_keep = false }

abbrev pub emptied : CachePacket → CachePacket
emptied c = emptied_as c.buffer c

emptied_as-buffer :
    (o : Option Packet) (c : CachePacket) → c.buffer ≡ o → (emptied_as o c).buffer ≡ none
emptied_as-buffer none c e = e
emptied_as-buffer (some p) c e = refl

pub emptied-buffer : (c : CachePacket) → (emptied c).buffer ≡ none
emptied-buffer c = emptied_as-buffer c.buffer c refl

reset_slot_self :
    (o : Option Packet) (i : ℕ) (slots : ℕ → CachePacket) (caches : CachePool)
    → (reset_slot o i slots caches).0 i ≡ emptied_as o (slots i)
unfolding reset_slot
reset_slot_self none i slots caches = refl
reset_slot_self (some p) i slots caches = update_self slots i _

reset_slot_other :
    (i j : ℕ) (slots : ℕ → CachePacket) (caches : CachePool)
    → i ≢ j
    → (reset_slot (slots i).buffer i slots caches).0 j ≡ slots j
unfolding reset_slot
reset_slot_other i j slots caches ne = elim (Option-cases (slots i).buffer) [
  | inl gone ↦ rw (gone, reset_slot) refl
  | inr (p, is) ↦ rw (is, reset_slot) (update_ne slots i _ j ne)
]

pub reset_slots-emptied :
    (rounds i j : ℕ) (slots : ℕ → CachePacket) (caches : CachePool)
    → i ≤ j
    → j < i + rounds
    → (reset_slots rounds i slots caches).0 j ≡ emptied (slots j)
unfolding reset_slots
reset_slots-emptied zero i j slots caches le lt = absurd (omega (arith, le, lt))
reset_slots-emptied (suc rounds) i j slots caches le lt =
    let (slots', caches') = reset_slot (slots i).buffer i slots caches in
    elim (ℕ_discrete i j) [
      | yes e ↦
          subst (λ k. (reset_slots rounds (i + 1) slots' caches').0 k ≡ emptied (slots k)) e
            (reset_slots_before rounds (i + 1) i slots' caches' (omega arith)
              ∙ reset_slot_self (slots i).buffer i slots caches)
      | no ne ↦
          reset_slots-emptied rounds (i + 1) j slots' caches' (omega arith) (omega arith)
          ∙ ap emptied (reset_slot_other i j slots caches ne)
    ]
