-- ===== src/Session/Reset/Fresh.antt =====
-- What Reset leaves of the streams of a session, and what it gives back.
use dubuframework.Base.{
  ℕ, zero, suc, ◌+◌, ◌≤◌, ◌<◌, ◌≡◌, ◌≢◌, refl, ap, sym, subst, ◌∙◌, false, none, List, [], ◌∷◌,
  ◌++◌, arith, update, update_self, update_ne,
}
use native.Mathlib.Decide.{ℕ_discrete}
use dubuframework.PacketState.{RecvState, window_count}
use dubuframework.PacketState as State
use dubuframework.PacketManager.{PacketManager}
use dubuframework.CachePool.{CachePool, push_packet_buffer}
use dubuframework.Pending.{SendState, release_buffer}
use dubuframework.Pending as Window
use dubuframework.Pending.Window.{Waits}
use dubuframework.Pending.Return.{occupied, release_all, reset-Waits}
use dubuframework.Channel.{CachePacket, CacheAlreadyPacket}
use dubuframework.Chunk.{push_all}
use dubuframework.Session.{Session, World}
use dubuframework.Session.Reset.{reset_slots, reset_channel, reset_channels, reset}
use dubuframework.Session.Reset.Slots.{
  kept, reset_slots_back, emptied, emptied-buffer, reset_slots-emptied,
}

-- A stream that is as at the start: nothing received, nothing that waits.
pub record IsNew (recv : RecvState) (send : SendState) : Type 0 where
  pub unreceived :
      recv ≡ record { recv_repeat_seq = 0; last_repeat_seq = 0; cache_repeat_count = 0 }
  pub unsent : send.send_repeat_seq ≡ 0
  pub empty : Waits (λ _. none) 0 0 send

-- A channel that is as at the start, with no packet kept ahead: of the slots, which were `slots`, each
-- that kept a packet is blank and each other one is as it was.
pub record IsNewChannel (slots : ℕ → CachePacket) (cap : CacheAlreadyPacket) (send : SendState)
    : Type 0 where
  pub fresh : IsNew cap.rps send
  pub blank : (i : ℕ) → i < window_count → cap.cache_packets i ≡ emptied (slots i)
  pub no_packet : (i : ℕ) → i < window_count → (cap.cache_packets i).buffer ≡ none

reset-IsNew :
    (r : RecvState) (s : SendState) (m : PacketManager) → IsNew (State.reset r) (Window.reset s m).0
unfolding State.reset
reset-IsNew r s m =
    let (empty, unsent, back) = reset-Waits s m in
    record { unreceived = refl; unsent = unsent; empty = empty }

-- What the two managers get back from `rounds` channels from `id` on
unfoldable pub waiting : ℕ → ℕ → (ℕ → SendState) → List ℕ
waiting zero id sends = []
waiting (suc rounds) id sends =
    occupied window_count 0 (sends id).pending_packets ++ waiting rounds (id + 1) sends

unfoldable pub all_kept : ℕ → ℕ → (ℕ → CacheAlreadyPacket) → ℕ
all_kept zero id caps = 0
all_kept (suc rounds) id caps =
    kept window_count 0 (caps id).cache_packets + all_kept rounds (id + 1) caps

waiting_later :
    (rounds i j : ℕ) (sends : ℕ → SendState) (s : SendState)
    → j < i
    → waiting rounds i (update sends j s) ≡ waiting rounds i sends
unfolding waiting
waiting_later zero i j sends s lt = refl
waiting_later (suc rounds) i j sends s lt =
    rw (update_ne sends j s i (omega arith), waiting_later rounds (i + 1) j sends s (omega arith))

all_kept_later :
    (rounds i j : ℕ) (caps : ℕ → CacheAlreadyPacket) (c : CacheAlreadyPacket)
    → j < i
    → all_kept rounds i (update caps j c) ≡ all_kept rounds i caps
unfolding all_kept
all_kept_later zero i j caps c lt = refl
all_kept_later (suc rounds) i j caps c lt =
    rw (update_ne caps j c i (omega arith), all_kept_later rounds (i + 1) j caps c (omega arith))

release_all_append :
    (xs ys : List ℕ) (m : PacketManager)
    → release_all (xs ++ ys) m ≡ release_all ys (release_all xs m)
unfolding release_all
release_all_append [] ys m = refl
release_all_append (x ∷ xs) ys m = release_all_append xs ys (release_buffer x m)

push_all_add : (a b : ℕ) (c : CachePool) → push_all (a + b) c ≡ push_all b (push_all a c)
unfolding push_all
push_all_add zero b c = let e : zero + b ≡ b = omega arith in rw e refl
push_all_add (suc a) b c =
    let e : suc a + b ≡ suc (a + b) = omega arith in rw e (push_all_add a b (push_packet_buffer c))

module _ {S : Type 0} where
  -- A channel before those that the loop resets is left alone.
  reset_channels_before :
      (rounds id j : ℕ) (s : Session) (w : World S)
      → j < id
      → let s' = (reset_channels rounds id s w).0 in
        (s'.cache_already_packets j ≡ s.cache_already_packets j)
        × (s'.cache_sends j ≡ s.cache_sends j)
  unfolding reset_channels reset_channel
  reset_channels_before zero id j s w lt = (refl, refl)
  reset_channels_before (suc rounds) id j s w lt =
      let (s', w') = reset_channel id s w in
      let (a, b) = reset_channels_before rounds (id + 1) j s' w' (omega arith) in
      (
        a ∙ update_ne s.cache_already_packets id _ j (omega arith),
        b ∙ update_ne s.cache_sends id _ j (omega arith),
      )

  reset_channel-IsNewChannel :
      (id : ℕ) (s : Session) (w : World S)
      → let s' = (reset_channel id s w).0 in
        IsNewChannel
          (s.cache_already_packets id).cache_packets
          (s'.cache_already_packets id)
          (s'.cache_sends id)
  unfolding reset_channel
  reset_channel-IsNewChannel id s w =
      let cap = s.cache_already_packets id in
      let (slots, caches) = reset_slots window_count 0 cap.cache_packets w.caches in
      let cap' : CacheAlreadyPacket = record { rps = State.reset cap.rps; cache_packets = slots } in
      let send = (Window.reset (s.cache_sends id) w.packets).0 in
      let emptied_at : (i : ℕ) → i < window_count → slots i ≡ emptied (cap.cache_packets i) =
        λ i lt.
          reset_slots-emptied window_count 0 i cap.cache_packets w.caches (omega arith)
            (omega (arith, lt)) in
      subst (λ c. IsNewChannel cap.cache_packets c (update s.cache_sends id send id))
        (sym (update_self s.cache_already_packets id cap'))
        (subst (λ p. IsNewChannel cap.cache_packets cap' p)
          (sym (update_self s.cache_sends id send))
          (record {
            fresh = reset-IsNew cap.rps (s.cache_sends id) w.packets;
            blank = emptied_at;
            no_packet = λ i lt.
                ap (λ c. CachePacket.buffer c) (emptied_at i lt)
                ∙ emptied-buffer (cap.cache_packets i);
          }))

  -- The channels that the loop is yet to reset
  reset_channel_other :
      (id j : ℕ) (s : Session) (w : World S)
      → id ≢ j
      → (reset_channel id s w).0.cache_already_packets j ≡ s.cache_already_packets j
  unfolding reset_channel
  reset_channel_other id j s w ne = update_ne s.cache_already_packets id _ j ne

  reset_channels-IsNewChannel :
      (rounds id j : ℕ) (s : Session) (w : World S)
      → id ≤ j
      → j < id + rounds
      → let s' = (reset_channels rounds id s w).0 in
        IsNewChannel
          (s.cache_already_packets j).cache_packets
          (s'.cache_already_packets j)
          (s'.cache_sends j)
  unfolding reset_channels
  reset_channels-IsNewChannel zero id j s w le lt = absurd (omega (arith, le, lt))
  reset_channels-IsNewChannel (suc rounds) id j s w le lt =
      let (s', w') = reset_channel id s w in
      let last = (reset_channels rounds (id + 1) s' w').0 in
      elim (ℕ_discrete id j) [
        | no ne ↦
            subst
              (λ c.
                IsNewChannel (CacheAlreadyPacket.cache_packets c) (last.cache_already_packets j)
                  (last.cache_sends j))
              (reset_channel_other id j s w ne)
              (reset_channels-IsNewChannel rounds (id + 1) j s' w' (omega arith) (omega arith))
        | yes e ↦
            let (a, b) = reset_channels_before rounds (id + 1) id s' w' (omega arith) in
            let slots = (s.cache_already_packets id).cache_packets in
            subst
              (λ k.
                IsNewChannel (s.cache_already_packets k).cache_packets
                  (last.cache_already_packets k) (last.cache_sends k))
              e
              (subst (λ c. IsNewChannel slots c (last.cache_sends id)) (sym a)
                (subst (λ p. IsNewChannel slots (s'.cache_already_packets id) p) (sym b)
                  (reset_channel-IsNewChannel id s w)))
      ]

  -- What the loop gives back, and what it leaves alone
  reset_channels_back :
      (rounds id : ℕ) (s : Session) (w : World S)
      → let (s', w') = reset_channels rounds id s w in
        (w'.packets ≡ release_all (waiting rounds id s.cache_sends) w.packets)
        × (w'.caches ≡ push_all (all_kept rounds id s.cache_already_packets) w.caches)
        × (s'.is_connect ≡ s.is_connect)
        × (s'.r_nops_no ≡ s.r_nops_no)
        × (s'.rps_no ≡ s.rps_no)
        × (s'.chunck_pakcet_inj ≡ s.chunck_pakcet_inj)
  unfolding reset_channels reset_channel waiting all_kept release_all push_all
  reset_channels_back zero id s w = (refl, refl, refl, refl, refl, refl)
  reset_channels_back (suc rounds) id s w =
      let (s', w') = reset_channel id s w in
      let (p, c, on, nops, rps, inj) = reset_channels_back rounds (id + 1) s' w' in
      let sends = occupied window_count 0 (s.cache_sends id).pending_packets in
      let slots = (s.cache_already_packets id).cache_packets in
      let (empty, unsent, freed) = reset-Waits (s.cache_sends id) w.packets in
      (
        p
            ∙ ap (λ l. release_all l w'.packets)
                (waiting_later rounds (id + 1) id s.cache_sends _ (omega arith))
            ∙ ap (release_all (waiting rounds (id + 1) s.cache_sends)) freed
            ∙ sym (release_all_append sends (waiting rounds (id + 1) s.cache_sends) w.packets),
        c
            ∙ ap (λ n. push_all n w'.caches)
                (all_kept_later rounds (id + 1) id s.cache_already_packets _ (omega arith))
            ∙ ap (push_all (all_kept rounds (id + 1) s.cache_already_packets))
                (reset_slots_back window_count 0 slots w.caches)
            ∙ sym (
                push_all_add (kept window_count 0 slots)
                  (all_kept rounds (id + 1) s.cache_already_packets) w.caches),
        on,
        nops,
        rps,
        inj,
      )

-- A session as at the start, but for the parts of messages, which are those of `s`; `w'` is `w` with
-- the buffers of all windows released and those of all kept packets given back.
pub record IsReset {S : Type 0} (channel_mask : ℕ) (s : Session) (w : World S) (s' : Session)
    (w' : World S) : Type 0 where
  pub closed : s'.is_connect ≡ false
  pub unreliable :
      s'.r_nops_no ≡ record { recv_repeat_seq = 0; last_repeat_seq = 0; cache_repeat_count = 0 }
  pub unordered : IsNew s'.rps_no.recv s'.rps_no.send
  pub channels :
      (id : ℕ)
      → id ≤ channel_mask
      → IsNewChannel
          (s.cache_already_packets id).cache_packets
          (s'.cache_already_packets id)
          (s'.cache_sends id)
  pub released :
      w'.packets
      ≡ release_all
          (occupied window_count 0 s.rps_no.send.pending_packets
            ++ waiting (channel_mask + 1) 0 s.cache_sends)
          w.packets
  pub given_back :
      w'.caches ≡ push_all (all_kept (channel_mask + 1) 0 s.cache_already_packets) w.caches
  pub parts : s'.chunck_pakcet_inj ≡ s.chunck_pakcet_inj

module _ {S : Type 0} where
  -- Reset leaves every stream as at the start, with no packet kept ahead: each slot that kept a packet
  -- is blank, and each other slot is as it was. It releases each buffer that waits in a window once and
  -- gives each buffer of a kept packet back once. The parts of messages that are not complete stay,
  -- and so do their buffers.
  pub reset-IsReset :
      (channel_mask default_rtt now : ℕ) (s : Session) (w : World S)
      → let (s', w') = reset channel_mask default_rtt now s w in IsReset channel_mask s w s' w'
  unfolding reset State.reset
  reset-IsReset channel_mask default_rtt now s w =
      let (send, packets) = Window.reset s.rps_no.send w.packets in
      let s1 : Session = record s {
        is_connect = false;
        timestamp = now;
        rtt_millisec = default_rtt;
        r_nops_no = State.reset s.r_nops_no;
        rps_no = record { recv = State.reset s.rps_no.recv; send = send };
      } in
      let w1 : World S = record w { packets = packets } in
      let (p, c, on, nops, rps, inj) = reset_channels_back (channel_mask + 1) 0 s1 w1 in
      let (empty, unsent, freed) = reset-Waits s.rps_no.send w.packets in
      let sends = occupied window_count 0 s.rps_no.send.pending_packets in
      record {
        closed = on;
        unreliable = nops;
        unordered =
            subst (λ r. IsNew r.recv r.send) (sym rps)
              (reset-IsNew s.rps_no.recv s.rps_no.send w.packets);
        channels = λ id le.
            reset_channels-IsNewChannel (channel_mask + 1) 0 id s1 w1 (omega arith)
              (omega (arith, le));
        released =
            p
            ∙ ap (release_all (waiting (channel_mask + 1) 0 s.cache_sends)) freed
            ∙ sym (release_all_append sends (waiting (channel_mask + 1) 0 s.cache_sends) w.packets);
        given_back = c;
        parts = inj;
      }
