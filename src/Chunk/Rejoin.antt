-- ===== src/Chunk/Rejoin.antt =====
-- All parts of a message, in any order.
use dubuframework.Base.{
  ℕ, zero, suc, ◌+◌, ◌-◌, ◌≤◌, ◌<◌, ◌≡◌, refl, ap, ◌∙◌, Bool, true, false, arith, u32, update,
  update_self, none, some, List, [], ◌∷◌, map,
}
use dubuframework.Packet.{Packet}
use dubuframework.Host.{Host}
use dubuframework.CachePool.{CachePool, pop_packet_buffer, push_packet_buffer}
use dubuframework.Chunk.{Chunks, push_all, recv_chunck_packet}
use dubuframework.Chunk.Collect.{
  count_got-all, count_got-none, count_got-one, new_chunk-IsCollected,
}
use dubuframework.Chunk.Join.{
  IsParts, Holding, whole, filled, filled-IsCollected, recv_last, recv_other,
}

-- The parts of `n`, from part `i` on in the order of the list, arrive once each, and with the last
-- one all are there; those in `got` have arrived before.
abbrev pub Completes : ℕ → (ℕ → Bool) → ℕ → List ℕ → Type 0
Completes n got i [] = (i < n) × (got i ≡ false) × ((j : ℕ) → j < n → update got i true j ≡ true)
Completes n got i (j ∷ rest) = (i < n) × (got i ≡ false) × Completes n (update got i true) j rest

next_missing :
    (n : ℕ) (got : ℕ → Bool) (i : ℕ) (rest : List ℕ)
    → Completes n got i rest
    → (i < n) × (got i ≡ false)
next_missing n got i [] w = (w.0, w.1)
next_missing n got i (j ∷ rest) w = (w.0, w.1)

pop-use_list : (c : CachePool) → (pop_packet_buffer c).use_list ≡ c.use_list + 1
unfolding pop_packet_buffer
pop-use_list c = ground arith

push_all-use_list : (m : ℕ) (c : CachePool) → (push_all m c).use_list ≡ c.use_list - m
unfolding push_all push_packet_buffer
push_all-use_list zero c = omega arith
push_all-use_list (suc m) c = push_all-use_list m (push_packet_buffer c) ∙ omega arith

-- RecvChunckPacket on a list of packets
unfoldable pub recv_all : {S : Type 0} → Host S → List Packet → Chunks S → Chunks S
recv_all h [] u = u
recv_all h (p ∷ ps) u = recv_all h ps (recv_chunck_packet h p u)

module _ (n first sub : ℕ) (few : n ≤ 16) (parts : 1 ≤ n) (part : ℕ → Packet)
    (ps : IsParts n first sub part) {S : Type 0} (h : Host S) where
  abbrev pub Joined : S → ℕ → Chunks S → Type 0
  Joined host used u =
      (u.host ≡ h.packet_parse (whole sub part n) host)
      × (u.inj (u32 first) ≡ none)
      × (u.caches.use_list ≡ used)

  rejoin :
      (got : ℕ → Bool) (used : ℕ) (host : S) (u : Chunks S) (i : ℕ) (rest : List ℕ)
      → Holding n first sub few parts part ps h got used host u
      → Completes n got i rest
      → Joined host used (recv_all h (map part (i ∷ rest)) u)
  unfolding recv_all
  rejoin got used host u i [] v (lt, new, all) =
      let w = filled-IsCollected n first sub few parts part ps h got used host u v i lt new in
      let c = w.count ∙ count_got-all n (update got i true) all in
      let one = count_got-one n i got lt new in
      let every = count_got-all n (update got i true) all in
      rw (recv_last n first sub few parts part ps h got used host u v i lt new all, c)
        (
          ap (λ s. h.packet_parse (whole sub part n) s) v.same_host,
          update_self u.inj (u32 first) none,
          push_all-use_list n (pop_packet_buffer u.caches)
              ∙ omega (arith, pop-use_list u.caches, v.in_use, one, every),
        )
  rejoin got used host u i (j ∷ rest) v (lt, new, more) =
      let (lt', missing) = next_missing n (update got i true) j rest more in
      let f = filled n first sub few parts part ps h got used host u v i lt new in
      let next : Chunks S = record {
        inj = update u.inj (u32 first) (some f);
        caches = pop_packet_buffer u.caches;
        host = u.host;
      } in
      let one = count_got-one n i got lt new in
      let holds : Holding n first sub few parts part ps h (update got i true) used host next =
        record {
          collected =
              rw (update_self u.inj (u32 first) (some f))
                (filled-IsCollected n first sub few parts part ps h got used host u v i lt new);
          in_use = omega (arith, pop-use_list u.caches, v.in_use, one);
          same_host = v.same_host;
        } in
      rw
        (
          recv_other n first sub few parts part ps h got used host u v i lt new j lt' missing,
          recv_all,
        )
        (rejoin (update got i true) used host next j rest holds more)

  -- The 1 to 16 parts of a message, under consecutive numbers, each of which arrives once and in any
  -- order, lead to one call of PacketParse, on the whole message, with the last one; then nothing of
  -- the message is left, and as many cache buffers are in use as before. Nothing is left of an
  -- earlier message under the same first number, and the message has at most 8192 bytes with its
  -- headers, as many as its parts say.
  pub recv_all-whole :
      (u : Chunks S)
      → u.inj (u32 first) ≡ none
      → (i : ℕ) (rest : List ℕ) → Completes n (λ _. false) i rest
      → Joined u.host u.caches.use_list (recv_all h (map part (i ∷ rest)) u)
  recv_all-whole u fresh i rest all =
      rejoin (λ _. false) u.caches.use_list u.host u i rest
        (record {
          collected = rw fresh (new_chunk-IsCollected n part);
          in_use = omega (arith, count_got-none n);
          same_host = refl;
        })
        all
