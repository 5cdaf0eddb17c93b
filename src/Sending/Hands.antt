-- ===== src/Sending/Hands.antt =====
-- How a packet buffer changes hands: what sending, resending, completion and release do to the
-- invariant.
use dubuframework.Base.{
  ℕ, ◌≡◌, ◌≢◌, refl, sym, ◌∙◌, Bool, true, false, ◌||◌, Option, none, some, update, update_self,
  update_ne, inl, inr, Bool-cases, ap,
}
use native.Mathlib.Decide.{ℕ_discrete}
use dubuframework.PacketManager.{
  ObjType, OverlappedPacketBuffer, PacketManager, modify, push_packet_buffer,
}
use dubuframework.PacketManager.Invariant.{IsPool, push-IsPool}
use dubuframework.Pending.{release_buffer}
use dubuframework.Sending.Owned.{type_of, IsOwned, change-IsOwned}

pub modify-IsPool :
    {m : PacketManager} (a : ℕ) (f : OverlappedPacketBuffer → OverlappedPacketBuffer)
    → IsPool m
    → IsPool (modify a f m)
modify-IsPool a f v = record { once = v.once }

or_false : (b : Bool) → (b || false) ≡ b
or_false true = refl
or_false false = refl

-- `release_buffer` on the two values of SENDING
abbrev clear : ObjType → OverlappedPacketBuffer → OverlappedPacketBuffer
clear old b = record b { obj_type = record old { reliable = false } }

release_flying :
    (a : ℕ) (m : PacketManager)
    → (type_of m a).sending ≡ true
    → release_buffer a m ≡ modify a (clear (type_of m a)) m
unfolding release_buffer
release_flying a m on = rw on refl

release_idle :
    (a : ℕ) (m : PacketManager)
    → (type_of m a).sending ≡ false
    → release_buffer a m ≡ push_packet_buffer a (modify a (clear (type_of m a)) m)
unfolding release_buffer
release_idle a m off = rw off refl

-- What stands in the slots once buffer `a` has left slot `i`
left :
    (slots : ℕ → Option ℕ) (i j b : ℕ)
    → update slots i none j ≡ some b
    → (i ≢ j) × (slots j ≡ some b)
left slots i j b h = elim (ℕ_discrete i j) [
  | yes e ↦
      let t : update slots i none j ≡ none = rw (sym e) (update_self slots i none) in cc (h, t)
  | no other ↦ (other, sym (update_ne slots i none j other) ∙ h)
]

left-from :
    (slots : ℕ → Option ℕ) (i j a b : ℕ)
    → slots i ≡ some a
    → a ≢ b
    → slots j ≡ some b
    → update slots i none j ≡ some b
left-from slots i j a b at ne h = elim (ℕ_discrete i j) [
  | yes e ↦ let t : slots i ≡ some b = rw e h in absurd (ne (cc (at, t)))
  | no other ↦ update_ne slots i none j other ∙ h
]

-- ... and once it has entered it
pub entered :
    (slots : ℕ → Option ℕ) (i j a b : ℕ)
    → a ≢ b
    → update slots i (some a) j ≡ some b
    → slots j ≡ some b
entered slots i j a b ne h = elim (ℕ_discrete i j) [
  | yes e ↦
      let t : update slots i (some a) j ≡ some a = rw (sym e) (update_self slots i (some a)) in
      absurd (ne (cc (h, t)))
  | no other ↦ sym (update_ne slots i (some a) j other) ∙ h
]

pub entered-from :
    (slots : ℕ → Option ℕ) (i j a b : ℕ)
    → slots i ≡ none
    → slots j ≡ some b
    → update slots i (some a) j ≡ some b
entered-from slots i j a b gone h = elim (ℕ_discrete i j) [
  | yes e ↦ let t : slots i ≡ some b = rw e h in cc (gone, t)
  | no other ↦ update_ne slots i (some a) j other ∙ h
]

pub entered-only :
    (slots : ℕ → Option ℕ) (i j a : ℕ)
    → ((k : ℕ) → slots k ≢ some a)
    → update slots i (some a) j ≡ some a
    → i ≡ j
entered-only slots i j a never h = elim (ℕ_discrete i j) [
  | yes e ↦ e
  | no other ↦ absurd (never j (sym (update_ne slots i (some a) j other) ∙ h))
]

module _ {m : PacketManager} {slots : ℕ → Option ℕ} {flying : ℕ → Bool}
    (v : IsOwned m slots flying) where
  type-modify :
      (a b : ℕ) (f : OverlappedPacketBuffer → OverlappedPacketBuffer)
      → a ≢ b
      → type_of (modify a f m) b ≡ type_of m b
  type-modify a b f ne = ap (λ x. x.obj_type) (update_ne m.buffers a (f (m.buffers a)) b ne)

  type-here :
      (a : ℕ) (f : OverlappedPacketBuffer → OverlappedPacketBuffer)
      → type_of (modify a f m) a ≡ (f (m.buffers a)).obj_type
  type-here a f = ap (λ x. x.obj_type) (update_self m.buffers a (f (m.buffers a)))

  -- A buffer in the window whose flags and place with the kernel change
  pub retype-IsOwned :
      (i a : ℕ) (f : OverlappedPacketBuffer → OverlappedPacketBuffer) (flies : Bool)
      → slots i ≡ some a
      → (f (m.buffers a)).obj_type.reliable ≡ true
      → flies ≡ (f (m.buffers a)).obj_type.sending
      → IsOwned (modify a f m) slots (update flying a flies)
  retype-IsOwned i a f flies at rel send =
      let o = v.own a in
      let u = (o.waits i at).0 in
      change-IsOwned {a = a}
        (record {
          used = λ b ne. refl;
          type = λ b ne. type-modify a b f ne;
          flights = λ b ne. update_ne flying a flies b ne;
          to = λ j b ne h. h;
          from = λ j b ne h. h;
        })
        (modify-IsPool a f v.pool)
        (record {
          flies = λ h. rw (update_self flying a flies, type-here a f, rel, send) (sym (or_false _));
          rests = λ h. cc (h, u);
          waits = λ j h. (u, rw (type-here a f) rel);
          apart = o.apart;
          kept = λ h r. (i, at);
        })
        v

  -- A buffer that leaves the window
  pub release-IsOwned :
      (i a : ℕ) → slots i ≡ some a → IsOwned (release_buffer a m) (update slots i none) flying
  unfolding push_packet_buffer
  release-IsOwned i a at =
      let o = v.own a in
      let u = (o.waits i at).0 in
      let r = (o.waits i at).1 in
      let old = type_of m a in
      let f = clear old in
      let pool = modify-IsPool a f v.pool in
      let gone : (j : ℕ) → update slots i none j ≢ some a =
        λ j h. let (ne, there) = left slots i j a h in ne (o.apart i j at there) in
      elim (Bool-cases old.sending) [
        | inl on ↦ rw (release_flying a m on) (
            change-IsOwned {a = a}
              (record {
                used = λ b ne. refl;
                type = λ b ne. type-modify a b f ne;
                flights = λ b ne. refl;
                to = λ j b ne h. (left slots i j b h).1;
                from = λ j b ne h. left-from slots i j a b at ne h;
              })
              pool
              (record {
                flies = λ h. rw (o.flies u, type-here a f, on) refl;
                rests = λ h. cc (h, u);
                waits = λ j h. absurd (gone j h);
                apart = λ j k h h'. absurd (gone j h);
                kept = λ h r'. cc (r', type-here a f);
              })
              v)
        | inr off ↦
            let pushed = push-IsPool a pool u in
            rw (release_idle a m off) (
              change-IsOwned {a = a}
                (record {
                  used = λ b ne. update_ne m.use_list a false b ne;
                  type = λ b ne. type-modify a b f ne;
                  flights = λ b ne. refl;
                  to = λ j b ne h. (left slots i j b h).1;
                  from = λ j b ne h. left-from slots i j a b at ne h;
                })
                pushed.0
                (record {
                  flies = λ h. cc (h, pushed.1);
                  rests = λ h. rw (o.flies u, r, off) refl;
                  waits = λ j h. absurd (gone j h);
                  apart = λ j k h h'. absurd (gone j h);
                  kept = λ h r'. cc (h, pushed.1);
                })
                v)
      ]

  pub flying-used : (a : ℕ) → flying a ≡ true → m.use_list a ≡ true
  flying-used a flies = elim (Bool-cases (m.use_list a)) [
    | inl used ↦ used
    | inr free ↦ cc (flies, (v.own a).rests free)
  ]

  -- A buffer that nothing waits for comes back from the kernel.
  pub land-IsOwned :
      (a : ℕ) (f : OverlappedPacketBuffer → OverlappedPacketBuffer)
      → flying a ≡ true
      → (type_of m a).reliable ≡ false
      → IsOwned (push_packet_buffer a (modify a f m)) slots (update flying a false)
  unfolding push_packet_buffer
  land-IsOwned a f flies rel =
      let o = v.own a in
      let pushed = push-IsPool a (modify-IsPool a f v.pool) (flying-used a flies) in
      let never : (j : ℕ) → slots j ≢ some a = λ j h. cc ((o.waits j h).1, rel) in
      change-IsOwned {a = a}
        (record {
          used = λ b ne. update_ne m.use_list a false b ne;
          type = λ b ne. type-modify a b f ne;
          flights = λ b ne. update_ne flying a false b ne;
          to = λ j b ne h. h;
          from = λ j b ne h. h;
        })
        pushed.0
        (record {
          flies = λ h. cc (h, pushed.1);
          rests = λ h. update_self flying a false;
          waits = λ j h. absurd (never j h);
          apart = λ j k h h'. absurd (never j h);
          kept = λ h r. cc (h, pushed.1);
        })
        v
