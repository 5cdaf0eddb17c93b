-- ===== src/Sending/Taken.antt =====
-- A buffer that PopPacketBuffer hands out, until it is with the kernel or given back.
use dubuframework.Base.{
  ℕ, ◌≡◌, ◌≢◌, refl, sym, ◌∙◌, Bool, true, false, ◌||◌, Option, none, some, update, update_self,
  update_ne, ◌==◌, ne→==, ap, ==_iff,
}
use dubuframework.PacketManager.{
  OverlappedPacketBuffer, PacketManager, modify, pop_packet_buffer, push_packet_buffer,
}
use dubuframework.PacketManager.Invariant.{IsPool, pop-IsPool, push-IsPool}
use dubuframework.Sending.Owned.{type_of, IsOwned, change-IsOwned, pop_packet_buffer-types}
use dubuframework.Sending.Hands.{modify-IsPool, entered, entered-from, entered-only}

or_true : (b : Bool) → (b || true) ≡ true
or_true true = refl
or_true false = refl

-- Buffer `a` is in use in `m'` and was free in `m`; of the others nothing has changed.
pub record Taken (m m' : PacketManager) (a : ℕ) : Type 0 where
  pub pool : IsPool m'
  pub fresh : m.use_list a ≡ false
  pub taken : m'.use_list a ≡ true
  pub used : (b : ℕ) → a ≢ b → m'.use_list b ≡ m.use_list b
  pub type : (b : ℕ) → a ≢ b → type_of m' b ≡ type_of m b

pub pop-Taken : {m : PacketManager} → IsPool m → let (m', a) = pop_packet_buffer m in Taken m m' a
pop-Taken {m} v =
    let (pool, fresh, uses) = pop-IsPool v in
    let a = (pop_packet_buffer m).1 in
    record {
      pool = pool;
      fresh = fresh;
      taken = let t : (a == a) ≡ true = (==_iff a a).1 refl in rw t at (uses a);
      used = λ b ne. let t : (a == b) ≡ false = ne→== a b ne in rw t at (uses b);
      type = λ b ne. pop_packet_buffer-types m b ne;
    }

module _ {m m' : PacketManager} {a : ℕ} (t : Taken m m' a) where
  pub modify-Taken :
      (f : OverlappedPacketBuffer → OverlappedPacketBuffer) → Taken m (modify a f m') a
  modify-Taken f = record {
    pool = modify-IsPool a f t.pool;
    fresh = t.fresh;
    taken = t.taken;
    used = t.used;
    type =
        λ b ne. ap (λ x. x.obj_type) (update_ne m'.buffers a (f (m'.buffers a)) b ne) ∙ t.type b ne;
  }

  module _ {slots : ℕ → Option ℕ} {flying : ℕ → Bool} (v : IsOwned m slots flying) where
    never : (i : ℕ) → slots i ≢ some a
    never i h = cc (((v.own a).waits i h).0, t.fresh)

    -- The kernel gets it, and it enters the window.
    pub launch-IsOwned :
        (i : ℕ)
        → slots i ≡ none
        → (type_of m' a).reliable ≡ true
        → (type_of m' a).sending ≡ true
        → IsOwned m' (update slots i (some a)) (update flying a true)
    launch-IsOwned i empty rel send =
        change-IsOwned {a = a}
          (record {
            used = t.used;
            type = t.type;
            flights = λ b ne. update_ne flying a true b ne;
            to = λ j b ne h. entered slots i j a b ne h;
            from = λ j b ne h. entered-from slots i j a b empty h;
          })
          t.pool
          (record {
            flies = λ h. rw (update_self flying a true, send) refl;
            rests = λ h. cc (h, t.taken);
            waits = λ j h. (t.taken, rel);
            apart = λ j k h h'.
                sym (entered-only slots i j a never h) ∙ entered-only slots i k a never h';
            kept = λ h r. (i, update_self slots i (some a));
          })
          v

    -- The kernel gets it, and nothing waits for it.
    pub plain-IsOwned : (type_of m' a).reliable ≡ false → IsOwned m' slots (update flying a true)
    plain-IsOwned rel =
        change-IsOwned {a = a}
          (record {
            used = t.used;
            type = t.type;
            flights = λ b ne. update_ne flying a true b ne;
            to = λ j b ne h. h;
            from = λ j b ne h. h;
          })
          t.pool
          (record {
            flies = λ h. rw (update_self flying a true, rel) (sym (or_true _));
            rests = λ h. cc (h, t.taken);
            waits = λ j h. absurd (never j h);
            apart = λ j k h h'. absurd (never j h);
            kept = λ h r. cc (r, rel);
          })
          v

    -- It is given back.
    pub refuse-IsOwned : IsOwned (push_packet_buffer a m') slots flying
    unfolding push_packet_buffer
    refuse-IsOwned =
        let (pool, free) = push-IsPool a t.pool t.taken in
        change-IsOwned {a = a}
          (record {
            used = λ b ne. update_ne m'.use_list a false b ne ∙ t.used b ne;
            type = t.type;
            flights = λ b ne. refl;
            to = λ j b ne h. h;
            from = λ j b ne h. h;
          })
          pool
          (record {
            flies = λ h. cc (h, free);
            rests = λ h. (v.own a).rests t.fresh;
            waits = λ j h. absurd (never j h);
            apart = λ j k h h'. absurd (never j h);
            kept = λ h r. cc (h, free);
          })
          v
