-- ===== src/Sending/Owned.antt =====
-- Who holds a packet buffer: the kernel, the pending window, or the manager. One invariant for each
-- buffer, and what a change of one buffer leaves of the others.
use dubuframework.Base.{
  ℕ, ◌≡◌, ◌≢◌, sym, ap, ◌∙◌, Bool, true, false, not, ◌||◌, Option, some, List, [], ◌∷◌, update_ne,
}
use native.Mathlib.Decide.{ℕ_discrete}
use dubuframework.PacketManager.{ObjType, PacketManager, pop_from, pop_packet_buffer}
use dubuframework.PacketManager.Invariant.{IsPool}

abbrev pub type_of : PacketManager → ℕ → ObjType
type_of m a = (m.buffers a).obj_type

-- `slots` are the buffers of the window, `flying` tells the buffers that the kernel sends. A buffer
-- in use is with the kernel unless it is reliable and not being sent; it is reliable exactly if it
-- stands in one slot of the window. A free buffer is with neither.
pub record Own (m : PacketManager) (slots : ℕ → Option ℕ) (flying : ℕ → Bool) (a : ℕ) : Type 0 where
  pub flies : m.use_list a ≡ true → flying a ≡ ((type_of m a).sending || not (type_of m a).reliable)
  pub rests : m.use_list a ≡ false → flying a ≡ false
  pub waits : (i : ℕ) → slots i ≡ some a → (m.use_list a ≡ true) × ((type_of m a).reliable ≡ true)
  pub apart : (i j : ℕ) → slots i ≡ some a → slots j ≡ some a → i ≡ j
  pub kept : m.use_list a ≡ true → (type_of m a).reliable ≡ true → (i : ℕ) × (slots i ≡ some a)

pub record IsOwned (m : PacketManager) (slots : ℕ → Option ℕ) (flying : ℕ → Bool) : Type 0 where
  pub pool : IsPool m
  pub own : (a : ℕ) → Own m slots flying a

-- Nothing changes but for buffer `a`.
pub record Apart (m m' : PacketManager) (slots slots' : ℕ → Option ℕ) (flying flying' : ℕ → Bool)
    (a : ℕ) : Type 0 where
  pub used : (b : ℕ) → a ≢ b → m'.use_list b ≡ m.use_list b
  pub type : (b : ℕ) → a ≢ b → type_of m' b ≡ type_of m b
  pub flights : (b : ℕ) → a ≢ b → flying' b ≡ flying b
  pub to : (i b : ℕ) → a ≢ b → slots' i ≡ some b → slots i ≡ some b
  pub from : (i b : ℕ) → a ≢ b → slots i ≡ some b → slots' i ≡ some b

module _ {m m' : PacketManager} {slots slots' : ℕ → Option ℕ} {flying flying' : ℕ → Bool}
    {a : ℕ} where
  Own-Apart :
      Apart m m' slots slots' flying flying' a
      → (b : ℕ) → a ≢ b
      → Own m slots flying b
      → Own m' slots' flying' b
  Own-Apart s b ne o = record {
    flies = λ u. rw (s.flights b ne, s.type b ne) (o.flies (sym (s.used b ne) ∙ u));
    rests = λ u. s.flights b ne ∙ o.rests (sym (s.used b ne) ∙ u);
    waits = λ i at. rw (s.used b ne, s.type b ne) (o.waits i (s.to i b ne at));
    apart = λ i j at at'. o.apart i j (s.to i b ne at) (s.to j b ne at');
    kept = λ u r.
        let r' : (type_of m b).reliable ≡ true = rw (sym (s.type b ne)) r in
        let (i, at) = o.kept (sym (s.used b ne) ∙ u) r' in (i, s.from i b ne at);
  }

  -- A change of buffer `a` keeps the invariant if it keeps it for `a`.
  pub change-IsOwned :
      Apart m m' slots slots' flying flying' a
      → IsPool m'
      → Own m' slots' flying' a
      → IsOwned m slots flying
      → IsOwned m' slots' flying'
  change-IsOwned s pool here v = record {
    pool = pool;
    own =
        λ b. elim (ℕ_discrete a b) [ yes e ↦ rw (sym e) here | no ne ↦ Own-Apart s b ne (v.own b) ];
  }

-- What PopPacketBuffer leaves of the other buffers
pop_types :
    (l : List ℕ) (m : PacketManager) (b : ℕ)
    → (pop_from l m).1 ≢ b
    → type_of (pop_from l m).0 b ≡ type_of m b
unfolding pop_from
pop_types [] m b ne = ap (λ x. x.obj_type) (update_ne m.buffers m.next _ b ne)
pop_types (a ∷ rest) m b ne = ap (λ x. x.obj_type) (update_ne m.buffers a _ b ne)

pub pop_packet_buffer-types :
    (m : PacketManager) (b : ℕ)
    → (pop_packet_buffer m).1 ≢ b
    → type_of (pop_packet_buffer m).0 b ≡ type_of m b
unfolding pop_packet_buffer
pop_packet_buffer-types m b ne = pop_types m.list m b ne
