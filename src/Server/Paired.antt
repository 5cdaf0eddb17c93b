-- ===== src/Server/Paired.antt =====
-- The sessions and the peers of the server belong to each other, one to one.
use dubuframework.Base.{
  ℕ, ◌≡◌, ◌≢◌, ◌⊎◌, sym, ap, ◌∙◌, fun_ext, subst, Option, none, some, update, update_self,
  update_ne, arith, inl, inr,
}
use mathlib.Core.Option.{some-injective}
use native.Mathlib.Decide.{ℕ_discrete}
use dubuframework.Server.{Connection, Peer, Server, peer_key}

abbrev pub sessions_of : {S : Type 0} → Server S → ℕ → Option Connection
sessions_of v = v.sessions.session_map

pub record IsPaired (sessions : ℕ → Option Connection) (peers : ℕ → Option Peer) : Type 0 where
  pub named : (id : ℕ) (c : Connection) → sessions id ≡ some c → c.session_id ≡ id
  pub peer :
      (id : ℕ) (c : Connection)
      → sessions id ≡ some c
      → (p : Peer) × (peers (peer_key c.addr) ≡ some p) × (p.session ≡ id)
  pub keyed : (k : ℕ) (p : Peer) → peers k ≡ some p → (p.key ≡ k) × (peer_key p.addr ≡ k)
  pub session :
      (k : ℕ) (p : Peer)
      → peers k ≡ some p
      → (c : Connection) × (sessions p.session ≡ some c) × (peer_key c.addr ≡ k)

-- What is found where a table was changed
at_update :
    {A : Type 0} (f : ℕ → Option A) (i j : ℕ) (o : Option A) (x : A)
    → update f i o j ≡ some x
    → ((i ≡ j) × (o ≡ some x)) ⊎ ((i ≢ j) × (f j ≡ some x))
at_update f i j o x h = elim (ℕ_discrete i j) [
  | yes e ↦ inl (e, sym (subst (λ k. update f i o k ≡ o) e (update_self f i o)) ∙ h)
  | no ne ↦ inr (ne, sym (update_ne f i o j ne) ∙ h)
]

module _ {sessions : ℕ → Option Connection} {peers : ℕ → Option Peer}
    (v : IsPaired sessions peers) where
  -- A new session, for an address that no peer has
  pub open-IsPaired :
      (id : ℕ) (c : Connection) (p : Peer)
      → sessions id ≡ none
      → peers (peer_key c.addr) ≡ none
      → c.session_id ≡ id
      → p.session ≡ id
      → p.key ≡ peer_key c.addr
      → peer_key p.addr ≡ peer_key c.addr
      → IsPaired (update sessions id (some c)) (update peers (peer_key c.addr) (some p))
  open-IsPaired id c p free unknown named of_id key addr = record {
    named = λ j d h. elim (at_update sessions id j (some c) d h) [
      | inl (e, is) ↦
          let q : c ≡ d = some-injective _ _ is in ap (λ x. x.session_id) (sym q) ∙ (named ∙ e)
      | inr (ne, is) ↦ v.named j d is
    ];
    peer = λ j d h. elim (at_update sessions id j (some c) d h) [
      | inl (e, is) ↦
          let q : c ≡ d = some-injective _ _ is in
          (
            p,
            ap (λ x. update peers (peer_key c.addr) (some p) (peer_key x.addr)) (sym q)
                ∙ update_self peers (peer_key c.addr) (some p),
            of_id ∙ e,
          )
      | inr (ne, is) ↦
          let (q, there, of_j) = v.peer j d is in
          let other : peer_key c.addr ≢ peer_key d.addr =
            λ e. let t : peers (peer_key d.addr) ≡ none = rw (sym e) unknown in cc (t, there) in
          (q, update_ne peers (peer_key c.addr) (some p) (peer_key d.addr) other ∙ there, of_j)
    ];
    keyed = λ k q h. elim (at_update peers (peer_key c.addr) k (some p) q h) [
      | inl (e, is) ↦
          let r : p ≡ q = some-injective _ _ is in
          (ap (λ x. x.key) (sym r) ∙ (key ∙ e), ap (λ x. peer_key x.addr) (sym r) ∙ (addr ∙ e))
      | inr (ne, is) ↦ v.keyed k q is
    ];
    session = λ k q h. elim (at_update peers (peer_key c.addr) k (some p) q h) [
      | inl (e, is) ↦
          let r : p ≡ q = some-injective _ _ is in
          let i : id ≡ q.session = sym of_id ∙ ap (λ x. x.session) r in
          (
            c,
            subst (λ j. update sessions id (some c) j ≡ some c) i
                (update_self sessions id (some c)),
            e,
          )
      | inr (ne, is) ↦
          let (d, there, at) = v.session k q is in
          let other : id ≢ q.session =
            λ e. let t : sessions q.session ≡ none = rw (sym e) free in cc (t, there) in
          (d, update_ne sessions id (some c) q.session other ∙ there, at)
    ];
  }

  -- A session that ends, with its peer
  pub close-IsPaired :
      (id : ℕ) (c : Connection)
      → sessions id ≡ some c
      → IsPaired (update sessions id none) (update peers (peer_key c.addr) none)
  close-IsPaired id c at = record {
    named = λ j d h. elim (at_update sessions id j none d h) [
      | inl (e, is) ↦ cc is
      | inr (ne, is) ↦ v.named j d is
    ];
    peer = λ j d h. elim (at_update sessions id j none d h) [
      | inl (e, is) ↦ cc is
      | inr (ne, is) ↦
          let (q, there, of_j) = v.peer j d is in
          let (p, here, of_id) = v.peer id c at in
          let other : peer_key c.addr ≢ peer_key d.addr = λ e.
            let t : peers (peer_key d.addr) ≡ some p = rw (sym e) here in
            let r : p ≡ q = some-injective _ _ (sym t ∙ there) in
            ne (sym of_id ∙ (ap (λ x. x.session) r ∙ of_j)) in
          (q, update_ne peers (peer_key c.addr) none (peer_key d.addr) other ∙ there, of_j)
    ];
    keyed = λ k q h. elim (at_update peers (peer_key c.addr) k none q h) [
      | inl (e, is) ↦ cc is
      | inr (ne, is) ↦ v.keyed k q is
    ];
    session = λ k q h. elim (at_update peers (peer_key c.addr) k none q h) [
      | inl (e, is) ↦ cc is
      | inr (ne, is) ↦
          let (d, there, key) = v.session k q is in
          let other : id ≢ q.session = λ e.
            let t : sessions q.session ≡ some c = rw (sym e) at in
            let r : c ≡ d = some-injective _ _ (sym t ∙ there) in
            ne (ap (λ x. peer_key x.addr) r ∙ key) in
          (d, update_ne sessions id none q.session other ∙ there, key)
    ];
  }

-- Two changes of a table
pub update_over :
    {A : Type 0} (f : ℕ → A) (i : ℕ) (x y : A) → update (update f i x) i y ≡ update f i y
update_over f i x y = fun_ext (λ j. elim (ℕ_discrete i j) [
  | yes e ↦
      subst (λ k. update (update f i x) i y k ≡ update f i y k) e
        (update_self (update f i x) i y ∙ sym (update_self f i y))
  | no ne ↦ update_ne (update f i x) i y j ne ∙ (update_ne f i x j ne ∙ sym (update_ne f i y j ne))
])

update_swap :
    {A : Type 0} (f : ℕ → A) (i j : ℕ) (x y : A)
    → i ≢ j
    → update (update f i x) j y ≡ update (update f j y) i x
update_swap f i j x y ne = fun_ext (λ k. ground arith)

module _ {sessions : ℕ → Option Connection} {peers : ℕ → Option Peer}
    (v : IsPaired sessions peers) where
  -- A session that goes to another address, which no peer has, with its peer
  pub move-IsPaired :
      (id : ℕ) (c c' : Connection) (p p' : Peer)
      → sessions id ≡ some c
      → peers (peer_key c.addr) ≡ some p
      → peers (peer_key c'.addr) ≡ none
      → c'.session_id ≡ c.session_id
      → p'.session ≡ p.session
      → p'.key ≡ peer_key c'.addr
      → peer_key p'.addr ≡ peer_key c'.addr
      → IsPaired
          (update sessions id (some c'))
          (update (update peers (peer_key c'.addr) (some p')) (peer_key c.addr) none)
  move-IsPaired id c c' p p' at there unknown same session key addr =
      let k = peer_key c.addr in
      let k' = peer_key c'.addr in
      let ne : k ≢ k' = λ e. let t : peers k ≡ none = rw e unknown in cc (t, there) in
      let (q, here, of_id) = v.peer id c at in
      let r : p ≡ q = some-injective _ _ (sym there ∙ here) in
      let opened =
        open-IsPaired (close-IsPaired v id c at) id c' p' (update_self sessions id none)
          (update_ne peers k none k' ne ∙ unknown) (same ∙ v.named id c at)
          (session ∙ (ap (λ x. x.session) r ∙ of_id)) key addr in
      subst (λ f. IsPaired f (update (update peers k' (some p')) k none))
        (update_over sessions id none (some c'))
        (subst (IsPaired (update (update sessions id none) id (some c')))
          (update_swap peers k k' none (some p') ne) opened)

  -- A session that changes neither its identifier nor its address
  pub same-IsPaired :
      (id : ℕ) (c c' : Connection)
      → sessions id ≡ some c
      → c'.session_id ≡ c.session_id
      → c'.addr ≡ c.addr
      → IsPaired (update sessions id (some c')) peers
  same-IsPaired id c c' at same home = record {
    named = λ j d h. elim (at_update sessions id j (some c') d h) [
      | inl (e, is) ↦
          ap (λ x. Connection.session_id x) (sym (some-injective _ _ is))
          ∙ (same ∙ (v.named id c at ∙ e))
      | inr (ne, is) ↦ v.named j d is
    ];
    peer = λ j d h. elim (at_update sessions id j (some c') d h) [
      | inl (e, is) ↦
          let (p, there, of_id) = v.peer id c at in
          let q : peer_key d.addr ≡ peer_key c.addr =
            ap (λ x. peer_key (Connection.addr x)) (sym (some-injective _ _ is))
            ∙ ap peer_key home in
          (p, ap peers q ∙ there, of_id ∙ e)
      | inr (ne, is) ↦ v.peer j d is
    ];
    keyed = v.keyed;
    session = λ k q h.
        let (d, there, key) = v.session k q h in
        elim (ℕ_discrete id q.session) [
          | yes e ↦
              let r : c ≡ d = some-injective _ _ (sym at ∙ (ap sessions e ∙ there)) in
              (
                c',
                subst (λ j. update sessions id (some c') j ≡ some c') e
                    (update_self sessions id (some c')),
                ap peer_key home ∙ (ap (λ x. peer_key (Connection.addr x)) r ∙ key),
              )
          | no ne ↦ (d, update_ne sessions id (some c') q.session ne ∙ there, key)
        ];
  }
