-- ===== src/Server/Tables.antt =====
-- What SessionWorker::ProcessPacket and Server::RemoveSession keep of the tables of the server.
use dubuframework.Base.{
  ℕ, ◌+◌, ◌≤◌, ◌≡◌, refl, sym, subst, none, some, update, inl, inr, Option-cases, Bool-cases, ◌==◌,
  ltb,
}
use dubuframework.Packet.{Packet}
use dubuframework.Packet.Flag
use dubuframework.SessionManager.{add_session, generate_id, remove_session, get_session}
use dubuframework.SessionManager.Fresh.{add_session-get_session}
use dubuframework.Socket.{Addr, Net}
use dubuframework.Server.{
  Connection, Peer, Server, peer_key, set_session_id, set_sock_addr, create_session, open_session,
  remove_found, remove_session_of, move_peer, find_session, process_packet,
}
use dubuframework.Server.Paired.{
  IsPaired, sessions_of, update_over, open-IsPaired, close-IsPaired, move-IsPaired,
}

abbrev pub Paired : {S : Type 0} → Server S → Type 0
Paired v = IsPaired (sessions_of v) v.peer_map

module _ {S : Type 0} (crc_u32 crc_u8 : ℕ → ℕ → ℕ) (now : ℕ) (v : Server S)
    (paired : Paired v) where
  open_session-Paired :
      (draws : ℕ → ℕ) (fuel j : ℕ) (pop : Connection) (addr : Addr)
      → j ≤ fuel
      → get_session (draws (v.sessions.drawn + j)) v.sessions ≡ none
      → Paired (open_session crc_u32 crc_u8 now draws fuel pop addr (v.peer_map (peer_key addr)) v)
  unfolding open_session create_session add_session get_session
  open_session-Paired draws fuel j pop addr le free =
      elim (Option-cases (v.peer_map (peer_key addr))) [
        | inr (p, is) ↦
            rw (is, open_session)
              (elim (Option-cases (v.sessions.session_map p.session)) [
                | inl gone ↦ rw gone paired
                | inr (c, at) ↦ rw at paired
              ])
        | inl unknown ↦
            let id = (generate_id draws fuel v.sessions.drawn v.sessions.session_map).0 in
            let fresh =
              (add_session-get_session draws pop set_session_id fuel j v.sessions le free).0 in
            let c = set_sock_addr addr now (set_session_id id pop) in
            let peer : Peer = record { key = peer_key addr; addr = addr; session = id } in
            rw (unknown, open_session)
              (subst (λ f. IsPaired f (update v.peer_map (peer_key addr) (some peer)))
                (sym
                  (update_over v.sessions.session_map id (some (set_session_id id pop)) (some c)))
                (open-IsPaired paired id c peer fresh unknown refl refl refl refl))
      ]

  module _ (destroy : Connection → Net S → Net S) where
    remove_session_of-Paired : (id : ℕ) → Paired (remove_session_of destroy id v)
    unfolding remove_session_of remove_found remove_session get_session
    remove_session_of-Paired id = elim (Option-cases (v.sessions.session_map id)) [
      | inl gone ↦ rw (gone, remove_found) paired
      | inr (c, at) ↦ rw (at, remove_found) (close-IsPaired paired id c at)
    ]

    find_session-Paired :
        (id : ℕ) (addr : Addr)
        → Paired (find_session now destroy id addr (get_session id v.sessions) v).0
    unfolding find_session move_peer get_session
    find_session-Paired id addr = elim (Option-cases (v.sessions.session_map id)) [
      | inl gone ↦ rw (gone, find_session) paired
      | inr (c, at) ↦ elim (Option-cases (v.peer_map (peer_key addr))) [
        | inr (p, is) ↦ rw (at, find_session, is) paired
        | inl unknown ↦
            let (p, there, of_id) = paired.peer id c at in
            rw (at, find_session, unknown, there, move_peer)
              (move-IsPaired paired id c (set_sock_addr addr now c) p
                (record p { addr = addr; key = peer_key addr }) at there unknown refl refl refl
                refl)
      ]
    ]

  -- If every session has one peer and every peer one session, under its address, then it is so after
  -- any packet: of a new address, of a known one, and of a session that has moved to another
  -- address. One of the numbers drawn for a new session within the bound is free, and what is done
  -- once the session is found keeps the tables so.
  pub process_packet-Paired :
      (destroy : Connection → Net S → Net S) (draws : ℕ → ℕ) (fuel j : ℕ) (pop : Connection)
      (known : ℕ → Packet → Server S → Server S) (p : Packet) (addr : Addr)
      → j ≤ fuel
      → get_session (draws (v.sessions.drawn + j)) v.sessions ≡ none
      → ((id : ℕ) (q : Packet) (w : Server S) → Paired w → Paired (known id q w))
      → Paired (process_packet crc_u32 crc_u8 now destroy draws fuel pop known p addr v)
  unfolding process_packet
  process_packet-Paired destroy draws fuel j pop known p addr le free keeps =
      let id = p.header.session_id in
      let found = find_session-Paired destroy id addr in
      elim (Bool-cases (p.header.flags == Flag.session)) [
        | inl on ↦ rw on (open_session-Paired draws fuel j pop addr le free)
        | inr off ↦ elim (Bool-cases (ltb 0 id)) [
          | inr none' ↦ rw (off, none') paired
          | inl some' ↦
              elim (Bool-cases (find_session now destroy id addr (get_session id v.sessions) v).1) [
                | inl ok ↦ rw (off, some', ok) (keeps id p _ found)
                | inr gone ↦ rw (off, some', gone) found
              ]
        ]
      ]
