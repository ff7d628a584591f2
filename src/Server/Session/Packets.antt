-- ===== src/Server/Session/Packets.antt =====
-- core/src/mc_server.c: every packet keeps the session, in every state of the connection.
use mathlib.Core.Path.{subst}
use starrysky_mc_server.Prelude.{
  ℕ, ◌≤◌, ◌<◌, ◌≡◌, ◌≢◌, ◌⊎◌, inl, inr, refl, sym, ◌∙◌, Bool, true, false, ◌||◌, Option, none, some,
  List, length, drop, arith, ltb, ◌==◌, if◌then◌else◌, Bool-cases, Option-cases, length-take,
}
use starrysky_mc_server.Packet.Frame.{frame_len, compressed_plain_frame_len}
use starrysky_mc_server.Ringbuf
use starrysky_mc_server.Ringbuf.{Ringbuf, add_size}
use starrysky_mc_server.Server.Queue.{queue_packet}
use starrysky_mc_server.Server.Body.{read_varint_body, read_string_body}
use starrysky_mc_server.Server.Handle.{
  c_string, HandshakeResult, no_match, accepted, invalid, try_handle_handshake, login_compressed,
  login_plain, login_as, handle_login, handle_status, handle_play, handle_in_state, after_handshake,
  handle_zero, by_packet_id, handle_packet,
}
use starrysky_mc_server.Server.Packets.{login_success_body, set_compression_body}
use starrysky_mc_server.Server.Session.Commands.{
  unchanged, handle_play_movement-Handled, handle_keepalive_ack-Handled,
  handle_chat_message-Handled,
}
use starrysky_mc_server.Server.Session.{IsSession, Handled}
use starrysky_mc_server.Server.State.{ConnState, handshake, status, login, play, Server}
use starrysky_mc_server.Server.Session.Joining.{
  try_handle_handshake-Handled, length-c_string, login_by, Outcomes, try_handle_handshake_cases,
}

login_compressed-server :
    (a b : Option (List ℕ)) (s : Server) (tx : Ringbuf)
    → (enabled : Bool) × ((login_compressed a b s tx).1
        ≡ record s { compression_enabled = enabled })
unfolding login_compressed
login_compressed-server none b s tx = (s.compression_enabled, refl)
login_compressed-server (some a) none s tx = (s.compression_enabled, refl)
login_compressed-server (some a) (some b) s tx =
    let needed = add_size (frame_len (length a)) (compressed_plain_frame_len (length b)) in
    elim (Bool-cases (needed == 0 || ltb (Ringbuf.free tx) needed)) [
      | inl e ↦ (s.compression_enabled, rw e refl)
      | inr e ↦ elim (Bool-cases (queue_packet a tx).0) [
        | inl f ↦ (true, rw (e, f) refl)
        | inr f ↦ (s.compression_enabled, rw (e, f) refl)
      ]
    ]

read_string_body-short :
    (dst_cap : ℕ) (body : List ℕ) (pos : ℕ) (r : List ℕ × ℕ)
    → read_string_body dst_cap body pos ≡ some r
    → length r.0 < dst_cap
unfolding read_string_body
read_string_body-short dst_cap body pos r h = elim (Option-cases (read_varint_body body pos)) [
  | inl e ↦ ground arith
  | inr (l, e) ↦ ground (arith, length-take l.0 (drop l.1 body))
]

module _ (compression : Bool) (s : Server) (v : IsSession s) (p : s.state ≡ login) where
  login_as-Handled :
      (username : List ℕ) (tx : Ringbuf)
      → 0 < length username
      → length username ≤ 16
      → (let r = login_as compression username s tx in Handled s (r.0, r.1))
  unfolding login_as login_plain
  login_as-Handled username tx some_name short =
      elim compression as (λ c. let r = login_as c username s tx in Handled s (r.0, r.1)) [
        | true ↦
            let success = login_success_body username in
            let (enabled, e) =
              login_compressed-server (set_compression_body s.compression_threshold) success s tx in
            login_by s v p username
              (login_compressed (set_compression_body s.compression_threshold) success s tx) enabled
              some_name short e
        | false ↦
            login_by s v p username (login_plain (login_success_body username) s tx)
              s.compression_enabled some_name short refl
      ]

  handle_login-Handled :
      (body : List ℕ) (pos : ℕ) (tx : Ringbuf)
      → (let r = handle_login compression body pos s tx in Handled s (r.0, r.1))
  unfolding handle_login
  handle_login-Handled body pos tx = elim (Option-cases (read_string_body 17 body pos)) [
    | inl e ↦ rw (handle_login, e) (unchanged s false v)
    | inr (r, e) ↦
        rw (handle_login, e)
          (elim (Bool-cases (length (c_string r.0) == 0)) [
            | inl f ↦ rw f (unchanged s false v)
            | inr f ↦ rw f (
                login_as-Handled (c_string r.0) tx (ground arith)
                  (omega (arith, length-c_string r.0, read_string_body-short 17 body pos r e)))
          ])
  ]

-- A playing client.
handle_play-Handled :
    (packet_id : ℕ) (body : List ℕ) (pos : ℕ) (s : Server) (tx : Ringbuf)
    → IsSession s
    → s.state ≡ play
    → (let r = handle_play packet_id body pos s tx in Handled s (r.0, r.1))
unfolding handle_play
handle_play-Handled packet_id body pos s tx v p = elim (Bool-cases (packet_id == 0)) [
  | inl e ↦ rw e (handle_keepalive_ack-Handled s v p body pos)
  | inr e ↦ rw e (elim (Bool-cases (packet_id == 1)) [
    | inl f ↦ rw f (handle_chat_message-Handled s v p body pos tx)
    | inr f ↦
        rw f
          (elim (Bool-cases
            ((packet_id == 3) || (packet_id == 4) || (packet_id == 5) || (packet_id == 6))) [
              | inl g ↦ rw g (handle_play_movement-Handled s v p packet_id body pos)
              | inr g ↦ rw g (unchanged s true v)
            ])
  ])
]

handle_status-server :
    (packet_id : ℕ) (body : List ℕ) (pos : ℕ) (s : Server) (tx : Ringbuf)
    → (handle_status packet_id body pos s tx).1 ≡ s
unfolding handle_status
handle_status-server packet_id body pos s tx = refl

module _ (compression : Bool) (s : Server) (v : IsSession s) where
  handle_in_state-Handled :
      (c : ConnState) (packet_id : ℕ) (body : List ℕ) (pos : ℕ) (tx : Ringbuf)
      → s.state ≡ c
      → (let r = handle_in_state compression c packet_id body pos s tx in Handled s (r.0, r.1))
  unfolding handle_in_state
  handle_in_state-Handled handshake packet_id body pos tx e = unchanged s true v
  handle_in_state-Handled status packet_id body pos tx e =
      subst (λ t. Handled s ((handle_status packet_id body pos s tx).0, t))
        (sym (handle_status-server packet_id body pos s tx)) (unchanged s _ v)
  handle_in_state-Handled login packet_id body pos tx e = elim (Bool-cases (packet_id == 0)) [
    | inl f ↦ rw f (handle_login-Handled compression s v e body pos tx)
    | inr f ↦ rw f (unchanged s true v)
  ]
  handle_in_state-Handled play packet_id body pos tx e =
      handle_play-Handled packet_id body pos s tx v e

  after_handshake-Handled :
      (c : ConnState) (body : List ℕ) (pos : ℕ) (tx : Ringbuf)
      → s.state ≡ c
      → (let r = after_handshake compression c body pos s tx in Handled s (r.0, r.1))
  unfolding after_handshake
  after_handshake-Handled handshake body pos tx e = unchanged s false v
  after_handshake-Handled status body pos tx e = handle_in_state-Handled status 0 body pos tx e
  after_handshake-Handled login body pos tx e = handle_in_state-Handled login 0 body pos tx e
  after_handshake-Handled play body pos tx e = unchanged s false v

-- The result of the call is of no account.
any_result : (s t : Server) (a b : Bool) → Handled s (a, t) → Handled s (b, t)
any_result s t a b h = record { session = h.session; moves = h.moves; same_input = h.same_input }

module _ (compression : Bool) (s : Server) (v : IsSession s) where
  refused-Handled :
      (t : Server) (body : List ℕ) (pos : ℕ) (tx : Ringbuf)
      → Handled s (true, t)
      → (t ≡ s) ⊎ (t.state ≡ handshake)
      → (let r = after_handshake compression t.state body pos t tx in Handled s (r.0, r.1))
  unfolding after_handshake
  refused-Handled t body pos tx h (inl e) =
      rw e (after_handshake-Handled compression s v s.state body pos tx refl)
  refused-Handled t body pos tx h (inr e) =
      subst (λ c. let r = after_handshake compression c body pos t tx in Handled s (r.0, r.1))
        (sym e) (any_result s t true false h)

  handle_zero-Handled :
      (r : HandshakeResult × Server) (body : List ℕ) (pos : ℕ) (tx : Ringbuf)
      → Handled s (true, r.1)
      → Outcomes s r
      → (let q = handle_zero compression r body pos tx in Handled s (q.0, q.1))
  unfolding handle_zero
  handle_zero-Handled (accepted, t) body pos tx h o = h
  handle_zero-Handled (invalid, t) body pos tx h (inl e) = cc
  handle_zero-Handled (invalid, t) body pos tx h (inr e) = refused-Handled t body pos tx h e
  handle_zero-Handled (no_match, t) body pos tx h (inl e) = cc
  handle_zero-Handled (no_match, t) body pos tx h (inr e) = refused-Handled t body pos tx h e

  before_play :
      (c : ConnState) (packet_id : ℕ) (body : List ℕ) (pos : ℕ) (tx : Ringbuf)
      → s.state ≡ c
      → c ≢ play
      → (let q =
            if packet_id == 0
            then handle_zero compression (try_handle_handshake body s) body pos tx
            else handle_in_state compression c packet_id body pos s tx in
          Handled s (q.0, q.1))
  before_play c packet_id body pos tx e n = elim (Bool-cases (packet_id == 0)) [
    | inl f ↦ rw f (
        handle_zero-Handled (try_handle_handshake body s) body pos tx
          (try_handle_handshake-Handled body s v (λ q. n (sym e ∙ q)))
          (try_handle_handshake_cases body s))
    | inr f ↦ rw f (handle_in_state-Handled compression s v c packet_id body pos tx e)
  ]

  by_packet_id-Handled :
      (c : ConnState) (packet_id : ℕ) (body : List ℕ) (pos : ℕ) (tx : Ringbuf)
      → s.state ≡ c
      → (let q = by_packet_id compression c packet_id body pos s tx in Handled s (q.0, q.1))
  unfolding by_packet_id
  by_packet_id-Handled play packet_id body pos tx e =
      handle_in_state-Handled compression s v play packet_id body pos tx e
  by_packet_id-Handled handshake packet_id body pos tx e =
      before_play handshake packet_id body pos tx e (λ q. cc)
  by_packet_id-Handled status packet_id body pos tx e =
      before_play status packet_id body pos tx e (λ q. cc)
  by_packet_id-Handled login packet_id body pos tx e =
      before_play login packet_id body pos tx e (λ q. cc)

  pub handle_packet-Handled :
      (body : List ℕ) (tx : Ringbuf)
      → (let r = handle_packet compression body s tx in Handled s (r.0, r.1))
  unfolding handle_packet
  handle_packet-Handled body tx = elim (Option-cases (read_varint_body body 0)) [
    | inl e ↦ rw (handle_packet, e) (unchanged s false v)
    | inr (r, e) ↦ rw (handle_packet, e) (by_packet_id-Handled s.state r.0 body r.1 tx refl)
  ]
