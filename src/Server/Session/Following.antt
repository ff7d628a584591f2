-- ===== src/Server/Session/Following.antt =====
-- core/src/mc_server.c: what a keepalive leaves in the output.
use mathlib.Core.Path.{subst}
use starrysky_mc_server.Config.{int32_max}
use starrysky_mc_server.Packet.Writes.{>>-Appends, write_varint-Appends}
use starrysky_mc_server.Prelude.{
  ℕ, ◌-◌, ◌≤◌, ◌≡◌, inl, inr, refl, sym, Bool, true, false, not, ◌&&◌, ◌||◌, some, List, [], ◌∷◌,
  ◌++◌, length, arith, leb, ltb, ◌==◌, Bool-cases, append-nil, ap, All,
}
use starrysky_mc_server.Ringbuf.Bounds.{IsValid}
use starrysky_mc_server.Ringbuf.Refine.{contents, Holds, Holds-eq}
use starrysky_mc_server.Ringbuf.{Ringbuf}
use starrysky_mc_server.Server.Packets.Built.{build-some}
use starrysky_mc_server.Server.Packets.{keepalive_body}
use starrysky_mc_server.Server.Play.{
  is_play, elapsed_ticks, next_keepalive_id, send_keepalive, tick_keepalive,
}
use starrysky_mc_server.Server.Queue.Single.{
  frame_of, queue_packet_auto-IsQueued, queue_packet_auto_refused,
}
use starrysky_mc_server.Server.Queue.Batch.{frames_of}
use starrysky_mc_server.Server.Session.Outgoing.{frames_of_one}
use starrysky_mc_server.Server.Queue.{queue_packet_auto}
use starrysky_mc_server.Server.Session.Keepalive.{next_keepalive_id_bounds}
use starrysky_mc_server.Server.State.{Server}
use starrysky_mc_server.Varint.RoundTrip.{bytes_of, length-bytes_of}

-- The packet of a keepalive.
abbrev pub IsKeepalive : List ℕ → Type 0
IsKeepalive body = (id : ℕ) × (body ≡ 0 ∷ bytes_of id)

-- A ring with nothing but keepalives behind what it held.
abbrev pub Followed : Bool → Ringbuf → Ringbuf → Type 0
Followed enabled tx out =
    (more : List (List ℕ)) × All IsKeepalive more
    × Holds tx.cap (contents tx ++ frames_of enabled more) out

same-Followed : (enabled : Bool) (tx : Ringbuf) → IsValid tx → Followed enabled tx tx
unfolding frames_of
same-Followed enabled tx v =
    ([], tt, record { valid = v; same_cap = refl; holds = sym (append-nil (contents tx)) })

keepalive-Followed :
    (enabled : Bool) (id : ℕ) (tx : Ringbuf)
    → IsValid tx
    → Followed enabled tx (queue_packet_auto enabled (0 ∷ bytes_of id) tx).1
keepalive-Followed enabled id tx v =
    let body = 0 ∷ bytes_of id in
    let h = length-bytes_of id in
    elim (Bool-cases (leb (length (frame_of enabled body)) (tx.cap - tx.len))) [
      | inl e ↦ (
        body ∷ [],
        ((id, refl), tt),
        Holds-eq
            (queue_packet_auto-IsQueued enabled body tx v (omega (arith, h)) (ground arith)).holds
            refl (ap (λ l. contents tx ++ l) (sym (frames_of_one enabled body))),
      )
      | inr e ↦
          subst (λ (r : Bool × Ringbuf). Followed enabled tx r.1)
            (sym (queue_packet_auto_refused enabled body tx v (ground arith)))
            (same-Followed enabled tx v)
    ]

keepalive_body_lem : (id : ℕ) → id ≤ int32_max → keepalive_body id ≡ some (0 ∷ bytes_of id)
unfolding keepalive_body bytes_of
keepalive_body_lem id h =
    build-some 16 (0 ∷ bytes_of id) _
      (>>-Appends (0 ∷ []) (bytes_of id) (write_varint-Appends 0 (omega arith))
        (write_varint-Appends id (omega arith)))
      (omega (arith, length-bytes_of id)) (omega arith)

send_keepalive-Followed :
    (id now : ℕ) (s : Server) (tx : Ringbuf)
    → IsValid tx
    → id ≤ int32_max
    → Followed s.compression_enabled tx (send_keepalive (keepalive_body id) id now s tx).2
unfolding send_keepalive
send_keepalive-Followed id now s tx v h =
    rw (keepalive_body_lem id h) (keepalive-Followed s.compression_enabled id tx v)

-- Whatever room there is, the keepalive adds nothing else to the output.
pub tick_keepalive-Followed :
    (now : ℕ) (s : Server) (tx : Ringbuf)
    → s.keepalive_id ≤ int32_max
    → IsValid tx
    → Followed s.compression_enabled tx (tick_keepalive now s tx).2
unfolding tick_keepalive
tick_keepalive-Followed now s tx h v =
    elim (Bool-cases (not (is_play s.state) || not s.bootstrap_sent)) [
      | inl e ↦ rw e (same-Followed s.compression_enabled tx v)
      | inr e ↦
          rw e
            (elim (Bool-cases (
              not (s.last_keepalive_tick == 0)
              && ltb (elapsed_ticks now s.last_keepalive_tick) 720_000_000)) [
                | inl f ↦ rw f (same-Followed s.compression_enabled tx v)
                | inr f ↦ rw f (
                    send_keepalive-Followed (next_keepalive_id s.keepalive_id) now s tx v
                      (next_keepalive_id_bounds s.keepalive_id h).1)
              ])
    ]

-- Before the world is sent there is no keepalive.
pub tick_keepalive_quiet :
    (now : ℕ) (s : Server) (tx : Ringbuf)
    → s.bootstrap_sent ≡ false
    → tick_keepalive now s tx ≡ (true, s, tx)
unfolding tick_keepalive
tick_keepalive_quiet now s tx e =
    let test : (not (is_play s.state) || not s.bootstrap_sent) ≡ true = ground arith in rw test refl
