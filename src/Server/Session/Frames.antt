-- ===== src/Server/Session/Frames.antt =====
-- core/src/mc_server.c: a frame is taken off the input, or all of it.
use mathlib.Core.Path.{subst}
use starrysky_mc_server.Packet.Frame.{try_read}
use starrysky_mc_server.Packet.Framing.{try_read_takes}
use starrysky_mc_server.Prelude.{
  ℕ, ◌≤◌, ◌<◌, ◌≡◌, inl, inr, refl, sym, ap, Bool, true, false, Option, none, some, List, [], ◌∷◌,
  ◌++◌, length, drop, arith, ◌==◌, if◌then◌else◌, Bool-cases, Option-cases, length-drop,
  length-append, All, All-drop, All-append, IsByte,
}
use starrysky_mc_server.Ringbuf.{Ringbuf}
use starrysky_mc_server.Server.Handle.{handle_packet}
use starrysky_mc_server.Server.Receive.{
  rx_accum_cap, discard, body_of, take_frame, handle_body, handle_frame, gather_bytes,
}
use starrysky_mc_server.Server.Session.Packets.{handle_packet-Handled}
use starrysky_mc_server.Server.Session.{HasName, IsSession, Moves, stays, Handled}
use starrysky_mc_server.Server.State.{ConnState, handshake, status, login, play, Server}

-- After a frame the input is shorter; after an error there is none.
abbrev pub Input : Bool → List ℕ → List ℕ → Type 0
Input true old new = length new < length old
Input false old new = new ≡ []

pub record FrameDone (s : Server) (r : Bool × Server × Ringbuf) : Type 0 where
  pub session : IsSession r.1
  pub moves : Moves s.state r.1.state
  pub bytes : All IsByte r.1.rx_accum
  pub input : Input r.0 s.rx_accum r.1.rx_accum

-- The session does not depend on the input.
pub with_input-IsSession :
    (s : Server) (input : List ℕ) → IsSession s → IsSession (record s { rx_accum = input })
with_input-IsSession s input v = record {
  name = name_of s.state v.name;
  sent = v.sent;
  time = v.time;
  id = v.id;
}
  where
    name_of : (c : ConnState) → HasName c s → HasName c (record s { rx_accum = input })
    name_of play h = h
    name_of handshake h = h
    name_of status h = h
    name_of login h = h

pub discard-FrameDone :
    (s t : Server) (tx : Ringbuf) → IsSession t → Moves s.state t.state → FrameDone s (discard t tx)
unfolding discard
discard-FrameDone s t tx v m = record {
  session = with_input-IsSession t [] v;
  moves = m;
  bytes = tt;
  input = refl;
}

take_frame-FrameDone :
    (s : Server) (frame_len : ℕ) (r : Bool × Server × Ringbuf)
    → Handled s (r.0, r.1)
    → All IsByte s.rx_accum
    → 0 < frame_len
    → frame_len ≤ length s.rx_accum
    → FrameDone s (take_frame frame_len r)
unfolding take_frame
take_frame-FrameDone s frame_len (true, t, tx) h b pos le = record {
  session = with_input-IsSession t (drop frame_len t.rx_accum) h.session;
  moves = h.moves;
  bytes =
      subst (λ l. All IsByte (drop frame_len l)) (sym h.same_input)
        (All-drop IsByte frame_len s.rx_accum b);
  input = omega (arith, length-drop frame_len t.rx_accum, ap length h.same_input);
}
take_frame-FrameDone s frame_len (false, t, tx) h b pos le =
    discard-FrameDone s t tx h.session h.moves

module _ (compression : Bool) where
  handle_body-FrameDone :
      (s : Server) (frame_len : ℕ) (body : Option (List ℕ)) (tx : Ringbuf)
      → IsSession s
      → All IsByte s.rx_accum
      → 0 < frame_len
      → frame_len ≤ length s.rx_accum
      → FrameDone s (handle_body compression frame_len body s tx)
  unfolding handle_body
  handle_body-FrameDone s frame_len none tx v b pos le = discard-FrameDone s s tx v (stays s.state)
  handle_body-FrameDone s frame_len (some body) tx v b pos le =
      take_frame-FrameDone s frame_len (handle_packet compression body s tx)
        (handle_packet-Handled compression s v body tx) b pos le

  pub handle_frame-FrameDone :
      (s : Server) (tx : Ringbuf)
      → IsSession s
      → All IsByte s.rx_accum
      → FrameDone s (handle_frame compression s tx)
  unfolding handle_frame
  handle_frame-FrameDone s tx v b = elim (Option-cases (try_read s.rx_accum)) [
    | inl e ↦ rw (handle_frame, e) (discard-FrameDone s s tx v (stays s.state))
    | inr (p, e) ↦
        let takes = try_read_takes s.rx_accum p b e in
        rw (handle_frame, e)
          (handle_body-FrameDone s p.frame_len (body_of s.compression_enabled p) tx v b
            (omega (arith, takes.1)) (omega (arith, takes.2)))
  ]

-- What the first loop leaves: the same state but for the input, which stays within its array.
pub record Gathered (s : Server) (r : Bool × Server) : Type 0 where
  pub session : IsSession r.1
  pub same_state : r.1.state ≡ s.state
  pub bytes : All IsByte r.1.rx_accum
  pub input : length r.1.rx_accum ≤ (if r.0 then rx_accum_cap else 0)

pub gather_bytes-Gathered :
    (bytes : List ℕ) (s : Server)
    → IsSession s
    → All IsByte s.rx_accum
    → All IsByte bytes
    → length s.rx_accum ≤ rx_accum_cap
    → Gathered s (gather_bytes bytes s)
unfolding gather_bytes
gather_bytes-Gathered [] s v b h le = record {
  session = v;
  same_state = refl;
  bytes = b;
  input = le;
}
gather_bytes-Gathered (x ∷ bytes) s v b h le =
    elim (Bool-cases (length s.rx_accum == rx_accum_cap)) [
      | inl e ↦ rw e (record {
        session = with_input-IsSession s [] v;
        same_state = refl;
        bytes = tt;
        input = omega arith;
      })
      | inr e ↦
          let input = s.rx_accum ++ (x ∷ []) in
          let g =
            gather_bytes-Gathered bytes (record s { rx_accum = input })
              (with_input-IsSession s input v) (All-append IsByte s.rx_accum (x ∷ []) b (h.0, tt))
              h.1 (ground (arith, length-append s.rx_accum (x ∷ []))) in
          rw e (record {
            session = g.session;
            same_state = g.same_state;
            bytes = g.bytes;
            input = g.input;
          })
    ]
