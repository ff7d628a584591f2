-- ===== src/Server/Session/Sending.antt =====
-- core/src/mc_server.c: a tick queues the packets of the world that are next, and keepalives behind the last.
use starrysky_mc_server.Prelude.{
  ℕ, ◌+◌, ◌-◌, ◌%◌, ◌≤◌, ◌<◌, ◌≡◌, ◌⊎◌, inl, inr, refl, ap, sym, ◌∙◌, Bool, true, false, not, ◌&&◌,
  List, [], ◌++◌, arith, leb, if◌then◌else◌, u32_mod, All, append-nil, append_assoc,
}
use starrysky_mc_server.Ringbuf.Bounds.{IsValid}
use starrysky_mc_server.Ringbuf.Refine.{contents, Holds, Holds-eq}
use starrysky_mc_server.Ringbuf.{Ringbuf}
use starrysky_mc_server.Server.Play.{is_play, tick_keepalive}
use starrysky_mc_server.Server.Queue.Batch.{frames_of}
use starrysky_mc_server.Server.Session.Advancing.{rounds_left, AllQueued, flat_stages}
use starrysky_mc_server.Server.Session.Following.{
  IsKeepalive, Followed, tick_keepalive-Followed, tick_keepalive_quiet,
}
use starrysky_mc_server.Server.Session.Keepalive.{tick_keepalive-Keeps}
use starrysky_mc_server.Server.Session.Outgoing.{
  start_packets, to_send, to_send_nothing, frames_of-append,
}
use starrysky_mc_server.Server.Session.Stages.{stages_loop-StagesDone}
use starrysky_mc_server.Server.Session.Ticking.{ticks-IsSession, bootstrap-Ticked}
use starrysky_mc_server.Server.Session.{IsSession}
use starrysky_mc_server.Server.Spawn.{flat_world}
use starrysky_mc_server.Server.State.{Server, play}
use starrysky_mc_server.Server.Tick.{stage_done, stages_loop, bootstrap, then_keepalive, tick_at}

-- The world was sent, or a chunk is next, less than `n` ticks are left and nothing follows yet.
abbrev pub Going : ℕ → List (List ℕ) → Server → Type 0
Going n more t =
    ((t.bootstrap_sent ≡ true) × (t.bootstrap_stage ≡ 7) × (t.chunk_index ≡ 9))
    ⊎ ((t.bootstrap_sent ≡ false)
        × (t.bootstrap_stage ≡ 6)
        × (t.chunk_index < 9)
        × (9 - t.chunk_index < n)
        × (more ≡ []))

-- What a tick did: packets that were next were queued, and perhaps a keepalive behind them.
pub record Emitted (n : ℕ) (s : Server) (tx : Ringbuf) (t : Server) (out : Ringbuf) : Type 0 where
  pub packets : List (List ℕ)
  pub more : List (List ℕ)
  pub keepalives : All IsKeepalive more
  pub split : to_send s ≡ packets ++ to_send t
  pub held : Holds tx.cap (contents tx ++ frames_of s.compression_enabled (packets ++ more)) out
  pub same_format : t.compression_enabled ≡ s.compression_enabled
  pub going : Going n more t

-- The stages of a tick, before its keepalive.
record Staged (n : ℕ) (s : Server) (tx : Ringbuf) (r : Bool × Server × Ringbuf) : Type 0 where
  ok : r.0 ≡ true
  packets : List (List ℕ)
  split : to_send s ≡ packets ++ to_send r.1
  held : Holds tx.cap (contents tx ++ frames_of s.compression_enabled packets) r.2
  same_format : r.1.compression_enabled ≡ s.compression_enabled
  going : Going n [] r.1

finish-Staged :
    (n : ℕ) (s : Server) (tx : Ringbuf) (r : Bool × Server × Ringbuf)
    → AllQueued n s tx r
    → r.1.bootstrap_sent ≡ false
    → (let q : Bool × Server × Ringbuf =
          if r.0 && leb stage_done r.1.bootstrap_stage
          then (true, record r.1 { bootstrap_sent = true }, r.2)
          else (r.0, r.1, r.2) in
        Staged n s tx q)
unfolding start_packets
finish-Staged n s tx (ok, t, out) q unsent = elim q.advanced [
  | inl (seven, nine) ↦
      let test : (ok && leb 7 t.bootstrap_stage) ≡ true = ground (arith, q.ok) in
      rw test (record {
        ok = refl;
        packets = q.packets;
        split = q.emits.split;
        held = q.emits.held;
        same_format = q.emits.same_format;
        going = inl (refl, seven, nine);
      })
  | inr (six, bound, less) ↦
      let test : (ok && leb 7 t.bootstrap_stage) ≡ false = ground arith in
      rw test (record {
        ok = q.ok;
        packets = q.packets;
        split = q.emits.split;
        held = q.emits.held;
        same_format = q.emits.same_format;
        going = inr (unsent, six, bound, less, refl);
      })
]

-- A tick with room in the output, of a client to whom the world is still to be sent.
bootstrap-Staged :
    (s : Server) (tx : Ringbuf)
    → s.bootstrap_sent ≡ false
    → s.bootstrap_stage < 7
    → s.chunk_index < 9
    → IsValid tx
    → 13000 ≤ tx.cap - tx.len
    → Staged (rounds_left s) s tx (bootstrap flat_world s tx)
unfolding bootstrap
bootstrap-Staged s tx unsent h i v room =
    let left = stage_done - s.bootstrap_stage in
    let e : s.bootstrap_stage + left ≡ 7 = omega arith in
    finish-Staged (rounds_left s) s tx (stages_loop flat_world left s tx)
      (flat_stages left s tx e h i v room)
      (ap (λ (t : Server). t.bootstrap_sent) (stages_loop-StagesDone flat_world left s tx e).same
        ∙ unsent)

pub frames_join :
    (a b : Bool) (xs ys zs : List (List ℕ))
    → b ≡ a
    → xs ++ ys ≡ zs
    → frames_of a xs ++ frames_of b ys ≡ frames_of a zs
frames_join a b xs ys zs same e =
    ap (λ c. frames_of a xs ++ frames_of c ys) same
    ∙ sym (frames_of-append a xs ys)
    ∙ ap (frames_of a) e

followed :
    (n now : ℕ) (s t : Server) (tx mid : Ringbuf)
    → IsSession t
    → Staged n s tx (true, t, mid)
    → Emitted n s tx (tick_keepalive now t mid).1 (tick_keepalive now t mid).2
followed n now s t tx mid v a = elim a.going [
  | inl (sent, seven, nine) ↦
      let u = (tick_keepalive now t mid).1 in
      let (state, input, same, stage, index, format) = tick_keepalive-Keeps now t mid in
      let (more, keepalives, held) = tick_keepalive-Followed now t mid v.id a.held.valid in
      record {
        packets = a.packets;
        more = more;
        keepalives = keepalives;
        split =
            a.split
            ∙ ap (λ l. a.packets ++ l)
                (to_send_nothing t seven nine
                  ∙ sym (to_send_nothing u (stage ∙ seven) (index ∙ nine)));
        held = Holds-eq held a.held.same_cap (
            ap (λ l. l ++ frames_of t.compression_enabled more) a.held.holds
            ∙ append_assoc (contents tx) (frames_of s.compression_enabled a.packets)
                (frames_of t.compression_enabled more)
            ∙ ap (λ l. contents tx ++ l)
                (frames_join s.compression_enabled t.compression_enabled a.packets more _
                  a.same_format refl));
        same_format = format ∙ a.same_format;
        going = inl (same ∙ sent, stage ∙ seven, index ∙ nine);
      }
  | inr (unsent, six, bound, less, none_more) ↦ rw (tick_keepalive_quiet now t mid unsent) (record {
    packets = a.packets;
    more = [];
    keepalives = tt;
    split = a.split;
    held =
        Holds-eq a.held refl
          (ap (λ l. contents tx ++ frames_of s.compression_enabled l) (sym (append-nil a.packets)));
    same_format = a.same_format;
    going = inr (unsent, six, bound, less, refl);
  })
]

then_keepalive-Emitted :
    (n now : ℕ) (s : Server) (tx : Ringbuf) (r : Bool × Server × Ringbuf)
    → IsSession r.1
    → Staged n s tx r
    → Emitted n s tx (then_keepalive flat_world now r).1 (then_keepalive flat_world now r).2
unfolding then_keepalive
then_keepalive-Emitted n now s tx (true, t, mid) v a = followed n now s t tx mid v a
then_keepalive-Emitted n now s tx (false, t, mid) v a = absurd cc

module _ (now : ℕ) (s : Server) (tx : Ringbuf) (p : s.state ≡ play) (v : IsSession s) where
  pub tick_at-Emitted :
      s.bootstrap_sent ≡ false
      → s.bootstrap_stage < 7
      → s.chunk_index < 9
      → IsValid tx
      → 13000 ≤ tx.cap - tx.len
      → Emitted (rounds_left s) s tx (tick_at flat_world now s tx).1 (tick_at flat_world now s tx).2
  unfolding tick_at start_packets
  tick_at-Emitted unsent h i valid room =
      let t = record s { ticks = (s.ticks + 1) % u32_mod } in
      let test : (is_play s.state && not s.bootstrap_sent) ≡ true = ground arith in
      let a = bootstrap-Staged t tx unsent h i valid room in
      let w = ticks-IsSession s ((s.ticks + 1) % u32_mod) v in
      let e =
        then_keepalive-Emitted (rounds_left s) now t tx (bootstrap flat_world t tx)
          (bootstrap-Ticked flat_world t tx w p unsent).session a in
      rw test (record {
        packets = e.packets;
        more = e.more;
        keepalives = e.keepalives;
        split = e.split;
        held = e.held;
        same_format = e.same_format;
        going = e.going;
      })

  pub tick_at_sent :
      s.bootstrap_sent ≡ true
      → IsValid tx
      → ((tick_at flat_world now s tx).1.bootstrap_sent ≡ true)
        × ((tick_at flat_world now s tx).1.compression_enabled ≡ s.compression_enabled)
        × Followed s.compression_enabled tx (tick_at flat_world now s tx).2
  unfolding tick_at
  tick_at_sent sent valid =
      let t = record s { ticks = (s.ticks + 1) % u32_mod } in
      let test : (is_play s.state && not s.bootstrap_sent) ≡ false = ground arith in
      let (state, input, same, stage, index, format) = tick_keepalive-Keeps now t tx in
      rw test (same ∙ sent, format, tick_keepalive-Followed now t tx v.id valid)
