-- ===== src/World/Spawn.antt =====
-- core/src/mc_world.c: the chunks around the spawn are queued whole or not at all.
use mathlib.Core.Path.{subst}
use starrysky_mc_server.Prelude.{
  ℕ, zero, suc, ◌+◌, ◌-◌, ◌*◌, ◌≤◌, ◌<◌, ◌≡◌, ◌⊎◌, inl, inr, refl, sym, ap, ◌∙◌, arith, List, [],
  ◌++◌, Bool, true, false, not, Option, some, none, length, leb, length-append, append-nil,
  append_assoc, lt→leb, le→leb, leb→le, leb→lt, Bool-cases, if◌then◌else◌,
}
use starrysky_mc_server.Ringbuf
use starrysky_mc_server.Ringbuf.{Ringbuf}
use starrysky_mc_server.Ringbuf.Bounds.{IsValid, free_lem}
use starrysky_mc_server.Ringbuf.Refine.{contents, Holds-eq}
use starrysky_mc_server.Server.Queue.{queue_packet_auto}
use starrysky_mc_server.Server.Queue.Single.{
  IsQueued, frame_of, queue_packet_auto-IsQueued, room_after,
}
use starrysky_mc_server.Varint.RoundTrip.{bytes_of, encode-eq-bytes_of}
use starrysky_mc_server.World.Body.{
  packet_at, length-packet_at, spawn_chunk_body_lem, chunk_frame, length-chunk_frame,
}
use starrysky_mc_server.World.{
  queue_spawn_chunk, preflight_step, preflight_loop, preflight_spawn_chunk_space, queue_chunks_loop,
  queue_spawn_chunks,
}

queue_spawn_chunk-eq :
    (index : ℕ) (tx : Ringbuf)
    → index < 9
    → queue_spawn_chunk index tx ≡ queue_packet_auto false (packet_at index) tx
unfolding queue_spawn_chunk queue_packet_auto
queue_spawn_chunk-eq index tx h = rw (lt→leb 9 index h, spawn_chunk_body_lem index) refl

pub frame_of-chunk : (index : ℕ) → frame_of false (packet_at index) ≡ chunk_frame index
unfolding frame_of chunk_frame
frame_of-chunk index = refl

pub queue_spawn_chunk-IsQueued :
    (index : ℕ) (tx : Ringbuf)
    → index < 9
    → IsValid tx
    → 12560 ≤ tx.cap - tx.len
    → IsQueued (chunk_frame index) tx (queue_spawn_chunk index tx)
queue_spawn_chunk-IsQueued index tx h v room = rw (queue_spawn_chunk-eq index tx h) (
    subst (λ l. IsQueued l tx (queue_packet_auto false (packet_at index) tx)) (frame_of-chunk index)
      (queue_packet_auto-IsQueued false (packet_at index) tx v
        (omega (arith, length-packet_at index))
        (rw (frame_of-chunk index) (omega (arith, length-chunk_frame index)))))

-- The frames of the last `left` chunks.
unfoldable pub frames_left : ℕ → List ℕ
frames_left zero = []
frames_left (suc left) = chunk_frame (8 - left) ++ frames_left left

length-frames_left : (left : ℕ) → length (frames_left left) ≡ 12560 * left
unfolding frames_left
length-frames_left zero = omega arith
length-frames_left (suc left) = omega (
  arith,
  length-append (chunk_frame (8 - left)) (frames_left left),
  length-chunk_frame (8 - left),
  length-frames_left left,
)

queue_chunks_loop-next :
    (left : ℕ) (tx : Ringbuf)
    → (queue_spawn_chunk (8 - left) tx).0 ≡ true
    → queue_chunks_loop (suc left) tx ≡ queue_chunks_loop left (queue_spawn_chunk (8 - left) tx).1
unfolding queue_chunks_loop
queue_chunks_loop-next left tx e = rw e refl

queue_chunks_loop-IsQueued :
    (left : ℕ) (tx : Ringbuf)
    → left ≤ 9
    → IsValid tx
    → 12560 * left ≤ tx.cap - tx.len
    → IsQueued (frames_left left) tx (queue_chunks_loop left tx)
unfolding frames_left
queue_chunks_loop-IsQueued zero tx h v room =
    unfold queue_chunks_loop in
    record {
      done = refl;
      holds = record { valid = v; same_cap = refl; holds = sym (append-nil (contents tx)) };
    }
queue_chunks_loop-IsQueued (suc left) tx h v room =
    let frame = chunk_frame (8 - left) in
    let n = length-chunk_frame (8 - left) in
    let a = queue_spawn_chunk-IsQueued (8 - left) tx (omega arith) v (omega arith) in
    let b =
      queue_chunks_loop-IsQueued left (queue_spawn_chunk (8 - left) tx).1 (omega arith)
        a.holds.valid (room_after frame (12560 * left) tx _ a (omega (arith, n))) in
    rw (queue_chunks_loop-next left tx a.done) (record {
      done = b.done;
      holds = Holds-eq b.holds a.holds.same_cap (
          ap (λ l. l ++ frames_left left) a.holds.holds
          ∙ append_assoc (contents tx) frame (frames_left left));
    })

preflight_step_lem :
    (free_len needed index : ℕ)
    → needed ≤ 12560 * 8
    → preflight_step free_len (packet_at index) needed
      ≡ (if leb (needed + 12560) free_len then some (needed + 12560) else none)
unfolding preflight_step bytes_of
preflight_step_lem free_len needed index h =
    rw (length-packet_at index, encode-eq-bytes_of 12558 5 (omega arith) (omega arith))
      (ground arith)

preflight_loop-next :
    (left free_len needed : ℕ) (o : Option ℕ)
    → preflight_step free_len (packet_at (8 - left)) needed ≡ o
    → preflight_loop (suc left) free_len needed
      ≡ elim o as (λ _. Bool) [ none ↦ false | some needed' ↦ preflight_loop left free_len needed' ]
unfolding preflight_loop
preflight_loop-next left free_len needed o e =
    ap
      (λ (b : Option (List ℕ)). elim b as (λ _. Bool) [
        | none ↦ false
        | some body ↦ elim (preflight_step free_len body needed) as (λ _. Bool) [
          | none ↦ false
          | some needed' ↦ preflight_loop left free_len needed'
        ]
      ])
      (spawn_chunk_body_lem (8 - left))
    ∙ ap
        (λ (b : Option ℕ). elim b as (λ _. Bool) [
          | none ↦ false
          | some needed' ↦ preflight_loop left free_len needed'
        ])
        e

preflight_loop_lem :
    (left free_len needed : ℕ)
    → needed + 12560 * left ≡ 113040
    → needed ≤ free_len
    → preflight_loop left free_len needed ≡ leb 113040 free_len
preflight_loop_lem zero free_len needed e h =
    unfold preflight_loop in sym (le→leb _ _ (omega arith))
preflight_loop_lem (suc left) free_len needed e h =
    let step = preflight_step_lem free_len needed (8 - left) (omega arith) in
    elim (Bool-cases (leb (needed + 12560) free_len)) [
      | inl t ↦
          preflight_loop-next left free_len needed (some (needed + 12560)) (step ∙ rw t refl)
          ∙ preflight_loop_lem left free_len (needed + 12560) (omega arith) (leb→le _ _ t)
      | inr t ↦
          preflight_loop-next left free_len needed none (step ∙ rw t refl)
          ∙ sym (lt→leb _ _ (omega (arith, leb→lt _ _ t)))
    ]

queue_spawn_chunks-eq :
    (tx : Ringbuf)
    → queue_spawn_chunks tx
      ≡ (if preflight_loop 9 (Ringbuf.free tx) 0 then queue_chunks_loop 9 tx else (false, tx))
unfolding queue_spawn_chunks preflight_spawn_chunk_space
queue_spawn_chunks-eq tx =
    elim (preflight_loop 9 (Ringbuf.free tx) 0)
      as (λ b.
        (if not b then (false, tx) else queue_chunks_loop 9 tx)
        ≡ (if b then queue_chunks_loop 9 tx else (false, tx))) [ true ↦ refl | false ↦ refl ]

-- The nine chunks on a valid ring: all nine frames are queued, in the order of the table, where
-- there is room for the 113040 bytes of them; elsewhere the call fails and leaves the ring as it
-- was.
pub queue_spawn_chunks_lem :
    (tx : Ringbuf)
    → IsValid tx
    → ((113040 ≤ tx.cap - tx.len) × IsQueued (frames_left 9) tx (queue_spawn_chunks tx))
      ⊎ ((tx.cap - tx.len < 113040) × (queue_spawn_chunks tx ≡ (false, tx)))
queue_spawn_chunks_lem tx v =
    let f = free_lem tx v in
    let p = preflight_loop_lem 9 (Ringbuf.free tx) 0 (omega arith) (omega arith) in
    elim (Bool-cases (leb 113040 (Ringbuf.free tx))) [
      | inl t ↦
          let room : 113040 ≤ tx.cap - tx.len = omega (arith, f, leb→le _ _ t) in
          inl (
            room,
            rw (queue_spawn_chunks-eq tx, p, t)
                (queue_chunks_loop-IsQueued 9 tx (omega arith) v room),
          )
      | inr t ↦ inr (omega (arith, f, leb→lt _ _ t), rw (queue_spawn_chunks-eq tx, p, t) refl)
    ]
