-- ===== src/Session/Sending.antt =====
-- firmware/mc_link_session.c: the queued frames are sent whole, control frames first.
pub mod Order
pub mod Server
use starrysky_mc_server.Prelude.{
  ℕ, zero, suc, ◌+◌, ◌-◌, ◌%◌, ◌≤◌, ◌<◌, ◌≡◌, ◌≢◌, refl, ap, sym, ◌∙◌, arith, List, [], ◌∷◌, ◌++◌,
  Bool, true, false, not, ◌&&◌, ◌||◌, Option, none, some, length, get_or, length-append,
  length-take, get_or-append, append_assoc, leb, ltb, ◌==◌, if◌then◌else◌, All, min, Bool-cases,
  inl, inr, lt→ltb, le→ltb, take-append,
}
use starrysky_mc_server.Prelude
use starrysky_mc_server.Ringbuf
use starrysky_mc_server.Ringbuf.{Ringbuf, sub_size}
use starrysky_mc_server.Ringbuf.Bounds.{IsValid, sub_size-eq}
use starrysky_mc_server.Ringbuf.Refine.{contents, length-contents, Holds}
use starrysky_mc_server.Ringbuf.Reads.{read_refines, peek_refines}
use starrysky_mc_server.Link.Cobs.Blocks.{IsNonzero}
use starrysky_mc_server.Session.{Session, TxQueue, tx_none, tx_data, tx_control, clear_active_tx}
use starrysky_mc_server.Session.Transmit.{
  frame_len_loop, next_frame_len, choose_frame, send_from, send_active, read_tx,
}

pub peek_at :
    (rb : Ringbuf) (front rest : List ℕ) (b i : ℕ)
    → IsValid rb
    → contents rb ≡ front ++ (b ∷ rest)
    → i ≡ length front
    → Ringbuf.peek rb i ≡ some b
peek_at rb front rest b i v e h =
    let n : length (contents rb) ≡ length front + suc (length rest) =
      ap length e ∙ length-append front (b ∷ rest) in
    peek_refines rb i v
    ∙ rw (lt→ltb i (length (contents rb)) (omega arith))
        (ap some (ap (λ l. get_or l i 0) e ∙ get_or-append 0 front (b ∷ rest) i 0 (omega arith)))

frame_len_loop_step :
    (tx : Ringbuf) (i n b : ℕ)
    → Ringbuf.peek tx i ≡ some b
    → frame_len_loop tx i (suc n) ≡ (if b == 0 then some (i + 1) else frame_len_loop tx (suc i) n)
unfolding frame_len_loop
frame_len_loop_step tx i n b e =
    ap
      (λ (o : Option ℕ). elim o as (λ _. Option ℕ) [
        | none ↦ none
        | some byte ↦ if byte == 0 then some (i + 1) else frame_len_loop tx (suc i) n
      ])
      e

frame_len_loop_finds :
    (enc front rest : List ℕ) (tx : Ringbuf) (i n : ℕ)
    → IsValid tx
    → contents tx ≡ front ++ (enc ++ (0 ∷ rest))
    → i ≡ length front
    → length enc < n
    → All IsNonzero enc
    → frame_len_loop tx i n ≡ some (i + length enc + 1)
frame_len_loop_finds enc front rest tx i zero v e h k nz = absurd (omega arith)
frame_len_loop_finds [] front rest tx i (suc n) v e h k nz =
    frame_len_loop_step tx i n 0 (peek_at tx front rest 0 i v e h)
    ∙ ap some (let z : i + 1 ≡ i + 0 + 1 = omega arith in z)
frame_len_loop_finds (x ∷ enc) front rest tx i (suc n) v e h k nz =
    let next =
      frame_len_loop_finds enc (front ++ (x ∷ [])) rest tx (suc i) n v
        (e ∙ sym (append_assoc front (x ∷ []) (enc ++ (0 ∷ rest))))
        (omega (arith, length-append front (x ∷ []))) (omega arith) nz.1 in
    let t : (x == 0) ≡ false = ground (arith, nz.0) in
    frame_len_loop_step tx i n x (peek_at tx front (enc ++ (0 ∷ rest)) x i v e h)
    ∙ rw t next
    ∙ ap some (let z : suc i + length enc + 1 ≡ i + suc (length enc) + 1 = omega arith in z)

-- The first frame of a queue, with its delimiter.
pub next_frame_len_lem :
    (tx : Ringbuf) (enc rest : List ℕ)
    → IsValid tx
    → All IsNonzero enc
    → contents tx ≡ enc ++ (0 ∷ rest)
    → next_frame_len tx ≡ some (length enc + 1)
unfolding next_frame_len
next_frame_len_lem tx enc rest v nz e =
    let n : tx.len ≡ length enc + suc (length rest) =
      sym (length-contents tx) ∙ ap length e ∙ length-append enc (0 ∷ rest) in
    frame_len_loop_finds enc [] rest tx 0 tx.len v e refl (omega arith) nz
    ∙ ap some (let z : 0 + length enc + 1 ≡ length enc + 1 = omega arith in z)

pub next_frame_len_empty : (tx : Ringbuf) → tx.len ≡ 0 → next_frame_len tx ≡ none
unfolding next_frame_len frame_len_loop
next_frame_len_empty tx e = ap (frame_len_loop tx 0) e

-- What one call sends from the ring `rb`, of a frame that has `remaining` bytes left in it.
pub record Sends (max_len remaining : ℕ) (rb : Ringbuf) (bytes : List ℕ) (rb' : Ringbuf) (left : ℕ)
    : Type 0 where
  pub bytes_are : bytes ≡ Prelude.take (min max_len remaining) (contents rb)
  pub holds : Holds rb.cap (Prelude.drop (min max_len remaining) (contents rb)) rb'
  pub left_is : left ≡ remaining - min max_len remaining

-- The session after such a call.
unfoldable pub settled : ℕ → (Ringbuf → Session → Session) → Ringbuf → Session → Session
settled left store rb' s =
    let s' = record (store rb' s) { active_tx_remaining = left } in
    if left == 0 then clear_active_tx s' else s'

send_from_eq :
    (rb : Ringbuf) (store : Ringbuf → Session → Session) (max_len n : ℕ) (s : Session)
    → (if ltb max_len s.active_tx_remaining then max_len else s.active_tx_remaining) ≡ n
    → 0 < s.active_tx_remaining
    → 0 < rb.len
    → n ≤ rb.len
    → send_from rb store max_len s ≡ (
      (Ringbuf.read rb n).0,
      settled
          (sub_size s.active_tx_remaining (length (Ringbuf.read rb n).0))
          store
          (Ringbuf.read rb n).1
          s,
    )
unfolding send_from settled
send_from_eq rb store max_len n s e h k l = rw (e, le→ltb rb.len n l) (ground arith)

pub send_from_lem :
    (rb : Ringbuf) (store : Ringbuf → Session → Session) (max_len : ℕ) (s : Session)
    → IsValid rb
    → 0 < max_len
    → 0 < s.active_tx_remaining
    → s.active_tx_remaining ≤ rb.len
    → (bytes : List ℕ) × (rb' : Ringbuf) × (left : ℕ) × (send_from rb store max_len s
        ≡ (bytes, settled left store rb' s))
      × Sends max_len s.active_tx_remaining rb bytes rb' left
send_from_lem rb store max_len s v hm hr hl =
    let r = s.active_tx_remaining in
    let n = min max_len r in
    let (got, held) = read_refines n rb v in
    let len = length-take n (contents rb) in
    let total = length-contents rb in
    let inside = v.len_in in
    let small = v.small in
    let bytes = (Ringbuf.read rb n).0 in
    let count : length bytes ≡ n = ap length got ∙ omega (arith, len, total) in
    let left : sub_size r (length bytes) ≡ r - n =
      ap (sub_size r) count ∙ sub_size-eq r n (omega arith) (omega arith) in
    (
      bytes,
      (Ringbuf.read rb n).1,
      sub_size r (length bytes),
      send_from_eq rb store max_len n s (ground arith) hr (omega arith) (omega arith),
      record { bytes_are = got; holds = held; left_is = left },
    )

unfoldable pub with_control : Ringbuf → Session → Session
with_control rb s = record s { control_tx = rb }

unfoldable pub with_data : Ringbuf → Session → Session
with_data rb s = record s { tx = rb }

pub send_active_control :
    (max_len : ℕ) (s : Session)
    → s.active_tx_queue ≡ tx_control
    → send_active max_len s ≡ send_from s.control_tx with_control max_len s
unfolding send_active with_control with_data
send_active_control max_len s e =
    ap
      (λ (q : TxQueue). elim q as (λ _. List ℕ × Session) [
        | tx_control ↦ send_from s.control_tx with_control max_len s
        | tx_data ↦ send_from s.tx with_data max_len s
        | tx_none ↦ ([], clear_active_tx s)
      ])
      e

pub send_active_data :
    (max_len : ℕ) (s : Session)
    → s.active_tx_queue ≡ tx_data
    → send_active max_len s ≡ send_from s.tx with_data max_len s
unfolding send_active with_data with_control
send_active_data max_len s e =
    ap
      (λ (q : TxQueue). elim q as (λ _. List ℕ × Session) [
        | tx_control ↦ send_from s.control_tx with_control max_len s
        | tx_data ↦ send_from s.tx with_data max_len s
        | tx_none ↦ ([], clear_active_tx s)
      ])
      e
