-- ===== src/Session/Reception/Exactly.antt =====
-- firmware/mc_link_session.c: frames that the bridge repeats reach the server once.
use starrysky_mc_server.Prelude.{
  ℕ, zero, suc, ◌+◌, ◌-◌, ◌%◌, ◌^◌, ◌≤◌, ◌<◌, ◌≡◌, ◌≢◌, refl, ap, sym, ◌∙◌, arith, List, [], ◌∷◌,
  ◌++◌, Bool, true, false, some, length, length-append, append-nil, append_assoc, if◌then◌else◌,
  u16_mod, All,
}
use mathlib.Core.Path.{subst}
use starrysky_mc_server.Ringbuf.{Ringbuf}
use starrysky_mc_server.Ringbuf.Bounds.{IsValid}
use starrysky_mc_server.Ringbuf.Refine.{contents, length-contents, Holds-eq}
use starrysky_mc_server.Link.Frame.{Frame}
use starrysky_mc_server.Session.{Session}
use starrysky_mc_server.Session.Handlers.{handle_data_c2m}
use starrysky_mc_server.Session.Reception.{accepts, Received}
use starrysky_mc_server.Session.Reception.Data.{handle_data_c2m-Received}

abbrev pub data_frame : ℕ → List ℕ → Frame
data_frame seq payload = record { frame_type = 3; flags = 0; seq = seq; ack = 0; payload = payload }

-- The same frame arrives `copies` times.
unfoldable pub repeated : ℕ → Frame → Session → Session
repeated zero frame s = s
repeated (suc copies) frame s = repeated copies frame (handle_data_c2m frame s).1

-- The payloads go out in frames numbered from `seq` on, each with a number of repetitions.
unfoldable pub sent : ℕ → List (ℕ × List ℕ) → Session → Session
sent seq [] s = s
sent seq ((more, payload) ∷ rest) s =
    sent ((seq + 1) % u16_mod) rest (repeated (suc more) (data_frame seq payload) s)

unfoldable pub joined : List (ℕ × List ℕ) → List ℕ
joined [] = []
joined ((more, payload) ∷ rest) = payload ++ joined rest

unfoldable pub number_after : ℕ → List (ℕ × List ℕ) → ℕ
number_after seq [] = seq
number_after seq (item ∷ rest) = number_after ((seq + 1) % u16_mod) rest

pub Received-trans :
    {s s' s'' : Session} {rx : Ringbuf} {xs ys : List ℕ} {e e' : ℕ}
    → (r : Received s rx xs e s') → Received s' r.rx' ys e' s''
    → Received s rx (xs ++ ys) e' s''
Received-trans {rx = rx} {xs} {ys} r q = record {
  rx' = q.rx';
  is_some = q.is_some;
  holds =
      Holds-eq q.holds r.holds.same_cap
        (ap (λ l. l ++ ys) r.holds.holds ∙ append_assoc (contents rx) xs ys);
  expects = q.expects;
  negotiated_same = q.negotiated_same ∙ r.negotiated_same;
  ready_same = q.ready_same ∙ r.ready_same;
}

Received-none :
    {s : Session} (rx : Ringbuf) {e : ℕ}
    → s.rx ≡ some rx
    → IsValid rx
    → s.rx_seq_expected ≡ e
    → Received s rx [] e s
Received-none rx h v e = record {
  rx' = rx;
  is_some = h;
  holds = record { valid = v; same_cap = refl; holds = sym (append-nil (contents rx)) };
  expects = e;
  negotiated_same = refl;
  ready_same = refl;
}

-- A frame other than the awaited one.
one_other :
    (f : Frame) (s : Session) (rx : Ringbuf)
    → s.rx ≡ some rx
    → IsValid rx
    → s.rx_seq_expected < 2 ^ 16
    → accepts s f rx ≡ false
    → Received s rx [] s.rx_seq_expected (handle_data_c2m f s).1
one_other f s rx h v small a =
    subst
      (λ (b : Bool).
        Received s rx (if b then f.payload else [])
          (if b then (s.rx_seq_expected + 1) % u16_mod else s.rx_seq_expected)
          (handle_data_c2m f s).1)
      a (handle_data_c2m-Received f s rx h v small)

one_next :
    (f : Frame) (s : Session) (rx : Ringbuf)
    → s.rx ≡ some rx
    → IsValid rx
    → s.rx_seq_expected < 2 ^ 16
    → accepts s f rx ≡ true
    → Received s rx f.payload ((s.rx_seq_expected + 1) % u16_mod) (handle_data_c2m f s).1
one_next f s rx h v small a =
    subst
      (λ (b : Bool).
        Received s rx (if b then f.payload else [])
          (if b then (s.rx_seq_expected + 1) % u16_mod else s.rx_seq_expected)
          (handle_data_c2m f s).1)
      a (handle_data_c2m-Received f s rx h v small)

copies_ignored :
    (copies : ℕ) (f : Frame) (s : Session) (rx : Ringbuf)
    → s.rx ≡ some rx
    → IsValid rx
    → s.rx_seq_expected < 2 ^ 16
    → f.seq ≢ s.rx_seq_expected
    → Received s rx [] s.rx_seq_expected (repeated copies f s)
unfolding repeated
copies_ignored zero f s rx h v small ne = Received-none rx h v refl
copies_ignored (suc copies) f s rx h v small ne =
    let one = one_other f s rx h v small (unfold accepts in ground arith) in
    let s' = (handle_data_c2m f s).1 in
    let e = one.expects in
    let rest =
      copies_ignored copies f s' one.rx' one.is_some one.holds.valid (omega arith)
        (λ q. ne (q ∙ e)) in
    subst (λ n. Received s rx [] n (repeated copies f s')) e (Received-trans one rest)

-- A payload that a frame may carry under the negotiated length.
abbrev pub IsSendable : ℕ → ℕ × List ℕ → Type 0
IsSendable negotiated item = (0 < length item.1) × (length item.1 ≤ negotiated)

once :
    (more seq : ℕ) (payload : List ℕ) (s : Session) (rx : Ringbuf)
    → s.rx ≡ some rx
    → IsValid rx
    → s.ready ≡ true
    → s.rx_seq_expected ≡ seq
    → seq < 2 ^ 16
    → IsSendable s.negotiated_payload (more, payload)
    → length payload ≤ rx.cap - rx.len
    → Received s rx payload ((seq + 1) % u16_mod) (repeated (suc more) (data_frame seq payload) s)
unfolding repeated
once more seq payload s rx h v up e small ok room =
    let f = data_frame seq payload in
    let one = one_next f s rx h v (omega arith) (unfold accepts in ground (arith, ok.0, ok.1)) in
    let s' = (handle_data_c2m f s).1 in
    let i : s'.rx_seq_expected ≡ (seq + 1) % u16_mod =
      one.expects ∙ ap (λ n. (n + 1) % u16_mod) e in
    let rest =
      copies_ignored more f s' one.rx' one.is_some one.holds.valid (omega arith)
        (λ q. omega arith) in
    let all = Received-trans one rest in
    subst (λ l. Received s rx l ((seq + 1) % u16_mod) (repeated more f s')) (append-nil payload)
      (subst (λ n. Received s rx (payload ++ []) n (repeated more f s')) i all)

-- For a session that is up, with a valid input ring and a 16-bit awaited number: payloads that
-- are not empty, within the negotiated length and together within the room of the ring, sent in
-- data frames with flags and ack 0, numbered from the awaited number on (modulo 2^16), each any
-- number of times in a row from one on, are received once each and in order, and the session then
-- waits for the number after the last.
pub sent_once :
    (items : List (ℕ × List ℕ)) (seq : ℕ) (s : Session) (rx : Ringbuf)
    → s.rx ≡ some rx
    → IsValid rx
    → s.ready ≡ true
    → s.rx_seq_expected ≡ seq
    → seq < 2 ^ 16
    → All (IsSendable s.negotiated_payload) items
    → length (joined items) ≤ rx.cap - rx.len
    → Received s rx (joined items) (number_after seq items) (sent seq items s)
unfolding sent joined number_after
sent_once [] seq s rx h v up e small ok room = Received-none rx h v e
sent_once ((more, payload) ∷ rest) seq s rx h v up e small ok room =
    let n = length-append payload (joined rest) in
    let one = once more seq payload s rx h v up e small ok.0 (omega arith) in
    let s' = repeated (suc more) (data_frame seq payload) s in
    let len' : one.rx'.len ≡ rx.len + length payload =
      sym (length-contents one.rx')
      ∙ ap length one.holds.holds
      ∙ length-append (contents rx) payload
      ∙ ap (λ k. k + length payload) (length-contents rx) in
    let cap' = one.holds.same_cap in
    Received-trans one (
      sent_once rest ((seq + 1) % u16_mod) s' one.rx' one.is_some one.holds.valid
        (one.ready_same ∙ up) one.expects (omega arith)
        (subst (λ k. All (IsSendable k) rest) (sym one.negotiated_same) ok.1) (omega arith))
