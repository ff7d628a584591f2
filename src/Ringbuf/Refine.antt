-- ===== src/Ringbuf/Refine.antt =====
-- mc_ringbuf.c: a valid ring is a bounded queue of its contents.
use starrysky_mc_server.Prelude.{
  ℕ, zero, suc, ◌+◌, ◌-◌, ◌%◌, ◌^◌, ◌≤◌, ◌<◌, ◌≡◌, refl, ap, ap₂, sym, ◌∙◌, arith, List, [], ◌∷◌,
  ◌++◌, Bool, true, false, Option, none, some, length, min, ltb, leb, Bool-cases, inl, inr, ◌==◌,
  ==→eq, lt→ltb, ltb→le, ltb→lt, le→ltb, take-nil, take_zero, take-pos, length-append,
  if◌then◌else◌, get_or, take, append_assoc, append-nil,
}
use starrysky_mc_server.Prelude
use starrysky_mc_server.Ringbuf.{Ringbuf, add_size, sub_size, push, pop, write_loop, write}
use native.Mathlib.Nat.{mod-eq_of_lt, add-zero}
use native.Mathlib.Numerals.{add-one}
use starrysky_mc_server.Ringbuf.Window.{
  window, length-window, window-mod, drop-window, get_or-window, window-set,
}
use starrysky_mc_server.Ringbuf.Bounds.{IsValid, add_size-eq, sub_size-eq, push-IsValid}

-- The bytes that a ring holds, oldest first.
abbrev pub contents : Ringbuf → List ℕ
contents rb = window rb.storage rb.cap rb.tail rb.len

pub length-contents : (rb : Ringbuf) → length (contents rb) ≡ rb.len
length-contents rb = length-window rb.storage rb.cap rb.tail rb.len

push_some :
    (rb : Ringbuf) (byte : ℕ)
    → IsValid rb
    → rb.len < rb.cap
    → window (Prelude.set rb.storage rb.head byte) rb.cap rb.tail (add_size rb.len 1)
      ≡ contents rb ++ (byte ∷ [])
push_some rb byte v h =
    rw (add_size-eq rb.len 1 (omega arith), add-one)
      (window-set rb.storage rb.cap byte rb.len rb.tail rb.head v.storage_fits v.nonempty h
        v.head_at)

-- A full ring refuses the byte and stays as it is; any other takes it as its newest.
pub push_refines :
    (rb : Ringbuf) (byte : ℕ)
    → IsValid rb
    → let (done, rb') = push rb byte in
      (done ≡ ltb rb.len rb.cap)
      × (contents rb' ≡ (if ltb rb.len rb.cap then contents rb ++ (byte ∷ []) else contents rb))
      × (rb'.cap ≡ rb.cap)
unfolding push
push_refines rb byte v = ground (arith, push_some rb byte v)

pub drop_empty : (k : ℕ) (xs : List ℕ) → length xs ≡ 0 → xs ≡ Prelude.drop k xs
drop_empty zero xs e = refl
drop_empty (suc k) [] e = refl
drop_empty (suc k) (x ∷ xs) e = absurd (omega arith)

oldest :
    (rb : Ringbuf)
    → IsValid rb
    → 0 < rb.len
    → get_or rb.storage rb.tail 0 ≡ get_or (contents rb) 0 0
oldest rb v h = sym (
    get_or-window rb.storage rb.cap rb.tail rb.len 0 h
    ∙ ap (λ k. get_or rb.storage k 0)
        (ap (λ k. k % rb.cap) (add-zero rb.tail) ∙ mod-eq_of_lt v.tail_in))

-- Dropping `n` of the bytes that a ring holds.
pub contents-drop :
    (rb : Ringbuf) (n : ℕ)
    → IsValid rb
    → n ≤ rb.len
    → window rb.storage rb.cap (add_size rb.tail n % rb.cap) (sub_size rb.len n)
      ≡ Prelude.drop n (contents rb)
contents-drop rb n v h =
    rw (add_size-eq rb.tail n (omega arith), sub_size-eq rb.len n h (omega arith))
      (window-mod rb.storage rb.cap (rb.tail + n) (rb.len - n)
        ∙ sym (drop-window rb.storage rb.cap n rb.tail rb.len))

-- `pop` takes the oldest byte, and reports an empty ring.
pub pop_refines :
    (rb : Ringbuf)
    → IsValid rb
    → let (byte, rb') = pop rb in
      (byte ≡ (if rb.len == 0 then none else some (get_or (contents rb) 0 0)))
      × (contents rb' ≡ Prelude.drop 1 (contents rb))
      × (rb'.cap ≡ rb.cap)
unfolding pop
pop_refines rb v = elim (Bool-cases (rb.len == 0)) [
  | inl e ↦ rw e (refl, drop_empty 1 (contents rb) (length-contents rb ∙ ==→eq rb.len 0 e), refl)
  | inr e ↦ rw e (ap some (oldest rb v (ground arith)), contents-drop rb 1 v (ground arith), refl)
]

-- What a ring holds after an operation that keeps it valid and its capacity as it was.
pub record Holds (cap : ℕ) (bytes : List ℕ) (rb : Ringbuf) : Type 0 where
  pub valid : IsValid rb
  pub same_cap : rb.cap ≡ cap
  pub holds : contents rb ≡ bytes

push_full : (rb : Ringbuf) (byte : ℕ) → rb.len ≡ rb.cap → push rb byte ≡ (false, rb)
unfolding push
push_full rb byte e = ground arith

push_room :
    (rb : Ringbuf) (byte : ℕ)
    → IsValid rb
    → rb.len < rb.cap
    → ((push rb byte).0 ≡ true)
      × Holds rb.cap (contents rb ++ (byte ∷ [])) (push rb byte).1
      × ((push rb byte).1.len ≡ rb.len + 1)
push_room rb byte v h =
    let r = push_refines rb byte v in
    let t : ltb rb.len rb.cap ≡ true = lt→ltb _ _ h in
    let w = push-IsValid rb byte v in
    let holds : contents (push rb byte).1 ≡ contents rb ++ (byte ∷ []) =
      r.1 ∙ ap (λ b. if b then contents rb ++ (byte ∷ []) else contents rb) t in
    (
      r.0 ∙ t,
      record { valid = w; same_cap = r.2; holds = holds },
      omega (
        arith,
        length-contents (push rb byte).1,
        length-contents rb,
        length-append (contents rb) (byte ∷ []),
        ap length holds,
      ),
    )

pub Holds-eq :
    {cap cap' : ℕ} {bytes bytes' : List ℕ} {rb : Ringbuf}
    → Holds cap bytes rb
    → cap ≡ cap'
    → bytes ≡ bytes'
    → Holds cap' bytes' rb
Holds-eq h p q = record { valid = h.valid; same_cap = h.same_cap ∙ p; holds = h.holds ∙ q }

write_loop-Holds :
    (src : List ℕ) (rb : Ringbuf) (written : ℕ)
    → IsValid rb
    → ((write_loop rb src written).0 ≡ written + min (length src) (rb.cap - rb.len))
      × Holds rb.cap (contents rb ++ take (rb.cap - rb.len) src) (write_loop rb src written).1
unfolding write_loop
write_loop-Holds [] rb written v = (
  omega arith,
  record {
    valid = v;
    same_cap = refl;
    holds =
        sym (ap (λ l. contents rb ++ l) (take-nil ℕ (rb.cap - rb.len)) ∙ append-nil (contents rb));
  },
)
write_loop-Holds (byte ∷ src) rb written v = elim (Bool-cases (rb.len == rb.cap)) [
  | inl e ↦
      let full : rb.len ≡ rb.cap = ==→eq _ _ e in
      rw (push_full rb byte full) (
        omega arith,
        record {
          valid = v;
          same_cap = refl;
          holds = sym (
              ap (λ l. contents rb ++ l) (take_zero (rb.cap - rb.len) (byte ∷ src) (omega arith))
              ∙ append-nil (contents rb));
        },
      )
  | inr e ↦
      let room : rb.len < rb.cap = ground arith in
      let (done, h, l) = push_room rb byte v room in
      let (n, k) = write_loop-Holds src (push rb byte).1 (written + 1) h.valid in
      let left : (push rb byte).1.cap - (push rb byte).1.len ≡ rb.cap - rb.len - 1 =
        omega (arith, h.same_cap) in
      rw done (
        omega (arith, h.same_cap),
        Holds-eq k h.same_cap (
            ap₂ ◌++◌ h.holds (ap (λ j. take j src) left)
            ∙ append_assoc (contents rb) (byte ∷ []) (take (rb.cap - rb.len - 1) src)
            ∙ ap (λ l. contents rb ++ l) (sym (take-pos (rb.cap - rb.len) byte src (omega arith)))),
      )
]

-- Writing to a valid ring appends as many of the bytes as there is room for, in order, returns
-- their number, and leaves a valid ring of the same capacity.
pub write_refines :
    (rb : Ringbuf) (src : List ℕ)
    → IsValid rb
    → ((write rb src).0 ≡ min (length src) (rb.cap - rb.len))
      × Holds rb.cap (contents rb ++ take (rb.cap - rb.len) src) (write rb src).1
unfolding write
write_refines rb src v = let (n, h) = write_loop-Holds src rb 0 v in (omega arith, h)
