-- ===== src/Ringbuf/Bounds.antt =====
-- mc_ringbuf.c: the invariant of a ring, which rules out wrapped sizes and accesses out of bounds.
use starrysky_mc_server.Prelude.{
  ℕ, zero, suc, ◌+◌, ◌-◌, ◌%◌, ◌^◌, ◌≤◌, ◌<◌, ◌≡◌, ap, sym, ◌∙◌, arith, List, [], ◌∷◌, length,
  length-set, Bool-cases, inl, inr, ◌==◌,
}
use starrysky_mc_server.Ringbuf.{
  Ringbuf, add_size, sub_size, init, free, push, pop, write_loop, write, read, drop,
}
use native.Mathlib.Nat.{mod-add-mod, mod-lt, mod-eq_of_lt, add_assoc}

pub add_size-eq : (a b : ℕ) → a + b < 2 ^ 32 → add_size a b ≡ a + b
add_size-eq a b h = mod-eq_of_lt h

pub sub_size-eq : (a b : ℕ) → b ≤ a → a < 2 ^ 32 → sub_size a b ≡ a - b
sub_size-eq a b h k = omega arith

pub record IsValid (rb : Ringbuf) : Type 0 where
  pub storage_fits : rb.cap ≤ length rb.storage
  pub nonempty : 0 < rb.cap
  pub small : rb.cap ≤ 2 ^ 31
  pub tail_in : rb.tail < rb.cap
  pub len_in : rb.len ≤ rb.cap
  pub head_at : rb.head ≡ (rb.tail + rb.len) % rb.cap

-- Where the byte written next goes.
pub head-lt-cap : (rb : Ringbuf) → IsValid rb → rb.head < rb.cap
head-lt-cap rb v = omega (arith, mod-lt (rb.tail + rb.len) {m = rb.cap} v.nonempty)

pub free_lem : (rb : Ringbuf) → IsValid rb → free rb ≡ rb.cap - rb.len
unfolding free
free_lem rb v = omega arith

pub init-IsValid :
    (storage : List ℕ) (cap : ℕ)
    → cap ≤ length storage
    → 0 < cap
    → cap ≤ 2 ^ 31
    → IsValid (init storage cap)
unfolding init
init-IsValid storage cap h n s = record {
  storage_fits = h;
  nonempty = n;
  small = s;
  tail_in = n;
  len_in = omega arith;
  head_at = sym (mod-eq_of_lt (omega arith));
}

-- Going on by `k` cells from cell `i`, reduced before or after.
advance : (i k len cap : ℕ) → k ≤ len → ((i + k) % cap + (len - k)) % cap ≡ (i + len) % cap
advance i k len cap h =
    mod-add-mod (i + k) cap (len - k)
    ∙ ap (λ t. t % cap) (let e : i + k + (len - k) ≡ i + len = omega arith in e)

pub push-IsValid : (rb : Ringbuf) (byte : ℕ) → IsValid rb → IsValid (push rb byte).1
unfolding push
push-IsValid rb byte v = elim (Bool-cases (rb.len == rb.cap)) [
  | inl full ↦ rw full v
  | inr more ↦ rw more (record {
    storage_fits = rw (length-set rb.storage rb.head byte) v.storage_fits;
    nonempty = v.nonempty;
    small = v.small;
    tail_in = v.tail_in;
    len_in = ground arith;
    head_at =
        rw
          (
            add_size-eq rb.head 1 (omega (arith, head-lt-cap rb v)),
            add_size-eq rb.len 1 (omega arith),
          )
          (ap (λ t. (t + 1) % rb.cap) v.head_at
            ∙ mod-add-mod (rb.tail + rb.len) rb.cap 1
            ∙ ap (λ t. t % rb.cap) (add_assoc rb.tail rb.len 1));
  })
]

drop_within :
    (rb : Ringbuf) (n : ℕ)
    → IsValid rb
    → n ≤ rb.len
    → IsValid (record rb { tail = add_size rb.tail n % rb.cap; len = sub_size rb.len n })
drop_within rb n v h = record {
  storage_fits = v.storage_fits;
  nonempty = v.nonempty;
  small = v.small;
  tail_in = mod-lt _ v.nonempty;
  len_in = omega arith;
  head_at =
      rw (add_size-eq rb.tail n (omega arith), sub_size-eq rb.len n h (omega arith))
        (v.head_at ∙ sym (advance rb.tail n rb.len rb.cap h));
}

pub pop-IsValid : (rb : Ringbuf) → IsValid rb → IsValid (pop rb).1
unfolding pop
pop-IsValid rb v = elim (Bool-cases (rb.len == 0)) [
  | inl e ↦ rw e v
  | inr e ↦ rw e (drop_within rb 1 v (ground arith))
]

pub drop-IsValid : (rb : Ringbuf) (count : ℕ) → IsValid rb → IsValid (drop rb count)
unfolding drop
drop-IsValid rb count v = drop_within rb _ v (ground arith)

pub write_loop-IsValid :
    (rb : Ringbuf) (src : List ℕ) (written : ℕ) → IsValid rb → IsValid (write_loop rb src written).1
unfolding write_loop
write_loop-IsValid rb [] written v = v
write_loop-IsValid rb (byte ∷ src) written v = ground (
  arith,
  push-IsValid rb byte v,
  write_loop-IsValid (push rb byte).1 src (written + 1) (push-IsValid rb byte v),
)

pub write-IsValid : (rb : Ringbuf) (src : List ℕ) → IsValid rb → IsValid (write rb src).1
unfolding write
write-IsValid rb src v = write_loop-IsValid rb src 0 v

pub read-IsValid : (max_len : ℕ) (rb : Ringbuf) → IsValid rb → IsValid (read rb max_len).1
unfolding read
read-IsValid zero rb v = v
read-IsValid (suc n) rb v =
    ground (arith, pop-IsValid rb v, read-IsValid n (pop rb).1 (pop-IsValid rb v))
