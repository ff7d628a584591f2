-- ===== src/Ringbuf/Reads.antt =====
-- mc_ringbuf.c: reading a ring, as reading the bounded queue of its contents.
use starrysky_mc_server.Prelude.{
  ℕ, zero, suc, ◌+◌, ◌-◌, ◌%◌, ◌^◌, ◌≤◌, ◌<◌, ◌≡◌, refl, ap, ap₂, sym, ◌∙◌, arith, List, [], ◌∷◌,
  ◌++◌, Bool, true, false, Option, none, some, length, min, ltb, leb, Bool-cases, inl, inr, ◌==◌,
  ==→eq, lt→ltb, ltb→le, ltb→lt, le→ltb, take-nil, take_zero, take-pos, length-append,
  if◌then◌else◌, get_or, take, append_assoc, append-nil,
}
use starrysky_mc_server.Prelude
use starrysky_mc_server.Ringbuf.{Ringbuf, pop, read, peek, drop}
use starrysky_mc_server.Ringbuf.Window.{get_or-window}
use starrysky_mc_server.Ringbuf.Bounds.{IsValid, add_size-eq, pop-IsValid, drop-IsValid}
use starrysky_mc_server.Ringbuf.Refine.{
  contents, length-contents, drop_empty, contents-drop, pop_refines, Holds, Holds-eq,
}

read_empty : (n : ℕ) (rb : Ringbuf) → rb.len ≡ 0 → read rb (suc n) ≡ ([], rb)
unfolding read pop
read_empty n rb e = ground arith

nil_of_length : (xs : List ℕ) → length xs ≡ 0 → xs ≡ []
nil_of_length [] e = refl
nil_of_length (x ∷ xs) e = absurd (omega arith)

take-suc-head :
    (n : ℕ) (xs : List ℕ)
    → 0 < length xs
    → get_or xs 0 0 ∷ take n (Prelude.drop 1 xs) ≡ take (suc n) xs
take-suc-head n [] h = absurd (omega arith)
take-suc-head n (x ∷ xs) h = refl

drop-suc : (n : ℕ) (xs : List ℕ) → Prelude.drop n (Prelude.drop 1 xs) ≡ Prelude.drop (suc n) xs
drop-suc n [] = sym (drop_empty n [] refl)
drop-suc n (x ∷ xs) = refl

-- Reading from a valid ring hands out the oldest bytes, as many as asked for or as there are, and
-- leaves a valid ring of the same capacity with the rest.
pub read_refines :
    (max_len : ℕ) (rb : Ringbuf)
    → IsValid rb
    → ((read rb max_len).0 ≡ take max_len (contents rb))
      × Holds rb.cap (Prelude.drop max_len (contents rb)) (read rb max_len).1
unfolding read
read_refines zero rb v = (refl, record { valid = v; same_cap = refl; holds = refl })
read_refines (suc n) rb v = elim (Bool-cases (rb.len == 0)) [
  | inl e ↦
      let none_left : contents rb ≡ [] =
        nil_of_length (contents rb) (length-contents rb ∙ ==→eq _ _ e) in
      rw (read_empty n rb (==→eq _ _ e)) (
        sym (ap (take (suc n)) none_left),
        record {
          valid = v;
          same_cap = refl;
          holds = none_left ∙ sym (ap (Prelude.drop (suc n)) none_left);
        },
      )
  | inr e ↦
      let (byte, rest, cap) = pop_refines rb v in
      let (bytes, k) = read_refines n (pop rb).1 (pop-IsValid rb v) in
      let some_byte : (pop rb).0 ≡ some (get_or (contents rb) 0 0) =
        byte ∙ ap (λ b. if b then none else some (get_or (contents rb) 0 0)) e in
      rw (some_byte, read)
        (
          ap (λ l. get_or (contents rb) 0 0 ∷ l) (bytes ∙ ap (take n) rest)
              ∙ take-suc-head n (contents rb) (ground (arith, length-contents rb)),
          Holds-eq k cap (ap (Prelude.drop n) rest ∙ drop-suc n (contents rb)),
        )
]

-- `peek` reads the byte at an offset from the oldest, where there is one, and changes nothing.
pub peek_refines :
    (rb : Ringbuf) (offset : ℕ)
    → IsValid rb
    → peek rb offset
      ≡ (if ltb offset (length (contents rb)) then some (get_or (contents rb) offset 0) else none)
unfolding peek
peek_refines rb offset v = elim (Bool-cases (leb rb.len offset)) [
  | inl e ↦ rw (length-contents rb, e, le→ltb offset rb.len (ground arith))
  | inr e ↦
      let h : offset < rb.len = ground arith in
      rw (length-contents rb, e, lt→ltb offset rb.len h, add_size-eq rb.tail offset (omega arith))
        (ap some (sym (get_or-window rb.storage rb.cap rb.tail rb.len offset h)))
]

drop_many : (k : ℕ) (xs : List ℕ) → length xs ≤ k → Prelude.drop k xs ≡ Prelude.drop (length xs) xs
drop_many k [] h = sym (drop_empty k [] refl)
drop_many zero (x ∷ xs) h = absurd (omega arith)
drop_many (suc k) (x ∷ xs) h = drop_many k xs (omega arith)

-- `drop` forgets the oldest bytes, all of them where it is asked for more than there are.
pub drop_refines :
    (rb : Ringbuf) (count : ℕ)
    → IsValid rb
    → Holds rb.cap (Prelude.drop count (contents rb)) (drop rb count)
unfolding drop
drop_refines rb count v = record {
  valid = unfold drop in drop-IsValid rb count v;
  same_cap = refl;
  holds = elim (Bool-cases (ltb rb.len count)) [
    | inl e ↦ rw e (
        contents-drop rb rb.len v (omega arith)
        ∙ ap (λ k. Prelude.drop k (contents rb)) (sym (length-contents rb))
        ∙ sym (drop_many count (contents rb) (omega (arith, length-contents rb, ltb→lt _ _ e))))
    | inr e ↦ rw e (contents-drop rb count v (ltb→le _ _ e))
  ];
}
