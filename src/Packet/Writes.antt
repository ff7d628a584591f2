-- ===== src/Packet/Writes.antt =====
-- mc_packet.c: what each call of the writer appends, and when it fails.
use starrysky_mc_server.Prelude.{
  ℕ, zero, suc, ◌+◌, ◌*◌, ◌%◌, ◌^◌, ◌≤◌, ◌<◌, ◌≡◌, refl, sym, ap, ◌∙◌, arith, List, [], ◌∷◌, ◌++◌,
  Bool, true, false, length, take, leb, ◌==◌, if◌then◌else◌, shr, Act, ◌>>◌, success, Bool-cases,
  inl, inr, length-append, length-set, length-take, length-copy_at, take-suc-set, take-copy_at,
  append_assoc, append-nil, lt→ltb, leb→le, leb→lt, le→leb, lt→leb, le→ltb, ap₂,
}
use starrysky_mc_server.Config.{max_string_bytes}
use starrysky_mc_server.Varint.RoundTrip.{bytes_of, length-bytes_of, encode-eq-bytes_of}
use starrysky_mc_server.Ringbuf.Bounds.{add_size-eq}
use starrysky_mc_server.Packet.Writer.{
  Writer, has_space, write_raw, guarded, write_u8, write_i8, write_u16, write_i32, write_shifts,
  write_i64, write_f32, write_f64, write_bool, write_bytes, write_varint, write_string, or_rewind,
}
use native.Mathlib.Numerals.{add-one}

pub record IsValid (w : Writer) : Type 0 where
  pub buf_fits : w.cap ≤ length w.buf
  pub len_in : w.len ≤ w.cap
  pub small : w.cap ≤ 2 ^ 31

-- What the writer has written.
abbrev pub written : Writer → List ℕ
written w = take w.len w.buf

pub length-written : (w : Writer) → IsValid w → length (written w) ≡ w.len
length-written w v = omega (arith, length-take w.len w.buf)

-- The result of a call that appends `bs` where they fit, and fails where they do not.
pub record Appended (bs : List ℕ) (w : Writer) (r : Bool × Writer) : Type 0 where
  pub valid : IsValid r.1
  pub same_cap : r.1.cap ≡ w.cap
  pub result : r.0 ≡ leb (w.len + length bs) w.cap
  pub appended :
      w.len + length bs ≤ w.cap → (written r.1 ≡ written w ++ bs) × (r.1.len ≡ w.len + length bs)

abbrev pub Appends : List ℕ → Act Writer → Type 0
Appends bs act = (w : Writer) → IsValid w → Appended bs w (act w)

success-Appends : Appends [] success
success-Appends w v = record {
  valid = v;
  same_cap = refl;
  result = ground arith;
  appended = λ h. (sym (append-nil (written w)), omega arith);
}

-- Calls joined by `&&`.
pub >>-Appends :
    {m k : Act Writer} (xs ys : List ℕ) → Appends xs m → Appends ys k → Appends (xs ++ ys) (m >> k)
>>-Appends {m} {k} xs ys hm hk w v = go (m w) (hm w v)
  where
    go :
        (r : Bool × Writer)
        → Appended xs w r
        → Appended (xs ++ ys) w (if r.0 then k r.1 else (false, r.1))
    go (true, w') a =
        let b = hk w' a.valid in
        let room : w.len + length xs ≤ w.cap = leb→le _ _ (sym a.result) in
        let (ax, al) = a.appended room in
        record {
          valid = b.valid;
          same_cap = b.same_cap ∙ a.same_cap;
          result = b.result ∙ ap₂ leb (omega (arith, al, length-append xs ys)) a.same_cap;
          appended = λ h.
              let (bx, bl) = b.appended (omega (arith, al, length-append xs ys, a.same_cap)) in
              (
                bx ∙ ap (λ l. l ++ ys) ax ∙ append_assoc (written w) xs ys,
                omega (arith, al, length-append xs ys),
              );
        }
    go (false, w') a =
        let short : w.cap < w.len + length xs = leb→lt _ _ (sym a.result) in
        record {
          valid = a.valid;
          same_cap = a.same_cap;
          result = sym (lt→leb _ _ (omega (arith, length-append xs ys)));
          appended = λ h. absurd (omega (arith, length-append xs ys));
        }

has_space-eq : (n : ℕ) (w : Writer) → IsValid w → has_space n w ≡ leb (w.len + n) w.cap
unfolding has_space
has_space-eq n w v = ground arith

-- A call that fails for want of room leaves the writer as it was.
no_room :
    (bs : List ℕ) (w : Writer) → IsValid w → w.cap < w.len + length bs → Appended bs w (false, w)
no_room bs w v h = record {
  valid = v;
  same_cap = refl;
  result = sym (lt→leb _ _ h);
  appended = λ k. absurd (omega arith);
}

pub write_raw-Appends : (byte : ℕ) → Appends (byte ∷ []) (write_raw byte)
unfolding write_raw
write_raw-Appends byte w v = elim (Bool-cases (leb (w.len + 1) w.cap)) [
  | inl e ↦
      let room : w.len + 1 ≤ w.cap = leb→le _ _ e in
      rw (has_space-eq 1 w v, e, add_size-eq w.len 1 (omega arith), add-one)
        (record {
          valid = record {
            buf_fits = rw (length-set w.buf w.len byte) v.buf_fits;
            len_in = omega arith;
            small = v.small;
          };
          same_cap = refl;
          result = sym (le→leb _ _ (omega arith));
          appended = λ h. (take-suc-set w.buf w.len byte (omega arith), omega arith);
        })
  | inr e ↦ rw (has_space-eq 1 w v, e) (no_room _ w v (leb→lt _ _ e))
]

pub guarded-Appends :
    {act : Act Writer} (n : ℕ) (bs : List ℕ)
    → n ≡ length bs
    → Appends bs act
    → Appends bs (guarded n act)
guarded-Appends n bs e h w v = elim (Bool-cases (leb (w.len + n) w.cap)) [
  | inl t ↦ rw (has_space-eq n w v, t) (h w v)
  | inr t ↦ rw (has_space-eq n w v, t) (no_room bs w v (omega (arith, leb→lt _ _ t)))
]

pub write_bytes-Appends : (src : List ℕ) → Appends src (write_bytes src)
unfolding write_bytes
write_bytes-Appends src w v = elim (Bool-cases (leb (w.len + length src) w.cap)) [
  | inl t ↦
      let room : w.len + length src ≤ w.cap = leb→le _ _ t in
      rw (has_space-eq (length src) w v, t, add_size-eq w.len (length src) (omega arith))
        (record {
          valid = record {
            buf_fits = rw (length-copy_at w.buf w.len src) v.buf_fits;
            len_in = room;
            small = v.small;
          };
          same_cap = refl;
          result = sym t;
          appended = λ h. (take-copy_at w.buf w.len _ src refl (omega arith), refl);
        })
  | inr t ↦ rw (has_space-eq (length src) w v, t) (no_room src w v (leb→lt _ _ t))
]

pub write_u8-Appends : (value : ℕ) → Appends (value ∷ []) (write_u8 value)
unfolding write_u8
write_u8-Appends value = write_raw-Appends value

pub write_i8-Appends : (value : ℕ) → Appends ((value % 256) ∷ []) (write_i8 value)
unfolding write_i8
write_i8-Appends value = write_raw-Appends (value % 256)

pub write_bool-Appends : (value : Bool) → Appends ((if value then 1 else 0) ∷ []) (write_bool value)
unfolding write_bool
write_bool-Appends value = write_raw-Appends (if value then 1 else 0)

-- The low `n` bytes of a number, highest first.
abbrev pub big_endian : ℕ → ℕ → List ℕ
big_endian zero v = []
big_endian (suc n) v = (shr v (8 * n) % 256) ∷ big_endian n v

length-big_endian : (n v : ℕ) → length (big_endian n v) ≡ n
length-big_endian zero v = refl
length-big_endian (suc n) v = ap suc (length-big_endian n v)

raw_then :
    {k : Act Writer} (byte : ℕ) (bs : List ℕ)
    → Appends bs k
    → Appends (byte ∷ bs) (write_raw byte >> k)
raw_then byte bs h = >>-Appends (byte ∷ []) bs (write_raw-Appends byte) h

write_shifts-Appends : (n v : ℕ) → Appends (big_endian n v) (write_shifts n v)
unfolding write_shifts
write_shifts-Appends zero v = success-Appends
write_shifts-Appends (suc n) v = raw_then _ (big_endian n v) (write_shifts-Appends n v)

pub write_i64-Appends : (v : ℕ) → Appends (big_endian 8 v) (write_i64 v)
unfolding write_i64
write_i64-Appends v = guarded-Appends 8 (big_endian 8 v) refl (write_shifts-Appends 8 v)

pub write_f64-Appends : (v : ℕ) → Appends (big_endian 8 v) (write_f64 v)
unfolding write_f64
write_f64-Appends v = guarded-Appends 8 (big_endian 8 v) refl (write_shifts-Appends 8 v)

pub low_byte : (v : ℕ) → v % 256 ≡ shr v 0 % 256
low_byte v = omega arith

pub write_u16-Appends : (v : ℕ) → Appends (big_endian 2 v) (write_u16 v)
unfolding write_u16
write_u16-Appends v =
    rw (low_byte v)
      (guarded-Appends 2 (big_endian 2 v) refl (raw_then _ (big_endian 1 v) (write_raw-Appends _)))

pub write_i32-Appends : (v : ℕ) → Appends (big_endian 4 v) (write_i32 v)
unfolding write_i32
write_i32-Appends v = rw (low_byte v) (
    guarded-Appends 4 (big_endian 4 v) refl (
      raw_then _ (big_endian 3 v)
        (raw_then _ (big_endian 2 v) (raw_then _ (big_endian 1 v) (write_raw-Appends _)))))

pub write_f32-Appends : (v : ℕ) → Appends (big_endian 4 v) (write_f32 v)
unfolding write_f32
write_f32-Appends v = write_i32-Appends v

pub write_varint-Appends : (v : ℕ) → v < 2 ^ 32 → Appends (bytes_of v) (write_varint v)
unfolding write_varint
write_varint-Appends v h w valid =
    let some_bytes : (length (bytes_of v) == 0) ≡ false = ground (arith, length-bytes_of v) in
    rw (encode-eq-bytes_of v 5 h (omega arith), some_bytes)
      (write_bytes-Appends (bytes_of v) w valid)

restored :
    (bs : List ℕ) (w : Writer) (r : Bool × Writer)
    → IsValid w
    → Appended bs w r
    → Appended bs w (or_rewind w.len r)
      × ((or_rewind w.len r).0 ≡ false → (or_rewind w.len r).1.len ≡ w.len)
restored bs w (true, w') v a = (a, λ e. cc)
restored bs w (false, w') v a = (
  record {
    valid = record {
      buf_fits = a.valid.buf_fits;
      len_in = omega (arith, a.same_cap);
      small = a.valid.small;
    };
    same_cap = a.same_cap;
    result = a.result;
    appended = λ h. absurd (omega (arith, leb→lt _ _ (sym a.result)));
  },
  λ e. refl,
)

-- A string goes out as its length in a VarInt and its bytes. Where both do not fit, the call fails
-- and the writer's length is what it was; a string of more than 32767 bytes is refused outright.
pub write_string_lem :
    (str : List ℕ) (w : Writer)
    → IsValid w
    → (length str ≤ max_string_bytes
        → Appended (bytes_of (length str) ++ str) w (write_string str w)
          × ((write_string str w).0 ≡ false → (write_string str w).1.len ≡ w.len))
      × (max_string_bytes < length str → write_string str w ≡ (false, w))
unfolding write_string
write_string_lem str w v = (
  λ h. rw (le→ltb _ _ h) (restored (bytes_of (length str) ++ str) w _ v (body h w v)),
  λ h. rw (lt→ltb _ _ h),
)
  where
    body :
        length str ≤ max_string_bytes
        → Appends (bytes_of (length str) ++ str) (write_varint (length str) >> write_bytes str)
    body h =
        >>-Appends (bytes_of (length str)) str (write_varint-Appends (length str) (omega arith))
          (write_bytes-Appends str)
