-- ===== src/Server/Body/Bounds.antt =====
-- core/src/mc_server.c: the readers stay inside the body, and read strings as they were written.
use starrysky_mc_server.Prelude.{
  ℕ, ◌+◌, ◌-◌, ◌^◌, ◌≤◌, ◌<◌, ◌≡◌, inl, inr, refl, ap, ap₂, sym, ◌∙◌, arith, List, ◌++◌, true,
  false, [], ◌∷◌, ◌||◌, none, some, length, take, drop, leb, ltb, length-append, length-drop,
  length-take, append_assoc, take-append, drop-append, All, All-drop, IsByte, Option-cases,
  Bool-cases,
}
use mathlib.Core.Option.{none-ne-some, some-injective}
use starrysky_mc_server.Config.{is_negative}
use starrysky_mc_server.Varint.{decode}
use starrysky_mc_server.Varint.RoundTrip.{bytes_of, length-bytes_of, decode-bytes_of}
use starrysky_mc_server.Varint.Input.{decode_takes}
use starrysky_mc_server.Ringbuf.{add_size}
use starrysky_mc_server.Server.Body.{
  read_varint_body, read_string_body, bytes_have_c0_control, read_chat_body,
}

varint_end : (body : List ℕ) (pos : ℕ) → length body ≤ pos → read_varint_body body pos ≡ none
unfolding read_varint_body
varint_end body pos h = ground arith

varint_bad :
    (body : List ℕ) (pos : ℕ)
    → pos < length body
    → decode (drop pos body) ≡ none
    → read_varint_body body pos ≡ none
unfolding read_varint_body
varint_bad body pos h e = ground arith

varint_good :
    (body : List ℕ) (pos value used : ℕ)
    → pos < length body
    → decode (drop pos body) ≡ some (value, used)
    → read_varint_body body pos ≡ some (value, add_size pos used)
unfolding read_varint_body
varint_good body pos value used h e = ground arith

-- A VarInt read from a body of bytes of less than 2^31 bytes is a 32-bit value, and the position
-- moves on, to the end of the body at most.
pub read_varint_body_takes :
    (body : List ℕ) (pos value pos' : ℕ)
    → All IsByte body
    → length body < 2 ^ 31
    → read_varint_body body pos ≡ some (value, pos')
    → (value < 2 ^ 32) × (pos < pos') × (pos' ≤ length body)
read_varint_body_takes body pos value pos' h small e = elim (Bool-cases (leb (length body) pos)) [
  | inl past ↦ absurd (none-ne-some (value, pos') (sym (varint_end body pos (ground arith)) ∙ e))
  | inr inside ↦
      let i : pos < length body = ground arith in
      elim (Option-cases (decode (drop pos body))) [
        | inl d ↦ absurd (none-ne-some (value, pos') (sym (varint_bad body pos i d) ∙ e))
        | inr ((v, used), d) ↦
            let t = decode_takes (drop pos body) v used (All-drop IsByte pos body h) d in
            let same = some-injective _ _ (sym (varint_good body pos v used i d) ∙ e) in
            let v_is : v ≡ value = ap (λ r. r.0) same in
            let p_is : add_size pos used ≡ pos' = ap (λ r. r.1) same in
            omega (arith, t, v_is, p_is, length-drop pos body)
      ]
]

chat_no_length :
    (cap pos : ℕ) (body : List ℕ)
    → read_varint_body body pos ≡ none
    → read_chat_body cap body pos ≡ none
unfolding read_chat_body
chat_no_length cap pos body e = ground arith

-- The three tests of a chat message, once its length has been read.
chat_refused :
    (cap pos len pos' : ℕ) (body : List ℕ)
    → read_varint_body body pos ≡ some (len, pos')
    → (is_negative len || (leb cap len || ltb (length body) (add_size pos' len))) ≡ true
    → read_chat_body cap body pos ≡ none
unfolding read_chat_body
chat_refused cap pos len pos' body e h = ground arith

chat_controls :
    (cap pos len pos' : ℕ) (body : List ℕ)
    → read_varint_body body pos ≡ some (len, pos')
    → bytes_have_c0_control (take len (drop pos' body)) ≡ true
    → read_chat_body cap body pos ≡ none
unfolding read_chat_body
chat_controls cap pos len pos' body e h = ground arith

chat_accepted :
    (cap pos len pos' : ℕ) (body : List ℕ)
    → read_varint_body body pos ≡ some (len, pos')
    → (is_negative len || (leb cap len || ltb (length body) (add_size pos' len))) ≡ false
    → bytes_have_c0_control (take len (drop pos' body)) ≡ false
    → read_chat_body cap body pos ≡ some (take len (drop pos' body), add_size pos' len)
unfolding read_chat_body
chat_accepted cap pos len pos' body e h k = ground arith

string_refused :
    (cap pos len pos' : ℕ) (body : List ℕ)
    → read_varint_body body pos ≡ some (len, pos')
    → (is_negative len || (leb cap len || ltb (length body) (add_size pos' len))) ≡ true
    → read_string_body cap body pos ≡ none
unfolding read_string_body
string_refused cap pos len pos' body e h = ground arith

string_accepted :
    (cap pos len pos' : ℕ) (body : List ℕ)
    → read_varint_body body pos ≡ some (len, pos')
    → (is_negative len || (leb cap len || ltb (length body) (add_size pos' len))) ≡ false
    → read_string_body cap body pos ≡ some (take len (drop pos' body), add_size pos' len)
unfolding read_string_body
string_accepted cap pos len pos' body e h = ground arith

-- A byte that is no C0 control character.
abbrev pub IsPlain : ℕ → Type 0
IsPlain b = 0x20 ≤ b

no_control-IsPlain : (bytes : List ℕ) → bytes_have_c0_control bytes ≡ false → All IsPlain bytes
unfolding bytes_have_c0_control
no_control-IsPlain [] e = tt
no_control-IsPlain (b ∷ bytes) e = (ground arith, no_control-IsPlain bytes (ground arith))

-- A chat message read from a body of bytes of less than 2^31 bytes, for a destination of at most
-- 2^31 bytes, leaves room there for the terminating zero, is made of the bytes of the body before
-- its end, all of them at least 0x20, and ends inside the body, behind the position it was read
-- from.
pub read_chat_body_takes :
    (cap pos : ℕ) (body text : List ℕ) (pos' : ℕ)
    → All IsByte body
    → length body < 2 ^ 31
    → cap ≤ 2 ^ 31
    → read_chat_body cap body pos ≡ some (text, pos')
    → (length text < cap)
      × All IsPlain text
      × (text ≡ take (length text) (drop (pos' - length text) body))
      × (pos + length text < pos')
      × (pos' ≤ length body)
read_chat_body_takes cap pos body text pos' h small c e =
    elim (Option-cases (read_varint_body body pos)) [
      | inl n ↦ absurd (none-ne-some (text, pos') (sym (chat_no_length cap pos body n) ∙ e))
      | inr ((len, start), r) ↦
          let t = read_varint_body_takes body pos len start h small r in
          elim (Bool-cases
            (is_negative len || (leb cap len || ltb (length body) (add_size start len)))) [
              | inl bad ↦
                  absurd (
                    none-ne-some (text, pos') (sym (chat_refused cap pos len start body r bad) ∙ e))
              | inr good ↦ elim (Bool-cases (bytes_have_c0_control (take len (drop start body)))) [
                | inl bad ↦ absurd (
                    none-ne-some (text, pos')
                      (sym (chat_controls cap pos len start body r bad) ∙ e))
                | inr clean ↦
                    let same =
                      some-injective _ _
                        (sym (chat_accepted cap pos len start body r good clean) ∙ e) in
                    let text_is : take len (drop start body) ≡ text = ap (λ q. q.0) same in
                    let pos_is : add_size start len ≡ pos' = ap (λ q. q.1) same in
                    let inside : (len < cap) × (start + len ≤ length body) = ground (arith, t) in
                    let count : length text ≡ len =
                      sym (ap length text_is)
                      ∙ omega (
                        arith,
                        length-take len (drop start body),
                        length-drop start body,
                        inside,
                      ) in
                    (
                      omega (arith, count, inside),
                      no_control-IsPlain text (ap bytes_have_c0_control (sym text_is) ∙ clean),
                      sym text_is
                          ∙ ap₂ (λ n k. take n (drop k body)) (sym count)
                              (let e : start ≡ pos' - length text =
                                  omega (arith, count, pos_is, inside) in
                                e),
                      omega (arith, count, t, pos_is, inside),
                      omega (arith, pos_is, inside),
                    )
              ]
            ]
    ]

-- A string that stands in a body of less than 2^31 bytes as its length in a VarInt and its bytes
-- is read back for a destination that is longer, up to its end.
pub read_string_body-written :
    (cap : ℕ) (front str rest : List ℕ)
    → length str < cap
    → length (front ++ (bytes_of (length str) ++ (str ++ rest))) < 2 ^ 31
    → read_string_body cap (front ++ (bytes_of (length str) ++ (str ++ rest))) (length front)
      ≡ some (str, length front + (length (bytes_of (length str)) + length str))
read_string_body-written cap front str rest h small =
    let len = length str in
    let prefix = bytes_of len in
    let body = front ++ (prefix ++ (str ++ rest)) in
    let pos = length front in
    let start = pos + length prefix in
    let a = length-append front (prefix ++ (str ++ rest)) in
    let b = length-append prefix (str ++ rest) in
    let c = length-append str rest in
    let l = length-bytes_of len in
    let read : decode (drop pos body) ≡ some (len, length prefix) =
      ap decode (drop-append pos front (prefix ++ (str ++ rest)) refl)
      ∙ decode-bytes_of len (str ++ rest) (omega arith) in
    let at : add_size pos (length prefix) ≡ start = omega arith in
    let got : read_varint_body body pos ≡ some (len, start) =
      varint_good body pos len (length prefix) (omega arith) read ∙ ap (λ n. some (len, n)) at in
    let behind : drop start body ≡ str ++ rest =
      ap (drop start) (sym (append_assoc front prefix (str ++ rest)))
      ∙ drop-append start (front ++ prefix) (str ++ rest)
          (omega (arith, length-append front prefix)) in
    let text : take len (drop start body) ≡ str =
      ap (take len) behind ∙ take-append len str rest refl in
    let end : add_size start len ≡ pos + (length prefix + len) = omega arith in
    string_accepted cap pos len start body got (ground arith) ∙ ap₂ (λ s n. some (s, n)) text end
