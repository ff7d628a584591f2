-- ===== src/Server/Packets/Built.antt =====
-- core/src/mc_server.c: a body is built where its writes fit the buffer.
use starrysky_mc_server.Packet.Writer.{Writer, writer_init}
use starrysky_mc_server.Packet.Writes.{IsValid, written, Appended, Appends}
use starrysky_mc_server.Prelude.{
  ℕ, ◌+◌, ◌^◌, ◌≤◌, ◌≡◌, refl, ap, ◌∙◌, Bool, if◌then◌else◌, arith, List, [], some, none, true,
  length, take, replicate, le→leb, length-replicate, Act,
}
use starrysky_mc_server.Server.Packets.{build}

fresh-IsValid : (cap : ℕ) → cap ≤ 2 ^ 31 → IsValid (writer_init (replicate cap 0) cap)
unfolding writer_init
fresh-IsValid cap h = record {
  buf_fits = omega (arith, length-replicate {A = ℕ} cap 0);
  len_in = omega arith;
  small = h;
}

built-some :
    (cap : ℕ) (bytes : List ℕ) (w : Writer) (r : Bool × Writer)
    → written w ≡ []
    → w.len + length bytes ≤ w.cap
    → Appended bytes w r
    → (if r.0 then some (take r.1.len r.1.buf) else none) ≡ some bytes
built-some cap bytes w (ok, w') empty fits a =
    let e : ok ≡ true = a.result ∙ le→leb _ _ fits in
    rw e (ap some ((a.appended fits).0 ∙ rw empty refl))

pub build-some :
    (cap : ℕ) (bytes : List ℕ) (act : Act Writer)
    → Appends bytes act
    → length bytes ≤ cap
    → cap ≤ 2 ^ 31
    → build cap act ≡ some bytes
unfolding build writer_init
build-some cap bytes act h fits small =
    built-some cap bytes (writer_init (replicate cap 0) cap)
      (act (writer_init (replicate cap 0) cap)) refl (omega arith)
      (h (writer_init (replicate cap 0) cap) (fresh-IsValid cap small))
