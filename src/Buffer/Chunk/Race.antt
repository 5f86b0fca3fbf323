-- ===== src/Buffer/Chunk/Race.antt =====
-- Two threads in a chunk: one is between the two halves of OnRelease while the other opens a buffer.
use libiouring_server.Common.{
  ℕ, ◌+◌, ◌^◌, ◌≤◌, ◌<◌, ◌≡◌, refl, ap, ◌∙◌, ltb, leb, true, false, List, [], ◌∷◌, arith,
}
use libiouring_server.Common.Word.{add32, add32_lem}
use libiouring_server.Buffer.Chunk.{
  SendBuffer, SendBufferChunk, init, open_buffer, reset, full, remove_at, count_down, collect,
}
use libiouring_server.Buffer.Chunk.Alive.{opened}

open_fits :
    (size : ℕ) (c : SendBufferChunk)
    → c.offset + size ≤ c.chunk_size
    → c.chunk_size < 2 ^ 31
    → opened c (open_buffer size c) ≡ record c {
      offset = c.offset + size;
      ref_count = add32 c.ref_count 1;
      alive = record { place = c.offset; alloc_size = size; write_size = 0 } ∷ c.alive;
    }
unfolding open_buffer opened
open_fits size c h k =
    let e = add32_lem c.offset size (omega arith) in
    let f : ltb c.chunk_size (add32 c.offset size) ≡ false = ground (arith, e) in rw (f, e) refl

-- A chunk of a + b bytes: a buffer of a bytes is opened and its last reference is dropped, but before
-- Full() is asked, another thread opens one of b bytes, which fills the chunk.
abbrev pub interrupted : ℕ → ℕ → SendBufferChunk
interrupted a b =
    let first = opened (init (a + b)) (open_buffer a (init (a + b))) in
    let released = count_down 0 first in opened released (open_buffer b released)

-- The chunk with one thread in OnRelease, and what is opened in it.
abbrev held : ℕ → ℕ → ℕ → List SendBuffer → ℕ → SendBufferChunk
held size offset refs bs releasing = record {
  chunk_size = size;
  offset = offset;
  ref_count = refs;
  alive = bs;
  releasing = releasing;
}

abbrev at_place : ℕ → ℕ → SendBuffer
at_place place size = record { place = place; alloc_size = size; write_size = 0 }

zero_left : (n : ℕ) → 0 + n ≡ n
zero_left n = omega arith

open_held :
    (n offset size refs releasing : ℕ) (bs : List SendBuffer)
    → offset + size ≤ n
    → n < 2 ^ 31
    → opened (held n offset refs bs releasing) (open_buffer size (held n offset refs bs releasing))
      ≡ held n (offset + size) (add32 refs 1) (at_place offset size ∷ bs) releasing
open_held n offset size refs releasing bs h k = open_fits size (held n offset refs bs releasing) h k

interrupted_lem :
    (a b : ℕ) → a + b < 2 ^ 31 → interrupted a b ≡ held (a + b) (a + b) 1 (at_place a b ∷ []) 1
unfolding init count_down remove_at
interrupted_lem a b k =
    let first = open_held (a + b) 0 a 0 0 [] (omega arith) k in
    let moved = ap (λ (z : ℕ). held (a + b) z 1 (at_place 0 a ∷ []) 0) (zero_left a) in
    ap (λ (c : SendBufferChunk). opened (count_down 0 c) (open_buffer b (count_down 0 c)))
      (first ∙ moved)
    ∙ open_held (a + b) a b 0 1 [] (omega arith) k

-- The first thread then finds the chunk full and gives it up while the other thread's buffer is
-- alive; the next buffer of a + b bytes lies over it.
pub collect-overlap :
    (a b : ℕ)
    → 0 < a
    → 0 < b
    → a + b < 2 ^ 31
    → (full (interrupted a b) ≡ true)
      × ((opened
            (collect (interrupted a b))
            (open_buffer (a + b) (collect (interrupted a b)))).alive
          ≡ record { place = 0; alloc_size = a + b; write_size = 0 }
            ∷ record { place = a; alloc_size = b; write_size = 0 }
            ∷ [])
unfolding collect full count_down reset remove_at init
collect-overlap a b ha hb k =
    let e = interrupted_lem a b k in
    let full_lem : leb (a + b) (a + b) ≡ true = ground arith in
    let again = open_held (a + b) 0 (a + b) 1 0 (at_place a b ∷ []) (omega arith) k in
    (
      ap full e ∙ full_lem,
      ap (λ (c : SendBufferChunk). (opened (collect c) (open_buffer (a + b) (collect c))).alive) e
          ∙ rw full_lem (ap (λ (c : SendBufferChunk). c.alive) again),
    )
