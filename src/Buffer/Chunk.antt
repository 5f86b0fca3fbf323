-- ===== src/Buffer/Chunk.antt =====
-- SendBuffer and SendBufferChunk of include/servercore/buffer/SendBuffer.h. The state has the chunk's
-- fields, the buffers that are alive, each by its offset in the chunk, what it was given and what has
-- been written, and the number of threads that have seen the count fall to 0 in OnRelease and have not
-- asked Full() yet. The pool gives the chunk's memory out again behind Reset.
pub mod Alive
pub mod Race
use libiouring_server.Common.{
  ℕ, zero, suc, ◌+◌, ◌-◌, ◌%◌, ◌^◌, ltb, leb, ◌==◌, Bool, true, false, List, [], ◌∷◌, Option, none,
  some, if◌then◌else◌,
}
use libiouring_server.Common.Word.{add32, sub32}

pub record SendBuffer : Type 0 where
  pub place : ℕ
  pub alloc_size : ℕ
  pub write_size : ℕ

pub record SendBufferChunk : Type 0 where
  pub chunk_size : ℕ
  pub offset : ℕ
  pub ref_count : ℕ
  pub alive : List SendBuffer
  pub releasing : ℕ

unfoldable pub init : ℕ → SendBufferChunk
init chunk_size = record {
  chunk_size = chunk_size;
  offset = 0;
  ref_count = 0;
  alive = [];
  releasing = 0;
}

-- The length of Writable()
unfoldable pub writable : SendBuffer → ℕ
writable b = sub32 b.alloc_size b.write_size

unfoldable pub commit : ℕ → SendBuffer → SendBuffer
commit size b = record b { write_size = add32 b.write_size size }

-- Open: none is nullopt.
unfoldable pub open_buffer : ℕ → SendBufferChunk → Option SendBufferChunk
open_buffer size c =
    if ltb c.chunk_size (add32 c.offset size)
    then none
    else some (record c {
      offset = add32 c.offset size;
      ref_count = add32 c.ref_count 1;
      alive = record { place = c.offset; alloc_size = size; write_size = 0 } ∷ c.alive;
    })

unfoldable pub reset : SendBufferChunk → SendBufferChunk
reset c = record c { offset = 0 }

unfoldable pub full : SendBufferChunk → Bool
full c = leb c.chunk_size c.offset

unfoldable pub unused : SendBufferChunk → Bool
unused c = c.ref_count == 0

unfoldable pub remove_at : ℕ → List SendBuffer → List SendBuffer
remove_at i [] = []
remove_at zero (b ∷ bs) = bs
remove_at (suc i) (b ∷ bs) = b ∷ remove_at i bs

-- The first half of OnRelease for a living buffer: fetch_sub.
unfoldable pub count_down : ℕ → SendBufferChunk → SendBufferChunk
count_down i c = record c {
  ref_count = sub32 c.ref_count 1;
  alive = remove_at i c.alive;
  releasing = if c.ref_count == 1 then c.releasing + 1 else c.releasing;
}

-- The second half, in a thread that has seen the count at 1: OnChunkUnused resets a full chunk.
unfoldable pub collect : SendBufferChunk → SendBufferChunk
collect c = let d = record c { releasing = c.releasing - 1 } in if full c then reset d else d

-- OnRelease without another thread in between.
unfoldable pub on_release : ℕ → SendBufferChunk → SendBufferChunk
on_release i c = if c.ref_count == 1 then collect (count_down i c) else count_down i c
