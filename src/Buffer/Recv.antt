-- ===== src/Buffer/Recv.antt =====
-- include/servercore/buffer/RecvBuffer.h: the reassembly buffer of a session. The allocation is
-- a list of bytes; a copy or a span that leaves it is undefined behaviour, here `fault`.
pub mod Laws
pub mod Append
pub mod Refine
use libiouring_server.Common.{
  ℕ, ◌+◌, ◌-◌, ◌/◌, ◌≡◌, Bool, true, false, List, length, take, replicate, ltb, leb, ◌==◌,
  if◌then◌else◌,
}
use libiouring_server.Common.Word.{u32, add32, sub32}
use libiouring_server.Common.Slices.{slice, blit}

pub record RecvBuffer : Type 0 where
  pub buffer : List ℕ
  pub capacity : ℕ
  pub read_pos : ℕ
  pub write_pos : ℕ

-- RecvBuffer(size)
unfoldable pub init : ℕ → RecvBuffer
init size = record { buffer = replicate size 0; capacity = size; read_pos = 0; write_pos = 0 }

unfoldable pub is_empty : RecvBuffer → Bool
is_empty b = b.read_pos == b.write_pos

pub should_compact : RecvBuffer → Bool
should_compact b = ltb (b.capacity / 2) b.read_pos

pub readable_size : RecvBuffer → ℕ
readable_size b = sub32 b.write_pos b.read_pos

pub writable_size : RecvBuffer → ℕ
writable_size b = sub32 b.capacity b.write_pos

-- The bytes of the span that ReadRegion returns.
pub read_region : RecvBuffer → List ℕ
unfolding readable_size
read_region b = slice b.read_pos (readable_size b) b.buffer

pub compact : RecvBuffer → RecvBuffer
compact b =
    let remaining = sub32 b.write_pos b.read_pos in
    if b.read_pos == 0 then b else record b {
      buffer =
          if ltb 0 remaining
          then blit b.buffer 0 (slice b.read_pos remaining b.buffer)
          else b.buffer;
      read_pos = 0;
      write_pos = remaining;
    }

-- The result of Append, with the buffer as it is left.
pub data Appended : Type 0 where
  stored : RecvBuffer → Appended
  exhausted : RecvBuffer → Appended
  fault : Appended

pub copy_in : RecvBuffer → List ℕ → Appended
copy_in b bytes =
    if leb (b.write_pos + length bytes) (length b.buffer)
    then stored (record b {
      buffer = blit b.buffer b.write_pos bytes;
      write_pos = add32 b.write_pos (u32 (length bytes));
    })
    else fault

pub append : RecvBuffer → List ℕ → Appended
unfolding copy_in writable_size
append b bytes =
    let b' = if ltb (writable_size b) (u32 (length bytes)) then compact b else b in
    if ltb (writable_size b') (u32 (length bytes)) then exhausted b' else copy_in b' bytes

-- A kernel or caller fills the span of WriteRegion with `bytes`, then calls OnWrite.
pub on_write : RecvBuffer → List ℕ → RecvBuffer
on_write b bytes = record b {
  buffer = blit b.buffer b.write_pos bytes;
  write_pos = add32 b.write_pos (u32 (length bytes));
}

pub on_read : RecvBuffer → ℕ → RecvBuffer
on_read b bytes =
    let r = add32 b.read_pos bytes in
    if r == b.write_pos then record b { read_pos = 0; write_pos = 0 } else record b { read_pos = r }
