-- ===== src/Buffer/Recv/Laws.antt =====
-- The queue that a RecvBuffer stands for, and its operations on it.
use libiouring_server.Common.{
  ℕ, ◌+◌, ◌-◌, ◌^◌, ◌≤◌, ◌<◌, ◌≡◌, refl, sym, ap, ◌∙◌, ◌⊎◌, inl, inr, List, [], ◌++◌, length, arith,
  ltb, ◌==◌, ==_iff, le→leb, if◌then◌else◌, Bool-cases,
}
use libiouring_server.Common.Word.{sub32_lem}
use libiouring_server.Common.Slices.{
  slice, length-blit, length-slice, slice-blit_end, slice-blit_front, blit,
}
use libiouring_server.Buffer.Recv.{
  RecvBuffer, writable_size, read_region, compact, stored, copy_in, on_write,
}

-- The positions are in order and inside the allocation, whose size is a 32-bit number.
pub record IsValid (b : RecvBuffer) : Type 0 where
  pub ordered : b.read_pos ≤ b.write_pos
  pub inside : b.write_pos ≤ b.capacity
  pub allocated : length b.buffer ≡ b.capacity
  pub small : b.capacity < 2 ^ 32

-- The bytes that are queued.
abbrev pub contents : RecvBuffer → List ℕ
contents b = slice b.read_pos (b.write_pos - b.read_pos) b.buffer

pub read_region-eq-contents : (b : RecvBuffer) → IsValid b → read_region b ≡ contents b
unfolding read_region
read_region-eq-contents b v =
    ap (λ (k : ℕ). slice b.read_pos k b.buffer)
      (sub32_lem b.write_pos b.read_pos v.ordered (omega (arith, v.inside, v.small)))

pub length-contents : (b : RecvBuffer) → IsValid b → length (contents b) ≡ b.write_pos - b.read_pos
length-contents b v =
    length-slice b.read_pos (b.write_pos - b.read_pos) b.buffer
      (omega (arith, v.ordered, v.inside, v.allocated))

blit-nil : (xs : List ℕ) → blit xs 0 [] ≡ xs
blit-nil xs = refl

-- What Compact makes of a buffer whose read position is not 0.
moved : RecvBuffer → RecvBuffer
moved b = record b {
  buffer = blit b.buffer 0 (contents b);
  read_pos = 0;
  write_pos = b.write_pos - b.read_pos;
}

move_down :
    (b : RecvBuffer)
    → record b {
      buffer = if ltb 0 (b.write_pos - b.read_pos) then blit b.buffer 0 (contents b) else b.buffer;
      read_pos = 0;
      write_pos = b.write_pos - b.read_pos;
    }
      ≡ moved b
unfolding moved
move_down b = elim (Bool-cases (ltb 0 (b.write_pos - b.read_pos))) [
  | inl e ↦ rw e
  | inr e ↦ let z : b.write_pos - b.read_pos ≡ 0 = ground arith in rw z
]

compact_cases :
    (b : RecvBuffer) → IsValid b → ((b.read_pos ≡ 0) × (compact b ≡ b)) ⊎ (compact b ≡ moved b)
unfolding compact
compact_cases b v = elim (Bool-cases (b.read_pos == 0)) [
  | inl e ↦ inl ((==_iff b.read_pos 0).0 e, rw e)
  | inr e ↦ inr (
      rw (e, sub32_lem b.write_pos b.read_pos v.ordered (omega (arith, v.inside, v.small)))
        (move_down b))
]

moved-IsValid : (b : RecvBuffer) → IsValid b → IsValid (moved b)
unfolding moved
moved-IsValid b v = record {
  ordered = omega arith;
  inside = omega (arith, length-contents b v, v.inside);
  allocated =
      length-blit b.buffer 0 (contents b)
        (omega (arith, length-contents b v, v.inside, v.allocated))
      ∙ v.allocated;
  small = v.small;
}

pub compact-IsValid : (b : RecvBuffer) → IsValid b → IsValid (compact b)
compact-IsValid b v = elim (compact_cases b v) [
  | inl (z, e) ↦ rw e v
  | inr e ↦ rw e (moved-IsValid b v)
]

contents-moved : (b : RecvBuffer) → IsValid b → contents (moved b) ≡ contents b
unfolding moved
contents-moved b v =
    ap (λ (k : ℕ). slice 0 k (blit b.buffer 0 (contents b))) (omega (arith, length-contents b v))
    ∙ slice-blit_front b.buffer (contents b)

pub contents-compact : (b : RecvBuffer) → IsValid b → contents (compact b) ≡ contents b
contents-compact b v = elim (compact_cases b v) [
  | inl (z, e) ↦ ap contents e
  | inr e ↦ ap contents e ∙ contents-moved b v
]

pub capacity-compact : (b : RecvBuffer) → (compact b).capacity ≡ b.capacity
unfolding compact
capacity-compact b = ground arith

write_pos-on_write :
    (b : RecvBuffer) (bytes : List ℕ)
    → IsValid b
    → b.write_pos + length bytes ≤ b.capacity
    → (on_write b bytes).write_pos ≡ b.write_pos + length bytes
unfolding on_write
write_pos-on_write b bytes v h = omega (arith, v.small)

pub on_write-IsValid :
    (b : RecvBuffer) (bytes : List ℕ)
    → IsValid b
    → b.write_pos + length bytes ≤ b.capacity
    → IsValid (on_write b bytes)
on_write-IsValid b bytes v h =
    unfold on_write in
    record {
      ordered = omega (arith, v.ordered, v.small);
      inside = omega (arith, v.small);
      allocated = length-blit b.buffer b.write_pos bytes (omega (arith, v.allocated)) ∙ v.allocated;
      small = v.small;
    }

count_lem :
    (b : RecvBuffer) (bytes : List ℕ)
    → IsValid b
    → b.write_pos + length bytes ≤ b.capacity
    → (on_write b bytes).write_pos - b.read_pos ≡ (b.write_pos - b.read_pos) + length bytes
count_lem b bytes v h = omega (arith, write_pos-on_write b bytes v h, v.ordered)

pub contents-on_write :
    (b : RecvBuffer) (bytes : List ℕ)
    → IsValid b
    → b.write_pos + length bytes ≤ b.capacity
    → contents (on_write b bytes) ≡ contents b ++ bytes
contents-on_write b bytes v h =
    unfold on_write in
    (ap (λ (k : ℕ). slice b.read_pos k (blit b.buffer b.write_pos bytes)) (count_lem b bytes v h)
      ∙ slice-blit_end b.buffer b.read_pos b.write_pos bytes v.ordered
          (omega (arith, v.inside, v.allocated)))

-- A copy that fits is what WriteRegion and OnWrite do.
pub copy_in-on_write :
    (b : RecvBuffer) (bytes : List ℕ)
    → IsValid b
    → b.write_pos + length bytes ≤ b.capacity
    → copy_in b bytes ≡ stored (on_write b bytes)
unfolding copy_in on_write
copy_in-on_write b bytes v h =
    rw (le→leb (b.write_pos + length bytes) (length b.buffer) (omega (arith, v.allocated)))

-- After Compact all the free space is behind the bytes.
pub write_pos-compact : (b : RecvBuffer) → IsValid b → (compact b).write_pos ≡ length (contents b)
write_pos-compact b v = elim (compact_cases b v) [
  | inl (z, e) ↦ omega (arith, ap (λ (r : RecvBuffer). r.write_pos) e, length-contents b v)
  | inr e ↦ unfold moved in (ap (λ (r : RecvBuffer). r.write_pos) e ∙ sym (length-contents b v))
]

pub writable_size_lem : (b : RecvBuffer) → IsValid b → writable_size b ≡ b.capacity - b.write_pos
unfolding writable_size
writable_size_lem b v = sub32_lem b.capacity b.write_pos v.inside v.small

pub capacity-on_write : (b : RecvBuffer) (bytes : List ℕ) → (on_write b bytes).capacity ≡ b.capacity
unfolding on_write
capacity-on_write b bytes = refl
