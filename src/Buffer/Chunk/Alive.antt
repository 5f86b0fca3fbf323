-- ===== src/Buffer/Chunk/Alive.antt =====
-- Whether the buffers of a chunk that are alive lie in it and apart.
use libiouring_server.Common.{
  ℕ, zero, suc, ◌+◌, ◌^◌, ◌≤◌, ◌<◌, ◌≡◌, refl, ◌∙◌, ◌⊎◌, ltb, leb, ◌==◌, List, [], ◌∷◌, length, All,
  if_cases, inr, Option, none, some, if◌then◌else◌, arith,
}
use libiouring_server.Common.Word.{add32, sub32, add32_lem}
use libiouring_server.Buffer.Chunk.{
  SendBuffer, SendBufferChunk, init, open_buffer, reset, full, remove_at, count_down, collect,
  on_release,
}

-- Each buffer ends where the one that was opened behind it starts, or before.
Stacked : ℕ → List SendBuffer → Type 0
Stacked top [] = Unit
Stacked top (b ∷ bs) = (b.place + b.alloc_size ≤ top) × Stacked b.place bs

Stacked-le : (top top' : ℕ) (bs : List SendBuffer) → top ≤ top' → Stacked top bs → Stacked top' bs
unfolding Stacked
Stacked-le top top' [] h s = tt
Stacked-le top top' (b ∷ bs) h s = (omega (arith, s.0), s.1)

remove_at-Stacked :
    (i top : ℕ) (bs : List SendBuffer) → Stacked top bs → Stacked top (remove_at i bs)
unfolding Stacked remove_at
remove_at-Stacked i top [] s = tt
remove_at-Stacked zero top (b ∷ bs) s = Stacked-le b.place top bs (omega (arith, s.0)) s.1
remove_at-Stacked (suc i) top (b ∷ bs) s = (s.0, remove_at-Stacked i b.place bs s.1)

length-remove_at :
    (i : ℕ) (bs : List SendBuffer) → i < length bs → length (remove_at i bs) + 1 ≡ length bs
unfolding remove_at
length-remove_at i [] h = absurd (omega arith)
length-remove_at zero (b ∷ bs) h = omega arith
length-remove_at (suc i) (b ∷ bs) h = omega (arith, length-remove_at i bs (omega arith))

-- Two buffers that share no byte.
abbrev pub Apart : SendBuffer → SendBuffer → Type 0
Apart a b = (a.place + a.alloc_size ≤ b.place) ⊎ (b.place + b.alloc_size ≤ a.place)

abbrev pub AllApart : List SendBuffer → Type 0
AllApart [] = Unit
AllApart (b ∷ bs) = All (Apart b) bs × AllApart bs

abbrev pub Inside : ℕ → List SendBuffer → Type 0
Inside size bs = All (λ (b : SendBuffer). b.place + b.alloc_size ≤ size) bs

Stacked-Inside :
    (top size : ℕ) (bs : List SendBuffer) → top ≤ size → Stacked top bs → Inside size bs
unfolding Stacked
Stacked-Inside top size [] h s = tt
Stacked-Inside top size (b ∷ bs) h s =
    (omega (arith, s.0), Stacked-Inside b.place size bs (omega (arith, s.0)) s.1)

Stacked-Apart :
    (b : SendBuffer) (top : ℕ) (bs : List SendBuffer)
    → top ≤ b.place
    → Stacked top bs
    → All (Apart b) bs
unfolding Stacked
Stacked-Apart b top [] h s = tt
Stacked-Apart b top (a ∷ bs) h s =
    (inr (omega (arith, s.0)), Stacked-Apart b a.place bs (omega (arith, s.0)) s.1)

Stacked-AllApart : (top : ℕ) (bs : List SendBuffer) → Stacked top bs → AllApart bs
unfolding Stacked
Stacked-AllApart top [] s = tt
Stacked-AllApart top (b ∷ bs) s =
    (Stacked-Apart b b.place bs (omega arith) s.1, Stacked-AllApart b.place bs s.1)

record Valid (c : SendBufferChunk) : Type 0 where
  stacked : Stacked c.offset c.alive
  counted : c.ref_count ≡ length c.alive
  bounded : c.offset ≤ c.chunk_size
  small : c.chunk_size < 2 ^ 31

-- A call: a buffer is opened, or the i-th living one is released, as one action.
pub data Call : Type 0 where
  opens : ℕ → Call
  releases : ℕ → Call

unfoldable pub opened : SendBufferChunk → Option SendBufferChunk → SendBufferChunk
opened c none = c
opened c (some d) = d

unfoldable pub call : Call → SendBufferChunk → SendBufferChunk
call (opens size) c = opened c (open_buffer size c)
call (releases i) c = if ltb i (length c.alive) then on_release i c else c

unfoldable pub run : List Call → SendBufferChunk → SendBufferChunk
run [] c = c
run (x ∷ xs) c = run xs (call x c)

-- The sizes that are asked for.
abbrev pub Small : Call → Type 0
Small (opens size) = size < 2 ^ 31
Small (releases i) = Unit

Kept : SendBufferChunk → SendBufferChunk → Type 0
Kept c d = Valid d × (length d.alive ≤ length c.alive + 1)

open_buffer-Kept :
    (size : ℕ) (c : SendBufferChunk)
    → size < 2 ^ 31
    → length c.alive + 1 < 2 ^ 32
    → Valid c
    → Kept c (opened c (open_buffer size c))
unfolding open_buffer opened Kept Stacked
open_buffer-Kept size c h k v =
    let e = add32_lem c.offset size (omega (arith, v.bounded, v.small)) in
    if_cases (λ (o : Option SendBufferChunk). Kept c (opened c o))
      (ltb c.chunk_size (add32 c.offset size)) (λ f. (v, omega arith))
      (λ f. (
        record {
          stacked = (omega (arith, e), v.stacked);
          counted = omega (arith, v.counted);
          bounded = ground arith;
          small = v.small;
        },
        omega arith,
      ))

Stacked-length : (bs : List SendBuffer) → length bs ≡ 0 → Stacked 0 bs
unfolding Stacked
Stacked-length [] h = tt
Stacked-length (b ∷ bs) h = absurd (omega arith)

on_release-Kept :
    (i : ℕ) (c : SendBufferChunk)
    → i < length c.alive
    → length c.alive + 1 < 2 ^ 32
    → Valid c
    → Kept c (on_release i c)
unfolding on_release collect count_down reset full Kept
on_release-Kept i c h k v =
    let less = length-remove_at i c.alive h in
    let stacked = remove_at-Stacked i c.offset c.alive v.stacked in
    let counted : sub32 c.ref_count 1 ≡ length (remove_at i c.alive) =
      omega (arith, v.counted, less) in
    if_cases (Kept c) (c.ref_count == 1)
      (λ one.
        if_cases (Kept c) (leb c.chunk_size c.offset)
          (λ f. (
            record {
              stacked = Stacked-length (remove_at i c.alive) (ground (arith, less, v.counted));
              counted = counted;
              bounded = omega arith;
              small = v.small;
            },
            omega (arith, less),
          ))
          (λ f. (
            record { stacked = stacked; counted = counted; bounded = v.bounded; small = v.small },
            omega (arith, less),
          )))
      (λ more. (
        record { stacked = stacked; counted = counted; bounded = v.bounded; small = v.small },
        omega (arith, less),
      ))

call-Kept :
    (x : Call) (c : SendBufferChunk)
    → Small x
    → length c.alive + 1 < 2 ^ 32
    → Valid c
    → Kept c (call x c)
unfolding call Kept
call-Kept (opens size) c h k v = open_buffer-Kept size c h k v
call-Kept (releases i) c h k v =
    if_cases (Kept c) (ltb i (length c.alive)) (λ f. on_release-Kept i c (ground arith) k v)
      (λ f. (v, omega arith))

run-Valid :
    (xs : List Call) (c : SendBufferChunk)
    → All Small xs
    → length c.alive + length xs < 2 ^ 32
    → Valid c
    → Valid (run xs c)
unfolding run Kept
run-Valid [] c h k v = v
run-Valid (x ∷ xs) c h k v =
    let (w, n) = call-Kept x c h.0 (omega arith) v in run-Valid xs (call x c) h.1 (omega arith) w

call-chunk_size : (x : Call) (c : SendBufferChunk) → (call x c).chunk_size ≡ c.chunk_size
unfolding call open_buffer opened on_release collect count_down reset full
call-chunk_size (opens size) c =
    if_cases (λ (o : Option SendBufferChunk). (opened c o).chunk_size ≡ c.chunk_size)
      (ltb c.chunk_size (add32 c.offset size)) (λ f. refl) (λ f. refl)
call-chunk_size (releases i) c =
    let Same = λ (d : SendBufferChunk). d.chunk_size ≡ c.chunk_size in
    if_cases Same (ltb i (length c.alive))
      (λ f.
        if_cases Same (c.ref_count == 1)
          (λ g. if_cases Same (leb c.chunk_size c.offset) (λ u. refl) (λ u. refl)) (λ g. refl))
      (λ f. refl)

run-chunk_size : (xs : List Call) (c : SendBufferChunk) → (run xs c).chunk_size ≡ c.chunk_size
unfolding run
run-chunk_size [] c = refl
run-chunk_size (x ∷ xs) c = run-chunk_size xs (call x c) ∙ call-chunk_size x c

-- After fewer than 2 ^ 32 calls on a new chunk of less than 2 ^ 31 bytes, each an Open of less than
-- 2 ^ 31 bytes or a release that no other thread interrupts: the buffers that are alive lie inside the
-- chunk, no two of them share a byte, and ref_count_ is their number.
pub run-AllApart :
    (xs : List Call) (chunk_size : ℕ)
    → All Small xs
    → length xs < 2 ^ 32
    → chunk_size < 2 ^ 31
    → AllApart (run xs (init chunk_size)).alive
      × Inside chunk_size (run xs (init chunk_size)).alive
      × ((run xs (init chunk_size)).ref_count ≡ length (run xs (init chunk_size)).alive)
unfolding init Stacked
run-AllApart xs n h k small =
    let v =
      run-Valid xs (init n) h (omega arith)
        (record { stacked = tt; counted = refl; bounded = omega arith; small = small }) in
    let c = run xs (init n) in
    (
      Stacked-AllApart c.offset c.alive v.stacked,
      Stacked-Inside c.offset n c.alive (omega (arith, v.bounded, run-chunk_size xs (init n)))
          v.stacked,
      v.counted,
    )
