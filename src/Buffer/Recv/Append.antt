-- ===== src/Buffer/Recv/Append.antt =====
-- Append and OnRead of RecvBuffer.h, and any sequence of calls, against a bounded queue of bytes.
use libiouring_server.Common.{
  ℕ, ◌+◌, ◌-◌, ◌^◌, ◌≤◌, ◌<◌, ◌≡◌, sym, ap, ◌∙◌, ◌⊎◌, inl, inr, List, ◌++◌, take, drop, length,
  arith, ltb, ◌==◌, ==_iff, if◌then◌else◌, Bool-cases, ℕ-cases,
}
use libiouring_server.Common.Word.{add32, add32_lem}
use libiouring_server.Common.Slices.{slice, drop-drop, drop-take, drop_all}
use libiouring_server.Buffer.Recv.{
  RecvBuffer, writable_size, compact, stored, exhausted, copy_in, append, on_read, on_write,
}
use libiouring_server.Buffer.Recv.Laws.{
  IsValid, contents, length-contents, compact-IsValid, contents-compact, capacity-compact,
  on_write-IsValid, contents-on_write, copy_in-on_write, write_pos-compact, writable_size_lem,
  capacity-on_write,
}

-- What Append does to a valid buffer: it stores the bytes exactly when they fit the capacity
-- beside those that are queued.
abbrev pub Appends : RecvBuffer → List ℕ → Type 0
Appends b bytes =
    ((length (contents b) + length bytes ≤ b.capacity)
      × ((b' : RecvBuffer) × (append b bytes ≡ stored b')
          × IsValid b'
          × (contents b' ≡ contents b ++ bytes)
          × (b'.capacity ≡ b.capacity)))
    ⊎ ((b.capacity < length (contents b) + length bytes)
        × ((b' : RecvBuffer) × (append b bytes ≡ exhausted b')
            × IsValid b'
            × (contents b' ≡ contents b)
            × (b'.capacity ≡ b.capacity)))

append_direct :
    (b : RecvBuffer) (bytes : List ℕ)
    → IsValid b
    → length bytes < 2 ^ 32
    → length bytes ≤ b.capacity - b.write_pos
    → append b bytes ≡ copy_in b bytes
unfolding append
append_direct b bytes v s h = ground (arith, writable_size_lem b v)

append_compacted :
    (b : RecvBuffer) (bytes : List ℕ)
    → IsValid b
    → length bytes < 2 ^ 32
    → b.capacity - b.write_pos < length bytes
    → append b bytes ≡ (
        if ltb (writable_size (compact b)) (length bytes)
        then exhausted (compact b)
        else copy_in (compact b) bytes)
unfolding append
append_compacted b bytes v s h = ground (arith, writable_size_lem b v)

-- A write behind the bytes that fits.
stored_lem :
    (b : RecvBuffer) (bytes : List ℕ)
    → IsValid b
    → b.write_pos + length bytes ≤ b.capacity
    → (copy_in b bytes ≡ stored (on_write b bytes))
      × IsValid (on_write b bytes)
      × (contents (on_write b bytes) ≡ contents b ++ bytes)
stored_lem b bytes v h =
    (copy_in-on_write b bytes v h, on_write-IsValid b bytes v h, contents-on_write b bytes v h)

append_room :
    (b : RecvBuffer) (bytes : List ℕ)
    → IsValid b
    → length bytes < 2 ^ 32
    → length bytes ≤ b.capacity - b.write_pos
    → Appends b bytes
append_room b bytes v s h =
    let w = stored_lem b bytes v (omega (arith, v.inside)) in
    inl (
      omega (arith, v.inside, length-contents b v),
      (on_write b bytes, append_direct b bytes v s h ∙ w.0, w.1, w.2, capacity-on_write b bytes),
    )

-- For a valid buffer and a block of less than 2 ^ 32 bytes: Append stores the block behind the
-- queued bytes exactly when both fit the capacity together, whatever space is left behind the
-- write position; otherwise it reports exhaustion and the queued bytes stay. It never writes out
-- of bounds.
pub append_lem :
    (b : RecvBuffer) (bytes : List ℕ) → IsValid b → length bytes < 2 ^ 32 → Appends b bytes
append_lem b bytes v s = elim (ℕ-cases (length bytes) (b.capacity - b.write_pos)) [
  | inl h ↦ append_room b bytes v s h
  | inr h ↦ elim (ℕ-cases (length (contents b) + length bytes) b.capacity) [
    | inl f ↦
        let w =
          stored_lem (compact b) bytes (compact-IsValid b v)
            (omega (arith, write_pos-compact b v, capacity-compact b)) in
        inl (
          f,
          (
            on_write (compact b) bytes,
            append_compacted b bytes v s h
                ∙ ground (
                  arith,
                  writable_size_lem (compact b) (compact-IsValid b v),
                  write_pos-compact b v,
                  capacity-compact b,
                )
                ∙ w.0,
            w.1,
            w.2 ∙ ap (λ (q : List ℕ). q ++ bytes) (contents-compact b v),
            capacity-on_write (compact b) bytes ∙ capacity-compact b,
          ),
        )
    | inr f ↦ inr (
      f,
      (
        compact b,
        append_compacted b bytes v s h
            ∙ ground (
              arith,
              writable_size_lem (compact b) (compact-IsValid b v),
              write_pos-compact b v,
              capacity-compact b,
            ),
        compact-IsValid b v,
        contents-compact b v,
        capacity-compact b,
      ),
    )
  ]
]

sub_sub : (w r n : ℕ) → w - r - n ≡ w - (r + n)
sub_sub w r n = omega arith

-- The remaining span after n bytes are read, when some are left.
contents_rest :
    (b : RecvBuffer) (n : ℕ)
    → slice (b.read_pos + n) (b.write_pos - (b.read_pos + n)) b.buffer ≡ drop n (contents b)
contents_rest b n = sym (
    drop-take n (b.write_pos - b.read_pos) (drop b.read_pos b.buffer)
    ∙ ap (take (b.write_pos - b.read_pos - n)) (drop-drop b.read_pos n b.buffer)
    ∙ ap (λ (k : ℕ). take k (drop (b.read_pos + n) b.buffer)) (sub_sub b.write_pos b.read_pos n))

-- For a valid buffer and n at most the number of queued bytes, OnRead removes the first n of them.
pub on_read_lem :
    (b : RecvBuffer) (n : ℕ)
    → IsValid b
    → n ≤ length (contents b)
    → IsValid (on_read b n) × (contents (on_read b n) ≡ drop n (contents b))
unfolding on_read
on_read_lem b n v h =
    let fits : b.read_pos + n ≤ b.write_pos = omega (arith, length-contents b v, v.ordered) in
    let sum : add32 b.read_pos n ≡ b.read_pos + n =
      add32_lem b.read_pos n (omega (arith, v.inside, v.small)) in
    elim (Bool-cases (add32 b.read_pos n == b.write_pos)) [
      | inl e ↦ rw e (
        record {
          ordered = omega arith;
          inside = omega arith;
          allocated = v.allocated;
          small = v.small;
        },
        sym (
            drop_all n (contents b)
              (omega (arith, length-contents b v, (==_iff (add32 b.read_pos n) b.write_pos).0 e))),
      )
      | inr e ↦
          rw (e, sum)
            (
              record {
                ordered = fits;
                inside = v.inside;
                allocated = v.allocated;
                small = v.small;
              },
              contents_rest b n,
            )
    ]
