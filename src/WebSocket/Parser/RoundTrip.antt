-- ===== src/WebSocket/Parser/RoundTrip.antt =====
-- Sequences of frames through Feed, and the frames that WsFrameBuilder.cpp builds.
use libiouring_server.Common.{
  ℕ, ◌+◌, ◌≤◌, ◌≡◌, refl, sym, ap, subst, ◌∙◌, inl, inr, Bool, true, List, [], ◌∷◌, ◌++◌, map,
  length, All, arith, ltb, leb, le→leb, Bool-cases, length-append, append-nil, append_assoc,
}
use libiouring_server.Common.Word.{u32}
use libiouring_server.WebSocket.Parser.{
  State, Machine, WsFrameParser, Event, frame, feed, max_payload,
}
use libiouring_server.WebSocket.Parser.Rounds.{Sized, IsValid}
use libiouring_server.WebSocket.Parser.Runs.{Runs, stop, Runs-unique}
use libiouring_server.WebSocket.Parser.Deliver.{Delivered}
use libiouring_server.WebSocket.Parser.Feed.{feed-Runs}
use libiouring_server.WebSocket.Parser.Unmasked.{
  LeadsTo, LeadsTo-trans, AtStart, server_frame-Passes,
}
use libiouring_server.WebSocket.Parser.Masked.{ClientFrame, IsSendable, client_frame-Passes}
use libiouring_server.WebSocket.Wire.{length_bytes, server_frame, client_frame, length-be_bytes}
use libiouring_server.WebSocket.Builder.{built, header_size, header_bytes, build_ws_text_frame}

-- The bytes of frames that a client sends one after the other.
abbrev pub wire : List ClientFrame → List ℕ
wire [] = []
wire (f ∷ fs) = client_frame f.opcode f.key f.text ++ wire fs

abbrev pub report : ClientFrame → Event
report f = frame f.opcode f.text

pub Delivered-AtStart :
    (m : Machine) (opcode : ℕ) (text : List ℕ) (t : Machine)
    → AtStart m
    → Delivered m opcode text t
    → AtStart t
Delivered-AtStart m opcode text t a d = record { start = d.ready; running = d.running ∙ a.running }

wire-LeadsTo :
    (m : Machine) (fs : List ClientFrame)
    → AtStart m
    → All IsSendable fs
    → (t : Machine) × AtStart t × (t.events ≡ m.events ++ map report fs) × LeadsTo m (wire fs) t
wire-LeadsTo m [] a s = (m, a, sym (append-nil m.events), λ rest q r k. k)
wire-LeadsTo m (f ∷ fs) a s =
    let (t, d, l) = client_frame-Passes m f a s.0 in
    let (u, b, e, k) = wire-LeadsTo t fs (Delivered-AtStart m f.opcode f.text t a d) s.1 in
    (
      u,
      b,
      e
          ∙ ap (λ (z : List Event). z ++ map report fs) d.reported
          ∙ append_assoc m.events (report f ∷ []) (map report fs),
      LeadsTo-trans (client_frame f.opcode f.key f.text) (wire fs) l k,
    )

AtStart-IsValid : (m : Machine) → AtStart m → IsValid m
AtStart-IsValid m a = subst (λ (s : State). Sized s m) (sym a.start) tt

-- The parser at a frame's start, after it has read bytes that lead to `t`.
pub feed-LeadsTo :
    (p : WsFrameParser) (bytes : List ℕ) (t : Machine)
    → AtStart p.machine
    → p.buffer ≡ []
    → LeadsTo p.machine bytes t
    → ((feed p bytes).machine ≡ t) × ((feed p bytes).buffer ≡ [])
feed-LeadsTo p bytes t a b l =
    Runs-unique
      (subst
        (λ (z : List ℕ). Runs p.machine (z ++ bytes) (feed p bytes).machine (feed p bytes).buffer) b
        (feed-Runs p bytes (AtStart-IsValid p.machine a) a.running))
      (subst (λ (z : List ℕ). Runs p.machine z t []) (append-nil bytes)
        (l [] t [] (stop (inl refl) refl refl)))

-- For a parser at a frame's start with nothing buffered, and whole frames: FIN set (so no fragments),
-- an opcode of four bits that is not 0, a masking key, and a payload of at most 16 MiB whose length
-- is written in the shortest form. After Feed of their bytes every frame has been reported once, in
-- order, with its opcode and its unmasked payload, and the parser is again at a frame's start with
-- nothing buffered.
pub feed-wire :
    (p : WsFrameParser) (fs : List ClientFrame)
    → AtStart p.machine
    → p.buffer ≡ []
    → All IsSendable fs
    → ((feed p (wire fs)).machine.events ≡ p.machine.events ++ map report fs)
      × AtStart (feed p (wire fs)).machine
      × ((feed p (wire fs)).buffer ≡ [])
feed-wire p fs a b s =
    let (t, c, e, l) = wire-LeadsTo p.machine fs a s in
    let (m, r) = feed-LeadsTo p (wire fs) t a b l in
    (ap (λ (z : Machine). z.events) m ∙ e, subst AtStart (sym m) c, r)

-- The builder's header is the header of a text frame without a mask.
header_bytes_lem : (n : ℕ) → header_bytes n ≡ (128 + 1) ∷ length_bytes 0 n
unfolding header_bytes
header_bytes_lem n = elim (Bool-cases (ltb n 126)) [
  | inl e ↦ rw e (ap (λ (k : ℕ). 129 ∷ k ∷ []) (zero_plus n))
  | inr e ↦ elim (Bool-cases (leb n 65535)) [ inl f ↦ rw (e, f) | inr f ↦ rw (e, f) ]
]
  where
    zero_plus : (n : ℕ) → n ≡ 0 + n
    zero_plus n = omega arith

length-header_bytes : (n : ℕ) → length (header_bytes n) ≡ header_size n
unfolding header_bytes header_size
length-header_bytes n = ground (arith, length-be_bytes 8 n)

pub header_size-le : (n : ℕ) → header_size n ≤ 10
unfolding header_size
header_size-le n = ground arith

-- A frame of the builder is built where the pool has room for it.
build_lem :
    (allocate : ℕ → Bool) (text : List ℕ)
    → length text ≤ max_payload
    → allocate (u32 (header_size (length text) + length text)) ≡ true
    → build_ws_text_frame allocate text ≡ built (header_bytes (length text) ++ text)
unfolding build_ws_text_frame
build_lem allocate text h a =
    let size : length (header_bytes (length text) ++ text)
        ≤ u32 (header_size (length text) + length text) =
      omega (
        arith,
        length-append (header_bytes (length text)) text,
        length-header_bytes (length text),
        header_size-le (length text),
      ) in
    rw (
      a,
      le→leb (length (header_bytes (length text) ++ text))
          (u32 (header_size (length text) + length text)) size,
    )

-- For a text of at most 16 MiB and a pool that hands out a buffer of the size asked for:
-- BuildWsTextFrame builds a frame, and a parser at a frame's start with nothing buffered reports
-- it as one text frame with the same text and is again at a frame's start with nothing buffered.
pub feed-build_ws_text_frame :
    (p : WsFrameParser) (allocate : ℕ → Bool) (text : List ℕ)
    → AtStart p.machine
    → p.buffer ≡ []
    → length text ≤ max_payload
    → allocate (u32 (header_size (length text) + length text)) ≡ true
    → (bytes : List ℕ) × (build_ws_text_frame allocate text ≡ built bytes)
      × ((feed p bytes).machine.events ≡ p.machine.events ++ frame 1 text ∷ [])
      × AtStart (feed p bytes).machine
      × ((feed p bytes).buffer ≡ [])
feed-build_ws_text_frame p allocate text a b h ok =
    let (t, d, l) = server_frame-Passes p.machine 1 text a (omega arith) (omega arith) h in
    let bytes : header_bytes (length text) ++ text ≡ server_frame 1 text =
      ap (λ (z : List ℕ). z ++ text) (header_bytes_lem (length text)) in
    let (m, r) = feed-LeadsTo p (server_frame 1 text) t a b l in
    (
      server_frame 1 text,
      build_lem allocate text h ok ∙ ap built bytes,
      ap (λ (z : Machine). z.events) m ∙ d.reported,
      subst AtStart (sym m) (Delivered-AtStart p.machine 1 text t a d),
      r,
    )
