-- ===== src/WebSocket/Parser/Deliver.antt =====
-- Whole frames on the wire, and what is reported of them.
use mathlib.Core.Path.{ap₂}
use libiouring_server.Common.{
  ℕ, ◌+◌, ◌≤◌, min, ◌≡◌, ◌≢◌, refl, sym, ap, ◌∙◌, inl, inr, Bool, true, false, List, [], ◌∷◌, ◌++◌,
  length, arith, length-append, append-nil,
}
use libiouring_server.Common.Slices.{take-append_exact, drop-append_exact, blit, drop_all}
use libiouring_server.WebSocket.Frame.{WsFrame, unmask, xor_from}
use libiouring_server.WebSocket.Parser.{
  State, header, payload, Machine, frame, next, dispatch, step, remaining, read_payload,
  finish_frame, process_frame,
}
use libiouring_server.WebSocket.Parser.Rounds.{Body, partial, read_payload_cases, remaining_lem}

-- The machine is back at a frame's start, and has reported one frame more.
pub record Delivered (m : Machine) (opcode : ℕ) (text : List ℕ) (t : Machine) : Type 0 where
  pub ready : t.state ≡ header
  pub running : t.failed ≡ m.failed
  pub reported : t.events ≡ m.events ++ frame opcode text ∷ []

-- A frame that is not fragmented is reported as it is.
pub process_frame_final :
    (p : Machine)
    → p.current.fin ≡ true
    → p.current.opcode ≢ 0
    → ((process_frame p).failed ≡ p.failed)
      × ((process_frame p).events ≡ p.events ++ frame p.current.opcode p.current.payload ∷ [])
unfolding process_frame
process_frame_final p f o = ground arith

unmask_fields : (f : WsFrame) → ((unmask f).fin ≡ f.fin) × ((unmask f).opcode ≡ f.opcode)
unfolding unmask
unmask_fields f = ground arith

pub finish_frame-Delivered :
    (m p : Machine) (opcode : ℕ) (text : List ℕ)
    → opcode ≢ 0
    → p.current.fin ≡ true
    → p.current.opcode ≡ opcode
    → (unmask p.current).payload ≡ text
    → p.failed ≡ m.failed
    → p.events ≡ m.events
    → Delivered m opcode text (finish_frame p)
finish_frame-Delivered m p opcode text o f c t e v =
    let q = record p { current = unmask p.current } in
    let fields = unmask_fields p.current in
    let final = process_frame_final q (fields.0 ∙ f) (λ z. o (sym (fields.1 ∙ c) ∙ z)) in
    let op : q.current.opcode ≡ opcode = fields.1 ∙ c in
    unfold finish_frame in
    record {
      ready = refl;
      running = final.0 ∙ e;
      reported = final.1 ∙ ap₂ ◌++◌ v (ap₂ (λ (a : ℕ) (b : List ℕ). frame a b ∷ []) op t);
    }

-- A payload that has come whole.
blit_whole : (zs ys : List ℕ) → length ys ≡ length zs → blit zs 0 ys ≡ ys
blit_whole zs ys h =
    ap (λ (r : List ℕ). ys ++ r) (drop_all (0 + length ys) zs (omega arith)) ∙ append-nil ys

min_whole : (a b c : ℕ) → b ≤ a → c ≡ b → min c a ≡ b
min_whole a b c h e = omega arith

read_payload_whole :
    (p : Machine) (bytes : List ℕ)
    → Body p
    → p.payload_received ≡ 0
    → length bytes ≡ p.current.payload_length
    → read_payload p bytes ≡ finish_frame (partial p bytes)
read_payload_whole p bytes v z l = elim (read_payload_cases p bytes v (omega arith)) [
  | inl (e, r) ↦ r
  | inr (e, r) ↦ absurd (omega arith)
]

pub step_payload_whole :
    (p : Machine) (bytes rest : List ℕ)
    → p.state ≡ payload
    → Body p
    → p.payload_received ≡ 0
    → length bytes ≡ p.current.payload_length
    → step p (bytes ++ rest) ≡ next (finish_frame (partial p bytes)) rest
step_payload_whole p bytes rest s v z l =
    let rem : remaining p ≡ length bytes = omega (arith, remaining_lem p v) in
    let count =
      min_whole (length (bytes ++ rest)) (length bytes) (remaining p)
        (omega (arith, length-append bytes rest)) rem in
    unfold step in
    (ap (λ (x : State). dispatch x p (bytes ++ rest)) s
      ∙ unfold dispatch in
        rw (
          count,
          take-append_exact (length bytes) bytes rest refl,
          drop-append_exact (length bytes) bytes rest refl,
          read_payload_whole p bytes v z l,
        ))

-- A machine in front of the payload of a frame that goes back to `m`.
pub record Expects (m : Machine) (opcode : ℕ) (mk : Bool) (key : List ℕ) (n : ℕ) (p : Machine)
    : Type 0 where
  pub in_payload : p.state ≡ payload
  pub body : Body p
  pub nothing_yet : p.payload_received ≡ 0
  pub size : p.current.payload_length ≡ n
  pub final : p.current.fin ≡ true
  pub kind : p.current.opcode ≡ opcode
  pub masking : p.current.masked ≡ mk
  pub with_key : p.current.masking_key ≡ key
  pub same_failed : p.failed ≡ m.failed
  pub same_events : p.events ≡ m.events

-- What `bytes` stand for under a mask.
abbrev pub plain : Bool → List ℕ → List ℕ → List ℕ
plain true key bytes = xor_from 0 key bytes
plain false key bytes = bytes

unmask-payload :
    (f : WsFrame) (mk : Bool) (key bytes : List ℕ)
    → f.masked ≡ mk
    → f.masking_key ≡ key
    → f.payload ≡ bytes
    → (unmask f).payload ≡ plain mk key bytes
unfolding unmask
unmask-payload f true key bytes h k l = rw (h, k, l)
unmask-payload f false key bytes h k l = rw (h, l)

pub Expects-Delivered :
    (m p : Machine) (opcode : ℕ) (mk : Bool) (key bytes : List ℕ)
    → opcode ≢ 0
    → Expects m opcode mk key (length bytes) p
    → Delivered m opcode (plain mk key bytes) (finish_frame (partial p bytes))
Expects-Delivered m p opcode mk key bytes o x =
    finish_frame-Delivered m (partial p bytes) opcode (plain mk key bytes) o x.final x.kind
      (unmask-payload (partial p bytes).current mk key bytes x.masking x.with_key (
        ap (λ (k : ℕ). blit p.current.payload k bytes) x.nothing_yet
        ∙ blit_whole p.current.payload bytes (omega (arith, x.size, x.body))))
      x.same_failed x.same_events
