-- ===== src/WebSocket/Parser/Unmasked.antt =====
-- A frame that is not masked, through the rounds of ParseBuffer.
use libiouring_server.Common.{
  ℕ, ◌+◌, ◌^◌, ◌≤◌, ◌<◌, ◌≡◌, ◌≢◌, refl, sym, subst, ◌∙◌, Bool, true, false, List, [], ◌∷◌, ◌++◌,
  length, arith, length-resize, append-nil, append_assoc,
}
use libiouring_server.WebSocket.Frame.{unmask, xor_from}
use libiouring_server.WebSocket.Parser.{
  header, mask_key, Machine, dispatch, read_mask, after_length, with_length, empty_frame,
  finish_frame, max_payload,
}
use libiouring_server.WebSocket.Parser.Rounds.{partial}
use libiouring_server.WebSocket.Parser.Runs.{Runs, more, append-ne-nil}
use libiouring_server.WebSocket.Parser.Headers.{
  announced, opened, opened-Runs, step_exact, not_zero,
}
use libiouring_server.WebSocket.Parser.Deliver.{
  Delivered, Expects, Expects-Delivered, step_payload_whole, finish_frame-Delivered,
  process_frame_final,
}
use libiouring_server.WebSocket.Wire.{mask_bit, length_bytes, server_frame}

-- From `m`, the bytes lead to `t` whatever comes behind them.
abbrev pub LeadsTo : Machine → List ℕ → Machine → Type 0
LeadsTo m bytes t =
    (rest : List ℕ) (q : Machine) (r : List ℕ) → Runs t rest q r → Runs m (bytes ++ rest) q r

-- The machine behind a header and a length that is not 0.
unfoldable pub loaded : Machine → ℕ → Bool → ℕ → Machine
loaded m opcode mk n = after_length (with_length n (record m { current = announced opcode mk }))

pub opened-loaded :
    (m : Machine) (opcode : ℕ) (mk : Bool) (n : ℕ)
    → 0 < n
    → opened m opcode mk n ≡ loaded m opcode mk n
unfolding loaded
opened-loaded m opcode mk n h = rw (not_zero n h)

pub loaded-Expects :
    (m : Machine) (opcode n : ℕ)
    → n < 2 ^ 64
    → Expects m opcode false (0 ∷ 0 ∷ 0 ∷ 0 ∷ []) n (loaded m opcode false n)
unfolding loaded after_length with_length
loaded-Expects m opcode n h = record {
  in_payload = refl;
  body = (omega arith, length-resize n 0 [], h);
  nothing_yet = refl;
  size = refl;
  final = refl;
  kind = refl;
  masking = refl;
  with_key = refl;
  same_failed = refl;
  same_events = refl;
}

pub read_mask-Expects :
    (m : Machine) (opcode n : ℕ) (key : List ℕ)
    → 0 < n
    → n < 2 ^ 64
    → Expects m opcode true key n (read_mask (loaded m opcode true n) key)
unfolding loaded after_length with_length read_mask
read_mask-Expects m opcode n key p h = rw (not_zero n p) (record {
  in_payload = refl;
  body = (omega arith, length-resize n 0 [], h);
  nothing_yet = refl;
  size = refl;
  final = refl;
  kind = refl;
  masking = refl;
  with_key = refl;
  same_failed = refl;
  same_events = refl;
})

pub payload-LeadsTo :
    (m p : Machine) (opcode : ℕ) (mk : Bool) (key bytes : List ℕ)
    → m.failed ≡ false
    → bytes ≢ []
    → Expects m opcode mk key (length bytes) p
    → LeadsTo p bytes (finish_frame (partial p bytes))
payload-LeadsTo m p opcode mk key bytes f n x rest q r k =
    more (append-ne-nil bytes rest n) (x.same_failed ∙ f)
      (step_payload_whole p bytes rest x.in_payload x.body x.nothing_yet (sym x.size)) k

-- An empty frame without a mask.
empty-Delivered :
    (m : Machine) (opcode : ℕ) → opcode ≢ 0 → Delivered m opcode [] (opened m opcode false 0)
unfolding empty_frame with_length
empty-Delivered m opcode o =
    let final =
      process_frame_final (record m { current = announced opcode false; payload_received = 0 }) refl
        o in
    record { ready = refl; running = final.0; reported = final.1 }

-- An empty frame with a mask.
pub read_mask-Delivered :
    (m : Machine) (opcode : ℕ) (key : List ℕ)
    → opcode ≢ 0
    → Delivered m opcode [] (read_mask (opened m opcode true 0) key)
unfolding empty_frame with_length read_mask
read_mask-Delivered m opcode key o =
    finish_frame-Delivered m _ opcode [] o refl refl (unfold unmask xor_from in refl) refl refl

pub LeadsTo-trans :
    {m t v : Machine} (xs ys : List ℕ) → LeadsTo m xs t → LeadsTo t ys v → LeadsTo m (xs ++ ys) v
LeadsTo-trans {m} xs ys a b rest q r k =
    subst (λ (z : List ℕ). Runs m z q r) (sym (append_assoc xs ys rest))
      (a (ys ++ rest) q r (b rest q r k))

-- A header and a length.
pub opened-LeadsTo :
    (m : Machine) (opcode n : ℕ) (mk : Bool)
    → m.state ≡ header
    → m.failed ≡ false
    → opcode < 16
    → n ≤ max_payload
    → LeadsTo m ((128 + opcode) ∷ length_bytes (mask_bit mk) n) (opened m opcode mk n)
opened-LeadsTo m opcode n mk s f h k rest q r run = opened-Runs m opcode n mk rest s f h k run

-- A masking key.
pub key-LeadsTo :
    (m p : Machine) (key : List ℕ)
    → p.state ≡ mask_key
    → p.failed ≡ false
    → length key ≡ 4
    → LeadsTo p key (read_mask p key)
key-LeadsTo m p [] s f l rest q r k = absurd (omega arith)
key-LeadsTo m p (b ∷ key) s f l rest q r k =
    more (λ z. cc) f
      (step_exact 4 mask_key read_mask p (b ∷ key) rest s (λ bs. unfold dispatch in refl) l) k

-- A machine at a frame's start.
pub record AtStart (m : Machine) : Type 0 where
  pub start : m.state ≡ header
  pub running : m.failed ≡ false

-- The frame leads the machine back to a frame's start, with the frame reported.
abbrev pub Passes : Machine → ℕ → List ℕ → List ℕ → Type 0
Passes m opcode text bytes = (t : Machine) × Delivered m opcode text t × LeadsTo m bytes t

pub server_frame-Passes :
    (m : Machine) (opcode : ℕ) (text : List ℕ)
    → AtStart m
    → opcode < 16
    → opcode ≢ 0
    → length text ≤ max_payload
    → Passes m opcode text (server_frame opcode text)
server_frame-Passes m opcode [] a h o l = (
  opened m opcode false 0,
  empty-Delivered m opcode o,
  subst (λ (z : List ℕ). LeadsTo m z (opened m opcode false 0))
      {x = (128 + opcode) ∷ length_bytes (mask_bit false) 0}
      (sym (append-nil ((128 + opcode) ∷ length_bytes (mask_bit false) 0)))
      (opened-LeadsTo m opcode 0 false a.start a.running h l),
)
server_frame-Passes m opcode (b ∷ bs) a h o l =
    let n = length (b ∷ bs) in
    let p = loaded m opcode false n in
    let x = loaded-Expects m opcode n (omega arith) in
    (
      finish_frame (partial p (b ∷ bs)),
      Expects-Delivered m p opcode false (0 ∷ 0 ∷ 0 ∷ 0 ∷ []) (b ∷ bs) o x,
      LeadsTo-trans ((128 + opcode) ∷ length_bytes (mask_bit false) n) (b ∷ bs)
          (subst (LeadsTo m ((128 + opcode) ∷ length_bytes (mask_bit false) n))
            (opened-loaded m opcode false n (omega arith))
            (opened-LeadsTo m opcode n false a.start a.running h l))
          (payload-LeadsTo m p opcode false (0 ∷ 0 ∷ 0 ∷ 0 ∷ []) (b ∷ bs) a.running (λ z. cc) x),
    )
