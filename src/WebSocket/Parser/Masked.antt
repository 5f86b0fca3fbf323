-- ===== src/WebSocket/Parser/Masked.antt =====
-- A frame that is masked, through the rounds of ParseBuffer.
use libiouring_server.Common.{
  ℕ, ◌+◌, ◌≤◌, ◌<◌, ◌≡◌, ◌≢◌, refl, sym, subst, ◌∙◌, true, List, [], ◌∷◌, ◌++◌, length, All, arith,
  append-nil,
}
use libiouring_server.WebSocket.Frame.{xor_from}
use libiouring_server.WebSocket.Parser.{
  mask_key, Machine, read_mask, after_length, with_length, empty_frame, finish_frame, max_payload,
}
use libiouring_server.WebSocket.Parser.Rounds.{partial}
use libiouring_server.WebSocket.Parser.Headers.{opened}
use libiouring_server.WebSocket.Parser.Deliver.{Expects-Delivered}
use libiouring_server.WebSocket.Wire.{
  mask_bit, length_bytes, client_frame, xor_from_twice, length-xor_from,
}
use libiouring_server.WebSocket.Parser.Unmasked.{
  LeadsTo, loaded, opened-loaded, read_mask-Expects, payload-LeadsTo, read_mask-Delivered,
  LeadsTo-trans, opened-LeadsTo, key-LeadsTo, AtStart, Passes,
}

loaded-state : (m : Machine) (opcode n : ℕ) → (loaded m opcode true n).state ≡ mask_key
unfolding loaded after_length with_length
loaded-state m opcode n = refl

loaded-failed : (m : Machine) (opcode n : ℕ) → (loaded m opcode true n).failed ≡ m.failed
unfolding loaded after_length with_length
loaded-failed m opcode n = refl

opened-empty : (m : Machine) (opcode : ℕ) → (opened m opcode true 0).state ≡ mask_key
unfolding empty_frame with_length
opened-empty m opcode = refl

opened-failed : (m : Machine) (opcode : ℕ) → (opened m opcode true 0).failed ≡ m.failed
unfolding empty_frame with_length
opened-failed m opcode = refl

-- A client's frame: an opcode, a masking key of four bytes, and bytes that fit the limit.
pub record ClientFrame : Type 0 where
  pub opcode : ℕ
  pub key : List ℕ
  pub text : List ℕ

pub record IsSendable (f : ClientFrame) : Type 0 where
  pub in_range : f.opcode < 16
  pub not_continuation : f.opcode ≢ 0
  pub four : length f.key ≡ 4
  pub key_bytes : All (λ k. k < 256) f.key
  pub text_bytes : All (λ b. b < 256) f.text
  pub fits : length f.text ≤ max_payload

masked_frame-Passes :
    (m : Machine) (opcode : ℕ) (key bytes : List ℕ)
    → AtStart m
    → opcode < 16
    → opcode ≢ 0
    → length key ≡ 4
    → length bytes ≤ max_payload
    → Passes m opcode
        (xor_from 0 key bytes)
        (((128 + opcode) ∷ length_bytes (mask_bit true) (length bytes)) ++ (key ++ bytes))
masked_frame-Passes m opcode key [] a h o k l =
    let p = opened m opcode true 0 in
    (
      read_mask p key,
      unfold xor_from in read_mask-Delivered m opcode key o,
      LeadsTo-trans ((128 + opcode) ∷ length_bytes (mask_bit true) 0) (key ++ [])
          (opened-LeadsTo m opcode 0 true a.start a.running h l)
          (subst (λ (z : List ℕ). LeadsTo p z (read_mask p key)) {x = key} (sym (append-nil key))
            (key-LeadsTo m p key (opened-empty m opcode) (opened-failed m opcode ∙ a.running) k)),
    )
masked_frame-Passes m opcode key (b ∷ bs) a h o k l =
    let n = length (b ∷ bs) in
    let first = loaded m opcode true n in
    let p = read_mask first key in
    let x = read_mask-Expects m opcode n key (omega arith) (omega arith) in
    (
      finish_frame (partial p (b ∷ bs)),
      Expects-Delivered m p opcode true key (b ∷ bs) o x,
      LeadsTo-trans ((128 + opcode) ∷ length_bytes (mask_bit true) n) (key ++ b ∷ bs)
          (subst (LeadsTo m ((128 + opcode) ∷ length_bytes (mask_bit true) n))
            (opened-loaded m opcode true n (omega arith))
            (opened-LeadsTo m opcode n true a.start a.running h l))
          (LeadsTo-trans key (b ∷ bs)
            (key-LeadsTo m first key (loaded-state m opcode n)
              (loaded-failed m opcode n ∙ a.running) k)
            (payload-LeadsTo m p opcode true key (b ∷ bs) a.running (λ z. cc) x)),
    )

-- Unmasking gives the client's bytes.
pub client_frame-Passes :
    (m : Machine) (f : ClientFrame)
    → AtStart m
    → IsSendable f
    → Passes m f.opcode f.text (client_frame f.opcode f.key f.text)
client_frame-Passes m f a s =
    let same = length-xor_from 0 f.key f.text in
    let wire =
      masked_frame-Passes m f.opcode f.key (xor_from 0 f.key f.text) a s.in_range s.not_continuation
        s.four (omega (arith, same, s.fits)) in
    subst (λ (z : List ℕ). Passes m f.opcode z (client_frame f.opcode f.key f.text))
      (xor_from_twice 0 f.key f.text s.key_bytes s.text_bytes)
      (subst
        (λ (n : ℕ). Passes m f.opcode (xor_from 0 f.key (xor_from 0 f.key f.text)) (
          ((128 + f.opcode) ∷ length_bytes (mask_bit true) n)
          ++ (f.key ++ xor_from 0 f.key f.text)))
        same wire)
