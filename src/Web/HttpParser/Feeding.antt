-- ===== src/Web/HttpParser/Feeding.antt =====
-- Feed, whatever llhttp makes of the bytes.
use libiouring_server.Common.{
  ℕ, zero, suc, ◌+◌, ◌≤◌, ◌<◌, ◌≡◌, refl, sym, subst, ◌⊎◌, inl, inr, Bool, true, false, not, List,
  [], ◌∷◌, ◌++◌, Option, some, length, drop, length-drop, All, Bool-cases, arith,
}
use libiouring_server.Web.Request.{HttpRequest}
use libiouring_server.Web.HttpParser.{
  Callback, message_complete, IsInner, Errno, hpe_ok, hpe_paused, hpe_error, Llhttp, Stops,
  IsLlhttp, HttpParser, Answered, Fed, called, on_message_complete, all_called, after_execute,
  executed, feed_loop, feed_parser,
}

-- What holds of the error and the owner, with what the callback keeps of it.
pub record IsKept {X : Type 0} (on_request : HttpRequest → X → Answered X) (P : Bool → X → Type 0)
    : Type 0 where
  pub asked :
      (r : HttpRequest) (x : X) → P false x → P (not (on_request r x).cont) (on_request r x).owner
  pub failing : (x : X) → P false x → P true x

module _ {S X : Type 0} (on_request : HttpRequest → X → Answered X) where
  -- Only on_message_complete touches the error and the owner.
  pub called-IsInner :
      (c : Callback) (p : HttpParser S) (x : X)
      → IsInner c
      → ((called on_request c p x).0.error ≡ p.error) × ((called on_request c p x).1 ≡ x)
  unfolding called
  called-IsInner Callback.message_begin p x h = (refl, refl)
  called-IsInner Callback.url_complete p x h = (refl, refl)
  called-IsInner Callback.header_field_complete p x h = (refl, refl)
  called-IsInner Callback.header_value_complete p x h = (refl, refl)
  called-IsInner message_complete p x h = absurd (h refl)
  called-IsInner (Callback.url at) p x h = (refl, refl)
  called-IsInner (Callback.header_field at) p x h = (refl, refl)
  called-IsInner (Callback.header_value at) p x h = (refl, refl)
  called-IsInner (Callback.body at) p x h = (refl, refl)
  called-IsInner (Callback.headers_complete method keep) p x h = (refl, refl)

  module _ (P : Bool → X → Type 0) where
    pub all_called-IsInner :
        (cs : List Callback) (p : HttpParser S) (x : X)
        → All IsInner cs
        → P p.error x
        → P (all_called on_request cs p x).0.error (all_called on_request cs p x).1
    unfolding all_called
    all_called-IsInner [] p x h k = k
    all_called-IsInner (c ∷ cs) p x h k =
        let e = called-IsInner c p x h.0 in
        all_called-IsInner cs (called on_request c p x).0 (called on_request c p x).1 h.1
          (rw (e.0, e.1) k)

    all_called-message :
        IsKept on_request P
        → (cs : List Callback) (p : HttpParser S) (x : X) → All IsInner cs
        → p.error ≡ false
        → P false x
        → P
            (all_called on_request (cs ++ message_complete ∷ []) p x).0.error
            (all_called on_request (cs ++ message_complete ∷ []) p x).1
    unfolding all_called called on_message_complete
    all_called-message kept [] p x h e k = elim (Bool-cases (on_request p.request x).cont) [
      | inl c ↦
          rw (c, e)
            (subst (λ b. P (not b) (on_request p.request x).owner) c (kept.asked p.request x k))
      | inr c ↦
          rw c (subst (λ b. P (not b) (on_request p.request x).owner) c (kept.asked p.request x k))
    ]
    all_called-message kept (c ∷ cs) p x h e k =
        let f = called-IsInner c p x h.0 in
        all_called-message kept cs (called on_request c p x).0 (called on_request c p x).1 h.1
          (rw f.0 e) (rw f.1 k)

module _ (l : Llhttp) {X : Type 0} (on_request : HttpRequest → X → Answered X) where
  pub feed_loop-executed :
      (n len current b : ℕ) (bs : List ℕ) (p : HttpParser l.State) (x : X)
      → p.error ≡ false
      → feed_loop l on_request (suc n) len current (b ∷ bs) p x
        ≡ executed l (feed_loop l on_request n len) on_request len current (b ∷ bs) p x
  unfolding feed_loop
  feed_loop-executed n len current b bs p x e = rw e refl

module _ (l : Llhttp) (law : IsLlhttp l) {X : Type 0} (on_request : HttpRequest → X → Answered X)
    (P : Bool → X → Type 0) (kept : IsKept on_request P) where
  -- Feed has taken all of the input, or has failed.
  abbrev Fine : ℕ → Option (Fed l.State X) → Type 0
  Fine len o =
      (fed : Fed l.State X) × (o ≡ some fed)
      × ((fed.parser.error ≡ true) ⊎ (fed.consumed ≡ len))
      × P fed.parser.error fed.owner

  after_execute-Fine :
      (go : ℕ → List ℕ → HttpParser l.State → X → Option (Fed l.State X))
      → (len current : ℕ) (remaining : List ℕ)
      → ((n : ℕ) (p : HttpParser l.State) (x : X)
          → 0 < n
          → n ≤ length remaining
          → P p.error x
          → Fine len (go (current + n) (drop n remaining) p x))
      → (calls : List Callback) (err : Errno) (s : l.State) (p : HttpParser l.State) (x : X)
      → Stops remaining calls err
      → p.error ≡ false
      → P false x
      → Fine len (
          after_execute l go len current remaining err
            (record (all_called on_request calls p x).0 { parser = s })
            (all_called on_request calls p x).1)
  unfolding after_execute
  after_execute-Fine go len current remaining more calls hpe_ok s p x stops e k =
      (_, refl, inr refl, all_called-IsInner on_request P calls p x stops (rw e k))
  after_execute-Fine go len current remaining more calls (hpe_paused n) s p x stops e k =
      more n _ _ stops.3 stops.4 (
        subst (λ cs. P (all_called on_request cs p x).0.error (all_called on_request cs p x).1)
          (sym stops.1) (all_called-message on_request P kept stops.0 p x stops.2 e k))
  after_execute-Fine go len current remaining more calls (hpe_error n) s p x stops e k = (
    _,
    refl,
    inl refl,
    fails (all_called on_request calls p x)
        (all_called-IsInner on_request P calls p x stops (rw e k)),
  )
    where
      fails : (r : HttpParser l.State × X) → P r.0.error r.1 → P true r.1
      fails r h = elim (Bool-cases r.0.error) [
        | inl f ↦ subst (λ b. P b r.1) f h
        | inr f ↦ kept.failing r.1 (subst (λ b. P b r.1) f h)
      ]

  -- A round that goes on takes a byte, so as many rounds as bytes are enough.
  feed_loop-Fine :
      (n len current : ℕ) (remaining : List ℕ) (p : HttpParser l.State) (x : X)
      → length remaining ≤ n
      → current + length remaining ≡ len
      → P p.error x
      → Fine len (feed_loop l on_request n len current remaining p x)
  unfolding feed_loop executed
  feed_loop-Fine n len current [] p x h e k = (_, refl, inr (omega arith), k)
  feed_loop-Fine zero len current (b ∷ bs) p x h e k = absurd (omega arith)
  feed_loop-Fine (suc n) len current (b ∷ bs) p x h e k = elim (Bool-cases p.error) [
    | inl f ↦ (record { consumed = current; parser = p; owner = x }, rw f refl, inl f, k)
    | inr f ↦
        let run = l.llhttp_execute p.parser (b ∷ bs) in
        subst (Fine len) (sym (feed_loop-executed l on_request n len current b bs p x f)) (
          after_execute-Fine (feed_loop l on_request n len) len current (b ∷ bs)
            (λ m p' x' pos le kept'.
              feed_loop-Fine n len (current + m) (drop m (b ∷ bs)) p' x'
                (omega (arith, length-drop m (b ∷ bs))) (omega (arith, length-drop m (b ∷ bs)))
                kept')
            run.0 run.1 run.2 p x (law.stops p.parser (b ∷ bs)) f (subst (λ e'. P e' x) f k))
  ]

  -- Feed ends. What holds of the error and the owner, and is kept by the callback, holds behind it,
  -- and where no error is left all of the input has been taken.
  pub feed_parser-Fine :
      (input : List ℕ) (p : HttpParser l.State) (x : X)
      → P p.error x
      → (((feed_parser l on_request input p x).parser.error ≡ true)
          ⊎ ((feed_parser l on_request input p x).consumed ≡ length input))
        × P
            (feed_parser l on_request input p x).parser.error
            (feed_parser l on_request input p x).owner
  unfolding feed_parser
  feed_parser-Fine input p x k =
      let (fed, e, taken, k') =
        feed_loop-Fine (length input) (length input) 0 input p x (omega arith) (omega arith) k in
      rw (e, feed_parser) (taken, k')
