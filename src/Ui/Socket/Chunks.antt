-- ===== src/Ui/Socket/Chunks.antt =====
-- Messages however the connection splits them.
use hs_financial_services.Common.{
  ℕ, zero, suc, ◌-◌, ◌≤◌, ◌<◌, ◌≡◌, ◌≢◌, refl, ap, sym, ◌∙◌, true, false, some, [], ◌∷◌, ◌++◌,
  append_assoc, append-nil, ltb, leb, length, length-append, take, drop, take-append, drop-append,
  All, arith, inl, inr, Bool-cases, ◌⊎◌,
}
use hs_financial_services.Common.Text.{Bytes}
use hs_financial_services.Ui.Wire.{decode_header}
use hs_financial_services.Ui.Socket.{
  Accepts, send_all, Arrivals, recv, recv_loop, recv_all, recv_payload, after_header, recv_msg,
  max_payload,
}

-- All that arrives, in one piece.
abbrev pub joined : Arrivals → Bytes
joined [] = []
joined (piece ∷ pieces) = piece ++ joined pieces

-- The connection does not end within the pieces.
abbrev pub IsOpen : Arrivals → Type 0
IsOpen = All (λ piece. piece ≢ [])

take-drop : (n : ℕ) (v : Bytes) → take n v ++ drop n v ≡ v
take-drop zero v = refl
take-drop (suc n) [] = refl
take-drop (suc n) (c ∷ v) = ap (◌∷◌ c) (take-drop n v)

-- What a send leaves unsent: nothing if it succeeds, and something if it fails.
send_all-unsent :
    (data_ : Bytes) (accepts : Accepts)
    → (rest : Bytes) × ((send_all data_ accepts).1 ++ rest ≡ data_)
      × ((send_all data_ accepts).0 ≡ true → rest ≡ [])
      × ((send_all data_ accepts).0 ≡ false → rest ≢ [])
unfolding send_all
send_all-unsent [] accepts = ([], refl, λ h. refl, λ h e. ground arith)
send_all-unsent (b ∷ data_) [] = (b ∷ data_, refl, λ h. ground arith, λ h e. ground arith)
send_all-unsent (b ∷ data_) (zero ∷ accepts) =
    (b ∷ data_, refl, λ h. ground arith, λ h e. ground arith)
send_all-unsent (b ∷ data_) (suc n ∷ accepts) =
    let (rest, e, all, some_) = send_all-unsent (drop n data_) accepts in
    (
      rest,
      ap (◌∷◌ b) (
          append_assoc (take n data_) (send_all (drop n data_) accepts).1 rest
          ∙ ap (λ v. take n data_ ++ v) e
          ∙ take-drop n data_),
      all,
      some_,
    )

-- A send ends on every behaviour of the socket. If it reports success then exactly the data was sent,
-- in its order; if it reports failure then a beginning of the data was sent, and not all of it.
pub send_all-sent :
    (data_ : Bytes) (accepts : Accepts)
    → (((send_all data_ accepts).0 ≡ true) × ((send_all data_ accepts).1 ≡ data_))
      ⊎ (((send_all data_ accepts).0 ≡ false)
          × (rest : Bytes) × (rest ≢ [])
          × ((send_all data_ accepts).1 ++ rest ≡ data_))
send_all-sent data_ accepts =
    let (rest, e, all, some_) = send_all-unsent data_ accepts in
    elim (Bool-cases (send_all data_ accepts).0) [
      | inl t ↦
          inl (t, sym (append-nil _) ∙ ap (λ v. (send_all data_ accepts).1 ++ v) (sym (all t)) ∙ e)
      | inr f ↦ inr (f, rest, some_ f, e)
    ]

split :
    (xs ys zs ws : Bytes)
    → xs ++ ys ≡ zs ++ ws
    → length xs ≤ length zs
    → (mid : Bytes) × (zs ≡ xs ++ mid) × (ys ≡ mid ++ ws)
split [] ys zs ws e h = (zs, refl, e)
split (x ∷ xs) ys [] ws e h = absurd (omega arith)
split (x ∷ xs) ys (z ∷ zs) ws e h =
    let same : x ≡ z = cc in
    let behind : xs ++ ys ≡ zs ++ ws = cc in
    let (mid, p, q) = split xs ys zs ws behind (omega arith) in (mid, cc, q)

recv_whole :
    (max c : ℕ) (piece : Bytes) (pieces : Arrivals)
    → leb (length (c ∷ piece)) max ≡ true
    → recv max ((c ∷ piece) ∷ pieces) ≡ (some (c ∷ piece), pieces)
unfolding recv
recv_whole max c piece pieces h = rw h

recv_part :
    (max c : ℕ) (piece : Bytes) (pieces : Arrivals)
    → leb (length (c ∷ piece)) max ≡ false
    → recv max ((c ∷ piece) ∷ pieces) ≡ (some (take max (c ∷ piece)), drop max (c ∷ piece) ∷ pieces)
unfolding recv
recv_part max c piece pieces h = rw h

recv_loop-step :
    (fuel n : ℕ) (data_ got : Bytes) (pieces pieces' : Arrivals)
    → recv (suc n) pieces ≡ (some got, pieces')
    → recv_loop (suc fuel) (suc n) data_ pieces
      ≡ recv_loop fuel (suc n - length got) (data_ ++ got) pieces'
unfolding recv_loop
recv_loop-step fuel n data_ got pieces pieces' h =
    let answer = ap (λ q. q.0) h in let left = ap (λ q. q.1) h in rw (answer, recv_loop) (rw left)

abbrev Receives : ℕ → Bytes → Bytes → Bytes → Arrivals → Type 0
Receives fuel data_ bytes rest pieces =
    (pieces' : Arrivals) × (recv_loop fuel (length bytes) data_ pieces
      ≡ (some (data_ ++ bytes), pieces'))
    × IsOpen pieces'
    × (joined pieces' ≡ rest)

recv_loop-joined :
    (fuel : ℕ) (bytes rest data_ : Bytes) (pieces : Arrivals)
    → IsOpen pieces
    → joined pieces ≡ bytes ++ rest
    → length bytes ≤ fuel
    → Receives fuel data_ bytes rest pieces
unfolding recv_loop
recv_loop-joined fuel [] rest data_ pieces h e le = (pieces, rw (append-nil data_), h, e)
recv_loop-joined zero (b ∷ bytes) rest data_ pieces h e le = absurd (omega arith)
recv_loop-joined (suc fuel) (b ∷ bytes) rest data_ [] h e le = absurd cc
recv_loop-joined (suc fuel) (b ∷ bytes) rest data_ ([] ∷ pieces) h e le = absurd (h.0 refl)
recv_loop-joined (suc fuel) (b ∷ bytes) rest data_ ((c ∷ piece) ∷ pieces) h e le =
    let got = c ∷ piece in
    let n = length bytes in
    elim (Bool-cases (leb (length got) (suc n))) [
      | inl t ↦
          let (mid, p, q) = split got (joined pieces) (b ∷ bytes) rest e (ground arith) in
          let left : suc n - length got ≡ length mid =
            omega (arith, ap length p, length-append got mid) in
          let (pieces', f, o, j) =
            recv_loop-joined fuel mid rest (data_ ++ got) pieces h.1 q
              (omega (arith, ap length p, length-append got mid)) in
          (
            pieces',
            recv_loop-step fuel n data_ got (got ∷ pieces) pieces
                  (recv_whole (suc n) c piece pieces t)
                ∙ ap (λ k. recv_loop fuel k (data_ ++ got) pieces) left
                ∙ f
                ∙ ap (λ v. (some v, pieces'))
                    (append_assoc data_ got mid ∙ ap (λ v. data_ ++ v) (sym p)),
            o,
            j,
          )
      | inr t ↦
          let longer : suc n < length got = ground arith in
          let (mid, p, q) = split (b ∷ bytes) rest got (joined pieces) (sym e) (ground arith) in
          let beginning : take (suc n) got ≡ b ∷ bytes =
            ap (take (suc n)) p ∙ take-append (b ∷ bytes) mid in
          let remains : drop (suc n) got ≡ mid =
            ap (drop (suc n)) p ∙ drop-append (b ∷ bytes) mid in
          let nonempty : mid ≢ [] = λ empty.
            omega (arith, ap length p, length-append (b ∷ bytes) mid, ap length empty, longer) in
          let nothing_left : suc n - length (b ∷ bytes) ≡ 0 = omega arith in
          (
            mid ∷ pieces,
            recv_loop-step fuel n data_ (b ∷ bytes) (got ∷ pieces) (mid ∷ pieces) (
                  recv_part (suc n) c piece pieces t
                  ∙ ap (λ v. (some v, drop (suc n) got ∷ pieces)) beginning
                  ∙ ap (λ v. (some (b ∷ bytes), v ∷ pieces)) remains)
                ∙ ap (λ k. recv_loop fuel k (data_ ++ (b ∷ bytes)) (mid ∷ pieces)) nothing_left,
            (nonempty, h.1),
            sym q,
          )
    ]

-- Receiving `len` bytes yields the next `len` bytes of the connection, in however many pieces of
-- whatever sizes they arrive, and leaves the bytes behind them to be received.
pub recv_all-joined :
    (bytes rest : Bytes) (pieces : Arrivals)
    → IsOpen pieces
    → joined pieces ≡ bytes ++ rest
    → (pieces' : Arrivals) × (recv_all (length bytes) pieces ≡ (some bytes, pieces'))
      × IsOpen pieces'
      × (joined pieces' ≡ rest)
unfolding recv_all
recv_all-joined bytes rest pieces h e =
    recv_loop-joined (length bytes) bytes rest [] pieces h e (omega arith)

-- A message that arrives in pieces of whatever sizes is received whole, if its header reads as the
-- type and the size of the payload and that is not over the limit: the client gets the type and the
-- payload, and the bytes behind the message stay for the next receive.
pub recv_msg-joined :
    (header payload rest : Bytes) (type : ℕ) (pieces : Arrivals)
    → length header ≡ 8
    → decode_header header ≡ (length payload, type)
    → length payload ≤ max_payload
    → IsOpen pieces
    → joined pieces ≡ header ++ (payload ++ rest)
    → (pieces' : Arrivals) × (recv_msg pieces ≡ (some (type, payload), pieces'))
      × IsOpen pieces'
      × (joined pieces' ≡ rest)
unfolding recv_msg recv_payload
recv_msg-joined header payload rest type pieces size read fits h e =
    let (behind, f, o, j) = recv_all-joined header (payload ++ rest) pieces h e in
    let (behind', f', o', j') = recv_all-joined payload rest behind o j in
    let f8 : recv_all 8 pieces ≡ (some header, behind) =
      ap (λ k. recv_all k pieces) (sym size) ∙ f in
    let short : ltb max_payload (length payload) ≡ false = ground arith in
    let first : recv_msg pieces ≡ recv_payload (decode_header header) behind = ap after_header f8 in
    let second : recv_payload (length payload, type) behind ≡ (some (type, payload), behind') =
      rw (short, recv_payload)
        (rw (ap (λ q. q.0) f', recv_payload) (ap (λ q. (some (type, payload), q.1)) f')) in
    (behind', first ∙ ap (λ q. recv_payload q behind) read ∙ second, o', j')
