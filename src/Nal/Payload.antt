-- ===== src/Nal/Payload.antt =====
-- A payload that `to_rbsp` packs is read back by `Bits`.
use omarchy_m1_video.Prelude.{
  ℕ, zero, suc, ◌-◌, ◌%◌, ◌<◌, ◌≡◌, refl, ap, ap, ◌∙◌, false, List, [], ◌∷◌, ◌++◌, arith, length,
  replicate, length-append, length-replicate,
}
use omarchy_m1_video.Exec.{ok}
use omarchy_m1_video.Nal.Reader.{unpack, pack, strip_zeros, pop, new_bits, to_rbsp, is_nil}
use omarchy_m1_video.Nal.Digits.{AreBits, digits-value_from}

unpack-pack : (bs : List ℕ) → AreBits bs → length bs % 8 ≡ 0 → unpack (pack bs) ≡ bs
unfolding unpack pack
unpack-pack [] h w = refl
unpack-pack (a ∷ []) h w = absurd (omega arith)
unpack-pack (a ∷ b ∷ []) h w = absurd (omega arith)
unpack-pack (a ∷ b ∷ c ∷ []) h w = absurd (omega arith)
unpack-pack (a ∷ b ∷ c ∷ d ∷ []) h w = absurd (omega arith)
unpack-pack (a ∷ b ∷ c ∷ d ∷ e ∷ []) h w = absurd (omega arith)
unpack-pack (a ∷ b ∷ c ∷ d ∷ e ∷ f ∷ []) h w = absurd (omega arith)
unpack-pack (a ∷ b ∷ c ∷ d ∷ e ∷ f ∷ g ∷ []) h w = absurd (omega arith)
unpack-pack (a ∷ b ∷ c ∷ d ∷ e ∷ f ∷ g ∷ i ∷ rest)
      (ha, (hb, (hc, (hd, (he, (hf, (hg, (hi, hs)))))))) w =
    ap (λ p. p ++ unpack (pack rest))
      (digits-value_from 0 (a ∷ b ∷ c ∷ d ∷ e ∷ f ∷ g ∷ i ∷ [])
        (ha, (hb, (hc, (hd, (he, (hf, (hg, (hi, tt)))))))))
    ∙ ap (λ r. a ∷ b ∷ c ∷ d ∷ e ∷ f ∷ g ∷ i ∷ r) (unpack-pack rest hs (omega arith))

strip_zeros-replicate : (n : ℕ) → strip_zeros (replicate n 0) ≡ []
unfolding strip_zeros
strip_zeros-replicate zero = refl
strip_zeros-replicate (suc n) = rw (strip_zeros-replicate n) refl

strip_zeros-stop :
    (xs : List ℕ) (n : ℕ) → strip_zeros ((xs ++ 1 ∷ []) ++ replicate n 0) ≡ xs ++ 1 ∷ []
unfolding strip_zeros
strip_zeros-stop [] n = rw (strip_zeros, strip_zeros-replicate n) refl
strip_zeros-stop (x ∷ []) n = rw (strip_zeros, strip_zeros-stop [] n) refl
strip_zeros-stop (x ∷ y ∷ xs) n = rw (strip_zeros, strip_zeros-stop (y ∷ xs) n) refl

pop-stop : (xs : List ℕ) → pop (xs ++ 1 ∷ []) ≡ xs
unfolding pop
pop-stop [] = refl
pop-stop (x ∷ []) = refl
pop-stop (x ∷ y ∷ xs) = ap (λ r. x ∷ r) (pop-stop (y ∷ xs))

pub append-AreBits : (xs ys : List ℕ) → AreBits xs → AreBits ys → AreBits (xs ++ ys)
append-AreBits [] ys h k = k
append-AreBits (x ∷ xs) ys h k = (h.0, append-AreBits xs ys h.1 k)

pub replicate-AreBits : (n b : ℕ) → b < 2 → AreBits (replicate n b)
replicate-AreBits zero b h = tt
replicate-AreBits (suc n) b h = (h, replicate-AreBits n b h)

stop-ne : (xs : List ℕ) → is_nil (xs ++ 1 ∷ []) ≡ false
stop-ne [] = refl
stop-ne (x ∷ xs) = refl

-- Reading a packed payload gives the bits that were packed, from position 0.
pub new_bits-to_rbsp :
    (bits : List ℕ) → AreBits bits → new_bits (to_rbsp bits) ≡ ok (record { bits = bits; pos = 0 })
unfolding new_bits to_rbsp
new_bits-to_rbsp bits h =
    let stopped = bits ++ 1 ∷ [] in
    let fill = (8 - length stopped % 8) % 8 in
    let whole : length (stopped ++ replicate fill 0) % 8 ≡ 0 =
      omega (arith, length-append stopped (replicate fill 0), length-replicate {A = ℕ} fill 0) in
    let back : unpack (pack (stopped ++ replicate fill 0)) ≡ stopped ++ replicate fill 0 =
      unpack-pack (stopped ++ replicate fill 0)
        (append-AreBits stopped (replicate fill 0)
          (append-AreBits bits (1 ∷ []) h (omega arith, tt))
          (replicate-AreBits fill 0 (omega arith)))
        whole in
    rw (back, strip_zeros-stop bits fill, stop-ne bits, pop-stop bits) refl
