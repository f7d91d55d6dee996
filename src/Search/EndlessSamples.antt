-- ===== src/Search/EndlessSamples.antt =====
-- A response of more chunks than the limit has bytes.
use wiki_next.Base.{ℕ, zero, suc, ◌≡◌, ◌≢◌, refl, ap, List, [], ◌∷◌, ◌++◌, arith, All, err}
use wiki_next.Base.Lists.{length}
use wiki_next.Search.{response_too_large, read_chunks}
use wiki_next.Search.Body.{received}
use wiki_next.Search.Endless.{read_chunks_ends}

unfoldable repeated : ℕ → List (List ℕ)
repeated zero = []
repeated (suc n) = (7 ∷ []) ∷ repeated n

length-repeated : (n : ℕ) → length (repeated n) ≡ n
unfolding repeated
length-repeated zero = refl
length-repeated (suc n) = ap (λ k. suc k) (length-repeated n)

repeated-All : (n : ℕ) → All (λ bytes. bytes ≢ []) (repeated n)
unfolding repeated
repeated-All zero = tt
repeated-All (suc n) = (λ same. ground arith, repeated-All n)

read_chunks_ends_example :
    read_chunks {P = Unit {0}} {H = Unit {0}} {R = Unit {0}} {J = Unit {0}}
      (received (repeated 65537) ++ err tt ∷ [])
      []
    ≡ err response_too_large
read_chunks_ends_example =
    read_chunks_ends (repeated 65537) (err tt ∷ []) (repeated-All 65537)
      (omega (arith, length-repeated 65537))
