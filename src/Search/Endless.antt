-- ===== src/Search/Endless.antt =====
-- How long crates/search/src/lib.rs reads a response that does not end.
use wiki_next.Base.{
  refl, ℕ, ◌+◌, ◌≤◌, ◌<◌, ◌≡◌, ◌≢◌, inl, inr, List, [], ◌∷◌, ◌++◌, arith, All, Result, err,
  Result-cases,
}
use wiki_next.Base.Lists.{length, length-append}
use wiki_next.Search.{
  max_diagnostic_response_bytes, response_too_large, append_bounded, read_chunks,
}
use wiki_next.Search.Body.{received, append_bounded_iff}

nonempty : (bytes : List ℕ) → bytes ≢ [] → 0 < length bytes
nonempty [] h = absurd (h refl)
nonempty (c ∷ s) h = omega arith

module _ {P H R J : Type 0} where
  append_bounded-err :
      (body chunk : List ℕ) {e : _}
      → append_bounded {P = P} {H = H} {R = R} {J = J} body chunk ≡ err e
      → e ≡ response_too_large
  unfolding append_bounded
  append_bounded-err body chunk h = ground arith

  read_chunks-stops :
      (parts : List (List ℕ)) (rest : List (Result R (List ℕ))) (body : List ℕ)
      → All (λ bytes. bytes ≢ []) parts
      → length body ≤ max_diagnostic_response_bytes
      → max_diagnostic_response_bytes < length body + length parts
      → read_chunks {P = P} {H = H} {J = J} (received parts ++ rest) body ≡ err response_too_large
  unfolding read_chunks
  read_chunks-stops [] rest body full small large = absurd (omega (arith, small, large))
  read_chunks-stops (bytes ∷ parts) rest body (some_bytes, full) small large =
      elim (Result-cases (append_bounded {P = P} {H = H} {R = R} {J = J} body bytes)) [
        | inr (e, failed) ↦ let same = append_bounded-err body bytes failed in ground arith
        | inl (longer, added) ↦
            let (joined, within) = (append_bounded_iff body bytes).0 added in
            let grown : length longer ≡ length body + length bytes =
              rw joined (length-append body bytes) in
            let more = nonempty bytes some_bytes in
            rw added (
              read_chunks-stops parts rest longer full (omega (arith, grown, within))
                (omega (arith, grown, more, large)))
      ]

  -- However long a response is, the loop over its chunks ends: when more of them have come than the
  -- limit has bytes, and none was empty, the response is refused as too large, and whatever would
  -- follow is not looked at.
  pub read_chunks_ends :
      (parts : List (List ℕ)) (rest : List (Result R (List ℕ)))
      → All (λ bytes. bytes ≢ []) parts
      → max_diagnostic_response_bytes < length parts
      → read_chunks {P = P} {H = H} {J = J} (received parts ++ rest) [] ≡ err response_too_large
  read_chunks_ends parts rest full many =
      read_chunks-stops parts rest [] full (omega arith) (omega (arith, many))
