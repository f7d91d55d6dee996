-- ===== src/Search/Body.antt =====
-- The bounded body of a response in crates/search/src/lib.rs.
use wiki_next.Base.{
  ℕ, ◌+◌, ◌≤◌, ◌≡◌, refl, sym, ap, ◌∙◌, ◌↔◌, inl, inr, List, [], ◌∷◌, ◌++◌, arith, Result, ok, err,
  Result-cases,
}
use wiki_next.Base.Lists.{length, length-append}
use mathlib.Core.List.{append_assoc, append-nil}
use wiki_next.Search.{max_diagnostic_response_bytes, checked_add, append_bounded, read_chunks}

-- The chunks that hold no error, and their bytes together.
abbrev pub received {ℓ} : {R : Type ℓ} → List (List ℕ) → List (Result R (List ℕ))
received [] = []
received (bytes ∷ rest) = ok bytes ∷ received rest

abbrev pub concat : List (List ℕ) → List ℕ
concat [] = []
concat (bytes ∷ rest) = bytes ++ concat rest

module _ {P H R J : Type 0} where
  -- The sum never overflows where it is within the limit.
  pub append_bounded_iff :
      (body chunk : List ℕ) {out : List ℕ}
      → (append_bounded {P = P} {H = H} {R = R} {J = J} body chunk ≡ ok out)
        ↔ ((out ≡ body ++ chunk) × (length body + length chunk ≤ max_diagnostic_response_bytes))
  unfolding append_bounded checked_add
  append_bounded_iff body chunk = (λ h. ground arith, λ (e, small). ground arith)

  read_chunks_sound :
      (chunks : List (Result R (List ℕ))) (body : List ℕ) {out : List ℕ}
      → length body ≤ max_diagnostic_response_bytes
      → read_chunks {P = P} {H = H} {J = J} chunks body ≡ ok out
      → (parts : List (List ℕ)) × (chunks ≡ received parts)
        × (out ≡ body ++ concat parts)
        × (length out ≤ max_diagnostic_response_bytes)
  unfolding read_chunks
  read_chunks_sound [] body small h =
      let e : body ≡ _ = ground arith in ([], refl, sym e ∙ sym (append-nil body), rw (← e) small)
  read_chunks_sound (ok bytes ∷ chunks) body {out} small h =
      elim (Result-cases (append_bounded {P = P} {H = H} {R = R} {J = J} body bytes)) [
        | inl (longer, added) ↦
            let (joined, within) = (append_bounded_iff body bytes).0 added in
            let bound : length longer ≤ max_diagnostic_response_bytes =
              rw joined (omega (arith, length-append body bytes, within)) in
            let (parts, rest, e, total) = read_chunks_sound chunks longer bound (ground arith) in
            (
              bytes ∷ parts,
              ap (λ r. ok bytes ∷ r) rest,
              e ∙ ap (λ b. b ++ concat parts) joined ∙ append_assoc body bytes (concat parts),
              total,
            )
        | inr (problem, failed) ↦ ground arith
      ]
  read_chunks_sound (err problem ∷ chunks) body small h = ground arith

  read_chunks_complete :
      (parts : List (List ℕ)) (body : List ℕ)
      → length body + length (concat parts) ≤ max_diagnostic_response_bytes
      → read_chunks {P = P} {H = H} {R = R} {J = J} (received parts) body
        ≡ ok (body ++ concat parts)
  unfolding read_chunks
  read_chunks_complete [] body small = ap (λ b. ok b) (sym (append-nil body))
  read_chunks_complete (bytes ∷ parts) body small =
      let added : append_bounded {P = P} {H = H} {R = R} {J = J} body bytes ≡ ok (body ++ bytes) =
        (append_bounded_iff body bytes).1
          (refl, omega (arith, length-append bytes (concat parts))) in
      rw added (
        read_chunks_complete parts (body ++ bytes)
          (omega (arith, length-append bytes (concat parts), length-append body bytes))
        ∙ ap (λ b. ok b) (append_assoc body bytes (concat parts)))

  -- The loop over the chunks of a response returns a body exactly where no chunk failed to arrive
  -- and all of them together are within the limit. The body is then the chunks, joined in order.
  pub read_chunks_iff :
      (chunks : List (Result R (List ℕ))) (out : List ℕ)
      → (read_chunks {P = P} {H = H} {J = J} chunks [] ≡ ok out) ↔ (
          (parts : List (List ℕ)) × (chunks ≡ received parts)
          × (out ≡ concat parts)
          × (length out ≤ max_diagnostic_response_bytes))
  read_chunks_iff chunks out = (
    λ h. read_chunks_sound chunks [] (omega arith) h,
    λ (parts, arrived, joined, small).
        let within : length (concat parts) ≤ max_diagnostic_response_bytes = rw joined at small in
        rw (arrived, joined) (read_chunks_complete parts [] (omega (arith, within))),
  )
