-- ===== src/Fec/Recovery.antt =====
-- `Reconstruct` on the facility of a receiver.
use vlite.Base.{
  ℕ, ◌+◌, ◌-◌, ◌≤◌, ◌≡◌, refl, ap, subst, ◌∙◌, arith, List, [], ◌∷◌, ◌++◌, map, Option, some, true,
  false, leb, if◌then◌else◌, length, take, replicate, All, length-append, take_append,
}
use mathlib.Core.List.{append-nil, append_assoc}
use vlite.Base.Elements.{All-append}
use vlite.Proto.{Unpacked}
use vlite.Fec.Facility.{
  rs_header, RsMessageHeader, Libraries, Result, done, panic, grown, max_size, fill_up,
  match_shards, match_size, limited, recover_len, recover_lens, and_also,
}
use vlite.Fec.Parts.{
  IsPart, present, length-IsPart, grown-IsPart, grown-length, grown-present, grown-max_size,
  max_size-IsPart, match-IsPart, match-present, length-match_shards,
}
use vlite.Fec.Chunk.{
  HasSize, IsPacket, IsChunk, wrapped, data_shards, chunk_size, parity_shards, padded, stored,
  length-data_shards, length-padded, padded-HasSize, parity_shards-HasSize, length-parity_shards,
  fits_size, some_size,
}

fill_up_full : (size : ℕ) (xs : List (List ℕ)) → All (HasSize size) xs → map (fill_up size) xs ≡ xs
fill_up_full size [] full = refl
fill_up_full size (x ∷ xs) (long, full) =
    let gap : size - length x ≡ 0 = omega (arith, long) in
    ap (λ n. (x ++ replicate n 0) ∷ map (fill_up size) xs) gap
    ∙ ap (λ (y : List ℕ). y ∷ map (fill_up size) xs) (append-nil x)
    ∙ ap (◌∷◌ x) (fill_up_full size xs full)

fill_up-append :
    (size : ℕ) (xs ys : List (List ℕ))
    → map (fill_up size) (xs ++ ys) ≡ map (fill_up size) xs ++ map (fill_up size) ys
fill_up-append size [] ys = refl
fill_up-append size (x ∷ xs) ys = ap (◌∷◌ (fill_up size x)) (fill_up-append size xs ys)

size-All :
    (size : ℕ) (xs : List (List ℕ))
    → All (HasSize size) xs
    → All (λ (x : List ℕ). length x ≤ size) xs
size-All size [] full = tt
size-All size (x ∷ xs) (long, full) = (omega (arith, long), size-All size xs full)

module _ (libs : Libraries) (parity : ℕ) (ps : List (List ℕ)) (chunk : IsChunk libs parity ps) where
  abbrev shards : List (List ℕ)
  shards = stored libs parity ps chunk

  abbrev size : ℕ
  size = chunk_size libs parity ps chunk

  pub length-shards : length shards ≡ length ps + parity
  length-shards = omega (
    arith,
    length-append (data_shards libs parity ps chunk) (parity_shards libs parity ps chunk),
    length-data_shards libs parity ps chunk,
    length-parity_shards libs parity ps chunk,
  )

  shards-fit : All (λ (x : List ℕ). length x ≤ size) shards
  shards-fit =
      All-append (λ (x : List ℕ). length x ≤ size) (data_shards libs parity ps chunk)
        (parity_shards libs parity ps chunk) (fits_size libs parity ps chunk)
        (size-All size (parity_shards libs parity ps chunk)
          (parity_shards-HasSize libs parity ps chunk))

  shards-padded :
      map (fill_up size) shards ≡ padded libs parity ps chunk ++ parity_shards libs parity ps chunk
  shards-padded =
      fill_up-append size (data_shards libs parity ps chunk) (parity_shards libs parity ps chunk)
      ∙ ap (◌++◌ (padded libs parity ps chunk)) (
          fill_up_full size (parity_shards libs parity ps chunk)
            (parity_shards-HasSize libs parity ps chunk))

  -- The packet comes out of its shard, with the zeros after it.
  recover_len-packet :
      (q : List ℕ)
      → IsPacket q
      → recover_len libs.header (some (fill_up size (wrapped libs parity ps chunk q))) ≡ done q
  unfolding recover_len
  recover_len-packet q ok =
      let header = (libs.header.pack (rs_header (length q))).bytes in
      let zeros : List ℕ = replicate (size - length (header ++ q)) 0 in
      let by_header : Unpacked RsMessageHeader → Result (List ℕ) =
        λ u. if u.no_error then done (limited u.value.len u.rest) else panic in
      let positive : leb 32768 (length q) ≡ false = ground (arith, ok.1) in
      ap (λ k. by_header (libs.header.unpack k)) (append_assoc header q zeros)
      ∙ ap by_header ((chunk.header.reads (length q) (omega (arith, ok.1))).unpacks (q ++ zeros))
      ∙ ap (λ c. done (if c then [] else take (length q) (q ++ zeros))) positive
      ∙ ap done (take_append q zeros)

  pub recover_lens-packets :
      (qs : List (List ℕ))
      → All IsPacket qs
      → recover_lens libs.header
          (map some (map (fill_up size) (map (wrapped libs parity ps chunk) qs)))
        ≡ done qs
  recover_lens-packets [] ok = refl
  recover_lens-packets (q ∷ qs) (ok, oks) =
      ap
        (λ o. and_also o (
          recover_lens libs.header
            (map some (map (fill_up size) (map (wrapped libs parity ps chunk) qs)))))
        (recover_len-packet q ok)
      ∙ ap (and_also (done q)) (recover_lens-packets qs oks)

  -- The buffer that `Reconstruct` gives to the library.
  abbrev pub whole_buffer : List (Option (List ℕ)) → List (Option (List ℕ))
  whole_buffer b = match_shards true size (grown (length ps + parity) b)

  pub whole-size :
      (b : List (Option (List ℕ)))
      → IsPart b shards
      → size ≤ max_size b
      → match_size true (length ps) (grown (length ps + parity) b) ≡ whole_buffer b
  unfolding match_size
  whole-size b part large =
      let g = grown (length ps + parity) b in
      let gpart = grown-IsPart (length ps + parity) b shards part (omega (arith, length-shards)) in
      ap (λ k. match_shards true k g)
        (omega (
          arith,
          large,
          grown-max_size (length ps + parity) b,
          max_size-IsPart g shards size gpart shards-fit,
        ))

  pub reconstruct_data-whole :
      (b : List (Option (List ℕ)))
      → IsPart b shards
      → length ps ≤ present b
      → (rest : List (Option (List ℕ))) × (libs.reed_solomon.reconstruct_data
            (length ps)
            parity
            (whole_buffer b)
          ≡ some (map some (padded libs parity ps chunk) ++ rest))
  reconstruct_data-whole b part many =
      let g = grown (length ps + parity) b in
      let gpart = grown-IsPart (length ps + parity) b shards part (omega (arith, length-shards)) in
      chunk.rs.reconstructs size (padded libs parity ps chunk) (match_shards true size g)
        (length-padded libs parity ps chunk)
        (omega (
          arith,
          length-match_shards size g,
          grown-length (length ps + parity) b,
          length-IsPart g shards gpart,
          length-shards,
        ))
        (some_size libs parity ps chunk) (padded-HasSize libs parity ps chunk)
        (subst (IsPart (match_shards true size g)) shards-padded (match-IsPart size g shards gpart))
        (omega (arith, many, match-present size g, grown-present (length ps + parity) b))
