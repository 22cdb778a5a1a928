-- ===== src/Fec/Chunk.antt =====
-- What is relied on in the libraries of the error correction, and the messages of one chunk.
use vlite.Base.{
  ℕ, zero, suc, ◌+◌, ◌-◌, ◌≤◌, ◌<◌, ◌≡◌, arith, List, [], ◌∷◌, ◌++◌, map, Option, some, Bool, true,
  length, get_elem?, All, replicate, refl, ◌∙◌, leb, length-append, length-replicate, ◌&&◌,
}
use vlite.Base.Elements.{length-map}
use vlite.Proto.{Codec, RoundTrips}
use vlite.Fec.Facility.{
  RsMessageHeader, rs_header, ReedSolomon, Libraries, get_parity_shard_sum, default_parity_sum,
  fill_up, max_size,
}
use vlite.Fec.Parts.{IsPart, present}

abbrev pub HasSize : ℕ → List ℕ → Type 0
HasSize size shard = length shard ≡ size

-- `struc` reads every 16-bit length as it was packed.
pub record ReadsHeaders (codec : Codec RsMessageHeader) : Type 0 where
  pub reads : (n : ℕ) → n < 65536 → RoundTrips codec (rs_header n)

-- The library, for numbers of data and parity shards: the parity shards are of the size of the data,
-- and from as many shards as there are data shards, whichever, it gives the data.
pub record Recovers (rs : ReedSolomon) (total parity : ℕ) : Type 0 where
  pub parities : List (List ℕ) → List (List ℕ)
  pub accepts : rs.accepts total parity ≡ true
  pub number : (ds : List (List ℕ)) → length ds ≡ total → length (parities ds) ≡ parity
  pub sizes :
      (size : ℕ) (ds : List (List ℕ))
      → length ds ≡ total
      → All (HasSize size) ds
      → All (HasSize size) (parities ds)
  pub encodes :
      (size : ℕ) (ds zeros : List (List ℕ))
      → length ds ≡ total
      → length zeros ≡ parity
      → 1 ≤ size
      → All (HasSize size) ds
      → All (HasSize size) zeros
      → rs.encode total parity (map some (ds ++ zeros)) ≡ some (map some (ds ++ parities ds))
  pub reconstructs :
      (size : ℕ) (ds : List (List ℕ)) (b : List (Option (List ℕ)))
      → length ds ≡ total
      → length b ≡ total + parity
      → 1 ≤ size
      → All (HasSize size) ds
      → IsPart b (ds ++ parities ds)
      → total ≤ present b
      → (rest : List (Option (List ℕ))) × (rs.reconstruct_data total parity b
          ≡ some (map some ds ++ rest))

abbrev pub IsPacket : List ℕ → Type 0
IsPacket p = (1 ≤ length p) × (length p ≤ 32767)

-- The packets of one chunk, with the number of parity shards that the table has for them.
pub record IsChunk (libs : Libraries) (parity : ℕ) (ps : List (List ℕ)) : Type 0 where
  pub header : ReadsHeaders libs.header
  pub rs : Recovers libs.reed_solomon (length ps) parity
  pub some_packets : 1 ≤ length ps
  pub table : get_parity_shard_sum (length ps) ≡ some parity
  pub packets : All IsPacket ps

all_in_range : List ℕ → Bool
all_in_range [] = true
all_in_range (n ∷ ns) = leb 1 n && leb n 35 && all_in_range ns

range_at :
    (ns : List ℕ) (i n : ℕ)
    → all_in_range ns ≡ true
    → get_elem? ns i ≡ some n
    → (1 ≤ n) × (n ≤ 35) × (i < length ns)
unfolding all_in_range
range_at [] i n range at = absurd (ground arith)
range_at (m ∷ ns) zero n range at = ground arith
range_at (m ∷ ns) (suc i) n range at =
    let rest : all_in_range ns ≡ true = ground arith in
    let (low, high, inside) = range_at ns i n rest at in (low, high, omega (arith, inside))

table_range : all_in_range default_parity_sum ≡ true
unfolding all_in_range
table_range = refl

-- The table has 1 to 35 parity shards for at most 80 packets.
pub parity_bounds :
    (n parity : ℕ) → get_parity_shard_sum n ≡ some parity → (1 ≤ parity) × (parity ≤ 35) × (n ≤ 80)
unfolding get_parity_shard_sum
parity_bounds zero parity at = absurd (ground arith)
parity_bounds (suc n) parity at =
    let (low, high, inside) = range_at default_parity_sum n parity table_range at in
    (low, high, omega (arith, inside))

fill_up-HasSize : (n : ℕ) (shard : List ℕ) → length shard ≤ n → HasSize n (fill_up n shard)
fill_up-HasSize n shard fits = omega (
  arith,
  fits,
  length-append shard (replicate (n - length shard) 0),
  length-replicate {A = ℕ} (n - length shard) 0,
)

max_size-All :
    (xs : List (List ℕ)) (n : ℕ)
    → max_size (map some xs) ≤ n
    → All (λ (x : List ℕ). length x ≤ n) xs
max_size-All [] n fits = tt
max_size-All (x ∷ xs) n fits = (omega (arith, fits), max_size-All xs n (omega (arith, fits)))

fill_ups-HasSize :
    (n : ℕ) (xs : List (List ℕ))
    → All (λ (x : List ℕ). length x ≤ n) xs
    → All (HasSize n) (map (fill_up n) xs)
fill_ups-HasSize n [] fits = tt
fill_ups-HasSize n (x ∷ xs) (le, fits) = (fill_up-HasSize n x le, fill_ups-HasSize n xs fits)

module _ (libs : Libraries) (parity : ℕ) (ps : List (List ℕ)) (chunk : IsChunk libs parity ps) where
  abbrev pub wrapped : List ℕ → List ℕ
  wrapped p = (libs.header.pack (rs_header (length p))).bytes ++ p

  abbrev pub data_shards : List (List ℕ)
  data_shards = map wrapped ps

  abbrev pub chunk_size : ℕ
  chunk_size = max_size (map some data_shards)

  abbrev pub padded : List (List ℕ)
  padded = map (fill_up chunk_size) data_shards

  abbrev pub parity_shards : List (List ℕ)
  parity_shards = chunk.rs.parities padded

  -- What both ends keep of the chunk.
  abbrev pub stored : List (List ℕ)
  stored = data_shards ++ parity_shards

  abbrev pub parity_header : List ℕ
  parity_header = (libs.header.pack (rs_header (65536 - length ps))).bytes

  -- What is sent: the index of a message is its id.
  abbrev pub messages : List (List ℕ)
  messages = data_shards ++ map (λ shard. parity_header ++ shard) parity_shards

  pub length-data_shards : length data_shards ≡ length ps
  length-data_shards = length-map wrapped ps

  pub length-padded : length padded ≡ length ps
  length-padded = length-map (fill_up chunk_size) data_shards ∙ length-data_shards

  pub padded-HasSize : All (HasSize chunk_size) padded
  padded-HasSize =
      fill_ups-HasSize chunk_size data_shards (max_size-All data_shards chunk_size (omega arith))

  pub parity_shards-HasSize : All (HasSize chunk_size) parity_shards
  parity_shards-HasSize = chunk.rs.sizes chunk_size padded length-padded padded-HasSize

  pub length-parity_shards : length parity_shards ≡ parity
  length-parity_shards = chunk.rs.number padded length-padded

  pub fits_size : All (λ (x : List ℕ). length x ≤ chunk_size) data_shards
  fits_size = max_size-All data_shards chunk_size (omega arith)

  pub some_size : 1 ≤ chunk_size
  some_size = first_size ps chunk.some_packets chunk.packets
    where
      first_size :
          (qs : List (List ℕ))
          → 1 ≤ length qs
          → All IsPacket qs
          → 1 ≤ max_size (map some (map wrapped qs))
      first_size [] many ok = absurd (omega (arith, many))
      first_size (q ∷ qs) many (ok, oks) =
          omega (arith, ok.0, length-append (libs.header.pack (rs_header (length q))).bytes q)
