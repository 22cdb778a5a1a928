-- ===== src/Fec/Sending.antt =====
-- The facility of a sender, from the packets of a chunk to its messages.
use vlite.Base.{
  ℕ, zero, suc, ◌+◌, ◌-◌, ◌%◌, ◌≡◌, refl, sym, ap, ◌∙◌, arith, List, [], ◌∷◌, ◌++◌, map, Option,
  none, some, Bool, false, not, if◌then◌else◌, length, take, replicate, All, length-append,
  length-replicate, take_append,
}
use vlite.Base.Elements.{length-map}
use vlite.Proto.{Packed}
use vlite.Fec.Facility.{
  rs_header, Libraries, Facility, Result, done, panic, DataAdded, add_data, encode_once,
  encode_with, encoded_buffer, grown, put_shard, max_size, fill_up, match_shards, match_size,
}
use vlite.Fec.Chunk.{
  HasSize, IsPacket, IsChunk, wrapped, data_shards, chunk_size, padded, padded-HasSize,
  parity_shards, length-data_shards, length-padded, some_size,
}

put_shard-grown :
    (b : List (Option (List ℕ))) (x : List ℕ)
    → put_shard (b ++ replicate 1 none) (length b) x ≡ b ++ some x ∷ []
put_shard-grown [] x = refl
put_shard-grown (s ∷ b) x = ap (◌∷◌ s) (put_shard-grown b x)

map-some-append :
    (xs ys : List (List ℕ)) → map {B = Option (List ℕ)} some (xs ++ ys) ≡ map some xs ++ map some ys
map-some-append [] ys = refl
map-some-append (x ∷ xs) ys = ap (◌∷◌ (some x)) (map-some-append xs ys)

-- All shards with zeros up to one size, the empty slots of the parity too.
match_shards-append :
    (n : ℕ) (xs : List (List ℕ)) (k : ℕ)
    → match_shards false n (map some xs ++ replicate k none)
      ≡ map some (map (fill_up n) xs ++ replicate k (fill_up n []))
match_shards-append n [] zero = refl
match_shards-append n [] (suc k) = ap (◌∷◌ (some (fill_up n []))) (match_shards-append n [] k)
match_shards-append n (x ∷ xs) k = ap (◌∷◌ (some (fill_up n x))) (match_shards-append n xs k)

zeros-HasSize : (n k : ℕ) → All (HasSize n) (replicate k (fill_up n []))
zeros-HasSize n zero = tt
zeros-HasSize n (suc k) = (length-replicate {A = ℕ} (n - 0) 0 ∙ gap, zeros-HasSize n k)
  where
    gap : n - 0 ≡ n
    gap = omega arith

module _ (libs : Libraries) (parity : ℕ) (ps : List (List ℕ)) (chunk : IsChunk libs parity ps) where
  -- The facility after some packets of the chunk.
  abbrev pub so_far : List (List ℕ) → Facility
  so_far qs = record {
    buffer = map some (map (wrapped libs parity ps chunk) qs);
    data_input = length qs;
    shard_input = 0;
    total_data_shards = 0;
  }

  -- The facility after some parity messages of the chunk.
  abbrev pub encoded : ℕ → Facility
  encoded j = record {
    buffer = map some (padded libs parity ps chunk ++ parity_shards libs parity ps chunk);
    data_input = length ps;
    shard_input = j;
    total_data_shards = length ps;
  }

  so_far-grown :
      (qs : List (List ℕ)) (p : List ℕ)
      → put_shard
          (grown (length qs + 1) (so_far qs).buffer)
          (length qs)
          (wrapped libs parity ps chunk p)
        ≡ (so_far (qs ++ p ∷ [])).buffer
  unfolding grown
  so_far-grown qs p =
      let w = wrapped libs parity ps chunk in
      let b = (so_far qs).buffer in
      let len : length b ≡ length qs =
        length-map (λ (x : List ℕ). some x) (map w qs) ∙ length-map w qs in
      let gap : length qs + 1 - length b ≡ 1 = omega (arith, len) in
      ap (λ k. put_shard (b ++ replicate k none) (length qs) (w p)) gap
      ∙ ap (λ k. put_shard (b ++ replicate 1 none) k (w p)) (sym len)
      ∙ put_shard-grown b (w p)
      ∙ sym (ap (map some) (wrapped-append qs) ∙ map-some-append (map w qs) (w p ∷ []))
    where
      wrapped-append :
          (rs : List (List ℕ))
          → map (wrapped libs parity ps chunk) (rs ++ p ∷ [])
            ≡ map (wrapped libs parity ps chunk) rs ++ wrapped libs parity ps chunk p ∷ []
      wrapped-append [] = refl
      wrapped-append (r ∷ rs) = ap (◌∷◌ (wrapped libs parity ps chunk r)) (wrapped-append rs)

  -- A packet gets the next id, and its message has its length.
  pub add_data-so_far :
      (qs : List (List ℕ)) (p : List ℕ)
      → IsPacket p
      → add_data libs p (so_far qs)
        ≡ done (record {
          id = length qs;
          wrapped = wrapped libs parity ps chunk p;
          facility = so_far (qs ++ p ∷ []);
        })
  unfolding add_data
  add_data-so_far qs p ok =
      let f = so_far qs in
      let with_header : Packed → Result DataAdded = λ h.
        if not h.no_error
        then panic
        else done (record {
          id = length qs;
          wrapped = h.bytes ++ p;
          facility = record f {
            buffer = put_shard (grown (length qs + 1) f.buffer) (length qs) (h.bytes ++ p);
            data_input = length qs + 1;
          };
        }) in
      let w = wrapped libs parity ps chunk p in
      let packed = libs.header.pack (rs_header (length p)) in
      let next : Facility = record f {
        buffer = put_shard (grown (length qs + 1) f.buffer) (length qs) w;
        data_input = length qs + 1;
      } in
      let result : Facility → Result DataAdded =
        λ g. done (record { id = length qs; wrapped = w; facility = g }) in
      ap (λ n. with_header (libs.header.pack (rs_header n))) {x = length p % 65536} {y = length p}
        (omega (arith, ok.1))
      ∙ ap (λ c. if not c then panic else result next)
          ((chunk.header.reads (length p) (omega (arith, ok.1))).packs)
      ∙ ap (λ b. result (record f { buffer = b; data_input = length qs + 1 })) (so_far-grown qs p)
      ∙ ap (λ n. result (record (so_far (qs ++ p ∷ [])) { data_input = n })) {x = length qs + 1}
          {y = length (qs ++ p ∷ [])} (omega (arith, length-append qs (p ∷ [])))

  -- The first parity message computes all parity shards.
  pub encode_once-so_far : encode_once libs (so_far ps) ≡ done (encoded 0)
  unfolding encode_once encode_with match_size
  encode_once-so_far =
      let n = length ps in
      let f = so_far ps in
      let datas = data_shards libs parity ps chunk in
      let size = chunk_size libs parity ps chunk in
      let zeros = replicate parity (fill_up size []) in
      let len : length f.buffer ≡ n =
        length-map (λ (x : List ℕ). some x) datas ∙ length-data_shards libs parity ps chunk in
      let go : Bool → List (Option (List ℕ)) → Result Facility = λ c buffer.
        if c
        then encoded_buffer (record f { total_data_shards = n })
            (libs.reed_solomon.encode n parity buffer)
        else panic in
      let front : take n (f.buffer ++ replicate parity none) ≡ f.buffer =
        ap (λ k. take k (f.buffer ++ replicate parity none)) (sym len)
        ∙ take_append f.buffer (replicate parity none) in
      ap (encode_with libs f) chunk.table
      ∙ ap
          (λ b.
            go (libs.reed_solomon.accepts n parity)
              (match_shards false (max_size b) (f.buffer ++ replicate parity none)))
          front
      ∙ ap (go (libs.reed_solomon.accepts n parity)) (match_shards-append size datas parity)
      ∙ ap (λ c. go c (map some (padded libs parity ps chunk ++ zeros))) chunk.rs.accepts
      ∙ ap (encoded_buffer (record f { total_data_shards = n })) (
          chunk.rs.encodes size (padded libs parity ps chunk) zeros
            (length-padded libs parity ps chunk) (length-replicate parity (fill_up size []))
            (some_size libs parity ps chunk) (padded-HasSize libs parity ps chunk)
            (zeros-HasSize size parity))
