-- ===== src/Bench/Makers/Large.antt =====
-- What the message LargeBytes of bench/cpp_protobuf/main.cc holds.
use pbz.Common.{
  ℕ, zero, suc, ◌+◌, ◌*◌, ◌%◌, ◌<◌, ◌≡◌, refl, ap, ◌∙◌, List, [], ◌∷◌, ◌++◌, append_assoc,
  append-nil, some, length, get_elem?, arith,
}
use pbz.Common.Bits.{and_255}
use pbz.Bench.Makers.{
  LargeBytesClass, fill_string, payload_byte, chunk_byte, payload_size, chunk_size, chunk_count,
  add_all_chunks, make_largebytes,
}

-- `payload` and `chunks` read the fields.
pub record Reads (L : LargeBytesClass) (payload : L.Msg → List ℕ) (chunks : L.Msg → List (List ℕ))
    : Type 0 where
  pub new : chunks L.new ≡ []
  pub payload-set : (p : List ℕ) (m : L.Msg) → payload (L.set_payload p m) ≡ p
  pub chunks-set : (p : List ℕ) (m : L.Msg) → chunks (L.set_payload p m) ≡ chunks m
  pub payload-add : (c : List ℕ) (m : L.Msg) → payload (L.add_chunks c m) ≡ payload m
  pub chunks-add : (c : List ℕ) (m : L.Msg) → chunks (L.add_chunks c m) ≡ chunks m ++ (c ∷ [])

length-fill_string : (byte : ℕ → ℕ) (n i : ℕ) → length (fill_string byte n i) ≡ n
unfolding fill_string
length-fill_string byte zero i = refl
length-fill_string byte (suc n) i = omega (arith, length-fill_string byte n (i + 1))

get_elem?-fill_string :
    (byte : ℕ → ℕ) (n i k : ℕ) → k < n → get_elem? (fill_string byte n i) k ≡ some (byte (i + k))
unfolding fill_string
get_elem?-fill_string byte zero i k h = absurd (omega arith)
get_elem?-fill_string byte (suc n) i zero h = ap (λ j. some (byte j)) (omega arith)
get_elem?-fill_string byte (suc n) i (suc k) h =
    get_elem?-fill_string byte n (i + 1) k (omega arith) ∙ ap (λ j. some (byte j)) (omega arith)

get_elem?-string :
    (byte : ℕ → ℕ) (n k : ℕ) → k < n → get_elem? (fill_string byte n 0) k ≡ some (byte k)
get_elem?-string byte n k h =
    get_elem?-fill_string byte n 0 k h ∙ ap (λ j. some (byte j)) (omega arith)

payload_byte-eq : (i : ℕ) → payload_byte i ≡ (i * 31 + 7) % 256
unfolding payload_byte
payload_byte-eq i = and_255 (i * 31 + 7)

chunk_byte-eq : (k i : ℕ) → chunk_byte k i ≡ (k * 17 + i * 13 + 3) % 256
unfolding chunk_byte
chunk_byte-eq k i = and_255 (k * 17 + i * 13 + 3)

-- The bytes of the chunks `chunk_index, chunk_index + 1, ...`, `n` of them.
abbrev chunks_from : ℕ → ℕ → List (List ℕ)
chunks_from zero chunk_index = []
chunks_from (suc n) chunk_index =
    fill_string (chunk_byte chunk_index) chunk_size 0 ∷ chunks_from n (chunk_index + 1)

length-chunks_from : (n i : ℕ) → length (chunks_from n i) ≡ n
length-chunks_from zero i = refl
length-chunks_from (suc n) i = omega (arith, length-chunks_from n (i + 1))

get_elem?-chunks_from :
    (n i k : ℕ)
    → k < n
    → get_elem? (chunks_from n i) k ≡ some (fill_string (chunk_byte (i + k)) chunk_size 0)
get_elem?-chunks_from zero i k h = absurd (omega arith)
get_elem?-chunks_from (suc n) i zero h =
    ap (λ j. some (fill_string (chunk_byte j) chunk_size 0)) (omega arith)
get_elem?-chunks_from (suc n) i (suc k) h =
    get_elem?-chunks_from n (i + 1) k (omega arith)
    ∙ ap (λ j. some (fill_string (chunk_byte j) chunk_size 0)) (omega arith)

module _ (L : LargeBytesClass) (payload : L.Msg → List ℕ) (chunks : L.Msg → List (List ℕ))
    (reads : Reads L payload chunks) where
  chunks-add_all :
      (n i : ℕ) (m : L.Msg) → chunks (add_all_chunks L n i m) ≡ chunks m ++ chunks_from n i
  unfolding add_all_chunks
  chunks-add_all zero i m = rw append-nil
  chunks-add_all (suc n) i m =
      let chunk = fill_string (chunk_byte i) chunk_size 0 in
      chunks-add_all n (i + 1) (L.add_chunks chunk m)
      ∙ rw (reads.chunks-add chunk m) (append_assoc (chunks m) (chunk ∷ []) (chunks_from n (i + 1)))

  payload-add_all : (n i : ℕ) (m : L.Msg) → payload (add_all_chunks L n i m) ≡ payload m
  unfolding add_all_chunks
  payload-add_all zero i m = refl
  payload-add_all (suc n) i m =
      let chunk = fill_string (chunk_byte i) chunk_size 0 in
      payload-add_all n (i + 1) (L.add_chunks chunk m) ∙ reads.payload-add chunk m

  made_payload : payload (make_largebytes L) ≡ fill_string payload_byte payload_size 0
  unfolding make_largebytes
  made_payload = payload-add_all chunk_count 0 _ ∙ reads.payload-set _ _

  made_chunks : chunks (make_largebytes L) ≡ chunks_from chunk_count 0
  unfolding make_largebytes
  made_chunks =
      chunks-add_all chunk_count 0 _
      ∙ ap (λ cs. cs ++ chunks_from chunk_count 0) (reads.chunks-set _ _ ∙ reads.new)

  -- Byte `i` of the payload of 65536 bytes is `31 i + 7` modulo 256; there are sixteen chunks of 4096
  -- bytes, and byte `i` of chunk `k` is `17 k + 13 i + 3` modulo 256.
  pub make_largebytes-bytes :
      (i k j : ℕ)
      → i < payload_size
      → k < chunk_count
      → j < chunk_size
      → (length (payload (make_largebytes L)) ≡ payload_size)
        × (get_elem? (payload (make_largebytes L)) i ≡ some ((i * 31 + 7) % 256))
        × (length (chunks (make_largebytes L)) ≡ chunk_count)
        × (chunk : List ℕ) × (get_elem? (chunks (make_largebytes L)) k ≡ some chunk)
        × (length chunk ≡ chunk_size)
        × (get_elem? chunk j ≡ some ((k * 17 + j * 13 + 3) % 256))
  make_largebytes-bytes i k j hi hk hj =
      rw (made_payload, made_chunks)
        (
          length-fill_string payload_byte payload_size 0,
          get_elem?-string payload_byte payload_size i hi ∙ ap some (payload_byte-eq i),
          length-chunks_from chunk_count 0,
          fill_string (chunk_byte k) chunk_size 0,
          get_elem?-chunks_from chunk_count 0 k hk
              ∙ ap (λ c. some (fill_string (chunk_byte c) chunk_size 0)) (omega arith),
          length-fill_string (chunk_byte k) chunk_size 0,
          get_elem?-string (chunk_byte k) chunk_size j hj ∙ ap some (chunk_byte-eq k j),
        )
