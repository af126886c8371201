-- ===== src/Bench/Makers.antt =====
-- The makers of the other messages in bench/cpp_protobuf/main.cc. A message class is a record of the
-- setters that its maker calls. A float is given by its bits.
pub mod Large
use pbz.Common.{ℕ, zero, suc, ◌+◌, ◌*◌, List, [], ◌∷◌, Bool, true, false, bit_and}
use pbz.Wire.ZigZag.{ℤ, pos, negsuc}
use pbz.Bench.Timing.{String}
use pbz.Bench.Message.{Message}

-- A setter takes its value and the message.
pub record PersonClass : Type 1 where
  pub message : Message
  pub open message use *
  pub set_id : ℤ → Msg → Msg
  pub set_name : String → Msg → Msg
  pub add_scores : ℤ → Msg → Msg
  -- `(*person.mutable_counts())[key] = count`.
  pub put_counts : String → ℤ → Msg → Msg

-- `for (x : xs) f(x);`.
unfoldable pub for_each : {V M : Type 0} → List V → (V → M → M) → M → M
for_each [] f m = m
for_each (x ∷ xs) f m = for_each xs f (f x m)

unfoldable pub make_person : (P : PersonClass) → P.Msg
make_person P =
    let named = P.set_name "Zig" (P.set_id (pos 7) P.new) in
    let scored =
      for_each (pos 10 ∷ pos 20 ∷ pos 30 ∷ pos 40 ∷ pos 50 ∷ pos 60 ∷ pos 70 ∷ pos 80 ∷ [])
        P.add_scores named in
    P.put_counts "blue" (pos 3) (P.put_counts "green" (pos 2) (P.put_counts "red" (pos 1) scored))

pub record ScalarMixClass : Type 1 where
  pub message : Message
  pub open message use *
  pub set_active : Bool → Msg → Msg
  pub set_count : ℤ → Msg → Msg
  pub set_delta : ℤ → Msg → Msg
  pub set_big_delta : ℤ → Msg → Msg
  pub set_signed_fixed : ℤ → Msg → Msg
  pub set_signed_big_fixed : ℤ → Msg → Msg
  pub set_total : ℕ → Msg → Msg
  pub set_checksum : ℕ → Msg → Msg
  pub set_token : ℕ → Msg → Msg
  pub set_ratio_bits : ℕ → Msg → Msg
  pub set_score_bits : ℕ → Msg → Msg
  -- The number of the `BenchKind`.
  pub set_kind : ℕ → Msg → Msg
  pub add_flags : Bool → Msg → Msg
  pub add_ids : ℕ → Msg → Msg

-- `BENCH_KIND_BETA`.
abbrev pub bench_kind_beta : ℕ
bench_kind_beta = 2

unfoldable pub make_scalarmix : (S : ScalarMixClass) → S.Msg
make_scalarmix S =
    let counted = S.set_total 9876543210 (S.set_count (pos 12345) (S.set_active true S.new)) in
    let delta = S.set_big_delta (negsuc 9876542) (S.set_delta (negsuc 320) counted) in
    let token = S.set_token 0x0102030405060708 (S.set_checksum 0xdeadbeef delta) in
    let fixed =
      S.set_signed_big_fixed (negsuc 9876543209) (S.set_signed_fixed (negsuc 123455) token) in
    let scored = S.set_score_bits 0x4023000000000000 (S.set_ratio_bits 0x3fa00000 fixed) in
    let flagged =
      for_each (true ∷ false ∷ true ∷ true ∷ false ∷ true ∷ false ∷ false ∷ []) S.add_flags
        (S.set_kind bench_kind_beta scored) in
    for_each (1 ∷ 127 ∷ 128 ∷ 16384 ∷ 1048576 ∷ 9876543210 ∷ []) S.add_ids flagged

pub record TextBytesClass : Type 1 where
  pub message : Message
  pub open message use *
  pub set_title : String → Msg → Msg
  pub set_payload : String → Msg → Msg
  pub add_tags : String → Msg → Msg
  pub add_chunks : String → Msg → Msg

unfoldable pub make_textbytes : (T : TextBytesClass) → T.Msg
make_textbytes T =
    let titled = T.set_title "ASCII title for protobuf" T.new in
    let paid = T.set_payload "0123456789abcdef0123456789abcdef" titled in
    let tagged = for_each ("alpha" ∷ "beta" ∷ "gamma" ∷ "delta" ∷ []) T.add_tags paid in
    for_each ("chunk-one" ∷ "chunk-two" ∷ "chunk-three" ∷ "chunk-four" ∷ []) T.add_chunks tagged

-- `std::string` of `n` bytes, of which byte `i` is `byte i`.
unfoldable pub fill_string : (ℕ → ℕ) → ℕ → ℕ → List ℕ
fill_string byte zero i = []
fill_string byte (suc n) i = byte i ∷ fill_string byte n (i + 1)

pub record LargeBytesClass : Type 1 where
  pub message : Message
  pub open message use *
  pub set_payload : List ℕ → Msg → Msg
  pub add_chunks : List ℕ → Msg → Msg

unfoldable pub payload_byte : ℕ → ℕ
payload_byte i = bit_and (i * 31 + 7) 0xff

unfoldable pub chunk_byte : ℕ → ℕ → ℕ
chunk_byte chunk_index i = bit_and (chunk_index * 17 + i * 13 + 3) 0xff

abbrev pub payload_size : ℕ
payload_size = 64 * 1024

abbrev pub chunk_size : ℕ
chunk_size = 4 * 1024

abbrev pub chunk_count : ℕ
chunk_count = 16

-- Rounds `chunk_index, chunk_index + 1, ...` of the loop over the chunks, `n` of them.
unfoldable pub add_all_chunks : (L : LargeBytesClass) → ℕ → ℕ → L.Msg → L.Msg
add_all_chunks L zero chunk_index msg = msg
add_all_chunks L (suc n) chunk_index msg =
    add_all_chunks L n (chunk_index + 1)
      (L.add_chunks (fill_string (chunk_byte chunk_index) chunk_size 0) msg)

unfoldable pub make_largebytes : (L : LargeBytesClass) → L.Msg
make_largebytes L =
    add_all_chunks L chunk_count 0 (L.set_payload (fill_string payload_byte payload_size 0) L.new)

pub record PresenceMixClass : Type 1 where
  pub message : Message
  pub open message use *
  pub Child : Type 0
  pub new_child : Child
  pub set_id : ℤ → Child → Child
  pub set_label : String → Child → Child
  pub set_count : ℤ → Msg → Msg
  pub set_note : String → Msg → Msg
  pub set_raw : String → Msg → Msg
  -- `*msg.mutable_child() = child`.
  pub put_child : Child → Msg → Msg
  pub put_nested : Child → Msg → Msg

unfoldable pub make_presence_child : (P : PresenceMixClass) → ℤ → String → P.Child
make_presence_child P id label = P.set_label label (P.set_id id P.new_child)

unfoldable pub make_presencemix : (P : PresenceMixClass) → P.Msg
make_presencemix P =
    let raw = P.set_raw "presence-raw" (P.set_note "" (P.set_count (pos 0) P.new)) in
    P.put_nested (make_presence_child P (pos 11) "nested")
      (P.put_child (make_presence_child P (pos 7) "child") raw)

pub record ComplexClass : Type 1 where
  pub message : Message
  pub open message use *
  pub Audit : Type 0
  pub new_audit : Audit
  pub set_actor : String → Audit → Audit
  pub set_at_unix : ℤ → Audit → Audit
  pub set_id : ℤ → Msg → Msg
  pub put_audit : Audit → Msg → Msg
  pub add_history : Audit → Msg → Msg
  pub put_audit_subject : Audit → Msg → Msg
  -- `(*complex.mutable_audits())[key] = audit`.
  pub put_audits : String → Audit → Msg → Msg

unfoldable pub make_audit : (C : ComplexClass) → String → ℤ → C.Audit
make_audit C actor at_unix = C.set_at_unix at_unix (C.set_actor actor C.new_audit)

unfoldable pub make_complex : (C : ComplexClass) → C.Msg
make_complex C =
    let audited = C.put_audit (make_audit C "tester" (pos 12345)) (C.set_id (pos 42) C.new) in
    let created = C.add_history (make_audit C "creator" (pos 12345)) audited in
    let history = C.add_history (make_audit C "reviewer" (pos 67890)) created in
    let latest = C.put_audits "latest" (make_audit C "reviewer" (pos 67890)) history in
    let audits = C.put_audits "created" (make_audit C "creator" (pos 12345)) latest in
    C.put_audit_subject (make_audit C "subject" (pos 777)) audits
