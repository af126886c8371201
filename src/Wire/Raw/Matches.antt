-- ===== src/Wire/Raw/Matches.antt =====
-- The matcher of raw fields finds what `rawFieldNumber` decodes.
use mathlib.Core.Path.{subst}
use pbz.Common.{
  ℕ, zero, suc, ◌+◌, ◌-◌, ◌*◌, ◌/◌, ◌%◌, ◌≤◌, ◌<◌, ◌≡◌, refl, sym, ap, ◌∙◌, Bool, true, false, inl,
  inr, some, List, [], ◌∷◌, ◌++◌, length, drop, get_elem?, All, At, ltb, ltb→lt, ltb→le, ◌==◌,
  Bool-cases, arith,
}
use pbz.Common.Bits.{and_127}
use pbz.Wire.Result.{ok}
use pbz.Wire.Tag.{max_field_number}
use pbz.Wire.Varint.{Cursor, write_varint_to_buffer, read_varint_at}
use pbz.Wire.Varint.Encoding.{
  IsByte, groups, groups-long, groups-short, ladder-groups, length-groups, groups_enough,
}
use pbz.Wire.Varint.Buffer.{store-append}
use pbz.Wire.Varint.Read.{read_varint_at-groups}
use pbz.Wire.Varint.Low.{first_byte_read}
use pbz.Wire.Raw.{raw_field_number}
use pbz.Wire.Raw.Matcher.{
  RawFieldNumberMatcher, undefined_tag, init, first_byte_may_match, same_byte, same_bytes,
  starts_with_canonical_number_tag, matches,
}
use pbz.Wire.Raw.Starts.{raw_field_number-Starts}

same_bytes-each :
    (len k : ℕ) (same : ℕ → Bool) → same_bytes len same ≡ true → 1 ≤ k → k < len → same k ≡ true
unfolding same_bytes
same_bytes-each len zero same h lo hi = absurd (omega arith)
same_bytes-each len (suc zero) same h lo hi = ground arith
same_bytes-each len (suc (suc zero)) same h lo hi = ground arith
same_bytes-each len (suc (suc (suc zero))) same h lo hi = ground arith
same_bytes-each len (suc (suc (suc (suc zero)))) same h lo hi = ground arith
same_bytes-each len (suc (suc (suc (suc (suc k))))) same h lo hi = ground arith

get_elem?-append :
    (xs ys : List ℕ) (k : ℕ) → k < length xs → get_elem? (xs ++ ys) k ≡ get_elem? xs k
get_elem?-append [] ys k h = absurd (omega arith)
get_elem?-append (x ∷ xs) ys zero h = refl
get_elem?-append (x ∷ xs) ys (suc k) h = get_elem?-append xs ys k (omega arith)

At-gets :
    (xs input : List ℕ) (i : ℕ)
    → ((k : ℕ) → k < length xs → get_elem? input (i + k) ≡ get_elem? xs k)
    → At input i xs
At-gets [] input i h = tt
At-gets (x ∷ xs) input i h = (
  ap (λ j. get_elem? input j) (omega arith) ∙ h 0 (omega arith),
  At-gets xs input (suc i)
      (λ k lt. ap (λ j. get_elem? input j) (omega arith) ∙ h (suc k) (omega arith)),
)

same_byte-get :
    (raw tag : List ℕ) (k : ℕ) → same_byte raw tag k ≡ true → get_elem? raw k ≡ get_elem? tag k
unfolding same_byte
same_byte-get raw tag k h = ground arith

abbrev read_value : Cursor ℕ → ℕ
read_value (ok v, j) = v
read_value _ = 0

-- The tag of a number that the matcher compares with, and its length.
module _ (m : ℕ) (fits : m ≤ max_field_number) where
  canonical : List ℕ
  canonical = groups 9 (m * 8)

  short : length canonical ≤ 5
  unfolding canonical
  short =
      let (_, le) = length-groups 4 (m * 8) in
      rw
        (
          groups_enough 8 (m * 8) (omega arith),
          groups_enough 7 (m * 8) (omega arith),
          groups_enough 6 (m * 8) (omega arith),
          groups_enough 5 (m * 8) (omega arith),
          groups_enough 4 (m * 8) (omega arith),
        )
        le

  init-eq : init m ≡ record {
    number = m;
    low_start = m * 8 % 128;
    canonical_tag = canonical ++ drop (length canonical) undefined_tag;
    canonical_tag_len = length canonical;
  }
  unfolding init write_varint_to_buffer canonical
  init-eq =
      let bytes = ladder-groups 9 (m * 8) (omega arith) in
      rw (bytes, and_127 (m * 8), store-append undefined_tag (groups 9 (m * 8)) short) refl

  may_match :
      (first : ℕ)
      → first_byte_may_match (init m) first ≡ true
      → (m * 8 % 128 ≤ first % 128) × (first % 128 ≤ m * 8 % 128 + 5)
  unfolding first_byte_may_match
  may_match first h = let e = rw init-eq at h in ground (arith, and_127 first)

  -- A field of the number passes the test of its first byte.
  may_match_first :
      (first v wire : ℕ)
      → wire ≤ 5
      → v ≡ m * 8 + wire
      → v % 128 ≡ first % 128
      → (first < 128 → v ≡ first)
      → first_byte_may_match (init m) first ≡ true
  unfolding first_byte_may_match
  may_match_first first v wire le value low one = rw init-eq (ground (arith, and_127 first, one))

  -- The bytes that the matcher accepts are a tag of the number.
  module _ (first : ℕ) (raw : List ℕ) (byte : first < 256) (low : m * 8 % 128 ≤ first % 128)
      (high : first % 128 ≤ m * 8 % 128 + 5) where
    long_tag :
        0x80 ≤ first
        → 0x80 ≤ m * 8
        → ((k : ℕ)
            → 1 ≤ k
            → k < length canonical
            → get_elem? (first ∷ raw) k ≡ get_elem? canonical k)
        → At (first ∷ raw) 0 (groups 9 (m * 8 + (first % 128 - m * 8 % 128)))
    unfolding canonical
    long_tag long wide same =
        let v = m * 8 + (first % 128 - m * 8 % 128) in
        let rest : v / 128 ≡ m * 8 / 128 = omega arith in
        let head : first ≡ v % 128 + 128 = omega arith in
        let later = groups 8 (m * 8 / 128) in
        let same' : (k : ℕ)
            → k < length later
            → get_elem? (first ∷ raw) (1 + k) ≡ get_elem? later k =
          λ k lt.
            let given =
              subst
                (λ c. (k : ℕ) → 1 ≤ k → k < length c → get_elem? (first ∷ raw) k ≡ get_elem? c k)
                (groups-long 8 (m * 8) wide) same (suc k) (omega arith) (omega arith) in
            let next : 1 + k ≡ suc k = omega arith in
            ap (λ j. get_elem? (first ∷ raw) j) next ∙ given in
        let at : At (first ∷ raw) 0 ((v % 128 + 128) ∷ later) =
          (ap some head, At-gets later (first ∷ raw) 1 same') in
        subst (λ c. At (first ∷ raw) 0 c)
          (sym (groups-long 8 v (omega arith) ∙ ap (λ q. (v % 128 + 128) ∷ groups 8 q) rest)) at

    tag_same :
        (n wire end : ℕ)
        → wire ≤ 5
        → read_varint_at (first ∷ raw) 0 ≡ (ok (n * 8 + wire), end)
        → starts_with_canonical_number_tag (init m) (first ∷ raw) first ≡ true
        → n ≡ m
    unfolding starts_with_canonical_number_tag canonical
    tag_same n wire end le read h =
        let e = rw init-eq at h in
        let (_, one) = first_byte_read (first ∷ raw) 0 (n * 8 + wire) end refl read in
        elim (Bool-cases (ltb (m * 8) 128)) [
          | inl small ↦
              let one_byte = ap length (groups-short 8 (m * 8) (ltb→lt (m * 8) 128 small)) in
              ground (arith, one_byte, one)
          | inr wide ↦
              let wide' = ltb→le (m * 8) 128 wide in
              let size = ap length (groups-long 8 (m * 8) wide') in
              let (some_more, _) = length-groups 8 (m * 8 / 128) in
              let (long, equal) : (ltb first 128 ≡ false)
                  × (same_bytes (length canonical) (
                        same_byte (first ∷ raw)
                          (canonical ++ drop (length canonical) undefined_tag))
                      ≡ true) =
                ground arith in
              let at = long_tag (ltb→le first 128 long) wide' (λ k lo hi.
                same_byte-get (first ∷ raw) _ k (same_bytes-each (length canonical) k _ equal lo hi)
                ∙ get_elem?-append canonical _ k hi) in
              let read' =
                read_varint_at-groups (m * 8 + (first % 128 - m * 8 % 128)) 0 (first ∷ raw)
                  (omega arith) at in
              let value = ap (λ c. read_value c) (sym read ∙ read') in omega arith
        ]

matches_by :
    (self : RawFieldNumberMatcher) (first : ℕ) (raw : List ℕ) (n : ℕ)
    → raw_field_number (first ∷ raw) ≡ ok n
    → 0 < n
    → (n ≡ self.number → first_byte_may_match self first ≡ true)
    → (first_byte_may_match self first ≡ true
        → starts_with_canonical_number_tag self (first ∷ raw) first ≡ true
        → n ≡ self.number)
    → matches self (first ∷ raw) ≡ (n == self.number)
unfolding matches
matches_by self first raw n h positive finds sound = elim (Bool-cases (self.number == 0)) [
  | inl zero_number ↦
      let other : n == self.number ≡ false = ground arith in rw (zero_number, other) refl
  | inr some_number ↦ elim (Bool-cases (first_byte_may_match self first)) [
    | inr no_match ↦
        let other : n == self.number ≡ false = ground (arith, finds) in
        rw (some_number, no_match, other) refl
    | inl may ↦ elim (Bool-cases (starts_with_canonical_number_tag self (first ∷ raw) first)) [
      | inr odd ↦ rw (some_number, may, odd, h) refl
      | inl starts ↦
          let same = sound may starts in
          let equal : n == self.number ≡ true = ground arith in
          rw (some_number, may, starts, equal) refl
    ]
  ]
]

-- On a raw field with a number that can be read the matcher says whether it is the number.
pub matches-number :
    (m : ℕ) (raw : List ℕ) (n : ℕ)
    → m ≤ max_field_number
    → All IsByte raw
    → raw_field_number raw ≡ ok n
    → matches (init m) raw ≡ (n == m)
matches-number m [] n fits bytes h =
    let s = raw_field_number-Starts [] n h in
    let read = s.read in absurd (unfold read_varint_at in ground arith)
matches-number m (first ∷ raw) n fits (byte, bytes) h =
    let s = raw_field_number-Starts (first ∷ raw) n h in
    let (low, one) = first_byte_read (first ∷ raw) 0 (n * 8 + s.wire) s.end refl s.read in
    let number : (init m).number ≡ m = unfold init in refl in
    subst (λ x. matches (init m) (first ∷ raw) ≡ (n == x)) number
      (matches_by (init m) first raw n h s.positive
        (λ same.
          may_match_first m fits first (n * 8 + s.wire) s.wire s.small
            (ap (λ x. x * 8 + s.wire) (same ∙ number)) low one)
        (λ may starts.
          let (lower, upper) = may_match m fits first may in
          tag_same m fits first raw byte lower upper n s.wire s.end s.small s.read starts
          ∙ sym number))
