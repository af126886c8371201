-- ===== src/Bench/LargeMap/Laws.antt =====
-- The shuffled map holds the same entries as the map filled in order.
use mathlib.Core.Logic.{if_pos, if_neg}
use mathlib.Core.Path.{subst, fun_ext}
use native.Mathlib.Decide.{ℕ_discrete}
use pbz.Common.{
  ℕ, zero, suc, ◌+◌, ◌-◌, ◌*◌, ◌%◌, ◌≤◌, ◌<◌, ◌≡◌, ◌≢◌, refl, sym, ap, ◌∙◌, ◌⊎◌, inl, inr, Option,
  none, some, arith,
}
use pbz.Bench.LargeMap.{
  large_map_entry_count, shuffled_large_map_index, assign, fill_large_map, make_large_map,
  fill_shuffled_large_map, make_shuffled_large_map,
}

-- 257 * 769 is 1 modulo 1024.
unfoldable pub unshuffled_index : ℕ → ℕ
unshuffled_index j = (j + large_map_entry_count - 911) * 769 % large_map_entry_count

-- The shuffle permutes the indices below 1024: it maps them to such indices, each is hit, and none
-- twice.
pub shuffled_index_permutes :
    (i j : ℕ)
    → i < large_map_entry_count
    → j < large_map_entry_count
    → (shuffled_large_map_index i < large_map_entry_count)
      × (unshuffled_index (shuffled_large_map_index i) ≡ i)
      × (unshuffled_index j < large_map_entry_count)
      × (shuffled_large_map_index (unshuffled_index j) ≡ j)
unfolding shuffled_large_map_index unshuffled_index
shuffled_index_permutes i j hi hj = omega arith

-- A loop that stores `index i % 4096 + 1` under `key (index i)`; both loops are of this form.
module _ {K : Type 0} (same_key : Discrete K) (key : ℕ → K) (index : ℕ → ℕ) where
  fill : ℕ → ℕ → (K → Option ℕ) → K → Option ℕ
  fill zero i counts = counts
  fill (suc n) i counts =
      fill n (i + 1) (assign same_key key counts (key (index i)) (index i % 4096 + 1))

  assign_same :
      (counts : K → Option ℕ) (k j : K) (v : ℕ) → j ≡ k → assign same_key key counts k v j ≡ some v
  unfolding assign
  assign_same counts k j v e = if_pos (same_key j k) e _ _

  assign_other :
      (counts : K → Option ℕ) (k j : K) (v : ℕ)
      → j ≢ k
      → assign same_key key counts k v j ≡ counts j
  unfolding assign
  assign_other counts k j v ne = if_neg (same_key j k) ne _ _

  module _ (j : ℕ)
      (only : (i : ℕ) → i < large_map_entry_count → key (index i) ≡ key j → index i ≡ j) where
    -- An entry that is there stays.
    fill_keep :
        (n i : ℕ) (counts : K → Option ℕ)
        → i + n ≤ large_map_entry_count
        → counts (key j) ≡ some (j % 4096 + 1)
        → fill n i counts (key j) ≡ some (j % 4096 + 1)
    unfolding fill
    fill_keep zero i counts room h = h
    fill_keep (suc n) i counts room h =
        fill_keep n (i + 1) _ (omega arith) (elim (same_key (key j) (key (index i))) [
          | yes e ↦
              assign_same counts (key (index i)) (key j) _ e
              ∙ ap (λ t. some (t % 4096 + 1)) (only i (omega arith) (sym e))
          | no ne ↦ assign_other counts (key (index i)) (key j) _ ne ∙ h
        ])

    -- The round whose index is `j` writes the entry.
    fill_hit :
        (n i t : ℕ) (counts : K → Option ℕ)
        → i + n ≤ large_map_entry_count
        → i ≤ t
        → t < i + n
        → index t ≡ j
        → fill n i counts (key j) ≡ some (j % 4096 + 1)
    unfolding fill
    fill_hit zero i t counts room lo hi at = absurd (omega arith)
    fill_hit (suc n) i t counts room lo hi at = elim (ℕ_discrete i t) [
      | yes here ↦
          let e : index i ≡ j = ap index here ∙ at in
          fill_keep n (i + 1) _ (omega arith) (
            assign_same counts (key (index i)) (key j) _ (ap key (sym e))
            ∙ ap (λ t. some (t % 4096 + 1)) e)
      | no later ↦ fill_hit n (i + 1) t _ (omega arith) (omega arith) (omega arith) at
    ]

  -- A key that no round writes keeps what it had.
  fill_miss :
      (k : K) (n i : ℕ) (counts : K → Option ℕ)
      → i + n ≤ large_map_entry_count
      → ((t : ℕ) → t < large_map_entry_count → key (index t) ≢ k)
      → fill n i counts k ≡ counts k
  unfolding fill
  fill_miss k zero i counts room other = refl
  fill_miss k (suc n) i counts room other =
      fill_miss k n (i + 1) _ (omega arith) other
      ∙ assign_other counts (key (index i)) k _ (λ e. other i (omega arith) (sym e))

-- Whether `k` is a key of an index below `n`.
find_index :
    {K : Type 0} (same_key : Discrete K) (key : ℕ → K) (k : K) (n : ℕ)
    → ((t : ℕ) × (t < n) × (key t ≡ k)) ⊎ ((t : ℕ) → t < n → key t ≢ k)
find_index same_key key k zero = inr (λ t h. absurd (omega arith))
find_index same_key key k (suc n) = elim (same_key (key n) k) [
  | yes e ↦ inl (n, omega arith, e)
  | no ne ↦ elim (find_index same_key key k n) [
    | inl (t, h, e) ↦ inl (t, omega arith, e)
    | inr none_below ↦ inr (λ t h. elim (ℕ_discrete t n) [
      | yes e ↦ subst (λ m. key m ≢ k) (sym e) ne
      | no before ↦ none_below t (omega arith)
    ])
  ]
]

module _ {K : Type 0} (same_key : Discrete K) (key : ℕ → K) where
  large_map-fill :
      (n i : ℕ) (counts : K → Option ℕ)
      → fill_large_map same_key key n i counts ≡ fill same_key key (λ t. t) n i counts
  unfolding fill_large_map fill
  large_map-fill zero i counts = refl
  large_map-fill (suc n) i counts = large_map-fill n (i + 1) _

  shuffled-fill :
      (n i : ℕ) (counts : K → Option ℕ)
      → fill_shuffled_large_map same_key key n i counts
        ≡ fill same_key key shuffled_large_map_index n i counts
  unfolding fill_shuffled_large_map fill
  shuffled-fill zero i counts = refl
  shuffled-fill (suc n) i counts = shuffled-fill n (i + 1) _

  module _
      (distinct : (i j : ℕ)
        → i < large_map_entry_count
        → j < large_map_entry_count
        → key i ≡ key j
        → i ≡ j) where
    large_map_entry :
        (j : ℕ)
        → j < large_map_entry_count
        → make_large_map same_key key (key j) ≡ some (j % 4096 + 1)
    unfolding make_large_map
    large_map_entry j h =
        ap (λ (m : K → Option ℕ). m (key j)) (large_map-fill large_map_entry_count 0 _)
        ∙ fill_hit same_key key (λ t. t) j (λ i hi e. distinct i j hi h e) large_map_entry_count 0 j
            _ (omega arith) (omega arith) (omega arith) refl

    shuffled_entry :
        (j : ℕ)
        → j < large_map_entry_count
        → make_shuffled_large_map same_key key (key j) ≡ some (j % 4096 + 1)
    unfolding make_shuffled_large_map
    shuffled_entry j h =
        let (_, _, inside, hit) = shuffled_index_permutes j j h h in
        ap (λ (m : K → Option ℕ). m (key j)) (shuffled-fill large_map_entry_count 0 _)
        ∙ fill_hit same_key key shuffled_large_map_index j
            (λ i hi e.
              distinct (shuffled_large_map_index i) j (shuffled_index_permutes i i hi hi).0 h e)
            large_map_entry_count 0 (unshuffled_index j) _ (omega arith) (omega arith) (omega arith)
            hit

    large_map_none :
        (k : K)
        → ((t : ℕ) → t < large_map_entry_count → key t ≢ k)
        → make_large_map same_key key k ≡ none
    unfolding make_large_map
    large_map_none k miss =
        ap (λ (m : K → Option ℕ). m k) (large_map-fill large_map_entry_count 0 _)
        ∙ fill_miss same_key key (λ t. t) k large_map_entry_count 0 _ (omega arith) miss

    shuffled_none :
        (k : K)
        → ((t : ℕ) → t < large_map_entry_count → key t ≢ k)
        → make_shuffled_large_map same_key key k ≡ none
    unfolding make_shuffled_large_map
    shuffled_none k miss =
        ap (λ (m : K → Option ℕ). m k) (shuffled-fill large_map_entry_count 0 _)
        ∙ fill_miss same_key key shuffled_large_map_index k large_map_entry_count 0 _ (omega arith)
            (λ t h. miss (shuffled_large_map_index t) (shuffled_index_permutes t t h h).0)

    shuffled_same_at :
        (k : K) → make_shuffled_large_map same_key key k ≡ make_large_map same_key key k
    shuffled_same_at k = elim (find_index same_key key k large_map_entry_count) [
      | inl (j, h, e) ↦
          subst (λ x. make_shuffled_large_map same_key key x ≡ make_large_map same_key key x) e
            (shuffled_entry j h ∙ sym (large_map_entry j h))
      | inr miss ↦ shuffled_none k miss ∙ sym (large_map_none k miss)
    ]

    -- Where the keys of the indices below 1024 are distinct, the map filled in shuffled order and the
    -- map filled in order are one map.
    pub shuffled_large_map_same : make_shuffled_large_map same_key key ≡ make_large_map same_key key
    shuffled_large_map_same = fun_ext shuffled_same_at
