-- ===== src/Metrics/Snapshot/Timeline.antt =====
-- Every sealed bucket stands in the timeline of a snapshot, at its own place.
use tracepoint.Base.{
  ℕ, zero, suc, ◌+◌, ◌-◌, ◌≤◌, ◌<◌, ◌≡◌, ap, ◌∙◌, subst, true, false, List, [], ◌∷◌, some, arith,
  ◌==◌, leb, Bool-cases, ◌⊎◌, inl, inr, get_elem?, ==_iff,
}
use tracepoint.Base.Float.{Float}
use tracepoint.Metrics.Sketch.{Sketches}
use tracepoint.Metrics.Collector.State.{Collector, BucketSummary}
use tracepoint.Metrics.Collector.Maps.{lookup}
use tracepoint.Metrics.Snapshot.{
  insert_index, sorted_bucket_indexes, last_of, entry_at, bucket_or, buckets_from, span, timeline,
  snapshot,
}

nothing_below : (i : ℕ) → i < 0 → ⊥
nothing_below i h = omega arith

leb-cases : (i x : ℕ) → ((leb i x ≡ true) × (i ≤ x)) ⊎ ((leb i x ≡ false) × (x < i))
leb-cases i x = elim (Bool-cases (leb i x)) [
  | inl e ↦ inl (e, ground arith)
  | inr e ↦ inr (e, ground arith)
]

abbrev Ordered : ℕ → List ℕ → Type 0
Ordered lo [] = Unit
Ordered lo (x ∷ xs) = (lo ≤ x) × Ordered x xs

-- Between the first and the last of a list.
abbrev Within : ℕ → List ℕ → Type 0
Within j [] = ⊥
Within j (x ∷ xs) = (x ≤ j) × (j ≤ last_of x xs)

Ordered-insert_index :
    (lo i : ℕ) (xs : List ℕ) → lo ≤ i → Ordered lo xs → Ordered lo (insert_index i xs)
unfolding insert_index
Ordered-insert_index lo i [] h o = (h, tt)
Ordered-insert_index lo i (x ∷ xs) h (a, o) = elim (leb-cases i x) [
  | inl (e, l) ↦ rw e (h, (omega arith, o))
  | inr (e, l) ↦ rw e (a, Ordered-insert_index x i xs (omega arith) o)
]

Ordered-sorted : {V : Type 0} (m : List (ℕ × V)) → Ordered 0 (sorted_bucket_indexes m)
unfolding sorted_bucket_indexes
Ordered-sorted [] = tt
Ordered-sorted ((i, v) ∷ m) =
    Ordered-insert_index 0 i (sorted_bucket_indexes m) (omega arith) (Ordered-sorted m)

last_of-Ordered : (x : ℕ) (xs : List ℕ) → Ordered x xs → x ≤ last_of x xs
last_of-Ordered x [] o = omega arith
last_of-Ordered x (y ∷ ys) (a, o) = omega (arith, last_of-Ordered y ys o)

last_of-insert :
    (d i : ℕ) (xs : List ℕ)
    → d ≤ i
    → Ordered d xs
    → (i ≤ last_of d (insert_index i xs)) × (last_of d xs ≤ last_of d (insert_index i xs))
unfolding insert_index
last_of-insert d i [] h o = (omega arith, omega arith)
last_of-insert d i (x ∷ xs) h (a, o) = elim (leb-cases i x) [
  | inl (e, l) ↦ rw e (omega (arith, last_of-Ordered x xs o), omega arith)
  | inr (e, l) ↦ rw e (last_of-insert x i xs (omega arith) o)
]

Within-new : (i : ℕ) (xs : List ℕ) → Ordered 0 xs → Within i (insert_index i xs)
unfolding insert_index
Within-new i [] o = (omega arith, omega arith)
Within-new i (x ∷ xs) (a, o) = elim (leb-cases i x) [
  | inl (e, l) ↦ rw e (omega arith, omega (arith, last_of-Ordered x xs o))
  | inr (e, l) ↦ rw e (omega arith, (last_of-insert x i xs (omega arith) o).0)
]

Within-old : (i j : ℕ) (xs : List ℕ) → Ordered 0 xs → Within j xs → Within j (insert_index i xs)
unfolding insert_index
Within-old i j [] o w = elim w [ ]
Within-old i j (x ∷ xs) (a, o) (b, w) = elim (leb-cases i x) [
  | inl (e, l) ↦ rw e (omega arith, omega arith)
  | inr (e, l) ↦ rw e (omega arith, omega (arith, (last_of-insert x i xs (omega arith) o).1))
]

Within-sorted :
    {V : Type 0} (j : ℕ) (b : V) (m : List (ℕ × V))
    → lookup j m ≡ some b
    → Within j (sorted_bucket_indexes m)
unfolding lookup sorted_bucket_indexes
Within-sorted j b [] h = cc
Within-sorted j b ((i, v) ∷ m) h = elim (Bool-cases (i == j)) [
  | inl e ↦
      subst (λ n. Within n (insert_index i (sorted_bucket_indexes m))) ((==_iff i j).0 e)
        (Within-new i (sorted_bucket_indexes m) (Ordered-sorted m))
  | inr e ↦
      Within-old i j (sorted_bucket_indexes m) (Ordered-sorted m)
        (Within-sorted j b m (ground arith))
]

module _ (f : Float) (k : Sketches f) (c : Collector f k) where
  get_elem-buckets_from :
      (first n i : ℕ)
      → i < n
      → get_elem? (buckets_from f k c first n) i ≡ some (entry_at f k c (first + i))
  unfolding buckets_from
  get_elem-buckets_from first zero i h = elim (nothing_below i h) [ ]
  get_elem-buckets_from first (suc n) zero h = ap (λ j. some (entry_at f k c j)) (omega arith)
  get_elem-buckets_from first (suc n) (suc i) h =
      get_elem-buckets_from (suc first) n i (omega arith)
      ∙ ap (λ j. some (entry_at f k c j)) (omega arith)

  -- The bucket that the timeline begins with.
  abbrev pub first_index : ℕ
  first_index = elim (sorted_bucket_indexes c.buckets) [ [] ↦ 0 | x ∷ xs ↦ x ]

  span-holds :
      (is : List ℕ) (j : ℕ)
      → Within j is
      → get_elem? (span f k c is) (j - elim is [ [] ↦ 0 | x ∷ xs ↦ x ]) ≡ some (entry_at f k c j)
  span-holds [] j w = elim w [ ]
  span-holds (x ∷ xs) j (a, b) =
      get_elem-buckets_from x (suc (last_of x xs) - x) (j - x) (omega arith)
      ∙ ap (λ i. some (entry_at f k c i)) (omega arith)

  first_of-Within : (is : List ℕ) (j : ℕ) → Within j is → elim is [ [] ↦ 0 | x ∷ xs ↦ x ] ≤ j
  first_of-Within [] j w = elim w [ ]
  first_of-Within (x ∷ xs) j (a, b) = a

  -- A bucket that was sealed, at some index, is not before the first one of the snapshot, and the
  -- snapshot has it as many places behind its first bucket as the indexes are apart.
  pub snapshot-holds :
      (j : ℕ) (b : BucketSummary f k)
      → lookup j c.buckets ≡ some b
      → (first_index ≤ j) × (get_elem? (snapshot f k c).buckets (j - first_index) ≡ some b)
  unfolding snapshot timeline
  snapshot-holds j b h =
      let w = Within-sorted j b c.buckets h in
      (
        first_of-Within (sorted_bucket_indexes c.buckets) j w,
        span-holds (sorted_bucket_indexes c.buckets) j w ∙ ap (λ o. some (bucket_or f k c j o)) h,
      )
