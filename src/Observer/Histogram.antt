-- ===== src/Observer/Histogram.antt =====
-- `cumulative` of src/observer/prometheus.rs, and what the exposed histograms say: a bucket counts
-- the durations that do not exceed its bound.
use rpc_plus_plus.Prelude.Words.{u64, ◌+u64◌}
use rpc_plus_plus.Observer.Snapshot.{zeros}
use rpc_plus_plus.Observer.Record.{count_in}
use rpc_plus_plus.Prelude.{
  ℕ, zero, suc, ◌≤◌, ◌≡◌, refl, sym, ap, ◌∙◌, inl, inr, true, false, List, [], ◌∷◌, map, arith, ltb,
  leb, if◌then◌else◌, leb→le, le→leb, Bool-cases, length, All,
}

-- The closure over `running`.
unfoldable pub cumulative_from : ℕ → List ℕ → List ℕ
cumulative_from running [] = []
cumulative_from running (c ∷ cs) =
    let running' = running +u64 c in running' ∷ cumulative_from running' cs

unfoldable pub cumulative : List ℕ → List ℕ
unfolding cumulative_from
cumulative buckets = cumulative_from 0 buckets

-- The bounds ascend.
abbrev pub IsAscending : List ℕ → Type 0
IsAscending [] = Unit {0}
IsAscending (b ∷ bs) = All (λ c. b ≤ c) bs × IsAscending bs

-- How many of the values do not exceed the bound.
unfoldable pub count_le : ℕ → List ℕ → ℕ
count_le b [] = 0
count_le b (x ∷ xs) = if leb x b then suc (count_le b xs) else count_le b xs

-- The buckets after the values, from fresh ones.
unfoldable pub count_all : List ℕ → List ℕ → List ℕ → List ℕ
unfolding count_in
count_all bounds buckets [] = buckets
count_all bounds buckets (x ∷ xs) = count_all bounds (count_in bounds x buckets) xs

-- One more in each place whose bound is at least `x`.
abbrev raise : List ℕ → ℕ → List ℕ → List ℕ
raise [] x cs = []
raise (b ∷ bs) x [] = []
raise (b ∷ bs) x (c ∷ cs) = (if leb x b then c +u64 1 else c) ∷ raise bs x cs

cumulative_from-suc :
    (bounds : List ℕ) (x r : ℕ) (cs : List ℕ)
    → length bounds ≡ length cs
    → All (λ b. x ≤ b) bounds
    → cumulative_from (r +u64 1) cs ≡ raise bounds x (cumulative_from r cs)
unfolding cumulative_from
cumulative_from-suc [] x r [] e h = refl
cumulative_from-suc [] x r (c ∷ cs) e h = absurd (omega arith)
cumulative_from-suc (b ∷ bs) x r [] e h = absurd (omega arith)
cumulative_from-suc (b ∷ bs) x r (c ∷ cs) e h =
    let swap : (r +u64 1) +u64 c ≡ (r +u64 c) +u64 1 = omega arith in
    let tail : cumulative_from ((r +u64 c) +u64 1) cs ≡ raise bs x (cumulative_from (r +u64 c) cs) =
      cumulative_from-suc bs x (r +u64 c) cs (omega arith) h.1 in
    rw swap (rw tail (rw (le→leb x b h.0)))

count_in-cons :
    (b x c : ℕ) (bs cs : List ℕ)
    → count_in (b ∷ bs) x (c ∷ cs) ≡ (if ltb b x then c ∷ count_in bs x cs else (c +u64 1) ∷ cs)
unfolding count_in
count_in-cons b x c bs cs = elim (Bool-cases (ltb b x)) [ inl e ↦ rw e | inr e ↦ rw e ]

All-le_trans : (x b : ℕ) (bs : List ℕ) → x ≤ b → All (λ c. b ≤ c) bs → All (λ c. x ≤ c) bs
All-le_trans x b [] h a = tt
All-le_trans x b (c ∷ bs) h a = (omega arith, All-le_trans x b bs h a.1)

cumulative_from-count_in :
    (bounds : List ℕ) (x r : ℕ) (cs : List ℕ)
    → length bounds ≡ length cs
    → IsAscending bounds
    → cumulative_from r (count_in bounds x cs) ≡ raise bounds x (cumulative_from r cs)
unfolding cumulative_from
cumulative_from-count_in [] x r [] e h = unfold count_in in refl
cumulative_from-count_in [] x r (c ∷ cs) e h = absurd (omega arith)
cumulative_from-count_in (b ∷ bs) x r [] e h = absurd (omega arith)
cumulative_from-count_in (b ∷ bs) x r (c ∷ cs) e h =
    rw (count_in-cons b x c bs cs) (elim (Bool-cases (ltb b x)) [
      | inl below ↦
          let over : leb x b ≡ false = ground arith in
          rw (below, over)
            (ap (◌∷◌ (r +u64 c)) (cumulative_from-count_in bs x (r +u64 c) cs (omega arith) h.1))
      | inr reached ↦
          let within : leb x b ≡ true = ground arith in
          let one_more : r +u64 (c +u64 1) ≡ (r +u64 c) +u64 1 = omega arith in
          rw (reached, within)
            (rw one_more (
              ap (◌∷◌ ((r +u64 c) +u64 1)) (
                cumulative_from-suc bs x (r +u64 c) cs (omega arith)
                  (All-le_trans x b bs (leb→le x b within) h.0))))
    ])

-- Each place as the count of the values, on top of what it held.
abbrev add_counts : List ℕ → List ℕ → List ℕ → List ℕ
add_counts [] xs cs = []
add_counts (b ∷ bs) xs [] = []
add_counts (b ∷ bs) xs (c ∷ cs) = (c +u64 count_le b xs) ∷ add_counts bs xs cs

add_counts-cons :
    (bounds : List ℕ) (x : ℕ) (xs cs : List ℕ)
    → add_counts bounds xs (raise bounds x cs) ≡ add_counts bounds (x ∷ xs) cs
unfolding count_le
add_counts-cons [] x xs cs = refl
add_counts-cons (b ∷ bs) x xs [] = refl
add_counts-cons (b ∷ bs) x xs (c ∷ cs) =
    rw (add_counts-cons bs x xs cs) (elim (Bool-cases (leb x b)) [
      | inl e ↦ rw e (ap (λ k. k ∷ add_counts bs (x ∷ xs) cs) (omega arith))
      | inr e ↦ rw e
    ])

length-count_in :
    (bounds : List ℕ) (x : ℕ) (cs : List ℕ) → length (count_in bounds x cs) ≡ length cs
length-count_in [] x [] = unfold count_in in refl
length-count_in [] x (c ∷ cs) = unfold count_in in refl
length-count_in (b ∷ bs) x [] = unfold count_in in refl
length-count_in (b ∷ bs) x (c ∷ cs) =
    rw (count_in-cons b x c bs cs) (ground (arith, length-count_in bs x cs))

add_counts-nil :
    (bounds cs : List ℕ) (r : ℕ)
    → length bounds ≡ length cs
    → add_counts bounds [] (cumulative_from r cs) ≡ cumulative_from r cs
unfolding count_le cumulative_from
add_counts-nil [] [] r e = refl
add_counts-nil [] (c ∷ cs) r e = absurd (omega arith)
add_counts-nil (b ∷ bs) [] r e = refl
add_counts-nil (b ∷ bs) (c ∷ cs) r e =
    let same : (r +u64 c) +u64 0 ≡ r +u64 c = omega arith in
    rw same (ap (◌∷◌ (r +u64 c)) (add_counts-nil bs cs (r +u64 c) (omega arith)))

cumulative_from-count_all :
    (bounds xs cs : List ℕ) (r : ℕ)
    → length bounds ≡ length cs
    → IsAscending bounds
    → cumulative_from r (count_all bounds cs xs) ≡ add_counts bounds xs (cumulative_from r cs)
unfolding count_all
cumulative_from-count_all bounds [] cs r e h = sym (add_counts-nil bounds cs r e)
cumulative_from-count_all bounds (x ∷ xs) cs r e h =
    cumulative_from-count_all bounds xs (count_in bounds x cs) r
      (e ∙ sym (length-count_in bounds x cs)) h
    ∙ (ap (add_counts bounds xs) (cumulative_from-count_in bounds x r cs e h)
        ∙ add_counts-cons bounds x xs (cumulative_from r cs))

add_counts-zeros :
    (bounds xs : List ℕ)
    → add_counts bounds xs (cumulative_from 0 (zeros (length bounds)))
      ≡ map (λ b. u64 (count_le b xs)) bounds
unfolding cumulative_from
add_counts-zeros [] xs = refl
add_counts-zeros (b ∷ bs) xs =
    let none_yet : 0 +u64 count_le b xs ≡ u64 (count_le b xs) = omega arith in
    rw none_yet (ap (◌∷◌ (u64 (count_le b xs))) (add_counts-zeros bs xs))

-- After any values, each exposed bucket holds the number of the values that do not exceed its
-- bound, as a 64-bit count. The bounds must ascend.
pub cumulative-count_all :
    (bounds xs : List ℕ)
    → IsAscending bounds
    → cumulative (count_all bounds (zeros (length bounds)) xs)
      ≡ map (λ b. u64 (count_le b xs)) bounds
unfolding cumulative
cumulative-count_all bounds xs h =
    cumulative_from-count_all bounds xs (zeros (length bounds)) 0 (length-zeros (length bounds)) h
    ∙ add_counts-zeros bounds xs
  where
    length-zeros : (n : ℕ) → n ≡ length (zeros n)
    length-zeros zero = refl
    length-zeros (suc n) = ap suc (length-zeros n)
