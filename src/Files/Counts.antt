-- ===== src/Files/Counts.antt =====
-- How often a number stands in a list.
use cidemis.Base.{
  ℕ, suc, ◌+◌, ◌<◌, ◌≤◌, ◌≡◌, refl, Option, List, [], ◌∷◌, ◌++◌, map, String, length, ap, ◌==◌,
  if◌then◌else◌, arith,
}
use cidemis.Files.{FileField, put_file, remove_field, remove_id}

abbrev pub count : ℕ → List ℕ → ℕ
count n [] = 0
count n (m ∷ ms) = let rest = count n ms in if m == n then suc rest else rest

abbrev pub numbers : List FileField → List ℕ
numbers [] = []
numbers (f ∷ fs) = f.number ∷ numbers fs

pub count-append : (n : ℕ) (ms ks : List ℕ) → count n (ms ++ ks) ≡ count n ms + count n ks
count-append n [] ks = ground arith
count-append n (m ∷ ms) ks = ground (arith, count-append n ms ks)

pub numbers-append : (fs gs : List FileField) → numbers (fs ++ gs) ≡ numbers fs ++ numbers gs
numbers-append [] gs = refl
numbers-append (f ∷ fs) gs = ap (λ ms. f.number ∷ ms) (numbers-append fs gs)

pub count-remove_field :
    (k n : ℕ) (fs : List FileField) → count k (numbers (remove_field n fs)) ≤ count k (numbers fs)
unfolding remove_field
count-remove_field k n [] = omega arith
count-remove_field k n (f ∷ fs) = ground (arith, count-remove_field k n fs)

pub length-remove_field :
    (n : ℕ) (fs : List FileField) → length fs ≤ suc (length (remove_field n fs))
unfolding remove_field
length-remove_field n [] = omega arith
length-remove_field n (f ∷ fs) = ground (arith, length-remove_field n fs)

pub numbers-put_file :
    (n : ℕ) (file : Option String) (fs : List FileField)
    → numbers (map (put_file n file) fs) ≡ numbers fs
unfolding put_file
numbers-put_file n file [] = refl
numbers-put_file n file (f ∷ fs) = ground (arith, numbers-put_file n file fs)

pub length-put_file :
    (n : ℕ) (file : Option String) (fs : List FileField)
    → length (map (put_file n file) fs) ≡ length fs
length-put_file n file [] = refl
length-put_file n file (f ∷ fs) = ap suc (length-put_file n file fs)

pub count-remove_id :
    (k n : ℕ) (ms : List ℕ)
    → 0 < count n ms
    → count k (remove_id n ms) + (if n == k then 1 else 0) ≡ count k ms
unfolding remove_id
count-remove_id k n [] h = omega arith
count-remove_id k n (m ∷ ms) h = ground (arith, count-remove_id k n ms)
