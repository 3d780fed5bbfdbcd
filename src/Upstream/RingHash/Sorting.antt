-- ===== src/Upstream/RingHash/Sorting.antt =====
-- A sort by insertion, which shows that what is relied on of `std::sort` can hold.
use meliproxy.Upstream.RingHash.{RingEntry, Library, hash_at}
use meliproxy.Upstream.RingHash.Search.{IsSorted}
use meliproxy.Upstream.RingHash.Create.{Sorts, count_if}
use meliproxy.Shared.{
  refl, if_cases, leb→le, length, leb, ◌∷◌, arith, [], ℕ, suc, ◌<◌, zero, ◌≤◌, ◌≡◌, List, Bool,
  if◌then◌else◌,
}

insert : RingEntry → List RingEntry → List RingEntry
insert e [] = e ∷ []
insert e (x ∷ xs) = let rest = insert e xs in if leb e.hash x.hash then e ∷ x ∷ xs else x ∷ rest

pub insertion_sort : List RingEntry → List RingEntry
insertion_sort [] = []
insertion_sort (x ∷ xs) = insert x (insertion_sort xs)

-- A library whose other functions are constant.
abbrev pub constant : Library
constant = record {
  string_hash = λ s. 7;
  to_string = λ n. b'0' ∷ [];
  address_of = λ h. [];
  sort = insertion_sort;
}

abbrev IsBelow : ℕ → List RingEntry → Type 0
IsBelow b xs = (j : ℕ) → j < length xs → b ≤ hash_at xs j

IsBelow-cons :
    (b : ℕ) (e : RingEntry) (xs : List RingEntry) → b ≤ e.hash → IsBelow b xs → IsBelow b (e ∷ xs)
IsBelow-cons b e xs h below zero l = h
IsBelow-cons b e xs h below (suc j) l = below j (omega arith)

IsSorted-cons :
    (e : RingEntry) (xs : List RingEntry) → IsBelow e.hash xs → IsSorted xs → IsSorted (e ∷ xs)
IsSorted-cons e xs b s zero zero h l = omega arith
IsSorted-cons e xs b s zero (suc j) h l = b j (omega arith)
IsSorted-cons e xs b s (suc i) zero h l = absurd (omega arith)
IsSorted-cons e xs b s (suc i) (suc j) h l = s i j (omega arith) (omega arith)

IsSorted-tail :
    (e : RingEntry) (xs : List RingEntry) → IsSorted (e ∷ xs) → IsBelow e.hash xs × IsSorted xs
IsSorted-tail e xs s = (
  λ j l. s 0 (suc j) (omega arith) (omega arith),
  λ i j h l. s (suc i) (suc j) (omega arith) (omega arith),
)

IsBelow-insert :
    (b : ℕ) (e : RingEntry) (xs : List RingEntry)
    → b ≤ e.hash
    → IsBelow b xs
    → IsBelow b (insert e xs)
unfolding insert
IsBelow-insert b e [] h below = IsBelow-cons b e [] h below
IsBelow-insert b e (x ∷ xs) h below =
    if_cases (IsBelow b) (leb e.hash x.hash) _ _ (λ t. IsBelow-cons b e (x ∷ xs) h below)
      (λ t.
        IsBelow-cons b x (insert e xs) (below 0 (omega arith))
          (IsBelow-insert b e xs h (λ j l. below (suc j) (omega arith))))

IsBelow-trans : (a b : ℕ) (xs : List RingEntry) → a ≤ b → IsBelow b xs → IsBelow a xs
IsBelow-trans a b xs h below j l = omega (arith, below j l)

IsSorted-insert : (e : RingEntry) (xs : List RingEntry) → IsSorted xs → IsSorted (insert e xs)
unfolding insert
IsSorted-insert e [] s = IsSorted-cons e [] (λ j l. absurd (omega arith)) s
IsSorted-insert e (x ∷ xs) s =
    let (below, s') = IsSorted-tail x xs s in
    if_cases IsSorted (leb e.hash x.hash) _ _
      (λ t.
        IsSorted-cons e (x ∷ xs)
          (IsBelow-cons e.hash x xs (leb→le e.hash x.hash t)
            (IsBelow-trans e.hash x.hash xs (leb→le e.hash x.hash t) below))
          s)
      (λ t.
        IsSorted-cons x (insert e xs) (IsBelow-insert x.hash e xs (ground arith) below)
          (IsSorted-insert e xs s'))

insertion_sort-IsSorted : (xs : List RingEntry) → IsSorted (insertion_sort xs)
unfolding insertion_sort
insertion_sort-IsSorted [] i j h l = absurd (omega arith)
insertion_sort-IsSorted (x ∷ xs) i j h l =
    IsSorted-insert x (insertion_sort xs) (insertion_sort-IsSorted xs) i j h l

count_if-insert :
    (p : RingEntry → Bool) (e : RingEntry) (xs : List RingEntry)
    → count_if p (insert e xs) ≡ count_if p (e ∷ xs)
unfolding insert
count_if-insert p e [] = refl
count_if-insert p e (x ∷ xs) =
    if_cases (λ (ys : List RingEntry). count_if p ys ≡ count_if p (e ∷ x ∷ xs)) (leb e.hash x.hash)
      _ _ (λ t. refl) (λ t. omega (arith, count_if-insert p e xs))

count_if-insertion_sort :
    (p : RingEntry → Bool) (xs : List RingEntry) → count_if p (insertion_sort xs) ≡ count_if p xs
unfolding insertion_sort
count_if-insertion_sort p [] = refl
count_if-insertion_sort p (x ∷ xs) =
    omega (arith, count_if-insert p x (insertion_sort xs), count_if-insertion_sort p xs)

pub constant-Sorts : Sorts constant
constant-Sorts = record {
  in_order = insertion_sort-IsSorted;
  same_entries = count_if-insertion_sort;
}
