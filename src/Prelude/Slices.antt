-- ===== src/Prelude/Slices.antt =====
-- Parts of a list that is read and written by index: the entries from an index on, a block that is
-- written, and a change of everything behind a prefix.
use Prim.Native.Nat.{ℕ, zero, suc, ◌+◌, ◌≤◌, ◌<◌}
use mathlib.Core.Path.{◌≡◌, refl, ap, ap₂, sym, ◌∙◌}
use mathlib.Core.List.{List, [], ◌∷◌, ◌++◌}
use mathlib.Core.Option.{Option, none, some}
use native.Mathlib.Omega.{arith}
use rfish.Prelude.Lists.{length, get_elem?, set, take, get_elem?-of_lt, get_elem?-set_ne}
use rfish.Prelude.Lists.{get_elem?-set_self, length-set}

module _ {ℓ} {A : Type ℓ} where
  read_then : Option A → List A → List A
  read_then none rest = []
  read_then (some x) rest = x ∷ rest

  -- The `n` entries from index `i` on, fewer where the list ends.
  unfoldable pub entries : List A → ℕ → ℕ → List A
  unfolding read_then
  entries l i zero = []
  entries l i (suc n) = read_then (get_elem? l i) (entries l (i + 1) n)

  -- A block of entries from index `i` on.
  unfoldable pub write : List A → ℕ → List A → List A
  write l i [] = l
  write l i (x ∷ xs) = write (set l i x) (i + 1) xs

  -- A change of the part behind the first `k`.
  unfoldable pub on_tail : ℕ → (List A → List A) → List A → List A
  on_tail zero f l = f l
  on_tail (suc k) f [] = []
  on_tail (suc k) f (x ∷ l) = x ∷ on_tail k f l

  pub entries-cons :
      (l : List A) (i n : ℕ) {x : A}
      → get_elem? l i ≡ some x
      → entries l i (suc n) ≡ x ∷ entries l (i + 1) n
  unfolding entries
  entries-cons l i n here = ap (λ o. read_then o (entries l (i + 1) n)) here

  pub entries-set :
      (l : List A) (i n k : ℕ) (x : A) → k < i → entries (set l k x) i n ≡ entries l i n
  unfolding entries
  entries-set l i zero k x under = refl
  entries-set l i (suc n) k x under =
      ap₂ read_then (get_elem?-set_ne l k i x (λ e. absurd (omega (arith, under, e))))
        (entries-set l (i + 1) n k x (omega arith))

  pub entries-set_behind :
      (l : List A) (i n k : ℕ) (x : A) → i + n ≤ k → entries (set l k x) i n ≡ entries l i n
  unfolding entries
  entries-set_behind l i zero k x behind = refl
  entries-set_behind l i (suc n) k x behind =
      ap₂ read_then (get_elem?-set_ne l k i x (λ e. absurd (omega (arith, behind, e))))
        (entries-set_behind l (i + 1) n k x (omega arith))

  pub length-entries : (l : List A) (i n : ℕ) → i + n ≤ length l → length (entries l i n) ≡ n
  unfolding entries
  length-entries l i zero fits = refl
  length-entries l i (suc n) fits =
      let (x, here) = get_elem?-of_lt l i (omega arith) in
      ap length (entries-cons l i n here) ∙ ap suc (length-entries l (i + 1) n (omega arith))

  pub entries-append :
      (l : List A) (i m n : ℕ)
      → i + m ≤ length l
      → entries l i (m + n) ≡ entries l i m ++ entries l (i + m) n
  unfolding entries
  entries-append l i zero n fits =
      let same : 0 + n ≡ n = omega arith in
      let at : i ≡ i + 0 = omega arith in ap (entries l i) same ∙ ap (λ k. entries l k n) at
  entries-append l i (suc m) n fits =
      let (x, here) = get_elem?-of_lt l i (omega arith) in
      let next : suc m + n ≡ suc (m + n) = omega arith in
      let at : i + 1 + m ≡ i + suc m = omega arith in
      ap (entries l i) next
      ∙ entries-cons l i (m + n) here
      ∙ ap (λ r. x ∷ r) (entries-append l (i + 1) m n (omega arith))
      ∙ ap (λ k. x ∷ (entries l (i + 1) m ++ entries l k n)) at
      ∙ ap (λ r. r ++ entries l (i + suc m) n) (sym (entries-cons l i m here))

  pub entries-set_last :
      (l : List A) (k : ℕ) (x : A)
      → k < length l
      → entries (set l k x) 0 (k + 1) ≡ entries l 0 k ++ (x ∷ [])
  unfolding entries
  entries-set_last l k x inside =
      let at : 0 + k ≡ k = omega arith in
      entries-append (set l k x) 0 k 1 (omega (arith, length-set l k x))
      ∙ ap (λ j. entries (set l k x) 0 k ++ entries (set l k x) j 1) at
      ∙ ap (λ r. r ++ entries (set l k x) k 1) (entries-set_behind l 0 k k x (omega arith))
      ∙ ap (λ r. entries l 0 k ++ r)
          (entries-cons (set l k x) k 0 (get_elem?-set_self l k x inside))

  pub append_assoc : (xs ys zs : List A) → (xs ++ ys) ++ zs ≡ xs ++ (ys ++ zs)
  append_assoc [] ys zs = refl
  append_assoc (x ∷ xs) ys zs = ap (λ l. x ∷ l) (append_assoc xs ys zs)

  pub append_nil : (xs : List A) → xs ++ [] ≡ xs
  append_nil [] = refl
  append_nil (x ∷ xs) = ap (λ l. x ∷ l) (append_nil xs)

  pub length-write : (l : List A) (k : ℕ) (xs : List A) → length (write l k xs) ≡ length l
  unfolding write
  length-write l k [] = refl
  length-write l k (x ∷ xs) = length-write (set l k x) (k + 1) xs ∙ length-set l k x

  pub entries-write :
      (l : List A) (k : ℕ) (xs : List A)
      → k + length xs ≤ length l
      → entries (write l k xs) 0 (k + length xs) ≡ entries l 0 k ++ xs
  unfolding write
  entries-write l k [] fits =
      let same : k + 0 ≡ k = omega arith in ap (entries l 0) same ∙ sym (append_nil (entries l 0 k))
  entries-write l k (x ∷ xs) fits =
      let next : k + suc (length xs) ≡ k + 1 + length xs = omega arith in
      ap (entries (write (set l k x) (k + 1) xs) 0) next
      ∙ entries-write (set l k x) (k + 1) xs (omega (arith, length-set l k x))
      ∙ ap (λ r. r ++ xs) (entries-set_last l k x (omega arith))
      ∙ append_assoc (entries l 0 k) (x ∷ []) xs

  entries_behind : (x : A) (l : List A) (i n : ℕ) → entries (x ∷ l) (suc i) n ≡ entries l i n
  unfolding entries
  entries_behind x l i zero = refl
  entries_behind x l i (suc n) =
      let next : suc i + 1 ≡ suc (i + 1) = omega arith in
      ap (read_then (get_elem? l i))
        (ap (λ j. entries (x ∷ l) j n) next ∙ entries_behind x l (i + 1) n)

  pub entries_all : (l : List A) → entries l 0 (length l) ≡ l
  unfolding entries
  entries_all [] = refl
  entries_all (x ∷ l) = ap (λ r. x ∷ r) (entries_behind x l 0 (length l) ∙ entries_all l)

  -- A kept prefix with something else behind it.
  pub entries-front :
      (l ys : List A) (k : ℕ) → k ≤ length l → entries (take k l ++ ys) 0 k ≡ entries l 0 k
  unfolding entries
  entries-front l ys zero fits = refl
  entries-front [] ys (suc k) fits = absurd (omega arith)
  entries-front (x ∷ l) ys (suc k) fits =
      ap (λ r. x ∷ r)
        (entries_behind x (take k l ++ ys) 0 k
          ∙ entries-front l ys k (omega arith)
          ∙ sym (entries_behind x l 0 k))

  pub entries-back :
      (l ys : List A) (k : ℕ) → k ≤ length l → entries (take k l ++ ys) k (length ys) ≡ ys
  entries-back l ys zero fits = entries_all ys
  entries-back [] ys (suc k) fits = absurd (omega arith)
  entries-back (x ∷ l) ys (suc k) fits =
      entries_behind x (take k l ++ ys) k (length ys) ∙ entries-back l ys k (omega arith)

  pub on_tail-append :
      (f : List A → List A) (l ys : List A) (k : ℕ)
      → k ≤ length l
      → on_tail k f (take k l ++ ys) ≡ take k l ++ f ys
  unfolding on_tail
  on_tail-append f l ys zero fits = refl
  on_tail-append f [] ys (suc k) fits = absurd (omega arith)
  on_tail-append f (x ∷ l) ys (suc k) fits = ap (λ r. x ∷ r) (on_tail-append f l ys k (omega arith))

  pub length-front :
      (l ys : List A) (k : ℕ) → k ≤ length l → length (take k l ++ ys) ≡ k + length ys
  length-front l ys zero fits = omega arith
  length-front [] ys (suc k) fits = absurd (omega arith)
  length-front (x ∷ l) ys (suc k) fits = omega (arith, length-front l ys k (omega arith))
