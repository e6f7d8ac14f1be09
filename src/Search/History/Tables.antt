-- ===== src/Search/History/Tables.antt =====
-- The updates of the tables: total on tables of their shape, seen at the one entry, within the limit.
use rfish.Prelude.{ℕ, ◌≤◌, ◌<◌, ◌≡◌, ◌≢◌, ◌∙◌, sym, arith, refl, Option, some, List, ◌⊎◌, inl, inr}
use rfish.Prelude.{length, get_elem?, set, All, length-set, All-set, All-get_elem?, get_elem?-of_lt}
use rfish.Prelude.{get_elem?-set_self, get_elem?-set_ne}
use rfish.Prelude.Int.{ℤ, abs_ℕ}
use native.Mathlib.Decide.{ℕ_discrete}
use rfish.Search.History.{Bonus, Row, Plane, Planes, apply_gravity, modify_at, update_row}
use rfish.Search.History.{update_plane, update_planes, get_row, get_plane, get_planes}
use rfish.Search.History.Gravity.{apply_gravity_bounds}

-- An array of a fixed size.
abbrev pub IsArray {ℓ} : {A : Type ℓ} → ℕ → (A → Type 0) → List A → Type 0
IsArray n P xs = (length xs ≡ n) × All P xs

-- A row, a plane and a list of planes whose entries are within the limit.
abbrev pub IsRow : ℕ → ℕ → Row → Type 0
IsRow limit k = IsArray k (λ v. abs_ℕ v ≤ limit)

abbrev pub IsPlane : ℕ → ℕ → ℕ → Plane → Type 0
IsPlane limit m k = IsArray m (IsRow limit k)

abbrev pub IsPlanes : ℕ → ℕ → ℕ → ℕ → Planes → Type 0
IsPlanes limit n m k = IsArray n (IsPlane limit m k)

modify_at-some :
    {A : Type 0} (xs : List A) (i : ℕ) (f : A → Option A) (x y : A)
    → get_elem? xs i ≡ some x
    → f x ≡ some y
    → modify_at xs i f ≡ some (set xs i y)
unfolding modify_at
modify_at-some xs i f x y at eq = rw (at, eq, modify_at) refl

-- A step at one place of an array: it succeeds, the array keeps its shape, the place holds the step's
-- result, and the others what they held.
modify_at-IsArray :
    {A : Type 0} (n : ℕ) (P : A → Type 0) (xs : List A) (i : ℕ) (f : A → Option A)
    → IsArray n P xs
    → i < n
    → (step : (x : A) → P x → (y : A) × (f x ≡ some y) × P y)
    → (ys : List A) × (x : A) × (good : P x) × (modify_at xs i f ≡ some ys)
      × IsArray n P ys
      × (get_elem? xs i ≡ some x)
      × (get_elem? ys i ≡ some (step x good).0)
      × ((j : ℕ) → j ≢ i → get_elem? ys j ≡ get_elem? xs j)
modify_at-IsArray n P xs i f shape low step =
    let inside : i < length xs = omega (arith, shape.0) in
    let (x, at) = get_elem?-of_lt xs i inside in
    let good = All-get_elem? P xs i x shape.1 at in
    let (y, eq, keep) = step x good in
    (
      set xs i y,
      x,
      good,
      modify_at-some xs i f x y at eq,
      (length-set xs i y ∙ shape.0, All-set P xs i y shape.1 keep),
      at,
      get_elem?-set_self xs i y inside,
      λ j ne. get_elem?-set_ne xs i j y (λ e. ne (sym e)),
    )

-- The update of one entry of a table of each depth: it does not panic, the table keeps its shape and
-- its bounds, the entry obeys the gravity rule, and the others stay.
row_step :
    (limit k : ℕ) (t : Row) (l : ℕ) (bonus : Bonus)
    → 0 < limit
    → limit ≤ 32767
    → IsRow limit k t
    → l < k
    → (u : Row) × (update_row limit t l bonus ≡ some u)
      × IsRow limit k u
      × ((v : ℤ) × (get_row t l ≡ some v) × (get_row u l ≡ some (apply_gravity limit v bonus)))
      × ((x : ℕ) → x ≢ l → get_row u x ≡ get_row t x)
unfolding update_row
row_step limit k t l bonus some_limit small shape low =
    let pulled = λ (v : ℤ). apply_gravity limit v bonus in
    let r =
      modify_at-IsArray k (λ (v : ℤ). abs_ℕ v ≤ limit) t l (λ v. some (pulled v)) shape low
        (λ v h. (pulled v, refl, (apply_gravity_bounds limit v bonus some_limit small h).0)) in
    (r.0, r.3, r.4, (r.1, r.5, r.6), r.7)

get_plane_at :
    (t : Plane) (j l : ℕ) (row : Row) → get_elem? t j ≡ some row → get_plane t j l ≡ get_row row l
get_plane_at t j l row at = rw (at, get_plane) refl

get_planes_at :
    (t : Planes) (i j l : ℕ) (plane : Plane)
    → get_elem? t i ≡ some plane
    → get_planes t i j l ≡ get_plane plane j l
get_planes_at t i j l plane at = rw (at, get_planes) refl

get_plane_same :
    (t u : Plane) (j l : ℕ) → get_elem? u j ≡ get_elem? t j → get_plane u j l ≡ get_plane t j l
get_plane_same t u j l same = rw (same, get_plane) refl

get_planes_same :
    (t u : Planes) (i j l : ℕ)
    → get_elem? u i ≡ get_elem? t i
    → get_planes u i j l ≡ get_planes t i j l
get_planes_same t u i j l same = rw (same, get_planes) refl

-- The two indices of an entry differ from these.
abbrev Away : ℕ → ℕ → ℕ → ℕ → Type 0
Away j l x y = (x ≢ j) ⊎ (y ≢ l)

pub plane_step :
    (limit m k : ℕ) (t : Plane) (j l : ℕ) (bonus : Bonus)
    → 0 < limit
    → limit ≤ 32767
    → IsPlane limit m k t
    → j < m
    → l < k
    → (u : Plane) × (update_plane limit t j l bonus ≡ some u)
      × IsPlane limit m k u
      × ((v : ℤ) × (get_plane t j l ≡ some v)
          × (get_plane u j l ≡ some (apply_gravity limit v bonus)))
      × ((x y : ℕ) → (x ≢ j) ⊎ (y ≢ l) → get_plane u x y ≡ get_plane t x y)
unfolding update_plane
plane_step limit m k t j l bonus some_limit small shape low_j low_l =
    let inner = λ (row : Row) (h : IsRow limit k row).
      row_step limit k row l bonus some_limit small h low_l in
    let r =
      modify_at-IsArray m (IsRow limit k) t j (λ row. update_row limit row l bonus) shape low_j
        (λ row h. ((inner row h).0, (inner row h).1, (inner row h).2)) in
    let s = inner r.1 r.2 in
    let was = λ (y : ℕ). get_plane_at t j y r.1 r.5 in
    let now = λ (y : ℕ). get_plane_at r.0 j y s.0 r.6 in
    let frame : (x y : ℕ) → Away j l x y → Dec (x ≡ j) → get_plane r.0 x y ≡ get_plane t x y =
      λ x y away same. elim same [
        | no ne ↦ get_plane_same t r.0 x y (r.7 x ne)
        | yes e ↦ elim away [
          | inl ne ↦ absurd (ne e)
          | inr ne ↦ rw e (now y ∙ s.4 y ne ∙ sym (was y))
        ]
      ] in
    (
      r.0,
      r.3,
      r.4,
      (s.3.0, was l ∙ s.3.1, now l ∙ s.3.2),
      λ x y away. frame x y away (ℕ_discrete x j),
    )

pub planes_step :
    (limit n m k : ℕ) (t : Planes) (i j l : ℕ) (bonus : Bonus)
    → 0 < limit
    → limit ≤ 32767
    → IsPlanes limit n m k t
    → i < n
    → j < m
    → l < k
    → (u : Planes) × (update_planes limit t i j l bonus ≡ some u)
      × IsPlanes limit n m k u
      × ((v : ℤ) × (get_planes t i j l ≡ some v)
          × (get_planes u i j l ≡ some (apply_gravity limit v bonus)))
      × ((x y z : ℕ) → (x ≢ i) ⊎ ((y ≢ j) ⊎ (z ≢ l)) → get_planes u x y z ≡ get_planes t x y z)
unfolding update_planes
planes_step limit n m k t i j l bonus some_limit small shape low_i low_j low_l =
    let inner = λ (plane : Plane) (h : IsPlane limit m k plane).
      plane_step limit m k plane j l bonus some_limit small h low_j low_l in
    let r =
      modify_at-IsArray n (IsPlane limit m k) t i (λ plane. update_plane limit plane j l bonus)
        shape low_i (λ plane h. ((inner plane h).0, (inner plane h).1, (inner plane h).2)) in
    let s = inner r.1 r.2 in
    let was = λ (y z : ℕ). get_planes_at t i y z r.1 r.5 in
    let now = λ (y z : ℕ). get_planes_at r.0 i y z s.0 r.6 in
    let frame : (x y z : ℕ)
        → (x ≢ i) ⊎ Away j l y z
        → Dec (x ≡ i)
        → get_planes r.0 x y z ≡ get_planes t x y z =
      λ x y z away same. elim same [
        | no ne ↦ get_planes_same t r.0 x y z (r.7 x ne)
        | yes e ↦ elim away [
          | inl ne ↦ absurd (ne e)
          | inr ne ↦ rw e (now y z ∙ s.4 y z ne ∙ sym (was y z))
        ]
      ] in
    (
      r.0,
      r.3,
      r.4,
      (s.3.0, was j l ∙ s.3.1, now j l ∙ s.3.2),
      λ x y z away. frame x y z away (ℕ_discrete x i),
    )
