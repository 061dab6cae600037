-- ===== src/Common/Sorting.antt =====
-- A sort by a Boolean order, that of Array.prototype.sort.
use Prim.Native.Nat.{suc}
use mathlib.Core.Path.{◌≡◌, refl, sym, ap, subst, ◌∙◌}
use mathlib.Core.Bool.{Bool, true, false}
use mathlib.Core.Logic.{◌↔◌, ◌⊎◌, inl, inr}
use mathlib.Core.List.{List, [], ◌∷◌}
use native.Mathlib.Omega.{arith}
use rehearsal_db.Common.Lists.{length, In, keep}
use rehearsal_db.Common.Tests.{Bool-cases}

-- `sort` by a strict order; rows that the order does not tell apart keep their order.
unfoldable pub insert_by {ℓ} : {A : Type ℓ} → (A → A → Bool) → A → List A → List A
insert_by before a [] = a ∷ []
insert_by before a (x ∷ xs) = elim (before x a) [
  | true ↦ x ∷ insert_by before a xs
  | false ↦ a ∷ x ∷ xs
]

unfoldable pub sort_by {ℓ} : {A : Type ℓ} → (A → A → Bool) → List A → List A
unfolding insert_by
sort_by before [] = []
sort_by before (x ∷ xs) = insert_by before x (sort_by before xs)

insert_by-cases {ℓ} :
    {A : Type ℓ} (before : A → A → Bool) (b x : A) (xs : List A)
    → (insert_by before b (x ∷ xs) ≡ x ∷ insert_by before b xs)
      ⊎ (insert_by before b (x ∷ xs) ≡ b ∷ x ∷ xs)
unfolding insert_by
insert_by-cases before b x xs = elim (Bool-cases (before x b)) [
  | inl e ↦ inl (ground arith)
  | inr e ↦ inr (ground arith)
]

In-insert_by_iff :
    {A : Type 0} (before : A → A → Bool) (a b : A) (xs : List A)
    → In a (insert_by before b xs) ↔ ((b ≡ a) ⊎ In a xs)
unfolding insert_by
In-insert_by_iff before a b [] = ((λ i. i), (λ i. i))
In-insert_by_iff before a b (x ∷ xs) =
    let (into, out) = In-insert_by_iff before a b xs in
    elim (insert_by-cases before b x xs) [
      | inl e ↦ (
        (λ i. elim (subst (λ l. In a l) e i) [
          | inl same ↦ inr (inl same)
          | inr j ↦ elim (into j) [ inl same ↦ inl same | inr k ↦ inr (inr k) ]
        ]),
        (λ i.
            subst (λ l. In a l) (sym e)
              (elim i [
                | inl same ↦ inr (out (inl same))
                | inr (inl same) ↦ inl same
                | inr (inr j) ↦ inr (out (inr j))
              ])),
      )
      | inr e ↦ ((λ i. subst (λ l. In a l) e i), (λ i. subst (λ l. In a l) (sym e) i))
    ]

-- Sorting keeps the members.
pub In-sort_by_iff :
    {A : Type 0} (before : A → A → Bool) (a : A) (xs : List A) → In a (sort_by before xs) ↔ In a xs
unfolding sort_by
In-sort_by_iff before a [] = ((λ i. i), (λ i. i))
In-sort_by_iff before a (x ∷ xs) =
    let (into, out) = In-insert_by_iff before a x (sort_by before xs) in
    let (into', out') = In-sort_by_iff before a xs in
    (
      (λ i. elim (into i) [ inl e ↦ inl e | inr j ↦ inr (into' j) ]),
      (λ i. elim i [ inl e ↦ out (inl e) | inr j ↦ out (inr (out' j)) ]),
    )

length-insert_by {ℓ} :
    {A : Type ℓ} (before : A → A → Bool) (b : A) (xs : List A)
    → length (insert_by before b xs) ≡ suc (length xs)
unfolding insert_by
length-insert_by before b [] = refl
length-insert_by before b (x ∷ xs) = elim (insert_by-cases before b x xs) [
  | inl e ↦ ap length e ∙ ap suc (length-insert_by before b xs)
  | inr e ↦ ap length e
]

pub length-sort_by {ℓ} :
    {A : Type ℓ} (before : A → A → Bool) (xs : List A) → length (sort_by before xs) ≡ length xs
unfolding sort_by
length-sort_by before [] = refl
length-sort_by before (x ∷ xs) =
    length-insert_by before x (sort_by before xs) ∙ ap suc (length-sort_by before xs)

length-keep-insert_by {ℓ} :
    {A : Type ℓ} (p : A → Bool) (before : A → A → Bool) (b : A) (xs : List A)
    → length (keep p (insert_by before b xs)) ≡ length (keep p (b ∷ xs))
unfolding insert_by
length-keep-insert_by p before b [] = refl
length-keep-insert_by p before b (x ∷ xs) = elim (insert_by-cases before b x xs) [
  | inl e ↦
      let swapped : length (keep p (x ∷ insert_by before b xs)) ≡ length (keep p (b ∷ x ∷ xs)) =
        ground (arith, length-keep-insert_by p before b xs) in
      ap (λ l. length (keep p l)) e ∙ swapped
  | inr e ↦ ap (λ l. length (keep p l)) e
]

-- Sorting keeps how many entries pass a test.
pub length-keep-sort_by {ℓ} :
    {A : Type ℓ} (p : A → Bool) (before : A → A → Bool) (xs : List A)
    → length (keep p (sort_by before xs)) ≡ length (keep p xs)
unfolding sort_by
length-keep-sort_by p before [] = refl
length-keep-sort_by p before (x ∷ xs) =
    ground
      (arith, length-keep-insert_by p before x (sort_by before xs), length-keep-sort_by p before xs)
