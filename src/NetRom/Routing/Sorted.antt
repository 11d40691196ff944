-- ===== src/NetRom/Routing/Sorted.antt =====
-- netrom/routing-table.ts: what sorting does to a list.
use Prim.Native.Nat.{Ordering}
use ax25_ts.Base.{All, All-imp, Bool-cases, Has, List, [], false, inl, inr, true, ◌∷◌, ◌≡◌, ◌⊎◌}
use ax25_ts.NetRom.Routing.{insert_sorted, is_after, sort}

-- Each element stands in a relation to all that come after it.
abbrev pub IsSorted {ℓ κ} : {A : Type ℓ} → (A → A → Type κ) → List A → Type κ
IsSorted R [] = Unit {κ}
IsSorted R (x ∷ xs) = All (R x) xs × IsSorted R xs

module _ {ℓ} {A : Type ℓ} (order : A → A → Ordering) where
  All-insert_sorted {κ} :
      (P : A → Type κ) (a : A) (bs : List A) → P a → All P bs → All P (insert_sorted order a bs)
  unfolding insert_sorted
  All-insert_sorted P a [] h k = (h, tt)
  All-insert_sorted P a (b ∷ bs) h k = elim (Bool-cases (is_after order a b)) [
    | inl after ↦ rw after (k.0, All-insert_sorted P a bs h k.1)
    | inr before ↦ rw before (h, k)
  ]

  pub All-sort {κ} : (P : A → Type κ) (xs : List A) → All P xs → All P (sort order xs)
  unfolding sort
  All-sort P [] h = tt
  All-sort P (a ∷ xs) h = All-insert_sorted P a (sort order xs) h.0 (All-sort P xs h.1)

  Has-insert_sorted :
      (P : A → Type 0) (a : A) (bs : List A) → P a ⊎ Has P bs → Has P (insert_sorted order a bs)
  unfolding insert_sorted
  Has-insert_sorted P a [] (inl h) = inl h
  Has-insert_sorted P a [] (inr h) = absurd h
  Has-insert_sorted P a (b ∷ bs) h = elim (Bool-cases (is_after order a b)) [
    | inl after ↦ rw after (elim h [
      | inl here ↦ inr (Has-insert_sorted P a bs (inl here))
      | inr rest ↦ elim rest [
        | inl next ↦ inl next
        | inr later ↦ inr (Has-insert_sorted P a bs (inr later))
      ]
    ])
    | inr before ↦ rw before h
  ]

  pub Has-sort : (P : A → Type 0) (xs : List A) → Has P xs → Has P (sort order xs)
  unfolding sort
  Has-sort P [] h = h
  Has-sort P (a ∷ xs) (inl h) = Has-insert_sorted P a (sort order xs) (inl h)
  Has-sort P (a ∷ xs) (inr h) = Has-insert_sorted P a (sort order xs) (inr (Has-sort P xs h))

  module _ {κ} (R : A → A → Type κ) (stays : (a b : A) → is_after order a b ≡ false → R a b)
      (moves : (a b : A) → is_after order a b ≡ true → R b a)
      (joins : (a b c : A) → R a b → R b c → R a c) where
    insert_sorted-IsSorted :
        (a : A) (bs : List A) → IsSorted R bs → IsSorted R (insert_sorted order a bs)
    unfolding insert_sorted
    insert_sorted-IsSorted a [] h = (tt, tt)
    insert_sorted-IsSorted a (b ∷ bs) h = elim (Bool-cases (is_after order a b)) [
      | inl after ↦
          rw after
            (All-insert_sorted (R b) a bs (moves a b after) h.0, insert_sorted-IsSorted a bs h.1)
      | inr before ↦
          rw before (
            (stays a b before, All-imp (R b) (R a) (λ c. joins a b c (stays a b before)) bs h.0),
            h,
          )
    ]

    pub sort-IsSorted : (xs : List A) → IsSorted R (sort order xs)
    unfolding sort
    sort-IsSorted [] = tt
    sort-IsSorted (a ∷ xs) = insert_sorted-IsSorted a (sort order xs) (sort-IsSorted xs)
