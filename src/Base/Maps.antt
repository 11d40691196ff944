-- ===== src/Base/Maps.antt =====
-- A JavaScript `Map` whose keys are texts: the entries in the order in which the keys came in. A text
-- is the list of its character codes.
use ax25_ts.Base.{
  ==_refl, All, All-both, All-imp, Bool, Bool-cases, List, Option, [], ap₂, arith, false,
  if◌then◌else◌, inl, inr, length, map, none, refl, some, subst, suc, true, ℕ, ◌&&◌, ◌==◌, ◌||◌,
  ◌∷◌, ◌≡◌, ◌≤◌,
}

unfoldable pub text_eq : List ℕ → List ℕ → Bool
text_eq [] [] = true
text_eq [] (b ∷ ys) = false
text_eq (a ∷ xs) [] = false
text_eq (a ∷ xs) (b ∷ ys) = a == b && text_eq xs ys

pub text_eq→≡ : (xs ys : List ℕ) → text_eq xs ys ≡ true → xs ≡ ys
unfolding text_eq
text_eq→≡ [] [] h = refl
text_eq→≡ [] (b ∷ ys) h = cc
text_eq→≡ (a ∷ xs) [] h = cc
text_eq→≡ (a ∷ xs) (b ∷ ys) h = ground (arith, text_eq→≡ xs ys)

pub text_eq_refl : (xs : List ℕ) → text_eq xs xs ≡ true
unfolding text_eq
text_eq_refl [] = refl
text_eq_refl (a ∷ xs) = rw (==_refl a, text_eq_refl xs)

pub text_eq_sym : (xs ys : List ℕ) → text_eq xs ys ≡ false → text_eq ys xs ≡ false
text_eq_sym xs ys h = elim (Bool-cases (text_eq ys xs)) [
  | inl e ↦
      absurd
        (let f : text_eq xs xs ≡ false = rw (text_eq→≡ ys xs e) at h in cc (f, text_eq_refl xs))
  | inr f ↦ f
]

abbrev pub mem_text : List ℕ → List (List ℕ) → Bool
mem_text q [] = false
mem_text q (k ∷ ks) = text_eq k q || mem_text q ks

abbrev pub TextMap {ℓ} : Type ℓ → Type ℓ
TextMap V = List (List ℕ × V)

module _ {ℓ} {V : Type ℓ} where
  unfoldable pub map_get : List ℕ → TextMap V → Option V
  map_get k [] = none
  map_get k (e ∷ m) = if text_eq e.0 k then some e.1 else map_get k m

  abbrev pub has_key : List ℕ → TextMap V → Bool
  has_key k [] = false
  has_key k (e ∷ m) = text_eq e.0 k || has_key k m

  -- A new key goes to the end, a known one keeps its place.
  unfoldable pub map_set : List ℕ → V → TextMap V → TextMap V
  map_set k v [] = (k, v) ∷ []
  map_set k v (e ∷ m) = let rest = map_set k v m in if text_eq e.0 k then (k, v) ∷ m else e ∷ rest

  unfoldable pub map_delete : List ℕ → TextMap V → TextMap V
  map_delete k [] = []
  map_delete k (e ∷ m) = let rest = map_delete k m in if text_eq e.0 k then rest else e ∷ rest

  -- One `delete` for each key of a list.
  unfoldable pub delete_all : List (List ℕ) → TextMap V → TextMap V
  delete_all [] m = m
  delete_all (k ∷ ks) m = delete_all ks (map_delete k m)

  abbrev pub keys : TextMap V → List (List ℕ)
  keys = map (λ e. e.0)

  abbrev pub values : TextMap V → List V
  values = map (λ e. e.1)

  -- No key stands twice.
  abbrev pub HasDistinctKeys : TextMap V → Type ℓ
  HasDistinctKeys [] = Unit {ℓ}
  HasDistinctKeys (e ∷ m) = (map_get e.0 m ≡ none) × HasDistinctKeys m

module _ {ℓ} {V : Type ℓ} where
  pub get-set :
      (k q : List ℕ) (v : V) (m : TextMap V)
      → map_get q (map_set k v m) ≡ (if text_eq k q then some v else map_get q m)
  unfolding map_get map_set
  get-set k q v [] = refl
  get-set k q v (e ∷ m) = elim (Bool-cases (text_eq e.0 k)) [
    | inl same ↦ let f : e.0 ≡ k = text_eq→≡ e.0 k same in rw (same, f) (ground arith)
    | inr other ↦ rw (other) (elim (Bool-cases (text_eq e.0 q)) [
      | inl here ↦
          let f : e.0 ≡ q = text_eq→≡ e.0 q here in
          let g : text_eq k q ≡ false = text_eq_sym q k (rw (f) at other) in rw (here, g)
      | inr there ↦ rw (there) (get-set k q v m)
    ])
  ]

  pub get-delete :
      (k q : List ℕ) (m : TextMap V)
      → map_get q (map_delete k m) ≡ (if text_eq k q then none else map_get q m)
  unfolding map_get map_delete
  get-delete k q [] = ground arith
  get-delete k q (e ∷ m) = elim (Bool-cases (text_eq e.0 k)) [
    | inl same ↦
        let f : e.0 ≡ k = text_eq→≡ e.0 k same in rw (same, f, get-delete k q m) (ground arith)
    | inr other ↦ rw (other) (elim (Bool-cases (text_eq e.0 q)) [
      | inl here ↦
          let f : e.0 ≡ q = text_eq→≡ e.0 q here in
          let g : text_eq k q ≡ false = text_eq_sym q k (rw (f) at other) in rw (here, g)
      | inr there ↦ rw (there) (get-delete k q m)
    ])
  ]

  pub All-set {κ} :
      (P : List ℕ × V → Type κ) (k : List ℕ) (v : V) (m : TextMap V)
      → P (k, v)
      → All P m
      → All P (map_set k v m)
  unfolding map_set
  All-set P k v [] h a = (h, tt)
  All-set P k v (e ∷ m) h a = elim (Bool-cases (text_eq e.0 k)) [
    | inl same ↦ rw (same) (h, a.1)
    | inr other ↦ rw (other) (a.0, All-set P k v m h a.1)
  ]

  pub All-delete {κ} :
      (P : List ℕ × V → Type κ) (k : List ℕ) (m : TextMap V) → All P m → All P (map_delete k m)
  unfolding map_delete
  All-delete P k [] a = tt
  All-delete P k (e ∷ m) a = elim (Bool-cases (text_eq e.0 k)) [
    | inl same ↦ rw (same) (All-delete P k m a.1)
    | inr other ↦ rw (other) (a.0, All-delete P k m a.1)
  ]

  pub All-delete_all {κ} :
      (P : List ℕ × V → Type κ) (ks : List (List ℕ)) (m : TextMap V)
      → All P m
      → All P (delete_all ks m)
  unfolding delete_all
  All-delete_all P [] m a = a
  All-delete_all P (k ∷ ks) m a = All-delete_all P ks (map_delete k m) (All-delete P k m a)

  pub length-delete : (k : List ℕ) (m : TextMap V) → length (map_delete k m) ≤ length m
  unfolding map_delete
  length-delete k [] = omega arith
  length-delete k (e ∷ m) = ground (arith, length-delete k m)

  pub length-delete_all : (ks : List (List ℕ)) (m : TextMap V) → length (delete_all ks m) ≤ length m
  unfolding delete_all
  length-delete_all [] m = omega arith
  length-delete_all (k ∷ ks) m =
      omega (arith, length-delete k m, length-delete_all ks (map_delete k m))

  -- The size grows only by a new key.
  pub length-set :
      (k : List ℕ) (v : V) (m : TextMap V)
      → length (map_set k v m) ≡ (if has_key k m then length m else suc (length m))
  unfolding map_set
  length-set k v [] = refl
  length-set k v (e ∷ m) = ground (arith, length-set k v m)

  pub set-set : (k : List ℕ) (v w : V) (m : TextMap V) → map_set k v (map_set k w m) ≡ map_set k v m
  unfolding map_set
  set-set k v w [] = rw (text_eq_refl k)
  set-set k v w (e ∷ m) = elim (Bool-cases (text_eq e.0 k)) [
    | inl same ↦ rw (same, text_eq_refl k)
    | inr other ↦ rw (other) (rw (other, set-set k v w m))
  ]

  pub has_key-get : (k : List ℕ) (m : TextMap V) → map_get k m ≡ none → has_key k m ≡ false
  unfolding map_get
  has_key-get k [] h = refl
  has_key-get k (e ∷ m) h = ground (arith, has_key-get k m)

  pub get-has_key : (k : List ℕ) (m : TextMap V) (v : V) → map_get k m ≡ some v → has_key k m ≡ true
  unfolding map_get
  get-has_key k [] v h = cc
  get-has_key k (e ∷ m) v h = ground (arith, get-has_key k m v)

  pub HasDistinctKeys-set :
      (k : List ℕ) (v : V) (m : TextMap V) → HasDistinctKeys m → HasDistinctKeys (map_set k v m)
  unfolding map_set map_get
  HasDistinctKeys-set k v [] h = (refl, tt)
  HasDistinctKeys-set k v (e ∷ m) h = elim (Bool-cases (text_eq e.0 k)) [
    | inl same ↦ rw (same) (rw (text_eq→≡ e.0 k same) at h.0, h.1)
    | inr other ↦
        rw (other)
          (rw (get-set k e.0 v m, text_eq_sym e.0 k other) (h.0), HasDistinctKeys-set k v m h.1)
  ]

  pub HasDistinctKeys-delete :
      (k : List ℕ) (m : TextMap V) → HasDistinctKeys m → HasDistinctKeys (map_delete k m)
  unfolding map_delete
  HasDistinctKeys-delete k [] h = tt
  HasDistinctKeys-delete k (e ∷ m) h = elim (Bool-cases (text_eq e.0 k)) [
    | inl same ↦ rw (same) (HasDistinctKeys-delete k m h.1)
    | inr other ↦
        rw (other)
          (rw (get-delete k e.0 m, text_eq_sym e.0 k other) (h.0), HasDistinctKeys-delete k m h.1)
  ]

  pub HasDistinctKeys-delete_all :
      (ks : List (List ℕ)) (m : TextMap V) → HasDistinctKeys m → HasDistinctKeys (delete_all ks m)
  unfolding delete_all
  HasDistinctKeys-delete_all [] m h = h
  HasDistinctKeys-delete_all (k ∷ ks) m h =
      HasDistinctKeys-delete_all ks (map_delete k m) (HasDistinctKeys-delete k m h)

  pub get-delete_all :
      (ks : List (List ℕ)) (q : List ℕ) (m : TextMap V)
      → map_get q (delete_all ks m) ≡ (if mem_text q ks then none else map_get q m)
  unfolding delete_all
  get-delete_all [] q m = refl
  get-delete_all (k ∷ ks) q m =
      rw (get-delete_all ks q (map_delete k m), get-delete k q m) (ground arith)

module _ {ℓ} {V : Type ℓ} where
  pub All-get {κ} :
      (P : List ℕ × V → Type κ) (k : List ℕ) (v : V) (m : TextMap V)
      → All P m
      → map_get k m ≡ some v
      → P (k, v)
  unfolding map_get
  All-get P k v [] a h = absurd (cc h)
  All-get P k v (e ∷ m) a h = elim (Bool-cases (text_eq e.0 k)) [
    | inl same ↦
        let here : e.1 ≡ v = cc (rw (same) at h) in
        subst (λ x. P x) (ap₂ (λ x y. (x, y)) (text_eq→≡ e.0 k same) here) a.0
    | inr other ↦ All-get P k v m a.1 (rw (other) at h)
  ]

  pub length-set_known :
      (k : List ℕ) (v w : V) (m : TextMap V)
      → map_get k m ≡ some w
      → length (map_set k v m) ≡ length m
  length-set_known k v w m h = let e = get-has_key k m w h in rw (length-set k v m, e) refl

  pub length-set_new :
      (k : List ℕ) (v : V) (m : TextMap V)
      → map_get k m ≡ none
      → length (map_set k v m) ≡ suc (length m)
  length-set_new k v m h = let e = has_key-get k m h in rw (length-set k v m, e) refl

  pub length-set-le :
      (k : List ℕ) (v : V) (m : TextMap V)
      → (1 ≤ length (map_set k v m)) × (length (map_set k v m) ≤ suc (length m))
  unfolding map_set
  length-set-le k v [] = (omega arith, omega arith)
  length-set-le k v (e ∷ m) = ground (arith, length-set-le k v m)

  without_key : (k : List ℕ) (m : TextMap V) → All (λ e. text_eq k e.0 ≡ false) (map_delete k m)
  unfolding map_delete
  without_key k [] = tt
  without_key k (e ∷ m) = elim (Bool-cases (text_eq e.0 k)) [
    | inl same ↦ rw (same) (without_key k m)
    | inr other ↦ rw (other) (text_eq_sym e.0 k other, without_key k m)
  ]

  -- None of the deleted keys is left.
  pub without_keys :
      (ks : List (List ℕ)) (m : TextMap V) → All (λ e. mem_text e.0 ks ≡ false) (delete_all ks m)
  unfolding delete_all
  without_keys [] [] = tt
  without_keys [] (e ∷ m) = (refl, without_keys [] m)
  without_keys (k ∷ ks) m =
      All-imp _ _ (λ e h. rw (h.0, h.1) refl) (delete_all ks (map_delete k m))
        (All-both _ _ (delete_all ks (map_delete k m))
          (All-delete_all _ ks (map_delete k m) (without_key k m))
          (without_keys ks (map_delete k m)))
