-- ===== src/NetRom/Circuit/Fragments.antt =====
-- netrom/circuit.ts: the fragments of a frame, and what putting them together again gives.
use mathlib.Core.List.{flatten}
use ax25_ts.Base.{
  All, Bool, Bool-cases, List, [], ap, append-nil, append_assoc, arith, drop, drop-all, false, inl,
  inr, length, length-drop, length-take, ltb, ltb→lt, map, max, refl, suc, sym, take, take-all,
  take-append-drop, true, zero, ℕ, ◌++◌, ◌-◌, ◌<◌, ◌∙◌, ◌∷◌, ◌≡◌, ◌≤◌,
}
use ax25_ts.NetRom.Circuit.{CircuitOptions, Fragment}
use ax25_ts.NetRom.Circuit.Methods.{fragments, fragments_of}

-- What a receiver has delivered, and the frame that it has in progress.
abbrev pub Progress : Type 0
Progress = List (List ℕ) × List ℕ

abbrev pub finish_frame : Bool → List (List ℕ) → List ℕ → Progress
finish_frame true done part = (done, part)
finish_frame false done [] = (done, [])
finish_frame false done (b ∷ bs) = (done ++ ((b ∷ bs) ∷ []), [])

-- One fragment in order: frames are cut where the more-follows flag is clear, and an empty frame
-- is not delivered.
abbrev pub advance : Progress → Fragment → Progress
advance (done, part) f = finish_frame f.more_follows done (part ++ f.bytes)

abbrev pub reassemble : Progress → List Fragment → Progress
reassemble p [] = p
reassemble p (f ∷ fs) = reassemble (advance p f) fs

pub reassemble-append :
    (p : Progress) (xs ys : List Fragment)
    → reassemble p (xs ++ ys) ≡ reassemble (reassemble p xs) ys
reassemble-append p [] ys = refl
reassemble-append p (x ∷ xs) ys = reassemble-append (advance p x) xs ys

not_lt : (a b : ℕ) → ltb a b ≡ false → b ≤ a
not_lt a b h = ground arith

finish_whole :
    (done : List (List ℕ)) (part bs : List ℕ) (b : ℕ)
    → finish_frame false done (part ++ (b ∷ bs)) ≡ (done ++ ((part ++ (b ∷ bs)) ∷ []), [])
finish_whole done [] bs b = refl
finish_whole done (x ∷ part) bs b = refl

nonempty : (xs : List ℕ) → 0 < length xs → (y : ℕ) × (ys : List ℕ) × (xs ≡ y ∷ ys)
nonempty [] h = absurd (omega arith)
nonempty (x ∷ xs) h = (x, xs, refl)

-- The fragments that are left of a frame, of which `part` is already in.
reassemble-fragments :
    (fuel size : ℕ) (done : List (List ℕ)) (part bs : List ℕ) (b : ℕ)
    → 0 < size
    → length (b ∷ bs) ≤ fuel
    → reassemble (done, part) (fragments fuel size (b ∷ bs))
      ≡ (done ++ ((part ++ (b ∷ bs)) ∷ []), [])
unfolding fragments
reassemble-fragments zero size done part bs b p h = absurd (omega arith)
reassemble-fragments (suc fuel) size done part bs b p h =
    elim (Bool-cases (ltb size (length (b ∷ bs)))) [
      | inl more ↦
          let rest : length (drop size (b ∷ bs)) ≡ length (b ∷ bs) - size =
            length-drop size (b ∷ bs) in
          let left : size < length (b ∷ bs) = ltb→lt size (length (b ∷ bs)) more in
          let (y, ys, e) = nonempty (drop size (b ∷ bs)) (omega arith) in
          let n : length (y ∷ ys) ≡ length (b ∷ bs) - size = sym (ap length e) ∙ rest in
          let whole : (part ++ take size (b ∷ bs)) ++ (y ∷ ys) ≡ part ++ (b ∷ bs) =
            append_assoc part (take size (b ∷ bs)) (y ∷ ys)
            ∙ ap (λ t. part ++ t)
                (ap (λ t. take size (b ∷ bs) ++ t) (sym e) ∙ take-append-drop size (b ∷ bs)) in
          rw (more, e)
            (reassemble-fragments fuel size done (part ++ take size (b ∷ bs)) ys y p (omega arith)
              ∙ rw whole)
      | inr last ↦
          let all : length (b ∷ bs) ≤ size = not_lt size (length (b ∷ bs)) last in
          rw (last, take-all size (b ∷ bs) all, drop-all size (b ∷ bs) all)
            (finish_whole done part bs b)
    ]

-- The frames of a list of user frames, none of them empty, cut and put together again, come out as
-- they went in, in order, with nothing left in progress.
pub reassemble-fragments_of :
    (o : CircuitOptions) (frames : List (List ℕ)) (done : List (List ℕ))
    → All (λ f. 0 < length f) frames
    → reassemble (done, []) (flatten (map (fragments_of o) frames)) ≡ (done ++ frames, [])
unfolding flatten
reassemble-fragments_of o [] done h = rw append-nil
reassemble-fragments_of o ([] ∷ frames) done h = let z : 0 < 0 = h.0 in absurd (omega arith)
reassemble-fragments_of o ((b ∷ bs) ∷ frames) done h =
    let first =
      reassemble-fragments (length (b ∷ bs)) (max 1 o.fragment_size) done [] bs b (omega arith)
        (omega arith) in
    reassemble-append (done, []) (fragments_of o (b ∷ bs)) (flatten (map (fragments_of o) frames))
    ∙ ap (λ p. reassemble p (flatten (map (fragments_of o) frames))) first
    ∙ reassemble-fragments_of o frames (done ++ ((b ∷ bs) ∷ [])) h.1
    ∙ ap (λ t. (t, [])) (append_assoc done ((b ∷ bs) ∷ []) frames)

-- Every fragment fits the size.
fragments-le :
    (fuel size : ℕ) (bs : List ℕ) → All (λ f. length f.bytes ≤ size) (fragments fuel size bs)
unfolding fragments
fragments-le zero size [] = tt
fragments-le zero size (b ∷ bs) = tt
fragments-le (suc fuel) size [] = tt
fragments-le (suc fuel) size (b ∷ bs) =
    (omega (arith, length-take size (b ∷ bs)), fragments-le fuel size (drop size (b ∷ bs)))
