-- ===== src/Callsign/Text.antt =====
-- callsign.ts: the written form of a callsign and the test of two callsigns for equality.
use ax25_ts.Base.{
  Bool, Bool-cases, List, [], ap₂, arith, if◌then◌else◌, inl, inr, ltb, refl, sym, true, ℕ, ◌%◌,
  ◌&&◌, ◌++◌, ◌+◌, ◌/◌, ◌<◌, ◌==◌, ◌∷◌, ◌≡◌, ◌≢◌,
}
use ax25_ts.Base.Maps.{text_eq, text_eq→≡}
use ax25_ts.Callsign.{Callsign, IsValid, all_valid, is_valid_base_char}

-- The decimal digits of a number below 100: an SSID is at most 15.
unfoldable pub decimal : ℕ → List ℕ
decimal n = if ltb n 10 then (0x30 + n) ∷ [] else (0x30 + n / 10) ∷ (0x30 + n % 10) ∷ []

-- `toString`: the base alone for SSID 0, and `BASE-SSID` with the dash (0x2d) otherwise.
unfoldable pub to_text : Callsign → List ℕ
to_text c = if c.ssid == 0 then c.base else c.base ++ (0x2d ∷ decimal c.ssid)

unfoldable pub equals : Callsign → Callsign → Bool
equals c other = text_eq c.base other.base && c.ssid == other.ssid

dash_free : (c : ℕ) (cs : List ℕ) → all_valid (c ∷ cs) ≡ true → (c ≢ 0x2d) × (all_valid cs ≡ true)
unfolding all_valid is_valid_base_char
dash_free c cs h = ground arith

base_dash-injective :
    (a b s t : List ℕ)
    → all_valid a ≡ true
    → all_valid b ≡ true
    → a ++ (0x2d ∷ s) ≡ b ++ (0x2d ∷ t)
    → (a ≡ b) × (s ≡ t)
base_dash-injective [] [] s t h k e = (refl, cc e)
base_dash-injective [] (y ∷ b) s t h k e = absurd ((dash_free y b k).0 (cc e))
base_dash-injective (x ∷ a) [] s t h k e = absurd ((dash_free x a h).0 (cc e))
base_dash-injective (x ∷ a) (y ∷ b) s t h k e =
    let rest = base_dash-injective a b s t (dash_free x a h).1 (dash_free y b k).1 (cc e) in
    (ap₂ (λ z w. z ∷ w) (cc e) rest.0, rest.1)

base_no_dash : (a b t : List ℕ) → all_valid a ≡ true → a ≢ b ++ (0x2d ∷ t)
base_no_dash [] [] t h = λ e. cc e
base_no_dash [] (y ∷ b) t h = λ e. cc e
base_no_dash (x ∷ a) [] t h = λ e. (dash_free x a h).0 (cc e)
base_no_dash (x ∷ a) (y ∷ b) t h = λ e. base_no_dash a b t (dash_free x a h).1 (cc e)

decimal-injective : (m n : ℕ) → m < 16 → n < 16 → decimal m ≡ decimal n → m ≡ n
unfolding decimal
decimal-injective m n h k e = ground arith

same_callsign : (a b : Callsign) → a.base ≡ b.base → a.ssid ≡ b.ssid → a ≡ b
same_callsign a b e f = ap₂ (λ base ssid. record { base = base; ssid = ssid }) e f

-- Two valid callsigns with the same written form are the same.
pub to_text-injective : (a b : Callsign) → IsValid a → IsValid b → to_text a ≡ to_text b → a ≡ b
unfolding to_text
to_text-injective a b v w e = elim (Bool-cases (a.ssid == 0)) [
  | inl za ↦ elim (Bool-cases (b.ssid == 0)) [
    | inl zb ↦ same_callsign a b (rw (za, zb) at e) (ground arith)
    | inr fb ↦ absurd (base_no_dash a.base b.base _ v.chars (rw (za, fb) at e))
  ]
  | inr fa ↦ elim (Bool-cases (b.ssid == 0)) [
    | inl zb ↦ absurd (base_no_dash b.base a.base _ w.chars (sym (rw (fa, zb) at e)))
    | inr fb ↦
        let parts = base_dash-injective a.base b.base _ _ v.chars w.chars (rw (fa, fb) at e) in
        same_callsign a b parts.0 (decimal-injective a.ssid b.ssid v.in_range w.in_range parts.1)
  ]
]

pub equals→≡ : (a b : Callsign) → equals a b ≡ true → a ≡ b
unfolding equals
equals→≡ a b h = same_callsign a b (text_eq→≡ a.base b.base (ground arith)) (ground arith)
