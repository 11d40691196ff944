-- ===== src/NetRom/Routing/Keys.antt =====
-- netrom/routing-table.ts: a neighbour's key is taken apart again.
use ax25_ts.Base.{List, [], ap, arith, false, refl, sym, true, ℕ, ◌==◌, ◌∙◌, ◌∷◌, ◌≡◌}
use ax25_ts.Callsign.{Callsign, IsValid}
use ax25_ts.Callsign.Text.{to_text, to_text-injective}
use ax25_ts.NetRom.Routing.{
  is_port_id, neighbour_key, neighbour_key_callsign, neighbour_key_of_text, neighbour_key_port,
  netrom_neighbour_key_separator,
}

port_of_key :
    (port_id call : List ℕ)
    → is_port_id port_id ≡ true
    → (neighbour_key_port (neighbour_key_of_text port_id call) ≡ port_id)
      × (neighbour_key_callsign (neighbour_key_of_text port_id call) ≡ call)
unfolding neighbour_key_port neighbour_key_callsign neighbour_key_of_text
port_of_key [] call h = (refl, refl)
port_of_key (c ∷ cs) call h =
    let not_bar : (c == netrom_neighbour_key_separator) ≡ false = ground (arith, h) in
    let rest = port_of_key cs call (ground (arith, h)) in
    (rw (not_bar, rest.0) refl, rw (not_bar) rest.1)

-- For port identifiers without the separator and valid callsigns: the port and the written callsign are
-- read back from a neighbour's key, and two neighbours have the same key only when their ports and
-- their callsigns are the same.
pub neighbour_key_port-neighbour_key :
    (p q : List ℕ) (c d : Callsign)
    → is_port_id p ≡ true
    → is_port_id q ≡ true
    → IsValid c
    → IsValid d
    → (neighbour_key_port (neighbour_key p c) ≡ p)
      × ((neighbour_key_callsign (neighbour_key p c) ≡ to_text c)
          × (neighbour_key p c ≡ neighbour_key q d → (p ≡ q) × (c ≡ d)))
neighbour_key_port-neighbour_key p q c d hp hq vc vd =
    let one = port_of_key p (to_text c) hp in
    let two = port_of_key q (to_text d) hq in
    (
      one.0,
      (
        one.1,
        λ e. (
          sym one.0 ∙ (ap neighbour_key_port e ∙ two.0),
          to_text-injective c d vc vd (sym one.1 ∙ (ap neighbour_key_callsign e ∙ two.1)),
        ),
      ),
    )
