-- ===== src/Fcs.antt =====
-- fcs.ts: the frame check sequence CRC-16/X.25 of AXUDP datagrams.
pub mod RoundTrip
pub mod Detection
pub mod Runs
use ax25_ts.Base.{
  List, Option, [], bit_or, bit_xor, get_or, if◌then◌else◌, length, ltb, none, some, suc, take,
  zero, ℕ, ◌%◌, ◌*◌, ◌++◌, ◌+◌, ◌-◌, ◌/◌, ◌==◌, ◌^◌, ◌∷◌,
}

-- 0x1021 with its bits reversed.
abbrev pub reflected_polynomial : ℕ
reflected_polynomial = 0x8408

abbrev pub fcs_length : ℕ
fcs_length = 2

-- One round of the inner loop: shift right, and fold the polynomial in if a one fell out.
pub crc_bit : ℕ → ℕ
crc_bit crc = if crc % 2 == 1 then bit_xor (crc / 2) reflected_polynomial else crc / 2

pub crc_bits : ℕ → ℕ → ℕ
crc_bits zero crc = crc
crc_bits (suc n) crc = crc_bits n (crc_bit crc)

-- The outer loop: `crc ^= data[i]`, then eight rounds.
pub crc_loop : ℕ → List ℕ → ℕ
crc_loop crc [] = crc
crc_loop crc (b ∷ bs) = crc_loop (crc_bits 8 (bit_xor crc b)) bs

-- `(crc ^ 0xffff) & 0xffff`.
pub compute_fcs : List ℕ → ℕ
compute_fcs bs = bit_xor (crc_loop 0xffff bs) 0xffff % 2 ^ 16

-- The low octet first.
pub append_fcs : List ℕ → List ℕ
append_fcs body = body ++ ((compute_fcs body % 256) ∷ (compute_fcs body / 256 % 256) ∷ [])

abbrev pub min_frame : ℕ
min_frame = 2 * 7 + 1

abbrev actual_fcs : List ℕ → ℕ
actual_fcs datagram =
    bit_or (get_or datagram (length datagram - 2) 0) (get_or datagram (length datagram - 1) 0 * 256)

pub strip_fcs : List ℕ → Option (List ℕ)
strip_fcs datagram =
    let body = take (length datagram - fcs_length) datagram in
    if ltb (length datagram) (min_frame + fcs_length)
    then none
    else if compute_fcs body == actual_fcs datagram
    then some body
    else none
