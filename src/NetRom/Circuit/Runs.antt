-- ===== src/NetRom/Circuit/Runs.antt =====
-- netrom/circuit.ts: runs and the theorems at concrete inputs.
use mathlib.Core.List.{flatten}
use ax25_ts.Base.{
  List, [], arith, drop, false, length, map, refl, true, ℕ, ◌%◌, ◌++◌, ◌+◌, ◌∷◌, ◌≡◌, ◌≤◌,
}
use ax25_ts.Callsign.{Callsign}
use ax25_ts.NetRom.Circuit.{
  Circuit, CircuitOptions, Packet, circuit_defaults, connected, connecting, new_circuit,
  send_connect_request,
}
use ax25_ts.NetRom.Circuit.Closing.{AllDue, TimedOut, tick_all, tick_all-TimedOut}
use ax25_ts.NetRom.Circuit.Delivery.{
  AllCopies, Arrival, count_taken, receive_all, receive_all-prefix,
}
use ax25_ts.NetRom.Circuit.InFlight.{InWindow}
use ax25_ts.NetRom.Circuit.Methods.{
  Call, accepts, fragments, fragments_of, packet_in, resend_control, send, sends, tick,
  tick_information, ticks,
}
use ax25_ts.NetRom.Circuit.Receive.{deliveries}
use ax25_ts.NetRom.Circuit.Sending.{absorb_ack, arm_control_timer}
use ax25_ts.NetRom.Circuit.Sequence.{InSequence, absorb_ack-pending, pending, send-pending}
use ax25_ts.NetRom.Circuit.Window.{AllAllowed, run, run-new_circuit-InWindow}
use ax25_ts.NetRom.Transport.{information}

abbrev host : Callsign
host = record { base = 0x47 ∷ 0x38 ∷ []; ssid = 1 }

abbrev peer : Callsign
peer = record { base = 0x4d ∷ 0x30 ∷ []; ssid = 0 }

-- Two octets to a fragment.
abbrev small : CircuitOptions
small = record circuit_defaults { window_size = 2; fragment_size = 2 }

abbrev fresh : Circuit
fresh = new_circuit 3 4 host peer small

abbrev data_packet : ℕ → ℕ → List ℕ → Packet
data_packet seq flags bytes = record {
  origin = peer;
  destination = host;
  time_to_live = 25;
  transport = record {
    circuit_index = 3;
    circuit_id = 4;
    tx_sequence = seq;
    rx_sequence = 0;
    opcode = information;
    flags = flags;
  };
  payload = bytes;
}

abbrev calls : List (ℕ × Call)
calls =
    (0, accepts 7 8 2)
    ∷ (10, sends (1 ∷ 2 ∷ 3 ∷ 4 ∷ 5 ∷ []))
    ∷ (20, packet_in (data_packet 0 0 (9 ∷ [])))
    ∷ (6000, ticks)
    ∷ []

calls-AllAllowed : AllAllowed fresh calls
unfolding new_circuit
calls-AllAllowed = (refl, (tt, (tt, (tt, tt))))

run-new_circuit-InWindow_example : InWindow (run fresh calls)
run-new_circuit-InWindow_example =
    run-new_circuit-InWindow 3 4 host peer small calls calls-AllAllowed

abbrev frames : List (List ℕ)
frames = (1 ∷ 2 ∷ 3 ∷ []) ∷ (4 ∷ 5 ∷ []) ∷ []

-- The second fragment comes first, the first one twice, and the third in between.
abbrev opened : Circuit
opened = record fresh { state = connected }

abbrev arrivals : List Arrival
arrivals =
    record { index = 1; now = 5; packet = data_packet 1 0 (3 ∷ []) }
    ∷ record { index = 0; now = 6; packet = data_packet 0 0x20 (1 ∷ 2 ∷ []) }
    ∷ record { index = 0; now = 7; packet = data_packet 0 0x20 (1 ∷ 2 ∷ []) }
    ∷ record { index = 1; now = 8; packet = data_packet 1 0 (3 ∷ []) }
    ∷ record { index = 2; now = 9; packet = data_packet 2 0 (4 ∷ 5 ∷ []) }
    ∷ []

arrivals-AllCopies : AllCopies (flatten (map (fragments_of small) frames)) 0 arrivals
unfolding flatten fragments
arrivals-AllCopies = (
  record {
    is_information = refl;
    numbered = refl;
    carried = refl;
    not_ahead = omega arith;
    not_behind = omega arith;
  },
  (
    record {
      is_information = refl;
      numbered = refl;
      carried = refl;
      not_ahead = omega arith;
      not_behind = omega arith;
    },
    (
      record {
        is_information = refl;
        numbered = refl;
        carried = refl;
        not_ahead = omega arith;
        not_behind = omega arith;
      },
      (
        record {
          is_information = refl;
          numbered = refl;
          carried = refl;
          not_ahead = omega arith;
          not_behind = omega arith;
        },
        (
          record {
            is_information = refl;
            numbered = refl;
            carried = refl;
            not_ahead = omega arith;
            not_behind = omega arith;
          },
          tt,
        ),
      ),
    ),
  ),
)

receive_all-prefix_example :
    ((still : List (List ℕ)) × (frames ≡ deliveries (receive_all opened arrivals).output ++ still))
    × (length (flatten (map (fragments_of small) frames)) ≤ count_taken 0 arrivals
        → deliveries (receive_all opened arrivals).output ≡ frames)
unfolding new_circuit
receive_all-prefix_example =
    receive_all-prefix small frames opened arrivals (omega arith, (omega arith, tt)) refl refl refl
      arrivals-AllCopies

-- Two fragments in flight, numbered 255 and 0, and one that waits.
abbrev busy : Circuit
busy = record opened {
  vs = 1;
  va = 255;
  unacked =
      record { sequence = 255; payload = 1 ∷ []; more_follows = true; sent_at = 0; retries = 0 }
      ∷ record { sequence = 0; payload = 2 ∷ []; more_follows = true; sent_at = 0; retries = 0 }
      ∷ [];
  send_queue = record { bytes = 3 ∷ []; more_follows = false } ∷ [];
}

busy-InSequence : InSequence 255 busy
busy-InSequence = record { numbered = (refl, (refl, tt)); next = refl }

absorb_ack-pending_example :
    (pending (absorb_ack 10 busy ((255 + 1) % 256)) ≡ drop 1 (pending busy))
    × InSequence (255 + 1) (absorb_ack 10 busy ((255 + 1) % 256))
absorb_ack-pending_example =
    absorb_ack-pending 255 1 10 busy busy-InSequence (omega arith) (omega arith)

send-pending_example :
    (pending (send 10 busy (7 ∷ 8 ∷ 9 ∷ []))
      ≡ pending busy ++ fragments_of busy.options (7 ∷ 8 ∷ 9 ∷ []))
    × InSequence 255 (send 10 busy (7 ∷ 8 ∷ 9 ∷ []))
unfolding new_circuit
send-pending_example = send-pending 255 10 busy 7 (8 ∷ 9 ∷ []) refl busy-InSequence

-- One more try is allowed.
abbrev calling : Circuit
calling = record fresh {
  options = record small { max_retries = 1 };
  state = connecting;
  control_timer_armed = true;
  control_deadline = 5000;
}

calling-AllDue : AllDue calling (5000 ∷ 10400 ∷ [])
unfolding tick arm_control_timer resend_control send_connect_request tick_information new_circuit
calling-AllDue = (omega arith, (omega arith, tt))

tick_all-TimedOut_example : TimedOut calling 1 (tick_all calling (5000 ∷ 10400 ∷ []))
unfolding new_circuit
tick_all-TimedOut_example =
    tick_all-TimedOut 1 calling (5000 ∷ 10400 ∷ []) (record { armed = refl; asking = refl })
      calling-AllDue refl refl
