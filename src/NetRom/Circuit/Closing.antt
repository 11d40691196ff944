-- ===== src/NetRom/Circuit/Closing.antt =====
-- netrom/circuit.ts: a connect or a disconnect that the peer never answers.
use ax25_ts.Base.{
  List, [], ap, append_assoc, arith, false, leb, length, refl, subst, suc, sym, true, zero, ℕ, ◌++◌,
  ◌+◌, ◌<◌, ◌||◌, ◌∙◌, ◌∷◌, ◌≡◌, ◌≤◌,
}
use ax25_ts.Callsign.{Callsign}
use ax25_ts.NetRom.Circuit.{
  Circuit, CircuitState, Output, Packet, Unacked, clamp, connected, connecting, disconnected,
  disconnecting, fired_closed, is_connected, is_connecting, is_disconnected, is_disconnecting,
  send_connect_request, send_disconnect_request, sent, timeout,
}
use ax25_ts.NetRom.Circuit.Methods.{resend_control, tick, tick_information}
use ax25_ts.NetRom.Circuit.Sending.{arm_control_timer, close}
use ax25_ts.NetRom.ConnectInfo.{build_connect_request_info}
use ax25_ts.NetRom.Transport.{connect_request, disconnect_request, flags_none}

-- The user of the connect request: the node itself when there is none.
abbrev user_of : Circuit → Callsign
user_of c = elim c.connect_user.base [ [] ↦ c.local_node | _ ∷ _ ↦ c.connect_user ]

-- The circuit waits for the answer to a connect or a disconnect request.
pub record IsWaiting (c : Circuit) : Type 0 where
  pub armed : c.control_timer_armed ≡ true
  pub asking : (is_connecting c.state || is_disconnecting c.state) ≡ true

-- Ticks at the times given, each at or after the deadline that the one before has set.
abbrev pub tick_all : Circuit → List ℕ → Circuit
tick_all c [] = c
tick_all c (now ∷ times) = tick_all (tick now c) times

abbrev pub AllDue : Circuit → List ℕ → Type 0
AllDue c [] = Unit
AllDue c (now ∷ times) = (c.control_deadline ≤ now) × AllDue (tick now c) times

-- The request that waits for its answer: to disconnect, or else to connect.
abbrev pub request_in : CircuitState → Circuit → Packet
request_in disconnecting c = record {
  origin = c.local_node;
  destination = c.remote_node;
  time_to_live = c.options.time_to_live;
  transport = record {
    circuit_index = c.remote_index;
    circuit_id = c.remote_id;
    tx_sequence = 0;
    rx_sequence = 0;
    opcode = disconnect_request;
    flags = flags_none;
  };
  payload = [];
}
request_in _ c = record {
  origin = c.local_node;
  destination = c.remote_node;
  time_to_live = c.options.time_to_live;
  transport = record {
    circuit_index = c.local_index;
    circuit_id = c.local_id;
    tx_sequence = 0;
    rx_sequence = 0;
    opcode = connect_request;
    flags = flags_none;
  };
  payload = build_connect_request_info (clamp c.options.window_size 1 127) (user_of c) c.local_node;
}

-- `n` times the same packet, sent.
abbrev pub sent_times : ℕ → Packet → List Output
sent_times zero packet = []
sent_times (suc n) packet = sent packet ∷ sent_times n packet

-- From `c` on the request was sent `n` times again; then the circuit closed for a timeout, and the
-- application was told so once.
pub record TimedOut (c : Circuit) (n : ℕ) (d : Circuit) : Type 0 where
  pub state : d.state ≡ disconnected
  pub told :
      d.output ≡ c.output ++ (sent_times n (request_in c.state c) ++ (fired_closed timeout ∷ []))
  pub nothing_left : (d.unacked ≡ []) × (d.send_queue ≡ [])

-- One more turn: the request was sent once, and it is still the same.
record Again (c d : Circuit) : Type 0 where
  waiting : IsWaiting d
  counted : d.control_retries ≡ c.control_retries + 1
  same_limit : d.options.max_retries ≡ c.options.max_retries
  asked : d.output ≡ c.output ++ (sent (request_in c.state c) ∷ [])
  same_request : request_in d.state d ≡ request_in c.state c

not_connected :
    (s : CircuitState) → (is_connecting s || is_disconnecting s) ≡ true → is_connected s ≡ false
not_connected disconnected e = cc
not_connected connecting e = refl
not_connected connected e = cc
not_connected disconnecting e = refl

not_disconnected :
    (s : CircuitState) → (is_connecting s || is_disconnecting s) ≡ true → is_disconnected s ≡ false
not_disconnected disconnected e = cc
not_disconnected connecting e = refl
not_disconnected connected e = refl
not_disconnected disconnecting e = refl

-- Sending a request again changes only the output.
record SameControl (c d : Circuit) : Type 0 where
  state : d.state ≡ c.state
  retries : d.control_retries ≡ c.control_retries
  options : d.options ≡ c.options

resend_control-SameControl : (s : CircuitState) (c : Circuit) → SameControl c (resend_control s c)
unfolding resend_control send_connect_request send_disconnect_request
resend_control-SameControl disconnected c = record { state = refl; retries = refl; options = refl }
resend_control-SameControl connecting c = record { state = refl; retries = refl; options = refl }
resend_control-SameControl connected c = record { state = refl; retries = refl; options = refl }
resend_control-SameControl disconnecting c = record { state = refl; retries = refl; options = refl }

le→leb : (a b : ℕ) → a ≤ b → leb a b ≡ true
le→leb a b h = ground arith

lt→not_leb : (a b : ℕ) → b < a → leb a b ≡ false
lt→not_leb a b h = ground arith

idle_information :
    (now : ℕ) (c : Circuit) (us : List Unacked)
    → is_connected c.state ≡ false
    → tick_information now c us ≡ c
unfolding tick_information
idle_information now c [] e = refl
idle_information now c (u ∷ us) e = rw e refl

-- What a due tick sends while it may still try.
abbrev asked_in : CircuitState → ℕ → Circuit → Circuit
asked_in s now c =
    arm_control_timer now (resend_control s (record c { control_retries = c.control_retries + 1 }))

abbrev asked_again : ℕ → Circuit → Circuit
asked_again now c = asked_in c.state now c

tick_due :
    (now : ℕ) (c : Circuit)
    → IsWaiting c
    → c.control_deadline ≤ now
    → c.control_retries < c.options.max_retries
    → tick now c ≡ tick_information now (asked_again now c) (asked_again now c).unacked
unfolding tick
tick_due now c w due h =
    rw
      (
        w.armed,
        le→leb c.control_deadline now due,
        lt→not_leb c.options.max_retries c.control_retries h,
      )
      refl

asked_again-asked :
    (s : CircuitState) (now : ℕ) (c : Circuit)
    → (is_connecting s || is_disconnecting s) ≡ true
    → (asked_in s now c).output ≡ c.output ++ (sent (request_in s c) ∷ [])
unfolding arm_control_timer resend_control send_connect_request send_disconnect_request
asked_again-asked disconnected now c w = absurd (cc)
asked_again-asked connecting now c w = refl
asked_again-asked connected now c w = absurd (cc)
asked_again-asked disconnecting now c w = refl

request_in-asked_again :
    (s : CircuitState) (now : ℕ) (c : Circuit) → request_in s (asked_in s now c) ≡ request_in s c
unfolding arm_control_timer resend_control send_connect_request send_disconnect_request
request_in-asked_again disconnected now c = refl
request_in-asked_again connecting now c = refl
request_in-asked_again connected now c = refl
request_in-asked_again disconnecting now c = refl

asked_again-Again : (now : ℕ) (c : Circuit) → IsWaiting c → Again c (asked_again now c)
unfolding arm_control_timer
asked_again-Again now c w =
    let same =
      resend_control-SameControl c.state (record c { control_retries = c.control_retries + 1 }) in
    record {
      waiting = record {
        armed = refl;
        asking = ap (λ s. is_connecting s || is_disconnecting s) same.state ∙ w.asking;
      };
      counted = same.retries;
      same_limit = ap (λ o. o.max_retries) same.options;
      asked = asked_again-asked c.state now c w.asking;
      same_request =
          ap (λ s. request_in s (asked_again now c)) same.state
          ∙ request_in-asked_again c.state now c;
    }

tick-Again :
    (now : ℕ) (c : Circuit)
    → IsWaiting c
    → c.control_deadline ≤ now
    → c.control_retries < c.options.max_retries
    → Again c (tick now c)
tick-Again now c w due h =
    let a = asked_again-Again now c w in
    let idle =
      idle_information now (asked_again now c) (asked_again now c).unacked
        (not_connected (asked_again now c).state a.waiting.asking) in
    subst (Again c) (sym (tick_due now c w due h ∙ idle)) a

tick-TimedOut :
    (now : ℕ) (c : Circuit)
    → IsWaiting c
    → c.control_deadline ≤ now
    → c.options.max_retries ≤ c.control_retries
    → TimedOut c 0 (tick now c)
unfolding tick close
tick-TimedOut now c w due h =
    rw
      (
        w.armed,
        le→leb c.control_deadline now due,
        le→leb c.options.max_retries c.control_retries h,
        not_disconnected c.state w.asking,
      )
      (record { state = refl; told = refl; nothing_left = (refl, refl) })

then-TimedOut : (c b d : Circuit) (n : ℕ) → Again c b → TimedOut b n d → TimedOut c (suc n) d
then-TimedOut c b d n a t = record {
  state = t.state;
  told =
      t.told
      ∙ rw (a.same_request, a.asked) (append_assoc c.output (sent (request_in c.state c) ∷ []) _);
  nothing_left = t.nothing_left;
}

-- A connect or disconnect request that the peer never answers is given up: when the retry limit still
-- allows `n` tries, each of `n` due ticks sends the same request again, a connect request with the
-- circuit's own index or a disconnect request with the peer's. One more closes the circuit for a
-- timeout, tells the application once, and leaves nothing queued or in flight. Nothing else is sent.
pub tick_all-TimedOut :
    (n : ℕ) (c : Circuit) (times : List ℕ)
    → IsWaiting c
    → AllDue c times
    → n + c.control_retries ≡ c.options.max_retries
    → length times ≡ n + 1
    → TimedOut c n (tick_all c times)
tick_all-TimedOut n c [] w due m h = absurd (omega arith)
tick_all-TimedOut zero c (now ∷ []) w due m h = tick-TimedOut now c w due.0 (omega arith)
tick_all-TimedOut (suc n) c (now ∷ []) w due m h = absurd (omega arith)
tick_all-TimedOut zero c (now ∷ next ∷ times) w due m h = absurd (omega arith)
tick_all-TimedOut (suc n) c (now ∷ next ∷ times) w due m h =
    let a = tick-Again now c w due.0 (omega arith) in
    then-TimedOut c (tick now c) _ n a (
      tick_all-TimedOut n (tick now c) (next ∷ times) a.waiting due.1
        (omega (arith, a.counted, a.same_limit)) (omega arith))
