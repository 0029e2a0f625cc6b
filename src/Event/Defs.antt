-- ===== src/Event/Defs.antt =====
-- `handle_agent` of event.c over the receive buffer of an agent. The buffer is its memory, a byte for
-- each index, beside the number of bytes before `write_ptr`; what lies behind those is stale.
use cheops_ng.Prelude.{
  ℕ, zero, suc, ◌+◌, ◌-◌, ◌*◌, ◌/◌, ◌%◌, ◌^◌, Bool, true, false, not, List, [], ◌∷◌, Option, none,
  some, ltb, leb, ◌==◌, ◌||◌, ◌&&◌, if◌then◌else◌, length,
}
use cheops_ng.Prelude.Int.{ℤ, pos, negsuc}

abbrev pub Memory : Type 0
Memory = ℕ → ℕ

-- `event_hdr`, in host byte order.
pub record Header : Type 0 where
  pub len : ℕ
  pub hlen : ℕ
  pub type : ℕ
  pub flags : ℕ

-- ntohl() and ntohs() of the bytes from an index on.
unfoldable pub long_at : Memory → ℕ → ℕ
long_at b i = b i * 2 ^ 24 + b (i + 1) * 2 ^ 16 + b (i + 2) * 2 ^ 8 + b (i + 3)

unfoldable pub short_at : Memory → ℕ → ℕ
short_at b i = b i * 2 ^ 8 + b (i + 1)

unfoldable pub header_at : Memory → Header
unfolding long_at short_at
header_at b = record {
  len = long_at b 0;
  hlen = short_at b 4;
  type = short_at b 6;
  flags = long_at b 8;
}

abbrev pub agent_recv_buffer_length : ℕ
agent_recv_buffer_length = 65536

abbrev pub max_event : ℕ
max_event = 256

abbrev pub event_auth_request : ℕ
event_auth_request = 8

-- The fields of `agent` that the reassembly uses.
pub record Agent : Type 0 where
  pub buffer : Memory
  pub filled : ℕ
  pub expected_length : ℤ
  pub logged_in : Bool

-- What is done with a message: its handler is called, an error is sent back, or it is dropped.
pub data Action : Type 0 where
  handled : Header → Action
  unsupported : Header → Action
  ignored : Header → Action
  rejected : Header → Action
  crashed : Header → Action

-- `handlers`: a handler gets the message, and may log the agent in or out; what else it does to the
-- agent, such as destroying it, is left out. And the global switch of
-- `authenticating_clients`.
pub record Server : Type 0 where
  pub handlers : ℕ → Option (Memory → Bool → Bool)
  pub authenticating : Bool

-- FLAG_IGNORE is the third bit: no error for a message without a handler.
abbrev pub no_handler : Header → Action
no_handler h = if h.flags / 4 % 2 == 1 then ignored h else unsupported h

-- The handler of the message's type is called, if there is one.
abbrev pub call_handler : Server → Header → Action → Memory → Bool → Action × Bool
call_handler v h missing b logged_in = elim (v.handlers h.type) [
  | none ↦ (missing, logged_in)
  | some f ↦ (handled h, f b logged_in)
]

-- What becomes of a message with this header, and the agent's login after it.
unfoldable pub dispatch_as : Server → Header → Memory → Bool → Action × Bool
dispatch_as v h b logged_in =
    if leb max_event h.type
    then (rejected h, logged_in)
    else (if ltb h.len h.hlen
        then (rejected h, logged_in)
        else (if logged_in || not v.authenticating
            then call_handler v h (no_handler h) b logged_in
            else (if h.type == event_auth_request
                then call_handler v h (crashed h) b logged_in
                else (no_handler h, logged_in))))

-- The complete message at the start of the buffer.
unfoldable pub dispatch : Server → Memory → Bool → Action × Bool
unfolding dispatch_as header_at
dispatch v b logged_in = dispatch_as v (header_at b) b logged_in

-- The memory after bytes were copied in from an index on.
unfoldable pub write : ℕ → List ℕ → Memory → Memory
write i [] b = b
write i (x ∷ xs) b = write (i + 1) xs (λ j. if i == j then x else b j)

-- memcpy() of the `n` bytes from the index `from` to the start of the buffer. The regions may
-- overlap, where C leaves the result open: the bytes are taken to be copied in ascending order.
unfoldable pub shift : ℕ → ℕ → Memory → Memory
shift from n b i = if ltb i n then b (from + i) else b i

-- The ends of `handle_agent`: 1 to keep the watch, 0 to end it (a message that is too long), 0
-- with the agent destroyed, and the exit of the program when the buffer is full.
pub data Outcome : Type 0 where
  keep : Agent → List Action → Outcome
  stop : Agent → List Action → Outcome
  destroyed : Outcome
  exit : Outcome
  no_fuel : Outcome

abbrev pub with_action : Action → Outcome → Outcome
with_action a (keep g done) = keep g (a ∷ done)
with_action a (stop g done) = stop g (a ∷ done)
with_action a destroyed = destroyed
with_action a exit = exit
with_action a no_fuel = no_fuel

-- The length of the message at the start of the buffer, when it can be read: too long, or known.
unfoldable pub length_of : Memory → Option ℕ
unfolding long_at
length_of b = if ltb agent_recv_buffer_length (long_at b 0) then none else some (long_at b 0)

-- The test behind both branches of the read: a whole message is dispatched and moved out of the
-- buffer, and `continue` goes on with the number of bytes behind it.
unfoldable pub settle : Server → (ℕ → Agent → Outcome) → ℕ → ℕ → Agent → Outcome
unfolding dispatch shift
settle v continue filled expected g =
    let (action, logged_in) = dispatch v g.buffer g.logged_in in
    let rest = filled - expected in
    let after = continue rest (record {
      buffer = shift expected rest g.buffer;
      filled = 0;
      expected_length = pos 0;
      logged_in = logged_in;
    }) in
    if leb expected filled && ltb 0 expected
    then with_action action after
    else keep (record g { filled = filled; expected_length = pos expected }) []

-- `sizeof(h->len) - (a->write_ptr - a->buffer)`, in `size_t`, where it wraps.
abbrev pub missing_length : ℕ → ℕ
missing_length filled = (2 ^ 64 + 4 - filled) % 2 ^ 64

-- From the label `again` on: `res` new bytes stand behind the `filled` ones.
unfoldable pub again : Server → ℕ → ℕ → Agent → Outcome
unfolding settle length_of
again v zero res g = no_fuel
again v (suc fuel) res g =
    let filled = g.filled + res in
    elim (ltb res (missing_length g.filled)) [
      | true ↦ keep (record g { filled = filled; expected_length = pos 0 }) []
      | false ↦ elim (length_of g.buffer) [
        | none ↦ stop g []
        | some expected ↦ settle v (again v fuel) filled expected g
      ]
    ]

-- The first read of a new agent, into the start of the buffer.
unfoldable pub first_read : Server → ℕ → ℕ → Agent → Outcome
unfolding settle again
first_read v fuel res g =
    let filled = g.filled + res in
    if ltb res 4
    then keep (record g { filled = filled; expected_length = pos 0 }) []
    else (elim (length_of g.buffer) [
      | none ↦ stop g []
      | some expected ↦ settle v (again v fuel) filled expected g
    ])

-- What a wakeup finds: NULL data or the descriptor of another agent, an error condition of the
-- descriptor, a failing read(), or the bytes read, none of them at the end of the stream.
pub data Wakeup : Type 0 where
  stray : Wakeup
  hangup : Wakeup
  failed : Wakeup
  got : List ℕ → Wakeup

-- The bytes go behind those that are there; a first read starts the buffer over.
abbrev pub receive : Server → ℕ → List ℕ → ℤ → Agent → Outcome
receive v fuel bytes (negsuc _) g =
    first_read v fuel (length bytes) (record g { buffer = write 0 bytes g.buffer })
receive v fuel bytes (pos _) g =
    again v fuel (length bytes) (record g { buffer = write g.filled bytes g.buffer })

unfoldable pub handle_agent : Server → ℕ → Wakeup → Agent → Outcome
unfolding write first_read again
handle_agent v fuel stray g = stop g []
handle_agent v fuel hangup g = destroyed
handle_agent v fuel failed g = if g.filled == agent_recv_buffer_length then exit else destroyed
handle_agent v fuel (got []) g = if g.filled == agent_recv_buffer_length then exit else destroyed
handle_agent v fuel (got (x ∷ bytes)) g =
    if g.filled == agent_recv_buffer_length
    then exit
    else receive v fuel (x ∷ bytes) g.expected_length g
