-- ===== src/Kernel/Ipc.antt =====
-- kernel/core/ipc.c: the registry of message ports. Nothing is queued: a send is only checked, and a
-- receive always reports that it would block. An `i32` result is the number of an integer.
use h3os.Base.{
  ℕ, ◌+◌, ◌≡◌, ◌≤◌, ◌<◌, refl, arith, Bool, true, false, not, Option, none, some, List, [], ◌∷◌,
  length, ◌&&◌, ◌||◌, ltb, leb, if◌then◌else◌, update, Bool-cases, inl, inr, u32, take, min,
}
use h3os.Base.Int.{ℤ, pos, negsuc}

-- `IPC_MAX_PORTS`
abbrev pub max_ports : ℕ
max_ports = 64

-- `ipc_port_t`; a name holds what `strncpy` keeps of the string.
pub record Port : Type 0 where
  pub id : ℕ
  pub active : Bool
  pub name : List ℕ

pub record Ports : Type 0 where
  pub ports : ℕ → Port
  pub port_count : ℕ

abbrev pub zero_port : Port
zero_port = record { id = 0; active = false; name = [] }

pub ipc_init : Ports
ipc_init = record { ports = λ _. zero_port; port_count = 0 }

-- `name ? name : "port"`, cut to 31 bytes.
abbrev pub port_name : Option (List ℕ) → List ℕ
port_name none = b'p' ∷ b'o' ∷ b'r' ∷ b't' ∷ []
port_name (some n) = take 31 n

pub ipc_create_port : Ports → Option (List ℕ) → ℤ × Ports
ipc_create_port s name = if leb max_ports s.port_count then (negsuc 0, s) else (
  pos s.port_count,
  record s {
    ports =
        update s.ports s.port_count
          (record { id = s.port_count; active = true; name = port_name name });
    port_count = u32 (s.port_count + 1);
  },
)

-- `valid` is `msg` other than `NULL`.
pub ipc_send : Ports → ℕ → Bool → ℤ
ipc_send s port valid =
    if leb s.port_count port || not (s.ports port).active || not valid then negsuc 0 else pos 0

pub ipc_recv : Ports → ℕ → Bool → ℤ
ipc_recv s port valid = negsuc 0

pub create_all : Ports → List (Option (List ℕ)) → Ports
create_all s [] = s
create_all s (n ∷ ns) = create_all (ipc_create_port s n).1 ns

-- The ports below the count are active, and have their index for identifier.
pub record IsValid (s : Ports) : Type 0 where
  pub bounded : s.port_count ≤ max_ports
  pub live : (i : ℕ) → i < s.port_count → ((s.ports i).active ≡ true) × ((s.ports i).id ≡ i)

ipc_init-IsValid : IsValid ipc_init
unfolding ipc_init
ipc_init-IsValid = record { bounded = omega arith; live = λ i lt. absurd (omega arith) }

-- `ipc_create_port` keeps a valid registry valid: it adds one port and returns its number, or returns
-- -1 when all 64 are in use.
pub ipc_create_port-IsValid :
    (s : Ports) (name : Option (List ℕ))
    → IsValid s
    → IsValid (ipc_create_port s name).1
      × ((ipc_create_port s name).1.port_count ≡ min (s.port_count + 1) max_ports)
      × ((ipc_create_port s name).0
          ≡ (if ltb s.port_count max_ports then pos s.port_count else negsuc 0))
unfolding ipc_create_port
ipc_create_port-IsValid s name v = elim (Bool-cases (leb max_ports s.port_count)) [
  | inl full ↦ rw full (v, ground (arith, v.bounded), ground (arith, v.bounded))
  | inr room ↦ rw room (
    record { bounded = ground arith; live = λ i lt. ground (arith, v.live i) },
    ground (arith, v.bounded),
    ground arith,
  )
]

create_all-IsValid :
    (ns : List (Option (List ℕ))) (s : Ports)
    → IsValid s
    → IsValid (create_all s ns)
      × ((create_all s ns).port_count ≡ min (s.port_count + length ns) max_ports)
unfolding create_all
create_all-IsValid [] s v = (v, omega (arith, v.bounded))
create_all-IsValid (n ∷ ns) s v =
    let (v', c, r) = ipc_create_port-IsValid s n v in
    let (w, d) = create_all-IsValid ns (ipc_create_port s n).1 v' in
    (w, omega (arith, c, d, v.bounded))

-- After `ipc_init` and the creation of any ports, a message that is not `NULL` can be sent to a port
-- exactly if its number is below the number of ports created, 64 at most; a message `NULL` is refused,
-- and so is every receive.
pub ipc_send-create_all :
    (ns : List (Option (List ℕ))) (port : ℕ) (valid : Bool)
    → (ipc_send (create_all ipc_init ns) port valid
        ≡ (if ltb port (min (length ns) max_ports) && valid then pos 0 else negsuc 0))
      × (ipc_recv (create_all ipc_init ns) port valid ≡ negsuc 0)
unfolding ipc_send ipc_recv
ipc_send-create_all ns port valid =
    let (v, c) = create_all-IsValid ns ipc_init ipc_init-IsValid in
    (ground (arith, c, start, v.live port), refl)
  where
    start : ipc_init.port_count ≡ 0
    start = unfold ipc_init in refl
