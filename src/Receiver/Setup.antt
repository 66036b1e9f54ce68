-- ===== src/Receiver/Setup.antt =====
-- The start of ad9361_rx.c: its arguments, the memory it maps, and the FPGA's registers.
pub mod Registers
use zyndra.Base.{
  ℕ, ◌+◌, ◌*◌, ◌/◌, ◌^◌, ◌==◌, ◌&&◌, Bool, true, false, not, List, [], ◌∷◌, ◌++◌, Option, none,
  some, take, if◌then◌else◌,
}
use zyndra.Txrx.Cli.{Text, split_last_colon}

-- `tx_mode_t`
pub data SendMode : Type 0 where
  mode_tcp mode_udp : SendMode

-- The globals that the arguments set.
pub record Settings : Type 0 where
  pub send_mode : SendMode
  pub port : ℕ
  pub host : Text
  pub buf_cnt : ℕ
  pub buf_size : ℕ

-- `strcmp(s, t) == 0`
abbrev pub same_text : Text → Text → Bool
same_text [] [] = true
same_text (c ∷ cs) (d ∷ ds) = c == d && same_text cs ds
same_text s t = false

abbrev pub tcp_flag : Text
tcp_flag = b'-' ∷ b'-' ∷ b't' ∷ b'c' ∷ b'p' ∷ []

abbrev pub udp_flag : Text
udp_flag = b'-' ∷ b'-' ∷ b'u' ∷ b'd' ∷ b'p' ∷ []

-- `atoi` is the C library's. The arguments are those after the program's name.
unfoldable pub parse_args : (Text → ℕ) → List Text → Option Settings
parse_args atoi (flag ∷ arg ∷ []) =
    if same_text flag tcp_flag
    then some (record {
      send_mode = mode_tcp;
      port = atoi arg;
      host = [];
      buf_cnt = 1024;
      buf_size = 32768;
    })
    else if same_text flag udp_flag
    then elim (split_last_colon arg) [
      | none ↦ none
      | some (host, port) ↦ some (record {
        send_mode = mode_udp;
        port = atoi port;
        host = take 63 host;
        buf_cnt = 1024;
        buf_size = 1472;
      })
    ]
    else none
parse_args atoi args = none

-- `ntohl` of a cell.
abbrev pub be32 : ℕ → ℕ → ℕ → ℕ → ℕ
be32 a b c d = a * 2 ^ 24 + b * 2 ^ 16 + c * 2 ^ 8 + d

-- The content of the `reg` file, if it can be opened; `fread` wants two whole cells.
unfoldable pub read_reserved_mem : Option (List ℕ) → Option (ℕ × ℕ)
read_reserved_mem (some (a ∷ b ∷ c ∷ d ∷ e ∷ f ∷ g ∷ h ∷ rest)) = some (be32 a b c d, be32 e f g h)
read_reserved_mem file = none

abbrev pub ctrl_enable : ℕ
ctrl_enable = 1

abbrev pub ctrl_reset : ℕ
ctrl_reset = 2

-- What the program does: resources that it takes and gives back, threads, and register writes.
pub data Act : Type 0 where
  allocated freed semaphores_made semaphores_destroyed : Act
  mem_opened mem_closed registers_mapped registers_unmapped ring_mapped : Act
  sender_started status_started : Act
  write_ctrl write_base write_size : ℕ → Act

-- The answers of the system: `malloc`, `open`, the two `mmap`s, the values of INFO and of the control
-- register, and the file with the reserved memory.
pub record System : Type 0 where
  pub alloc : Bool
  pub opens : Bool
  pub maps_registers : Bool
  pub info : ℕ
  pub reg_file : Option (List ℕ)
  pub maps_ring : Bool
  pub ctrl : ℕ

-- The labels at the end of `main`.
abbrev pub err_free : List Act
err_free = semaphores_destroyed ∷ freed ∷ []

abbrev pub err_close : List Act
err_close = mem_closed ∷ err_free

abbrev pub err_unmap : List Act
err_unmap = registers_unmapped ∷ err_close

-- Stops the FPGA where it runs, and programs it under reset.
unfoldable pub configure : ℕ → ℕ → ℕ → List Act
configure ctrl base size =
    (if ctrl == 0 then [] else write_ctrl 0 ∷ [])
    ++ (write_ctrl ctrl_reset
        ∷ write_base base
        ∷ write_size size
        ∷ write_ctrl 0
        ∷ write_ctrl ctrl_enable
        ∷ [])

-- From the mapping of the ring to the main loop.
unfoldable pub start_fpga : System → ℕ → ℕ → Bool × List Act
start_fpga sys base size =
    if sys.maps_ring
    then (true, ring_mapped ∷ (configure sys.ctrl base size ++ status_started ∷ []))
    else (false, err_unmap)

-- From the mapping of the registers on.
unfoldable pub map_memory : System → Bool × List Act
map_memory sys =
    if not (sys.info / 2 ^ 16 == 0xCAFE)
    then (false, registers_mapped ∷ err_unmap)
    else elim (read_reserved_mem sys.reg_file) [
      | none ↦ (false, registers_mapped ∷ err_unmap)
      | some (base, size) ↦
          let (started, acts) = start_fpga sys base size in (started, registers_mapped ∷ acts)
    ]

-- `main` after its arguments, up to the main loop, and whether it gets there.
unfoldable pub setup : System → Bool × List Act
setup sys =
    let (started, acts) = map_memory sys in
    if not sys.alloc
    then (false, [])
    else if not sys.opens
    then (false, allocated ∷ semaphores_made ∷ sender_started ∷ err_free)
    else if not sys.maps_registers
    then (false, allocated ∷ semaphores_made ∷ sender_started ∷ mem_opened ∷ err_close)
    else (started, allocated ∷ semaphores_made ∷ sender_started ∷ mem_opened ∷ acts)
