-- ===== src/Receiver/Setup/Registers.antt =====
-- What the FPGA and the system see of the start of ad9361_rx.c.
use zyndra.Base.{
  ℕ, ◌/◌, ◌^◌, ◌==◌, ◌≡◌, refl, arith, Bool, true, false, ◌&&◌, List, [], ◌∷◌, some, not, ◌||◌,
  Option-cases, inl, inr, Bool-cases,
}
use zyndra.Receiver.Setup.{
  Act, allocated, freed, semaphores_made, semaphores_destroyed, mem_opened, mem_closed, ring_mapped,
  status_started, registers_mapped, registers_unmapped, sender_started, write_ctrl, write_base,
  write_size, System, read_reserved_mem, configure, start_fpga, map_memory, setup, ctrl_enable,
  ctrl_reset,
}

-- The FPGA's registers. `held` says whether every write of a buffer register found it in reset.
pub record Registers : Type 0 where
  pub ctrl : ℕ
  pub base : ℕ
  pub size : ℕ
  pub held : Bool

unfoldable pub apply : Act → Registers → Registers
apply (write_ctrl v) r = record r { ctrl = v }
apply (write_base v) r = record r { base = v; held = r.held && r.ctrl == ctrl_reset }
apply (write_size v) r = record r { size = v; held = r.held && r.ctrl == ctrl_reset }
apply act r = r

unfoldable pub apply_all : List Act → Registers → Registers
apply_all [] r = r
apply_all (a ∷ acts) r = apply_all acts (apply a r)

-- What the program holds. `misused`: something was taken while it was held, or given back while it
-- was not.
pub record Held : Type 0 where
  pub buffer : Bool
  pub semaphores : Bool
  pub mem_file : Bool
  pub register_map : Bool
  pub ring_map : Bool
  pub sender : Bool
  pub status : Bool
  pub misused : Bool

abbrev pub holds : Act → Held → Held
holds allocated h = record h { buffer = true; misused = h.misused || h.buffer }
holds freed h = record h { buffer = false; misused = h.misused || not h.buffer }
holds semaphores_made h = record h { semaphores = true; misused = h.misused || h.semaphores }
holds semaphores_destroyed h = record h {
  semaphores = false;
  misused = h.misused || not h.semaphores;
}
holds mem_opened h = record h { mem_file = true; misused = h.misused || h.mem_file }
holds mem_closed h = record h { mem_file = false; misused = h.misused || not h.mem_file }
holds registers_mapped h = record h { register_map = true; misused = h.misused || h.register_map }
holds registers_unmapped h = record h {
  register_map = false;
  misused = h.misused || not h.register_map;
}
holds ring_mapped h = record h { ring_map = true; misused = h.misused || h.ring_map }
holds sender_started h = record h { sender = true; misused = h.misused || h.sender }
holds status_started h = record h { status = true; misused = h.misused || h.status }
holds act h = h

abbrev pub holds_all : List Act → Held → Held
holds_all [] h = h
holds_all (a ∷ acts) h = holds_all acts (holds a h)

abbrev pub nothing_held : Held
nothing_held = record {
  buffer = false;
  semaphores = false;
  mem_file = false;
  register_map = false;
  ring_map = false;
  sender = false;
  status = false;
  misused = false;
}

abbrev pub all_held : Held
all_held = record {
  buffer = true;
  semaphores = true;
  mem_file = true;
  register_map = true;
  ring_map = true;
  sender = true;
  status = true;
  misused = false;
}

-- How a start that holds `h` ends, by whether it comes to the main loop. `left` says whether the
-- sender's thread is left over by a start that fails.
abbrev pub Ends : Bool → Held → System → Registers → Bool × List Act → Type 0
Ends left h sys r (true, acts) =
    (read_reserved_mem sys.reg_file ≡ some ((apply_all acts r).base, (apply_all acts r).size))
    × ((apply_all acts r).ctrl ≡ ctrl_enable)
    × ((apply_all acts r).held ≡ true)
    × (holds_all acts h ≡ all_held)
Ends left h sys r (false, acts) =
    (apply_all acts r ≡ r) × (holds_all acts h ≡ record nothing_held { sender = left })

-- Before the registers are mapped, and after.
abbrev with_mem : Held
with_mem = record all_held { register_map = false; ring_map = false; status = false }

abbrev with_registers : Held
with_registers = record all_held { ring_map = false; status = false }

module _ (sys : System) (r : Registers) (now : r.ctrl ≡ sys.ctrl) (ok : r.held ≡ true) where
  start_fpga-Ends :
      (base size : ℕ)
      → read_reserved_mem sys.reg_file ≡ some (base, size)
      → Ends true with_registers sys r (start_fpga sys base size)
  unfolding start_fpga configure apply apply_all
  start_fpga-Ends base size found = elim (Bool-cases sys.maps_ring) [
    | inl maps ↦ elim (Bool-cases (sys.ctrl == 0)) [
      | inl off ↦ rw (maps, off) (found, refl, ground (arith, ok), refl)
      | inr on ↦ rw (maps, on) (found, refl, ground (arith, ok), refl)
    ]
    | inr fails ↦ rw fails (refl, refl)
  ]

  map_memory-Ends : Ends true with_mem sys r (map_memory sys)
  unfolding map_memory apply apply_all
  map_memory-Ends = elim (Bool-cases (sys.info / 2 ^ 16 == 0xCAFE)) [
    | inl known ↦ elim (Option-cases (read_reserved_mem sys.reg_file)) [
      | inl missing ↦ rw (known, missing) (refl, refl)
      | inr ((base, size), found) ↦
          rw (known, found) (started (start_fpga sys base size) (start_fpga-Ends base size found))
    ]
    | inr other ↦ rw other (refl, refl)
  ]
    where
      started :
          (e : Bool × List Act)
          → Ends true with_registers sys r e
          → Ends true with_mem sys r (e.0, registers_mapped ∷ e.1)
      started (true, acts) v = v
      started (false, acts) v = v

  -- A start that comes to the main loop leaves the FPGA enabled, with the reserved memory in its
  -- buffer registers, which were written under reset only, and holds the buffer, the semaphores,
  -- `/dev/mem`, both maps and both threads, each taken once. Any other leaves the FPGA as it was,
  -- and has given back, once each, all that it took, but for the sender's thread, which is left
  -- over where the buffer had been allocated.
  pub setup-Ends : Ends sys.alloc nothing_held sys r (setup sys)
  unfolding setup apply apply_all
  setup-Ends = elim (Bool-cases sys.alloc) [
    | inl got ↦ elim (Bool-cases sys.opens) [
      | inl opened ↦ elim (Bool-cases sys.maps_registers) [
        | inl mapped ↦ simp (got, opened, mapped) (started (map_memory sys) map_memory-Ends)
        | inr fails ↦ rw (got, opened, fails) (refl, refl)
      ]
      | inr fails ↦ rw (got, fails) (refl, refl)
    ]
    | inr fails ↦ rw fails (refl, refl)
  ]
    where
      started :
          (e : Bool × List Act)
          → Ends true with_mem sys r e
          → Ends true nothing_held sys r
              (e.0, allocated ∷ semaphores_made ∷ sender_started ∷ mem_opened ∷ e.1)
      started (true, acts) v = v
      started (false, acts) v = v
