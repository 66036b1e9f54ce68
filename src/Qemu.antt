-- ===== src/Qemu.antt =====
-- The QEMU device fpga/qemu/qemu-patches/ad936x_axi.c, which loads the peripheral from a shared
-- library and passes the guest's accesses on to it.
pub mod Lifecycle
mod Tests
use mathlib.Core.Option
use zyndra.Base.{
  ℕ, ◌+◌, ◌==◌, Bool, true, false, not, List, [], ◌∷◌, ◌++◌, Option, none, some, if◌then◌else◌,
}

-- `TICK_NS`
abbrev pub tick_ns : ℕ
tick_ns = 1000000

-- The functions that the library exports.
pub data Symbol : Type 0 where
  create destroy read write tick : Symbol

-- The library, which is not part of this file: `Ctx` is what a context pointer points to, and
-- `none` is a null pointer. A read and a tick have a result and change what the context holds; a
-- tick's result is the DMA writes that it asks for, as addresses and bytes.
pub record Library (Ctx : Type 0) : Type 0 where
  pub fn_create : Option Ctx
  pub fn_read : Option Ctx → ℕ → ℕ → ℕ
  pub after_read : ℕ → ℕ → Ctx → Ctx
  pub after_write : ℕ → ℕ → ℕ → Ctx → Ctx
  pub fn_tick : Option Ctx → List (ℕ × List ℕ)
  pub after_tick : Ctx → Ctx

-- The answers of the host: the environment variable, `dlopen`, and `dlsym` for each name.
pub record Host : Type 0 where
  pub lib_path : Bool
  pub loads : Bool
  pub exports : Symbol → Bool

pub data Error : Type 0 where
  not_set load_failed : Error
  not_found : Symbol → Error

-- What the device does with the library and with its timer, in order.
pub data Event : Type 0 where
  opened closed timer_made timer_freed : Event
  called : Symbol → Event

-- `AD936xAXIState`: `destroy_set` says whether `fn_destroy` is not null, and `rx_timer` is the time
-- for which the timer is set.
pub record Device (Ctx : Type 0) : Type 0 where
  pub lib_handle : Bool
  pub rust_ctx : Option Ctx
  pub destroy_set : Bool
  pub rx_timer : Option ℕ

-- The bytes of guest memory that a DMA write changes: `address_space_write`.
unfoldable pub dma_write : List ℕ → ℕ → (ℕ → ℕ) → ℕ → ℕ
dma_write [] addr mem = mem
dma_write (x ∷ xs) addr mem = dma_write xs (addr + 1) (λ a. if a == addr then x else mem a)

unfoldable pub dma_writes : List (ℕ × List ℕ) → (ℕ → ℕ) → ℕ → ℕ
dma_writes [] mem = mem
dma_writes ((addr, bytes) ∷ ws) mem = dma_writes ws (dma_write bytes addr mem)

-- The first name that `resolve` does not find, in the order of the five calls.
unfoldable pub resolve_all : Host → List Symbol → Option Symbol
resolve_all host [] = none
resolve_all host (name ∷ names) =
    let rest = resolve_all host names in if host.exports name then rest else some name

abbrev pub names : List Symbol
names = create ∷ destroy ∷ read ∷ write ∷ tick ∷ []

module _ {Ctx : Type 0} (lib : Library Ctx) where
  -- A device as `g_malloc0` makes it.
  abbrev pub fresh : Device Ctx
  fresh = record { lib_handle = false; rust_ctx = none; destroy_set = false; rx_timer = none }

  -- `ad936x_axi_realize` at a time of the virtual clock.
  unfoldable pub realize : Host → ℕ → Device Ctx → Option Error × Device Ctx × List Event
  realize host now d =
      if not host.lib_path
      then (some not_set, d, [])
      else if not host.loads
      then (some load_failed, record d { lib_handle = false }, [])
      else elim (resolve_all host names) [
        | some name ↦ (
          some (not_found name),
          record d {
            lib_handle = false;
            destroy_set = if host.exports create then host.exports destroy else d.destroy_set;
          },
          opened ∷ closed ∷ [],
        )
        | none ↦ (
          none,
          record d {
            lib_handle = true;
            rust_ctx = lib.fn_create;
            destroy_set = true;
            rx_timer = some (now + tick_ns);
          },
          opened ∷ called create ∷ timer_made ∷ [],
        )
      ]

  -- `ad936x_axi_read` and `ad936x_axi_write`.
  unfoldable pub mmio_read : ℕ → ℕ → Device Ctx → ℕ × Device Ctx × List Event
  mmio_read addr size d = (
    lib.fn_read d.rust_ctx addr size,
    record d { rust_ctx = Option.map (lib.after_read addr size) d.rust_ctx },
    called read ∷ [],
  )

  unfoldable pub mmio_write : ℕ → ℕ → ℕ → Device Ctx → Device Ctx × List Event
  mmio_write addr val size d = (
    record d { rust_ctx = Option.map (lib.after_write addr val size) d.rust_ctx },
    called write ∷ [],
  )

  -- `ad936x_rx_tick`
  unfoldable pub rx_tick : ℕ → (ℕ → ℕ) → Device Ctx → (ℕ → ℕ) × Device Ctx × List Event
  rx_tick now mem d = (
    dma_writes (lib.fn_tick d.rust_ctx) mem,
    record d { rust_ctx = Option.map lib.after_tick d.rust_ctx; rx_timer = some (now + tick_ns) },
    called tick ∷ [],
  )

  -- `ad936x_axi_finalize`
  unfoldable pub finalize : Device Ctx → List Event
  finalize d =
      elim d.rx_timer [ none ↦ [] | some deadline ↦ timer_freed ∷ [] ]
      ++ (elim d.rust_ctx [
        | none ↦ []
        | some ctx ↦ (if d.destroy_set then called destroy ∷ [] else [])
      ]
          ++ (if d.lib_handle then closed ∷ [] else []))

  -- What happens to a device between realize and finalize.
  pub data Access : Type 0 where
    reads : ℕ → ℕ → Access
    writes : ℕ → ℕ → ℕ → Access
    ticks : ℕ → Access

  unfoldable pub run :
      List Access → (ℕ → ℕ) → Device Ctx → List ℕ × (ℕ → ℕ) × Device Ctx × List Event
  run [] mem d = ([], mem, d, [])
  run (reads addr size ∷ accesses) mem d =
      let (v, d, e) = mmio_read addr size d in
      let (vs, mem, d, es) = run accesses mem d in (v ∷ vs, mem, d, e ++ es)
  run (writes addr val size ∷ accesses) mem d =
      let (d, e) = mmio_write addr val size d in
      let (vs, mem, d, es) = run accesses mem d in (vs, mem, d, e ++ es)
  run (ticks now ∷ accesses) mem d =
      let (mem, d, e) = rx_tick now mem d in
      let (vs, mem, d, es) = run accesses mem d in (vs, mem, d, e ++ es)
