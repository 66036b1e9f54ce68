-- ===== src/Axi/Probe.antt =====
-- `ad936x_axi_probe`: checks the FPGA, finds the two reserved buffers and registers the device.
pub mod Outcomes
use zyndra.Base.{ℕ, ◌/◌, ◌^◌, Bool, true, false, List, [], ◌∷◌, ◌++◌, not, ◌==◌, if◌then◌else◌}
use zyndra.Axi.State.{Priv, Errno, einval, enodev, enomem, info_magic}

-- What a kernel call answers: a value or an error code.
pub data Answer (A : Type 0) : Type 0 where
  got : A → Answer A
  code : ℕ → Answer A

pub record Resource : Type 0 where
  pub start : ℕ
  pub size : ℕ

-- The kernel's answers: `devm_kzalloc`, `devm_platform_ioremap_resource`, the INFO register,
-- `of_parse_phandle` and `of_address_to_resource` for each index of `memory-region`, and
-- `misc_register`.
pub record Platform : Type 0 where
  pub alloc : Bool
  pub regs : Answer ℕ
  pub info : ℕ
  pub node : ℕ → Bool
  pub resource : ℕ → Answer Resource
  pub misc : Answer ℕ

pub data Failure : Type 0 where
  errno : Errno → Failure
  kernel : ℕ → Failure

pub data ProbeResult (A : Type 0) : Type 0 where
  failed : Failure → ProbeResult A
  probed : A → ProbeResult A

-- References to device-tree nodes, taken by `of_parse_phandle` and dropped by `of_node_put`; and the
-- registration of the device file, and what `ad936x_axi_remove` takes back.
pub data Event : Type 0 where
  node_get node_put : ℕ → Event
  registered deregistered debugfs_created debugfs_removed : Event

-- A step of the probe: its result, and the events of the step in order.
abbrev pub Step : Type 0 → Type 0
Step A = ProbeResult A × List Event

infixl 5 ◌>>=◌
abbrev pub ◌>>=◌ : {A B : Type 0} → Step A → (A → Step B) → Step B
(failed f, es) >>= k = (failed f, es)
(probed a, es) >>= k = let (r, es') = k a in (r, es ++ es')

-- The two stanzas that parse `memory-region` differ in the index alone.
unfoldable pub region : Platform → ℕ → Step Resource
region pf i =
    if pf.node i
    then elim (pf.resource i) [
      | got r ↦ (probed r, node_get i ∷ node_put i ∷ [])
      | code e ↦ (failed (kernel e), node_get i ∷ node_put i ∷ [])
    ]
    else (failed (errno einval), [])

-- `kzalloc` gives zeroes.
unfoldable pub fresh_priv : Resource → Resource → Priv
fresh_priv tx rx = record {
  txbuf_phys = tx.start;
  txbuf_size = 0;
  txbuf_size_max = tx.size;
  tx_wr_ptr = 0;
  rxbuf_phys = rx.start;
  rxbuf_size = 0;
  rxbuf_size_max = rx.size;
  rd_ptr = 0;
  in_use = 0;
  closing = false;
  blocks_ready = 0;
  timer_wr_ptr = 0;
  open_time = 0;
  last_read_time = 0;
  total_bytes_written = 0;
  prev_wr_ptr = 0;
  buf_used_peak = 0;
  read_count = 0;
  overrun_bytes = 0;
  effects = [];
}

unfoldable pub check_fpga : Platform → Step ℕ
check_fpga pf = if not pf.alloc then (failed (errno enomem), []) else elim pf.regs [
  | code e ↦ (failed (kernel e), [])
  | got base ↦
      (if pf.info / 2 ^ 16 == info_magic then (probed base, []) else (failed (errno enodev), []))
]

unfoldable pub register_misc : Platform → Priv → Step Priv
register_misc pf p = elim pf.misc [
  | got n ↦ (probed p, registered ∷ debugfs_created ∷ [])
  | code e ↦ (failed (kernel e), [])
]

unfoldable pub probe : Platform → Step Priv
probe pf = do
  base ← check_fpga pf
  tx ← region pf 0
  rx ← region pf 1
  register_misc pf (fresh_priv tx rx)

-- `ad936x_axi_remove`
unfoldable pub remove : List Event
remove = debugfs_removed ∷ deregistered ∷ []
