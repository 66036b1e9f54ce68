-- ===== src/Txrx/Cli.antt =====
-- The command line of ad9361_txrx.c. `getopt_long` is the C library's: its results are the input.
pub mod Colon
pub mod Said
pub mod Accepted
use zyndra.Base.{
  ℕ, zero, suc, List, [], ◌∷◌, ◌++◌, Bool, true, false, ◌&&◌, ◌||◌, not, ◌==◌, if◌then◌else◌,
  Option, none, some, take,
}

-- `enum mode`
pub data Mode : Type 0 where
  mode_none mode_tcp mode_udp : Mode

-- `enum diagnostic`
pub data Diagnostic : Type 0 where
  diag_none diag_test diag_loopback diag_prbs diag_membench : Diagnostic

abbrev pub Text : Type 0
Text = List ℕ

-- One result of `getopt_long`; `bad_opt` is '?'.
pub data Opt : Type 0 where
  rx_tcp_opt rx_udp_opt tx_tcp_opt tx_udp_opt tx_depth_opt membench_opt : Text → Opt
  test_opt loopback_opt prbs_opt help_opt bad_opt : Opt

-- `D` is the type `double`.
pub record CliCfg (D : Type 0) : Type 0 where
  pub diagnostic : Diagnostic
  pub membench_loops : ℕ
  pub rx_mode : Mode
  pub tx_mode : Mode
  pub rx_port : ℕ
  pub rx_host : Text
  pub tx_port : ℕ
  pub tx_depth_msamples : D

-- Go on with a configuration, or leave with an exit status.
pub data Parse (D : Type 0) : Type 0 where
  config : CliCfg D → Parse D
  leave : ℕ → Parse D

abbrev pub is_none : Mode → Bool
is_none mode_none = true
is_none m = false

abbrev pub no_diag : Diagnostic → Bool
no_diag diag_none = true
no_diag d = false

-- `strrchr(s, ':')`: the text before and after the last colon.
unfoldable pub split_last_colon : Text → Option (Text × Text)
split_last_colon [] = none
split_last_colon (c ∷ cs) = elim (split_last_colon cs) [
  | some (h, p) ↦ some (c ∷ h, p)
  | none ↦ (if c == b':' then some ([], cs) else none)
]

-- `atoi` and `atof` are the C library's; `positive` is `> 0` on `double`.
module _ {D : Type 0} (zero_double : D) (positive : D → Bool) (atoi : Text → ℕ)
    (atof : Text → D) where
  -- `struct cli_cfg cfg = {0}`
  abbrev pub empty_cfg : CliCfg D
  empty_cfg = record {
    diagnostic = diag_none;
    membench_loops = 0;
    rx_mode = mode_none;
    tx_mode = mode_none;
    rx_port = 0;
    rx_host = [];
    tx_port = 0;
    tx_depth_msamples = zero_double;
  }

  -- `rx_host` has room for 63 characters.
  unfoldable pub set_rx_udp : Text → CliCfg D → Parse D
  set_rx_udp arg c = elim (split_last_colon arg) [
    | none ↦ leave 1
    | some (host, port) ↦
        config (record c { rx_host = take 63 host; rx_port = atoi port; rx_mode = mode_udp })
  ]

  -- The body of the `switch`.
  unfoldable pub apply_opt : Opt → CliCfg D → Parse D
  apply_opt (rx_tcp_opt arg) c =
      if is_none c.rx_mode
      then config (record c { rx_mode = mode_tcp; rx_port = atoi arg })
      else leave 1
  apply_opt (rx_udp_opt arg) c = if is_none c.rx_mode then set_rx_udp arg c else leave 1
  apply_opt (tx_tcp_opt arg) c =
      if is_none c.tx_mode
      then config (record c { tx_mode = mode_tcp; tx_port = atoi arg })
      else leave 1
  apply_opt (tx_udp_opt arg) c =
      if is_none c.tx_mode
      then config (record c { tx_mode = mode_udp; tx_port = atoi arg })
      else leave 1
  apply_opt (tx_depth_opt arg) c = config (record c { tx_depth_msamples = atof arg })
  apply_opt test_opt c = config (record c { diagnostic = diag_test })
  apply_opt loopback_opt c = config (record c { diagnostic = diag_loopback })
  apply_opt prbs_opt c = config (record c { diagnostic = diag_prbs })
  apply_opt (membench_opt arg) c =
      config (record c { diagnostic = diag_membench; membench_loops = atoi arg })
  apply_opt help_opt c = leave 0
  apply_opt bad_opt c = leave 1

  unfoldable pub apply_opts : List Opt → CliCfg D → Parse D
  apply_opts [] c = config c
  apply_opts (o ∷ os) c = elim (apply_opt o c) [ config c' ↦ apply_opts os c' | leave n ↦ leave n ]

  -- The checks after the loop; `positional` says whether arguments are left.
  unfoldable pub check_cfg : Bool → CliCfg D → Parse D
  check_cfg positional c =
      let streaming = not (is_none c.rx_mode) || not (is_none c.tx_mode) in
      if positional
      then leave 1
      else if not (no_diag c.diagnostic) && streaming
      then leave 1
      else if positive c.tx_depth_msamples && is_none c.tx_mode
      then leave 1
      else if no_diag c.diagnostic && not streaming
      then leave 1
      else config c

  unfoldable pub parse_cli : List Opt → Bool → Parse D
  parse_cli os positional = elim (apply_opts os empty_cfg) [
    | config c ↦ check_cfg positional c
    | leave n ↦ leave n
  ]
