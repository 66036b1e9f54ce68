-- ===== src/Txrx/Cli/Accepted.antt =====
-- What a command line that is accepted says.
use zyndra.Base.{ℕ, ◌+◌, ◌≤◌, ◌⊎◌, ◌≡◌, List, [], ◌∷◌, Bool, length}
use zyndra.Txrx.Cli.Said.{Said}
use zyndra.Txrx.Cli.{
  Mode, mode_none, Text, Opt, rx_tcp_opt, rx_udp_opt, tx_tcp_opt, tx_udp_opt, CliCfg,
}

-- How many options set a direction.
abbrev pub rx_one : Opt → ℕ
rx_one (rx_tcp_opt a) = 1
rx_one (rx_udp_opt a) = 1
rx_one o = 0

abbrev pub tx_one : Opt → ℕ
tx_one (tx_tcp_opt a) = 1
tx_one (tx_udp_opt a) = 1
tx_one o = 0

abbrev pub rx_options : List Opt → ℕ
rx_options [] = 0
rx_options (o ∷ os) = rx_one o + rx_options os

abbrev pub tx_options : List Opt → ℕ
tx_options [] = 0
tx_options (o ∷ os) = tx_one o + tx_options os

-- 1 for a direction that is set.
abbrev pub uses : Mode → ℕ
uses mode_none = 0
uses m = 1

module _ {D : Type 0} (zero_double : D) (positive : D → Bool) (atoi : Text → ℕ)
    (atof : Text → D) where
  Grows : CliCfg D → CliCfg D → ℕ → ℕ → Type 0
  Grows c c' r t =
      (uses c.rx_mode + r ≡ uses c'.rx_mode)
      × (uses c.tx_mode + t ≡ uses c'.tx_mode)
      × ((length c'.rx_host ≤ 63) ⊎ (length c'.rx_host ≡ length c.rx_host))
