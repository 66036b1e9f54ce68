-- ===== src/Txrx/Cli/Said.antt =====
-- The fields of the configuration, option by option.
use zyndra.Base.{
  ℕ, ◌≡◌, refl, arith, List, [], ◌∷◌, ◌++◌, Bool, true, false, take, All, Option-cases, inl, inr,
  ap, ◌∙◌,
}
use zyndra.Txrx.Cli.{
  mode_tcp, mode_udp, Diagnostic, diag_test, diag_loopback, diag_prbs, diag_membench, Text, Opt,
  rx_tcp_opt, rx_udp_opt, tx_tcp_opt, tx_udp_opt, tx_depth_opt, membench_opt, test_opt,
  loopback_opt, prbs_opt, help_opt, bad_opt, CliCfg, config, is_none, split_last_colon, set_rx_udp,
  apply_opt, apply_opts,
}
use zyndra.Txrx.Cli.Colon.{no_colon, split_last_colon-some, Parse-cases, guarded}

-- The last option of a kind, or a default where there is none.
abbrev pub last_diagnostic : List Opt → Diagnostic → Diagnostic
last_diagnostic [] d = d
last_diagnostic (test_opt ∷ os) d = last_diagnostic os diag_test
last_diagnostic (loopback_opt ∷ os) d = last_diagnostic os diag_loopback
last_diagnostic (prbs_opt ∷ os) d = last_diagnostic os diag_prbs
last_diagnostic (membench_opt a ∷ os) d = last_diagnostic os diag_membench
last_diagnostic (o ∷ os) d = last_diagnostic os d

abbrev pub last_loops : (Text → ℕ) → List Opt → ℕ → ℕ
last_loops atoi [] n = n
last_loops atoi (membench_opt a ∷ os) n = last_loops atoi os (atoi a)
last_loops atoi (o ∷ os) n = last_loops atoi os n

abbrev pub last_depth : {D : Type 0} → (Text → D) → List Opt → D → D
last_depth atof [] x = x
last_depth atof (tx_depth_opt a ∷ os) x = last_depth atof os (atof a)
last_depth atof (o ∷ os) x = last_depth atof os x

module _ {D : Type 0} (zero_double : D) (positive : D → Bool) (atoi : Text → ℕ)
    (atof : Text → D) where
  -- What an option that sets a direction says of the configuration.
  abbrev pub Said : CliCfg D → Opt → Type 0
  Said c (rx_tcp_opt a) = (c.rx_mode ≡ mode_tcp) × (c.rx_port ≡ atoi a)
  Said c (rx_udp_opt a) =
      (c.rx_mode ≡ mode_udp)
      × ((h : Text) × (p : Text) × (h ++ b':' ∷ p ≡ a)
          × (no_colon p ≡ true)
          × (c.rx_host ≡ take 63 h)
          × (c.rx_port ≡ atoi p))
  Said c (tx_tcp_opt a) = (c.tx_mode ≡ mode_tcp) × (c.tx_port ≡ atoi a)
  Said c (tx_udp_opt a) = (c.tx_mode ≡ mode_udp) × (c.tx_port ≡ atoi a)
  Said c o = Unit

  -- A direction that is set stays as it is.
  abbrev pub KeepsRx : CliCfg D → CliCfg D → Type 0
  KeepsRx c c' =
      is_none c.rx_mode ≡ false
      → (c'.rx_mode ≡ c.rx_mode) × (c'.rx_port ≡ c.rx_port) × (c'.rx_host ≡ c.rx_host)

  abbrev pub KeepsTx : CliCfg D → CliCfg D → Type 0
  KeepsTx c c' = is_none c.tx_mode ≡ false → (c'.tx_mode ≡ c.tx_mode) × (c'.tx_port ≡ c.tx_port)

  set_rx_udp-Said :
      (a : Text) (c : CliCfg D) {c' : CliCfg D}
      → set_rx_udp zero_double positive atoi atof a c ≡ config c'
      → Said c' (rx_udp_opt a)
        × (c'.tx_mode ≡ c.tx_mode)
        × (c'.tx_port ≡ c.tx_port)
        × (c'.diagnostic ≡ c.diagnostic)
        × (c'.membench_loops ≡ c.membench_loops)
        × (c'.tx_depth_msamples ≡ c.tx_depth_msamples)
  unfolding set_rx_udp
  set_rx_udp-Said a c {c'} e = elim (Option-cases (split_last_colon a)) [
    | inl none_found ↦ ground arith
    | inr ((h, p), found) ↦
        let (whole, free) = split_last_colon-some a found in
        (
          (ground arith, (h, p, whole, free, ground arith, ground arith)),
          ground arith,
          ground arith,
          ground arith,
          ground arith,
          ground arith,
        )
  ]

  -- After one option.
  abbrev Follows : Opt → CliCfg D → CliCfg D → Type 0
  Follows o c c' =
      Said c' o
      × KeepsRx c c'
      × KeepsTx c c'
      × (c'.diagnostic ≡ last_diagnostic (o ∷ []) c.diagnostic)
      × (c'.membench_loops ≡ last_loops atoi (o ∷ []) c.membench_loops)
      × (c'.tx_depth_msamples ≡ last_depth atof (o ∷ []) c.tx_depth_msamples)

  apply_opt-Follows :
      (o : Opt) (c : CliCfg D) {c' : CliCfg D}
      → apply_opt zero_double positive atoi atof o c ≡ config c'
      → Follows o c c'
  unfolding apply_opt
  apply_opt-Follows (rx_udp_opt a) c e =
      let (free, went) =
        guarded (is_none c.rx_mode) (set_rx_udp zero_double positive atoi atof a c) e in
      let (said, mode, port, diagnostic, loops, depth) = set_rx_udp-Said a c went in
      (said, λ h. cc, λ h. (mode, port), diagnostic, loops, depth)
  apply_opt-Follows (rx_tcp_opt a) c {c'} e = ground arith
  apply_opt-Follows (tx_tcp_opt a) c {c'} e = ground arith
  apply_opt-Follows (tx_udp_opt a) c {c'} e = ground arith
  apply_opt-Follows (tx_depth_opt a) c {c'} e = ground arith
  apply_opt-Follows (membench_opt a) c {c'} e = ground arith
  apply_opt-Follows test_opt c {c'} e = ground arith
  apply_opt-Follows loopback_opt c {c'} e = ground arith
  apply_opt-Follows prbs_opt c {c'} e = ground arith
  apply_opt-Follows help_opt c {c'} e = ground arith
  apply_opt-Follows bad_opt c {c'} e = ground arith

  -- What an option said still holds after those behind it.
  Said-later : (o : Opt) (c c' : CliCfg D) → KeepsRx c c' → KeepsTx c c' → Said c o → Said c' o
  Said-later (rx_tcp_opt a) c c' rx tx h = ground (arith, rx (ap is_none h.0))
  Said-later (rx_udp_opt a) c c' rx tx (mode, (h, p, whole, free, host, port)) =
      let (mode', port', host') = rx (ap is_none mode) in
      (mode' ∙ mode, (h, p, whole, free, host' ∙ host, port' ∙ port))
  Said-later (tx_tcp_opt a) c c' rx tx h = ground (arith, tx (ap is_none h.0))
  Said-later (tx_udp_opt a) c c' rx tx h = ground (arith, tx (ap is_none h.0))
  Said-later (tx_depth_opt a) c c' rx tx h = tt
  Said-later (membench_opt a) c c' rx tx h = tt
  Said-later test_opt c c' rx tx h = tt
  Said-later loopback_opt c c' rx tx h = tt
  Said-later prbs_opt c c' rx tx h = tt
  Said-later help_opt c c' rx tx h = tt
  Said-later bad_opt c c' rx tx h = tt

  keeps_rx : (c c₁ c' : CliCfg D) → KeepsRx c c₁ → KeepsRx c₁ c' → KeepsRx c c'
  keeps_rx c c₁ c' f g h =
      let (mode, port, host) = f h in
      let (mode', port', host') = g (ap is_none mode ∙ h) in
      (mode' ∙ mode, port' ∙ port, host' ∙ host)

  keeps_tx : (c c₁ c' : CliCfg D) → KeepsTx c c₁ → KeepsTx c₁ c' → KeepsTx c c'
  keeps_tx c c₁ c' f g h =
      let (mode, port) = f h in
      let (mode', port') = g (ap is_none mode ∙ h) in (mode' ∙ mode, port' ∙ port)

  opts_next :
      (o : Opt) (os : List Opt) (c : CliCfg D) {c₁ c' : CliCfg D}
      → apply_opt zero_double positive atoi atof o c ≡ config c₁
      → apply_opts zero_double positive atoi atof (o ∷ os) c ≡ config c'
      → apply_opts zero_double positive atoi atof os c₁ ≡ config c'
  unfolding apply_opts
  opts_next o os c went e = cc

  next_diagnostic :
      (o : Opt) (os : List Opt) (d : Diagnostic)
      → last_diagnostic os (last_diagnostic (o ∷ []) d) ≡ last_diagnostic (o ∷ os) d
  next_diagnostic (rx_tcp_opt a) os x = refl
  next_diagnostic (rx_udp_opt a) os x = refl
  next_diagnostic (tx_tcp_opt a) os x = refl
  next_diagnostic (tx_udp_opt a) os x = refl
  next_diagnostic (tx_depth_opt a) os x = refl
  next_diagnostic (membench_opt a) os x = refl
  next_diagnostic test_opt os x = refl
  next_diagnostic loopback_opt os x = refl
  next_diagnostic prbs_opt os x = refl
  next_diagnostic help_opt os x = refl
  next_diagnostic bad_opt os x = refl

  next_loops :
      (o : Opt) (os : List Opt) (n : ℕ)
      → last_loops atoi os (last_loops atoi (o ∷ []) n) ≡ last_loops atoi (o ∷ os) n
  next_loops (rx_tcp_opt a) os x = refl
  next_loops (rx_udp_opt a) os x = refl
  next_loops (tx_tcp_opt a) os x = refl
  next_loops (tx_udp_opt a) os x = refl
  next_loops (tx_depth_opt a) os x = refl
  next_loops (membench_opt a) os x = refl
  next_loops test_opt os x = refl
  next_loops loopback_opt os x = refl
  next_loops prbs_opt os x = refl
  next_loops help_opt os x = refl
  next_loops bad_opt os x = refl

  next_depth :
      (o : Opt) (os : List Opt) (x : D)
      → last_depth atof os (last_depth atof (o ∷ []) x) ≡ last_depth atof (o ∷ os) x
  next_depth (rx_tcp_opt a) os x = refl
  next_depth (rx_udp_opt a) os x = refl
  next_depth (tx_tcp_opt a) os x = refl
  next_depth (tx_udp_opt a) os x = refl
  next_depth (tx_depth_opt a) os x = refl
  next_depth (membench_opt a) os x = refl
  next_depth test_opt os x = refl
  next_depth loopback_opt os x = refl
  next_depth prbs_opt os x = refl
  next_depth help_opt os x = refl
  next_depth bad_opt os x = refl

  -- What the options say of the configuration that they make.
  pub apply_opts-Said :
      (os : List Opt) (c : CliCfg D) {c' : CliCfg D}
      → apply_opts zero_double positive atoi atof os c ≡ config c'
      → All (Said c') os
        × KeepsRx c c'
        × KeepsTx c c'
        × (c'.diagnostic ≡ last_diagnostic os c.diagnostic)
        × (c'.membench_loops ≡ last_loops atoi os c.membench_loops)
        × (c'.tx_depth_msamples ≡ last_depth atof os c.tx_depth_msamples)
  unfolding apply_opts
  apply_opts-Said [] c {c'} e = ground arith
  apply_opts-Said (o ∷ os) c {c'} e =
      elim (Parse-cases (apply_opt zero_double positive atoi atof o c)) [
        | inl (c₁, went) ↦
            let (said, rx, tx, diagnostic, loops, depth) = apply_opt-Follows o c went in
            let (all, rx', tx', diagnostic', loops', depth') =
              apply_opts-Said os c₁ (opts_next o os c went e) in
            (
              (Said-later o c₁ c' rx' tx' said, all),
              keeps_rx c c₁ c' rx rx',
              keeps_tx c c₁ c' tx tx',
              diagnostic'
                  ∙ (ap (last_diagnostic os) diagnostic ∙ next_diagnostic o os c.diagnostic),
              loops' ∙ (ap (last_loops atoi os) loops ∙ next_loops o os c.membench_loops),
              depth' ∙ (ap (last_depth atof os) depth ∙ next_depth o os c.tx_depth_msamples),
            )
        | inr (n, left) ↦ ground arith
      ]
