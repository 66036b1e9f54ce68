-- ===== src/Qemu/Lifecycle.antt =====
-- The device's use of the library and of its timer, from realize to finalize.
use mathlib.Core.Option
use zyndra.Base.{
  append-nil, ◌+◌, ℕ, ◌≡◌, refl, ◌∙◌, arith, Bool, true, false, not, ◌&&◌, List, [], ◌∷◌, ◌++◌,
  Option, none, some, if◌then◌else◌, Bool-cases, Option-cases, inl, inr,
}
use zyndra.Qemu.{
  create, destroy, Library, Host, Error, Event, opened, closed, timer_made, timer_freed, called,
  Device, fresh, Access, resolve_all, names, tick_ns, realize, mmio_read, mmio_write, rx_tick,
  finalize, reads, writes, ticks, run,
}

-- What is in use: the library, its context, the timer.
pub record Uses : Type 0 where
  pub loaded : Bool
  pub context : Bool
  pub timer : Bool

abbrev pub nothing : Uses
nothing = record { loaded = false; context = false; timer = false }

-- An event that is in order: the library is opened once, called only while it is open, and closed
-- with its context gone and the timer freed; a context is made once and destroyed once. `makes`
-- says whether `ad936x_create` returns a context.
abbrev pub follow : Bool → Event → Uses → Option Uses
follow makes opened u = if u.loaded then none else some (record u { loaded = true })
follow makes closed u =
    if u.loaded && (not u.context && not u.timer) then some (record u { loaded = false }) else none
follow makes timer_made u = if u.timer then none else some (record u { timer = true })
follow makes timer_freed u = if u.timer then some (record u { timer = false }) else none
follow makes (called create) u =
    if u.loaded && not u.context then some (record u { context = makes }) else none
follow makes (called destroy) u =
    if u.loaded && u.context then some (record u { context = false }) else none
follow makes (called s) u = if u.loaded then some u else none

abbrev pub follow_all : Bool → List Event → Uses → Option Uses
follow_all makes [] u = some u
follow_all makes (e ∷ es) u = elim (follow makes e u) [
  | none ↦ none
  | some v ↦ follow_all makes es v
]

follow_all-append :
    (makes : Bool) (es fs : List Event) (u v : Uses)
    → follow_all makes es u ≡ some v
    → follow_all makes (es ++ fs) u ≡ follow_all makes fs v
follow_all-append makes [] fs u v e = cc
follow_all-append makes (x ∷ es) fs u v e = elim (Option-cases (follow makes x u)) [
  | inl refused ↦ cc
  | inr (w, ok) ↦
      let rest : follow_all makes es w ≡ some v = cc in cc (follow_all-append makes es fs w v rest)
]

abbrev pub is_some : {A : Type 0} → Option A → Bool
is_some none = false
is_some (some a) = true

is_some-map : {A : Type 0} (f : A → A) (o : Option A) → is_some (Option.map f o) ≡ is_some o
is_some-map f none = refl
is_some-map f (some a) = refl

module _ {Ctx : Type 0} (lib : Library Ctx) where
  -- The use of a device after realize, with all events from there to the end.
  abbrev pub live :
      List (Access lib) → (ℕ → ℕ) → Option Error × Device Ctx × List Event → List Event
  live accesses mem (some error, d, es) = es ++ finalize lib d
  live accesses mem (none, d, es) =
      es ++ ((run lib accesses mem d).3 ++ finalize lib (run lib accesses mem d).2)

  -- All events of a device that is made, realized, used if that has succeeded, and finalized.
  unfoldable pub history : Host → ℕ → List (Access lib) → (ℕ → ℕ) → List Event
  history host now accesses mem = live accesses mem (realize lib host now (fresh lib))

  -- A device that is ready: with the library open, its destructor known, and the timer set.
  record IsReady (makes : Bool) (d : Device Ctx) : Type 0 where
    handle : d.lib_handle ≡ true
    destructor : d.destroy_set ≡ true
    set : is_some d.rx_timer ≡ true
    context : is_some d.rust_ctx ≡ makes

  abbrev in_use : Bool → Uses
  in_use makes = record { loaded = true; context = makes; timer = true }

  run-IsReady :
      (makes : Bool) (accesses : List (Access lib)) (mem : ℕ → ℕ) (d : Device Ctx)
      → IsReady makes d
      → IsReady makes (run lib accesses mem d).2
        × (follow_all makes (run lib accesses mem d).3 (in_use makes) ≡ some (in_use makes))
  unfolding run mmio_read mmio_write rx_tick
  run-IsReady makes [] mem d v = (v, refl)
  run-IsReady makes (reads addr size ∷ accesses) mem d v =
      run-IsReady makes accesses mem
        (record d { rust_ctx = Option.map (lib.after_read addr size) d.rust_ctx })
        (record {
          handle = v.handle;
          destructor = v.destructor;
          set = v.set;
          context = is_some-map (lib.after_read addr size) d.rust_ctx ∙ v.context;
        })
  run-IsReady makes (writes addr val size ∷ accesses) mem d v =
      run-IsReady makes accesses mem
        (record d { rust_ctx = Option.map (lib.after_write addr val size) d.rust_ctx })
        (record {
          handle = v.handle;
          destructor = v.destructor;
          set = v.set;
          context = is_some-map (lib.after_write addr val size) d.rust_ctx ∙ v.context;
        })
  run-IsReady makes (ticks now ∷ accesses) mem d v =
      let (mem', d', e) = rx_tick lib now mem d in
      run-IsReady makes accesses mem' d' (record {
        handle = v.handle;
        destructor = v.destructor;
        set = refl;
        context = is_some-map lib.after_tick d.rust_ctx ∙ v.context;
      })

  finalize_lem :
      (makes : Bool) (d : Device Ctx)
      → IsReady makes d
      → follow_all makes (finalize lib d) (in_use makes) ≡ some nothing
  unfolding finalize
  finalize_lem makes d v = ground arith

  abbrev ready : ℕ → Device Ctx
  ready now = record {
    lib_handle = true;
    rust_ctx = lib.fn_create;
    destroy_set = true;
    rx_timer = some (now + tick_ns);
  }

  -- A realize that fails leaves the library closed and no context.
  abbrev Realized : ℕ → Option Error × Device Ctx × List Event → Type 0
  Realized now (some error, d, es) =
      (follow_all (is_some lib.fn_create) es nothing ≡ some nothing) × (finalize lib d ≡ [])
  Realized now (none, d, es) = (d ≡ ready now) × (es ≡ opened ∷ called create ∷ timer_made ∷ [])

  realize-Realized : (host : Host) (now : ℕ) → Realized now (realize lib host now (fresh lib))
  unfolding realize finalize
  realize-Realized host now = elim (Bool-cases host.lib_path) [
    | inr unset ↦ rw unset (refl, refl)
    | inl set ↦ elim (Bool-cases host.loads) [
      | inr missing ↦ rw (set, missing) (refl, refl)
      | inl found ↦ elim (Option-cases (resolve_all host names)) [
        | inr (name, unresolved) ↦ simp (set, found, unresolved) (refl, refl)
        | inl resolved ↦ simp (set, found, resolved) (refl, refl)
      ]
    ]
  ]

  live_lem :
      (accesses : List (Access lib)) (mem : ℕ → ℕ) (now : ℕ)
      (r : Option Error × Device Ctx × List Event)
      → Realized now r
      → follow_all (is_some lib.fn_create) (live accesses mem r) nothing ≡ some nothing
  live_lem accesses mem now (some error, d, es) (tidy, gone) = rw (gone, append-nil es) tidy
  live_lem accesses mem now (none, d, es) (is_ready, is_made) =
      rw (is_made, is_ready)
        (follow_all-append makes (run lib accesses mem (ready now)).3 _ (in_use makes)
            (in_use makes) lives.1
          ∙ finalize_lem makes (run lib accesses mem (ready now)).2 lives.0)
    where
      makes : Bool
      makes = is_some lib.fn_create

      lives :
          IsReady makes (run lib accesses mem (ready now)).2
          × (follow_all makes (run lib accesses mem (ready now)).3 (in_use makes)
              ≡ some (in_use makes))
      lives =
          run-IsReady makes accesses mem (ready now)
            (record { handle = refl; destructor = refl; set = refl; context = refl })

  -- Whatever the environment, the loader and the library answer, and whatever accesses and ticks a
  -- device that has been realized sees, its whole life uses the library and the timer in order and
  -- leaves nothing in use.
  pub history_lem :
      (host : Host) (now : ℕ) (accesses : List (Access lib)) (mem : ℕ → ℕ)
      → follow_all (is_some lib.fn_create) (history host now accesses mem) nothing ≡ some nothing
  unfolding history
  history_lem host now accesses mem =
      live_lem accesses mem now (realize lib host now (fresh lib)) (realize-Realized host now)
