-- ===== src/App/Ready.antt =====
-- What bc_seek_application_init of src/bc_seek_main.c leaves when it succeeds.
use bc_seek.Base.{
  ap, ◌∙◌, ℕ, ◌≡◌, sym, refl, Bool, true, false, Option, none, some, List, [], Bytes, arith, ◌⊎◌,
  inl, inr, ℤ, pos, if◌then◌else◌,
}
use mathlib.Core.Path.{subst}
use bc_seek.Types.{CliOptions, OutputMode, stdout_mode, file_mode}
use bc_seek.Filter.{Predicate, predicate_from_options}
use bc_seek.Output.{Writer, IsLawful, Output, output_attach, output_open_stdout, output_open_file}
use bc_seek.Walk.{WalkConfig}
use bc_seek.App.{
  initial_state, walk_config, Runtime, ApplicationState, open_output, open_option, application_init,
}

pub Mode-cases : (m : OutputMode) → (m ≡ stdout_mode) ⊎ (m ≡ file_mode)
Mode-cases stdout_mode = inl refl
Mode-cases file_mode = inr refl

-- NUL or newline.
abbrev pub separator_of : CliOptions → ℕ
separator_of o = if o.null_terminated then 0 else 10

-- An output that nothing was written to.
abbrev pub Fresh : (W : Writer) → IsLawful W → Bool → Output W → Type 0
Fresh W L null_terminated o =
    (L.written o.writer ≡ []) × (o.separator ≡ (if null_terminated then 0 else 10))

-- The walk that the options ask for.
abbrev pub config_of : Runtime → CliOptions → WalkConfig
config_of rt o = record {
  predicate = predicate_from_options rt.now o;
  signal_handler = rt.signal_handler;
  follow_symlinks = o.follow_symlinks;
  one_file_system = o.one_file_system;
}

module _ (W : Writer) (L : IsLawful W) (rt : Runtime) where
  output_attach-Fresh :
      (fd : ℤ) (null_terminated owns_fd : Bool)
      → (output_attach W fd null_terminated owns_fd).0 ≡ true
      → Fresh W L null_terminated (output_attach W fd null_terminated owns_fd).1
  unfolding output_attach
  output_attach-Fresh fd null_terminated owns_fd h =
      let w = (W.init W.zeroed fd).1 in
      let done : W.init W.zeroed fd ≡ (true, w) = ground arith in
      let empty = L.init_law W.zeroed w fd done in ground (arith, empty)

  output_open_stdout-Fresh :
      (null_terminated : Bool)
      → (output_open_stdout W null_terminated).0 ≡ true
      → Fresh W L null_terminated (output_open_stdout W null_terminated).1
  unfolding output_open_stdout
  output_open_stdout-Fresh null_terminated h = output_attach-Fresh (pos 1) null_terminated false h

  abbrev attach_opened : Option ℕ → Bool → Output W → Bool × Output W × List ℤ
  attach_opened opened null_terminated o = elim opened [
    | none ↦ (false, o, [])
    | some fd ↦ output_attach W (pos fd) null_terminated true
  ]

  attach_opened-Fresh :
      (opened : Option ℕ) (null_terminated : Bool) (o : Output W)
      → (attach_opened opened null_terminated o).0 ≡ true
      → Fresh W L null_terminated (attach_opened opened null_terminated o).1
  attach_opened-Fresh none null_terminated o h = absurd (cc)
  attach_opened-Fresh (some fd) null_terminated o h =
      output_attach-Fresh (pos fd) null_terminated true h

  output_open_file-Fresh :
      (open_file : Bytes → Option ℕ) (path : Bytes) (null_terminated : Bool) (o : Output W)
      → (output_open_file W open_file path null_terminated o).0 ≡ true
      → Fresh W L null_terminated (output_open_file W open_file path null_terminated o).1
  unfolding output_open_file
  output_open_file-Fresh open_file path null_terminated o h =
      attach_opened-Fresh (open_file path) null_terminated o h

  -- The state of a run that may begin.
  pub record Ready (s t : ApplicationState W) : Type 0 where
    pub same_options : t.cli_options ≡ s.cli_options
    pub predicate : t.predicate ≡ s.predicate
    pub opened : t.output_opened ≡ true
    pub unwritten : L.written t.output.writer ≡ []
    pub separator : t.output.separator ≡ separator_of s.cli_options
    pub unreported : t.effects.reports ≡ s.effects.reports
    pub same_text : t.effects.direct_text ≡ s.effects.direct_text

  open_output-Fresh :
      (s : ApplicationState W)
      → (open_output W rt s).0 ≡ true
      → Fresh W L s.cli_options.null_terminated (open_output W rt s).1.output
  unfolding open_output
  open_output-Fresh s h = elim (Mode-cases s.cli_options.output_mode) [
    | inl screen ↦
        let nt = s.cli_options.null_terminated in
        let done : (output_open_stdout W nt).0 ≡ true = ground arith in
        let fresh = output_open_stdout-Fresh nt done in ground (arith, fresh)
    | inr named ↦
        let nt = s.cli_options.null_terminated in
        let open_file = open_option rt.open_file s.cli_options.output_path in
        let done : (output_open_file W open_file [] nt s.output).0 ≡ true = ground arith in
        let fresh = output_open_file-Fresh open_file [] nt s.output done in ground (arith, fresh)
  ]

  open_output-Ready :
      (s : ApplicationState W) → (open_output W rt s).0 ≡ true → Ready s (open_output W rt s).1
  unfolding open_output
  open_output-Ready s h =
      let (empty, separator) = open_output-Fresh s h in
      record {
        same_options = ground arith;
        predicate = ground arith;
        opened = ground arith;
        unwritten = empty;
        separator = separator;
        unreported = ground arith;
        same_text = ground arith;
      }

  -- The state in which the options are set up as a predicate.
  abbrev pub with_predicate : ApplicationState W → ApplicationState W
  with_predicate s = record s {
    errors = some [];
    predicate = predicate_from_options rt.now s.cli_options;
  }

  -- A successful setup has memory, and opens the output of a state with the predicate of the
  -- options.
  pub application_init-Ready :
      (s : ApplicationState W)
      → (application_init W rt s).0 ≡ true
      → (rt.memory_context ≡ true) × Ready (with_predicate s) (application_init W rt s).1
  unfolding application_init
  application_init-Ready s h =
      let memory : rt.memory_context ≡ true = ground arith in
      let same : application_init W rt s ≡ open_output W rt (with_predicate s) = ground arith in
      let done : (open_output W rt (with_predicate s)).0 ≡ true = ground arith in
      (
        memory,
        subst (λ (r : Bool × ApplicationState W). Ready (with_predicate s) r.1) (sym same)
            (open_output-Ready (with_predicate s) done),
      )

  -- The walk of the state that a setup leaves is that of the options.
  pub same_config :
      (options : CliOptions) (s : ApplicationState W)
      → Ready (with_predicate (initial_state W options)) s
      → walk_config rt s ≡ config_of rt options
  same_config options s ready =
      ap (λ (p : Predicate). record (walk_config rt s) { predicate = p }) ready.predicate
      ∙ ap
          (λ (o : CliOptions). record (config_of rt o) {
            predicate = predicate_from_options rt.now options;
          })
          ready.same_options
