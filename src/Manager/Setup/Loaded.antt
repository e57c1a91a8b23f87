-- ===== src/Manager/Setup/Loaded.antt =====
-- What the setup of the builders of a configuration leaves in the registry, and when it ends the
-- program (momosecpp/src/SimulationManager.cpp).
use Prim.Native.Char.{Char}
use Prim.Native.String.{String}
use text.Mathlib.Text.{◌==◌ as str_eq}
use text.Mathlib.TextEquality.{eq_iff}
use text.Mathlib.TextPositions.{eq_refl}
use simulations.Base.{
  ◌≡◌, ◌⊎◌, inl, inr, refl, sym, ap, subst, ◌∙◌, arith, Bool, true, false, if◌then◌else◌, List, [],
  ◌∷◌, Option, none, some, In, All, All-map, Bool-cases,
}
use simulations.Messages.Node.{◌>>=◌}
use simulations.Manager.Paths.{get_cfg_file_path}
use simulations.Manager.Builders.{
  Builder, search_name, push_found, get_build_vector, keep_parsed, parse_config, setup_builder,
}
use simulations.Manager.Known.{Finds, search_name-Finds}
use simulations.Manager.Setup.{store_builder, setup_all, setup_builders}

module _ {P : Type 0} where
  store_first :
      (b c : Builder P) (cs : List (Builder P)) (name : String)
      → b.name ≡ c.name
      → (t : Bool) → str_eq name b.name ≡ t
      → search_name (b ∷ cs) name
        ≡ (if str_eq name b.name then some b else search_name (c ∷ cs) name)
  unfolding search_name
  store_first b c cs name same true e = rw e refl
  store_first b c cs name same false e =
      let other : str_eq name c.name ≡ false = ap (str_eq name) (sym same) ∙ e in rw (e, other) refl

  store_later :
      (b c : Builder P) (cs : List (Builder P)) (name : String)
      → str_eq b.name c.name ≡ false
      → (t : Bool) → str_eq name c.name ≡ t
      → search_name (store_builder b cs) name
        ≡ (if str_eq name b.name then some b else search_name cs name)
      → search_name (c ∷ store_builder b cs) name
        ≡ (if str_eq name b.name then some b else search_name (c ∷ cs) name)
  unfolding search_name
  store_later b c cs name h true e later =
      let miss : str_eq name b.name ≡ false =
        ground (arith, eq_iff name b.name, eq_iff name c.name, eq_iff b.name c.name) in
      rw (e, miss) refl
  store_later b c cs name h false e later = rw e later

  -- The search after a write through the pointer to a builder that is there.
  search_name-store :
      (b : Builder P) (registered : List (Builder P)) (now : Builder P) (name : String)
      → search_name registered b.name ≡ some now
      → search_name (store_builder b registered) name
        ≡ (if str_eq name b.name then some b else search_name registered name)
  unfolding search_name store_builder
  search_name-store b [] now name e = cc
  search_name-store b (c ∷ cs) now name e = elim (Bool-cases (str_eq b.name c.name)) [
    | inl h ↦
        let same : b.name ≡ c.name = ground (arith, eq_iff b.name c.name) in
        rw h (store_first b c cs name same (str_eq name b.name) refl)
    | inr h ↦
        let later = search_name-store b cs now name (rw h at e) in
        rw h (store_later b c cs name h (str_eq name c.name) refl later)
  ]

abbrev pub is_some : {A : Type 0} → Option A → Bool
is_some none = false
is_some (some a) = true

module _ {P : Type 0} (read : List Char → P → Option P) (cfg_file_name : List Char) where
  -- `c` is what the setup makes of `b`: a parser, if it has one, has read the file whose path is
  -- built from its name.
  abbrev pub Configured : Builder P → Builder P → Type 0
  Configured b c =
      (c.name ≡ b.name)
      × (((b.config_parser ≡ none) × (c.config_parser ≡ none))
          ⊎ ((q : P) × (p : P) × (is_some b.config_parser ≡ true)
              × (read (get_cfg_file_path b.name cfg_file_name) q ≡ some p)
              × (c.config_parser ≡ some p)))

  -- The file of the builder's parser cannot be opened.
  abbrev pub Unreadable : Builder P → Type 0
  Unreadable b =
      (q : P) × (is_some b.config_parser ≡ true)
      × (read (get_cfg_file_path b.name cfg_file_name) q ≡ none)

  -- The registry's builder of that name is this one, before and after its setup.
  abbrev Usable : List (Builder P) → Builder P → Type 0
  Usable registered b =
      (c : Builder P) × (search_name registered b.name ≡ some c)
      × (c.name ≡ b.name)
      × (is_some b.config_parser ≡ is_some c.config_parser)

  abbrev pub Loaded : List (Builder P) → Builder P → Type 0
  Loaded registered b = (c : Builder P) × (search_name registered b.name ≡ some c) × Configured b c

  Loaded-Usable :
      (registered : List (Builder P)) (b : Builder P) → Loaded registered b → Usable registered b
  Loaded-Usable registered b (c, at, (name, inl (e, f))) =
      (c, at, name, ap is_some e ∙ ap is_some (sym f))
  Loaded-Usable registered b (c, at, (name, inr (q, p, e, opened, f))) =
      (c, at, name, e ∙ ap is_some (sym f))

  absent : (o : Option P) → is_some o ≡ false → o ≡ none
  absent none e = refl
  absent (some p) e = cc

  -- What was made of `now` was made of a builder of that name, with or without a parser as it.
  Configured-again :
      (d now c : Builder P)
      → now.name ≡ d.name
      → is_some d.config_parser ≡ is_some now.config_parser
      → Configured now c
      → Configured d c
  Configured-again d now c name kind (name', inl (e, f)) =
      (name' ∙ name, inl (absent d.config_parser (kind ∙ ap is_some e), f))
  Configured-again d now c name kind (name', inr (q, p, e, opened, f)) = (
    name' ∙ name,
    inr (
      q,
      p,
      kind ∙ e,
      subst (λ n. read (get_cfg_file_path n cfg_file_name) q ≡ some p) name opened,
      f,
    ),
  )

  module _ (registered : List (Builder P)) (now c : Builder P)
      (found : search_name registered now.name ≡ some now) (made : Configured now c) where
    stored :
        (name : String)
        → search_name (store_builder c registered) name
          ≡ (if str_eq name c.name then some c else search_name registered name)
    stored name =
        search_name-store c registered now name (ap (search_name registered) made.0 ∙ found)

    -- Another builder is as it was; the same one is configured.
    Usable-step :
        (d : Builder P)
        → Usable registered d
        → Usable (store_builder c registered) d
          × (Loaded (store_builder c registered) d ⊎ (str_eq d.name c.name ≡ false))
    Usable-step d (e, at, name, kind) = elim (Bool-cases (str_eq d.name c.name)) [
      | inl t ↦
          let same : d.name ≡ c.name = ground (arith, eq_iff d.name c.name) in
          let here : some e ≡ some now =
            sym at ∙ ap (search_name registered) (same ∙ made.0) ∙ found in
          let is : e ≡ now = ground arith in
          let done : Loaded (store_builder c registered) d = (
            c,
            stored d.name ∙ rw t refl,
            Configured-again d now c (sym (same ∙ made.0))
                (kind ∙ ap (λ b. is_some b.config_parser) is) made,
          ) in
          (Loaded-Usable (store_builder c registered) d done, inl done)
      | inr t ↦ ((e, stored d.name ∙ rw t at, name, kind), inr t)
    ]

    Loaded-step : (d : Builder P) → Loaded registered d → Loaded (store_builder c registered) d
    Loaded-step d (e, at, made') =
        let (usable, either) = Usable-step d (Loaded-Usable registered d (e, at, made')) in
        elim either [ inl done ↦ done | inr t ↦ (e, stored d.name ∙ rw t at, made') ]

  -- The setup of one builder.
  Result : Builder P → Option (Builder P) → Type 0
  Result b none = Unreadable b
  Result b (some c) = Configured b c

  kept :
      (b : Builder P) (q : P) (r : Option P)
      → is_some b.config_parser ≡ true
      → read (get_cfg_file_path b.name cfg_file_name) q ≡ r
      → Result b (keep_parsed read b r)
  unfolding Result keep_parsed
  kept b q none e f = (q, e, f)
  kept b q (some p) e f = (refl, inr (q, p, e, f, refl))

  parsed :
      (b : Builder P) (o : Option P)
      → b.config_parser ≡ o
      → Result b (parse_config read b o cfg_file_name)
  unfolding Result parse_config
  parsed b none e = (refl, inl (e, e))
  parsed b (some q) e =
      kept b q (read (get_cfg_file_path b.name cfg_file_name) q) (ap is_some e) refl

  -- The setup of all of them: it fails on one of them, or it leaves them all loaded, and what was
  -- loaded before.
  abbrev SetsUp : List (Builder P) → List (Builder P) → Option (List (Builder P)) → Type 0
  SetsUp bs registered none = (b : Builder P) × In b bs × Unreadable b
  SetsUp bs registered (some after) =
      All (Loaded after) bs × ((d : Builder P) → Loaded registered d → Loaded after d)

  Unreadable-again :
      (b now : Builder P)
      → now.name ≡ b.name
      → is_some b.config_parser ≡ is_some now.config_parser
      → Unreadable now
      → Unreadable b
  Unreadable-again b now name kind (q, e, failed) =
      (q, kind ∙ e, subst (λ n. read (get_cfg_file_path n cfg_file_name) q ≡ none) name failed)

  after_one :
      (b : Builder P) (bs registered next : List (Builder P)) (r : Option (List (Builder P)))
      → Loaded next b
      → ((d : Builder P) → Loaded registered d → Loaded next d)
      → SetsUp bs next r
      → SetsUp (b ∷ bs) registered r
  after_one b bs registered next none done keeps (d, at, failed) = (d, inr at, failed)
  after_one b bs registered next (some after) done keeps (all, rest) =
      ((rest b done, all), λ d h. rest d (keeps d h))

  one_more :
      (b : Builder P) (bs registered : List (Builder P)) (now : Builder P) (r : Option (Builder P))
      → search_name registered b.name ≡ some now
      → now.name ≡ b.name
      → is_some b.config_parser ≡ is_some now.config_parser
      → All (Usable registered) bs
      → Result now r
      → ((next : List (Builder P))
          → All (Usable next) bs
          → SetsUp bs next (setup_all read cfg_file_name bs next))
      → SetsUp
          (b ∷ bs)
          registered
          (r >>= λ c. setup_all read cfg_file_name bs (store_builder c registered))
  unfolding Result
  one_more b bs registered now none found name kind usable failed rec =
      (b, inl refl, Unreadable-again b now name kind failed)
  one_more b bs registered now (some c) found name kind usable made rec =
      let next = store_builder c registered in
      let here : search_name registered now.name ≡ some now =
        ap (search_name registered) name ∙ found in
      let t : str_eq b.name c.name ≡ true = ap (str_eq b.name) (made.0 ∙ name) ∙ eq_refl b.name in
      let done : Loaded next b = (
        c,
        stored registered now c here made b.name ∙ rw t refl,
        Configured-again b now c name kind made,
      ) in
      after_one b bs registered next (setup_all read cfg_file_name bs next) done
        (Loaded-step registered now c here made)
        (rec next (
          All-map (Usable registered) (Usable next)
            (λ d h. (Usable-step registered now c here made d h).0) bs usable))

  setup_all-SetsUp :
      (bs registered : List (Builder P))
      → All (Usable registered) bs
      → SetsUp bs registered (setup_all read cfg_file_name bs registered)
  unfolding setup_all setup_builder
  setup_all-SetsUp [] registered usable = (tt, λ d h. h)
  setup_all-SetsUp (b ∷ bs) registered ((now, found, name, kind), usable) = rw found (
      one_more b bs registered now (setup_builder read now cfg_file_name) found name kind usable
        (parsed now now.config_parser refl) (setup_all-SetsUp bs))

  -- A builder that the search finds.
  found-Usable :
      (registered : List (Builder P)) (name : String) (rest : List (Builder P))
      → (o : Option (Builder P)) → search_name registered name ≡ o
      → Finds registered name
      → All (Usable registered) rest
      → All (Usable registered) (push_found o rest)
  unfolding push_found
  found-Usable registered name rest none e finds usable = usable
  found-Usable registered name rest (some b) e (inl (c, found, same, at, known)) usable =
      let is : some b ≡ some c = sym e ∙ found in
      let alike : b ≡ c = ground arith in
      let b_name : b.name ≡ name = ap (λ d. d.name) alike ∙ same in
      ((b, ap (search_name registered) b_name ∙ e, refl, refl), usable)
  found-Usable registered name rest (some b) e (inr (missing, unknown)) usable = cc

  get_build_vector-Usable :
      (registered : List (Builder P)) (names : List String)
      → All (Usable registered) (get_build_vector registered names)
  unfolding get_build_vector
  get_build_vector-Usable registered [] = tt
  get_build_vector-Usable registered (name ∷ names) =
      found-Usable registered name (get_build_vector registered names) (search_name registered name)
        refl (search_name-Finds registered name) (get_build_vector-Usable registered names)

  abbrev pub Outcome : List (Builder P) → Option (List (Builder P)) → Type 0
  Outcome found none = (b : Builder P) × In b found × Unreadable b
  Outcome found (some after) = All (Loaded after) found

  outcome :
      (found registered : List (Builder P)) (r : Option (List (Builder P)))
      → SetsUp found registered r
      → Outcome found r
  outcome found registered none h = h
  outcome found registered (some after) h = h.0

  -- The setup of the builders that a configuration names ends the program only if the file of the
  -- parser of one of those found cannot be opened. Else the registry has, for each of those found,
  -- the builder of its name with a parser that has read the file whose path is built from the name,
  -- or still without a parser if it had none, also where a name is given twice.
  pub setup_builders-Outcome :
      (registered : List (Builder P)) (names : List String)
      → Outcome
          (get_build_vector registered names)
          (setup_builders read cfg_file_name names registered)
  unfolding setup_builders
  setup_builders-Outcome registered names =
      let found = get_build_vector registered names in
      outcome found registered (setup_all read cfg_file_name found registered)
        (setup_all-SetsUp found registered (get_build_vector-Usable registered names))
