-- ===== src/Cli/Init/Outcomes.antt =====
-- How the steps of `bee init` end: with an error or with a value of theirs, not with a panic.
use text.Mathlib.Text.{◌==◌ as str_eq}
use text.Mathlib.TextEquality.{eq_iff}
use bumblebee.Common.{
  ◌≡◌, refl, ap, ◌∙◌, ◌⊎◌, inl, inr, Bool-cases, Option-cases, String, true, ◌&&◌, some, List,
  if◌then◌else◌, arith,
}
use bumblebee.Cli.Init.Kinds.{
  TemplateData, supported_languages, supported_program_types, supported_map_types,
  supported_output_types, map_type_to_template_data, open_at_template,
}
use bumblebee.Cli.Init.Skeletons.{
  Output, print, counter, gauge, Skeleton, open_at, ring_of, hash_of, output_name, data_of,
}
use bumblebee.Cli.Init.{
  InitOptions, Terminal, InitError, prompt_error, no_overrides, bad_program_type, bad_language,
  bad_map_type, bad_output_type, Result, ok, err, ◌>>=◌, contains, rendered, value_of, map_type_of,
  output_type_of, handle_network_program, language_type_of, program_type_of, map_template_of,
  file_location_of,
}

-- A result that is not a panic, where a value has a property.
unfoldable pub Outcome : {A : Type 0} → (A → Type 0) → Result A → Type 0
Outcome {A} P r = ((a : A) × (r ≡ ok a) × P a) ⊎ ((e : InitError) × (r ≡ err e))

pub bind-Outcome :
    {A B : Type 0} (P : A → Type 0) (Q : B → Type 0) (r : Result A) (f : A → Result B)
    → Outcome P r
    → ((a : A) → P a → Outcome Q (f a))
    → Outcome Q (r >>= f)
unfolding Outcome
bind-Outcome P Q r f (inl (a, e, p)) k = elim (k a p) [
  | inl (b, e', q) ↦ inl (b, ap (λ x. x >>= f) e ∙ e', q)
  | inr (x, e') ↦ inr (x, ap (λ x. x >>= f) e ∙ e')
]
bind-Outcome P Q r f (inr (x, e)) k = inr (x, ap (λ x. x >>= f) e)

-- The documented behaviour of promptui's `Select`: what it gives is one of the items.
unfoldable pub Selects : Terminal → Type 0
Selects T =
    (question v : String) (options : List String)
    → T.select question options ≡ some v
    → contains v options ≡ true

listed-output :
    (v : String) → contains v supported_output_types ≡ true → (o : Output) × (v ≡ output_name o)
unfolding contains output_name
listed-output v h = elim (Bool-cases (str_eq v "print")) [
  | inl a ↦ (print, ground (arith, a, eq_iff v "print"))
  | inr a ↦ elim (Bool-cases (str_eq v "counter")) [
    | inl b ↦ (counter, ground (arith, b, eq_iff v "counter"))
    | inr b ↦ (gauge, ground (arith, a, b, h, eq_iff v "gauge"))
  ]
]

listed-map :
    (o : Output) (v : String)
    → contains v supported_map_types ≡ true
    → (s : Skeleton) × (rendered (output_name o) (map_type_to_template_data v) ≡ ok (data_of s))
unfolding contains rendered map_type_to_template_data data_of
listed-map o v h = elim (Bool-cases (str_eq v "RingBuffer")) [
  | inl a ↦ (ring_of o, ground (arith, a))
  | inr a ↦ (hash_of o, ground (arith, a, h))
]

network :
    (m v : String)
    → contains m supported_map_types ≡ true
    → contains v supported_output_types ≡ true
    → (t : TemplateData) × (rendered v (map_type_to_template_data m) ≡ ok t)
      × ((s : Skeleton) × (t ≡ data_of s))
network m v listed known =
    let (o, is) = listed-output v known in
    let (s, e) = listed-map o m listed in
    (data_of s, ap (λ x. rendered x (map_type_to_template_data m)) is ∙ e, (s, refl))

module _ (T : Terminal) (W : Selects T) where
  value_of-Outcome :
      (given question : String) (options : List String) (bad : String → InitError)
      → Outcome (λ v. contains v options ≡ true) (value_of T given question options bad)
  unfolding Outcome value_of Selects
  value_of-Outcome given question options bad = elim (Bool-cases (str_eq given "")) [
    | inl b ↦ elim (Option-cases (T.select question options)) [
      | inl e ↦ inr (prompt_error, ground (arith, b, e))
      | inr (v, e) ↦ inl (v, ground (arith, b, e), W question v options e)
    ]
    | inr b ↦ elim (Bool-cases (contains given options)) [
      | inl c ↦ inl (given, ground (arith, b, c), c)
      | inr c ↦ inr (bad given, ground (arith, b, c))
    ]
  ]

  handle_network_program-Outcome :
      (opts : InitOptions)
      → Outcome (λ t. (s : Skeleton) × (t ≡ data_of s)) (handle_network_program T opts)
  unfolding Outcome handle_network_program map_type_of output_type_of
  handle_network_program-Outcome opts =
      bind-Outcome (λ v. contains v supported_map_types ≡ true)
        (λ t. (s : Skeleton) × (t ≡ data_of s)) (map_type_of T opts)
        (λ m. output_type_of T opts >>= λ o. rendered o (map_type_to_template_data m))
        (value_of-Outcome opts.map_type "What type of map should we initialize" supported_map_types
          bad_map_type)
        (λ m listed.
          bind-Outcome (λ v. contains v supported_output_types ≡ true)
            (λ t. (s : Skeleton) × (t ≡ data_of s)) (output_type_of T opts)
            (λ o. rendered o (map_type_to_template_data m))
            (value_of-Outcome opts.output_type "What type of output would you like from your map"
              supported_output_types bad_output_type)
            (λ v known. inl (network m v listed known)))

  pub map_template_of-Outcome :
      (program_type : String) (opts : InitOptions)
      → Outcome (λ t. (s : Skeleton) × (t ≡ data_of s)) (map_template_of T program_type opts)
  unfolding map_template_of Outcome data_of
  map_template_of-Outcome program_type opts = elim (Bool-cases (str_eq program_type "Network")) [
    | inl n ↦ elim (handle_network_program-Outcome opts) [
      | inl (t, e, s) ↦ inl (t, ground (arith, n, e), s)
      | inr (x, e) ↦ inr (x, ground (arith, n, e))
    ]
    | inr n ↦ elim (Bool-cases (str_eq program_type "FileSystem")) [
      | inl f ↦ elim (Bool-cases (str_eq opts.map_type "" && str_eq opts.output_type "")) [
        | inl o ↦ inl (open_at_template, ground (arith, n, f, o), (open_at, refl))
        | inr o ↦ inr (no_overrides, ground (arith, n, f, o))
      ]
      | inr f ↦ inr (bad_program_type program_type, ground (arith, n, f))
    ]
  ]

  pub language_type_of-Outcome :
      (opts : InitOptions) → Outcome (λ v. Unit {0}) (language_type_of T opts)
  unfolding language_type_of Outcome
  language_type_of-Outcome opts = elim (Bool-cases (str_eq opts.language "")) [
    | inl b ↦
        elim (Option-cases
          (T.select "What language do you wish to use for the filter" supported_languages)) [
            | inl e ↦ inr (prompt_error, ground (arith, b, e))
            | inr (v, e) ↦ inl (v, ground (arith, b, e), tt)
          ]
    | inr b ↦ elim (Bool-cases (contains opts.language supported_languages)) [
      | inl c ↦ inl ("", ground (arith, b, c), tt)
      | inr c ↦ inr (bad_language opts.language, ground (arith, b, c))
    ]
  ]

  pub program_type_of-Outcome :
      (opts : InitOptions) → Outcome (λ v. Unit {0}) (program_type_of T opts)
  unfolding program_type_of Outcome
  program_type_of-Outcome opts = elim (Bool-cases (str_eq opts.program_type "")) [
    | inl b ↦
        elim (Option-cases
          (T.select "What type of program to initialize" supported_program_types)) [
            | inl e ↦ inr (prompt_error, ground (arith, b, e))
            | inr (v, e) ↦ inl (v, ground (arith, b, e), tt)
          ]
    | inr b ↦ inl (opts.program_type, ground (arith, b), tt)
  ]

  pub file_location_of-Outcome :
      (language_type : String) (opts : InitOptions)
      → Outcome (λ v. Unit {0}) (file_location_of T language_type opts)
  unfolding file_location_of Outcome
  file_location_of-Outcome language_type opts = elim (Bool-cases (str_eq opts.file_path "")) [
    | inl b ↦ elim (Option-cases T.prompt) [
      | inl e ↦ inr (prompt_error, ground (arith, b, e))
      | inr (v, e) ↦
          inl (
            if str_eq v "" && str_eq language_type "C" then "bee.c" else v,
            ground (arith, b, e),
            tt,
          )
    ]
    | inr b ↦ inl (opts.file_path, ground (arith, b), tt)
  ]
